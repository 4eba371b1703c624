-- ===== src/Planning/Document.antt =====
-- A plan as a JSON document: its digest, and `validate_plan_document`.
use Prim.Native.String.{count}
use codex_storage_doctor.Prelude.{
  String, ◌==◌, ◌<>◌, Bool, true, false, not, ◌&&◌, ◌||◌, Option, none, some, List, [], ◌∷◌, eqb,
}
use codex_storage_doctor.Text.{upper, prefix, all_chars, is_hex, is_log_db_name}
use codex_storage_doctor.Json.{Json, Fields, str, obj, get, without, is_text, is_natural, text_of}
use codex_storage_doctor.Errors.{Exn, plan_error}
use codex_storage_doctor.Host.{Host}
use codex_storage_doctor.Effects.{Outcome}
use codex_storage_doctor.Planning.Modes.{
  Mode, mode_of, trigger_names, trigger_sql, normalize_sql, first_refusal,
}
use codex_storage_doctor.Planning.Schema.{is_none}
use codex_storage_doctor.Planning.Surroundings.{expected_artifact_root}

abbrev pub plan_schema : String
plan_schema = "codex-storage-doctor.plan.v1"

abbrev pub tool_version : String
tool_version = "0.1.1"

-- `isinstance(value, str) and value`
unfoldable pub is_nonempty_text : Json → Bool
is_nonempty_text (str s) = not (s == "")
is_nonempty_text _ = false

-- `_is_sha256`
unfoldable pub is_sha256 : Json → Bool
unfolding all_chars is_hex
is_sha256 (str s) = eqb (count s) 64 && all_chars is_hex s
is_sha256 _ = false

-- `isinstance(identity, Mapping)`, and its fields.
unfoldable pub is_mapping : Json → Bool
is_mapping (obj fs) = true
is_mapping _ = false

unfoldable pub fields_of : Json → Fields
fields_of (obj fs) = fs
fields_of _ = Fields.end

-- `TRIGGER_NAMES[mode]` and `TRIGGER_SQL[mode]` behind the test that the mode is a key.
unfoldable pub name_for : Option Mode → String
unfolding trigger_names
name_for none = ""
name_for (some m) = trigger_names m

unfoldable pub sql_for : Option Mode → String
unfolding trigger_sql
sql_for none = ""
sql_for (some m) = trigger_sql m

module _ (host : Host) where
  unfoldable pub calculate_plan_digest : Fields → String
  calculate_plan_digest plan =
      host.sha256 (host.dumps (without ("plan_digest" ∷ "confirmation_token" ∷ []) plan))

  -- `f"APPLY-{digest[:12].upper()}"`
  unfoldable pub confirmation_token : String → String
  unfolding upper prefix
  confirmation_token digest = "APPLY-" <> upper (prefix 12 digest)

  -- The tests of `validate_plan_document`, in order, each with the error that it raises.
  unfoldable pub plan_tests : Fields → List (Bool × Exn)
  unfolding is_nonempty_text is_sha256 is_mapping fields_of name_for sql_for calculate_plan_digest
      confirmation_token normalize_sql expected_artifact_root
  plan_tests plan =
      let mode = mode_of (text_of (get "mode" plan)) in
      let database = host.path (text_of (get "database" plan)) in
      let root = host.path (text_of (get "artifact_root" plan)) in
      let identity = fields_of (get "file_identity" plan) in
      let digest = calculate_plan_digest plan in
      (not (is_text plan_schema (get "schema_version" plan)), plan_error "unsupported plan schema")
      ∷ (
        not (is_text tool_version (get "tool_version" plan)),
        plan_error "plan tool version mismatch; create a fresh plan",
      )
      ∷ (is_none mode, plan_error "unsupported plan mode")
      ∷ (not (is_nonempty_text (get "database" plan)), plan_error "plan database target is invalid")
      ∷ (
        not (host.is_absolute database) || not (is_log_db_name (host.base_name database)),
        plan_error "plan database target is invalid",
      )
      ∷ (
        not (is_text (host.base_name database) (get "database_name" plan)),
        plan_error "plan database target name mismatch",
      )
      ∷ (
        not (is_nonempty_text (get "artifact_root" plan)),
        plan_error "plan artifact root is invalid",
      )
      ∷ (not (host.is_absolute root), plan_error "plan artifact root is invalid")
      ∷ (
        not (host.normal root == host.normal (expected_artifact_root host database)),
        plan_error "plan artifact root does not match the database target",
      )
      ∷ (not (is_mapping (get "file_identity" plan)), plan_error "plan file identity is invalid")
      ∷ (not (is_natural (get "device" identity)), plan_error "plan file identity is invalid")
      ∷ (not (is_natural (get "inode" identity)), plan_error "plan file identity is invalid")
      ∷ (
        not (is_sha256 (get "base_schema_fingerprint" plan)),
        plan_error "plan base schema fingerprint is invalid",
      )
      ∷ (
        not (is_text digest (get "plan_digest" plan)),
        plan_error "plan digest mismatch; artifact was changed",
      )
      ∷ (
        not (is_text (confirmation_token digest) (get "confirmation_token" plan)),
        plan_error "plan confirmation token mismatch",
      )
      ∷ (
        not (is_text (name_for mode) (get "trigger_name" plan)),
        plan_error "plan trigger name mismatch",
      )
      ∷ (
        not (is_text (host.sha256 (normalize_sql (sql_for mode))) (get "trigger_sql_sha256" plan)),
        plan_error "plan trigger SQL fingerprint mismatch",
      )
      ∷ []

  unfoldable pub validate_plan_document : Fields → Outcome (Unit {0})
  unfolding plan_tests
  validate_plan_document plan = first_refusal (plan_tests plan)
