-- ===== src/Mitigation/Manifest.antt =====
-- The rollback manifest: its digest and token, `_seal_manifest` and `validate_manifest`.
pub mod Seal
pub mod Accept
use codex_storage_doctor.Prelude.{
  String, ◌==◌, ◌<>◌, Bool, true, false, not, ◌||◌, List, [], ◌∷◌, contains,
}
use codex_storage_doctor.Text.{upper, prefix, is_log_db_name}
use codex_storage_doctor.Json.{
  Json, Fields, str, arr, obj, get, put, without, is_text, is_natural, text_of,
}
use codex_storage_doctor.Errors.{Exn, safety_gate, type_error}
use codex_storage_doctor.Host.{Host}
use codex_storage_doctor.Effects.{Outcome}
use codex_storage_doctor.Planning.Modes.{mode_of, normalize_sql, first_refusal}
use codex_storage_doctor.Planning.Schema.{is_none}
use codex_storage_doctor.Planning.Surroundings.{expected_artifact_root}
use codex_storage_doctor.Planning.Document.{
  is_nonempty_text, is_sha256, is_mapping, fields_of, name_for, sql_for,
}

abbrev pub manifest_schema : String
manifest_schema = "codex-storage-doctor.rollback.v1"

abbrev pub sealed_keys : List String
sealed_keys = "manifest_digest" ∷ "rollback_token" ∷ []

-- `value in {"prepared", "applied", "rolled_back"}`, for a value that can be hashed
unfoldable pub is_status : Json → Bool
is_status (str s) = contains ("prepared" ∷ "applied" ∷ "rolled_back" ∷ []) s
is_status _ = false

unfoldable pub is_unhashable : Json → Bool
is_unhashable (arr xs) = true
is_unhashable (obj fs) = true
is_unhashable _ = false

module _ (host : Host) where
  unfoldable pub manifest_digest : Fields → String
  manifest_digest manifest = host.sha256 (host.dumps (without sealed_keys manifest))

  -- `f"ROLLBACK-{digest[:12].upper()}"`
  unfoldable pub rollback_token : String → String
  unfolding upper prefix
  rollback_token digest = "ROLLBACK-" <> upper (prefix 12 digest)

  unfoldable pub seal_manifest : Fields → Fields
  seal_manifest manifest =
      let digest = manifest_digest manifest in
      put "rollback_token" (str (rollback_token digest))
        (put "manifest_digest" (str digest) manifest)

  -- The tests of `validate_manifest`, in order, each with the error that it raises.
  unfoldable pub manifest_tests : Fields → List (Bool × Exn)
  unfolding is_status is_unhashable is_nonempty_text is_sha256 is_mapping fields_of name_for sql_for
      normalize_sql expected_artifact_root
  manifest_tests manifest =
      let digest = manifest_digest manifest in
      let mode = mode_of (text_of (get "mode" manifest)) in
      let database = host.path (text_of (get "database" manifest)) in
      let backup = host.path (text_of (get "backup_path" manifest)) in
      let identity = fields_of (get "file_identity_at_apply" manifest) in
      let identity_error = safety_gate "rollback manifest file identity is invalid" in
      (
        not (is_text manifest_schema (get "schema_version" manifest)),
        safety_gate "unsupported rollback manifest schema",
      )
      ∷ (
        not (is_text digest (get "manifest_digest" manifest)),
        safety_gate "rollback manifest digest mismatch",
      )
      ∷ (
        not (is_text (rollback_token digest) (get "rollback_token" manifest)),
        safety_gate "rollback token mismatch",
      )
      ∷ (is_none mode, safety_gate "unsupported rollback manifest mode")
      ∷ (
        not (is_text (name_for mode) (get "trigger_name" manifest)),
        safety_gate "rollback manifest trigger name mismatch",
      )
      ∷ (
        not (
            is_text (host.sha256 (normalize_sql (sql_for mode)))
              (get "trigger_sql_sha256" manifest)),
        safety_gate "rollback manifest trigger SQL fingerprint mismatch",
      )
      ∷ (is_unhashable (get "status" manifest), type_error "unhashable type")
      ∷ (
        not (is_status (get "status" manifest)),
        safety_gate "unsupported rollback manifest status",
      )
      ∷ (
        not (is_nonempty_text (get "database" manifest)),
        safety_gate "rollback manifest lacks a database target",
      )
      ∷ (
        not (host.is_absolute database) || not (is_log_db_name (host.base_name database)),
        safety_gate "rollback manifest database target is invalid",
      )
      ∷ (
        not (is_text (host.base_name database) (get "database_name" manifest)),
        safety_gate "rollback manifest database name mismatch",
      )
      ∷ (
        not (is_nonempty_text (get "backup_path" manifest)),
        safety_gate "rollback manifest backup path is invalid",
      )
      ∷ (
        not (host.is_absolute backup)
            || not (host.base_name backup == "logs-before-apply.sqlite")
            || not (host.parent (host.parent backup) == expected_artifact_root host database),
        safety_gate "rollback artifact path is invalid",
      )
      ∷ (
        not (is_sha256 (get "backup_sha256" manifest)),
        safety_gate "rollback manifest backup_sha256 is invalid",
      )
      ∷ (
        not (is_sha256 (get "base_schema_fingerprint_before" manifest)),
        safety_gate "rollback manifest base_schema_fingerprint_before is invalid",
      )
      ∷ (
        not (is_sha256 (get "plan_digest" manifest)),
        safety_gate "rollback manifest plan_digest is invalid",
      )
      ∷ (
        not (is_natural (get "backup_size" manifest)),
        safety_gate "rollback manifest backup size is invalid",
      )
      ∷ (
        not (is_mapping (get "file_identity_at_apply" manifest)),
        safety_gate "rollback manifest lacks target file identity",
      )
      ∷ (not (is_natural (get "size" identity)), identity_error)
      ∷ (not (is_natural (get "mtime_ns" identity)), identity_error)
      ∷ (not (is_natural (get "device" identity)), identity_error)
      ∷ (not (is_natural (get "inode" identity)), identity_error)
      ∷ []

  unfoldable pub validate_manifest : Fields → Outcome (Unit {0})
  unfolding manifest_tests
  validate_manifest manifest = first_refusal (manifest_tests manifest)
