-- ===== src/Mitigation/Apply.antt =====
-- The parts of `apply_plan` before its transaction: the tests of the plan and of the target, the
-- read-only look at the database, and the verified backup with the prepared manifest.
pub mod Transaction
pub mod Quiet
pub mod Recovery
pub mod Inside
pub mod Contract
pub mod Copied
pub mod Order
use codex_storage_doctor.Prelude.{
  ℕ, String, ◌==◌, ◌<>◌, Bool, true, false, not, ◌&&◌, ◌||◌, Option, none, some, [], eqb, is_nil,
  if◌then◌else◌,
}
use codex_storage_doctor.Text.{prefix}
use codex_storage_doctor.Json.{
  Json, Fields, bool, num, str, obj, end, field, pos, get, text_of, natural_of,
}
use codex_storage_doctor.Errors.{Exn, safety_gate, is_plan_error, message}
use codex_storage_doctor.Host.{Host}
use codex_storage_doctor.Effects.{
  Conn, Request, Stat, Outcome, ok, raised, M, pure, raise, call, update_manifest, ◌>>=◌, ◌>>◌,
  refuse_if,
}
use codex_storage_doctor.Filesystem.{nonlocal_filesystem_reason}
use codex_storage_doctor.Reports.{write_private_json}
use codex_storage_doctor.Planning.Modes.{mode_of, normalize_sql}
use codex_storage_doctor.Planning.Schema.{
  validate_log_schema, doctor_triggers_connection, log_triggers_connection,
  schema_fingerprint_connection, conflicting, find_trigger,
}
use codex_storage_doctor.Planning.Surroundings.{
  with_reader, read_file_identity, observed_codex_version, cross_boundary_reason,
  expected_artifact_root,
}
use codex_storage_doctor.Planning.Document.{
  tool_version, sql_for, fields_of, validate_plan_document,
}
use codex_storage_doctor.Planning.Create.{refuse_reason}
use codex_storage_doctor.Mitigation.Gate.{ensure_process_gate}
use codex_storage_doctor.Mitigation.Backup.{
  StorageState, check_integrity, restrict, ensure_backup_space, backup_database, storage_state,
  same_storage,
}
use codex_storage_doctor.Mitigation.Manifest.{manifest_schema, seal_manifest}

-- What `apply_plan` returns.
pub data ApplyResult : Type 0 where
  already_applied : String → String → ApplyResult
  -- database, trigger name, manifest, backup, the backup's hash, rollback token
  applied : String → String → String → String → String → String → ApplyResult

-- What the first tests establish.
pub record Target : Type 0 where
  pub database : String
  pub artifact_root : String
  pub identity : Stat
  pub mode : String
  pub name : String
  pub sql : String
  pub create_sql : String
  pub base : String

-- A PlanError of the document's check becomes a SafetyGateError.
unfoldable pub plan_refusal : Outcome (Unit {0}) → M (Unit {0})
unfolding is_plan_error message
plan_refusal (ok _) = pure tt
plan_refusal (raised e) = if is_plan_error e then raise (safety_gate (message e)) else raise e

-- The two tests on the observed version; a plan without a version passes.
unfoldable pub version_refusal : Json → Option String → M (Unit {0})
version_refusal (str planned) none = raise (
    safety_gate
      "current Codex version is unavailable; recreate the plan from the same external environment")
version_refusal (str planned) (some now) =
    refuse_if (not (planned == now))
      (safety_gate "observed Codex version changed since planning; create a fresh plan")
version_refusal _ now = pure tt

-- Does a file that has a device and an inode differ from the recorded ones?
unfoldable pub differs_from : Stat → Fields → Bool
unfolding natural_of
differs_from found recorded =
    not (eqb found.device 0)
    && not (eqb found.inode 0)
    && (not (eqb found.device (natural_of (get "device" recorded)))
        || not (eqb found.inode (natural_of (get "inode" recorded))))

unfoldable pub identity_changed : Stat → Stat → Bool
identity_changed before now =
    not (eqb before.device 0)
    && not (eqb before.inode 0)
    && (not (eqb now.device before.device) || not (eqb now.inode before.inode))

abbrev conflict_refusal : Exn
conflict_refusal =
    safety_gate
      "a conflicting logs or doctor-prefixed trigger exists; rollback or remove that conflict first"

-- The triggers of a connection: a conflict is refused, and the answer is whether the very trigger
-- is there already.
unfoldable pub already_there : Conn → String → String → M Bool
unfolding doctor_triggers_connection log_triggers_connection conflicting find_trigger
already_there conn name sql = do
  doctor ← doctor_triggers_connection conn
  logs ← log_triggers_connection conn
  refuse_if (not (is_nil (conflicting name sql logs)) || not (is_nil (conflicting name sql doctor)))
      conflict_refusal
  pure (elim (find_trigger name doctor) [ none ↦ false | some s ↦ s == sql ])

-- What the backup stage leaves for the transaction.
pub record Prepared : Type 0 where
  pub storage : StorageState
  pub backup_path : String
  pub backup_hash : String
  pub manifest_path : String
  pub prepared_token : String

module _ (host : Host) where
  -- From the start to the process gate.
  unfoldable pub check_target : Fields → String → M Target
  unfolding plan_refusal version_refusal validate_plan_document observed_codex_version
      cross_boundary_reason nonlocal_filesystem_reason refuse_reason read_file_identity differs_from
      ensure_process_gate expected_artifact_root mode_of sql_for normalize_sql
  check_target plan confirmation = do
    plan_refusal (validate_plan_document host plan)
    refuse_if (not (confirmation == text_of (get "confirmation_token" plan)))
        (safety_gate "confirmation token does not match the plan")
    current ← observed_codex_version
    version_refusal (get "observed_codex_version" plan) current
    expanded ← call (Request.expand_user (host.path (text_of (get "database" plan))))
    database ← call (Request.resolve_strict expanded)
    expanded_root ← call (Request.expand_user (host.path (text_of (get "artifact_root" plan))))
    artifact_root ← call (Request.resolve expanded_root)
    expected_root ← call (Request.resolve (expected_artifact_root host database))
    refuse_if (not (artifact_root == expected_root))
        (safety_gate "plan artifact root does not match the resolved database target")
    boundary ← cross_boundary_reason database
    refuse_reason boundary (λ r. safety_gate ("audit-only cross-boundary path: " <> r))
    reason ← nonlocal_filesystem_reason host database
    refuse_reason reason safety_gate
    identity ← read_file_identity database
    refuse_if (differs_from identity (fields_of (get "file_identity" plan)))
        (safety_gate "database identity changed since planning")
    ensure_process_gate database []
    let mode = text_of (get "mode" plan)
    pure (record {
      database = database;
      artifact_root = artifact_root;
      identity = identity;
      mode = mode;
      name = text_of (get "trigger_name" plan);
      sql = normalize_sql (sql_for (mode_of mode));
      create_sql = sql_for (mode_of mode);
      base = text_of (get "base_schema_fingerprint" plan);
    })

  -- The read-only look at the database: is the trigger there already?
  unfoldable pub preflight : Target → M Bool
  unfolding with_reader validate_log_schema check_integrity schema_fingerprint_connection
      already_there
  preflight t = with_reader t.database do
    validate_log_schema Conn.reader t.mode
    check_integrity Conn.reader "source"
    found ← schema_fingerprint_connection host Conn.reader
    refuse_if (not (found == t.base)) (safety_gate "base schema changed since planning")
    already_there Conn.reader t.name t.sql

  -- The manifest before it is sealed.
  unfoldable pub manifest_body : Fields → Target → String → String → String → ℕ → Fields
  unfolding mode_of
  manifest_body plan t now backup_path backup_hash backup_size =
      field "schema_version" (str manifest_schema) (
        field "tool_version" (str tool_version) (
          field "status" (str "prepared") (
            field "prepared_at" (str now) (
              field "database" (str t.database) (
                field "database_name" (str (host.base_name t.database)) (
                  field "mode" (str t.mode) (
                    field "trigger_name" (str t.name) (
                      field "trigger_sql_sha256" (str (host.sha256 t.sql)) (
                        field "base_schema_fingerprint_before" (get "base_schema_fingerprint" plan)
                          (field "observed_codex_version" (get "observed_codex_version" plan) (
                            field "backup_path" (str backup_path) (
                              field "backup_sha256" (str backup_hash) (
                                field "backup_size" (num (pos backup_size)) (
                                  field "backup_may_contain_private_diagnostics" (bool true) (
                                    field "plan_digest" (get "plan_digest" plan) (
                                      field "file_identity_at_apply"
                                        (obj (
                                          field "size" (num (pos t.identity.size)) (
                                            field "mtime_ns" (num (pos t.identity.mtime_ns)) (
                                              field "device" (num (pos t.identity.device))
                                                (field "inode" (num (pos t.identity.inode)) end)))))
                                        end))))))))))))))))

  -- The verified backup, the second process gate, and the prepared manifest on disk.
  unfoldable pub prepare : Fields → Target → M Prepared
  unfolding nonlocal_filesystem_reason refuse_reason ensure_backup_space restrict storage_state
      backup_database same_storage ensure_process_gate seal_manifest write_private_json
      manifest_body prefix
  prepare plan t = do
    reason ← nonlocal_filesystem_reason host t.artifact_root
    refuse_reason reason (λ r. safety_gate ("rollback artifact root refused: " <> r))
    ensure_backup_space t.database t.artifact_root
    slug ← call Request.utc_slug
    let dir =
        host.join t.artifact_root (slug <> ("-" <> prefix 8 (text_of (get "plan_digest" plan))))
    call (Request.make_dir dir 0o700)
    restrict dir 0o700
    let backup_path = host.join dir "logs-before-apply.sqlite"
    let manifest_path = host.join dir "rollback-manifest.json"
    before ← storage_state t.database
    (backup_hash, backup_size) ← backup_database t.database backup_path
    after ← storage_state t.database
    refuse_if (not (same_storage after before))
        (safety_gate "database or WAL changed during backup; refusing mutation")
    ensure_process_gate t.database []
    now ← call Request.utc_slug
    let manifest = seal_manifest host (manifest_body plan t now backup_path backup_hash backup_size)
    update_manifest (λ _. manifest)
    write_private_json host manifest_path manifest false
    pure (record {
      storage = before;
      backup_path = backup_path;
      backup_hash = backup_hash;
      manifest_path = manifest_path;
      prepared_token = text_of (get "rollback_token" manifest);
    })
