-- ===== src/Mitigation/Rollback.antt =====
-- The parts of `rollback` before its transaction: the tests of the manifest and of the target, and
-- the read-only look at the database.
pub mod Transaction
pub mod Quiet
pub mod Recovery
pub mod Inside
pub mod Contract
pub mod Order
use codex_storage_doctor.Prelude.{
  String, ◌==◌, ◌<>◌, Bool, true, false, not, ◌||◌, Option, none, some, [], any_of, if◌then◌else◌,
}
use codex_storage_doctor.Json.{Fields, str, get, put, text_of}
use codex_storage_doctor.Errors.{safety_gate}
use codex_storage_doctor.Host.{Host}
use codex_storage_doctor.Effects.{
  Conn, Request, Stat, M, pure, call, ◌>>=◌, ◌>>◌, return, refuse_if,
}
use codex_storage_doctor.Filesystem.{nonlocal_filesystem_reason}
use codex_storage_doctor.Reports.{write_private_json}
use codex_storage_doctor.Planning.Modes.{mode_of, normalize_sql}
use codex_storage_doctor.Planning.Schema.{
  validate_log_schema, doctor_triggers_connection, schema_fingerprint_connection, find_trigger,
}
use codex_storage_doctor.Planning.Surroundings.{
  with_reader, read_file_identity, cross_boundary_reason, expected_artifact_root,
}
use codex_storage_doctor.Planning.Document.{sql_for, is_mapping, fields_of}
use codex_storage_doctor.Planning.Create.{refuse_reason}
use codex_storage_doctor.Mitigation.Gate.{ensure_process_gate}
use codex_storage_doctor.Mitigation.Backup.{ensure_backup_space}
use codex_storage_doctor.Mitigation.Manifest.{seal_manifest, validate_manifest}
use codex_storage_doctor.Mitigation.Apply.{differs_from}

-- What `rollback` returns.
pub data RollbackResult : Type 0 where
  -- database, trigger name, and whether the manifest was rewritten
  already_rolled_back : String → String → Bool → RollbackResult
  -- database, trigger name, backup, the backup's hash, record, manifest, rollback token
  rolled_back : String → String → String → String → String → Option String → String → RollbackResult

-- What the first tests establish.
pub record Target : Type 0 where
  pub database : String
  pub identity : Stat
  pub artifact_dir : String
  pub backup_path : String
  pub mode : String
  pub name : String
  pub sql : String
  pub sql_hash : String
  pub base : String
  pub manifest_path : Option String

abbrev is_given : Option String → Bool
is_given none = false
is_given (some path) = true

-- Is there a trigger? One with another hash is refused.
confirm_trigger : Host → String → Option String → M Bool
confirm_trigger host sql_hash none = pure false
confirm_trigger host sql_hash (some sql) = do
  refuse_if (not (host.sha256 sql == sql_hash))
      (safety_gate "installed trigger differs from the rollback manifest")
  pure true

-- The doctor's trigger of a connection, if it is installed and is the manifest's; any other
-- doctor-prefixed trigger is refused.
unfoldable pub installed_trigger : Host → Conn → String → String → M Bool
unfolding doctor_triggers_connection find_trigger confirm_trigger
installed_trigger host conn name sql_hash = do
  doctor ← doctor_triggers_connection conn
  refuse_if (any_of (λ (n, s). not (n == name)) doctor)
      (safety_gate "an unexpected doctor-prefixed trigger exists; refusing rollback")
  confirm_trigger host sql_hash (find_trigger name doctor)

module _ (host : Host) where
  -- The manifest of the next state.
  unfoldable pub rolled_back_manifest : Fields → String → Fields
  unfolding seal_manifest
  rolled_back_manifest manifest now =
      seal_manifest host
        (put "rolled_back_at" (str now) (put "status" (str "rolled_back") manifest))

  pub write_if_given : Option String → Fields → M (Unit {0})
  unfolding write_private_json
  write_if_given none updated = pure tt
  write_if_given (some path) updated = do write_private_json host path updated true; pure tt

  -- The statements that mark the manifest as rolled back; the answer is the new token.
  unfoldable pub mark_rolled_back : Fields → Option String → M (Unit {0})
  unfolding rolled_back_manifest write_if_given
  mark_rolled_back manifest path = do
    now ← call Request.utc_slug
    write_if_given path (rolled_back_manifest manifest now)

  -- The manifest's own path, if it is given, lies beside the backup.
  check_manifest_path : Option String → String → M (Unit {0})
  check_manifest_path none dir = pure tt
  check_manifest_path (some path) dir = do
    expanded ← call (Request.expand_user path)
    resolved ← call (Request.resolve expanded)
    refuse_if
        (not (host.parent resolved == dir)
          || not (host.base_name resolved == "rollback-manifest.json"))
        (safety_gate "rollback manifest path does not match its artifact directory")

  -- From the start to the name of the fresh backup.
  unfoldable pub check_target : Fields → String → Option String → M Target
  unfolding validate_manifest cross_boundary_reason nonlocal_filesystem_reason refuse_reason
      ensure_process_gate read_file_identity differs_from is_mapping fields_of
      expected_artifact_root check_manifest_path ensure_backup_space mode_of sql_for normalize_sql
  check_target manifest confirmation manifest_path = do
    return (validate_manifest host manifest)
    refuse_if (not (confirmation == text_of (get "rollback_token" manifest)))
        (safety_gate "confirmation token does not match the manifest")
    expanded ← call (Request.expand_user (host.path (text_of (get "database" manifest))))
    database ← call (Request.resolve_strict expanded)
    boundary ← cross_boundary_reason database
    refuse_reason boundary (λ r. safety_gate ("audit-only cross-boundary path: " <> r))
    reason ← nonlocal_filesystem_reason host database
    refuse_reason reason safety_gate
    ensure_process_gate database []
    refuse_if (not (is_mapping (get "file_identity_at_apply" manifest)))
        (safety_gate "rollback manifest lacks target file identity")
    identity ← read_file_identity database
    refuse_if (differs_from identity (fields_of (get "file_identity_at_apply" manifest)))
        (safety_gate "rollback target identity changed")
    expanded_backup ← call (Request.expand_user (host.path (text_of (get "backup_path" manifest))))
    original_backup ← call (Request.resolve expanded_backup)
    let dir = host.parent original_backup
    root ← call (Request.resolve (expected_artifact_root host database))
    refuse_if (not (host.parent dir == root))
        (safety_gate "rollback artifact directory does not match the database target")
    check_manifest_path manifest_path dir
    artifact_reason ← nonlocal_filesystem_reason host dir
    refuse_reason artifact_reason (λ r. safety_gate ("rollback artifact root refused: " <> r))
    ensure_backup_space database dir
    slug ← call Request.utc_slug
    let mode = text_of (get "mode" manifest)
    pure (record {
      database = database;
      identity = identity;
      artifact_dir = dir;
      backup_path = host.join dir ("logs-before-rollback-" <> (slug <> ".sqlite"));
      mode = mode;
      name = text_of (get "trigger_name" manifest);
      sql = normalize_sql (sql_for (mode_of mode));
      sql_hash = text_of (get "trigger_sql_sha256" manifest);
      base = text_of (get "base_schema_fingerprint_before" manifest);
      manifest_path = manifest_path;
    })

  -- The read-only look at the database. An absent trigger is reconciled here, inside the `with`.
  unfoldable pub preflight : Fields → Target → M Bool
  unfolding with_reader validate_log_schema schema_fingerprint_connection installed_trigger
      mark_rolled_back
  preflight manifest t = with_reader t.database do
    validate_log_schema Conn.reader t.mode
    found ← schema_fingerprint_connection host Conn.reader
    refuse_if (not (found == t.base)) (safety_gate "base schema changed since mitigation")
    there ← installed_trigger host Conn.reader t.name t.sql_hash
    if there then pure true else do mark_rolled_back manifest t.manifest_path; pure false
