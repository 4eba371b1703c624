-- ===== src/Mitigation/Rollback/Transaction.antt =====
-- The transaction of `rollback` with its handlers, the steps after it, and `rollback` itself.
use codex_storage_doctor.Prelude.{
  String, ◌==◌, ◌<>◌, Bool, true, false, not, Option, [], ◌∷◌, is_nil, if◌then◌else◌,
}
use codex_storage_doctor.Json.{Fields, str, end, field, get, text_of}
use codex_storage_doctor.Errors.{
  Exn, CommitOutcome, verified_committed, verified_not_committed, safety_gate,
  rollback_reconciliation, is_operational, message,
}
use codex_storage_doctor.Host.{Host}
use codex_storage_doctor.Effects.{
  Conn, Request, Outcome, ok, raised, M, pure, raise, call, set_open, set_committed, set_closed,
  set_token, gets, ◌>>=◌, ◌>>◌, catch, attempt, return, refuse_if,
}
use codex_storage_doctor.Reports.{write_private_json}
use codex_storage_doctor.Planning.Schema.{
  validate_log_schema, doctor_triggers_connection, schema_fingerprint_connection,
}
use codex_storage_doctor.Planning.Surroundings.{with_reader, read_file_identity}
use codex_storage_doctor.Mitigation.Gate.{ensure_process_gate}
use codex_storage_doctor.Mitigation.Backup.{
  StorageState, connect_writable, check_integrity, backup_database, storage_state, same_storage,
  same_file,
}
use codex_storage_doctor.Mitigation.Commit.{rollback_commit_outcome, rollback_reconciliation_result}
use codex_storage_doctor.Mitigation.Apply.Transaction.{roll_back_if_open, close_quietly}
use codex_storage_doctor.Mitigation.Rollback.{
  RollbackResult, already_rolled_back, rolled_back, Target, is_given, installed_trigger,
  mark_rolled_back, rolled_back_manifest, write_if_given, check_target, preflight,
}

-- What the fresh backup leaves for the transaction.
pub record Saved : Type 0 where
  pub storage : StorageState
  pub hash : String

module _ (host : Host) (manifest : Fields) (t : Target) where
  -- The verified backup and the second process gate.
  unfoldable pub save : M Saved
  unfolding storage_state backup_database same_storage ensure_process_gate
  save = do
    before ← storage_state t.database
    (hash, _) ← backup_database t.database t.backup_path
    after ← storage_state t.database
    refuse_if (not (same_storage after before))
        (safety_gate "database or WAL changed during rollback backup; refusing mutation")
    ensure_process_gate t.database []
    pure (record { storage = before; hash = hash })

  abbrev pub absent : RollbackResult
  absent = already_rolled_back t.database t.name (is_given t.manifest_path)

  module _ (s : Saved) where
    unfoldable pub raise_reconciliation : {A : Type 0} → Exn → CommitOutcome → String → M A
    unfolding rollback_reconciliation_result
    raise_reconciliation error outcome stage = do
      current ← gets (λ w. w.current_token)
      report ←
          rollback_reconciliation_result host t.database t.name t.manifest_path t.backup_path s.hash
            (text_of (get "rollback_token" manifest)) current error outcome stage
      raise (rollback_reconciliation report)

    -- The checks after BEGIN EXCLUSIVE, to the look for the trigger.
    unfoldable pub recheck : M Bool
    unfolding ensure_process_gate storage_state same_storage read_file_identity same_file
        validate_log_schema schema_fingerprint_connection installed_trigger
    recheck = do
      pid ← call Request.get_pid
      ensure_process_gate t.database (pid ∷ [])
      now ← storage_state t.database
      refuse_if (not (same_storage now s.storage))
          (safety_gate "database or WAL changed after rollback backup; refusing mutation")
      identity ← read_file_identity t.database
      refuse_if (not (same_file t.identity identity))
          (safety_gate "rollback target identity changed during backup")
      validate_log_schema Conn.writer t.mode
      found ← schema_fingerprint_connection host Conn.writer
      refuse_if (not (found == t.base)) (safety_gate "base schema changed since mitigation")
      installed_trigger host Conn.writer t.name t.sql_hash

    unfoldable pub after_failed_commit : Exn → CommitOutcome → M (Unit {0})
    unfolding raise_reconciliation
    after_failed_commit error verified_not_committed =
        raise (safety_gate "SQLite refused the exclusive rollback before commit")
    after_failed_commit error outcome = raise_reconciliation error outcome "commit_outcome"

    -- The handler of the COMMIT.
    unfoldable pub on_commit_error : Exn → M (Unit {0})
    unfolding close_quietly rollback_commit_outcome after_failed_commit
    on_commit_error error = do
      set_open false
      close_quietly
      set_closed true
      outcome ← rollback_commit_outcome host t.database t.name t.sql t.base
      after_failed_commit error outcome

    -- The COMMIT with its handler.
    unfoldable pub commit_drop : M (Unit {0})
    unfolding on_commit_error
    commit_drop = catch (call Request.commit) on_commit_error

    -- The rest of the `try` block: the answer is whether the trigger was dropped.
    unfoldable pub remove : M Bool
    unfolding check_integrity commit_drop
    remove = do
      check_integrity Conn.writer "source"
      call (Request.drop_trigger t.name)
      commit_drop
      set_open false
      set_committed true
      pure true

    unfoldable pub leave_absent : M Bool
    unfolding mark_rolled_back
    leave_absent = do
      call Request.rollback_transaction
      set_open false
      mark_rolled_back host manifest t.manifest_path
      pure false

    unfoldable pub transaction : M Bool
    unfolding recheck remove leave_absent
    transaction = do
      call Request.begin_exclusive
      set_open true
      there ← recheck
      if there then remove else leave_absent

    -- The two `except` clauses.
    unfoldable pub on_failure : Exn → M Bool
    unfolding roll_back_if_open is_operational message
    on_failure error = do
      roll_back_if_open
      if is_operational error
          then raise (safety_gate ("SQLite refused the exclusive rollback: " <> message error))
          else raise error

    unfoldable pub close_failed : Outcome Bool → Exn → M Bool
    unfolding raise_reconciliation
    close_failed (raised e) error = raise e
    close_failed (ok a) error = do
      done ← gets (λ w. w.committed)
      if done
          then raise_reconciliation error verified_committed "post_commit"
          else raise (safety_gate "SQLite connection close failed before rollback")

    unfoldable pub after_close : Outcome Bool → Outcome (Unit {0}) → M Bool
    unfolding close_failed
    after_close result (ok _) = return result
    after_close result (raised error) = close_failed result error

    -- The `finally` clause.
    unfoldable pub finish : Outcome Bool → M Bool
    unfolding after_close
    finish result = do
      closed ← gets (λ w. w.connection_closed)
      if closed
          then return result
          else do closing ← attempt (call (Request.close Conn.writer)); after_close result closing

    unfoldable pub run_transaction : M Bool
    unfolding connect_writable transaction on_failure finish
    run_transaction = do
      connect_writable t.database
      set_open false
      set_committed false
      set_closed false
      set_token (text_of (get "rollback_token" manifest))
      result ← attempt (catch transaction on_failure)
      finish result

    unfoldable pub verify_removed : M (Unit {0})
    unfolding with_reader doctor_triggers_connection schema_fingerprint_connection
    verify_removed = with_reader t.database do
      doctor ← doctor_triggers_connection Conn.reader
      refuse_if (not (is_nil doctor)) (safety_gate "trigger verification failed after rollback")
      found ← schema_fingerprint_connection host Conn.reader
      refuse_if (not (found == t.base)) (safety_gate "base schema changed during rollback")

    -- The last `try` block: the checks, the manifest, and the record of the rollback.
    unfoldable pub settle : M RollbackResult
    unfolding verify_removed rolled_back_manifest write_if_given write_private_json
    settle = do
      verify_removed
      now ← call Request.utc_slug
      let updated = rolled_back_manifest host manifest now
      let token = text_of (get "rollback_token" updated)
      set_token token
      write_if_given host t.manifest_path updated
      later ← call Request.utc_slug
      let path = host.join t.artifact_dir "rollback-result.json"
      write_private_json host path
          (field "schema_version" (str "codex-storage-doctor.rollback-result.v1") (
            field "status" (str "rolled_back") (
              field "database" (str t.database) (
                field "trigger_name" (str t.name) (
                  field "backup_path" (str t.backup_path) (
                    field "backup_sha256" (str s.hash)
                      (field "rolled_back_at" (str later) end)))))))
          false
      pure (rolled_back t.database t.name t.backup_path s.hash path t.manifest_path token)

    unfoldable pub settle_or_reconcile : M RollbackResult
    unfolding settle raise_reconciliation
    settle_or_reconcile = catch settle (λ error. do
      done ← gets (λ w. w.committed)
      if done then raise_reconciliation error verified_committed "post_commit" else raise error)

module _ (host : Host) where
  unfoldable pub rollback : Fields → String → Option String → M RollbackResult
  unfolding check_target preflight save run_transaction settle_or_reconcile
  rollback manifest confirmation manifest_path = do
    t ← check_target host manifest confirmation manifest_path
    there ← preflight host manifest t
    if not there then pure (absent host manifest t) else do
      s ← save host manifest t
      dropped ← run_transaction host manifest t s
      if dropped then settle_or_reconcile host manifest t s else pure (absent host manifest t)
