-- ===== src/Mitigation/Apply/Transaction.antt =====
-- The transaction of `apply_plan` with its handlers, and `apply_plan` itself. The local variables
-- that the handlers read are in the world.
use codex_storage_doctor.Prelude.{
  String, ◌==◌, ◌<>◌, Bool, true, false, not, [], ◌∷◌, if◌then◌else◌,
}
use codex_storage_doctor.Json.{Fields, str, get, put, text_of}
use codex_storage_doctor.Errors.{
  Exn, CommitOutcome, verified_committed, verified_not_committed, safety_gate, mutation_recovery,
  is_operational, is_sqlite, message,
}
use codex_storage_doctor.Host.{Host}
use codex_storage_doctor.Effects.{
  Conn, Request, Outcome, ok, raised, M, pure, raise, call, set_open, set_committed, set_closed,
  update_manifest, gets, ◌>>=◌, ◌>>◌, catch, attempt, return, refuse_if,
}
use codex_storage_doctor.Reports.{write_private_json}
use codex_storage_doctor.Planning.Schema.{
  validate_log_schema, doctor_triggers_connection, log_triggers_connection,
  schema_fingerprint_connection, is_exactly,
}
use codex_storage_doctor.Planning.Surroundings.{with_reader, read_file_identity}
use codex_storage_doctor.Mitigation.Gate.{ensure_process_gate}
use codex_storage_doctor.Mitigation.Backup.{
  connect_writable, check_integrity, storage_state, same_storage,
}
use codex_storage_doctor.Mitigation.Manifest.{seal_manifest}
use codex_storage_doctor.Mitigation.Commit.{apply_commit_outcome, post_commit_recovery_result}
use codex_storage_doctor.Mitigation.Apply.{
  ApplyResult, already_applied, applied, Target, Prepared, identity_changed, already_there,
  check_target, preflight, prepare,
}

-- The statements of both handlers before their `raise`.
unfoldable pub roll_back_if_open : M (Unit {0})
unfolding is_sqlite
roll_back_if_open = do
  opened ← gets (λ w. w.transaction_open)
  if opened
      then catch (call Request.rollback_transaction) (λ e. if is_sqlite e then pure tt else raise e)
      else pure tt

-- `try: connection.close()` with `except BaseException: pass`
unfoldable pub close_quietly : M (Unit {0})
close_quietly = catch (call (Request.close Conn.writer)) (λ e. pure tt)

module _ (host : Host) (plan : Fields) (t : Target) (p : Prepared) where
  -- The recovery exception: the report, with the tokens of the prepared and the current manifest.
  unfoldable pub raise_recovery : {A : Type 0} → Exn → CommitOutcome → String → M A
  unfolding post_commit_recovery_result
  raise_recovery error outcome stage = do
    current ← gets (λ w. text_of (get "rollback_token" w.manifest))
    report ←
        post_commit_recovery_result host t.database t.name p.manifest_path p.backup_path
          p.backup_hash p.prepared_token current error outcome stage
    raise (mutation_recovery report)

  -- The checks after BEGIN EXCLUSIVE, to the look for the trigger.
  unfoldable pub recheck : M Bool
  unfolding ensure_process_gate storage_state same_storage read_file_identity identity_changed
      validate_log_schema schema_fingerprint_connection already_there
  recheck = do
    pid ← call Request.get_pid
    ensure_process_gate t.database (pid ∷ [])
    now ← storage_state t.database
    refuse_if (not (same_storage now p.storage))
        (safety_gate "database or WAL changed after backup; refusing mutation")
    identity ← read_file_identity t.database
    refuse_if (identity_changed t.identity identity)
        (safety_gate "database identity changed during backup")
    validate_log_schema Conn.writer t.mode
    found ← schema_fingerprint_connection host Conn.writer
    refuse_if (not (found == t.base)) (safety_gate "base schema changed since planning")
    already_there Conn.writer t.name t.sql

  -- What follows the independent check of a COMMIT that raised.
  unfoldable pub after_failed_commit : Exn → CommitOutcome → M (Unit {0})
  unfolding raise_recovery
  after_failed_commit error verified_not_committed =
      raise (safety_gate "SQLite refused the exclusive mutation before commit")
  after_failed_commit error outcome = raise_recovery error outcome "commit_outcome"

  -- The handler of the COMMIT.
  unfoldable pub on_commit_error : Exn → M (Unit {0})
  unfolding close_quietly apply_commit_outcome after_failed_commit
  on_commit_error error = do
    set_open false
    close_quietly
    set_closed true
    outcome ← apply_commit_outcome host t.database t.name t.sql t.base
    after_failed_commit error outcome

  -- The COMMIT with its handler.
  unfoldable pub commit_trigger : M (Unit {0})
  unfolding on_commit_error
  commit_trigger = catch (call Request.commit) on_commit_error

  -- The checks after the COMMIT; the answer is the fingerprint.
  unfoldable pub verify_installed : M String
  unfolding with_reader log_triggers_connection doctor_triggers_connection
      schema_fingerprint_connection is_exactly
  verify_installed = with_reader t.database do
    logs ← log_triggers_connection Conn.reader
    refuse_if (not (is_exactly t.name t.sql logs))
        (safety_gate "exact logs trigger-set verification failed after commit")
    doctor ← doctor_triggers_connection Conn.reader
    refuse_if (not (is_exactly t.name t.sql doctor))
        (safety_gate "exact doctor trigger-set verification failed after commit")
    found ← schema_fingerprint_connection host Conn.reader
    refuse_if (not (found == t.base)) (safety_gate "base schema verification failed after commit")
    pure found

  -- The checks and the final manifest.
  unfoldable pub finalize : M ApplyResult
  unfolding verify_installed seal_manifest write_private_json
  finalize = do
    found ← verify_installed
    update_manifest (put "status" (str "applied"))
    now ← call Request.utc_slug
    update_manifest (λ m.
        seal_manifest host
          (put "base_schema_fingerprint_after" (str found) (put "applied_at" (str now) m)))
    manifest ← gets (λ w. w.manifest)
    write_private_json host p.manifest_path manifest true
    pure (
        applied t.database t.name p.manifest_path p.backup_path p.backup_hash
          (text_of (get "rollback_token" manifest)))

  -- The rest of the `try` block, where the trigger is not there yet.
  unfoldable pub install : M ApplyResult
  unfolding check_integrity commit_trigger finalize
  install = do
    check_integrity Conn.writer "source"
    call (Request.create_trigger t.create_sql)
    commit_trigger
    set_open false
    set_committed true
    finalize

  -- The rest of the `try` block, where it is.
  unfoldable pub leave_installed : M ApplyResult
  leave_installed = do
    call Request.rollback_transaction
    set_open false
    pure (already_applied t.database t.name)

  unfoldable pub transaction : M ApplyResult
  unfolding recheck install leave_installed
  transaction = do
    call Request.begin_exclusive
    set_open true
    there ← recheck
    if there then leave_installed else install

  -- The two `except` clauses.
  unfoldable pub on_failure : Exn → M ApplyResult
  unfolding roll_back_if_open raise_recovery is_operational message
  on_failure error = do
    roll_back_if_open
    done ← gets (λ w. w.committed)
    if done
        then raise_recovery error verified_committed "post_commit"
        else if is_operational error
        then raise (safety_gate ("SQLite refused the exclusive mutation: " <> message error))
        else raise error

  -- A close that failed, in the `finally` clause.
  unfoldable pub close_failed : Outcome ApplyResult → Exn → M ApplyResult
  unfolding raise_recovery
  close_failed (raised e) error = raise e
  close_failed (ok a) error = do
    done ← gets (λ w. w.committed)
    if done
        then raise_recovery error verified_committed "post_commit"
        else raise (safety_gate "SQLite connection close failed before mutation")

  unfoldable pub after_close : Outcome ApplyResult → Outcome (Unit {0}) → M ApplyResult
  unfolding close_failed
  after_close result (ok _) = return result
  after_close result (raised error) = close_failed result error

  -- The `finally` clause.
  unfoldable pub finish : Outcome ApplyResult → M ApplyResult
  unfolding after_close
  finish result = do
    closed ← gets (λ w. w.connection_closed)
    if closed
        then return result
        else do closing ← attempt (call (Request.close Conn.writer)); after_close result closing

  unfoldable pub run_transaction : M ApplyResult
  unfolding connect_writable transaction on_failure finish
  run_transaction = do
    connect_writable t.database
    set_open false
    set_committed false
    set_closed false
    result ← attempt (catch transaction on_failure)
    finish result

module _ (host : Host) where
  unfoldable pub apply_plan : Fields → String → M ApplyResult
  unfolding check_target preflight prepare run_transaction
  apply_plan plan confirmation = do
    t ← check_target host plan confirmation
    there ← preflight host t
    if there
        then pure (already_applied t.database t.name)
        else do p ← prepare host plan t; run_transaction host plan t p
