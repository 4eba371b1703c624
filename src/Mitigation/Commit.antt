-- ===== src/Mitigation/Commit.antt =====
-- What is said after a COMMIT whose outcome is unknown or whose follow-up failed: the independent
-- check of the database, and the reports that the recovery exceptions carry.
pub mod State
pub mod Verdict
use codex_storage_doctor.Prelude.{
  String, ◌==◌, Bool, true, false, not, ◌||◌, Option, none, some, List, [], ◌∷◌, is_nil,
  if◌then◌else◌,
}
use codex_storage_doctor.Json.{get, text_of}
use codex_storage_doctor.Errors.{
  Exn, CommitOutcome, CommitReport, ambiguous, verified_committed, verified_not_committed,
  is_artifact_read, is_safety_gate, controlled_error_code,
}
use codex_storage_doctor.Host.{Host}
use codex_storage_doctor.Effects.{Conn, M, pure, raise, ◌>>=◌, ◌>>◌, catch, return}
use codex_storage_doctor.Reports.{read_json_object}
use codex_storage_doctor.Planning.Schema.{
  Triggers, is_none, is_exactly, schema_fingerprint_connection, log_triggers_connection,
}
use codex_storage_doctor.Planning.Surroundings.{with_reader}
use codex_storage_doctor.Mitigation.Manifest.{validate_manifest}

-- The verdict after an apply's COMMIT, from the triggers on the table `logs`.
unfoldable pub apply_verdict : String → String → Triggers → CommitOutcome
unfolding is_exactly
apply_verdict name sql triggers =
    if is_exactly name sql triggers
    then verified_committed
    else if is_nil triggers
    then verified_not_committed
    else ambiguous

-- The same after a rollback's COMMIT.
unfoldable pub rollback_verdict : String → String → Triggers → CommitOutcome
unfolding is_exactly
rollback_verdict name sql triggers =
    if is_nil triggers
    then verified_committed
    else if is_exactly name sql triggers
    then verified_not_committed
    else ambiguous

-- `list(dict.fromkeys((first, second)))`
abbrev distinct : String → String → List String
distinct a b = if a == b then a ∷ [] else a ∷ b ∷ []

abbrev is_verified : CommitOutcome → Option Bool
is_verified verified_committed = some true
is_verified _ = none

abbrev is_ambiguous : CommitOutcome → Bool
is_ambiguous ambiguous = true
is_ambiguous _ = false

abbrev durable_token : Option (String × String) → String → String
durable_token none fallback = fallback
durable_token (some (token, status)) fallback = token

abbrev durable_status : Option (String × String) → String
durable_status none = "unverified"
durable_status (some (token, status)) = status

-- The dict that both report functions build.
report_of :
    String
    → String
    → String
    → String
    → Option String
    → String
    → String
    → String
    → String
    → Exn
    → CommitOutcome
    → String
    → Option (String × String)
    → CommitReport
unfolding controlled_error_code
report_of schema status database name manifest backup hash first current error outcome stage
      durable =
    record {
      schema_version = schema;
      status = status;
      changed = true;
      occurred = is_verified outcome;
      commit_may_have_succeeded = is_ambiguous outcome;
      commit_outcome = outcome;
      required = true;
      database = database;
      trigger_name = name;
      manifest = manifest;
      backup = backup;
      backup_sha256 = hash;
      rollback_token = durable_token durable first;
      durable_manifest_status = durable_status durable;
      durable_manifest_verified = not (is_none durable);
      failure_stage = stage;
      failure_code = controlled_error_code error;
      rollback_token_candidates = elim durable [
        | none ↦ some (distinct first current)
        | some _ ↦ none
      ];
    }

module _ (host : Host) where
  -- The check that both outcome functions make; they differ in the verdict.
  unfoldable pub outcome_by : (Triggers → CommitOutcome) → String → String → M CommitOutcome
  unfolding with_reader schema_fingerprint_connection log_triggers_connection
  outcome_by verdict database base =
      catch
        (with_reader database do
          found ← schema_fingerprint_connection host Conn.reader
          if not (found == base)
              then pure ambiguous
              else do triggers ← log_triggers_connection Conn.reader; pure (verdict triggers))
        (λ e. pure ambiguous)

  -- `_apply_commit_outcome`
  unfoldable pub apply_commit_outcome : String → String → String → String → M CommitOutcome
  unfolding outcome_by apply_verdict
  apply_commit_outcome database name sql base = outcome_by (apply_verdict name sql) database base

  -- `_rollback_commit_outcome`
  unfoldable pub rollback_commit_outcome : String → String → String → String → M CommitOutcome
  unfolding outcome_by rollback_verdict
  rollback_commit_outcome database name sql base =
      outcome_by (rollback_verdict name sql) database base

  -- The token and the status of the manifest on disk, where it can be read and is valid.
  unfoldable pub durable_state : String → M (Option (String × String))
  unfolding read_json_object validate_manifest is_artifact_read is_safety_gate
  durable_state path =
      catch
        (do
          durable ← read_json_object path
          return (validate_manifest host durable)
          pure (some (text_of (get "rollback_token" durable), text_of (get "status" durable))))
        (λ e. if is_artifact_read e || is_safety_gate e then pure none else raise e)

  -- `_post_commit_recovery_result`
  unfoldable pub post_commit_recovery_result :
      String
      → String
      → String
      → String
      → String
      → String
      → String
      → Exn
      → CommitOutcome
      → String
      → M CommitReport
  unfolding durable_state report_of
  post_commit_recovery_result database name path backup hash prepared current error outcome stage =
      do
        durable ← durable_state path
        pure (
            report_of "codex-storage-doctor.apply-recovery-required.v1" "mutation_recovery_required"
              database name (some path) backup hash prepared current error outcome stage durable)

  unfoldable pub durable_if : Option String → M (Option (String × String))
  unfolding durable_state
  durable_if none = pure none
  durable_if (some path) = durable_state path

  -- `_rollback_reconciliation_result`
  unfoldable pub rollback_reconciliation_result :
      String
      → String
      → Option String
      → String
      → String
      → String
      → String
      → Exn
      → CommitOutcome
      → String
      → M CommitReport
  unfolding durable_if report_of
  rollback_reconciliation_result database name path backup hash original current error outcome
        stage =
      do
        durable ← durable_if path
        pure (
            report_of "codex-storage-doctor.rollback-reconciliation-required.v1"
              "rollback_reconciliation_required" database name path backup hash original current
              error outcome stage durable)
