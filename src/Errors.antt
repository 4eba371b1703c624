-- ===== src/Errors.antt =====
-- The exceptions that the program raises and catches, with the classes that its handlers name, and
-- the report that the two recovery exceptions carry (mitigation.py, planning.py, reports.py).
use codex_storage_doctor.Prelude.{String, Bool, true, false, Option, List, if◌then◌else◌}
use codex_storage_doctor.Text.{has_part, lower}

-- What an independent check says of a COMMIT that raised.
pub data CommitOutcome : Type 0 where
  ambiguous verified_committed verified_not_committed : CommitOutcome

-- The dict of `_post_commit_recovery_result` and of `_rollback_reconciliation_result`. `occurred`
-- is the key `mutation_occurred` or `rollback_occurred`, `required` the key `recovery_required` or
-- `reconciliation_required`, and `backup` the key `backup` or `backup_path`.
pub record CommitReport : Type 0 where
  pub schema_version : String
  pub status : String
  pub changed : Bool
  pub occurred : Option Bool
  pub commit_may_have_succeeded : Bool
  pub commit_outcome : CommitOutcome
  pub required : Bool
  pub database : String
  pub trigger_name : String
  pub manifest : Option String
  pub backup : String
  pub backup_sha256 : String
  pub rollback_token : String
  pub durable_manifest_status : String
  pub durable_manifest_verified : Bool
  pub failure_stage : String
  pub failure_code : String
  pub rollback_token_candidates : Option (List String)

pub data Exn : Type 0 where
  safety_gate : String → Exn
  mutation_recovery rollback_reconciliation : CommitReport → Exn
  plan_error cross_boundary safety_boundary : String → Exn
  artifact_read : String → Exn
  operational sqlite_other : String → Exn
  file_not_found file_exists permission_error os_error : String → Exn
  value_error unicode_error json_decode_error type_error : String → Exn
  timeout_expired interrupt : Exn
  -- any other exception, by the name of its class
  other : String → Exn

-- `except sqlite3.OperationalError`
unfoldable pub is_operational : Exn → Bool
is_operational (operational _) = true
is_operational _ = false

-- `except sqlite3.Error`
unfoldable pub is_sqlite : Exn → Bool
is_sqlite (operational _) = true
is_sqlite (sqlite_other _) = true
is_sqlite _ = false

-- `except OSError`
unfoldable pub is_os : Exn → Bool
is_os (file_not_found _) = true
is_os (file_exists _) = true
is_os (permission_error _) = true
is_os (os_error _) = true
is_os _ = false

-- `except subprocess.TimeoutExpired`
unfoldable pub is_timeout : Exn → Bool
is_timeout timeout_expired = true
is_timeout _ = false

-- `except ValueError`
unfoldable pub is_value_error : Exn → Bool
is_value_error (value_error _) = true
is_value_error (unicode_error _) = true
is_value_error (json_decode_error _) = true
is_value_error _ = false

-- `except FileNotFoundError`
unfoldable pub is_file_not_found : Exn → Bool
is_file_not_found (file_not_found _) = true
is_file_not_found _ = false

-- `except FileExistsError`
unfoldable pub is_file_exists : Exn → Bool
is_file_exists (file_exists _) = true
is_file_exists _ = false

-- `except TypeError`
unfoldable pub is_type_error : Exn → Bool
is_type_error (type_error _) = true
is_type_error _ = false

-- `except PlanError`, with its two subclasses
unfoldable pub is_plan_error : Exn → Bool
is_plan_error (plan_error _) = true
is_plan_error (cross_boundary _) = true
is_plan_error (safety_boundary _) = true
is_plan_error _ = false

-- `except SafetyGateError`, with its two subclasses
unfoldable pub is_safety_gate : Exn → Bool
is_safety_gate (safety_gate _) = true
is_safety_gate (mutation_recovery _) = true
is_safety_gate (rollback_reconciliation _) = true
is_safety_gate _ = false

-- `except ArtifactReadError`
unfoldable pub is_artifact_read : Exn → Bool
is_artifact_read (artifact_read _) = true
is_artifact_read _ = false

-- `except Exception`: all but a keyboard interrupt
unfoldable pub is_exception : Exn → Bool
is_exception interrupt = false
is_exception _ = true

-- `str(error)`
unfoldable pub message : Exn → String
message (safety_gate s) = s
message (mutation_recovery r) =
    "mutation commit succeeded or may have succeeded; recovery required; use the surfaced rollback manifest and token"
message (rollback_reconciliation r) =
    "rollback commit succeeded or may have succeeded; reconciliation required; use the surfaced manifest and token"
message (plan_error s) = s
message (cross_boundary s) = s
message (safety_boundary s) = s
message (artifact_read s) = s
message (operational s) = s
message (sqlite_other s) = s
message (file_not_found s) = s
message (file_exists s) = s
message (permission_error s) = s
message (os_error s) = s
message (value_error s) = s
message (unicode_error s) = s
message (json_decode_error s) = s
message (type_error s) = s
message timeout_expired = ""
message interrupt = ""
message (other name) = ""

-- `type(error).__name__`
unfoldable pub class_name : Exn → String
class_name (safety_gate s) = "SafetyGateError"
class_name (mutation_recovery r) = "MutationRecoveryRequired"
class_name (rollback_reconciliation r) = "RollbackReconciliationRequired"
class_name (plan_error s) = "PlanError"
class_name (cross_boundary s) = "CrossBoundaryError"
class_name (safety_boundary s) = "SafetyBoundaryError"
class_name (artifact_read s) = "ArtifactReadError"
class_name (operational s) = "OperationalError"
class_name (sqlite_other s) = "DatabaseError"
class_name (file_not_found s) = "FileNotFoundError"
class_name (file_exists s) = "FileExistsError"
class_name (permission_error s) = "PermissionError"
class_name (os_error s) = "OSError"
class_name (value_error s) = "ValueError"
class_name (unicode_error s) = "UnicodeDecodeError"
class_name (json_decode_error s) = "JSONDecodeError"
class_name (type_error s) = "TypeError"
class_name timeout_expired = "TimeoutExpired"
class_name interrupt = "KeyboardInterrupt"
class_name (other name) = name

-- `controlled_error_code` of privacy.py
unfoldable pub controlled_error_code : Exn → String
unfolding class_name lower has_part
controlled_error_code error =
    let name = lower (class_name error) in
    if has_part name "permission"
    then "permission_denied"
    else if has_part name "timeout"
    then "timeout"
    else "operation_failed"
