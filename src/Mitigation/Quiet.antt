-- ===== src/Mitigation/Quiet.antt =====
-- The parts of mitigation.py and reports.py that make no request by which the database can change.
use codex_storage_doctor.Prelude.{ℕ, String, Bool, true, false, Option, none, some, List}
use codex_storage_doctor.Json.{Json, Fields, obj}
use codex_storage_doctor.Errors.{Exn, CommitOutcome}
use codex_storage_doctor.Host.{Host}
use codex_storage_doctor.Effects.{Conn, M}
use codex_storage_doctor.Effects.Rules.{Quiet, quiet_rules}
use codex_storage_doctor.Reports.{
  ignore_os, ignore_os_on_nt, on_error, guard_exists, publish, write_private_json, require_object,
  read_json_object,
}
use codex_storage_doctor.Planning.Schema.{Triggers}
use codex_storage_doctor.Planning.Quiet.{planning_rules}
use codex_storage_doctor.Mitigation.Gate.{run_scanner, ensure_process_gate}
use codex_storage_doctor.Mitigation.Backup.{
  connect_writable, check_integrity, restrict, confirm_mode, copy_database, publish_backup,
  stat_if_there, ensure_backup_space, backup_database, storage_state,
}
use codex_storage_doctor.Mitigation.Commit.{
  outcome_by, durable_state, durable_if, post_commit_recovery_result,
  rollback_reconciliation_result,
}

Quiet-ignore_os : (m : M (Unit {0})) → Quiet m → Quiet (ignore_os m)
unfolding ignore_os
Quiet-ignore_os m q = search quiet_rules depth 10

Quiet-ignore_os_on_nt : (m : M (Unit {0})) → Quiet m → Quiet (ignore_os_on_nt m)
unfolding ignore_os_on_nt
Quiet-ignore_os_on_nt m q = search quiet_rules depth 12

Quiet-on_error :
    {A : Type 0} (m : M A) (cleanup : M (Unit {0}))
    → Quiet m
    → Quiet cleanup
    → Quiet (on_error m cleanup)
unfolding on_error
Quiet-on_error m cleanup qm qc = search quiet_rules depth 10

Quiet-guard_exists : (target : String) (m : M (Unit {0})) → Quiet m → Quiet (guard_exists target m)
unfolding guard_exists
Quiet-guard_exists target m q = search quiet_rules depth 10

Quiet-publish : (temporary target : String) (b : Bool) → Quiet (publish temporary target b)
unfolding publish
Quiet-publish temporary target true = search quiet_rules
Quiet-publish temporary target false = search (quiet_rules, Quiet-guard_exists) depth 20

ruleset report_rules =
    (planning_rules, Quiet-ignore_os, Quiet-ignore_os_on_nt, Quiet-on_error, Quiet-publish)

pub Quiet-write_private_json :
    (host : Host) (path : String) (value : Fields) (overwrite : Bool)
    → Quiet (write_private_json host path value overwrite)
unfolding write_private_json
Quiet-write_private_json host path value overwrite = search report_rules depth 40

Quiet-require_object : (j : Json) → Quiet (require_object j)
unfolding require_object
Quiet-require_object (obj fs) = search quiet_rules
Quiet-require_object j = search quiet_rules

Quiet-read_json_object : (path : String) → Quiet (read_json_object path)
unfolding read_json_object
Quiet-read_json_object path = search (quiet_rules, Quiet-require_object) depth 20

Quiet-run_scanner : (database : String) → Quiet (run_scanner database)
unfolding run_scanner
Quiet-run_scanner database = search quiet_rules depth 20

pub Quiet-ensure_process_gate :
    (database : String) (allowed : List ℕ) → Quiet (ensure_process_gate database allowed)
unfolding ensure_process_gate
Quiet-ensure_process_gate database allowed = search (quiet_rules, Quiet-run_scanner) depth 20

pub Quiet-connect_writable : (path : String) → Quiet (connect_writable path)
unfolding connect_writable
Quiet-connect_writable path = search quiet_rules depth 20

pub Quiet-check_integrity : (conn : Conn) (label : String) → Quiet (check_integrity conn label)
unfolding check_integrity
Quiet-check_integrity conn label = search quiet_rules depth 20

Quiet-confirm_mode : (mode : ℕ) (actual : Option ℕ) → Quiet (confirm_mode mode actual)
unfolding confirm_mode
Quiet-confirm_mode mode none = search quiet_rules
Quiet-confirm_mode mode (some actual) = search quiet_rules

pub Quiet-restrict : (path : String) (mode : ℕ) → Quiet (restrict path mode)
unfolding restrict
Quiet-restrict path mode = search (quiet_rules, Quiet-confirm_mode) depth 20

Quiet-stat_if_there : (path : String) → Quiet (stat_if_there path)
unfolding stat_if_there
Quiet-stat_if_there path = search quiet_rules depth 20

pub Quiet-ensure_backup_space : (database root : String) → Quiet (ensure_backup_space database root)
unfolding ensure_backup_space
Quiet-ensure_backup_space database root =
    search (quiet_rules, Quiet-restrict, Quiet-stat_if_there) depth 20

pub Quiet-storage_state : (database : String) → Quiet (storage_state database)
unfolding storage_state
Quiet-storage_state database = search (quiet_rules, Quiet-stat_if_there) depth 20

ruleset backup_rules = (report_rules, Quiet-check_integrity, Quiet-restrict)

pub Quiet-copy_database : (database temporary : String) → Quiet (copy_database database temporary)
unfolding copy_database
Quiet-copy_database database temporary = search backup_rules depth 30

pub Quiet-publish_backup : (temporary target : String) → Quiet (publish_backup temporary target)
unfolding publish_backup
Quiet-publish_backup temporary target = search backup_rules depth 30

pub Quiet-backup_database : (database target : String) → Quiet (backup_database database target)
unfolding backup_database
Quiet-backup_database database target =
    search (backup_rules, Quiet-copy_database, Quiet-publish_backup) depth 30

module _ (host : Host) where
  pub Quiet-outcome_by :
      (verdict : Triggers → CommitOutcome) (database base : String)
      → Quiet (outcome_by host verdict database base)
  unfolding outcome_by
  Quiet-outcome_by verdict database base = search planning_rules depth 30

  Quiet-durable_state : (path : String) → Quiet (durable_state host path)
  unfolding durable_state
  Quiet-durable_state path = search (quiet_rules, Quiet-read_json_object) depth 30

  Quiet-durable_if : (path : Option String) → Quiet (durable_if host path)
  unfolding durable_if
  Quiet-durable_if none = search quiet_rules
  Quiet-durable_if (some path) = Quiet-durable_state path

  pub Quiet-post_commit_recovery_result :
      (a b c d e f g : String) (x : Exn) (o : CommitOutcome) (s : String)
      → Quiet (post_commit_recovery_result host a b c d e f g x o s)
  unfolding post_commit_recovery_result
  Quiet-post_commit_recovery_result a b c d e f g x o s =
      search (quiet_rules, Quiet-durable_state) depth 10

  pub Quiet-rollback_reconciliation_result :
      (a b : String) (c : Option String) (d e f g : String) (x : Exn) (o : CommitOutcome)
      (s : String)
      → Quiet (rollback_reconciliation_result host a b c d e f g x o s)
  unfolding rollback_reconciliation_result
  Quiet-rollback_reconciliation_result a b c d e f g x o s =
      search (quiet_rules, Quiet-durable_if) depth 10

pub ruleset mitigation_rules = (
  planning_rules, Quiet-write_private_json, Quiet-ensure_process_gate, Quiet-connect_writable,
  Quiet-check_integrity, Quiet-restrict, Quiet-ensure_backup_space, Quiet-storage_state,
  Quiet-backup_database, Quiet-outcome_by, Quiet-post_commit_recovery_result,
  Quiet-rollback_reconciliation_result,
)
