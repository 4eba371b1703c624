-- ===== src/Mitigation/Rollback/Quiet.antt =====
-- The parts of `rollback` that make no request by which the database can change.
use codex_storage_doctor.Prelude.{Bool, String, Option, none, some}
use codex_storage_doctor.Json.{Fields}
use codex_storage_doctor.Errors.{
  Exn, CommitOutcome, ambiguous, verified_committed, verified_not_committed,
}
use codex_storage_doctor.Host.{Host}
use codex_storage_doctor.Effects.{Conn, Outcome, ok, raised}
use codex_storage_doctor.Effects.Rules.{Quiet, quiet_rules, Quiet-set_closed}
use codex_storage_doctor.Mitigation.Quiet.{mitigation_rules, Quiet-outcome_by}
use codex_storage_doctor.Mitigation.Commit.{rollback_commit_outcome}
use codex_storage_doctor.Mitigation.Apply.Quiet.{Quiet-roll_back_if_open, Quiet-close_quietly}
use codex_storage_doctor.Mitigation.Rollback.{
  Target, confirm_trigger, installed_trigger, write_if_given, mark_rolled_back, check_manifest_path,
  check_target, preflight,
}
use codex_storage_doctor.Mitigation.Rollback.Transaction.{
  close_failed, after_close, finish, settle, settle_or_reconcile, Saved, save, raise_reconciliation,
  recheck, after_failed_commit, on_commit_error, on_failure, leave_absent, verify_removed,
}

Quiet-confirm_trigger :
    (host : Host) (hash : String) (o : Option String) → Quiet (confirm_trigger host hash o)
unfolding confirm_trigger
Quiet-confirm_trigger host hash none = search quiet_rules
Quiet-confirm_trigger host hash (some sql) = search quiet_rules

Quiet-installed_trigger :
    (host : Host) (conn : Conn) (name hash : String) → Quiet (installed_trigger host conn name hash)
unfolding installed_trigger
Quiet-installed_trigger host conn name hash =
    search (mitigation_rules, Quiet-confirm_trigger) depth 20

pub Quiet-write_if_given :
    (host : Host) (path : Option String) (m : Fields) → Quiet (write_if_given host path m)
unfolding write_if_given
Quiet-write_if_given host none m = search quiet_rules
Quiet-write_if_given host (some path) m = search mitigation_rules depth 10

pub Quiet-mark_rolled_back :
    (host : Host) (m : Fields) (path : Option String) → Quiet (mark_rolled_back host m path)
unfolding mark_rolled_back
Quiet-mark_rolled_back host m path = search (quiet_rules, Quiet-write_if_given) depth 10

Quiet-check_manifest_path :
    (host : Host) (path : Option String) (dir : String) → Quiet (check_manifest_path host path dir)
unfolding check_manifest_path
Quiet-check_manifest_path host none dir = search quiet_rules
Quiet-check_manifest_path host (some path) dir = search quiet_rules depth 10

ruleset rollback_rules =
    (mitigation_rules, Quiet-installed_trigger, Quiet-mark_rolled_back, Quiet-check_manifest_path)

module _ (host : Host) where
  pub Quiet-check_target :
      (m : Fields) (confirmation : String) (path : Option String)
      → Quiet (check_target host m confirmation path)
  unfolding check_target
  Quiet-check_target m confirmation path = search rollback_rules depth 60

  module _ (m : Fields) (t : Target) where
    pub Quiet-preflight : Quiet (preflight host m t)
    unfolding preflight
    Quiet-preflight = search rollback_rules depth 30

    pub Quiet-save : Quiet (save host m t)
    unfolding save
    Quiet-save = search rollback_rules depth 30

    module _ (s : Saved) where
      pub Quiet-raise_reconciliation :
          {A : Type 0} (e : Exn) (o : CommitOutcome) (stage : String)
          → Quiet (raise_reconciliation host m t s {A = A} e o stage)
      unfolding raise_reconciliation
      Quiet-raise_reconciliation e o stage = search mitigation_rules depth 20

      pub Quiet-recheck : Quiet (recheck host m t s)
      unfolding recheck
      Quiet-recheck = search rollback_rules depth 40

      Quiet-rollback_commit_outcome :
          Quiet (rollback_commit_outcome host t.database t.name t.sql t.base)
      unfolding rollback_commit_outcome
      Quiet-rollback_commit_outcome = Quiet-outcome_by host _ t.database t.base

      Quiet-after_failed_commit :
          (e : Exn) (o : CommitOutcome) → Quiet (after_failed_commit host m t s e o)
      unfolding after_failed_commit
      Quiet-after_failed_commit e ambiguous =
          Quiet-raise_reconciliation e ambiguous "commit_outcome"
      Quiet-after_failed_commit e verified_committed =
          Quiet-raise_reconciliation e verified_committed "commit_outcome"
      Quiet-after_failed_commit e verified_not_committed = search quiet_rules

      pub Quiet-on_commit_error : (e : Exn) → Quiet (on_commit_error host m t s e)
      unfolding on_commit_error
      Quiet-on_commit_error e =
          search
            (
              quiet_rules, Quiet-set_closed, Quiet-close_quietly, Quiet-rollback_commit_outcome,
              Quiet-after_failed_commit,
            )
            depth 20

      pub Quiet-on_failure : (e : Exn) → Quiet (on_failure host m t s e)
      unfolding on_failure
      Quiet-on_failure e = search (quiet_rules, Quiet-roll_back_if_open) depth 20

      pub Quiet-leave_absent : Quiet (leave_absent host m t s)
      unfolding leave_absent
      Quiet-leave_absent = search rollback_rules depth 20

      pub Quiet-verify_removed : Quiet (verify_removed host m t s)
      unfolding verify_removed
      Quiet-verify_removed = search rollback_rules depth 30

      Quiet-close_failed : (r : Outcome Bool) (e : Exn) → Quiet (close_failed host m t s r e)
      unfolding close_failed
      Quiet-close_failed (ok a) e = search (quiet_rules, Quiet-raise_reconciliation) depth 20
      Quiet-close_failed (raised x) e = search quiet_rules

      Quiet-after_close :
          (r : Outcome Bool) (c : Outcome (Unit {0})) → Quiet (after_close host m t s r c)
      unfolding after_close
      Quiet-after_close r (ok _) = search quiet_rules
      Quiet-after_close r (raised e) = Quiet-close_failed r e

      pub Quiet-finish : (r : Outcome Bool) → Quiet (finish host m t s r)
      unfolding finish
      Quiet-finish r = search (quiet_rules, Quiet-after_close) depth 20

      Quiet-settle : Quiet (settle host m t s)
      unfolding settle
      Quiet-settle = search (mitigation_rules, Quiet-verify_removed, Quiet-write_if_given) depth 40

      pub Quiet-settle_or_reconcile : Quiet (settle_or_reconcile host m t s)
      unfolding settle_or_reconcile
      Quiet-settle_or_reconcile =
          search (quiet_rules, Quiet-settle, Quiet-raise_reconciliation) depth 20
