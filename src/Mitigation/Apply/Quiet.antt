-- ===== src/Mitigation/Apply/Quiet.antt =====
-- The parts of `apply_plan` that make no request by which the database can change.
use codex_storage_doctor.Prelude.{String, Option, none, some}
use codex_storage_doctor.Json.{Json, Fields, str}
use codex_storage_doctor.Errors.{
  Exn, CommitOutcome, ambiguous, verified_committed, verified_not_committed,
}
use codex_storage_doctor.Host.{Host}
use codex_storage_doctor.Effects.{Conn, Outcome, ok, raised}
use codex_storage_doctor.Effects.Rules.{Quiet, quiet_rules, Quiet-set_closed}
use codex_storage_doctor.Mitigation.Quiet.{mitigation_rules, Quiet-outcome_by}
use codex_storage_doctor.Mitigation.Commit.{apply_commit_outcome}
use codex_storage_doctor.Mitigation.Apply.{
  ApplyResult, Target, Prepared, plan_refusal, version_refusal, already_there, check_target,
  preflight, prepare,
}
use codex_storage_doctor.Mitigation.Apply.Transaction.{
  finish, finalize, roll_back_if_open, close_quietly, raise_recovery, recheck, verify_installed,
  leave_installed, on_failure, close_failed, after_close, on_commit_error, after_failed_commit,
}

Quiet-plan_refusal : (o : Outcome (Unit {0})) → Quiet (plan_refusal o)
unfolding plan_refusal
Quiet-plan_refusal (ok _) = search quiet_rules
Quiet-plan_refusal (raised e) = search quiet_rules

Quiet-version_refusal : (j : Json) (o : Option String) → Quiet (version_refusal j o)
unfolding version_refusal
Quiet-version_refusal (str s) none = search quiet_rules
Quiet-version_refusal (str s) (some now) = search quiet_rules
Quiet-version_refusal j o = search quiet_rules

Quiet-already_there : (conn : Conn) (name sql : String) → Quiet (already_there conn name sql)
unfolding already_there
Quiet-already_there conn name sql = search mitigation_rules depth 20

ruleset apply_rules =
    (mitigation_rules, Quiet-plan_refusal, Quiet-version_refusal, Quiet-already_there)

pub Quiet-roll_back_if_open : Quiet roll_back_if_open
unfolding roll_back_if_open
Quiet-roll_back_if_open = search quiet_rules depth 20

pub Quiet-close_quietly : Quiet close_quietly
unfolding close_quietly
Quiet-close_quietly = search quiet_rules depth 20

module _ (host : Host) where
  pub Quiet-check_target :
      (plan : Fields) (confirmation : String) → Quiet (check_target host plan confirmation)
  unfolding check_target
  Quiet-check_target plan confirmation = search apply_rules depth 60

  pub Quiet-preflight : (t : Target) → Quiet (preflight host t)
  unfolding preflight
  Quiet-preflight t = search apply_rules depth 30

  pub Quiet-prepare : (plan : Fields) (t : Target) → Quiet (prepare host plan t)
  unfolding prepare
  Quiet-prepare plan t = search apply_rules depth 60

  module _ (plan : Fields) (t : Target) (p : Prepared) where
    pub Quiet-raise_recovery :
        {A : Type 0} (e : Exn) (o : CommitOutcome) (s : String)
        → Quiet (raise_recovery host plan t p {A = A} e o s)
    unfolding raise_recovery
    Quiet-raise_recovery e o s = search mitigation_rules depth 20

    pub Quiet-recheck : Quiet (recheck host plan t p)
    unfolding recheck
    Quiet-recheck = search apply_rules depth 40

    pub Quiet-apply_commit_outcome :
        Quiet (apply_commit_outcome host t.database t.name t.sql t.base)
    unfolding apply_commit_outcome
    Quiet-apply_commit_outcome = Quiet-outcome_by host _ t.database t.base

    pub Quiet-verify_installed : Quiet (verify_installed host plan t p)
    unfolding verify_installed
    Quiet-verify_installed = search apply_rules depth 30

    pub Quiet-finalize : Quiet (finalize host plan t p)
    unfolding finalize
    Quiet-finalize = search (apply_rules, Quiet-verify_installed) depth 30

    pub Quiet-leave_installed : Quiet (leave_installed host plan t p)
    unfolding leave_installed
    Quiet-leave_installed = search quiet_rules depth 20

    pub Quiet-on_failure : (e : Exn) → Quiet (on_failure host plan t p e)
    unfolding on_failure
    Quiet-on_failure e =
        search (quiet_rules, Quiet-roll_back_if_open, Quiet-raise_recovery) depth 20

    Quiet-close_failed :
        (r : Outcome ApplyResult) (e : Exn) → Quiet (close_failed host plan t p r e)
    unfolding close_failed
    Quiet-close_failed (ok a) e = search (quiet_rules, Quiet-raise_recovery) depth 20
    Quiet-close_failed (raised x) e = search quiet_rules

    pub Quiet-after_close :
        (r : Outcome ApplyResult) (c : Outcome (Unit {0})) → Quiet (after_close host plan t p r c)
    unfolding after_close
    Quiet-after_close r (ok _) = search quiet_rules
    Quiet-after_close r (raised e) = Quiet-close_failed r e

    Quiet-after_failed_commit :
        (e : Exn) (o : CommitOutcome) → Quiet (after_failed_commit host plan t p e o)
    unfolding after_failed_commit
    Quiet-after_failed_commit e ambiguous = Quiet-raise_recovery e ambiguous "commit_outcome"
    Quiet-after_failed_commit e verified_committed =
        Quiet-raise_recovery e verified_committed "commit_outcome"
    Quiet-after_failed_commit e verified_not_committed = search quiet_rules

    pub Quiet-on_commit_error : (e : Exn) → Quiet (on_commit_error host plan t p e)
    unfolding on_commit_error
    Quiet-on_commit_error e =
        search
          (
            quiet_rules, Quiet-set_closed, Quiet-close_quietly, Quiet-apply_commit_outcome,
            Quiet-after_failed_commit,
          )
          depth 20

    pub Quiet-finish : (r : Outcome ApplyResult) → Quiet (finish host plan t p r)
    unfolding finish
    Quiet-finish r = search (quiet_rules, Quiet-after_close) depth 20
