-- ===== src/Mitigation/Rollback/Recovery.antt =====
-- The reports that replace an exception in `rollback`, and the handlers that raise them.
use codex_storage_doctor.Prelude.{String, refl, Option, none, some}
use codex_storage_doctor.Json.{Fields}
use codex_storage_doctor.Errors.{
  Exn, CommitOutcome, ambiguous, verified_committed, verified_not_committed, is_operational,
}
use codex_storage_doctor.Host.{Host}
use codex_storage_doctor.Effects.{World, Env, pure, raise, gets}
use codex_storage_doctor.Effects.Mutations.{step, Raises, if_Post}
use codex_storage_doctor.Mitigation.Commit.{durable_if, rollback_reconciliation_result}
use codex_storage_doctor.Mitigation.Apply.Recovery.{NoRefusal, at_raised, durable_state-NoRefusal}
use codex_storage_doctor.Mitigation.Rollback.{Target}
use codex_storage_doctor.Mitigation.Rollback.Transaction.{
  Saved, raise_reconciliation, after_failed_commit, on_commit_error, on_failure,
}

module _ (host : Host) (env : Env) where
  durable_if-NoRefusal :
      (path : Option String) (w : World) → let s = durable_if host path env w in NoRefusal s.0 s.1
  unfolding durable_if pure
  durable_if-NoRefusal none w = tt
  durable_if-NoRefusal (some path) w = durable_state-NoRefusal host env path w

  report-NoRefusal :
      (a b : String) (c : Option String) (d e f g : String) (x : Exn) (o : CommitOutcome)
      (stage : String) (w : World)
      → let s = rollback_reconciliation_result host a b c d e f g x o stage env w in
        NoRefusal s.0 s.1
  unfolding rollback_reconciliation_result pure
  report-NoRefusal a b c d e f g x o stage w =
      step NoRefusal env (durable_if host c) _ w (λ r p. tt)
        (λ y p. at_raised _ _ (durable_if-NoRefusal c w) p)

  module _ (m : Fields) (t : Target) (s : Saved) where
    pub raise_reconciliation-NoRefusal :
        (A : Type 0) (e : Exn) (o : CommitOutcome) (stage : String) (w : World)
        → let r = raise_reconciliation host m t s {A = A} e o stage env w in NoRefusal r.0 r.1
    unfolding raise_reconciliation raise gets
    raise_reconciliation-NoRefusal A e o stage w =
        step NoRefusal env (gets _) _ w
          (λ current q.
            step NoRefusal env _ _ w (λ report r. refl)
              (λ y r. at_raised _ _ (report-NoRefusal _ _ _ _ _ _ _ e o stage w) r))
          (λ y q. cc)

    pub raise_reconciliation-Raises :
        (A : Type 0) (e : Exn) (o : CommitOutcome) (stage : String) (w : World)
        → let r = raise_reconciliation host m t s {A = A} e o stage env w in Raises r.0 r.1
    unfolding raise_reconciliation raise
    raise_reconciliation-Raises A e o stage w =
        step Raises env (gets _) _ w
          (λ current q. step Raises env _ _ _ (λ report r. tt) (λ y r. tt)) (λ y q. tt)

    after_failed_commit-Raises :
        (e : Exn) (o : CommitOutcome) (w : World)
        → let r = after_failed_commit host m t s e o env w in Raises r.0 r.1
    unfolding after_failed_commit raise
    after_failed_commit-Raises e ambiguous w =
        raise_reconciliation-Raises (Unit {0}) e ambiguous "commit_outcome" w
    after_failed_commit-Raises e verified_committed w =
        raise_reconciliation-Raises (Unit {0}) e verified_committed "commit_outcome" w
    after_failed_commit-Raises e verified_not_committed w = tt

    -- The handler of the COMMIT never returns.
    pub on_commit_error-Raises :
        (e : Exn) (w : World) → let r = on_commit_error host m t s e env w in Raises r.0 r.1
    unfolding on_commit_error
    on_commit_error-Raises e w =
        step Raises env _ _ w
          (λ _ q.
            step Raises env _ _ _
              (λ _ q.
                step Raises env _ _ _
                  (λ _ q.
                    step Raises env _ _ _ (λ o r. after_failed_commit-Raises e o _) (λ y r. tt))
                  (λ y q. tt))
              (λ y q. tt))
          (λ y q. tt)

    -- The two `except` clauses never return.
    pub on_failure-Raises :
        (e : Exn) (w : World) → let r = on_failure host m t s e env w in Raises r.0 r.1
    unfolding on_failure raise
    on_failure-Raises e w =
        step Raises env _ _ w (λ _ q. if_Post Raises env (is_operational e) _ _ _ tt tt) (λ y q. tt)
