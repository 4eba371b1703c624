-- ===== src/Mitigation/Apply/Recovery.antt =====
-- The reports that replace an exception after a COMMIT, and the handlers that raise them.
use codex_storage_doctor.Prelude.{
  String, ◌≡◌, refl, Bool, true, false, ◌||◌, Option, none, if◌then◌else◌,
}
use codex_storage_doctor.Json.{Fields}
use codex_storage_doctor.Errors.{
  Exn, CommitOutcome, ambiguous, verified_committed, verified_not_committed, safety_gate,
  artifact_read, rollback_reconciliation, mutation_recovery, is_operational, is_safety_gate,
  is_artifact_read,
}
use codex_storage_doctor.Host.{Host}
use codex_storage_doctor.Effects.{World, Env, Outcome, ok, raised, pure, raise, gets}
use codex_storage_doctor.Effects.Mutations.{Post, step, handle, Raises, if_Post}
use codex_storage_doctor.Mitigation.Commit.{durable_state, post_commit_recovery_result}
use codex_storage_doctor.Mitigation.Apply.{ApplyResult, Target, Prepared}
use codex_storage_doctor.Mitigation.Apply.Transaction.{
  raise_recovery, after_failed_commit, on_commit_error, on_failure,
}

-- Is the exception a plain SafetyGateError, which the command line reports as a refusal?
abbrev pub is_refusal : Exn → Bool
is_refusal (safety_gate s) = true
is_refusal _ = false

-- An outcome that is no refusal.
abbrev pub NoRefusal : {A : Type 0} → Post A
NoRefusal (ok a) w = Unit
NoRefusal (raised e) w = is_refusal e ≡ false

pub at_raised :
    {A : Type 0} (r : Outcome A) (w : World) {e : Exn}
    → NoRefusal r w
    → r ≡ raised e
    → is_refusal e ≡ false
at_raised (ok a) w h p = cc
at_raised (raised x) w h p = cc

module _ (host : Host) (env : Env) where
  reraise-NoRefusal :
      (e : Exn) (w : World)
      → let s = (if is_artifact_read e || is_safety_gate e then pure none else raise e) env w in
        NoRefusal {A = Option (String × String)} s.0 s.1
  unfolding pure raise is_artifact_read is_safety_gate
  reraise-NoRefusal (artifact_read x) w = tt
  reraise-NoRefusal (safety_gate x) w = tt
  reraise-NoRefusal (mutation_recovery x) w = tt
  reraise-NoRefusal (rollback_reconciliation x) w = tt
  reraise-NoRefusal e w = refl

  -- The report's own reading of the manifest never ends in a refusal.
  pub durable_state-NoRefusal :
      (path : String) (w : World) → let s = durable_state host path env w in NoRefusal s.0 s.1
  unfolding durable_state
  durable_state-NoRefusal path w =
      handle NoRefusal env _ _ w (λ a p. tt) (λ e p. reraise-NoRefusal e _)

  pub report-NoRefusal :
      (a b c d e f g : String) (x : Exn) (o : CommitOutcome) (stage : String) (w : World)
      → let s = post_commit_recovery_result host a b c d e f g x o stage env w in NoRefusal s.0 s.1
  unfolding post_commit_recovery_result pure
  report-NoRefusal a b c d e f g x o stage w =
      step NoRefusal env (durable_state host c) _ w (λ r p. tt)
        (λ y p. at_raised _ _ (durable_state-NoRefusal c w) p)

  module _ (plan : Fields) (t : Target) (p : Prepared) where
    pub raise_recovery-NoRefusal :
        (A : Type 0) (e : Exn) (o : CommitOutcome) (stage : String) (w : World)
        → let s = raise_recovery host plan t p {A = A} e o stage env w in NoRefusal s.0 s.1
    unfolding raise_recovery raise gets
    raise_recovery-NoRefusal A e o stage w =
        step NoRefusal env (gets _) _ w
          (λ current q.
            step NoRefusal env _ _ w (λ report r. refl)
              (λ y r. at_raised _ _ (report-NoRefusal _ _ _ _ _ _ _ e o stage w) r))
          (λ y q. cc)

    pub raise_recovery-Raises :
        (A : Type 0) (e : Exn) (o : CommitOutcome) (stage : String) (w : World)
        → let s = raise_recovery host plan t p {A = A} e o stage env w in Raises s.0 s.1
    unfolding raise_recovery raise
    raise_recovery-Raises A e o stage w =
        step Raises env (gets _) _ w
          (λ current q. step Raises env _ _ _ (λ report r. tt) (λ y r. tt)) (λ y q. tt)

    after_failed_commit-Raises :
        (e : Exn) (o : CommitOutcome) (w : World)
        → let s = after_failed_commit host plan t p e o env w in Raises s.0 s.1
    unfolding after_failed_commit raise
    after_failed_commit-Raises e ambiguous w =
        raise_recovery-Raises (Unit {0}) e ambiguous "commit_outcome" w
    after_failed_commit-Raises e verified_committed w =
        raise_recovery-Raises (Unit {0}) e verified_committed "commit_outcome" w
    after_failed_commit-Raises e verified_not_committed w = tt

    -- The handler of the COMMIT never returns.
    pub on_commit_error-Raises :
        (e : Exn) (w : World) → let s = on_commit_error host plan t p e env w in Raises s.0 s.1
    unfolding on_commit_error
    on_commit_error-Raises e w =
        step Raises env _ _ w
          (λ _ q.
            step Raises env _ _ _
              (λ _ q.
                step Raises env _ _ _
                  (λ _ q.
                    step Raises env _ _ _ (λ o r. after_failed_commit-Raises e o _) (λ y r. tt))
                  (λ y q. tt))
              (λ y q. tt))
          (λ y q. tt)

    -- The two `except` clauses never return.
    pub on_failure-Raises :
        (e : Exn) (w : World) → let s = on_failure host plan t p e env w in Raises s.0 s.1
    unfolding on_failure raise
    on_failure-Raises e w =
        step Raises env _ _ w
          (λ _ q.
            step Raises env _ _ _
              (λ done q.
                if_Post Raises env done _ _ _
                  (raise_recovery-Raises ApplyResult e verified_committed "post_commit" _)
                  (if_Post Raises env (is_operational e) _ _ _ tt tt))
              (λ y q. tt))
          (λ y q. tt)
