-- ===== src/Mitigation/Apply/Contract.antt =====
-- What the outcome of `apply_plan` says of the requests that can change the database.
use codex_storage_doctor.Prelude.{
  String, ◌≡◌, refl, ◌∙◌, Bool, true, false, [], ◌∷◌, ◌⊎◌, inl, inr, ap, subst, if◌then◌else◌,
}
use codex_storage_doctor.Json.{Fields}
use codex_storage_doctor.Errors.{Exn, CommitOutcome, verified_committed}
use codex_storage_doctor.Host.{Host}
use codex_storage_doctor.Effects.{
  Conn, Request, World, Env, Outcome, ok, raised, M, pure, raise, call, gets, ◌>>=◌, catch, attempt,
  return, set_committed,
}
use codex_storage_doctor.Effects.Rules.{
  Calm, Calm-trans, Quiet-call, Quiet-gets, Quiet-attempt, Quiet-set_open, Quiet-set_closed,
}
use codex_storage_doctor.Effects.Mutations.{
  created, commit_done, mutations, has_committed, mutations-Calm, Post, step, step_quiet, handle,
  Raises-Post, Raises, if_Post, if_true_Post,
}
use codex_storage_doctor.Mitigation.Quiet.{Quiet-connect_writable}
use codex_storage_doctor.Mitigation.Apply.{ApplyResult, already_applied, applied, Target, Prepared}
use codex_storage_doctor.Mitigation.Apply.Transaction.{
  roll_back_if_open, raise_recovery, transaction, on_failure, close_failed, after_close, finish,
  run_transaction, apply_plan,
}
use codex_storage_doctor.Mitigation.Apply.Quiet.{
  Quiet-check_target, Quiet-preflight, Quiet-prepare, Quiet-on_failure, Quiet-roll_back_if_open,
}
use codex_storage_doctor.Mitigation.Apply.Recovery.{
  is_refusal, NoRefusal, raise_recovery-NoRefusal, raise_recovery-Raises, on_failure-Raises,
}
use codex_storage_doctor.Mitigation.Apply.Inside.{
  Fresh, Uncommitted, Installed, Inside, Fresh-Calm, Uncommitted-Calm, Installed-Calm,
  Fresh-Uncommitted, transaction-Inside,
}

-- What each outcome says of the mutating requests of the run.
abbrev pub Contract : Post ApplyResult
Contract (ok (already_applied database name)) w = mutations w.trace ≡ []
Contract (ok (applied database name manifest backup hash token)) w =
    mutations w.trace ≡ commit_done ∷ created ∷ []
Contract (raised e) w = is_refusal e ≡ true → has_committed (mutations w.trace) ≡ false

-- What the `try` block with its handlers leaves.
abbrev Caught : Post ApplyResult
Caught (ok a) w = Inside (ok a) w
Caught (raised e) w = Uncommitted w ⊎ (is_refusal e ≡ false)

abbrev Later : Post (Outcome ApplyResult)
Later (ok r) w = Caught r w
Later (raised e) w = ⊥

Caught-Contract : (r : Outcome ApplyResult) (w : World) → Caught r w → Contract r w
Caught-Contract (ok (already_applied database name)) w h = h.0
Caught-Contract (ok (applied database name manifest backup hash token)) w h = h.0
Caught-Contract (raised e) w (inl h) = λ _. h.0
Caught-Contract (raised e) w (inr h) = cc

Caught-Calm : (r : Outcome ApplyResult) {u v : World} → Calm u v → Caught r u → Caught r v
Caught-Calm (ok (already_applied database name)) k h = Fresh-Calm k h
Caught-Calm (ok (applied database name manifest backup hash token)) k h = Installed-Calm k h
Caught-Calm (raised e) k (inl h) = inl (Uncommitted-Calm k h)
Caught-Calm (raised e) k (inr h) = inr h

recovered : (r : Outcome ApplyResult) (w : World) → Raises r w → NoRefusal r w → Caught r w
recovered (ok a) w h k = absurd h
recovered (raised e) w h k = inr k

module _ (env : Env) where
  pub at_gets :
      {A : Type 0} (f : World → A) (w : World) {a b : A} → (gets f env w).0 ≡ ok a → f w ≡ b → a ≡ b
  unfolding gets
  at_gets f w p q = cc

  pub gets_ok : {A : Type 0} (f : World → A) (w : World) {e : Exn} → (gets f env w).0 ≡ raised e → ⊥
  unfolding gets
  gets_ok f w p = cc

  roll_back_if_open-closed :
      (w : World) → w.transaction_open ≡ false → roll_back_if_open env w ≡ (ok tt, w)
  unfolding roll_back_if_open ◌>>=◌ gets pure
  roll_back_if_open-closed w h = rw (h) refl

module _ (host : Host) (env : Env) (plan : Fields) (t : Target) (p : Prepared) where
  raise_recovery-Caught :
      (e : Exn) (o : CommitOutcome) (stage : String) (w : World)
      → let s = raise_recovery host plan t p e o stage env w in Caught s.0 s.1
  raise_recovery-Caught e o stage w =
      recovered _ _ (raise_recovery-Raises host env plan t p ApplyResult e o stage w)
        (raise_recovery-NoRefusal host env plan t p ApplyResult e o stage w)

  on_failure-Caught :
      (e : Exn) (w : World)
      → Uncommitted w ⊎ Installed w
      → let s = on_failure host plan t p e env w in Caught s.0 s.1
  unfolding on_failure
  on_failure-Caught e w (inl h) =
      Raises-Post Caught _ _ _ (on_failure-Raises host env plan t p e w)
        (λ x. inl (Uncommitted-Calm ((Quiet-on_failure host plan t p e).at env w) h))
  on_failure-Caught e w (inr h) =
      step Caught env roll_back_if_open _ w
        (λ _ _.
          let now = Installed-Calm (Quiet-roll_back_if_open.at env w) h in
          step Caught env (gets _) _ _
            (λ done q.
              if_true_Post Caught env done _ _ _ (at_gets env (λ w. w.committed) _ q now.1)
                (raise_recovery-Caught e verified_committed "post_commit" _))
            (λ x q. absurd (gets_ok env _ _ q)))
        (λ x q. let p = roll_back_if_open-closed env w h.2 in cc)

  caught-Caught :
      (w : World)
      → Fresh w
      → let s = catch (transaction host plan t p) (on_failure host plan t p) env w in Caught s.0 s.1
  caught-Caught w h =
      let v = (transaction host plan t p env w).1 in
      let at = λ (r : Outcome ApplyResult). Inside r v in
      let inside = transaction-Inside host env plan t p w h in
      handle Caught env (transaction host plan t p) _ w (λ a q. subst at q inside)
        (λ e q. on_failure-Caught e v (subst at q inside))

  -- The close that failed, after each outcome.
  close_failed-Contract :
      (r : Outcome ApplyResult) (e : Exn) (w : World)
      → Caught r w
      → let s = close_failed host plan t p r e env w in Contract s.0 s.1
  unfolding close_failed raise
  close_failed-Contract (raised x) e w h = Caught-Contract (raised x) w h
  close_failed-Contract (ok (already_applied d n)) e w h =
      step_quiet Contract env (Quiet-gets _) _ w
        (λ done v k.
          if_Post Contract env done _ _ v
            (Caught-Contract _ _ (raise_recovery-Caught e verified_committed "post_commit" v))
            (λ _. (Fresh-Uncommitted v (Fresh-Calm k h)).0))
        (λ x v k _. (Fresh-Uncommitted v (Fresh-Calm k h)).0)
  close_failed-Contract (ok (applied d n m b hash token)) e w h =
      step Contract env (gets _) _ w
        (λ done q.
          if_true_Post Contract env done _ _ _ (at_gets env (λ w. w.committed) _ q h.1)
            (Caught-Contract _ _ (raise_recovery-Caught e verified_committed "post_commit" _)))
        (λ x q. absurd (gets_ok env _ _ q))

  after_close-Contract :
      (r : Outcome ApplyResult) (c : Outcome (Unit {0})) (w : World)
      → Caught r w
      → let s = after_close host plan t p r c env w in Contract s.0 s.1
  unfolding after_close return
  after_close-Contract r (ok _) w h = Caught-Contract r w h
  after_close-Contract r (raised e) w h = close_failed-Contract r e w h

  finish-Contract :
      (r : Outcome ApplyResult) (w : World)
      → Caught r w
      → let s = finish host plan t p r env w in Contract s.0 s.1
  unfolding finish return attempt
  finish-Contract r w h =
      step Contract env (gets _) _ w
        (λ closed q.
          if_Post Contract env closed _ _ _
            (Caught-Contract r _
              (Caught-Calm r ((Quiet-gets (λ w. w.connection_closed)).at env w) h))
            (let closing = call (Request.close Conn.writer) in
              let v = (gets (λ w. w.connection_closed) env w).1 in
              let k = (Quiet-gets (λ w. w.connection_closed)).at env w in
              step Contract env (attempt closing) _ v
                (λ c q.
                  let k1 =
                    (Quiet-attempt closing (Quiet-call (Request.close Conn.writer) refl)).at env
                      v in
                  after_close-Contract r c _ (Caught-Calm r (Calm-trans k k1) h))
                (λ x q. cc)))
        (λ x q. absurd (gets_ok env _ _ q))

  -- The `finally` clause, where the outcome is in a variable.
  caught_then_finish-Contract :
      (w : World)
      → Fresh w
      → let s =
          (attempt (catch (transaction host plan t p) (on_failure host plan t p))
              >>= finish host plan t p)
            env w in
        Contract s.0 s.1
  unfolding attempt
  caught_then_finish-Contract w h =
      step Contract env (attempt (catch (transaction host plan t p) (on_failure host plan t p))) _ w
        (λ r q.
          let v = (catch (transaction host plan t p) (on_failure host plan t p) env w).1 in
          let at = λ (o : Outcome (Outcome ApplyResult)). Later o v in
          finish-Contract r v (subst at q (caught-Caught w h)))
        (λ x q. cc)

  run_transaction-Contract :
      (w : World)
      → mutations w.trace ≡ []
      → let s = run_transaction host plan t p env w in Contract s.0 s.1
  unfolding run_transaction set_committed
  run_transaction-Contract w h =
      step_quiet Contract env (Quiet-connect_writable t.database) _ w
        (λ _ u k.
          step_quiet Contract env Quiet-set_open _ u
            (λ _ u1 k1.
              step Contract env (set_committed false) _ u1
                (λ _ _.
                  step_quiet Contract env (Quiet-set_closed false) _ _
                    (λ _ u2 k2.
                      caught_then_finish-Contract u2
                        (Fresh-Calm k2 (mutations-Calm (Calm-trans k k1) ∙ h, refl)))
                    (λ x u2 k2 _.
                      ap has_committed (mutations-Calm k2 ∙ mutations-Calm (Calm-trans k k1) ∙ h)))
                (λ x q. cc))
            (λ x u1 k1 _. ap has_committed (mutations-Calm (Calm-trans k k1) ∙ h)))
        (λ x u k _. ap has_committed (mutations-Calm k ∙ h))

module _ (host : Host) (env : Env) where
  already-Contract :
      (b : Bool) (d n : String) (m : M ApplyResult) (w : World)
      → mutations w.trace ≡ []
      → (let s = m env w in Contract s.0 s.1)
      → let s = (if b then pure (already_applied d n) else m) env w in Contract s.0 s.1
  unfolding pure
  already-Contract true d n m w h k = h
  already-Contract false d n m w h k = k

  -- A run of `apply_plan` that starts with no mutating request ends, for every reply of the operating
  -- system and of SQLite, in one of three ways. If it answers that the trigger is already applied, it
  -- made no mutating request. If it answers that the trigger is applied, its mutating requests are
  -- one CREATE TRIGGER and after it one COMMIT that returned. If it raises a plain SafetyGateError,
  -- no COMMIT returned.
  pub apply_plan-Contract :
      (plan : Fields) (confirmation : String) (w : World)
      → mutations w.trace ≡ []
      → let s = apply_plan host plan confirmation env w in Contract s.0 s.1
  unfolding apply_plan
  apply_plan-Contract plan confirmation w h =
      step_quiet Contract env (Quiet-check_target host plan confirmation) _ w
        (λ t u k.
          step_quiet Contract env (Quiet-preflight host t) _ u
            (λ b u1 k1.
              let h1 = mutations-Calm (Calm-trans k k1) ∙ h in
              already-Contract b t.database t.name _ u1 h1 (
                step_quiet Contract env (Quiet-prepare host plan t) _ u1
                  (λ p u2 k2.
                    run_transaction-Contract host env plan t p u2 (mutations-Calm k2 ∙ h1))
                  (λ x u2 k2 _. ap has_committed (mutations-Calm k2 ∙ h1))))
            (λ x u1 k1 _. ap has_committed (mutations-Calm (Calm-trans k k1) ∙ h)))
        (λ x u k _. ap has_committed (mutations-Calm k ∙ h))
