-- ===== src/Mitigation/Rollback/Contract.antt =====
-- What the outcome of `rollback` says of the requests that can change the database.
use codex_storage_doctor.Prelude.{
  String, ◌≡◌, refl, ◌∙◌, Bool, true, false, not, Option, [], ◌∷◌, ◌⊎◌, inl, inr, ap, subst,
  if◌then◌else◌,
}
use codex_storage_doctor.Json.{Fields}
use codex_storage_doctor.Errors.{Exn, verified_committed}
use codex_storage_doctor.Host.{Host}
use codex_storage_doctor.Effects.{
  Conn, Request, World, Env, Outcome, ok, raised, M, pure, raise, call, gets, ◌>>=◌, catch, attempt,
  return, set_open, set_committed, set_closed, set_token,
}
use codex_storage_doctor.Effects.Rules.{
  Calm, Calm-trans, Quiet-call, Quiet-gets, Quiet-attempt, Quiet-set_open, Quiet-set_closed,
  Quiet-set_token,
}
use codex_storage_doctor.Effects.Mutations.{
  dropped, commit_done, mutations, has_committed, mutations-Calm, Post, step, step_quiet, carry,
  handle, Raises, if_Post, if_true_Post,
}
use codex_storage_doctor.Mitigation.Quiet.{Quiet-connect_writable, Quiet-write_private_json}
use codex_storage_doctor.Mitigation.Apply.Recovery.{is_refusal, NoRefusal}
use codex_storage_doctor.Mitigation.Apply.Inside.{Fresh, Fresh-Calm, Fresh-Uncommitted}
use codex_storage_doctor.Mitigation.Apply.Contract.{at_gets, gets_ok}
use codex_storage_doctor.Mitigation.Rollback.{
  RollbackResult, already_rolled_back, rolled_back, Target,
}
use codex_storage_doctor.Mitigation.Rollback.Transaction.{
  Saved, raise_reconciliation, transaction, on_failure, close_failed, after_close, finish,
  run_transaction, settle, settle_or_reconcile, absent, rollback,
}
use codex_storage_doctor.Mitigation.Rollback.Quiet.{
  Quiet-write_if_given, Quiet-check_target, Quiet-preflight, Quiet-save, Quiet-verify_removed,
}
use codex_storage_doctor.Mitigation.Rollback.Recovery.{
  raise_reconciliation-NoRefusal, raise_reconciliation-Raises,
}
use codex_storage_doctor.Mitigation.Rollback.Inside.{
  Removed, Inside, Removed-Calm, Inside-Calm, caught-Inside,
}

-- What each outcome says of the mutating requests of the run.
abbrev pub RollbackContract : Post RollbackResult
RollbackContract (ok (already_rolled_back database name rewritten)) w = mutations w.trace ≡ []
RollbackContract (ok (rolled_back database name backup hash file manifest token)) w =
    mutations w.trace ≡ commit_done ∷ dropped ∷ []
RollbackContract (raised e) w = is_refusal e ≡ true → has_committed (mutations w.trace) ≡ false

-- What the transaction with its handlers and its `finally` clause leaves.
abbrev Ran : Post Bool
Ran (ok true) w = Removed w
Ran (ok false) w = Fresh w
Ran (raised e) w = (has_committed (mutations w.trace) ≡ false) ⊎ (is_refusal e ≡ false)

Inside-Ran : (r : Outcome Bool) (w : World) → Inside r w → Ran r w
Inside-Ran (ok true) w h = h
Inside-Ran (ok false) w h = h
Inside-Ran (raised e) w h = inl h.0

recovered : (r : Outcome Bool) (w : World) → Raises r w → NoRefusal r w → Ran r w
recovered (ok a) w h k = absurd h
recovered (raised e) w h k = inr k

refusal_free :
    (r : Outcome RollbackResult) (w : World) → Raises r w → NoRefusal r w → RollbackContract r w
refusal_free (ok a) w h k = absurd h
refusal_free (raised e) w h k = λ p. cc

module _ (host : Host) (env : Env) (m : Fields) (t : Target) (s : Saved) where
  raise_reconciliation-Ran :
      (e : Exn) (w : World)
      → let r = raise_reconciliation host m t s e verified_committed "post_commit" env w in
        Ran r.0 r.1
  raise_reconciliation-Ran e w =
      recovered _ _
        (raise_reconciliation-Raises host env m t s Bool e verified_committed "post_commit" w)
        (raise_reconciliation-NoRefusal host env m t s Bool e verified_committed "post_commit" w)

  close_failed-Ran :
      (r : Outcome Bool) (e : Exn) (w : World)
      → Inside r w
      → let x = close_failed host m t s r e env w in Ran x.0 x.1
  unfolding close_failed raise
  close_failed-Ran (raised x) e w h = inl h.0
  close_failed-Ran (ok false) e w h =
      carry Ran env Fresh (λ u v k f. Fresh-Calm k f) (Quiet-gets _) _ w h
        (λ done v h1.
          if_Post Ran env done _ _ v (raise_reconciliation-Ran e v)
            (inl (Fresh-Uncommitted v h1).0))
        (λ x v h1. inl (Fresh-Uncommitted v h1).0)
  close_failed-Ran (ok true) e w h =
      step Ran env (gets _) _ w
        (λ done q.
          if_true_Post Ran env done _ _ _ (at_gets env (λ v. v.committed) _ q h.1)
            (raise_reconciliation-Ran e _))
        (λ x q. absurd (gets_ok env _ _ q))

  after_close-Ran :
      (r : Outcome Bool) (c : Outcome (Unit {0})) (w : World)
      → Inside r w
      → let x = after_close host m t s r c env w in Ran x.0 x.1
  unfolding after_close return
  after_close-Ran r (ok _) w h = Inside-Ran r w h
  after_close-Ran r (raised e) w h = close_failed-Ran r e w h

  finish-Ran :
      (r : Outcome Bool) (w : World) → Inside r w → let x = finish host m t s r env w in Ran x.0 x.1
  unfolding finish return attempt
  finish-Ran r w h =
      step Ran env (gets _) _ w
        (λ closed q.
          let closing = call (Request.close Conn.writer) in
          let v = (gets (λ w. w.connection_closed) env w).1 in
          let k = (Quiet-gets (λ w. w.connection_closed)).at env w in
          if_Post Ran env closed _ _ _ (Inside-Ran r _ (Inside-Calm r k h)) (
            step Ran env (attempt closing) _ v
              (λ c q.
                let k1 =
                  (Quiet-attempt closing (Quiet-call (Request.close Conn.writer) refl)).at env v in
                after_close-Ran r c _ (Inside-Calm r (Calm-trans k k1) h))
              (λ x q. cc)))
        (λ x q. absurd (gets_ok env _ _ q))

  abbrev Later : Post (Outcome Bool)
  Later (ok r) w = Inside r w
  Later (raised e) w = ⊥

  caught_then_finish-Ran :
      (w : World)
      → Fresh w
      → let x =
          (attempt (catch (transaction host m t s) (on_failure host m t s)) >>= finish host m t s)
            env w in
        Ran x.0 x.1
  unfolding attempt
  caught_then_finish-Ran w h =
      step Ran env (attempt (catch (transaction host m t s) (on_failure host m t s))) _ w
        (λ r q.
          let v = (catch (transaction host m t s) (on_failure host m t s) env w).1 in
          let at = λ (o : Outcome (Outcome Bool)). Later o v in
          finish-Ran r v (subst at q (caught-Inside host env m t s w h)))
        (λ x q. cc)

  run_transaction-Ran :
      (w : World) → mutations w.trace ≡ [] → let x = run_transaction host m t s env w in Ran x.0 x.1
  unfolding run_transaction set_committed set_open set_closed set_token
  run_transaction-Ran w h =
      step_quiet Ran env (Quiet-connect_writable t.database) _ w
        (λ _ u k.
          step_quiet Ran env Quiet-set_open _ u
            (λ _ u1 k1.
              step Ran env (set_committed false) _ u1
                (λ _ _.
                  carry Ran env Fresh (λ u v k f. Fresh-Calm k f) (Quiet-set_closed false) _ _
                    (mutations-Calm (Calm-trans k k1) ∙ h, refl)
                    (λ _ u2 h2.
                      carry Ran env Fresh (λ u v k f. Fresh-Calm k f) (Quiet-set_token _) _ u2 h2
                        (λ _ u3 h3. caught_then_finish-Ran u3 h3)
                        (λ x u3 h3. inl (Fresh-Uncommitted u3 h3).0))
                    (λ x u2 h2. inl (Fresh-Uncommitted u2 h2).0))
                (λ x q. cc))
            (λ x u1 k1. inl (ap has_committed (mutations-Calm (Calm-trans k k1) ∙ h))))
        (λ x u k. inl (ap has_committed (mutations-Calm k ∙ h)))

  -- What the checks after the transaction leave.
  abbrev Settled : Post RollbackResult
  Settled (ok (already_rolled_back a b c)) w = ⊥
  Settled (ok (rolled_back a b c d e f g)) w = Removed w
  Settled (raised e) w = Removed w

  settle-Settled : (w : World) → Removed w → let x = settle host m t s env w in Settled x.0 x.1
  unfolding settle pure
  settle-Settled w h =
      let keep = λ (u v : World) (k : Calm u v) (f : Removed u). Removed-Calm k f in
      carry Settled env Removed keep (Quiet-verify_removed host m t s) _ w h
        (λ _ w1 h1.
          carry Settled env Removed keep (Quiet-call Request.utc_slug refl) _ w1 h1
            (λ now w2 h2.
              carry Settled env Removed keep (Quiet-set_token _) _ w2 h2
                (λ _ w3 h3.
                  carry Settled env Removed keep (Quiet-write_if_given host t.manifest_path _) _ w3
                    h3
                    (λ _ w4 h4.
                      carry Settled env Removed keep (Quiet-call Request.utc_slug refl) _ w4 h4
                        (λ later w5 h5.
                          carry Settled env Removed keep (Quiet-write_private_json host _ _ false) _
                            w5 h5 (λ _ w6 h6. h6) (λ e w6 h6. h6))
                        (λ e w5 h5. h5))
                    (λ e w4 h4. h4))
                (λ e w3 h3. h3))
            (λ e w2 h2. h2))
        (λ e w1 h1. h1)

  settled_ok : (a : RollbackResult) (w : World) → Settled (ok a) w → RollbackContract (ok a) w
  settled_ok (already_rolled_back a b c) w h = absurd h
  settled_ok (rolled_back a b c d e f g) w h = h.0

  settle_or_reconcile-RollbackContract :
      (w : World)
      → Removed w
      → let x = settle_or_reconcile host m t s env w in RollbackContract x.0 x.1
  unfolding settle_or_reconcile
  settle_or_reconcile-RollbackContract w h =
      let v = (settle host m t s env w).1 in
      let at = λ (r : Outcome RollbackResult). Settled r v in
      let settled = settle-Settled w h in
      handle RollbackContract env (settle host m t s) _ w
        (λ a q. settled_ok a v (subst at q settled))
        (λ e q.
          step RollbackContract env (gets _) _ v
            (λ done p.
              if_true_Post RollbackContract env done _ _ _
                (at_gets env (λ u. u.committed) _ p (subst at q settled).1)
                (refusal_free _ _
                  (raise_reconciliation-Raises host env m t s RollbackResult e verified_committed
                    "post_commit" _)
                  (raise_reconciliation-NoRefusal host env m t s RollbackResult e verified_committed
                    "post_commit" _)))
            (λ x p. absurd (gets_ok env _ _ p)))

  by_removed :
      (removed : Bool) (v : World)
      → Ran (ok removed) v
      → let x =
          (if removed then settle_or_reconcile host m t s else pure (absent host m t)) env v in
        RollbackContract x.0 x.1
  unfolding pure
  by_removed true v h = settle_or_reconcile-RollbackContract v h
  by_removed false v h = h.0

  by_error : (e : Exn) (v : World) → Ran (raised e) v → RollbackContract (raised e) v
  by_error e v (inl h) = λ _. h
  by_error e v (inr h) = λ p. cc

  -- The steps after the transaction, by whether the trigger was dropped.
  after_run-RollbackContract :
      (w : World)
      → mutations w.trace ≡ []
      → let x =
          (do
            removed ← run_transaction host m t s
            if removed then settle_or_reconcile host m t s else pure (absent host m t))
            env w in
        RollbackContract x.0 x.1
  unfolding pure
  after_run-RollbackContract w h =
      let v = (run_transaction host m t s env w).1 in
      let at = λ (r : Outcome Bool). Ran r v in
      let ran = run_transaction-Ran w h in
      step RollbackContract env (run_transaction host m t s) _ w
        (λ removed q. by_removed removed v (subst at q ran)) (λ e q. by_error e v (subst at q ran))

module _ (host : Host) (env : Env) where
  by_preflight :
      (there : Bool) (a : RollbackResult) (n : M RollbackResult) (w : World)
      → RollbackContract (ok a) w
      → (let x = n env w in RollbackContract x.0 x.1)
      → let x = (if not there then pure a else n) env w in RollbackContract x.0 x.1
  unfolding pure
  by_preflight true a n w h k = k
  by_preflight false a n w h k = h

  -- A run of `rollback` that starts with no mutating request ends, for every reply of the operating
  -- system and of SQLite, in one of three ways. If it answers that the trigger was already absent, it
  -- made no mutating request. If it answers that it rolled back, its mutating requests are one DROP
  -- TRIGGER and after it one COMMIT that returned. If it raises a plain SafetyGateError, no COMMIT
  -- returned.
  pub rollback-RollbackContract :
      (m : Fields) (confirmation : String) (path : Option String) (w : World)
      → mutations w.trace ≡ []
      → let x = rollback host m confirmation path env w in RollbackContract x.0 x.1
  unfolding rollback
  rollback-RollbackContract m confirmation path w h =
      step_quiet RollbackContract env (Quiet-check_target host m confirmation path) _ w
        (λ t u k.
          step_quiet RollbackContract env (Quiet-preflight host m t) _ u
            (λ there u1 k1.
              let h1 = mutations-Calm (Calm-trans k k1) ∙ h in
              by_preflight there (absent host m t) _ u1 h1 (
                step_quiet RollbackContract env (Quiet-save host m t) _ u1
                  (λ s u2 k2. after_run-RollbackContract host env m t s u2 (mutations-Calm k2 ∙ h1))
                  (λ x u2 k2 _. ap has_committed (mutations-Calm k2 ∙ h1))))
            (λ x u1 k1 _. ap has_committed (mutations-Calm (Calm-trans k k1) ∙ h)))
        (λ x u k _. ap has_committed (mutations-Calm k ∙ h))
