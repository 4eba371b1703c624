-- ===== src/Mitigation/Rollback/Inside.antt =====
-- What the `try` block of `rollback` leaves, with its `except` clauses.
use codex_storage_doctor.Prelude.{◌≡◌, refl, ◌∙◌, Bool, true, false, [], ◌∷◌, ap, subst}
use codex_storage_doctor.Json.{Fields}
use codex_storage_doctor.Host.{Host}
use codex_storage_doctor.Effects.{
  Conn, Request, World, Env, Outcome, ok, raised, pure, call, ◌>>◌, catch, set_open, set_committed,
}
use codex_storage_doctor.Effects.Rules.{Calm, Quiet-call, Quiet-set_open}
use codex_storage_doctor.Effects.Mutations.{
  dropped, commit_done, commit_failed, mutations, has_committed, mutations-Calm, committed-Calm,
  Post, step, step_quiet, carry, handle, mutations-commit, mutations-commit_raised, mutations-drop,
  committed-call, Raises-Post, if_Post,
}
use codex_storage_doctor.Mitigation.Quiet.{Quiet-check_integrity}
use codex_storage_doctor.Mitigation.Apply.Inside.{
  Fresh, Uncommitted, Fresh-Calm, Uncommitted-Calm, Fresh-Uncommitted,
}
use codex_storage_doctor.Mitigation.Rollback.{Target}
use codex_storage_doctor.Mitigation.Rollback.Transaction.{
  Saved, commit_drop, remove, leave_absent, transaction, on_failure,
}
use codex_storage_doctor.Mitigation.Rollback.Quiet.{
  Quiet-mark_rolled_back, Quiet-recheck, Quiet-on_commit_error, Quiet-on_failure,
}
use codex_storage_doctor.Mitigation.Rollback.Recovery.{on_commit_error-Raises, on_failure-Raises}

-- The trigger's DROP, then a COMMIT that returned.
abbrev pub Removed : World → Type 0
Removed w = (mutations w.trace ≡ commit_done ∷ dropped ∷ []) × (w.committed ≡ true)

-- What the `try` block leaves: it raises nothing after its COMMIT.
abbrev pub Inside : Post Bool
Inside (ok true) w = Removed w
Inside (ok false) w = Fresh w
Inside (raised e) w = Uncommitted w

pub Removed-Calm : {u v : World} → Calm u v → Removed u → Removed v
Removed-Calm k (h, c) = (mutations-Calm k ∙ h, committed-Calm k ∙ c)

pub Inside-Calm : (r : Outcome Bool) {u v : World} → Calm u v → Inside r u → Inside r v
Inside-Calm (ok true) k h = Removed-Calm k h
Inside-Calm (ok false) k h = Fresh-Calm k h
Inside-Calm (raised e) k h = Uncommitted-Calm k h

module _ (host : Host) (env : Env) (m : Fields) (t : Target) (s : Saved) where
  abbrev AfterCommit : Post (Unit {0})
  AfterCommit (ok _) w = (mutations w.trace ≡ commit_done ∷ dropped ∷ []) × (w.committed ≡ false)
  AfterCommit (raised e) w = Uncommitted w

  commit_drop-AfterCommit :
      (w : World)
      → mutations w.trace ≡ dropped ∷ []
      → w.committed ≡ false
      → let r = commit_drop host m t s env w in AfterCommit r.0 r.1
  unfolding commit_drop
  commit_drop-AfterCommit w h c =
      handle AfterCommit env (call Request.commit) _ w
        (λ a q. (
          mutations-commit env w q ∙ ap (λ l. commit_done ∷ l) h,
          committed-call env w Request.commit ∙ c,
        ))
        (λ e q.
          let k = (Quiet-on_commit_error host m t s e).at env _ in
          let n = mutations-commit_raised env w q ∙ ap (λ l. commit_failed ∷ l) h in
          Raises-Post AfterCommit _ _ _ (on_commit_error-Raises host env m t s e _)
            (λ x. Uncommitted-Calm k (ap has_committed n, committed-call env w Request.commit ∙ c)))

  -- From the COMMIT to the end of the `try` block.
  after_drop-Inside :
      (w : World)
      → mutations w.trace ≡ dropped ∷ []
      → w.committed ≡ false
      → let r = (do commit_drop host m t s; set_open false; set_committed true; pure true) env w in
        Inside r.0 r.1
  unfolding set_committed set_open pure
  after_drop-Inside w h c =
      let v = (commit_drop host m t s env w).1 in
      let at = λ (r : Outcome (Unit {0})). AfterCommit r v in
      let after = commit_drop-AfterCommit w h c in
      step Inside env (commit_drop host m t s) _ w
        (λ a q.
          step Inside env (set_open false) _ v
            (λ _ _.
              step Inside env (set_committed true) _ _ (λ _ _. ((subst at q after).0, refl))
                (λ e q. cc))
            (λ e q. cc))
        (λ e q. subst at q after)

  remove-Inside : (w : World) → Fresh w → let r = remove host m t s env w in Inside r.0 r.1
  unfolding remove
  remove-Inside w h =
      step_quiet Inside env (Quiet-check_integrity Conn.writer "source") _ w
        (λ _ u k.
          let (n, c) = Fresh-Calm k h in
          let n' = mutations-drop env u t.name ∙ ap (λ l. dropped ∷ l) n in
          let c' = committed-call env u (Request.drop_trigger t.name) ∙ c in
          step Inside env (call (Request.drop_trigger t.name)) _ u
            (λ _ _. after_drop-Inside _ n' c') (λ e _. (ap has_committed n', c')))
        (λ e u k. Fresh-Uncommitted u (Fresh-Calm k h))

  leave_absent-Inside :
      (w : World) → Fresh w → let r = leave_absent host m t s env w in Inside r.0 r.1
  unfolding leave_absent pure
  leave_absent-Inside w h =
      carry Inside env Fresh (λ u v k f. Fresh-Calm k f)
        (Quiet-call Request.rollback_transaction refl) _ w h
        (λ _ w1 h1.
          carry Inside env Fresh (λ u v k f. Fresh-Calm k f) Quiet-set_open _ w1 h1
            (λ _ w2 h2.
              carry Inside env Fresh (λ u v k f. Fresh-Calm k f)
                (Quiet-mark_rolled_back host m t.manifest_path) _ w2 h2 (λ _ w3 h3. h3)
                (λ e w3 h3. Fresh-Uncommitted w3 h3))
            (λ e w2 h2. Fresh-Uncommitted w2 h2))
        (λ e w1 h1. Fresh-Uncommitted w1 h1)

  transaction-Inside :
      (w : World) → Fresh w → let r = transaction host m t s env w in Inside r.0 r.1
  unfolding transaction set_open
  transaction-Inside w h =
      step_quiet Inside env (Quiet-call Request.begin_exclusive refl) _ w
        (λ _ u k.
          step Inside env (set_open true) _ u
            (λ _ _.
              step_quiet Inside env (Quiet-recheck host m t s) _ _
                (λ b v k1.
                  let h1 = Fresh-Calm k1 (Fresh-Calm k h) in
                  if_Post Inside env b _ _ v (remove-Inside v h1) (leave_absent-Inside v h1))
                (λ e v k1. Fresh-Uncommitted v (Fresh-Calm k1 (Fresh-Calm k h))))
            (λ e q. cc))
        (λ e u k. Fresh-Uncommitted u (Fresh-Calm k h))

  pub caught-Inside :
      (w : World)
      → Fresh w
      → let r = catch (transaction host m t s) (on_failure host m t s) env w in Inside r.0 r.1
  caught-Inside w h =
      let v = (transaction host m t s env w).1 in
      let at = λ (r : Outcome Bool). Inside r v in
      let inside = transaction-Inside w h in
      handle Inside env (transaction host m t s) _ w (λ a q. subst at q inside)
        (λ e q.
          Raises-Post Inside _ _ _ (on_failure-Raises host env m t s e v)
            (λ x. Uncommitted-Calm ((Quiet-on_failure host m t s e).at env v) (subst at q inside)))
