-- ===== src/Mitigation/Apply/Inside.antt =====
-- What the `try` block of `apply_plan` leaves of the database's changes and of the `committed` flag.
use codex_storage_doctor.Prelude.{
  ◌≡◌, refl, ◌∙◌, Bool, true, false, [], ◌∷◌, ◌⊎◌, inl, inr, ap, subst, if◌then◌else◌,
}
use codex_storage_doctor.Json.{Fields}
use codex_storage_doctor.Host.{Host}
use codex_storage_doctor.Effects.{
  Conn, Request, World, Env, Outcome, ok, raised, pure, call, ◌>>◌, set_open, set_committed,
}
use codex_storage_doctor.Effects.Rules.{
  Calm, Calm-trans, Quiet-call, Quiet-update_manifest, Quiet-gets, Quiet-set_open,
}
use codex_storage_doctor.Effects.Mutations.{
  created, commit_done, commit_failed, mutations, has_committed, mutations-Calm, committed-Calm,
  open-Calm, Post, step, step_quiet, handle, mutations-commit, mutations-commit_raised,
  mutations-create, committed-call, Raises-Post,
}
use codex_storage_doctor.Mitigation.Quiet.{Quiet-write_private_json, Quiet-check_integrity}
use codex_storage_doctor.Mitigation.Apply.{ApplyResult, already_applied, applied, Target, Prepared}
use codex_storage_doctor.Mitigation.Apply.Transaction.{
  commit_trigger, finalize, install, leave_installed, transaction,
}
use codex_storage_doctor.Mitigation.Apply.Quiet.{
  Quiet-recheck, Quiet-verify_installed, Quiet-on_commit_error,
}
use codex_storage_doctor.Mitigation.Apply.Recovery.{on_commit_error-Raises}

-- No mutating request so far.
abbrev pub Fresh : World → Type 0
Fresh w = (mutations w.trace ≡ []) × (w.committed ≡ false)

-- No COMMIT so far.
abbrev pub Uncommitted : World → Type 0
Uncommitted w = (has_committed (mutations w.trace) ≡ false) × (w.committed ≡ false)

-- The trigger's CREATE, then a COMMIT that returned.
abbrev pub Installed : World → Type 0
Installed w =
    (mutations w.trace ≡ commit_done ∷ created ∷ [])
    × (w.committed ≡ true)
    × (w.transaction_open ≡ false)

-- What a run of the `try` block leaves.
abbrev pub Inside : Post ApplyResult
Inside (ok (already_applied database name)) w = Fresh w
Inside (ok (applied database name manifest backup hash token)) w = Installed w
Inside (raised e) w = Uncommitted w ⊎ Installed w

pub Fresh-Calm : {u v : World} → Calm u v → Fresh u → Fresh v
Fresh-Calm k (h, c) = (mutations-Calm k ∙ h, committed-Calm k ∙ c)

pub Uncommitted-Calm : {u v : World} → Calm u v → Uncommitted u → Uncommitted v
Uncommitted-Calm k (h, c) = let p = mutations-Calm k in let q = committed-Calm k in (cc, cc)

pub Installed-Calm : {u v : World} → Calm u v → Installed u → Installed v
Installed-Calm k (h, c, o) = (mutations-Calm k ∙ h, committed-Calm k ∙ c, open-Calm k o)

pub Fresh-Uncommitted : (w : World) → Fresh w → Uncommitted w
Fresh-Uncommitted w (h, c) = (ap has_committed h, c)

module _ (host : Host) (env : Env) (plan : Fields) (t : Target) (p : Prepared) where
  finalize-Inside :
      (w : World) → Installed w → let s = finalize host plan t p env w in Inside s.0 s.1
  unfolding finalize pure
  finalize-Inside w h =
      step_quiet Inside env (Quiet-verify_installed host plan t p) _ w
        (λ found u k.
          step_quiet Inside env (Quiet-update_manifest _) _ u
            (λ _ u1 k1.
              step_quiet Inside env (Quiet-call Request.utc_slug refl) _ u1
                (λ now u2 k2.
                  step_quiet Inside env (Quiet-update_manifest _) _ u2
                    (λ _ u3 k3.
                      let k' = Calm-trans (Calm-trans k k1) (Calm-trans k2 k3) in
                      step_quiet Inside env (Quiet-gets _) _ u3
                        (λ m u4 k4.
                          step_quiet Inside env
                            (Quiet-write_private_json host p.manifest_path m true) _ u4
                            (λ _ u5 k5. Installed-Calm (Calm-trans k' (Calm-trans k4 k5)) h)
                            (λ e u5 k5. inr (Installed-Calm (Calm-trans k' (Calm-trans k4 k5)) h)))
                        (λ e u4 k4. inr (Installed-Calm (Calm-trans k' k4) h)))
                    (λ e u3 k3.
                      inr (Installed-Calm (Calm-trans (Calm-trans k k1) (Calm-trans k2 k3)) h)))
                (λ e u2 k2. inr (Installed-Calm (Calm-trans k (Calm-trans k1 k2)) h)))
            (λ e u1 k1. inr (Installed-Calm (Calm-trans k k1) h)))
        (λ e u k. inr (Installed-Calm k h))

  -- A COMMIT that raises leaves no COMMIT, one that returns leaves one.
  abbrev AfterCommit : Post (Unit {0})
  AfterCommit (ok _) w = (mutations w.trace ≡ commit_done ∷ created ∷ []) × (w.committed ≡ false)
  AfterCommit (raised e) w = Uncommitted w

  commit_trigger-AfterCommit :
      (w : World)
      → mutations w.trace ≡ created ∷ []
      → w.committed ≡ false
      → let s = commit_trigger host plan t p env w in AfterCommit s.0 s.1
  unfolding commit_trigger
  commit_trigger-AfterCommit w h c =
      handle AfterCommit env (call Request.commit) _ w
        (λ a q. (
          mutations-commit env w q ∙ ap (λ l. commit_done ∷ l) h,
          committed-call env w Request.commit ∙ c,
        ))
        (λ e q.
          let k = (Quiet-on_commit_error host plan t p e).at env _ in
          let m = mutations-commit_raised env w q ∙ ap (λ l. commit_failed ∷ l) h in
          Raises-Post AfterCommit _ _ _ (on_commit_error-Raises host env plan t p e _)
            (λ x. Uncommitted-Calm k (ap has_committed m, committed-call env w Request.commit ∙ c)))

  -- From the COMMIT to the end.
  after_create-Inside :
      (w : World)
      → mutations w.trace ≡ created ∷ []
      → w.committed ≡ false
      → let s =
          (do
            commit_trigger host plan t p
            set_open false
            set_committed true
            finalize host plan t p)
            env w in
        Inside s.0 s.1
  unfolding set_committed set_open
  after_create-Inside w h c =
      let v = (commit_trigger host plan t p env w).1 in
      let at = λ (r : Outcome (Unit {0})). AfterCommit r v in
      let after = commit_trigger-AfterCommit w h c in
      step Inside env (commit_trigger host plan t p) _ w
        (λ a q.
          step Inside env (set_open false) _ v
            (λ _ _.
              step Inside env (set_committed true) _ _
                (λ _ _. finalize-Inside _ ((subst at q after).0, refl, refl)) (λ e q. cc))
            (λ e q. cc))
        (λ e q. inl (subst at q after))

  install-Inside : (w : World) → Fresh w → let s = install host plan t p env w in Inside s.0 s.1
  unfolding install
  install-Inside w h =
      step_quiet Inside env (Quiet-check_integrity Conn.writer "source") _ w
        (λ _ u k.
          let (m, c) = Fresh-Calm k h in
          let m' = mutations-create env u t.create_sql ∙ ap (λ l. created ∷ l) m in
          let c' = committed-call env u (Request.create_trigger t.create_sql) ∙ c in
          step Inside env (call (Request.create_trigger t.create_sql)) _ u
            (λ _ _. after_create-Inside _ m' c') (λ e _. inl (ap has_committed m', c')))
        (λ e u k. inl (Fresh-Uncommitted u (Fresh-Calm k h)))

  leave_installed-Inside :
      (w : World) → Fresh w → let s = leave_installed host plan t p env w in Inside s.0 s.1
  unfolding leave_installed pure
  leave_installed-Inside w h =
      step_quiet Inside env (Quiet-call Request.rollback_transaction refl) _ w
        (λ _ u k.
          step_quiet Inside env Quiet-set_open _ u (λ _ v k1. Fresh-Calm (Calm-trans k k1) h)
            (λ e v k1. inl (Fresh-Uncommitted v (Fresh-Calm (Calm-trans k k1) h))))
        (λ e u k. inl (Fresh-Uncommitted u (Fresh-Calm k h)))

  branch-Inside :
      (b : Bool) (w : World)
      → Fresh w
      → let s = (if b then leave_installed host plan t p else install host plan t p) env w in
        Inside s.0 s.1
  branch-Inside true w h = leave_installed-Inside w h
  branch-Inside false w h = install-Inside w h

  pub transaction-Inside :
      (w : World) → Fresh w → let s = transaction host plan t p env w in Inside s.0 s.1
  unfolding transaction set_open
  transaction-Inside w h =
      step_quiet Inside env (Quiet-call Request.begin_exclusive refl) _ w
        (λ _ u k.
          step Inside env (set_open true) _ u
            (λ _ _.
              step_quiet Inside env (Quiet-recheck host plan t p) _ _
                (λ b v k1. branch-Inside b v (Fresh-Calm k1 (Fresh-Calm k h)))
                (λ e v k1. inl (Fresh-Uncommitted v (Fresh-Calm k1 (Fresh-Calm k h)))))
            (λ e q. cc))
        (λ e u k. inl (Fresh-Uncommitted u (Fresh-Calm k h)))
