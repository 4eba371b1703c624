-- ===== src/Mitigation/Rollback/Order.antt =====
-- The order of the backup, the transaction and the DROP TRIGGER in a run of `rollback`.
use codex_storage_doctor.Prelude.{String, subst, Bool, true, false, not, Option, if◌then◌else◌}
use codex_storage_doctor.Json.{Fields}
use codex_storage_doctor.Host.{Host}
use codex_storage_doctor.Effects.{
  Conn, Request, Outcome, World, Env, M, pure, call, ◌>>=◌, ◌>>◌, catch, attempt, set_open,
  set_committed,
}
use codex_storage_doctor.Effects.Rules.{Quiet-set_open, Quiet-set_closed, Quiet-set_token}
use codex_storage_doctor.Effects.Mutations.{step, carry, handle}
use codex_storage_doctor.Mitigation.Order.{Ordered, Ordered-Calm, or_first}
use codex_storage_doctor.Mitigation.Quiet.{
  mitigation_rules, Quiet-check_integrity, Quiet-connect_writable,
}
use codex_storage_doctor.Mitigation.Backup.{backup_database}
use codex_storage_doctor.Mitigation.Apply.Copied.{Copied, then_quiet, backup_database-Copied}
use codex_storage_doctor.Mitigation.Apply.Order.{
  InOrder, Backed, Ready, keep-Ordered, keep-Backed, keep-Ready, begin_ok,
}
use codex_storage_doctor.Mitigation.Rollback.{RollbackResult, Target}
use codex_storage_doctor.Mitigation.Rollback.Transaction.{
  Saved, save, commit_drop, remove, leave_absent, transaction, on_failure, run_transaction,
  settle_or_reconcile, absent, rollback,
}
use codex_storage_doctor.Mitigation.Rollback.Quiet.{
  Quiet-check_target, Quiet-preflight, Quiet-save, Quiet-recheck, Quiet-on_commit_error,
  Quiet-on_failure, Quiet-leave_absent, Quiet-finish, Quiet-settle_or_reconcile,
}

module _ (host : Host) (env : Env) (m : Fields) (t : Target) where
  save-Copied : (w : World) → let x = save host m t env w in Copied x.0 x.1
  unfolding save
  save-Copied w =
      step Copied env _ _ w
        (λ before _.
          then_quiet env (backup_database t.database t.backup_path) _ _
            (backup_database-Copied env t.database t.backup_path _)
            (λ a. search mitigation_rules depth 40))
        (λ e _. tt)

  module _ (s : Saved) where
    commit_drop-InOrder :
        (w : World) → Ordered w.trace → Ordered (commit_drop host m t s env w).1.trace
    unfolding commit_drop call
    commit_drop-InOrder w h =
        handle InOrder env (call Request.commit) _ w (λ a q. (tt, h))
          (λ e q. Ordered-Calm ((Quiet-on_commit_error host m t s e).at env _) (tt, h))

    after_commit-InOrder :
        (w : World)
        → Ordered w.trace
        → Ordered ((do set_open false; set_committed true; pure true) env w).1.trace
    unfolding set_committed pure
    after_commit-InOrder w h =
        carry InOrder env (λ v. Ordered v.trace) keep-Ordered Quiet-set_open _ w h
          (λ _ u o. step InOrder env (set_committed true) _ u (λ _ _. o) (λ e _. o)) (λ e u o. o)

    remove-InOrder : (w : World) → Ready w → Ordered (remove host m t s env w).1.trace
    unfolding remove call
    remove-InOrder w h =
        carry InOrder env Ready keep-Ready (Quiet-check_integrity Conn.writer "source") _ w h
          (λ _ u (o, c, b).
            step InOrder env (call (Request.drop_trigger t.name)) _ u
              (λ _ _.
                step InOrder env (commit_drop host m t s) _ _
                  (λ _ _. after_commit-InOrder _ (commit_drop-InOrder _ ((c, b), o)))
                  (λ e _. commit_drop-InOrder _ ((c, b), o)))
              (λ e _. ((c, b), o)))
          (λ e u r. r.0)

    branch-InOrder :
        (there : Bool) (w : World)
        → Ready w
        → Ordered ((if there then remove host m t s else leave_absent host m t s) env w).1.trace
    branch-InOrder true w h = remove-InOrder w h
    branch-InOrder false w h = Ordered-Calm ((Quiet-leave_absent host m t s).at env w) h.0

    transaction-InOrder : (w : World) → Backed w → Ordered (transaction host m t s env w).1.trace
    unfolding transaction call set_open
    transaction-InOrder w (o, c) =
        step InOrder env (call Request.begin_exclusive) _ w
          (λ _ q.
            step InOrder env (set_open true) _ _
              (λ _ _.
                carry InOrder env Ready keep-Ready (Quiet-recheck host m t s) _ _
                  ((tt, o), c, or_first _ _ (begin_ok _ _ q))
                  (λ there v r. branch-InOrder there v r) (λ e v r. r.0))
              (λ e _. (tt, o)))
          (λ e _. (tt, o))

    caught-InOrder :
        (w : World)
        → Backed w
        → Ordered (catch (transaction host m t s) (on_failure host m t s) env w).1.trace
    caught-InOrder w h =
        handle InOrder env (transaction host m t s) _ w (λ a _. transaction-InOrder w h)
          (λ e _. Ordered-Calm ((Quiet-on_failure host m t s e).at env _) (transaction-InOrder w h))

    run_transaction-InOrder :
        (w : World) → Backed w → Ordered (run_transaction host m t s env w).1.trace
    unfolding run_transaction set_committed attempt
    run_transaction-InOrder w h =
        carry InOrder env Backed keep-Backed (Quiet-connect_writable t.database) _ w h
          (λ _ u h1.
            carry InOrder env Backed keep-Backed Quiet-set_open _ u h1
              (λ _ u1 h2.
                step InOrder env (set_committed false) _ u1
                  (λ _ _.
                    carry InOrder env Backed keep-Backed (Quiet-set_closed false) _ _ h2
                      (λ _ u2 h3.
                        carry InOrder env Backed keep-Backed (Quiet-set_token _) _ u2 h3
                          (λ _ u3 h4.
                            step InOrder env
                              (attempt (catch (transaction host m t s) (on_failure host m t s))) _
                              u3
                              (λ r _.
                                Ordered-Calm ((Quiet-finish host m t s r).at env _)
                                  (caught-InOrder u3 h4))
                              (λ e _. caught-InOrder u3 h4))
                          (λ e u3 h4. h4.0))
                      (λ e u2 h3. h3.0))
                  (λ e _. h2.0))
              (λ e u1 h2. h2.0))
          (λ e u h1. h1.0)

    settled-InOrder :
        (dropped : Bool) (w : World)
        → Ordered w.trace
        → Ordered
            ((if dropped then settle_or_reconcile host m t s else pure (absent host m t)) env
              w).1.trace
    unfolding pure
    settled-InOrder true w h = Ordered-Calm ((Quiet-settle_or_reconcile host m t s).at env w) h
    settled-InOrder false w h = h

    after_save-InOrder :
        (w : World)
        → Backed w
        → Ordered
            ((do
              dropped ← run_transaction host m t s
              if dropped then settle_or_reconcile host m t s else pure (absent host m t))
              env w).1.trace
    after_save-InOrder w h =
        step InOrder env (run_transaction host m t s) _ w
          (λ dropped _. settled-InOrder dropped _ (run_transaction-InOrder w h))
          (λ e _. run_transaction-InOrder w h)

module _ (host : Host) (env : Env) where
  by_preflight :
      (there : Bool) (a : RollbackResult) (n : M RollbackResult) (w : World)
      → Ordered w.trace
      → Ordered (n env w).1.trace
      → Ordered ((if not there then pure a else n) env w).1.trace
  unfolding pure
  by_preflight true a n w h k = k
  by_preflight false a n w h k = h

  saved :
      (m : Fields) (t : Target) (w : World)
      → Ordered w.trace
      → Ordered
          ((do
            s ← save host m t
            dropped ← run_transaction host m t s
            if dropped then settle_or_reconcile host m t s else pure (absent host m t))
            env w).1.trace
  saved m t w o =
      let v = (save host m t env w).1 in
      let at = λ (r : Outcome Saved). Copied r v in
      let o1 = Ordered-Calm ((Quiet-save host m t).at env w) o in
      step InOrder env (save host m t) _ w
        (λ s q. after_save-InOrder host env m t s v (o1, subst at q (save-Copied host env m t w)))
        (λ e _. o1)

  -- In the trace of a run of `rollback`, each DROP TRIGGER comes after a quick_check of the backup's
  -- copy that SQLite answered with ok, and after a BEGIN EXCLUSIVE that returned. This holds for every
  -- reply of the operating system and of SQLite and for every outcome, where it holds of the trace
  -- before the run.
  pub rollback-Ordered :
      (m : Fields) (confirmation : String) (path : Option String) (w : World)
      → Ordered w.trace
      → Ordered (rollback host m confirmation path env w).1.trace
  unfolding rollback
  rollback-Ordered m confirmation path w h =
      carry InOrder env (λ v. Ordered v.trace) keep-Ordered
        (Quiet-check_target host m confirmation path) _ w h
        (λ t u o.
          carry InOrder env (λ v. Ordered v.trace) keep-Ordered (Quiet-preflight host m t) _ u o
            (λ there u1 o1. by_preflight there (absent host m t) _ u1 o1 (saved m t u1 o1))
            (λ e u1 o1. o1))
        (λ e u o. o)
