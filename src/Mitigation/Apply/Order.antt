-- ===== src/Mitigation/Apply/Order.antt =====
-- The order of the backup, the transaction and the CREATE TRIGGER in a run of `apply_plan`.
use codex_storage_doctor.Prelude.{String, ◌≡◌, refl, subst, Bool, true, false, if◌then◌else◌}
use codex_storage_doctor.Json.{Fields}
use codex_storage_doctor.Host.{Host}
use codex_storage_doctor.Effects.{
  Conn, Request, Outcome, ok, raised, World, Env, M, pure, call, ◌>>=◌, ◌>>◌, catch, attempt,
  set_open, set_committed,
}
use codex_storage_doctor.Effects.Rules.{Calm, Quiet-set_open, Quiet-set_closed}
use codex_storage_doctor.Effects.Mutations.{Post, step, carry, handle}
use codex_storage_doctor.Mitigation.Order.{
  Ordered, copied, begun, Ordered-Calm, copied-Calm, begun-Calm, or_first, returned,
}
use codex_storage_doctor.Mitigation.Quiet.{Quiet-check_integrity, Quiet-connect_writable}
use codex_storage_doctor.Mitigation.Apply.{ApplyResult, already_applied, Target, Prepared, prepare}
use codex_storage_doctor.Mitigation.Apply.Transaction.{
  commit_trigger, finalize, install, leave_installed, transaction, on_failure, finish,
  run_transaction, apply_plan,
}
use codex_storage_doctor.Mitigation.Apply.Quiet.{
  Quiet-check_target, Quiet-preflight, Quiet-prepare, Quiet-recheck, Quiet-finalize,
  Quiet-leave_installed, Quiet-on_failure, Quiet-finish, Quiet-on_commit_error,
}
use codex_storage_doctor.Mitigation.Apply.Copied.{Copied, prepare-Copied}

-- Whatever the outcome, the trace is in order.
abbrev pub InOrder : {A : Type 0} → Post A
InOrder r w = Ordered w.trace

abbrev pub Backed : World → Type 0
Backed w = Ordered w.trace × (copied w.trace ≡ true)

abbrev pub Ready : World → Type 0
Ready w = Ordered w.trace × (copied w.trace ≡ true) × (begun w.trace ≡ true)

pub keep-Ordered : (u v : World) → Calm u v → Ordered u.trace → Ordered v.trace
keep-Ordered u v k h = Ordered-Calm k h

pub keep-Backed : (u v : World) → Calm u v → Backed u → Backed v
keep-Backed u v k (h, c) = (Ordered-Calm k h, copied-Calm k c)

pub keep-Ready : (u v : World) → Calm u v → Ready u → Ready v
keep-Ready u v k (h, c, b) = (Ordered-Calm k h, copied-Calm k c, begun-Calm k b)

pub begin_ok : (o : Outcome (Unit {0})) (a : Unit {0}) → o ≡ ok a → returned o ≡ true
begin_ok (ok _) a q = refl
begin_ok (raised e) a q = cc

module _ (host : Host) (env : Env) (plan : Fields) (t : Target) (p : Prepared) where
  commit_trigger-InOrder :
      (w : World)
      → Ordered w.trace
      → let s = commit_trigger host plan t p env w in Ordered s.1.trace
  unfolding commit_trigger call
  commit_trigger-InOrder w h =
      handle InOrder env (call Request.commit) _ w (λ a q. (tt, h))
        (λ e q. Ordered-Calm ((Quiet-on_commit_error host plan t p e).at env _) (tt, h))

  after_commit-InOrder :
      (w : World)
      → Ordered w.trace
      → let s = (do set_open false; set_committed true; finalize host plan t p) env w in
        Ordered s.1.trace
  unfolding set_committed
  after_commit-InOrder w h =
      carry InOrder env (λ v. Ordered v.trace) keep-Ordered Quiet-set_open _ w h
        (λ _ u o.
          step InOrder env (set_committed true) _ u
            (λ _ _. Ordered-Calm ((Quiet-finalize host plan t p).at env _) o) (λ e _. o))
        (λ e u o. o)

  install-InOrder : (w : World) → Ready w → let s = install host plan t p env w in Ordered s.1.trace
  unfolding install call set_committed
  install-InOrder w h =
      carry InOrder env Ready keep-Ready (Quiet-check_integrity Conn.writer "source") _ w h
        (λ _ u (o, c, b).
          step InOrder env (call (Request.create_trigger t.create_sql)) _ u
            (λ _ _.
              step InOrder env (commit_trigger host plan t p) _ _
                (λ _ _. after_commit-InOrder _ (commit_trigger-InOrder _ ((c, b), o)))
                (λ e _. commit_trigger-InOrder _ ((c, b), o)))
            (λ e _. ((c, b), o)))
        (λ e u r. r.0)

  branch-InOrder :
      (there : Bool) (w : World)
      → Ready w
      → let s = (if there then leave_installed host plan t p else install host plan t p) env w in
        Ordered s.1.trace
  branch-InOrder true w h = Ordered-Calm ((Quiet-leave_installed host plan t p).at env w) h.0
  branch-InOrder false w h = install-InOrder w h

  -- The transaction, from a sound copy on.
  transaction-InOrder :
      (w : World) → Backed w → let s = transaction host plan t p env w in Ordered s.1.trace
  unfolding transaction call set_open
  transaction-InOrder w (o, c) =
      step InOrder env (call Request.begin_exclusive) _ w
        (λ _ q.
          step InOrder env (set_open true) _ _
            (λ _ _.
              carry InOrder env Ready keep-Ready (Quiet-recheck host plan t p) _ _
                ((tt, o), c, or_first _ _ (begin_ok _ _ q)) (λ there v r. branch-InOrder there v r)
                (λ e v r. r.0))
            (λ e _. (tt, o)))
        (λ e _. (tt, o))

  caught-InOrder :
      (w : World)
      → Backed w
      → let s = catch (transaction host plan t p) (on_failure host plan t p) env w in
        Ordered s.1.trace
  caught-InOrder w h =
      handle InOrder env (transaction host plan t p) _ w (λ a _. transaction-InOrder w h)
        (λ e _.
          Ordered-Calm ((Quiet-on_failure host plan t p e).at env _) (transaction-InOrder w h))

  finish-InOrder :
      (r : Outcome ApplyResult) (w : World)
      → Ordered w.trace
      → let s = finish host plan t p r env w in Ordered s.1.trace
  finish-InOrder r w h = Ordered-Calm ((Quiet-finish host plan t p r).at env w) h

  run_transaction-InOrder :
      (w : World) → Backed w → let s = run_transaction host plan t p env w in Ordered s.1.trace
  unfolding run_transaction set_committed attempt
  run_transaction-InOrder w h =
      carry InOrder env Backed keep-Backed (Quiet-connect_writable t.database) _ w h
        (λ _ u h1.
          carry InOrder env Backed keep-Backed Quiet-set_open _ u h1
            (λ _ u1 h2.
              step InOrder env (set_committed false) _ u1
                (λ _ _.
                  carry InOrder env Backed keep-Backed (Quiet-set_closed false) _ _ h2
                    (λ _ u2 h3.
                      step InOrder env
                        (attempt (catch (transaction host plan t p) (on_failure host plan t p))) _
                        u2 (λ r _. finish-InOrder r _ (caught-InOrder u2 h3))
                        (λ e _. caught-InOrder u2 h3))
                    (λ e u2 h3. h3.0))
                (λ e _. h2.0))
            (λ e u1 h2. h2.0))
        (λ e u h1. h1.0)

module _ (host : Host) (env : Env) where
  already-InOrder :
      (there : Bool) (a : ApplyResult) (m : M ApplyResult) (w : World)
      → Ordered w.trace
      → (let s = m env w in Ordered s.1.trace)
      → let s = (if there then pure a else m) env w in Ordered s.1.trace
  unfolding pure
  already-InOrder true a m w h k = h
  already-InOrder false a m w h k = k

  prepared :
      (t : Target) (plan : Fields) (w : World)
      → Ordered w.trace
      → Ordered ((prepare host plan t >>= λ p. run_transaction host plan t p) env w).1.trace
  prepared t plan w o =
      let v = (prepare host plan t env w).1 in
      let at = λ (r : Outcome Prepared). Copied r v in
      let o1 = Ordered-Calm ((Quiet-prepare host plan t).at env w) o in
      step InOrder env (prepare host plan t) _ w
        (λ p q.
          run_transaction-InOrder host env plan t p v
            (o1, subst at q (prepare-Copied env host plan t w)))
        (λ e _. o1)

  -- In the trace of a run of `apply_plan`, each CREATE TRIGGER comes after a quick_check of the
  -- backup's copy that SQLite answered with ok, and after a BEGIN EXCLUSIVE that returned. This holds
  -- for every reply of the operating system and of SQLite and for every outcome, where it holds of the
  -- trace before the run.
  pub apply_plan-Ordered :
      (plan : Fields) (confirmation : String) (w : World)
      → Ordered w.trace
      → Ordered (apply_plan host plan confirmation env w).1.trace
  unfolding apply_plan
  apply_plan-Ordered plan confirmation w h =
      carry InOrder env (λ v. Ordered v.trace) keep-Ordered
        (Quiet-check_target host plan confirmation) _ w h
        (λ t u o.
          carry InOrder env (λ v. Ordered v.trace) keep-Ordered (Quiet-preflight host t) _ u o
            (λ there u1 o1.
              already-InOrder there (already_applied t.database t.name) _ u1 o1
                (prepared t plan u1 o1))
            (λ e u1 o1. o1))
        (λ e u o. o)
