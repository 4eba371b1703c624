-- ===== src/Mitigation/Apply/Copied.antt =====
-- The backup stage of `apply_plan` and SQLite's check of the backup's copy.
use codex_storage_doctor.Prelude.{String, ◌<>◌, ◌≡◌, refl, subst, Bool, true, false}
use codex_storage_doctor.Json.{Fields}
use codex_storage_doctor.Errors.{Exn}
use codex_storage_doctor.Host.{Host}
use codex_storage_doctor.Effects.{
  Conn, Request, Outcome, ok, raised, World, Env, M, pure, raise, call, ◌>>=◌, ◌>>◌, refuse_if,
}
use codex_storage_doctor.Effects.Rules.{Calm, Quiet, quiet_rules, Quiet-close}
use codex_storage_doctor.Effects.Mutations.{Post, step, handle}
use codex_storage_doctor.Reports.{on_error, ignore_os}
use codex_storage_doctor.Planning.Surroundings.{with_reader}
use codex_storage_doctor.Mitigation.Order.{copied, copied-Calm, or_first, sound_ok}
use codex_storage_doctor.Mitigation.Quiet.{mitigation_rules, Quiet-publish_backup}
use codex_storage_doctor.Mitigation.Backup.{check_integrity, copy_database, backup_database}
use codex_storage_doctor.Mitigation.Apply.{Target, prepare}

abbrev pub Checked : World → Type 0
Checked w = copied w.trace ≡ true

-- An outcome that is no exception comes after a sound copy.
abbrev pub Copied : {A : Type 0} → Post A
Copied (ok a) w = Checked w
Copied (raised e) w = Unit

keep : (u v : World) → Calm u v → Checked u → Checked v
keep u v k h = copied-Calm k h

module _ (env : Env) where
  any : {A : Type 0} (r : Outcome A) (w : World) → Checked w → Copied r w
  any (ok a) w h = h
  any (raised e) w h = tt

  -- Quiet code may follow.
  pub then_quiet :
      {A B : Type 0} (m : M A) (f : A → M B) (w : World)
      → (let s = m env w in Copied s.0 s.1)
      → ((a : A) → Quiet (f a))
      → let s = (m >>= f) env w in Copied s.0 s.1
  then_quiet {A} m f w h q =
      let v = (m env w).1 in
      let at = λ (r : Outcome A). Copied r v in
      step Copied env m f w (λ a p. any _ _ (keep v _ ((q a).at env v) (subst at p h))) (λ e p. tt)

  refuse-Copied :
      (b : Bool) (e : Exn) (w : World)
      → (b ≡ false → Checked w)
      → let s = refuse_if b e env w in Copied s.0 s.1
  unfolding refuse_if raise pure
  refuse-Copied true e w h = tt
  refuse-Copied false e w h = h refl

  check_integrity-Copied :
      (label : String) (w : World) → let s = check_integrity Conn.copy label env w in Copied s.0 s.1
  unfolding check_integrity call
  check_integrity-Copied label w =
      step Copied env (call (Request.quick_check Conn.copy)) _ w
        (λ row q. refuse-Copied _ _ _ (λ h. or_first _ _ (sound_ok _ row q h))) (λ e q. tt)

  -- A handler that raises again changes nothing of this.
  on_error-Copied :
      (m : M (Unit {0})) (cleanup : M (Unit {0})) (w : World)
      → (let s = m env w in Copied s.0 s.1)
      → let s = on_error m cleanup env w in Copied s.0 s.1
  unfolding on_error raise
  on_error-Copied m cleanup w h =
      let at = λ (r : Outcome (Unit {0})). Copied r (m env w).1 in
      handle Copied env m _ w (λ a q. subst at q h)
        (λ e q. step Copied env cleanup _ _ (λ _ _. tt) (λ _ _. tt))

  copy_database-Copied :
      (database temporary : String) (w : World)
      → let s = copy_database database temporary env w in Copied s.0 s.1
  unfolding copy_database
  copy_database-Copied database temporary w =
      step Copied env (call (Request.connect Conn.copy temporary)) _ w
        (λ _ _.
          let v = (call (Request.connect Conn.copy temporary) env w).1 in
          let copying = do
            with_reader database (call (Request.backup Conn.reader Conn.copy))
            check_integrity Conn.copy "backup"
          in let inner =
              step Copied env (with_reader database (call (Request.backup Conn.reader Conn.copy)))
                (λ _. check_integrity Conn.copy "backup") v
                (λ _ _. check_integrity-Copied "backup" _) (λ e _. tt) in
            let cleanup =
              call (Request.close Conn.copy) >> ignore_os (call (Request.unlink temporary)) in
            let h = on_error-Copied copying cleanup v inner in
            then_quiet (on_error copying cleanup) _ v h (λ _. Quiet-close Conn.copy))
        (λ e q. tt)

  pub backup_database-Copied :
      (database destination : String) (w : World)
      → let s = backup_database database destination env w in Copied s.0 s.1
  unfolding backup_database
  backup_database-Copied database destination w =
      step Copied env (call (Request.exists destination)) _ w
        (λ taken _.
          step Copied env _ _ _
            (λ left _.
              step Copied env _ _ _
                (λ _ _.
                  then_quiet (copy_database database (destination <> ".tmp")) _ _
                    (copy_database-Copied database (destination <> ".tmp") _)
                    (λ _. search (quiet_rules, Quiet-publish_backup) depth 20))
                (λ e _. tt))
            (λ e _. tt))
        (λ e _. tt)

  module _ (host : Host) (plan : Fields) (t : Target) where
    -- Where `prepare` returns, the copy is sound.
    pub prepare-Copied : (w : World) → let s = prepare host plan t env w in Copied s.0 s.1
    unfolding prepare
    prepare-Copied w =
        step Copied env _ _ w
          (λ _ _.
            step Copied env _ _ _
              (λ _ _.
                step Copied env _ _ _
                  (λ _ _.
                    step Copied env _ _ _
                      (λ slug _.
                        step Copied env _ _ _
                          (λ _ _.
                            step Copied env _ _ _
                              (λ _ _.
                                step Copied env _ _ _
                                  (λ before _.
                                    then_quiet (backup_database t.database _) _ _
                                      (backup_database-Copied t.database _ _)
                                      (λ a. search mitigation_rules depth 40))
                                  (λ e _. tt))
                              (λ e _. tt))
                          (λ e _. tt))
                      (λ e _. tt))
                  (λ e _. tt))
              (λ e _. tt))
          (λ e _. tt)
