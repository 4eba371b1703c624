-- ===== src/Processes/Linux/Fds/Asked.antt =====
-- An answer of lsof as a scan on Linux rests on it.
use codex_storage_doctor.Prelude.{
  ℕ, String, ◌≡◌, refl, sym, ap, subst, ◌⊎◌, inl, inr, Bool, true, false, not, ◌&&◌, ◌||◌, Option,
  none, some, List, [], ◌∷◌, eqb, arith, is_nil,
}
use codex_storage_doctor.Text.{strip, is_blank}
use codex_storage_doctor.Json.{ℤ, pos, negsuc, eq_ℤ}
use codex_storage_doctor.Errors.{Exn, is_os, is_timeout}
use codex_storage_doctor.Mitigation.Gate.Verdict.{true_false}
use codex_storage_doctor.Effects.{
  Completed, Request, Outcome, ok, raised, Trace, Event, World, Env, M, pure, raise, call, ◌>>=◌,
}
use codex_storage_doctor.Effects.Rules.{Calm, here, more, manifest, open_flag, closed_flag, token}
use codex_storage_doctor.Effects.Mutations.{Post, step, handle, if_Post}
use codex_storage_doctor.Models.Scan.{ProcessScan}
use codex_storage_doctor.Processes.{run, is_suspect, is_silent}
use codex_storage_doctor.Processes.Lsof.{Holder}
use codex_storage_doctor.Processes.Lsof.Fill.{AllFilled}

-- The command was run, and gave this result.
pub data Asked (command : List String) (c : Completed) : Trace → Type 0 where
  now : {t : Trace} → Asked command c ((Request.run_command command, ok c) ∷ t)
  before : {t : Trace} → (e : Event) → Asked command c t → Asked command c (e ∷ t)

module _ (command : List String) where
  pub Asked-Calm :
      {c : Completed} {u v : World} → Calm u v → Asked command c u.trace → Asked command c v.trace
  Asked-Calm here a = a
  Asked-Calm (more k r o h) a = before (r, o) (Asked-Calm k a)
  Asked-Calm (manifest k m) a = Asked-Calm k a
  Asked-Calm (open_flag k) a = Asked-Calm k a
  Asked-Calm (closed_flag k b) a = Asked-Calm k a
  Asked-Calm (token k s) a = Asked-Calm k a

  unfoldable pub Ran : Post (Option Completed)
  Ran (ok (some c)) w = Asked command c w.trace
  Ran (ok none) w = Unit
  Ran (raised e) w = Unit

  answered :
      (env : Env) (w : World) (o : Outcome Completed) (c : Completed)
      → o ≡ ok c
      → Asked command c ((Request.run_command command, o) ∷ w.trace)
  answered env w o c e =
      subst (λ o. Asked command c ((Request.run_command command, o) ∷ w.trace)) (sym e) now

  asking : M (Option Completed)
  asking = do c ← call (Request.run_command command); pure (some c)

  asking-Ran : (env : Env) (w : World) → Ran (asking env w).0 (asking env w).1
  unfolding asking call pure Ran
  asking-Ran env w =
      step Ran env (call (Request.run_command command)) (λ c. pure (some c)) w
        (λ c e. answered env w (env w.trace (Request.run_command command)) c e) (λ e _. tt)

  none_ran : (env : Env) (v : World) → let s = pure {A = Option Completed} none env v in Ran s.0 s.1
  unfolding pure Ran
  none_ran env v = tt

  raised_ran :
      (e : Exn) (env : Env) (v : World)
      → let s = raise {A = Option Completed} e env v in Ran s.0 s.1
  unfolding raise Ran
  raised_ran e env v = tt

  pub run-Ran : (env : Env) (w : World) → Ran (run command env w).0 (run command env w).1
  unfolding run asking
  run-Ran env w =
      handle Ran env asking _ w (λ o e. subst (λ r. Ran r (asking env w).1) e (asking-Ran env w))
        (λ e _.
          if_Post Ran env (is_os e || is_timeout e) (pure none) (raise e) (asking env w).1
            (none_ran env _) (raised_ran e env _))

-- lsof was asked about the paths, and its answer is credible: no complaint, an exit code that agrees
-- with its output, and nothing malformed. The holders that it names have a database open.
pub record Credible (command : List String) (holders : List Holder) (t : Trace) : Type 0 where
  pub answer : Completed
  pub asked : Asked command answer t
  pub trusted : is_suspect answer ≡ false
  pub spoken : is_silent answer ≡ false
  pub filled : AllFilled holders
  pub named : (is_nil holders ≡ false) ⊎ (is_blank (strip answer.stdout) ≡ true)

-- The answer of lsof that a scan rests on. If lsof printed anything, the scan has a process.
pub record Backed (command : List String) (s : ProcessScan) (t : Trace) : Type 0 where
  pub answer : Completed
  pub asked : Asked command answer t
  pub trusted : is_suspect answer ≡ false
  pub spoken : is_silent answer ≡ false
  pub observed : (is_nil s.observations ≡ false) ⊎ (is_blank (strip answer.stdout) ≡ true)

pub not-true : (b : Bool) → not b ≡ true → b ≡ false
not-true false h = refl
not-true true h = cc

pub blank_output :
    (s : ProcessScan) {b : Bool}
    → s.observations ≡ []
    → (is_nil s.observations ≡ false) ⊎ (b ≡ true)
    → b ≡ true
blank_output s e (inr h) = h
blank_output s e (inl h) = true_false h (subst (λ os. is_nil os ≡ true) (sym e) refl)

eq_pos : (n : ℤ) (k : ℕ) → eq_ℤ n (pos k) ≡ true → n ≡ pos k
unfolding eq_ℤ
eq_pos (pos n) k h = ap (λ m. pos m) (equal n k h)
  where
    equal : (n k : ℕ) → eqb n k ≡ true → n ≡ k
    equal n k h = ground arith
eq_pos (negsuc n) k h = cc

-- A trusted answer with blank output is exit code 1.
pub nobody :
    (c : Completed)
    → is_suspect c ≡ false
    → is_silent c ≡ false
    → is_blank (strip c.stdout) ≡ true
    → (c.returncode ≡ pos 1)
      × (is_blank (strip c.stdout) ≡ true)
      × (is_blank (strip c.stderr) ≡ true)
unfolding is_suspect is_silent
nobody c suspect silent blank =
    let (one, quiet) = codes _ _ _ _ suspect silent blank in
    (eq_pos c.returncode 1 one, blank, quiet)
  where
    codes :
        (zeroth first stdout stderr : Bool)
        → not (zeroth || first) || not stderr || (first && not stdout) ≡ false
        → zeroth && stdout ≡ false
        → stdout ≡ true
        → (first ≡ true) × (stderr ≡ true)
    codes zeroth true stdout true h k b = (refl, refl)
    codes true first true stderr h k b = cc
    codes zeroth first false stderr h k b = cc
    codes false false true stderr h k b = cc
    codes false true true false h k b = cc
