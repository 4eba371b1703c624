-- ===== src/Effects/Mutations.antt =====
-- The mutating requests of a trace, CREATE TRIGGER, DROP TRIGGER and COMMIT, and how code that makes
-- none of them is stepped over in a proof.
use codex_storage_doctor.Prelude.{
  String, ◌≡◌, refl, ◌∙◌, Bool, true, false, if◌then◌else◌, List, [], ◌∷◌,
}
use codex_storage_doctor.Errors.{Exn}
use codex_storage_doctor.Effects.{
  Request, Outcome, ok, raised, World, Env, Trace, Event, M, call, ◌>>=◌, catch,
}
use codex_storage_doctor.Effects.Rules.{
  Calm, here, more, manifest, open_flag, closed_flag, token, is_harmless, Quiet,
}

pub data Mutation : Type 0 where
  created dropped commit_done commit_failed : Mutation

abbrev pub mutation_of : Event → List Mutation → List Mutation
mutation_of (Request.create_trigger s, _) l = created ∷ l
mutation_of (Request.drop_trigger s, _) l = dropped ∷ l
mutation_of (Request.commit, ok _) l = commit_done ∷ l
mutation_of (Request.commit, raised _) l = commit_failed ∷ l
mutation_of _ l = l

-- The mutating requests of a trace, newest first.
abbrev pub mutations : Trace → List Mutation
mutations [] = []
mutations (e ∷ t) = mutation_of e (mutations t)

-- Did a COMMIT return?
abbrev pub has_committed : List Mutation → Bool
has_committed [] = false
has_committed (commit_done ∷ l) = true
has_committed (_ ∷ l) = has_committed l

mutation_of_harmless :
    (r : Request) (o : Outcome (codex_storage_doctor.Effects.Reply r)) (l : List Mutation)
    → is_harmless r ≡ true
    → mutation_of (r, o) l ≡ l
mutation_of_harmless (Request.create_trigger s) o l h = cc
mutation_of_harmless (Request.drop_trigger s) o l h = cc
mutation_of_harmless Request.commit (ok _) l h = cc
mutation_of_harmless Request.commit (raised _) l h = cc
mutation_of_harmless _ o l h = refl

pub mutations-Calm : {u v : World} → Calm u v → mutations v.trace ≡ mutations u.trace
mutations-Calm here = refl
mutations-Calm (more k r o h) = mutation_of_harmless r o _ h ∙ mutations-Calm k
mutations-Calm (manifest k m) = mutations-Calm k
mutations-Calm (open_flag k) = mutations-Calm k
mutations-Calm (closed_flag k b) = mutations-Calm k
mutations-Calm (token k s) = mutations-Calm k

pub committed-Calm : {u v : World} → Calm u v → v.committed ≡ u.committed
committed-Calm here = refl
committed-Calm (more k r o h) = committed-Calm k
committed-Calm (manifest k m) = committed-Calm k
committed-Calm (open_flag k) = committed-Calm k
committed-Calm (closed_flag k b) = committed-Calm k
committed-Calm (token k s) = committed-Calm k

pub open-Calm : {u v : World} → Calm u v → u.transaction_open ≡ false → v.transaction_open ≡ false
open-Calm here h = h
open-Calm (more k r o _) h = open-Calm k h
open-Calm (manifest k m) h = open-Calm k h
open-Calm (open_flag k) h = refl
open-Calm (closed_flag k b) h = open-Calm k h
open-Calm (token k s) h = open-Calm k h

-- What a run leaves, told by its outcome.
abbrev pub Post : Type 0 → Type 1
Post A = Outcome A → World → Type 0

module _ {A B : Type 0} (Q : Post B) (env : Env) where
  continue-Post :
      (f : A → M B) (r : Outcome A) (v : World)
      → ((a : A) → r ≡ ok a → Q (f a env v).0 (f a env v).1)
      → ((e : Exn) → r ≡ raised e → Q (raised e) v)
      → let s = codex_storage_doctor.Effects.continue r f env v in Q s.0 s.1
  continue-Post f (ok a) v good bad = good a refl
  continue-Post f (raised e) v good bad = bad e refl

  -- The rule for a sequence, whatever the first part does.
  pub step :
      (m : M A) (f : A → M B) (w : World)
      → (let v = (m env w).1 in (a : A) → (m env w).0 ≡ ok a → Q (f a env v).0 (f a env v).1)
      → ((e : Exn) → (m env w).0 ≡ raised e → Q (raised e) (m env w).1)
      → let s = (m >>= f) env w in Q s.0 s.1
  unfolding ◌>>=◌
  step m f w good bad = continue-Post f (m env w).0 (m env w).1 good bad

  -- The rule where the first part is quiet.
  pub step_quiet :
      {m : M A} (q : Quiet m) (f : A → M B) (w : World)
      → ((a : A) (v : World) → Calm w v → Q (f a env v).0 (f a env v).1)
      → ((e : Exn) (v : World) → Calm w v → Q (raised e) v)
      → let s = (m >>= f) env w in Q s.0 s.1
  step_quiet {m} q f w good bad =
      step m f w (λ a _. good a (m env w).1 (q.at env w)) (λ e _. bad e (m env w).1 (q.at env w))

  -- The same with a property of the world that quiet code keeps.
  pub carry :
      (P : World → Type 0)
      → ((u v : World) → Calm u v → P u → P v)
      → {m : M A} (q : Quiet m) (f : A → M B) (w : World) → P w
      → ((a : A) (v : World) → P v → Q (f a env v).0 (f a env v).1)
      → ((e : Exn) (v : World) → P v → Q (raised e) v)
      → let s = (m >>= f) env w in Q s.0 s.1
  carry P keep q f w h good bad =
      step_quiet q f w (λ a v k. good a v (keep w v k h)) (λ e v k. bad e v (keep w v k h))

module _ {A : Type 0} (Q : Post A) (env : Env) where
  recover-Post :
      (h : Exn → M A) (r : Outcome A) (v : World)
      → ((a : A) → r ≡ ok a → Q (ok a) v)
      → ((e : Exn) → r ≡ raised e → Q (h e env v).0 (h e env v).1)
      → let s = codex_storage_doctor.Effects.recover r h env v in Q s.0 s.1
  recover-Post h (ok a) v good bad = good a refl
  recover-Post h (raised e) v good bad = bad e refl

  -- The rule for `try`.
  pub handle :
      (m : M A) (h : Exn → M A) (w : World)
      → ((a : A) → (m env w).0 ≡ ok a → Q (ok a) (m env w).1)
      → (let v = (m env w).1 in (e : Exn) → (m env w).0 ≡ raised e → Q (h e env v).0 (h e env v).1)
      → let s = catch m h env w in Q s.0 s.1
  unfolding catch
  handle m h w good bad = recover-Post h (m env w).0 (m env w).1 good bad

  -- The rule for `if`.
  pub if_Post :
      (b : Bool) (m n : M A) (w : World)
      → (let s = m env w in Q s.0 s.1)
      → (let s = n env w in Q s.0 s.1)
      → let s = (if b then m else n) env w in Q s.0 s.1
  if_Post true m n w h k = h
  if_Post false m n w h k = k

  pub if_true_Post :
      (b : Bool) (m n : M A) (w : World)
      → b ≡ true
      → (let s = m env w in Q s.0 s.1)
      → let s = (if b then m else n) env w in Q s.0 s.1
  if_true_Post true m n w p h = h
  if_true_Post false m n w p h = cc

-- The outcome is an exception.
abbrev pub Raises : {A : Type 0} → Post A
Raises (ok a) w = ⊥
Raises (raised e) w = Unit

pub Raises-Post :
    {A : Type 0} (Q : Post A) (r : Outcome A) (v w : World)
    → Raises r v
    → ((e : Exn) → Q (raised e) w)
    → Q r w
Raises-Post Q (ok a) v w h k = absurd h
Raises-Post Q (raised e) v w h k = k e

-- What the mutating requests do to the trace.
commit_of_ok :
    (o : Outcome (Unit {0})) (l : List Mutation) {a : Unit {0}}
    → o ≡ ok a
    → mutation_of (Request.commit, o) l ≡ commit_done ∷ l
commit_of_ok (ok a) l h = refl
commit_of_ok (raised e) l h = cc

commit_of_raised :
    (o : Outcome (Unit {0})) (l : List Mutation) {e : Exn}
    → o ≡ raised e
    → mutation_of (Request.commit, o) l ≡ commit_failed ∷ l
commit_of_raised (ok a) l h = cc
commit_of_raised (raised e) l h = refl

module _ (env : Env) (w : World) where
  pub mutations-commit :
      {a : Unit {0}}
      → (call Request.commit env w).0 ≡ ok a
      → mutations (call Request.commit env w).1.trace ≡ commit_done ∷ mutations w.trace
  unfolding call
  mutations-commit h = commit_of_ok _ _ h

  pub mutations-commit_raised :
      {e : Exn}
      → (call Request.commit env w).0 ≡ raised e
      → mutations (call Request.commit env w).1.trace ≡ commit_failed ∷ mutations w.trace
  unfolding call
  mutations-commit_raised h = commit_of_raised _ _ h

  pub committed-call : (r : Request) → (call r env w).1.committed ≡ w.committed
  unfolding call
  committed-call r = refl

  pub mutations-create :
      (s : String)
      → mutations (call (Request.create_trigger s) env w).1.trace ≡ created ∷ mutations w.trace
  unfolding call
  mutations-create s = refl

  pub mutations-drop :
      (s : String)
      → mutations (call (Request.drop_trigger s) env w).1.trace ≡ dropped ∷ mutations w.trace
  unfolding call
  mutations-drop s = refl
