-- ===== src/Effects/Yields.antt =====
-- What holds of every value that code returns, whatever the surroundings answer, with a rule for each
-- way to build code.
use codex_storage_doctor.Prelude.{
  ◌≡◌, refl, subst, Bool, true, false, Option, none, some, if◌then◌else◌,
}
use codex_storage_doctor.Errors.{Exn}
use codex_storage_doctor.Effects.{
  Outcome, ok, raised, World, Env, M, pure, raise, ◌>>=◌, catch, attempt, return,
}

pub record Yields {A : Type 0} (P : A → Type 0) (m : M A) : Type 0 where
  pub at : (env : Env) (w : World) (a : A) → (m env w).0 ≡ ok a → P a

-- The property holds of the value, where there is one.
abbrev pub Holds : {A : Type 0} → (A → Type 0) → Outcome A → Type 0
Holds P (ok a) = P a
Holds P (raised e) = Unit

module _ {A : Type 0} (P : A → Type 0) where
  from_Holds : {m : M A} → ((env : Env) (w : World) → Holds P (m env w).0) → Yields P m
  from_Holds h = record { at = λ env w a e. subst (Holds P) e (h env w) }

  pub holds : {m : M A} → Yields P m → (env : Env) (w : World) → Holds P (m env w).0
  holds {m} y env w = go (m env w).0 refl
    where
      go : (o : Outcome A) → (m env w).0 ≡ o → Holds P o
      go (ok a) e = y.at env w a e
      go (raised x) e = tt

  pub Yields-pure : (a : A) → P a → Yields P (pure a)
  unfolding pure
  Yields-pure a h = from_Holds (λ env w. h)

  pub Yields-raise : (e : Exn) → Yields P (raise e)
  unfolding raise
  Yields-raise e = from_Holds (λ env w. tt)

  pub Yields-if : (b : Bool) (m n : M A) → Yields P m → Yields P n → Yields P (if b then m else n)
  Yields-if true m n p q = p
  Yields-if false m n p q = q

  -- The same, where the branches know the test's value.
  pub Yields-if_known :
      (b : Bool) (m n : M A)
      → (b ≡ true → Yields P m)
      → (b ≡ false → Yields P n)
      → Yields P (if b then m else n)
  Yields-if_known true m n p q = p refl
  Yields-if_known false m n p q = q refl

  pub Yields-weaken : (Q : A → Type 0) (m : M A) → ((a : A) → P a → Q a) → Yields P m → Yields Q m
  Yields-weaken Q m f p = record { at = λ env w a e. f a (p.at env w a e) }

  pub Yields-option :
      {B : Type 0} (o : Option B) (m : M A) (f : B → M A)
      → Yields P m
      → ((b : B) → Yields P (f b))
      → Yields P (elim o [ none ↦ m | some b ↦ f b ])
  Yields-option none m f p q = p
  Yields-option (some b) m f p q = q b

  recover-Holds :
      (h : Exn → M A) (o : Outcome A) (env : Env) (w : World)
      → Holds P o
      → ((e : Exn) → Yields P (h e))
      → Holds P (codex_storage_doctor.Effects.recover o h env w).0
  recover-Holds h (ok a) env w p q = p
  recover-Holds h (raised e) env w p q = holds (q e) env w

  pub Yields-catch :
      (m : M A) (h : Exn → M A) → Yields P m → ((e : Exn) → Yields P (h e)) → Yields P (catch m h)
  unfolding catch
  Yields-catch m h p q =
      from_Holds (λ env w. recover-Holds h (m env w).0 env (m env w).1 (holds p env w) q)

module _ {A : Type 0} (P : A → Type 0) where
  -- The outcome of code as a value, and that value as the outcome.
  pub Yields-attempt : (m : M A) → Yields P m → Yields (Holds P) (attempt m)
  unfolding attempt
  Yields-attempt m p = from_Holds (Holds P) (λ env w. holds P p env w)

  pub Yields-return : (o : Outcome A) → Holds P o → Yields P (return o)
  unfolding return
  Yields-return o h = from_Holds P (λ env w. h)

module _ {A B : Type 0} (P : B → Type 0) where
  continue-Holds :
      (Q : A → Type 0) (f : A → M B) (o : Outcome A) (env : Env) (w : World)
      → Holds Q o
      → ((a : A) → Q a → Yields P (f a))
      → Holds P (codex_storage_doctor.Effects.continue o f env w).0
  continue-Holds Q f (ok a) env w p q = holds P (q a p) env w
  continue-Holds Q f (raised e) env w p q = tt

  -- The rule for a sequence whose first part is known to return a value with the property `Q`.
  pub Yields-bind_with :
      (Q : A → Type 0) (m : M A) (f : A → M B)
      → Yields Q m
      → ((a : A) → Q a → Yields P (f a))
      → Yields P (m >>= f)
  unfolding ◌>>=◌
  Yields-bind_with Q m f p q =
      from_Holds P (λ env w. continue-Holds Q f (m env w).0 env (m env w).1 (holds Q p env w) q)

  pub Yields-bind : (m : M A) (f : A → M B) → ((a : A) → Yields P (f a)) → Yields P (m >>= f)
  Yields-bind m f q =
      Yields-bind_with (λ _. Unit) m f (record { at = λ env w a e. tt }) (λ a _. q a)

pub ruleset yields_rules =
    (Yields-raise, Yields-if, Yields-option, Yields-catch, Yields-bind, Yields-pure)
