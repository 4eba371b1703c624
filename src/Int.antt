-- ===== src/Int.antt =====
-- Arithmetic on Python ints.
use codex_storage_doctor.Prelude.{
  ℕ, zero, suc, ◌+◌, ◌-◌, ◌≤◌, ◌<◌, ◌≡◌, refl, ap, ◌∙◌, true, false, Bool-cases, inl, inr, leb,
  if◌then◌else◌, arith,
}
use codex_storage_doctor.Json.{ℤ, pos, negsuc}

-- `a - b` for natural numbers
unfoldable pub minus : ℕ → ℕ → ℤ
minus a b = if leb b a then pos (a - b) else negsuc (b - suc a)

-- `a + b`
unfoldable pub add : ℤ → ℤ → ℤ
unfolding minus
add (pos a) (pos b) = pos (a + b)
add (pos a) (negsuc b) = minus a (suc b)
add (negsuc a) (pos b) = minus b (suc a)
add (negsuc a) (negsuc b) = negsuc (suc (a + b))

-- `-a`
unfoldable pub negate : ℤ → ℤ
negate (pos zero) = pos zero
negate (pos (suc n)) = negsuc n
negate (negsuc n) = pos (suc n)

-- `a - b`
unfoldable pub sub : ℤ → ℤ → ℤ
unfolding add negate
sub a b = add a (negate b)

leb-true : (a b : ℕ) → leb a b ≡ true → a ≤ b
leb-true a b h = ground arith

leb-false : (a b : ℕ) → leb a b ≡ false → b < a
leb-false a b h = ground arith

minus_by :
    (P : ℤ → Type 0) (a b : ℕ)
    → (b ≤ a → P (pos (a - b)))
    → (a < b → P (negsuc (b - suc a)))
    → P (minus a b)
unfolding minus
minus_by P a b p q = elim (Bool-cases (leb b a)) [
  | inl e ↦ rw e (p (leb-true b a e))
  | inr e ↦ rw e (q (leb-false b a e))
]

pub minus_pos : (a b c : ℕ) → a ≡ b + c → minus a b ≡ pos c
minus_pos a b c e =
    minus_by (λ x. x ≡ pos c) a b (λ h. ap (λ n. pos n) (omega arith)) (λ h. absurd (a_less h))
  where
    a_less : a < b → ⊥
    a_less h = omega arith

pub minus_neg : (a b c : ℕ) → b ≡ a + suc c → minus a b ≡ negsuc c
minus_neg a b c e =
    minus_by (λ x. x ≡ negsuc c) a b (λ h. absurd (b_less h))
      (λ h. ap (λ n. negsuc n) (omega arith))
  where
    b_less : b ≤ a → ⊥
    b_less h = omega arith

-- A difference added back gives the minuend.
pub add-sub : (a b : ℤ) → add b (sub a b) ≡ a
unfolding add sub negate
add-sub (pos a) (pos zero) = ap (λ n. pos n) (omega arith)
add-sub (pos a) (pos (suc b)) =
    minus_by (λ x. add (pos (suc b)) x ≡ pos a) a (suc b) (λ h. ap (λ n. pos n) (omega arith))
      (λ h. minus_pos _ _ _ (omega arith))
add-sub (pos a) (negsuc b) = minus_pos _ _ _ (omega arith)
add-sub (negsuc a) (pos zero) = ap (λ x. add (pos zero) x) from_zero ∙ from_zero
  where
    from_zero : minus zero (suc a) ≡ negsuc a
    from_zero = minus_neg zero (suc a) a (omega arith)
add-sub (negsuc a) (pos (suc b)) = minus_neg _ _ _ (omega arith)
add-sub (negsuc a) (negsuc b) =
    minus_by (λ x. add (negsuc b) x ≡ negsuc a) (suc b) (suc a) (λ h. minus_neg _ _ _ (omega arith))
      (λ h. ap (λ n. negsuc n) (omega arith))

-- A number less itself is zero.
pub sub_self : (a : ℤ) → sub a a ≡ pos 0
unfolding add sub negate
sub_self (pos zero) = refl
sub_self (pos (suc a)) = minus_pos _ _ _ (omega arith)
sub_self (negsuc a) = minus_pos _ _ _ (omega arith)
