-- ===== src/Decimal/Laws.antt =====
-- Reading a number back from its decimal digits.
use Prim.Native.Char.{code}
use codex_storage_doctor.Prelude.{
  ℕ, zero, suc, ◌+◌, ◌*◌, ◌-◌, ◌/◌, ◌%◌, ◌≤◌, ◌<◌, ◌≡◌, refl, ap, ◌∙◌, String, Bool, true, false,
  Bool-cases, inl, inr, ltb, arith,
}
use codex_storage_doctor.Decimal.{digit, digits, decimal, padded, number_from, number}

code-digit : (d : ℕ) → d < 10 → code (digit d) - 48 ≡ d
unfolding digit
code-digit zero h = refl
code-digit (suc zero) h = refl
code-digit (suc (suc zero)) h = refl
code-digit (suc (suc (suc zero))) h = refl
code-digit (suc (suc (suc (suc zero)))) h = refl
code-digit (suc (suc (suc (suc (suc zero))))) h = refl
code-digit (suc (suc (suc (suc (suc (suc zero)))))) h = refl
code-digit (suc (suc (suc (suc (suc (suc (suc zero))))))) h = refl
code-digit (suc (suc (suc (suc (suc (suc (suc (suc zero)))))))) h = refl
code-digit (suc (suc (suc (suc (suc (suc (suc (suc (suc zero))))))))) h = refl
code-digit (suc (suc (suc (suc (suc (suc (suc (suc (suc (suc d)))))))))) h = omega arith

ltb-true : (a b : ℕ) → ltb a b ≡ true → a < b
ltb-true a b h = ground arith

ltb-false : (a b : ℕ) → ltb a b ≡ false → b ≤ a
ltb-false a b h = ground arith

by_test :
    (P : String → Type 0) (b : Bool) (s t : String)
    → (b ≡ true → P s)
    → (b ≡ false → P t)
    → P (elim b [ true ↦ s | false ↦ t ])
by_test P true s t p q = p refl
by_test P false s t p q = q refl

number_from-digits : (k n : ℕ) (s : String) → n < k → number_from 0 (digits k n s) ≡ number_from n s
unfolding number_from digits
number_from-digits zero n s h = omega arith
number_from-digits (suc k) n s h =
    by_test (λ t. number_from 0 t ≡ number_from n s) (ltb n 10) _ _
      (λ e. ap (λ m. number_from m s) (one e))
      (λ e. number_from-digits k (n / 10) _ (fewer e) ∙ ap (λ m. number_from m s) last)
  where
    below : n % 10 < 10
    below = omega arith

    small : n < 10 → 0 * 10 + n % 10 ≡ n
    small p = omega arith

    one : ltb n 10 ≡ true → 0 * 10 + (code (digit (n % 10)) - 48) ≡ n
    one e = rw (code-digit (n % 10) below) (small (ltb-true n 10 e))

    smaller : 10 ≤ n → n / 10 < k
    smaller p = omega arith

    fewer : ltb n 10 ≡ false → n / 10 < k
    fewer e = smaller (ltb-false n 10 e)

    last : n / 10 * 10 + (code (digit (n % 10)) - 48) ≡ n
    last = rw (code-digit (n % 10) below) (omega arith)

-- A number is read back from its digits.
pub number-decimal : (n : ℕ) → number (decimal n) ≡ n
unfolding number decimal number_from
number-decimal n = number_from-digits (suc n) n "" (omega arith)

pub number-padded : (n : ℕ) → number (padded n) ≡ n
unfolding padded number number_from digit
number-padded n = elim (Bool-cases (ltb n 10)) [
  | inl e ↦ rw e (number-decimal n)
  | inr e ↦ elim (Bool-cases (ltb n 100)) [
    | inl f ↦ rw (e, f) (number-decimal n)
    | inr f ↦ rw (e, f) (number-decimal n)
  ]
]
