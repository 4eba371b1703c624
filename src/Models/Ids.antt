-- ===== src/Models/Ids.antt =====
-- The numbered report ids of models.py: no two of them are the same.
use Prim.Native.Char.{code}
use Prim.Native.String.append
use codex_storage_doctor.Prelude.{
  ℕ, suc, ◌<◌, ◌≡◌, refl, sym, ap, subst, ◌∙◌, String, ◌<>◌, ◌==◌, eq_iff, true, false, Option,
  none, some, Bool-cases, inl, inr, List, [], ◌∷◌, map, contains, eqb, arith,
}
use codex_storage_doctor.Text.{after}
use codex_storage_doctor.Decimal.{padded, number}
use codex_storage_doctor.Decimal.Laws.{number-padded}
use codex_storage_doctor.Models.{
  DatabaseCandidate, numbered, assign_from, assign_candidate_report_ids,
}

abbrev pub Distinct : List String → Type 0
Distinct [] = Unit
Distinct (s ∷ ss) = (contains ss s ≡ false) × Distinct ss

eqb_refl : (n : ℕ) → eqb n n ≡ true
eqb_refl n = ground arith

after-append : (a b : String) → after a (a <> b) ≡ some b
unfolding after
after-append String.[] b = ap (λ t. some t) (append.nil b)
after-append (String.◌∷◌ c a) b =
    subst (λ t. after (String.◌∷◌ c a) t ≡ some b) (sym (append.cons c a b))
      (rw (eqb_refl (code c)) (after-append a b))

text_or : Option String → String
text_or none = ""
text_or (some s) = s

-- A numbered id gives its number back.
append-padded-injective : (label : String) (m n : ℕ) → label <> padded m ≡ label <> padded n → m ≡ n
unfolding text_or
append-padded-injective label m n e =
    let rest =
      sym (after-append label (padded m))
      ∙ ap (λ t. after label t) e
      ∙ after-append label (padded n) in
    sym (number-padded m) ∙ ap (λ o. number (text_or o)) rest ∙ number-padded n

different :
    (label : String) (m n : ℕ) → m < n → ((label <> padded n) == (label <> padded m)) ≡ false
different label m n h = elim (Bool-cases ((label <> padded n) == (label <> padded m))) [
  | inl e ↦ absurd (clash (append-padded-injective label n m ((eq_iff _ _).0 e)))
  | inr e ↦ e
]
  where
    clash : n ≡ m → ⊥
    clash e = omega arith

module _ {ℓ} {A : Type ℓ} where
  later :
      (label : String) (m n : ℕ) (xs : List A)
      → m < n
      → contains (numbered label n xs) (label <> padded m) ≡ false
  unfolding numbered
  later label m n [] h = refl
  later label m n (x ∷ xs) h = rw (different label m n h) (later label m (suc n) xs (omega arith))

  numbered-Distinct : (label : String) (n : ℕ) (xs : List A) → Distinct (numbered label n xs)
  unfolding numbered
  numbered-Distinct label n [] = tt
  numbered-Distinct label n (x ∷ xs) =
      (later label n (suc n) xs (omega arith), numbered-Distinct label (suc n) xs)

report_ids : List DatabaseCandidate → List String
report_ids cs = map (λ c. c.report_id) cs

assigned :
    (n : ℕ) (cs : List DatabaseCandidate)
    → report_ids (assign_from n cs) ≡ numbered "database-" n cs
unfolding assign_from numbered report_ids
assigned n [] = refl
assigned n (c ∷ cs) = ap (λ ids. ("database-" <> padded n) ∷ ids) (assigned (suc n) cs)

-- The report ids that a list of candidates is given are pairwise distinct, however many they are.
pub assign_candidate_report_ids-Distinct :
    (cs : List DatabaseCandidate)
    → Distinct (map (λ c. c.report_id) (assign_candidate_report_ids cs))
unfolding assign_candidate_report_ids report_ids
assign_candidate_report_ids-Distinct cs =
    subst Distinct (sym (assigned 1 cs)) (numbered-Distinct "database-" 1 cs)
