-- ===== src/Text/Laws.antt =====
-- A text whose lines are all empty is blank.
use Prim.Native.Char.{Char, code}
use codex_storage_doctor.Prelude.{
  ℕ, ◌≡◌, refl, subst, String, Bool, true, false, ◌&&◌, ◌||◌, List, [], ◌∷◌, Bool-cases, inl, inr,
  leb, eqb, if◌then◌else◌, arith,
}
use codex_storage_doctor.Text.{
  is_space, is_break, reverse_onto, drop_while, rstrip_if, strip, is_empty, is_blank, all_chars,
}
use codex_storage_doctor.Text.Cut.{lines_from, drop_returns, lines}

unfoldable pub all_empty : List String → Bool
unfolding is_blank
all_empty [] = true
all_empty (line ∷ rest) = is_blank line && all_empty rest

both : (a b : Bool) → a && b ≡ true → (a ≡ true) × (b ≡ true)
both true true h = (refl, refl)
both true false h = cc
both false b h = cc

break-space : (c : Char) → is_break c ≡ true → is_space c ≡ true
unfolding is_break is_space
break-space c h = go (code c) h
  where
    go :
        (n : ℕ)
        → (leb 10 n && leb n 13)
            || (leb 28 n && leb n 30)
            || eqb n 0x85
            || (leb 0x2028 n && leb n 0x2029)
          ≡ true
        → (leb 9 n && leb n 13)
            || (leb 28 n && leb n 32)
            || eqb n 0x85
            || eqb n 0xa0
            || eqb n 0x1680
            || (leb 0x2000 n && leb n 0x200a)
            || (leb 0x2028 n && leb n 0x2029)
            || eqb n 0x202f
            || eqb n 0x205f
            || eqb n 0x3000
          ≡ true
    go n h = ground arith

reverse_empty :
    (s t : String) → is_empty (reverse_onto s t) ≡ true → (is_empty s ≡ true) × (is_empty t ≡ true)
unfolding reverse_onto is_empty
reverse_empty String.[] t h = (refl, h)
reverse_empty (String.◌∷◌ c s) t h = absurd (clash (reverse_empty s (String.◌∷◌ c t) h).1)
  where
    clash : false ≡ true → ⊥
    clash e = cc

breaks_of_lines :
    (line s : String)
    → all_empty (lines_from line s) ≡ true
    → (is_empty line ≡ true) × (all_chars is_break s ≡ true)
unfolding all_empty is_blank lines_from all_chars
breaks_of_lines String.[] String.[] h = (refl, refl)
breaks_of_lines (String.◌∷◌ d line) String.[] h =
    ((reverse_empty (String.◌∷◌ d line) String.[] (both _ _ h).0).0, refl)
breaks_of_lines line (String.◌∷◌ c s) h = elim (Bool-cases (is_break c)) [
  | inl e ↦
      let (first, rest) = both _ _ (subst (λ b. all_empty (chosen b) ≡ true) e h) in
      ((reverse_empty line String.[] first).0, rw e (breaks_of_lines String.[] s rest).1)
  | inr e ↦ absurd (
      clash
        (breaks_of_lines (String.◌∷◌ c line) s (subst (λ b. all_empty (chosen b) ≡ true) e h)).0)
]
  where
    chosen : Bool → List String
    chosen b =
        if b
        then reverse_onto line String.[] ∷ lines_from String.[] s
        else lines_from (String.◌∷◌ c line) s

    clash : false ≡ true → ⊥
    clash e = cc

carriage : (c : Char) → eqb (code c) 13 ≡ true → is_break c ≡ true
unfolding is_break
carriage c h = go (code c) h
  where
    go :
        (n : ℕ)
        → eqb n 13 ≡ true
        → (leb 10 n && leb n 13)
            || (leb 28 n && leb n 30)
            || eqb n 0x85
            || (leb 0x2028 n && leb n 0x2029)
          ≡ true
    go n h = ground arith

breaks_of_returns :
    (s : String) → all_chars is_break (drop_returns s) ≡ true → all_chars is_break s ≡ true
unfolding drop_returns all_chars
breaks_of_returns String.[] h = refl
breaks_of_returns (String.◌∷◌ c String.[]) h = h
breaks_of_returns (String.◌∷◌ c (String.◌∷◌ d s)) h =
    elim (Bool-cases (eqb (code c) 13 && eqb (code d) 10)) [
      | inl e ↦ rw (carriage c (both _ _ e).0) (
          breaks_of_returns (String.◌∷◌ d s)
            (subst (λ b. all_chars is_break (chosen b) ≡ true) e h))
      | inr e ↦
          let (first, rest) =
            both (is_break c) (all_chars is_break (drop_returns (String.◌∷◌ d s)))
              (subst (λ b. all_chars is_break (chosen b) ≡ true) e h) in
          rw first (breaks_of_returns (String.◌∷◌ d s) rest)
    ]
  where
    chosen : Bool → String
    chosen b =
        if b then drop_returns (String.◌∷◌ d s) else String.◌∷◌ c (drop_returns (String.◌∷◌ d s))

spaces_dropped : (s : String) → all_chars is_break s ≡ true → drop_while is_space s ≡ ""
unfolding all_chars drop_while
spaces_dropped String.[] h = refl
spaces_dropped (String.◌∷◌ c s) h =
    let (first, rest) = both _ _ h in rw (break-space c first) (spaces_dropped s rest)

-- A text whose lines are all empty has nothing but white space.
pub lines_blank : (s : String) → all_empty (lines s) ≡ true → is_blank (strip s) ≡ true
unfolding lines strip is_blank rstrip_if
lines_blank s h =
    rw (spaces_dropped s (breaks_of_returns s (breaks_of_lines String.[] (drop_returns s) h).1))
      refl
