-- ===== src/SqliteInspect/Counted.antt =====
-- How the triggers with the doctor's prefix are counted, told by the two built-in modes.
use codex_storage_doctor.Prelude.{
  ℕ, suc, String, ◌==◌, ◌≡◌, refl, sym, ap, subst, ◌∙◌, eq_iff, Bool, true, false, not, ◌&&◌, ◌||◌,
  List, [], ◌∷◌, length, keep_if, map, Bool-cases, inl, inr, if◌then◌else◌,
}
use mathlib.Core.List.{Perm}
use mathlib.Core.List.Perm
use mathlib.Core.Nat.{ℕ as Natural}
use Prim.Native.Nat.{Ordering}
use Prim.Native.String.{compare}
use codex_storage_doctor.Effects.{Row}
use codex_storage_doctor.Planning.Modes.{
  Mode, balanced, maximum, trigger_names, trigger_sql, normalize_sql,
}
use codex_storage_doctor.Planning.Schema.{is_doctor, is_trigger}
use codex_storage_doctor.SqliteInspect.Triggers.{
  Triggers, expected_sql, insert_row, sort_rows, sql_of, count_trigger, classify, doctor_triggers,
}

-- The row has the name of a mode's trigger.
abbrev pub has_name : Mode → Row → Bool
has_name mode r = r.name == trigger_names mode

-- The row has the SQL of a mode's trigger, but for white space.
abbrev pub has_sql : Mode → Row → Bool
has_sql mode r = normalize_sql (sql_of r) == normalize_sql (trigger_sql mode)

abbrev pub is_built_in : Row → Bool
is_built_in r =
    (has_name balanced r && has_sql balanced r) || (has_name maximum r && has_sql maximum r)

abbrev pub is_named : Row → Bool
is_named r = has_name balanced r || has_name maximum r

abbrev pub names : List Row → List String
names rows = map (λ r. r.name) rows

-- The rows of the doctor.
abbrev pub ours : List Row → List Row
ours rows = keep_if (λ r. is_trigger r && is_doctor r) rows

-- What one row adds to the three counts.
abbrev Adds : Row → Triggers → Triggers → Type 0
Adds r t u =
    (u.exact ≡ (if is_built_in r then r.name ∷ t.exact else t.exact))
    × (u.altered ≡ (if is_named r && not (is_built_in r) then r.name ∷ t.altered else t.altered))
    × (u.unexpected ≡ (if not (is_named r) then suc t.unexpected else t.unexpected))

one_name : (r : Row) → has_name balanced r ≡ true → has_name maximum r ≡ false
unfolding trigger_names
one_name r e = subst (λ s. (s == trigger_names maximum) ≡ false) (sym ((eq_iff r.name _).0 e)) refl

Adds-count_trigger : (r : Row) (t : Triggers) → Adds r t (count_trigger r (expected_sql r.name) t)
unfolding expected_sql count_trigger
Adds-count_trigger r t = elim (Bool-cases (has_name balanced r)) [
  | inl e ↦ elim (Bool-cases (has_sql balanced r)) [
    | inl d ↦ rw (e, one_name r e, d) (refl, refl, refl)
    | inr d ↦ rw (e, one_name r e, d) (refl, refl, refl)
  ]
  | inr e ↦ elim (Bool-cases (has_name maximum r)) [
    | inl f ↦ elim (Bool-cases (has_sql maximum r)) [
      | inl d ↦ rw (e, f, d) (refl, refl, refl)
      | inr d ↦ rw (e, f, d) (refl, refl, refl)
    ]
    | inr f ↦ rw (e, f) (refl, refl, refl)
  ]
]

names-if :
    (b : Bool) (r : Row) (rows : List Row)
    → names (if b then r ∷ rows else rows) ≡ (if b then r.name ∷ names rows else names rows)
names-if true r rows = refl
names-if false r rows = refl

length-if :
    (b : Bool) (r : Row) (rows : List Row)
    → length (if b then r ∷ rows else rows) ≡ (if b then suc (length rows) else length rows)
length-if true r rows = refl
length-if false r rows = refl

-- The three counts of a list of rows.
abbrev Counts : List Row → Triggers → Type 0
Counts rows t =
    (t.exact ≡ names (keep_if is_built_in rows))
    × (t.altered ≡ names (keep_if (λ r. is_named r && not (is_built_in r)) rows))
    × (t.unexpected ≡ length (keep_if (λ r. not (is_named r)) rows))

Counts-classify : (rows : List Row) → Counts rows (classify rows)
unfolding classify
Counts-classify [] = (refl, refl, refl)
Counts-classify (r ∷ rows) =
    let (a, b, c) = Adds-count_trigger r (classify rows) in
    let (x, y, z) = Counts-classify rows in
    (
      a ∙ ap (λ l. if is_built_in r then r.name ∷ l else l) x ∙ sym (names-if (is_built_in r) r _),
      b
          ∙ ap (λ l. if is_named r && not (is_built_in r) then r.name ∷ l else l) y
          ∙ sym (names-if (is_named r && not (is_built_in r)) r _),
      c
          ∙ ap (λ n. if not (is_named r) then suc n else n) z
          ∙ sym (length-if (not (is_named r)) r _),
    )

-- Sorting rearranges the rows that pass a test.
module _ (test : Row → Bool) where
  keep_if-swap :
      (x y : Row) (rows : List Row)
      → Perm (keep_if test (y ∷ x ∷ rows)) (keep_if test (x ∷ y ∷ rows))
  keep_if-swap x y rows = by_tests (test x) (test y)
    where
      by_tests :
          (a b : Bool)
          → let kept = keep_if test rows in
            let first = if a then x ∷ kept else kept in
            let second = if b then y ∷ kept else kept in
            Perm (if b then y ∷ first else first) (if a then x ∷ second else second)
      by_tests true true = Perm.swap x y _
      by_tests true false = Perm.refl _
      by_tests false true = Perm.refl _
      by_tests false false = Perm.refl _

  keep_if-cons :
      (x : Row) (l m : List Row)
      → Perm (keep_if test l) (keep_if test m)
      → Perm (keep_if test (x ∷ l)) (keep_if test (x ∷ m))
  keep_if-cons x l m h = by_test (test x)
    where
      by_test :
          (b : Bool)
          → Perm
              (if b then x ∷ keep_if test l else keep_if test l)
              (if b then x ∷ keep_if test m else keep_if test m)
      by_test true = Perm.cons x h
      by_test false = h

  keep_if-insert_row :
      (x : Row) (rows : List Row)
      → Perm (keep_if test (insert_row x rows)) (keep_if test (x ∷ rows))
  unfolding insert_row
  keep_if-insert_row x [] = Perm.refl _
  keep_if-insert_row x (y ∷ ys) = by_order (keep_if-insert_row x ys) (compare x.name y.name)
    where
      placed : Ordering → List Row
      placed o = elim o [ Ordering.gt ↦ y ∷ insert_row x ys | _ ↦ x ∷ y ∷ ys ]

      by_order :
          Perm (keep_if test (insert_row x ys)) (keep_if test (x ∷ ys))
          → (o : Ordering) → Perm (keep_if test (placed o)) (keep_if test (x ∷ y ∷ ys))
      by_order h Ordering.gt =
          Perm.trans (keep_if-cons y (insert_row x ys) (x ∷ ys) h) (keep_if-swap x y ys)
      by_order h Ordering.lt = Perm.refl (keep_if test (x ∷ y ∷ ys))
      by_order h Ordering.eq = Perm.refl (keep_if test (x ∷ y ∷ ys))

  keep_if-sort_rows : (rows : List Row) → Perm (keep_if test (sort_rows rows)) (keep_if test rows)
  unfolding sort_rows
  keep_if-sort_rows [] = Perm.refl _
  keep_if-sort_rows (r ∷ rows) =
      Perm.trans (keep_if-insert_row r (sort_rows rows))
        (keep_if-cons r (sort_rows rows) rows (keep_if-sort_rows rows))

-- The native number of a library number.
native_of : Natural → ℕ
native_of Natural.zero = 0
native_of (Natural.suc n) = suc (native_of n)

native_of-length : (rows : List Row) → native_of (mathlib.Core.List.length rows) ≡ length rows
unfolding native_of
native_of-length [] = refl
native_of-length (r ∷ rows) = ap (λ n. suc n) (native_of-length rows)

length-Perm : (l m : List Row) → Perm l m → length l ≡ length m
length-Perm l m h = sym (native_of-length l) ∙ ap native_of (Perm.length-eq h) ∙ native_of-length m

-- Of the triggers with the doctor's prefix, those with the name and the SQL of a built-in mode are
-- listed as exact, those with the name of a mode and another SQL as altered, each as often as it
-- occurs and in some order, and the others are counted as unexpected.
pub doctor_triggers_lem :
    (rows : List Row)
    → (let t = doctor_triggers rows in
        Perm t.exact (names (keep_if is_built_in (ours rows)))
        × Perm t.altered (names (keep_if (λ r. is_named r && not (is_built_in r)) (ours rows)))
        × (t.unexpected ≡ length (keep_if (λ r. not (is_named r)) (ours rows))))
unfolding doctor_triggers
doctor_triggers_lem rows =
    let found = sort_rows (ours rows) in
    let (x, y, z) = Counts-classify found in
    (
      subst (λ l. Perm l (names (keep_if is_built_in (ours rows)))) (sym x)
          (Perm.map (λ r. r.name) (keep_if-sort_rows is_built_in (ours rows))),
      subst (λ l. Perm l (names (keep_if (λ r. is_named r && not (is_built_in r)) (ours rows))))
          (sym y)
          (Perm.map (λ r. r.name)
            (keep_if-sort_rows (λ r. is_named r && not (is_built_in r)) (ours rows))),
      z ∙ length-Perm _ _ (keep_if-sort_rows (λ r. not (is_named r)) (ours rows)),
    )
