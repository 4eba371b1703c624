-- ===== src/Sampling/Laws.antt =====
-- What a sample says of its two observations, and which samples are taken.
use codex_storage_doctor.Prelude.{
  ℕ, ◌≤◌, String, ◌==◌, ◌≡◌, refl, sym, subst, Bool, true, false, not, ◌&&◌, ◌||◌, Option, none,
  some, List, [], ◌∷◌, map, leb, any_of, ◌⊎◌, inl, inr, arith, if◌then◌else◌,
}
use codex_storage_doctor.Json.{ℤ, pos, negsuc, eq_ℤ}
use codex_storage_doctor.Int.{sub, sub_self}
use codex_storage_doctor.Errors.{Exn, value_error}
use codex_storage_doctor.Effects.{ok, raised, World, Env, M, pure, raise, ◌>>=◌, refuse_if}
use codex_storage_doctor.Effects.Yields.{
  Yields, Yields-bind, Yields-bind_with, Yields-if_known, Yields-pure, Yields-raise,
}
use codex_storage_doctor.Models.Scan.{ProcessScan}
use codex_storage_doctor.Models.Inspection.{DatabaseInspection, LevelAggregate, known_levels}
use codex_storage_doctor.Models.Sample.{SampleResult, is_change, logical_change_observed}
use codex_storage_doctor.Sampling.{
  optional_delta, level_or_zero, level_delta, delta, ScanSource, is_negative, exceeds_a_day,
  is_limited, snapshot, status_of, result_of, sample_database,
}

zero_change : (n : ℤ) → n ≡ pos 0 → is_change (some n) ≡ false
unfolding is_change eq_ℤ
zero_change n e = rw e refl

optional_delta_self : (o : Option ℤ) → is_change (optional_delta o o) ≡ false
unfolding optional_delta is_change
optional_delta_self none = refl
optional_delta_self (some n) = zero_change _ (sub_self n)

unchanged : List LevelAggregate → Bool
unfolding is_change
unchanged levels =
    any_of (λ l. is_change (some l.rows) || is_change (some l.estimated_bytes)) levels

same_levels :
    (levels : List LevelAggregate) (names : List String)
    → unchanged (
        map
          (λ level. record {
            level = level;
            rows = sub (level_or_zero level levels).rows (level_or_zero level levels).rows;
            estimated_bytes =
                sub
                  (level_or_zero level levels).estimated_bytes
                  (level_or_zero level levels).estimated_bytes;
          })
          names)
      ≡ false
unfolding unchanged
same_levels levels [] = refl
same_levels levels (n ∷ ns) =
    rw
      (
        zero_change _ (sub_self (level_or_zero n levels).rows),
        zero_change _ (sub_self (level_or_zero n levels).estimated_bytes),
      )
      (same_levels levels ns)

level_delta_self : (levels : List LevelAggregate) → unchanged (level_delta levels levels) ≡ false
unfolding level_delta unchanged
level_delta_self [] = refl
level_delta_self (l ∷ ls) = same_levels (l ∷ ls) known_levels

-- Where the second inspection finds what the first one found, the sample reports no logical change,
-- whatever the two process scans say.
pub logical_change_observed-result_of :
    (path : String) (seconds : ℤ) (i : DatabaseInspection) (scan after_scan : ProcessScan)
    → logical_change_observed (result_of path seconds i scan i after_scan) ≡ false
unfolding logical_change_observed result_of snapshot delta unchanged
logical_change_observed-result_of path seconds i scan after_scan =
    rw
      (
        zero_change _ (sub_self (pos i.database_size_bytes)),
        zero_change _ (sub_self (pos i.wal_size_bytes)),
        optional_delta_self i.row_count,
        optional_delta_self i.max_id,
        optional_delta_self i.sqlite_sequence,
        optional_delta_self i.estimated_bytes,
      )
      (level_delta_self i.level_aggregates)

-- What must hold of the parts for a sample to be complete.
abbrev pub Complete : DatabaseInspection → ProcessScan → Type 0
Complete i s =
    (i.full_scan_performed ≡ true)
    × ((i.status == "error") ≡ false)
    × (is_limited i.status ≡ false)
    × (is_limited s.status ≡ false)

split_or : (a b : Bool) → a || b ≡ false → (a ≡ false) × (b ≡ false)
split_or false false h = (refl, refl)
split_or true b h = cc
split_or false true h = cc

lacking_status :
    (lacking fine : Bool) (status : String)
    → (status == "ok") ≡ fine
    → (if lacking && fine then "partial" else status) ≡ "ok"
    → (lacking ≡ false) × (status ≡ "ok")
lacking_status false fine status e h = (refl, h)
lacking_status true true status e h = cc
lacking_status true false status e h =
    absurd (true_false_clash (sym (subst (λ t. (t == "ok") ≡ false) h e)))
  where
    true_false_clash : false ≡ true → ⊥
    true_false_clash p = cc

status_parts :
    (error again a b c d : Bool)
    → ◌≡◌ {A = String}
        (if error || again
          then "error"
          else if a || (b || (c || (d || false)))
          then "partial"
          else "ok")
        "ok"
    → (error ≡ false) × (again ≡ false) × (a ≡ false) × (b ≡ false) × (c ≡ false) × (d ≡ false)
status_parts true again a b c d h = cc
status_parts false true a b c d h = cc
status_parts false false true b c d h = cc
status_parts false false false true c d h = cc
status_parts false false false false true d h = cc
status_parts false false false false false true h = cc
status_parts false false false false false false h = (refl, refl, refl, refl, refl, refl)

not-false : (b : Bool) → not b ≡ false → b ≡ true
not-false true h = refl
not-false false h = cc

-- A sample has the status "ok" only where both inspections made the full scan and neither failed, and
-- neither they nor the process scans were partial or unsupported.
pub result_of-Complete :
    (path : String) (seconds : ℤ) (i : DatabaseInspection) (s : ProcessScan)
    (j : DatabaseInspection) (t : ProcessScan)
    → (result_of path seconds i s j t).status ≡ "ok"
    → Complete i s × Complete j t
unfolding result_of status_of
result_of-Complete path seconds i s j t h =
    let (lacking, status) = lacking_status _ _ _ refl h in
    let (first, second) = split_or _ _ lacking in
    let (error, again, a, b, c, d) = status_parts _ _ _ _ _ _ status in
    ((not-false _ first, error, a, c), (not-false _ second, again, b, d))

Yields-refuse_if : (b : Bool) (e : Exn) → Yields (λ _. b ≡ false) (refuse_if b e)
unfolding refuse_if
Yields-refuse_if b e =
    Yields-if_known (λ _. b ≡ false) b _ _ (λ _. Yields-raise (λ _. b ≡ false) e)
      (λ p. Yields-pure (λ _. b ≡ false) tt p)

-- The time of a sample, in the bounds that the code sets.
abbrev pub InBounds : ℤ → SampleResult → Type 0
InBounds seconds r = (n : ℕ) × (seconds ≡ pos n) × (n ≤ 86400) × (r.requested_seconds ≡ seconds)

day : (n : ℕ) → not (leb n 86400) ≡ false → n ≤ 86400
day n h = ground arith

in_bounds :
    (seconds : ℤ) (r : SampleResult)
    → r.requested_seconds ≡ seconds
    → is_negative seconds ≡ false
    → exceeds_a_day seconds ≡ false
    → InBounds seconds r
unfolding is_negative exceeds_a_day
in_bounds (pos n) r e p q = (n, refl, day n q, e)
in_bounds (negsuc n) r e p q = cc

late : (n : ℕ) → (n ≤ 86400 → ⊥) → not (leb n 86400) ≡ true
late n h = ground arith

-- Every time out of bounds meets one of the two guards.
refused :
    (seconds : ℤ)
    → ((n : ℕ) → seconds ≡ pos n → n ≤ 86400 → ⊥)
    → (is_negative seconds ≡ true)
      ⊎ ((is_negative seconds ≡ false) × (exceeds_a_day seconds ≡ true))
unfolding is_negative exceeds_a_day
refused (pos n) h = inr (refl, late n (h n refl))
refused (negsuc n) h = inl refl

module _ (path : String) (seconds : ℤ) (source : ScanSource) (full : Bool)
    (inspect : String → Bool → M DatabaseInspection) where
  sample_database-InBounds :
      Yields (InBounds seconds) (sample_database path seconds source full inspect)
  unfolding sample_database result_of
  sample_database-InBounds =
      Yields-bind_with (InBounds seconds) (λ _. is_negative seconds ≡ false) _ _
        (Yields-refuse_if _ _)
        (λ _ p.
          Yields-bind_with (InBounds seconds) (λ _. exceeds_a_day seconds ≡ false) _ _
            (Yields-refuse_if _ _)
            (λ _ q. Yields-bind (InBounds seconds) _ _ (λ _.
              Yields-bind (InBounds seconds) _ _ (λ database.
                Yields-bind (InBounds seconds) _ _ (λ i. Yields-bind (InBounds seconds) _ _ (λ s.
                  Yields-bind (InBounds seconds) _ _ (λ _. Yields-bind (InBounds seconds) _ _ (λ j.
                    Yields-bind (InBounds seconds) _ _ (λ t.
                      Yields-pure (InBounds seconds) _
                        (in_bounds seconds (result_of database seconds i s j t) refl p q))))))))))

  module _ (env : Env) (w : World) where
    -- A sample is taken only for a time of zero to 86400 seconds, and records that time.
    pub sample_database_bounds :
        (r : SampleResult)
        → (sample_database path seconds source full inspect env w).0 ≡ ok r
        → InBounds seconds r
    sample_database_bounds r h = sample_database-InBounds.at env w r h

    -- For a time that is not a number of seconds from zero to 86400 the call raises a ValueError, before
    -- it asks the surroundings for anything and before it calls the caller's functions.
    pub sample_database_refuses :
        ((n : ℕ) → seconds ≡ pos n → n ≤ 86400 → ⊥)
        → (text : String) × (sample_database path seconds source full inspect env w
            ≡ (raised (value_error text), w))
    unfolding sample_database refuse_if raise pure ◌>>=◌
    sample_database_refuses h = elim (refused seconds h) [
      | inl e ↦ ("sample seconds must be non-negative", rw e refl)
      | inr (e, l) ↦ ("sample seconds exceed the one-day safety bound", rw (e, l) refl)
    ]
