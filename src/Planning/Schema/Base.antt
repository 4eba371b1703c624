-- ===== src/Planning/Schema/Base.antt =====
-- The base schema's fingerprint and the doctor's own rows.
use codex_storage_doctor.Prelude.{
  ◌≡◌, refl, ap, Bool, true, false, not, ◌&&◌, List, [], ◌∷◌, ◌++◌, keep_if, if◌then◌else◌,
}
use codex_storage_doctor.Host.{Host}
use codex_storage_doctor.Json.{end, field, arr}
use codex_storage_doctor.Effects.{Row}
use codex_storage_doctor.Planning.Schema.{
  is_doctor, is_reported_kind, base_rows, sort_rows, rows_json, fingerprint,
}

keep_if-insert :
    (test : Row → Bool) (r : Row) (xs ys : List Row)
    → test r ≡ false
    → keep_if test (xs ++ r ∷ ys) ≡ keep_if test (xs ++ ys)
keep_if-insert test r [] ys h = rw h refl
keep_if-insert test r (x ∷ xs) ys h =
    ap (λ l. if test x then x ∷ l else l) (keep_if-insert test r xs ys h)

and_not : (a b : Bool) → b ≡ true → (a && not b) ≡ false
and_not true true h = refl
and_not false true h = refl
and_not true false h = cc
and_not false false h = refl

doctor_row : (r : Row) → is_doctor r ≡ true → (is_reported_kind r && not (is_doctor r)) ≡ false
doctor_row r h = and_not (is_reported_kind r) (is_doctor r) h

module _ (host : Host) where
  -- To add a row of the doctor's own to `sqlite_master`, at any place, or to take it away, leaves the
  -- fingerprint as it is.
  pub fingerprint-doctor :
      (r : Row) (xs ys : List Row)
      → is_doctor r ≡ true
      → fingerprint host (xs ++ r ∷ ys) ≡ fingerprint host (xs ++ ys)
  unfolding fingerprint base_rows
  fingerprint-doctor r xs ys h =
      ap (λ rows. host.sha256 (host.dumps (field "schema" (arr (rows_json (sort_rows rows))) end)))
        (keep_if-insert _ r xs ys (doctor_row r h))
