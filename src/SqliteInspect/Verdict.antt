-- ===== src/SqliteInspect/Verdict.antt =====
-- What an inspection with the status "ok" has found.
use codex_storage_doctor.Prelude.{
  ℕ, String, ◌==◌, ◌≡◌, refl, ap, subst, Bool, true, false, not, ◌||◌, some, List, [], ◌∷◌, any_of,
  eqb, is_nil, arith, if◌then◌else◌,
}
use codex_storage_doctor.Errors.{Exn}
use codex_storage_doctor.Host.{Host}
use codex_storage_doctor.Effects.{
  Conn, Request, Outcome, ok, raised, M, World, Env, call, catch, attempt, return, ◌>>=◌, ◌>>◌,
}
use codex_storage_doctor.Effects.Yields.{
  Yields, Holds, Yields-pure, Yields-raise, Yields-if, Yields-bind, Yields-bind_with, Yields-catch,
  Yields-attempt, Yields-return,
}
use codex_storage_doctor.Models.{Finding}
use codex_storage_doctor.Models.Inspection.{DatabaseInspection, is_partial}
use codex_storage_doctor.SqliteInspect.{
  failed_inspection, on_error, inspect_open, inspect_file, inspect_database,
}
use codex_storage_doctor.SqliteInspect.Reads.{Sizes, Aggregates}
use codex_storage_doctor.SqliteInspect.Results.{
  Reading, selected, tests_of, findings_of, names_of, schema_supported, inspection_of, Failure,
  failure_of, not_found, wal_failure, read_failure,
}

-- What the status "ok" of an inspection means.
abbrev pub Healthy : DatabaseInspection → Type 0
Healthy i =
    (i.exists ≡ true)
    × (i.quick_check_ok ≡ some true)
    × (i.schema_supported ≡ true)
    × (i.altered_doctor_triggers ≡ [])
    × (i.unexpected_doctor_trigger_count ≡ 0)
    × (is_partial i ≡ false)

record Checked (i : DatabaseInspection) : Type 0 where
  checked : i.status ≡ "ok" → Healthy i

four :
    (a b c d : Bool)
    → ◌≡◌ {A = String} (if a || b || c || d then "error" else "ok") "ok"
    → (a ≡ false) × (b ≡ false) × (c ≡ false) × (d ≡ false)
four false false false false h = (refl, refl, refl, refl)
four true b c d h = cc
four false true c d h = cc
four false false true d h = cc
four false false false true h = cc

not-false : (b : Bool) → not b ≡ false → b ≡ true
not-false true h = refl
not-false false h = cc

nothing : (xs : List String) → not (is_nil xs) ≡ false → xs ≡ []
nothing [] h = refl
nothing (x ∷ xs) h = cc

no_count : (n : ℕ) → not (eqb n 0) ≡ false → n ≡ 0
no_count n h = ground arith

abbrev Whole : List (Bool × Finding) → Type 0
Whole [] = Unit
Whole ((b, f) ∷ rest) = (f.partial ≡ false) × Whole rest

selected-Whole :
    (tests : List (Bool × Finding)) → Whole tests → any_of (λ f. f.partial) (selected tests) ≡ false
unfolding selected
selected-Whole [] h = refl
selected-Whole ((true, f) ∷ rest) (e, h) = rw e (selected-Whole rest h)
selected-Whole ((false, f) ∷ rest) (e, h) = selected-Whole rest h

whole_findings : (r : Reading) (run : Bool) → any_of (λ f. f.partial) (findings_of r run) ≡ false
unfolding findings_of tests_of
whole_findings r run = selected-Whole (tests_of r run) (refl, (refl, (refl, (refl, (refl, tt)))))

inspection-Checked :
    (path : String) (z : Sizes) (r : Reading) (run : Bool) (a : Aggregates)
    → Checked (inspection_of path z r run a)
unfolding inspection_of is_partial
inspection-Checked path z r run a = record {
  checked = λ h.
      let (healthy, supported, altered, unexpected) = four _ _ _ _ h in
      (
        refl,
        ap (λ b. some b) (not-false r.healthy healthy),
        not-false (schema_supported (names_of r)) supported,
        nothing r.triggers.altered altered,
        no_count r.triggers.unexpected unexpected,
        rw (h, whole_findings r run) refl,
      );
}

failure-Checked :
    (path : String) (z : Sizes) (f : Failure)
    → (f.status == "ok") ≡ false
    → Checked (failure_of path z f)
unfolding failure_of
failure-Checked path z f e = record {
  checked = λ h. absurd (clash (subst (λ t. (t == "ok") ≡ false) h e));
}
  where
    clash : true ≡ false → ⊥
    clash e = cc

module _ (host : Host) where
  failed-Checked :
      (path : String) (f : Failure)
      → (f.status == "ok") ≡ false
      → Yields Checked (failed_inspection host path f)
  unfolding failed_inspection
  failed-Checked path f e =
      Yields-bind Checked _ _
        (λ z. Yields-pure Checked (failure_of path z f) (failure-Checked path z f e))

  chosen_failure : (b : Bool) → ((if b then wal_failure else read_failure).status == "ok") ≡ false
  chosen_failure true = refl
  chosen_failure false = refl

  on_error-Checked : (path : String) (e : Exn) → Yields Checked (on_error host path e)
  unfolding on_error
  on_error-Checked path e =
      Yields-if Checked _ _ _
        (Yields-bind Checked (call (Request.is_readonly_cantinit e)) _
          (λ b. failed-Checked path (if b then wal_failure else read_failure) (chosen_failure b)))
        (Yields-if Checked _ _ _ (failed-Checked path read_failure refl) (Yields-raise Checked e))

  open-Checked :
      (path : String) (full : Bool) (z : Sizes) → Yields Checked (inspect_open host path full z)
  unfolding inspect_open
  open-Checked path full z = Yields-bind Checked _ _ (λ r.
      Yields-bind Checked _ _
        (λ a. Yields-pure Checked (inspection_of path z r _ a) (inspection-Checked path z r _ a)))

  file-Checked :
      (path : String) (full : Bool) (z : Sizes) → Yields Checked (inspect_file host path full z)
  unfolding inspect_file
  file-Checked path full z = Yields-bind Checked _ _ by_opened
    where
      guarded : M DatabaseInspection
      guarded = catch (inspect_open host path full z) (on_error host path)

      read : M DatabaseInspection
      read = attempt guarded >>= λ result. call (Request.close Conn.reader) >> return result

      by_opened :
          (o : Outcome (Unit {0}))
          → Yields Checked (elim o [ raised e ↦ on_error host path e | ok _ ↦ read ])
      by_opened (raised e) = on_error-Checked path e
      by_opened (ok u) =
          Yields-bind_with Checked (Holds Checked) (attempt guarded) _
            (Yields-attempt Checked guarded (
              Yields-catch Checked (inspect_open host path full z) (on_error host path)
                (open-Checked path full z) (on_error-Checked path)))
            (λ o h. Yields-bind Checked _ _ (λ _. Yields-return Checked o h))

  inspect-Checked : (path : String) (full : Bool) → Yields Checked (inspect_database host path full)
  unfolding inspect_database
  inspect-Checked path full = Yields-bind Checked _ _ (λ expanded.
      Yields-bind Checked _ _ (λ database. Yields-bind Checked _ _ (λ there.
        Yields-if Checked there _ _ (Yields-bind Checked _ _ (λ z. file-Checked database full z))
          (failed-Checked database not_found refl))))

  -- An inspection with the status "ok" found the file, a healthy quick_check, a supported schema, and
  -- no altered and no unexpected trigger with the doctor's prefix, and is not partial.
  pub inspect_database-Healthy :
      (path : String) (full : Bool) (env : Env) (w : World) (i : DatabaseInspection)
      → (inspect_database host path full env w).0 ≡ ok i
      → i.status ≡ "ok"
      → Healthy i
  inspect_database-Healthy path full env w i e h =
      ((inspect-Checked path full).at env w i e).checked h
