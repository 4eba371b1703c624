-- ===== src/SqliteInspect/Triggers.antt =====
-- sqlite_inspect.py: the count of the doctor's triggers, `_doctor_triggers`.
use Prim.Native.Nat.{Ordering}
use Prim.Native.String.{compare}
use codex_storage_doctor.Prelude.{
  ℕ, suc, String, ◌==◌, ◌&&◌, Option, none, some, List, [], ◌∷◌, keep_if, if◌then◌else◌,
}
use codex_storage_doctor.Effects.{Row}
use codex_storage_doctor.Planning.Modes.{
  balanced, maximum, trigger_names, trigger_sql, normalize_sql,
}
use codex_storage_doctor.Planning.Schema.{is_doctor, is_trigger}

-- `expected_by_name.get(name)`
unfoldable pub expected_sql : String → Option String
unfolding trigger_names trigger_sql normalize_sql
expected_sql name =
    if name == trigger_names balanced
    then some (normalize_sql (trigger_sql balanced))
    else if name == trigger_names maximum
    then some (normalize_sql (trigger_sql maximum))
    else none

unfoldable pub insert_row : Row → List Row → List Row
insert_row x [] = x ∷ []
insert_row x (y ∷ ys) =
    let later = insert_row x ys in
    elim (compare x.name y.name) [ Ordering.gt ↦ y ∷ later | _ ↦ x ∷ y ∷ ys ]

-- `ORDER BY name`
unfoldable pub sort_rows : List Row → List Row
unfolding insert_row
sort_rows [] = []
sort_rows (r ∷ rs) = insert_row r (sort_rows rs)

-- The doctor's triggers: with the expected SQL, with another SQL, and the number of unexpected ones.
pub record Triggers : Type 0 where
  pub exact : List String
  pub altered : List String
  pub unexpected : ℕ

abbrev pub sql_of : Row → String
sql_of r = elim r.sql [ none ↦ "" | some s ↦ s ]

-- The count of one trigger, given the SQL that is expected under its name.
unfoldable pub count_trigger : Row → Option String → Triggers → Triggers
unfolding normalize_sql
count_trigger r none t = record t { unexpected = suc t.unexpected }
count_trigger r (some sql) t =
    if normalize_sql (sql_of r) == sql
    then record t { exact = r.name ∷ t.exact }
    else record t { altered = r.name ∷ t.altered }

unfoldable pub classify : List Row → Triggers
unfolding expected_sql count_trigger
classify [] = record { exact = []; altered = []; unexpected = 0 }
classify (r ∷ rs) = count_trigger r (expected_sql r.name) (classify rs)

unfoldable pub doctor_triggers : List Row → Triggers
unfolding classify sort_rows
doctor_triggers rows = classify (sort_rows (keep_if (λ r. is_trigger r && is_doctor r) rows))
