-- ===== src/Models/Scan.antt =====
-- ProcessObservation and ProcessScan of models.py.
pub mod Gate
use codex_storage_doctor.Prelude.{
  String, ◌==◌, Bool, true, false, not, ◌&&◌, Option, none, some, List, [], ◌∷◌, ◌++◌, any_of,
  is_nil, if◌then◌else◌,
}
use codex_storage_doctor.Json.{ℤ, Json, Fields, bool, num, str, obj, pos, end, field}
use codex_storage_doctor.Int.{add}
use codex_storage_doctor.Models.{
  Finding, finding_dict, list_of, texts, optional, sorted_set, numbered,
}

pub record ProcessObservation : Type 0 where
  pub pid : ℤ
  pub surface : String
  pub executable_basename : String
  pub is_codex : Bool
  pub open_database_ids : List String
  pub write_bytes : Option ℤ

pub record ProcessScan : Type 0 where
  pub status : String
  pub observations : List ProcessObservation
  pub open_database_paths : List String
  pub held_database_paths : List String
  pub handle_evidence_supported : Bool
  pub findings : List Finding

unfoldable pub observation_dict : ProcessObservation → Json
unfolding texts optional
observation_dict o = obj (
    field "pid" (num o.pid) (
      field "surface" (str o.surface) (
        field "executable_basename" (str o.executable_basename) (
          field "is_codex" (bool o.is_codex) (
            field "open_database_ids" (texts o.open_database_ids)
              (field "write_bytes" (optional (λ n. num n) o.write_bytes) end))))))

unfoldable pub codex_running : ProcessScan → Bool
codex_running s = any_of (λ o. o.is_codex) s.observations

-- The byte counts of the Codex processes that have one.
codex_write_bytes : List ProcessObservation → List ℤ
codex_write_bytes [] = []
codex_write_bytes (o ∷ os) =
    let rest = codex_write_bytes os in
    elim o.write_bytes [ none ↦ rest | some n ↦ if o.is_codex then n ∷ rest else rest ]

sum : List ℤ → ℤ
unfolding add
sum [] = pos 0
sum (n ∷ ns) = add n (sum ns)

unfoldable pub total_write_bytes : ProcessScan → Option ℤ
unfolding codex_write_bytes sum
total_write_bytes s =
    let values = codex_write_bytes s.observations in
    if is_nil values then none else some (sum values)

-- The ids of the databases that the observations name; of those of Codex alone, for `only_codex`.
unfoldable pub ids_of : Bool → List ProcessObservation → List String
ids_of only_codex [] = []
ids_of only_codex (o ∷ os) =
    let rest = ids_of only_codex os in
    if only_codex && not o.is_codex then rest else o.open_database_ids ++ rest

-- The ids, or numbered ids for the paths where there are paths but no ids.
unfoldable pub ids_or_numbered : String → List String → List String → List String
unfolding numbered
ids_or_numbered label paths [] = numbered label 1 paths
ids_or_numbered label paths (i ∷ ids) = i ∷ ids

unfoldable pub scan_to_dict : ProcessScan → Fields
unfolding codex_running ids_of sorted_set ids_or_numbered list_of texts observation_dict
    finding_dict
scan_to_dict s = field "status" (str s.status) (
    field "complete" (bool (s.status == "ok" && s.handle_evidence_supported)) (
      field "codex_running" (bool (codex_running s)) (
        field "handle_evidence_supported" (bool s.handle_evidence_supported) (
          field "observations" (list_of observation_dict s.observations) (
            field "processes" (list_of observation_dict s.observations) (
              field "open_database_paths"
                (texts (
                  ids_or_numbered "open-database-" s.open_database_paths
                    (sorted_set (ids_of true s.observations))))
                (field "held_database_paths"
                  (texts (
                    ids_or_numbered "held-database-" s.held_database_paths
                      (sorted_set (ids_of false s.observations))))
                  (field "findings" (list_of finding_dict s.findings) end))))))))
