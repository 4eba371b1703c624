-- ===== src/Sampling.antt =====
-- sampling.py: two observations of a database with a pause between them. The inspection and the
-- process scan are the caller's functions, as in the source.
pub mod Delta
pub mod Laws
use codex_storage_doctor.Prelude.{
  String, ◌==◌, Bool, true, false, not, ◌&&◌, ◌||◌, Option, none, some, List, [], ◌∷◌, ◌++◌, map,
  leb, is_nil, any_of, contains, if◌then◌else◌,
}
use codex_storage_doctor.Json.{ℤ, pos, negsuc}
use codex_storage_doctor.Int.{sub}
use codex_storage_doctor.Errors.{value_error}
use codex_storage_doctor.Effects.{Request, M, pure, call, ◌>>=◌, ◌>>◌, refuse_if}
use codex_storage_doctor.Models.{Finding, Severity}
use codex_storage_doctor.Models.Scan.{ProcessScan, total_write_bytes, codex_running}
use codex_storage_doctor.Models.Inspection.{DatabaseInspection, LevelAggregate, known_levels}
use codex_storage_doctor.Models.Sample.{LogicalSnapshot, SampleDelta, SampleResult}

unfoldable pub snapshot : DatabaseInspection → ProcessScan → LogicalSnapshot
unfolding total_write_bytes
snapshot inspection scan = record {
  database_size_bytes = inspection.database_size_bytes;
  wal_size_bytes = inspection.wal_size_bytes;
  shm_size_bytes = inspection.shm_size_bytes;
  row_count = inspection.row_count;
  max_id = inspection.max_id;
  sqlite_sequence = inspection.sqlite_sequence;
  estimated_bytes = inspection.estimated_bytes;
  levels = inspection.level_aggregates;
  process_write_bytes = total_write_bytes scan;
}

unfoldable pub optional_delta : Option ℤ → Option ℤ → Option ℤ
unfolding sub
optional_delta none after = none
optional_delta (some before) none = none
optional_delta (some before) (some after) = some (sub after before)

-- `by_level.get(level, LevelAggregate(level, 0, 0))`, where the dict keeps the last aggregate of a
-- level.
unfoldable pub of_level : String → List LevelAggregate → LevelAggregate → LevelAggregate
of_level level [] found = found
of_level level (a ∷ more) found = of_level level more (if a.level == level then a else found)

unfoldable pub level_or_zero : String → List LevelAggregate → LevelAggregate
unfolding of_level
level_or_zero level aggregates =
    of_level level aggregates (record { level = level; rows = pos 0; estimated_bytes = pos 0 })

unfoldable pub level_delta : List LevelAggregate → List LevelAggregate → List LevelAggregate
unfolding level_or_zero sub
level_delta before after =
    if is_nil before || is_nil after
    then []
    else map
        (λ level. record {
          level = level;
          rows = sub (level_or_zero level after).rows (level_or_zero level before).rows;
          estimated_bytes =
              sub (level_or_zero level after).estimated_bytes
                (level_or_zero level before).estimated_bytes;
        })
        known_levels

unfoldable pub delta : LogicalSnapshot → LogicalSnapshot → SampleDelta
unfolding optional_delta level_delta sub
delta before after = record {
  database_size_bytes = sub (pos after.database_size_bytes) (pos before.database_size_bytes);
  wal_size_bytes = sub (pos after.wal_size_bytes) (pos before.wal_size_bytes);
  shm_size_bytes = sub (pos after.shm_size_bytes) (pos before.shm_size_bytes);
  row_count = optional_delta before.row_count after.row_count;
  max_id = optional_delta before.max_id after.max_id;
  sqlite_sequence = optional_delta before.sqlite_sequence after.sqlite_sequence;
  estimated_bytes = optional_delta before.estimated_bytes after.estimated_bytes;
  levels = level_delta before.levels after.levels;
  process_write_bytes = optional_delta before.process_write_bytes after.process_write_bytes;
}

-- The process scan of the caller: a scan, or a function that gives one. The default,
-- `scan_codex_processes`, is such a function.
pub data ScanSource : Type 0 where
  given : ProcessScan → ScanSource
  by_function : (List String → M ProcessScan) → ScanSource

unfoldable pub get_scan : ScanSource → String → M ProcessScan
get_scan (given scan) path = pure scan
get_scan (by_function f) path = f (path ∷ [])

unfoldable pub is_negative : ℤ → Bool
is_negative (pos n) = false
is_negative (negsuc n) = true

unfoldable pub exceeds_a_day : ℤ → Bool
exceeds_a_day (pos n) = not (leb n 86400)
exceeds_a_day (negsuc n) = false

abbrev pub unavailable_aggregates : Finding
unavailable_aggregates = record {
  code = "sample_logical_aggregates_unavailable";
  message =
      "One or more logical aggregate snapshots were unavailable; the bounded sample is incomplete.";
  severity = Severity.warning;
  partial = true;
}

unfoldable pub is_limited : String → Bool
is_limited status = status == "partial" || status == "unsupported"

-- The status of the sample, from those of the two inspections and of the two scans.
unfoldable pub status_of : String → String → String → String → String
unfolding is_limited
status_of inspected again scanned rescanned =
    if inspected == "error" || again == "error"
    then "error"
    else if any_of is_limited (inspected ∷ again ∷ scanned ∷ rescanned ∷ [])
    then "partial"
    else "ok"

-- The result, from the two inspections and the two scans.
unfoldable pub result_of :
    String → ℤ → DatabaseInspection → ProcessScan → DatabaseInspection → ProcessScan → SampleResult
unfolding snapshot delta status_of codex_running
result_of path seconds before_inspection before_scan after_inspection after_scan =
    let status =
      status_of before_inspection.status after_inspection.status before_scan.status
        after_scan.status in
    let lacking =
      not before_inspection.full_scan_performed || not after_inspection.full_scan_performed in
    let before = snapshot before_inspection before_scan in
    let after = snapshot after_inspection after_scan in
    record {
      status = if lacking && status == "ok" then "partial" else status;
      requested_seconds = seconds;
      before = before;
      after = after;
      delta = delta before after;
      codex_process_observed = codex_running before_scan || codex_running after_scan;
      target_open_by_codex =
          contains before_scan.open_database_paths path
          || contains after_scan.open_database_paths path;
      findings =
          before_inspection.findings
          ++ (after_inspection.findings
              ++ (before_scan.findings
                  ++ (after_scan.findings
                      ++ (if lacking then unavailable_aggregates ∷ [] else []))));
    }

unfoldable pub sample_database :
    String → ℤ → ScanSource → Bool → (String → Bool → M DatabaseInspection) → M SampleResult
unfolding refuse_if is_negative exceeds_a_day get_scan result_of
sample_database path seconds source full_scan inspect_fn = do
  refuse_if (is_negative seconds) (value_error "sample seconds must be non-negative")
  refuse_if (exceeds_a_day seconds) (value_error "sample seconds exceed the one-day safety bound")
  expanded ← call (Request.expand_user path)
  database_path ← call (Request.absolute expanded)
  before_inspection ← inspect_fn database_path full_scan
  before_scan ← get_scan source database_path
  call (Request.sleep seconds)
  after_inspection ← inspect_fn database_path full_scan
  after_scan ← get_scan source database_path
  pure (result_of database_path seconds before_inspection before_scan after_inspection after_scan)
