-- ===== src/SqliteInspect/Results.antt =====
-- sqlite_inspect.py: the result of an inspection, with its findings, and of a failed one.
use codex_storage_doctor.Prelude.{
  String, Bool, true, false, not, ◌&&◌, ◌||◌, Option, none, some, List, [], ◌∷◌, eqb, any_of,
  contains, is_nil, map, if◌then◌else◌,
}
use codex_storage_doctor.Json.{ℤ}
use codex_storage_doctor.Models.{Finding, Severity}
use codex_storage_doctor.Models.Inspection.{SchemaColumn, DatabaseInspection}
use codex_storage_doctor.Planning.Schema.{body_columns, missing_columns}
use codex_storage_doctor.SqliteInspect.Reads.{Sizes, Aggregates}
use codex_storage_doctor.SqliteInspect.Triggers.{Triggers}

abbrev problem : String → String → Finding
problem code text = record {
  code = code;
  message = text;
  severity = Severity.error;
  partial = false;
}

-- What one inspection has read before the aggregates.
pub record Reading : Type 0 where
  pub healthy : Bool
  pub columns : List SchemaColumn
  pub triggers : Triggers
  pub sequence : Option ℤ

unfoldable pub schema_supported : List String → Bool
schema_supported names = is_nil (missing_columns names) && any_of (contains names) body_columns

unfoldable pub names_of : Reading → List String
names_of r = map (λ c. c.name) r.columns

-- The findings whose tests hold.
unfoldable pub selected : List (Bool × Finding) → List Finding
selected [] = []
selected ((b, f) ∷ rest) = let later = selected rest in if b then f ∷ later else later

abbrev scan_skipped : Finding
scan_skipped = record {
  code = "full_scan_skipped";
  message =
      "Row and level aggregates were skipped because the database exceeds the 256 MiB default threshold.";
  severity = Severity.info;
  partial = false;
}

-- The tests of an inspection, each with its finding.
unfoldable pub tests_of : Reading → Bool → List (Bool × Finding)
unfolding schema_supported names_of
tests_of r run =
    (
      not r.healthy,
      problem "quick_check_failed" "SQLite quick_check did not report a healthy database.",
    )
    ∷ (
      not (schema_supported (names_of r)),
      problem "unsupported_logs_schema"
          "The logs table is absent or lacks required metadata columns.",
    )
    ∷ (
      not (is_nil r.triggers.altered),
      problem "doctor_trigger_sql_mismatch"
          "A doctor-named trigger exists but its SQL does not match the built-in mitigation definition.",
    )
    ∷ (
      not (eqb r.triggers.unexpected 0),
      problem "unexpected_doctor_trigger"
          "An unexpected doctor-prefixed trigger exists. Its name and SQL were not included in this report.",
    )
    ∷ (not run && schema_supported (names_of r), scan_skipped)
    ∷ []

unfoldable pub findings_of : Reading → Bool → List Finding
unfolding selected tests_of
findings_of r run = selected (tests_of r run)

-- The result of an inspection that nothing interrupted.
unfoldable pub inspection_of : String → Sizes → Reading → Bool → Aggregates → DatabaseInspection
unfolding findings_of schema_supported names_of
inspection_of path z r run a = record {
  path = path;
  status =
      if not r.healthy
        || not (schema_supported (names_of r))
        || not (is_nil r.triggers.altered)
        || not (eqb r.triggers.unexpected 0)
      then "error"
      else "ok";
  exists = true;
  database_size_bytes = z.database;
  wal_size_bytes = z.wal;
  shm_size_bytes = z.shm;
  quick_check_ok = some r.healthy;
  schema_supported = schema_supported (names_of r);
  schema_columns = r.columns;
  doctor_triggers = r.triggers.exact;
  altered_doctor_triggers = r.triggers.altered;
  unexpected_doctor_trigger_count = r.triggers.unexpected;
  full_scan_performed = run;
  row_count = a.row_count;
  max_id = a.max_id;
  sqlite_sequence = r.sequence;
  estimated_bytes = a.estimated_bytes;
  level_aggregates = a.levels;
  findings = findings_of r run;
  report_id = "database";
}

-- What a failed inspection reports.
pub record Failure : Type 0 where
  pub status : String
  pub exists : Bool
  pub code : String
  pub message : String
  pub partial : Bool

unfoldable pub failure_of : String → Sizes → Failure → DatabaseInspection
failure_of path z f = record {
  path = path;
  status = f.status;
  exists = f.exists;
  database_size_bytes = z.database;
  wal_size_bytes = z.wal;
  shm_size_bytes = z.shm;
  quick_check_ok = none;
  schema_supported = false;
  schema_columns = [];
  doctor_triggers = [];
  altered_doctor_triggers = [];
  unexpected_doctor_trigger_count = 0;
  full_scan_performed = false;
  row_count = none;
  max_id = none;
  sqlite_sequence = none;
  estimated_bytes = none;
  level_aggregates = [];
  findings =
      record {
        code = f.code;
        message = f.message;
        severity = if f.partial then Severity.warning else Severity.error;
        partial = f.partial;
      }
      ∷ [];
  report_id = "database";
}

abbrev pub not_found : Failure
not_found = record {
  status = "error";
  exists = false;
  code = "database_not_found";
  message = "The selected diagnostic database does not exist.";
  partial = false;
}

abbrev pub wal_failure : Failure
wal_failure = record {
  status = "partial";
  exists = true;
  code = "wal_readonly_cantinit";
  message = "SQLite could not initialize read state for the WAL database; inspection is partial.";
  partial = true;
}

abbrev pub read_failure : Failure
read_failure = record {
  status = "error";
  exists = true;
  code = "sqlite_read_failed";
  message = "The diagnostic database could not be inspected read-only.";
  partial = false;
}
