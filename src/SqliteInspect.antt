-- ===== src/SqliteInspect.antt =====
-- sqlite_inspect.py: the read-only inspection of a log database. The rows that SQLite answers are
-- arbitrary; a sum of bytes is an int. That an OperationalError is SQLITE_READONLY_CANTINIT is a
-- request, since the error's attributes are the library's. A sqlite3.Error is a DatabaseError here.
pub mod Counted
pub mod Quiet
pub mod Reads
pub mod Results
pub mod Triggers
pub mod Verdict
use codex_storage_doctor.Prelude.{String, Bool, ◌&&◌, ◌||◌, none, leb, contains, map, if◌then◌else◌}
use codex_storage_doctor.Errors.{Exn, is_operational, is_sqlite}
use codex_storage_doctor.Host.{Host}
use codex_storage_doctor.Effects.{
  Conn, Request, ok, raised, M, pure, raise, call, ◌>>=◌, ◌>>◌, catch, attempt, return,
}
use codex_storage_doctor.Models.Inspection.{DatabaseInspection}
use codex_storage_doctor.SqliteInspect.Reads.{
  full_scan_threshold_bytes, Sizes, sizes, column_of, is_healthy, sequence_of, full_aggregates,
  no_aggregates,
}
use codex_storage_doctor.SqliteInspect.Results.{
  Reading, schema_supported, names_of, inspection_of, Failure, failure_of, not_found, wal_failure,
  read_failure,
}
use codex_storage_doctor.SqliteInspect.Triggers.{doctor_triggers}

module _ (host : Host) where
  failed_inspection : String → Failure → M DatabaseInspection
  unfolding sizes failure_of
  failed_inspection path f = do z ← sizes host path; pure (failure_of path z f)

  -- The `except` clauses
  on_error : String → Exn → M DatabaseInspection
  unfolding is_operational is_sqlite failed_inspection
  on_error path e =
      if is_operational e
      then (do
        partial ← call (Request.is_readonly_cantinit e)
        failed_inspection path (if partial then wal_failure else read_failure))
      else if is_sqlite e
      then failed_inspection path read_failure
      else raise e

  read_metadata : M Reading
  unfolding is_healthy column_of doctor_triggers sequence_of
  read_metadata = do
    call (Request.pragma Conn.reader "query_only = ON")
    check ← call (Request.quick_check Conn.reader)
    rows ← call (Request.table_columns Conn.reader)
    let columns = map column_of rows
    stored ← call (Request.master Conn.reader)
    sequence ←
        if contains (map (λ c. c.name) columns) "id" then sequence_of Conn.reader else pure none
    pure (record {
      healthy = is_healthy check;
      columns = columns;
      triggers = doctor_triggers stored;
      sequence = sequence;
    })

  inspect_open : String → Bool → Sizes → M DatabaseInspection
  unfolding read_metadata schema_supported names_of full_aggregates inspection_of
  inspect_open path full_scan z = do
    r ← read_metadata
    let run =
        schema_supported (names_of r) && (full_scan || leb z.database full_scan_threshold_bytes)
    a ← if run then full_aggregates Conn.reader (names_of r) else pure no_aggregates
    pure (inspection_of path z r run a)

  -- The `try` statement: the connection is closed where it was opened.
  inspect_file : String → Bool → Sizes → M DatabaseInspection
  unfolding inspect_open on_error
  inspect_file path full_scan z = do
    opened ← attempt (call (Request.connect Conn.reader path))
    elim opened [
      | raised e ↦ on_error path e
      | ok _ ↦ do
        result ← attempt (catch (inspect_open path full_scan z) (on_error path))
        call (Request.close Conn.reader)
        return result
    ]

  unfoldable pub inspect_database : String → Bool → M DatabaseInspection
  unfolding sizes failed_inspection inspect_file
  inspect_database path full_scan = do
    expanded ← call (Request.expand_user path)
    database ← call (Request.absolute expanded)
    there ← call (Request.is_file database)
    if there
        then (do z ← sizes host database; inspect_file database full_scan z)
        else failed_inspection database not_found
