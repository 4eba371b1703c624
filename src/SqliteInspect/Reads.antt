-- ===== src/SqliteInspect/Reads.antt =====
-- sqlite_inspect.py: the sizes of the files, and the readings and aggregates of the logs table.
use codex_storage_doctor.Prelude.{
  ℕ, String, ◌<>◌, ◌==◌, Bool, false, Option, none, some, List, [], ◌∷◌, contains, map,
  if◌then◌else◌,
}
use codex_storage_doctor.Json.{ℤ, pos, Json, is_text}
use codex_storage_doctor.Errors.{is_os}
use codex_storage_doctor.Host.{Host}
use codex_storage_doctor.Effects.{Conn, ColumnRow, Request, M, pure, raise, call, ◌>>=◌, catch}
use codex_storage_doctor.Models.Inspection.{known_levels, SchemaColumn, LevelAggregate}

-- 256 * 1024 * 1024
abbrev pub full_scan_threshold_bytes : ℕ
full_scan_threshold_bytes = 268435456

unfoldable pub size : String → M ℕ
unfolding is_os
size path =
    catch (do s ← call (Request.stat path); pure s.size) (λ e. if is_os e then pure 0 else raise e)

pub record Sizes : Type 0 where
  pub database : ℕ
  pub wal : ℕ
  pub shm : ℕ

unfoldable pub sizes : Host → String → M Sizes
unfolding size
sizes host path = do
  d ← size path
  w ← size (host.path (path <> "-wal"))
  s ← size (host.path (path <> "-shm"))
  pure (record { database = d; wal = w; shm = s })

-- A row of `table_info` as a column.
unfoldable pub column_of : ColumnRow → SchemaColumn
column_of r = record {
  name = r.name;
  declared_type = elim r.declared_type [ none ↦ "" | some s ↦ s ];
  not_null = r.not_null;
  primary_key_position = r.primary_key_position;
}

-- `bool(row and row[0] == "ok")`
unfoldable pub is_healthy : Option Json → Bool
unfolding is_text
is_healthy none = false
is_healthy (some v) = is_text "ok" v

unfoldable pub sequence_of : Conn → M (Option ℤ)
sequence_of conn = do
  there ← call (Request.has_sequence conn)
  if there then call (Request.sequence_row conn) else pure none

-- `by_level.get(level, (0, 0))`, where the dict keeps the last row of a level.
last_of : String → List (String × ℤ × ℤ) → ℤ × ℤ → ℤ × ℤ
last_of level [] found = found
last_of level ((l, rows, bytes) ∷ rest) found =
    last_of level rest (if l == level then (rows, bytes) else found)

aggregates_of : List (String × ℤ × ℤ) → List LevelAggregate
unfolding last_of
aggregates_of rows =
    map
      (λ level.
        let found = last_of level rows (pos 0, pos 0) in
        record { level = level; rows = found.0; estimated_bytes = found.1 })
      known_levels

pub record Aggregates : Type 0 where
  pub row_count : Option ℤ
  pub max_id : Option ℤ
  pub estimated_bytes : Option ℤ
  pub levels : List LevelAggregate

unfoldable pub full_aggregates : Conn → List String → M Aggregates
unfolding aggregates_of
full_aggregates conn columns = do
  counts ← call (Request.count_row conn)
  let has_bytes = contains columns "estimated_bytes"
  total ← if has_bytes then (call (Request.byte_sum conn) >>= λ n. pure (some n)) else pure none
  rows ← call (Request.level_rows conn has_bytes)
  pure (record {
    row_count = some counts.0;
    max_id = counts.1;
    estimated_bytes = total;
    levels = aggregates_of rows;
  })

abbrev pub no_aggregates : Aggregates
no_aggregates = record { row_count = none; max_id = none; estimated_bytes = none; levels = [] }
