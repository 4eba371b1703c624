-- ===== src/Models/Sample.antt =====
-- LogicalSnapshot, SampleDelta and SampleResult of models.py. The seconds of a sample are a whole
-- number, printed as it is.
use codex_storage_doctor.Prelude.{
  ℕ, String, Bool, false, not, ◌||◌, Option, none, some, List, [], ◌∷◌, any_of,
}
use codex_storage_doctor.Json.{ℤ, Fields, bool, num, str, obj, pos, end, field, eq_ℤ}
use codex_storage_doctor.Models.{Finding, finding_dict, list_of, optional, natural}
use codex_storage_doctor.Models.Inspection.{LevelAggregate, aggregate_dict}

pub record LogicalSnapshot : Type 0 where
  pub database_size_bytes : ℕ
  pub wal_size_bytes : ℕ
  pub shm_size_bytes : ℕ
  pub row_count : Option ℤ
  pub max_id : Option ℤ
  pub sqlite_sequence : Option ℤ
  pub estimated_bytes : Option ℤ
  pub levels : List LevelAggregate
  pub process_write_bytes : Option ℤ

unfoldable pub snapshot_dict : LogicalSnapshot → Fields
unfolding natural optional list_of aggregate_dict
snapshot_dict s = field "database_size_bytes" (natural s.database_size_bytes) (
    field "wal_size_bytes" (natural s.wal_size_bytes) (
      field "shm_size_bytes" (natural s.shm_size_bytes) (
        field "row_count" (optional (λ n. num n) s.row_count) (
          field "max_id" (optional (λ n. num n) s.max_id) (
            field "sqlite_sequence" (optional (λ n. num n) s.sqlite_sequence) (
              field "estimated_bytes" (optional (λ n. num n) s.estimated_bytes) (
                field "levels" (list_of aggregate_dict s.levels) (
                  field "process_write_bytes" (optional (λ n. num n) s.process_write_bytes)
                    end))))))))

pub record SampleDelta : Type 0 where
  pub database_size_bytes : ℤ
  pub wal_size_bytes : ℤ
  pub shm_size_bytes : ℤ
  pub row_count : Option ℤ
  pub max_id : Option ℤ
  pub sqlite_sequence : Option ℤ
  pub estimated_bytes : Option ℤ
  pub levels : List LevelAggregate
  pub process_write_bytes : Option ℤ

unfoldable pub delta_dict : SampleDelta → Fields
unfolding optional list_of aggregate_dict
delta_dict d = field "database_size_bytes" (num d.database_size_bytes) (
    field "wal_size_bytes" (num d.wal_size_bytes) (
      field "shm_size_bytes" (num d.shm_size_bytes) (
        field "row_count" (optional (λ n. num n) d.row_count) (
          field "max_id" (optional (λ n. num n) d.max_id) (
            field "sqlite_sequence" (optional (λ n. num n) d.sqlite_sequence) (
              field "estimated_bytes" (optional (λ n. num n) d.estimated_bytes) (
                field "levels" (list_of aggregate_dict d.levels) (
                  field "process_write_bytes" (optional (λ n. num n) d.process_write_bytes)
                    end))))))))

pub record SampleResult : Type 0 where
  pub status : String
  pub requested_seconds : ℤ
  pub before : LogicalSnapshot
  pub after : LogicalSnapshot
  pub delta : SampleDelta
  pub codex_process_observed : Bool
  pub target_open_by_codex : Bool
  pub findings : List Finding

-- `value not in (None, 0)`
unfoldable pub is_change : Option ℤ → Bool
unfolding eq_ℤ
is_change none = false
is_change (some n) = not (eq_ℤ n (pos 0))

unfoldable pub logical_change_observed : SampleResult → Bool
unfolding is_change
logical_change_observed r =
    let d = r.delta in
    any_of is_change (
      some d.database_size_bytes
      ∷ some d.wal_size_bytes
      ∷ d.row_count
      ∷ d.max_id
      ∷ d.sqlite_sequence
      ∷ d.estimated_bytes
      ∷ [])
    || any_of (λ l. is_change (some l.rows) || is_change (some l.estimated_bytes)) d.levels

unfoldable pub sample_dict : SampleResult → Fields
unfolding snapshot_dict delta_dict logical_change_observed list_of finding_dict
sample_dict r = field "status" (str r.status) (
    field "requested_seconds" (num r.requested_seconds) (
      field "codex_process_observed" (bool r.codex_process_observed) (
        field "target_open_by_codex" (bool r.target_open_by_codex) (
          field "logical_change_observed" (bool (logical_change_observed r)) (
            field "before" (obj (snapshot_dict r.before)) (
              field "after" (obj (snapshot_dict r.after)) (
                field "delta" (obj (delta_dict r.delta)) (
                  field "findings" (list_of finding_dict r.findings) (
                    field "bounded_observation"
                      (str
                        "This sample reports only changes observed during the bounded interval. It does not measure physical drive writes.")
                      end)))))))))
