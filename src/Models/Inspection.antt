-- ===== src/Models/Inspection.antt =====
-- SchemaColumn, LevelAggregate and DatabaseInspection of models.py.
use codex_storage_doctor.Prelude.{
  ℕ, String, ◌==◌, Bool, true, false, not, ◌||◌, Option, List, [], ◌∷◌, length, keep_if, any_of,
  contains, if◌then◌else◌,
}
use codex_storage_doctor.Text.{strip, upper}
use codex_storage_doctor.Json.{ℤ, Json, Fields, bool, num, str, obj, end, field}
use codex_storage_doctor.Planning.Schema.{required_log_columns, body_columns}
use codex_storage_doctor.Models.{Finding, finding_dict, list_of, texts, optional, natural}

abbrev pub known_levels : List String
known_levels = "TRACE" ∷ "DEBUG" ∷ "INFO" ∷ "WARN" ∷ "ERROR" ∷ "OTHER" ∷ []

-- `name in REPORTABLE_SCHEMA_COLUMNS`
unfoldable pub is_reportable_column : String → Bool
is_reportable_column name = contains required_log_columns name || contains body_columns name

abbrev pub reportable_sqlite_types : List String
reportable_sqlite_types = "" ∷ "BLOB" ∷ "INTEGER" ∷ "NUMERIC" ∷ "REAL" ∷ "TEXT" ∷ []

pub record SchemaColumn : Type 0 where
  pub name : String
  pub declared_type : String
  pub not_null : Bool
  pub primary_key_position : ℤ

unfoldable pub column_dict : SchemaColumn → Json
unfolding is_reportable_column strip upper
column_dict c =
    let declared = upper (strip c.declared_type) in
    obj (
      field "name" (str (if is_reportable_column c.name then c.name else "UNRECOGNIZED")) (
        field "declared_type"
          (str (if contains reportable_sqlite_types declared then declared else "OTHER"))
          (field "not_null" (bool c.not_null)
            (field "primary_key_position" (num c.primary_key_position) end))))

pub record LevelAggregate : Type 0 where
  pub level : String
  pub rows : ℤ
  pub estimated_bytes : ℤ

unfoldable pub aggregate_dict : LevelAggregate → Json
aggregate_dict a = obj (
    field "level" (str a.level)
      (field "rows" (num a.rows) (field "estimated_bytes" (num a.estimated_bytes) end)))

pub record DatabaseInspection : Type 0 where
  pub path : String
  pub status : String
  pub exists : Bool
  pub database_size_bytes : ℕ
  pub wal_size_bytes : ℕ
  pub shm_size_bytes : ℕ
  pub quick_check_ok : Option Bool
  pub schema_supported : Bool
  pub schema_columns : List SchemaColumn
  pub doctor_triggers : List String
  pub altered_doctor_triggers : List String
  pub unexpected_doctor_trigger_count : ℕ
  pub full_scan_performed : Bool
  pub row_count : Option ℤ
  pub max_id : Option ℤ
  pub sqlite_sequence : Option ℤ
  pub estimated_bytes : Option ℤ
  pub level_aggregates : List LevelAggregate
  pub findings : List Finding
  pub report_id : String

unfoldable pub is_partial : DatabaseInspection → Bool
is_partial i = i.status == "partial" || any_of (λ f. f.partial) i.findings

unfoldable pub inspection_dict : Bool → DatabaseInspection → Fields
unfolding is_partial is_reportable_column column_dict aggregate_dict list_of texts optional natural
    finding_dict
inspection_dict reveal_paths i = field "id" (str i.report_id) (
    field "status" (str i.status) (
      field "partial" (bool (is_partial i)) (
        field "exists" (bool i.exists) (
          field "database_size_bytes" (natural i.database_size_bytes) (
            field "wal_size_bytes" (natural i.wal_size_bytes) (
              field "shm_size_bytes" (natural i.shm_size_bytes) (
                field "quick_check_ok" (optional (λ b. bool b) i.quick_check_ok)
                  (field "schema_supported" (bool i.schema_supported) (schema_part)))))))))
  where
    unrecognized : List SchemaColumn
    unrecognized = keep_if (λ c. not (is_reportable_column c.name)) i.schema_columns

    known : List SchemaColumn
    known = keep_if (λ c. is_reportable_column c.name) i.schema_columns

    counts : Fields
    counts = field "row_count" (optional (λ n. num n) i.row_count) (
        field "max_id" (optional (λ n. num n) i.max_id) (
          field "sqlite_sequence" (optional (λ n. num n) i.sqlite_sequence) (
            field "estimated_bytes" (optional (λ n. num n) i.estimated_bytes) (
              field "level_aggregates" (list_of aggregate_dict i.level_aggregates) (
                field "findings" (list_of finding_dict i.findings) (elim reveal_paths [
                  | true ↦ field "revealed_path" (str i.path) end
                  | false ↦ end
                ]))))))

    schema_part : Fields
    schema_part = field "schema_column_count" (natural (length i.schema_columns)) (
        field "unrecognized_schema_column_count" (natural (length unrecognized)) (
          field "schema_columns" (list_of column_dict known) (
            field "doctor_triggers" (texts i.doctor_triggers) (
              field "altered_doctor_triggers" (texts i.altered_doctor_triggers) (
                field "unexpected_doctor_trigger_count" (natural i.unexpected_doctor_trigger_count)
                  (field "full_scan_performed" (bool i.full_scan_performed) counts))))))
