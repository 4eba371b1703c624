-- ===== src/Planning/Schema.antt =====
-- What planning.py and mitigation.py read of `sqlite_master`: the doctor's triggers, the triggers
-- on the table `logs`, the fingerprint of the rest of the schema, and the check of the table.
pub mod Base
use Prim.Native.Nat.{Ordering}
use Prim.Native.String.{compare}
use codex_storage_doctor.Prelude.{
  String, ◌==◌, ◌<>◌, starts_with, Bool, true, false, not, ◌&&◌, ◌||◌, Option, none, some, List, [],
  ◌∷◌, keep_if, any_of, contains, is_nil, if◌then◌else◌,
}
use codex_storage_doctor.Json.{Items, str, arr, nil, cons, end, field}
use codex_storage_doctor.Errors.{plan_error}
use codex_storage_doctor.Host.{Host}
use codex_storage_doctor.Effects.{Conn, Row, Request, M, pure, call, ◌>>=◌, ◌>>◌, refuse_if}
use codex_storage_doctor.Planning.Modes.{doctor_trigger_prefix, normalize_sql, mode_of}

-- `COALESCE(sql, '')`
abbrev sql_text : Row → String
sql_text r = elim r.sql [ none ↦ "" | some s ↦ s ]

-- `name GLOB 'codex_storage_doctor_v1_*'`
abbrev pub is_doctor : Row → Bool
is_doctor r = starts_with r.name doctor_trigger_prefix

abbrev pub is_trigger : Row → Bool
is_trigger r = r.kind == "trigger"

abbrev is_reported_kind : Row → Bool
is_reported_kind r = r.kind == "table" || r.kind == "index" || r.kind == "trigger"

-- Triggers by name, as the dict comprehension builds them: a later row of a name replaces the value.
abbrev pub Triggers : Type 0
Triggers = List (String × String)

unfoldable pub put_trigger : String → String → Triggers → Triggers
put_trigger name sql [] = (name, sql) ∷ []
put_trigger name sql ((n, s) ∷ rest) =
    if n == name then (n, sql) ∷ rest else (n, s) ∷ put_trigger name sql rest

to_triggers : List Row → Triggers → Triggers
unfolding put_trigger normalize_sql
to_triggers [] acc = acc
to_triggers (r ∷ rows) acc = to_triggers rows (put_trigger r.name (normalize_sql (sql_text r)) acc)

unfoldable pub doctor_triggers : List Row → Triggers
unfolding to_triggers
doctor_triggers rows = to_triggers (keep_if (λ r. is_trigger r && is_doctor r) rows) []

unfoldable pub log_triggers : List Row → Triggers
unfolding to_triggers
log_triggers rows = to_triggers (keep_if (λ r. is_trigger r && (r.table == "logs")) rows) []

-- `triggers.get(name)`
unfoldable pub find_trigger : String → Triggers → Option String
find_trigger name [] = none
find_trigger name ((n, s) ∷ rest) = if n == name then some s else find_trigger name rest

-- `triggers == {name: sql}`
unfoldable pub is_exactly : String → String → Triggers → Bool
is_exactly name sql [] = false
is_exactly name sql ((n, s) ∷ []) = (n == name) && (s == sql)
is_exactly name sql (_ ∷ _ ∷ _) = false

-- The entries with another name or another SQL.
unfoldable pub conflicting : String → String → Triggers → Triggers
conflicting name sql = keep_if (λ (n, s). not (n == name) || not (s == sql))

-- `ORDER BY type, name`
comes_before : Row → Row → Bool
comes_before a b = elim (compare a.kind b.kind) [
  | Ordering.lt ↦ true
  | Ordering.eq ↦ elim (compare a.name b.name) [ Ordering.gt ↦ false | _ ↦ true ]
  | Ordering.gt ↦ false
]

insert_row : Row → List Row → List Row
unfolding comes_before
insert_row r [] = r ∷ []
insert_row r (q ∷ rows) = if comes_before r q then r ∷ q ∷ rows else q ∷ insert_row r rows

sort_rows : List Row → List Row
unfolding insert_row
sort_rows [] = []
sort_rows (r ∷ rows) = insert_row r (sort_rows rows)

rows_json : List Row → Items
unfolding normalize_sql
rows_json [] = nil
rows_json (r ∷ rows) =
    cons
      (arr (
        cons (str r.kind)
          (cons (str r.name) (cons (str r.table) (cons (str (normalize_sql (sql_text r))) nil)))))
      (rows_json rows)

-- The rows that the fingerprint covers.
unfoldable pub base_rows : List Row → List Row
base_rows = keep_if (λ r. is_reported_kind r && not (is_doctor r))

module _ (host : Host) where
  unfoldable pub fingerprint : List Row → String
  unfolding base_rows sort_rows rows_json
  fingerprint rows =
      host.sha256 (host.dumps (field "schema" (arr (rows_json (sort_rows (base_rows rows)))) end))

  unfoldable pub schema_fingerprint_connection : Conn → M String
  unfolding fingerprint
  schema_fingerprint_connection conn = do rows ← call (Request.master conn); pure (fingerprint rows)

unfoldable pub doctor_triggers_connection : Conn → M Triggers
unfolding doctor_triggers
doctor_triggers_connection conn = do rows ← call (Request.master conn); pure (doctor_triggers rows)

unfoldable pub log_triggers_connection : Conn → M Triggers
unfolding log_triggers
log_triggers_connection conn = do rows ← call (Request.master conn); pure (log_triggers rows)

abbrev pub is_none {ℓ} : {A : Type ℓ} → Option A → Bool
is_none none = true
is_none (some _) = false

-- schema.py
abbrev pub required_log_columns : List String
required_log_columns =
    "estimated_bytes" ∷ "file" ∷ "id" ∷ "level" ∷ "line" ∷ "module_path" ∷ "process_uuid" ∷ "target"
    ∷ "thread_id" ∷ "ts" ∷ "ts_nanos" ∷ []

abbrev pub body_columns : List String
body_columns = "message" ∷ "feedback_log_body" ∷ []

join_commas : List String → String
join_commas [] = ""
join_commas (s ∷ []) = s
join_commas (s ∷ t ∷ rest) = s <> (", " <> join_commas (t ∷ rest))

abbrev pub has_logs_table : List Row → Bool
has_logs_table = any_of (λ r. (r.kind == "table") && (r.name == "logs"))

abbrev pub missing_columns : List String → List String
missing_columns columns = keep_if (λ c. not (contains columns c)) required_log_columns

unfoldable pub validate_log_schema : Conn → String → M (List String)
unfolding join_commas mode_of
validate_log_schema conn mode = do
  refuse_if (is_none (mode_of mode)) (plan_error ("unsupported mitigation mode: " <> mode))
  rows ← call (Request.master conn)
  refuse_if (not (has_logs_table rows))
      (plan_error "unsupported database: required logs table is absent")
  columns ← call (Request.table_info conn)
  refuse_if (not (is_nil (missing_columns columns))) (
      plan_error
        ("unsupported logs schema; missing columns: " <> join_commas (missing_columns columns)))
  refuse_if (not (any_of (contains columns) body_columns))
      (plan_error "unsupported logs schema; no recognized diagnostic body column")
  pure columns
