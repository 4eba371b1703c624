-- ===== src/Tests/Machine.antt =====
-- A machine for the examples: path arithmetic, a hash and a printer, and replies for a database that
-- no process holds and whose trigger is there once a COMMIT has returned.
use codex_storage_doctor.Prelude.{
  String, ◌<>◌, starts_with, true, false, Option, none, some, List, [], ◌∷◌, map, if◌then◌else◌,
}
use codex_storage_doctor.Text.{is_hex}
use codex_storage_doctor.Text.Cut.{rpartition}
use codex_storage_doctor.Json.{pos, Fields, null, bool, str, arr, nil, end, field}
use codex_storage_doctor.Host.{Host}
use codex_storage_doctor.Effects.{Row, ColumnRow, Scanned, Request, ok, Trace, Env, World}
use codex_storage_doctor.Effects.Mutations.{mutations, has_committed}
use codex_storage_doctor.Planning.Modes.{balanced, trigger_names, trigger_sql}
use codex_storage_doctor.Planning.Schema.{required_log_columns}

abbrev pub zeros : String
zeros = "0000000000000000000000000000000000000000000000000000000000000000"

abbrev folder : Option (String × String) → String
folder none = "/"
folder (some (dir, name)) = dir

abbrev file : String → Option (String × String) → String
file path none = path
file path (some (dir, name)) = name

unfoldable pub machine : Host
unfolding rpartition
machine = record {
  sha256 = λ s. zeros;
  dumps = λ fs. "{}";
  render = λ fs. "{}\n";
  path = λ p. p;
  is_absolute = λ p. starts_with p "/";
  base_name = λ p. file p (rpartition "/" p);
  parent = λ p. folder (rpartition "/" p);
  join = λ a b. a <> ("/" <> b);
  normal = λ p. p;
  is_under = λ p m. starts_with p m;
  depth = λ p. 1;
  windows_drive = λ p. "";
  windows_anchor = λ p. none;
  normcase = λ p. p;
  windows_name = λ p. p;
  decode = λ s. none;
  is_word = is_hex;
}

abbrev pub logs_table : Row
logs_table = record {
  kind = "table";
  name = "logs";
  table = "logs";
  sql = some "CREATE TABLE logs";
}

unfoldable pub doctor_row : Row
unfolding trigger_names trigger_sql
doctor_row = record {
  kind = "trigger";
  name = trigger_names balanced;
  table = "logs";
  sql = some (trigger_sql balanced);
}

abbrev pub quiet_scan : Fields
quiet_scan = field "complete" (bool true) (field "processes" (arr nil) end)

unfoldable rows_after : Trace → List Row
unfolding doctor_row
rows_after t = if has_committed (mutations t) then logs_table ∷ doctor_row ∷ [] else logs_table ∷ []

abbrev plain_column : String → ColumnRow
plain_column name = record {
  name = name;
  declared_type = some "TEXT";
  not_null = false;
  primary_key_position = pos 0;
}

unfoldable pub answers : Env
unfolding rows_after
answers t (Request.expand_user p) = ok p
answers t (Request.resolve p) = ok p
answers t (Request.resolve_strict p) = ok p
answers t (Request.is_file p) = ok true
answers t (Request.exists p) = ok false
answers t (Request.stat p) = ok (record { size = 4096; mtime_ns = 5; device = 1; inode = 2 })
answers t Request.platform_system = ok "Linux"
answers t Request.os_is_nt = ok false
answers t Request.get_pid = ok 7
answers t Request.utc_slug = ok "20260101T000000Z"
answers t Request.utc_now = ok "2026-01-01T00:00:00Z"
answers t (Request.environ s) = ok none
answers t (Request.read_text p) = ok "1 0 8:1 / / rw - ext4 /dev/sda rw"
answers t (Request.read_json p) = ok null
answers t (Request.run_command c) = ok (record { returncode = pos 1; stdout = ""; stderr = "" })
answers t (Request.drive_type d) = ok none
answers t (Request.scan_keyword d) = ok (Scanned.dict quiet_scan)
answers t (Request.scan_positional d) = ok Scanned.nothing
answers t (Request.stat_mode p) = ok (
    if starts_with p "/d/.codex-storage-doctor/rollback/20260101T000000Z-00000000/l"
    then 0o600
    else 0o700)
answers t (Request.disk_free p) = ok 100000000
answers t (Request.sha256_file p) = ok zeros
answers t (Request.mkstemp a b) = ok "/tmp/t"
answers t (Request.quick_check c) = ok (some (str "ok"))
answers t (Request.master c) = ok (rows_after t)
answers t (Request.table_info c) = ok ("message" ∷ required_log_columns)
answers t (Request.make_dir a n) = ok tt
answers t (Request.make_dirs a n) = ok tt
answers t (Request.chmod a n) = ok tt
answers t (Request.write_file a b) = ok tt
answers t (Request.link a b) = ok tt
answers t (Request.rename a b) = ok tt
answers t (Request.replace a b) = ok tt
answers t (Request.unlink a) = ok tt
answers t (Request.connect c a) = ok tt
answers t (Request.pragma c a) = ok tt
answers t (Request.backup c d) = ok tt
answers t Request.begin_exclusive = ok tt
answers t Request.commit = ok tt
answers t Request.rollback_transaction = ok tt
answers t (Request.create_trigger s) = ok tt
answers t (Request.drop_trigger s) = ok tt
answers t (Request.close c) = ok tt
answers t (Request.absolute p) = ok p
answers t (Request.list_dir p) = ok []
answers t (Request.stat_uid p) = ok 1000
answers t (Request.read_link p) = ok p
answers t (Request.lexists p) = ok false
answers t Request.effective_uid = ok (some 1000)
answers t Request.sys_platform = ok "linux"
answers t (Request.sleep n) = ok tt
answers t (Request.table_columns c) = ok (map plain_column ("message" ∷ required_log_columns))
answers t (Request.has_sequence c) = ok false
answers t (Request.sequence_row c) = ok none
answers t (Request.count_row c) = ok (pos 2, some (pos 2))
answers t (Request.byte_sum c) = ok (pos 10)
answers t (Request.level_rows c b) = ok (("INFO", pos 2, pos 10) ∷ [])
answers t (Request.is_readonly_cantinit e) = ok false

-- The same where the trigger is there until a COMMIT has returned.
unfoldable pub removal_answers : Env
unfolding answers doctor_row
removal_answers t (Request.master c) =
    ok (if has_committed (mutations t) then logs_table ∷ [] else logs_table ∷ doctor_row ∷ [])
removal_answers t r = answers t r

abbrev pub start : World
start = record {
  trace = [];
  transaction_open = false;
  committed = false;
  connection_closed = false;
  manifest = end;
  current_token = "";
}
