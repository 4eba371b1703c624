-- ===== src/Tests/Scans.antt =====
-- The theorems on scans, samples and reports at concrete inputs.
use codex_storage_doctor.Prelude.{
  ◌&&◌, not, keep_if, arith, length, ◌≤◌, ℕ, ◌≡◌, refl, ◌↔◌, ◌⊎◌, String, Bool, true, false, Option,
  none, some, List, [], ◌∷◌, map, starts_with,
}
use codex_storage_doctor.Text.{strip, is_blank, lower}
use codex_storage_doctor.Text.Cut.{lines}
use codex_storage_doctor.Json.{ℤ, pos, negsuc, Json, str, num, obj, field, end}
use codex_storage_doctor.Errors.{value_error}
use codex_storage_doctor.Effects.{Completed, Outcome, ok, raised, World, M, pure}
use codex_storage_doctor.Effects.Yields.{Yields}
use codex_storage_doctor.Mitigation.Gate.{gate_verdict}
use codex_storage_doctor.Models.{DatabaseCandidate, assign_candidate_report_ids}
use codex_storage_doctor.Models.Ids.{Distinct, assign_candidate_report_ids-Distinct}
use codex_storage_doctor.Models.Scan.{ProcessScan, scan_to_dict}
use codex_storage_doctor.Models.Scan.Gate.{
  Supported, Idle, AllKnown, gate_verdict-scan_to_dict, gate_verdict-scan_to_dict-Idle,
}
use codex_storage_doctor.Models.Inspection.{LevelAggregate, DatabaseInspection}
use codex_storage_doctor.Models.Sample.{LogicalSnapshot, logical_change_observed}
use codex_storage_doctor.Privacy.{assert_privacy_safe}
use codex_storage_doctor.Privacy.Laws.{
  keys, values, all_of, key_allowed, text_allowed, assert_privacy_safe_lem,
}
use codex_storage_doctor.Processes.{Database, lsof_command}
use codex_storage_doctor.Processes.Lsof.{parse_lsof_holders}
use codex_storage_doctor.Processes.Lsof.Laws.{Sound, parse_lsof_holders-Sound}
use codex_storage_doctor.Processes.Linux.Fds.{scan_linux}
use codex_storage_doctor.Processes.Linux.Fds.Asked.{Asked, Backed}
use codex_storage_doctor.Processes.Linux.Fds.Verdict.{scan_linux_evidence, gate_verdict-scan_linux}
use codex_storage_doctor.Processes.Scan.{scan_platform}
use codex_storage_doctor.Processes.Scan.Verdict.{
  Honest, scan_platform-Honest, gate_verdict-scan_platform,
}
use codex_storage_doctor.Sampling.{delta, given, result_of, sample_database}
use codex_storage_doctor.Sampling.Delta.{Reconciles, delta-Reconciles}
use codex_storage_doctor.Sampling.Laws.{
  logical_change_observed-result_of, Complete, result_of-Complete, InBounds, sample_database_bounds,
  sample_database_refuses,
}
use codex_storage_doctor.SqliteInspect.{inspect_database}
use codex_storage_doctor.SqliteInspect.Triggers.{doctor_triggers}
use mathlib.Core.List.{Perm}
use codex_storage_doctor.SqliteInspect.Counted.{
  names, ours, is_named, is_built_in, doctor_triggers_lem,
}
use codex_storage_doctor.SqliteInspect.Verdict.{Healthy, inspect_database-Healthy}
use codex_storage_doctor.Tests.Machine.{machine, answers, start, logs_table, doctor_row}

abbrev database : String
database = "/d/logs_1.sqlite"

abbrev idle_scan : ProcessScan
idle_scan = record {
  status = "ok";
  observations = [];
  open_database_paths = [];
  held_database_paths = [];
  handle_evidence_supported = true;
  findings = [];
}

unfoldable scanned : Outcome ProcessScan × World
unfolding scan_linux machine answers
scanned = scan_linux machine (database ∷ []) "/proc" answers start

scan_linux_evidence_example : Backed (lsof_command (database ∷ [])) idle_scan scanned.1.trace
unfolding scanned scan_linux machine answers codex_storage_doctor.Effects.◌>>=◌
    codex_storage_doctor.Effects.catch codex_storage_doctor.Effects.call pure
scan_linux_evidence_example =
    scan_linux_evidence machine database [] answers "/proc" start idle_scan refl refl

gate_verdict-scan_linux_example :
    (c : Completed) × Asked (lsof_command (database ∷ [])) c scanned.1.trace
    × (c.returncode ≡ pos 1)
    × (is_blank (strip c.stdout) ≡ true)
    × (is_blank (strip c.stderr) ≡ true)
unfolding scanned scan_linux machine answers codex_storage_doctor.Effects.◌>>=◌
    codex_storage_doctor.Effects.catch codex_storage_doctor.Effects.call pure gate_verdict
    scan_to_dict codex_storage_doctor.Json.get
gate_verdict-scan_linux_example =
    gate_verdict-scan_linux machine database [] answers "/proc" start idle_scan refl refl

scan_platform-Honest_example : Honest idle_scan
unfolding scan_platform scan_linux machine answers codex_storage_doctor.Effects.◌>>=◌
    codex_storage_doctor.Effects.catch codex_storage_doctor.Effects.call pure
scan_platform-Honest_example =
    scan_platform-Honest machine "linux" (database ∷ []) "/proc" answers start idle_scan refl

gate_verdict-scan_platform_example :
    (starts_with (lower "linux") "linux" ≡ true) ⊎ (starts_with (lower "linux") "darwin" ≡ true)
unfolding scan_platform scan_linux machine answers codex_storage_doctor.Effects.◌>>=◌
    codex_storage_doctor.Effects.catch codex_storage_doctor.Effects.call pure gate_verdict
    scan_to_dict codex_storage_doctor.Json.get
gate_verdict-scan_platform_example =
    gate_verdict-scan_platform machine "linux" (database ∷ []) "/proc" answers start idle_scan []
      refl refl

gate_verdict-scan_to_dict-Idle_example :
    (gate_verdict [] (scan_to_dict idle_scan) ≡ ok tt) ↔ Idle idle_scan
gate_verdict-scan_to_dict-Idle_example = gate_verdict-scan_to_dict-Idle idle_scan

-- A scan that sees this process hold the database.
abbrev own_scan : ProcessScan
own_scan = record idle_scan {
  observations =
      record {
        pid = pos 7;
        surface = "database-holder";
        executable_basename = "python3";
        is_codex = false;
        open_database_ids = "database-001" ∷ [];
        write_bytes = none;
      }
      ∷ [];
  held_database_paths = database ∷ [];
}

gate_verdict-scan_to_dict_example : Supported own_scan × AllKnown (7 ∷ []) own_scan.observations
unfolding gate_verdict scan_to_dict codex_storage_doctor.Json.get
gate_verdict-scan_to_dict_example = gate_verdict-scan_to_dict (7 ∷ []) own_scan refl

abbrev listed : Database
listed = record { key = database; path = database; report_id = "database-001" }

parse_lsof_holders-Sound_example :
    Yields
      (Sound machine false (lines "p7\ncpython3\nf3\nn/d/logs_1.sqlite\n"))
      (parse_lsof_holders machine false true "p7\ncpython3\nf3\nn/d/logs_1.sqlite\n" (listed ∷ []))
parse_lsof_holders-Sound_example =
    parse_lsof_holders-Sound machine false "p7\ncpython3\nf3\nn/d/logs_1.sqlite\n" (listed ∷ [])

abbrev report : Json
report = obj (field "id" (str "database-001") (field "rows" (num (pos 3)) end))

assert_privacy_safe_lem_example :
    (assert_privacy_safe machine ("secret" ∷ []) true report ≡ ok tt) ↔ (
      (all_of (key_allowed machine ("secret" ∷ []) true) (keys report) ≡ true)
      × (all_of (text_allowed machine ("secret" ∷ []) true) (values report) ≡ true))
assert_privacy_safe_lem_example = assert_privacy_safe_lem machine ("secret" ∷ []) true report

abbrev warnings : ℤ → List LevelAggregate
warnings n = record { level = "WARN"; rows = n; estimated_bytes = pos 10 } ∷ []

abbrev snapshot_of : ℕ → Option ℤ → LogicalSnapshot
snapshot_of size rows = record {
  database_size_bytes = size;
  wal_size_bytes = 0;
  shm_size_bytes = 0;
  row_count = rows;
  max_id = none;
  sqlite_sequence = none;
  estimated_bytes = none;
  levels = warnings (pos size);
  process_write_bytes = none;
}

delta-Reconciles_example :
    Reconciles
      (snapshot_of 8192 (some (pos 9)))
      (snapshot_of 4096 (some (pos 4)))
      (delta (snapshot_of 8192 (some (pos 9))) (snapshot_of 4096 (some (pos 4))))
delta-Reconciles_example =
    delta-Reconciles (snapshot_of 8192 (some (pos 9))) (snapshot_of 4096 (some (pos 4)))

abbrev inspected : DatabaseInspection
inspected = record {
  path = database;
  status = "ok";
  exists = true;
  database_size_bytes = 4096;
  wal_size_bytes = 0;
  shm_size_bytes = 0;
  quick_check_ok = some true;
  schema_supported = true;
  schema_columns = [];
  doctor_triggers = [];
  altered_doctor_triggers = [];
  unexpected_doctor_trigger_count = 0;
  full_scan_performed = true;
  row_count = some (pos 3);
  max_id = some (pos 3);
  sqlite_sequence = some (pos 3);
  estimated_bytes = some (pos 10);
  level_aggregates = warnings (pos 3);
  findings = [];
  report_id = "database";
}

logical_change_observed-result_of_example :
    logical_change_observed (result_of database (pos 5) inspected idle_scan inspected own_scan)
    ≡ false
logical_change_observed-result_of_example =
    logical_change_observed-result_of database (pos 5) inspected idle_scan own_scan

result_of-Complete_example : Complete inspected idle_scan × Complete inspected own_scan
unfolding result_of
result_of-Complete_example =
    result_of-Complete database (pos 5) inspected idle_scan inspected own_scan refl

abbrev inspect : String → Bool → M DatabaseInspection
inspect path full = pure inspected

sample_database_bounds_example :
    InBounds (pos 5) (result_of database (pos 5) inspected idle_scan inspected idle_scan)
unfolding sample_database machine answers codex_storage_doctor.Effects.◌>>=◌
    codex_storage_doctor.Effects.call pure codex_storage_doctor.Effects.refuse_if
sample_database_bounds_example =
    sample_database_bounds database (pos 5) (given idle_scan) true inspect answers start
      (result_of database (pos 5) inspected idle_scan inspected idle_scan) refl

out_of_bounds : (n : ℕ) → pos 86401 ≡ pos n → n ≤ 86400 → ⊥
out_of_bounds n e h = let q : 86401 ≡ n = cc in omega arith

sample_database_refuses_example :
    (text : String) × (sample_database database
        (pos 86401)
        (given idle_scan)
        true
        inspect
        answers
        start
      ≡ (raised (value_error text), start))
sample_database_refuses_example =
    sample_database_refuses database (pos 86401) (given idle_scan) true inspect answers start
      out_of_bounds

abbrev candidate : DatabaseCandidate
candidate = record {
  path = database;
  report_id = "database";
  sources = [];
  exists = true;
  known_filename = true;
  evidence_labels = [];
  mutation_allowed = true;
  refusal_reason = none;
}

assign_candidate_report_ids-Distinct_example :
    Distinct (map (λ c. c.report_id) (assign_candidate_report_ids (candidate ∷ candidate ∷ [])))
assign_candidate_report_ids-Distinct_example =
    assign_candidate_report_ids-Distinct (candidate ∷ candidate ∷ [])

unfoldable inspection : Outcome DatabaseInspection
unfolding inspect_database machine answers
inspection = (inspect_database machine database false answers start).0

abbrev value_of : Outcome DatabaseInspection → DatabaseInspection
value_of (ok i) = i
value_of (raised e) = inspected

inspect_database-Healthy_example : Healthy (value_of inspection)
unfolding inspection inspect_database machine answers codex_storage_doctor.Effects.◌>>=◌
    codex_storage_doctor.Effects.catch codex_storage_doctor.Effects.call pure
    codex_storage_doctor.Effects.attempt codex_storage_doctor.Effects.return
inspect_database-Healthy_example =
    inspect_database-Healthy machine database false answers start (value_of inspection) refl refl

doctor_triggers_lem_example :
    (let rows = logs_table ∷ doctor_row ∷ [] in
      let t = doctor_triggers rows in
      Perm t.exact (names (keep_if is_built_in (ours rows)))
      × Perm t.altered (names (keep_if (λ r. is_named r && not (is_built_in r)) (ours rows)))
      × (t.unexpected ≡ length (keep_if (λ r. not (is_named r)) (ours rows))))
doctor_triggers_lem_example = doctor_triggers_lem (logs_table ∷ doctor_row ∷ [])
