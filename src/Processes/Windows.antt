-- ===== src/Processes/Windows.antt =====
-- `_scan_windows` of processes.py: the Codex processes that PowerShell names. There is no evidence of
-- open databases on Windows, so the scan is never complete. A Boolean `Id` is the int it is equal to.
use codex_storage_doctor.Prelude.{
  ℕ, String, ◌<>◌, Bool, true, false, not, ◌||◌, Option, none, some, List, [], ◌∷◌, leb,
  if◌then◌else◌,
}
use codex_storage_doctor.Text.{is_blank, strip}
use codex_storage_doctor.Json.{
  ℤ, pos, negsuc, eq_ℤ, Json, Items, null, bool, num, str, arr, obj, nil, cons, get,
}
use codex_storage_doctor.Effects.{M, pure, ◌>>=◌}
use codex_storage_doctor.Host.{Host}
use codex_storage_doctor.Models.{Finding, Severity}
use codex_storage_doctor.Models.Scan.{ProcessObservation, ProcessScan}
use codex_storage_doctor.Processes.{is_codex_executable, surface, run}
use codex_storage_doctor.Processes.Linux.{unavailable_scan}

abbrev script : String
script =
    "Get-Process | Where-Object { $_.ProcessName -like '*codex*' } | Select-Object Id,ProcessName,Path | ConvertTo-Json -Compress"

int_value : Json → Option ℤ
int_value (num n) = some n
int_value (bool true) = some (pos 1)
int_value (bool false) = some (pos 0)
int_value _ = none

text_value : Json → Option String
text_value (str s) = some s
text_value _ = none

less_or_equal : ℤ → ℤ → Bool
less_or_equal (pos a) (pos b) = leb a b
less_or_equal (pos a) (negsuc b) = false
less_or_equal (negsuc a) (pos b) = true
less_or_equal (negsuc a) (negsuc b) = leb b a

insert_observation : ProcessObservation → List ProcessObservation → List ProcessObservation
unfolding less_or_equal
insert_observation x [] = x ∷ []
insert_observation x (y ∷ ys) =
    let later = insert_observation x ys in
    if less_or_equal x.pid y.pid then x ∷ y ∷ ys else y ∷ later

-- `sorted(observations, key=lambda item: item.pid)`
sort_observations : List ProcessObservation → List ProcessObservation
unfolding insert_observation
sort_observations [] = []
sort_observations (o ∷ os) = insert_observation o (sort_observations os)

abbrev unsupported : Finding
unsupported = record {
  code = "windows_handle_evidence_unsupported";
  message =
      "Windows open-database handle evidence is unavailable without additional platform tooling.";
  severity = Severity.warning;
  partial = true;
}

module _ (host : Host) where
  basename_of : String → Json → String
  unfolding is_blank
  basename_of process_name (str path) =
      if is_blank path then process_name <> ".exe" else host.windows_name path
  basename_of process_name _ = process_name <> ".exe"

  observed : ℤ → String → Json → List ProcessObservation
  unfolding basename_of is_codex_executable surface
  observed pid process_name path =
      let basename = basename_of process_name path in
      if not (is_codex_executable basename)
      then []
      else record {
        pid = pid;
        surface = surface basename;
        executable_basename = basename;
        is_codex = true;
        open_database_ids = [];
        write_bytes = none;
      }
        ∷ []

  observations_of : Items → List ProcessObservation
  unfolding int_value text_value observed
  observations_of nil = []
  observations_of (cons (obj row) rows) =
      let later = observations_of rows in
      elim (int_value (get "Id" row)) [
        | none ↦ later
        | some pid ↦ elim (text_value (get "ProcessName" row)) [
          | none ↦ later
          | some process_name ↦
              codex_storage_doctor.Prelude.◌++◌ (observed pid process_name (get "Path" row)) later
        ]
      ]
  observations_of (cons row rows) = observations_of rows

  -- `payload if isinstance(payload, list) else [payload]`
  rows_of : Json → Items
  rows_of (arr rows) = rows
  rows_of payload = cons payload nil

  -- The decoded output: None where it is no JSON, and where it is `null`.
  payload_of : String → Json
  unfolding is_blank strip
  payload_of stdout =
      if is_blank (strip stdout)
      then arr nil
      else elim (host.decode stdout) [ none ↦ null | some payload ↦ payload ]

  unfoldable pub scan_of : Json → ProcessScan
  unfolding unavailable_scan sort_observations observations_of rows_of
  scan_of null = unavailable_scan "The Windows process result could not be interpreted."
  scan_of payload = record {
    status = "partial";
    observations = sort_observations (observations_of (rows_of payload));
    open_database_paths = [];
    held_database_paths = [];
    handle_evidence_supported = false;
    findings = unsupported ∷ [];
  }

  unfoldable pub scan_windows : List String → M ProcessScan
  unfolding run eq_ℤ is_blank strip unavailable_scan scan_of payload_of
  scan_windows database_paths = do
    answer ← run ("powershell" ∷ "-NoProfile" ∷ "-NonInteractive" ∷ "-Command" ∷ script ∷ [])
    elim answer [
      | none ↦ pure (unavailable_scan "The Windows process list could not be inspected.")
      | some c ↦
          if not (eq_ℤ c.returncode (pos 0)) || not (is_blank (strip c.stderr))
          then pure (unavailable_scan "The Windows process list could not be inspected.")
          else pure (scan_of (payload_of c.stdout))
    ]
