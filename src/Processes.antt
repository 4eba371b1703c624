-- ===== src/Processes.antt =====
-- processes.py: the helpers that the platform scanners share.
pub mod Quiet
pub mod Lsof
pub mod Linux
pub mod Macos
pub mod Windows
pub mod Scan
use codex_storage_doctor.Prelude.{
  ℕ, suc, String, ◌==◌, ◌<>◌, Bool, true, not, ◌&&◌, ◌||◌, Option, none, some, List, [], ◌∷◌, ◌++◌,
  length, contains, if◌then◌else◌,
}
use codex_storage_doctor.Text.{lower, has_part, is_blank, strip, is_log_db_name}
use codex_storage_doctor.Text.Cut.{lines, partition, removesuffix}
use codex_storage_doctor.Json.{ℤ, pos, eq_ℤ}
use codex_storage_doctor.Decimal.{padded, int_of}
use codex_storage_doctor.Errors.{is_os, is_value_error, is_timeout}
use codex_storage_doctor.Effects.{Completed, Request, M, pure, raise, call, ◌>>=◌, catch}
use codex_storage_doctor.Host.{Host}
use codex_storage_doctor.Models.{Finding, Severity}

unfoldable pub is_codex_executable : String → Bool
unfolding lower has_part
is_codex_executable name = has_part (lower name) "codex"

unfoldable pub surface : String → String
unfolding lower has_part removesuffix
surface name =
    let lowered = lower name in
    if has_part lowered "codex" && not (removesuffix ".exe" lowered == lowered)
    then "codex-windows"
    else if has_part lowered "codex"
    then "codex"
    else "codex-related"

-- An entry of `database_by_key`.
pub record Database : Type 0 where
  pub key : String
  pub path : String
  pub report_id : String

unfoldable pub find_database : String → List Database → Option Database
find_database key [] = none
find_database key (d ∷ ds) =
    let later = find_database key ds in if d.key == key then some d else later

-- The first database with the id.
unfoldable pub database_of_id : String → List Database → Option Database
database_of_id i [] = none
database_of_id i (d ∷ ds) =
    let later = database_of_id i ds in if d.report_id == i then some d else later

unfoldable pub add_once : String → List String → List String
add_once s ss = if contains ss s then ss else ss ++ (s ∷ [])

-- `except OSError`, or the exception goes on.
unfoldable pub on_os_error : {A : Type 0} → M A → M A → M A
unfolding is_os
on_os_error m h = catch m (λ e. if is_os e then h else raise e)

-- `except (OSError, subprocess.TimeoutExpired)` around the call of the runner: none is the handler.
unfoldable pub run : List String → M (Option Completed)
unfolding is_os is_timeout
run command =
    catch (do c ← call (Request.run_command command); pure (some c))
      (λ e. if is_os e || is_timeout e then pure none else raise e)

-- An exit code other than 0 and 1, anything on the standard error, or output with exit code 1.
unfoldable pub is_suspect : Completed → Bool
unfolding eq_ℤ is_blank strip
is_suspect c =
    not (eq_ℤ c.returncode (pos 0) || eq_ℤ c.returncode (pos 1))
    || not (is_blank (strip c.stderr))
    || (eq_ℤ c.returncode (pos 1) && not (is_blank (strip c.stdout)))

-- Exit code 0 with no output
unfoldable pub is_silent : Completed → Bool
unfolding eq_ℤ is_blank strip
is_silent c = eq_ℤ c.returncode (pos 0) && is_blank (strip c.stdout)

unfoldable pub lsof_command : List String → List String
lsof_command paths = "lsof" ∷ "-w" ∷ "-Fpcn" ∷ "--" ∷ paths

abbrev pub evidence_partial : Finding
evidence_partial = record {
  code = "process_handle_evidence_partial";
  message = "Open-file evidence was incomplete for Codex discovery or the selected database.";
  severity = Severity.warning;
  partial = true;
}

abbrev pub unavailable : String → Finding
unavailable text = record {
  code = "process_scan_unavailable";
  message = text;
  severity = Severity.warning;
  partial = true;
}

module _ (host : Host) where
  unfoldable pub normalized : String → M String
  unfolding on_os_error
  normalized path =
      on_os_error (do r ← call (Request.resolve path); pure (host.normcase r))
        (do a ← call (Request.absolute path); pure (host.normcase a))

  -- The database of the target, and the databases, to which a discovered one is added.
  unfoldable pub match_database :
      Bool → String → List Database → M (Option Database × List Database)
  unfolding normalized find_database is_log_db_name padded
  match_database allow_discovery target databases = do
    key ← normalized target
    elim (find_database key databases) [
      | some known ↦ pure (some known, databases)
      | none ↦
          if not allow_discovery || not (is_log_db_name (host.base_name target))
          then pure (none, databases)
          else do
            discovered ← call (Request.absolute target)
            let found : Database = record {
              key = key;
              path = discovered;
              report_id = "database-" <> padded (suc (length databases));
            }
            pure (some found, databases ++ (found ∷ []))
    ]

  -- `{_normalized(path): (path, f"database-{index:03d}") for index, path in enumerate(paths, start=1)}`:
  -- a later path with the same key takes the earlier one's place.
  set_database : Database → List Database → List Database
  set_database d [] = d ∷ []
  set_database d (e ∷ ds) =
      let later = set_database d ds in if e.key == d.key then d ∷ ds else e ∷ later

  unfoldable pub database_by_key : ℕ → List String → List Database → M (List Database)
  unfolding normalized set_database padded
  database_by_key n [] databases = pure databases
  database_by_key n (path ∷ paths) databases = do
    key ← normalized path
    let d : Database = record { key = key; path = path; report_id = "database-" <> padded n }
    database_by_key (suc n) paths (set_database d databases)

-- The value of the first line with the key `write_bytes`; none is a ValueError.
write_bytes_of : List String → Option (Option ℤ)
unfolding partition strip int_of
write_bytes_of [] = some none
write_bytes_of (line ∷ rest) =
    let later = write_bytes_of rest in
    elim (partition ":" line) [
      | none ↦ later
      | some (key, value) ↦
          if strip key == "write_bytes"
          then elim (int_of (strip value)) [ none ↦ none | some n ↦ some (some n) ]
          else later
    ]

unfoldable pub parse_linux_write_bytes : String → M (Option ℤ)
unfolding is_os is_value_error write_bytes_of lines
parse_linux_write_bytes io_path =
    catch
      (do
        text ← call (Request.read_text io_path)
        pure (elim (write_bytes_of (lines text)) [ none ↦ none | some value ↦ value ]))
      (λ e. if is_os e || is_value_error e then pure none else raise e)
