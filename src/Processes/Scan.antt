-- ===== src/Processes/Scan.antt =====
-- `scan_codex_processes` of processes.py: the choice of the scanner.
pub mod Verdict
use codex_storage_doctor.Prelude.{
  String, true, false, ◌||◌, Option, none, some, List, [], ◌∷◌, starts_with, if◌then◌else◌,
}
use codex_storage_doctor.Text.{lower}
use codex_storage_doctor.Effects.{Request, M, pure, call, ◌>>=◌}
use codex_storage_doctor.Host.{Host}
use codex_storage_doctor.Models.{Severity}
use codex_storage_doctor.Models.Scan.{ProcessScan}
use codex_storage_doctor.Processes.Linux.Fds.{scan_linux}
use codex_storage_doctor.Processes.Macos.{scan_macos}
use codex_storage_doctor.Processes.Windows.{scan_windows}

abbrev unsupported_scan : ProcessScan
unsupported_scan = record {
  status = "unsupported";
  observations = [];
  open_database_paths = [];
  held_database_paths = [];
  handle_evidence_supported = false;
  findings =
      record {
        code = "platform_process_scan_unsupported";
        message = "Process evidence is unsupported on this platform.";
        severity = Severity.warning;
        partial = true;
      }
      ∷ [];
}

absolute_paths : List String → M (List String)
absolute_paths [] = pure []
absolute_paths (path ∷ paths) = do
  first ← call (Request.absolute path)
  rest ← absolute_paths paths
  pure (first ∷ rest)

platform_value : Option String → M String
platform_value none = call Request.sys_platform
platform_value (some name) = pure name

module _ (host : Host) where
  unfoldable pub scan_platform : String → List String → String → M ProcessScan
  unfolding lower scan_linux scan_macos scan_windows
  scan_platform platform paths proc_root =
      if starts_with (lower platform) "linux"
      then scan_linux host paths proc_root
      else if starts_with (lower platform) "darwin"
      then scan_macos host paths
      else if starts_with (lower platform) "win" || starts_with (lower platform) "cygwin"
      then scan_windows host paths
      else pure unsupported_scan

  -- The adapter is a scanner of the caller's, in place of the platform's.
  unfoldable pub scan_codex_processes :
      List String → Option String → Option (List String → M ProcessScan) → String → M ProcessScan
  unfolding absolute_paths platform_value scan_platform
  scan_codex_processes database_paths platform_name adapter proc_root = do
    paths ← absolute_paths database_paths
    elim adapter [
      | some scan ↦ scan paths
      | none ↦ do platform ← platform_value platform_name; scan_platform platform paths proc_root
    ]
