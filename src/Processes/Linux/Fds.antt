-- ===== src/Processes/Linux/Fds.antt =====
-- `_scan_linux` of processes.py: the visit of a process directory, with the files that a Codex
-- process has open, and the scan as a whole.
pub mod Quiet
pub mod Tallies
pub mod Holders
pub mod Asked
pub mod Verdict
use codex_storage_doctor.Prelude.{
  ℕ, String, Bool, true, not, ◌||◌, Option, none, some, List, [], ◌∷◌, ◌++◌, contains, any_of,
  is_nil, if◌then◌else◌,
}
use codex_storage_doctor.Text.{is_blank, strip}
use codex_storage_doctor.Text.Cut.{removesuffix}
use codex_storage_doctor.Json.{ℤ, pos}
use codex_storage_doctor.Decimal.{is_number, number}
use codex_storage_doctor.Errors.{type_error}
use codex_storage_doctor.Effects.{Request, M, pure, raise, call, ◌>>=◌}
use codex_storage_doctor.Host.{Host}
use codex_storage_doctor.Models.Scan.{ProcessObservation, ProcessScan}
use codex_storage_doctor.Processes.{
  is_codex_executable, Database, on_os_error, match_database, database_by_key,
  parse_linux_write_bytes,
}
use codex_storage_doctor.Processes.Lsof.{Holder, find_holder}
use codex_storage_doctor.Processes.Linux.{
  Tally, Evidence, mark, hold, hold_ids, observe, sort_by, sort_holders, remaining_holders,
  surface_of, result_of, unavailable_scan, target_evidence, pid_directories, mine, foreign, unknown,
  owner_of,
}
use Prim.Native.String.{compare}
use Prim.Native.Nat.{Ordering}

insert_name : (String → String) → String → List String → List String
insert_name key x [] = x ∷ []
insert_name key x (y ∷ ys) =
    let later = insert_name key x ys in
    elim (compare (key x) (key y)) [ Ordering.gt ↦ y ∷ later | _ ↦ x ∷ y ∷ ys ]

sort_names : (String → String) → List String → List String
unfolding insert_name
sort_names key [] = []
sort_names key (x ∷ xs) = insert_name key x (sort_names key xs)

module _ (host : Host) where
  numeric : String → Bool
  unfolding is_number
  numeric path = is_number (host.base_name path)

  -- The sorting of the descriptors by number, or by name where no name is a number. A number does not
  -- compare with a name.
  sort_descriptors : List String → M (List String)
  unfolding sort_by number numeric sort_names
  sort_descriptors paths =
      if not (any_of (λ p. not (numeric p)) paths)
      then pure (sort_by (λ p. number (host.base_name p)) paths)
      else if not (any_of numeric paths)
      then pure (sort_names (λ p. host.base_name p) paths)
      else raise (type_error "'<' not supported between instances of 'str' and 'int'")

  -- The variables of the loop over the descriptors.
  pub record Files : Type 0 where
    pub tally : Tally
    pub open_ids : List String

  -- An OSError that leaves the loop: the rest is skipped, and the evidence is partial where the
  -- process is still there.
  gone : String → Files → M Files
  unfolding mark
  gone dir f = do alive ← call (Request.exists dir); pure (record f { tally = mark alive f.tally })

  take_match : Option Database × List Database → Files → Files
  unfolding hold
  take_match (none, databases) f = record f { tally = record f.tally { databases = databases } }
  take_match (some d, databases) f = record f {
    tally = hold true d.path (record f.tally { databases = databases });
    open_ids =
        if contains f.open_ids d.report_id then f.open_ids else f.open_ids ++ (d.report_id ∷ []);
  }

  -- The target of a descriptor; none is an OSError.
  read_target : String → M (Option String)
  unfolding on_os_error
  read_target descriptor =
      on_os_error (do l ← call (Request.read_link descriptor); pure (some l)) (pure none)

  -- The match of a target; none is an OSError.
  find_target : String → List Database → M (Option (Option Database × List Database))
  unfolding on_os_error removesuffix match_database
  find_target l databases =
      on_os_error
        (do
          m ← match_database host true (host.path (removesuffix " (deleted)" l)) databases
          pure (some m))
        (pure none)

  visit_descriptors : String → List String → Files → M Files
  unfolding read_target find_target mark gone take_match
  visit_descriptors dir [] f = pure f
  visit_descriptors dir (descriptor ∷ rest) f = do
    link ← read_target descriptor
    elim link [
      | none ↦ do
        there ← call (Request.lexists descriptor)
        visit_descriptors dir rest (record f { tally = mark there f.tally })
      | some l ↦ do
        found ← find_target l f.tally.databases
        elim found [ none ↦ gone dir f | some m ↦ visit_descriptors dir rest (take_match m f) ]
    ]

  -- The sorted descriptors of a process; none is an OSError.
  list_descriptors : String → M (Option (List String))
  unfolding on_os_error sort_descriptors
  list_descriptors dir =
      on_os_error
        (do
          entries ← call (Request.list_dir (host.join dir "fd"))
          sorted ← sort_descriptors entries
          pure (some sorted))
        (pure none)

  visit_files : String → Files → M Files
  unfolding list_descriptors visit_descriptors gone
  visit_files dir f = do
    descriptors ← list_descriptors dir
    elim descriptors [ none ↦ gone dir f | some paths ↦ visit_descriptors dir paths f ]

  executable_of : String → String → M String
  unfolding on_os_error removesuffix is_blank
  executable_of dir comm =
      on_os_error
        (do
          l ← call (Request.read_link (host.join dir "exe"))
          let name = host.base_name (host.path (removesuffix " (deleted)" l))
          pure (if is_blank name then comm else name))
        (pure comm)

  ids_of_holder : Option Holder → List String
  ids_of_holder none = []
  ids_of_holder (some h) = h.open_ids

  -- The variables after what lsof says of the process, if it says anything.
  files_at : List Holder → Bool → ℕ → Tally → Files
  unfolding find_holder ids_of_holder hold_ids
  files_at holders is_codex pid t =
      let open_ids = ids_of_holder (find_holder pid holders) in
      record { tally = hold_ids is_codex open_ids t; open_ids = open_ids }

  observation_of : ℕ → Bool → String → List String → Option ℤ → ProcessObservation
  unfolding surface_of
  observation_of pid is_codex name open_ids write_bytes = record {
    pid = pos pid;
    surface = surface_of is_codex name;
    executable_basename = name;
    is_codex = is_codex;
    open_database_ids = open_ids;
    write_bytes = write_bytes;
  }

  -- The process of a directory, given the name of its executable.
  visit_process : List Holder → String → String → Tally → M Tally
  unfolding is_codex_executable files_at visit_files observe observation_of parse_linux_write_bytes
      number
  visit_process holders dir name t = do
    let pid = number (host.base_name dir)
    let is_codex = is_codex_executable name
    let start = files_at holders is_codex pid t
    files ← if is_codex then visit_files dir start else pure start
    if is_codex || not (is_nil files.open_ids)
        then (do
          write_bytes ← parse_linux_write_bytes (host.join dir "io")
          pure (
              observe (observation_of pid is_codex name files.open_ids write_bytes) pid
                files.tally))
        else pure files.tally

  -- The text of `comm`; none is an OSError.
  read_comm : String → M (Option String)
  unfolding on_os_error strip
  read_comm dir =
      on_os_error
        (do text ← call (Request.read_text (host.join dir "comm")); pure (some (strip text)))
        (pure none)

  visit_owned : List Holder → String → Tally → M Tally
  unfolding read_comm mark executable_of visit_process
  visit_owned holders dir t = do
    comm ← read_comm dir
    elim comm [
      | none ↦ do alive ← call (Request.exists dir); pure (mark alive t)
      | some text ↦ do
        name ← executable_of dir (host.base_name (host.path text))
        visit_process holders dir name t
    ]

  unfoldable pub visit_directory : List Holder → Option ℕ → String → Tally → M Tally
  unfolding owner_of mark visit_owned
  visit_directory holders current_uid dir t = do
    owner ← owner_of current_uid dir
    elim owner [
      | mine ↦ visit_owned holders dir t
      | foreign ↦ pure t
      | unknown ↦ pure (mark true t)
    ]

  unfoldable pub visit_directories : List Holder → Option ℕ → List String → Tally → M Tally
  unfolding visit_directory
  visit_directories holders current_uid [] t = pure t
  visit_directories holders current_uid (dir ∷ dirs) t = do
    u ← visit_directory holders current_uid dir t
    visit_directories holders current_uid dirs u

  start_tally : Evidence → Tally
  start_tally evidence = record {
    databases = evidence.databases;
    observations = [];
    open_paths = [];
    held_paths = [];
    observed_pids = [];
    partial = evidence.partial;
  }

  scan_directories : Evidence → List String → M ProcessScan
  unfolding start_tally visit_directories remaining_holders sort_holders result_of
  scan_directories evidence dirs = do
    current_uid ← call Request.effective_uid
    t ← visit_directories evidence.holders current_uid dirs (start_tally evidence)
    pure (result_of (remaining_holders (sort_holders evidence.holders) t))

  scan_found : Evidence → Option (List String) → M ProcessScan
  unfolding scan_directories unavailable_scan
  scan_found evidence none =
      pure (unavailable_scan "The process filesystem could not be inspected.")
  scan_found evidence (some dirs) = scan_directories evidence dirs

  unfoldable pub scan_linux : List String → String → M ProcessScan
  unfolding database_by_key target_evidence pid_directories scan_found
  scan_linux database_paths proc_root = do
    databases ← database_by_key host 1 database_paths []
    evidence ← target_evidence host database_paths databases
    found ← pid_directories host proc_root
    scan_found evidence found
