-- ===== src/Processes/Linux.antt =====
-- `_scan_linux` of processes.py: the processes of the proc filesystem, with what lsof says of the
-- selected databases.
pub mod Fds
use codex_storage_doctor.Prelude.{
  ℕ, String, Bool, true, false, not, ◌||◌, Option, none, some, List, [], ◌∷◌, ◌++◌, leb, eqb,
  any_of, keep_if, is_nil, if◌then◌else◌,
}
use codex_storage_doctor.Json.{pos}
use codex_storage_doctor.Decimal.{is_number, number}
use codex_storage_doctor.Effects.{Completed, Request, M, pure, call, ◌>>=◌}
use codex_storage_doctor.Host.{Host}
use codex_storage_doctor.Models.Scan.{ProcessObservation, ProcessScan}
use codex_storage_doctor.Processes.{
  is_codex_executable, surface, Database, database_of_id, add_once, on_os_error, run, is_suspect,
  is_silent, lsof_command, evidence_partial, unavailable,
}
use codex_storage_doctor.Processes.Lsof.{Holder, Parser, parse_lsof_holders}

-- The local variables of the loops.
pub record Tally : Type 0 where
  pub databases : List Database
  pub observations : List ProcessObservation
  pub open_paths : List String
  pub held_paths : List String
  pub observed_pids : List ℕ
  pub partial : Bool

unfoldable pub mark : Bool → Tally → Tally
mark b t = record t { partial = t.partial || b }

-- The path of a database that is held, and open where the holder is Codex.
unfoldable pub hold : Bool → String → Tally → Tally
unfolding add_once
hold is_codex path t = record t {
  held_paths = add_once path t.held_paths;
  open_paths = if is_codex then add_once path t.open_paths else t.open_paths;
}

unfoldable pub hold_ids : Bool → List String → Tally → Tally
unfolding hold database_of_id
hold_ids is_codex [] t = t
hold_ids is_codex (i ∷ is) t =
    hold_ids is_codex is
      (elim (database_of_id i t.databases) [ none ↦ t | some d ↦ hold is_codex d.path t ])

unfoldable pub observe : ProcessObservation → ℕ → Tally → Tally
observe o pid t = record t {
  observations = t.observations ++ (o ∷ []);
  observed_pids = pid ∷ t.observed_pids;
}

-- The part of the code before the loop: the holders that lsof names, the databases, and whether the
-- evidence is partial.
pub record Evidence : Type 0 where
  pub holders : List Holder
  pub databases : List Database
  pub partial : Bool

unfoldable pub evidence_of : Completed → Parser → Evidence
unfolding is_suspect is_silent
evidence_of c p = record {
  holders = p.holders;
  databases = p.databases;
  partial = is_suspect c || p.malformed || is_silent c;
}

-- `sorted(paths, key=lambda path: int(path.name))`
module _ (key : String → ℕ) where
  insert_by : String → List String → List String
  insert_by x [] = x ∷ []
  insert_by x (y ∷ ys) =
      let later = insert_by x ys in if leb (key x) (key y) then x ∷ y ∷ ys else y ∷ later

  unfoldable pub sort_by : List String → List String
  unfolding insert_by
  sort_by [] = []
  sort_by (x ∷ xs) = insert_by x (sort_by xs)

unfoldable pub insert_holder : Holder → List Holder → List Holder
insert_holder x [] = x ∷ []
insert_holder x (y ∷ ys) =
    let later = insert_holder x ys in if leb x.pid y.pid then x ∷ y ∷ ys else y ∷ later

-- `sorted(holders.items())`
unfoldable pub sort_holders : List Holder → List Holder
unfolding insert_holder
sort_holders [] = []
sort_holders (h ∷ hs) = insert_holder h (sort_holders hs)

unfoldable pub surface_of : Bool → String → String
unfolding surface
surface_of is_codex name = if is_codex then surface name else "database-holder"

-- A holder that no process directory accounted for.
unfoldable pub take_holder : Holder → Tally → Tally
unfolding is_codex_executable hold_ids surface_of
take_holder h t =
    let is_codex = is_codex_executable h.basename in
    let o : ProcessObservation = record {
      pid = pos h.pid;
      surface = surface_of is_codex h.basename;
      executable_basename = h.basename;
      is_codex = is_codex;
      open_database_ids = h.open_ids;
      write_bytes = none;
    } in
    let held = hold_ids is_codex h.open_ids t in
    if any_of (λ p. eqb p h.pid) t.observed_pids || is_nil h.open_ids
    then t
    else record held { observations = held.observations ++ (o ∷ []) }

unfoldable pub remaining_holders : List Holder → Tally → Tally
unfolding take_holder
remaining_holders [] t = t
remaining_holders (h ∷ hs) t = remaining_holders hs (take_holder h t)

unfoldable pub result_of : Tally → ProcessScan
result_of t = record {
  status = if t.partial then "partial" else "ok";
  observations = t.observations;
  open_database_paths = t.open_paths;
  held_database_paths = t.held_paths;
  handle_evidence_supported = not t.partial;
  findings = if t.partial then evidence_partial ∷ [] else [];
}

unfoldable pub unavailable_scan : String → ProcessScan
unavailable_scan text = record {
  status = "partial";
  observations = [];
  open_database_paths = [];
  held_database_paths = [];
  handle_evidence_supported = false;
  findings = unavailable text ∷ [];
}

module _ (host : Host) where
  unfoldable pub target_evidence : List String → List Database → M Evidence
  unfolding run lsof_command evidence_of parse_lsof_holders
  target_evidence [] databases =
      pure (record { holders = []; databases = databases; partial = false })
  target_evidence (path ∷ paths) databases = do
    answer ← run (lsof_command (path ∷ paths))
    elim answer [
      | none ↦ pure (record { holders = []; databases = databases; partial = true })
      | some c ↦ do
        p ← parse_lsof_holders host false true c.stdout databases
        pure (evidence_of c p)
    ]

  -- The directories of the processes, in the order of the pids; none is an OSError.
  unfoldable pub pid_directories : String → M (Option (List String))
  unfolding on_os_error sort_by is_number number
  pid_directories proc_root =
      on_os_error
        (do
          entries ← call (Request.list_dir proc_root)
          pure (
              some (
                sort_by (λ p. number (host.base_name p))
                  (keep_if (λ p. is_number (host.base_name p)) entries))))
        (pure none)

-- What the test of a directory's owner says.
pub data Owner : Type 0 where
  mine foreign unknown : Owner

unfoldable pub owner_of : Option ℕ → String → M Owner
unfolding on_os_error
owner_of none dir = pure mine
owner_of (some current_uid) dir =
    on_os_error
      (do uid ← call (Request.stat_uid dir); pure (if eqb uid current_uid then mine else foreign))
      (pure unknown)
