-- ===== src/Processes/Macos.antt =====
-- `_scan_macos` of processes.py: the Codex processes that ps names, with what lsof says of each and
-- of the selected databases.
pub mod Verdict
use codex_storage_doctor.Prelude.{
  ℕ, String, Bool, true, false, not, ◌||◌, Option, none, some, List, [], ◌∷◌, ◌++◌, leb, eqb,
  contains, map, if◌then◌else◌,
}
use codex_storage_doctor.Text.{is_blank, strip}
use codex_storage_doctor.Text.Cut.{lines, partition}
use codex_storage_doctor.Json.{pos, eq_ℤ}
use codex_storage_doctor.Decimal.{is_number, number}
use codex_storage_doctor.Effects.{Completed, M, pure, ◌>>=◌}
use codex_storage_doctor.Host.{Host}
use codex_storage_doctor.Models.Scan.{ProcessObservation, ProcessScan}
use codex_storage_doctor.Processes.{
  is_codex_executable, Database, database_of_id, add_once, run, is_suspect, is_silent, lsof_command,
  evidence_partial, database_by_key,
}
use codex_storage_doctor.Processes.Lsof.{Holder, Parser, parse_lsof_holders}
use codex_storage_doctor.Processes.Linux.{surface_of, unavailable_scan}

-- An entry of `observation_data`.
pub record Observed : Type 0 where
  pub pid : ℕ
  pub basename : String
  pub is_codex : Bool
  pub open_ids : List String

-- The local variables of the loops.
pub record Survey : Type 0 where
  pub databases : List Database
  pub data_of : List Observed
  pub open_paths : List String
  pub held_paths : List String
  pub partial : Bool

unfoldable pub suspect : Bool → Survey → Survey
suspect b v = record v { partial = v.partial || b }

-- An entry as a call of `observe` leaves it.
observe_entry : String → Bool → Option String → Observed → Observed
observe_entry basename is_codex report_id o = record o {
  basename = if is_codex then basename else o.basename;
  is_codex = is_codex || o.is_codex;
  open_ids = elim report_id [
    | none ↦ o.open_ids
    | some i ↦ if contains o.open_ids i then o.open_ids else o.open_ids ++ (i ∷ [])
  ];
}

observe_in : ℕ → String → Bool → Option String → List Observed → List Observed
unfolding observe_entry
observe_in pid basename is_codex report_id [] =
    observe_entry basename is_codex report_id
      (record { pid = pid; basename = basename; is_codex = is_codex; open_ids = [] })
    ∷ []
observe_in pid basename is_codex report_id (o ∷ os) =
    let later = observe_in pid basename is_codex report_id os in
    if eqb o.pid pid then observe_entry basename is_codex report_id o ∷ os else o ∷ later

unfoldable pub observe : ℕ → String → Bool → Option String → Survey → Survey
unfolding observe_in
observe pid basename is_codex report_id v = record v {
  data_of = observe_in pid basename is_codex report_id v.data_of;
}

-- The path of the first database with the id is held, and open for Codex.
hold_id : Bool → Option Database → Survey → Survey
unfolding add_once
hold_id is_codex none v = v
hold_id is_codex (some d) v = record v {
  held_paths = add_once d.path v.held_paths;
  open_paths = if is_codex then add_once d.path v.open_paths else v.open_paths;
}

-- The ids that one holder has open, observed for a process.
unfoldable pub observe_ids : ℕ → String → Bool → List String → Survey → Survey
unfolding observe hold_id database_of_id
observe_ids pid basename is_codex [] v = v
observe_ids pid basename is_codex (i ∷ is) v =
    let seen = observe pid basename is_codex (some i) v in
    observe_ids pid basename is_codex is (hold_id is_codex (database_of_id i seen.databases) seen)

-- Every holder's ids, observed for the one process that lsof was asked about.
observe_holders : ℕ → String → List Holder → Survey → Survey
unfolding observe_ids
observe_holders pid basename [] v = v
observe_holders pid basename (h ∷ hs) v =
    observe_holders pid basename hs (observe_ids pid basename true h.open_ids v)

-- Every holder's ids, observed for the holder.
observe_targets : List Holder → Survey → Survey
unfolding observe_ids is_codex_executable
observe_targets [] v = v
observe_targets (h ∷ hs) v =
    observe_targets hs (observe_ids h.pid h.basename (is_codex_executable h.basename) h.open_ids v)

-- What an answer of lsof leaves of the variables, before its holders are observed.
unfoldable pub take_answer : Completed → Parser → Survey → Survey
unfolding suspect is_suspect is_silent
take_answer c p v =
    suspect (is_suspect c || p.malformed || is_silent c) (record v { databases = p.databases })

insert_observed : Observed → List Observed → List Observed
insert_observed x [] = x ∷ []
insert_observed x (y ∷ ys) =
    let later = insert_observed x ys in if leb x.pid y.pid then x ∷ y ∷ ys else y ∷ later

-- `sorted(observation_data.items())`
sort_observed : List Observed → List Observed
unfolding insert_observed
sort_observed [] = []
sort_observed (o ∷ os) = insert_observed o (sort_observed os)

observation_of : Observed → ProcessObservation
unfolding surface_of
observation_of o = record {
  pid = pos o.pid;
  surface = surface_of o.is_codex o.basename;
  executable_basename = o.basename;
  is_codex = o.is_codex;
  open_database_ids = o.open_ids;
  write_bytes = none;
}

unfoldable pub result_of : Survey → ProcessScan
unfolding sort_observed observation_of
result_of v = record {
  status = if v.partial then "partial" else "ok";
  observations = map observation_of (sort_observed v.data_of);
  open_database_paths = v.open_paths;
  held_database_paths = v.held_paths;
  handle_evidence_supported = not v.partial;
  findings = if v.partial then evidence_partial ∷ [] else [];
}

abbrev pub list_unavailable : ProcessScan
list_unavailable = unavailable_scan "The macOS process list could not be inspected."

module _ (host : Host) where
  -- lsof on one Codex process
  inspect_process : String → String → Survey → M Survey
  unfolding observe run take_answer observe_holders parse_lsof_holders number
  inspect_process pid_value basename v = do
    let pid = number pid_value
    let seen = observe pid basename true none v
    answer ← run ("lsof" ∷ "-w" ∷ "-Fpcn" ∷ "-p" ∷ pid_value ∷ [])
    elim answer [
      | none ↦ pure (suspect true seen)
      | some c ↦ do
        p ← parse_lsof_holders host true false c.stdout seen.databases
        pure (observe_holders pid basename p.holders (take_answer c p seen))
    ]

  unfoldable pub visit_line : String → Survey → M Survey
  unfolding strip is_blank partition is_number suspect is_codex_executable inspect_process
  visit_line line v =
      let stripped = strip line in
      if is_blank stripped then pure v else elim (partition " " stripped) [
        | none ↦ pure (suspect true v)
        | some (pid_value, executable) ↦
            let basename = host.base_name (host.path (strip executable)) in
            if not (is_number pid_value) || is_blank basename
            then pure (suspect true v)
            else if not (is_codex_executable basename)
            then pure v
            else inspect_process pid_value basename v
      ]

  unfoldable pub visit_lines : List String → Survey → M Survey
  unfolding visit_line
  visit_lines [] v = pure v
  visit_lines (line ∷ rest) v = do u ← visit_line line v; visit_lines rest u

  -- lsof on the selected databases
  unfoldable pub visit_targets : List String → Survey → M Survey
  unfolding run lsof_command parse_lsof_holders take_answer observe_targets suspect
  visit_targets [] v = pure v
  visit_targets (path ∷ paths) v = do
    answer ← run (lsof_command (path ∷ paths))
    elim answer [
      | none ↦ pure (suspect true v)
      | some c ↦ do
        p ← parse_lsof_holders host false true c.stdout v.databases
        pure (observe_targets p.holders (take_answer c p v))
    ]

  survey_from : List Database → Survey
  survey_from databases = record {
    databases = databases;
    data_of = [];
    open_paths = [];
    held_paths = [];
    partial = false;
  }

  unfoldable pub scan_macos : List String → M ProcessScan
  unfolding run eq_ℤ is_blank strip lines database_by_key visit_lines visit_targets result_of
      survey_from
  scan_macos database_paths = do
    answer ← run ("ps" ∷ "-axo" ∷ "pid=,comm=" ∷ [])
    elim answer [
      | none ↦ pure list_unavailable
      | some c ↦
          if not (eq_ℤ c.returncode (pos 0)) || not (is_blank (strip c.stderr))
          then pure list_unavailable
          else do
            databases ← database_by_key host 1 database_paths []
            v ← visit_lines (lines c.stdout) (survey_from databases)
            u ← visit_targets database_paths v
            pure (result_of u)
    ]
