-- ===== src/Processes/Lsof.antt =====
-- `_parse_lsof_holders` of processes.py: the machine-readable output of lsof, read line by line.
pub mod Quiet
pub mod Fill
pub mod Laws
use Prim.Native.Char.{Char, code}
use codex_storage_doctor.Prelude.{
  ℕ, String, Bool, true, false, not, ◌&&◌, ◌||◌, Option, none, some, List, [], ◌∷◌, ◌++◌, eqb,
  contains, if◌then◌else◌,
}
use codex_storage_doctor.Text.{is_blank}
use codex_storage_doctor.Text.Cut.{lines}
use codex_storage_doctor.Decimal.{is_number, number}
use codex_storage_doctor.Effects.{M, pure, ◌>>=◌}
use codex_storage_doctor.Host.{Host}
use codex_storage_doctor.Processes.{Database, match_database}

-- An entry of the dict `holders`.
pub record Holder : Type 0 where
  pub pid : ℕ
  pub basename : String
  pub open_ids : List String

unfoldable pub find_holder : ℕ → List Holder → Option Holder
find_holder pid [] = none
find_holder pid (h ∷ hs) = let later = find_holder pid hs in if eqb h.pid pid then some h else later

-- `holders.setdefault(pid, {"basename": "unknown", "open_ids": []})`
unfoldable pub set_default : ℕ → List Holder → List Holder
set_default pid [] = record { pid = pid; basename = "unknown"; open_ids = [] } ∷ []
set_default pid (h ∷ hs) =
    let later = set_default pid hs in if eqb h.pid pid then h ∷ hs else h ∷ later

-- A change of the entry `holders[pid]`; a dict has one entry for a key.
unfoldable pub edit : (Holder → Holder) → ℕ → List Holder → List Holder
edit f pid [] = []
edit f pid (h ∷ hs) = (if eqb h.pid pid then f h else h) ∷ edit f pid hs

-- The local variables of the loop.
pub record Parser : Type 0 where
  pub holders : List Holder
  pub databases : List Database
  pub current_pid : Option ℕ
  pub saw_command : Bool
  pub saw_name : Bool
  pub matched_target : Bool
  pub malformed : Bool

unfoldable pub corrupt : Parser → Parser
corrupt p = record p { malformed = true }

-- `open_ids.append(report_id)`, for an id that is not there.
unfoldable pub add_id : String → Holder → Holder
add_id i h = if contains h.open_ids i then h else record h { open_ids = h.open_ids ++ (i ∷ []) }

unfoldable pub finish_record : Bool → Parser → Parser
unfolding corrupt
finish_record require_target_match p = elim p.current_pid [
  | none ↦ p
  | some pid ↦
      if not p.saw_command || not p.saw_name || (require_target_match && not p.matched_target)
      then corrupt p
      else p
]

-- A line `p…`
unfoldable pub start_record : Bool → String → Parser → Parser
unfolding finish_record corrupt set_default is_number number
start_record require_target_match value p =
    let q = finish_record require_target_match p in
    if not (is_number value) then record (corrupt q) { current_pid = none } else record q {
      holders = set_default (number value) q.holders;
      current_pid = some (number value);
      saw_command = false;
      saw_name = false;
      matched_target = false;
    }

-- What a line `c…` leaves, given the command's base name.
unfoldable pub take_command : String → ℕ → Parser → Parser
unfolding edit
take_command name pid p = record p {
  holders = edit (λ h. record h { basename = name }) pid p.holders;
  saw_command = true;
}

-- What a line `n…` leaves, given the match of its target.
unfoldable pub record_name : Bool → ℕ → Option Database → Parser → Parser
unfolding corrupt edit add_id
record_name require_target_match pid none p = if require_target_match then corrupt p else p
record_name require_target_match pid (some d) p = record p {
  holders = edit (add_id d.report_id) pid p.holders;
  matched_target = true;
}

module _ (host : Host) (allow_discovery require_target_match : Bool) where
  parse_name : ℕ → String → Parser → M Parser
  unfolding match_database record_name
  parse_name pid value p = do
    found ← match_database host allow_discovery (host.path value) p.databases
    pure (
        record_name require_target_match pid found.0
          (record p { databases = found.1; saw_name = true }))

  -- A line of another field, in the record of a process.
  parse_field : ℕ → Char → String → Parser → M Parser
  unfolding corrupt take_command parse_name is_blank
  parse_field pid c value p =
      if not (eqb (code c) b'c' || eqb (code c) b'f' || eqb (code c) b'n') || is_blank value
      then pure (corrupt p)
      else if eqb (code c) b'c'
      then pure (take_command (host.base_name (host.path value)) pid p)
      else if eqb (code c) b'f'
      then pure p
      else parse_name pid value p

  unfoldable pub parse_line : String → Parser → M Parser
  unfolding start_record parse_field corrupt
  parse_line String.[] p = pure p
  parse_line (String.◌∷◌ c value) p =
      if eqb (code c) b'p'
      then pure (start_record require_target_match value p)
      else elim p.current_pid [ none ↦ pure (corrupt p) | some pid ↦ parse_field pid c value p ]

  unfoldable pub parse_lines : List String → Parser → M Parser
  unfolding parse_line finish_record
  parse_lines [] p = pure (finish_record require_target_match p)
  parse_lines (line ∷ rest) p = do q ← parse_line line p; parse_lines rest q

  -- `_parse_lsof_holders`; the holders, the databases and `malformed` are fields of the result.
  unfoldable pub parse_lsof_holders : String → List Database → M Parser
  unfolding parse_lines lines
  parse_lsof_holders output databases = parse_lines (lines output) (record {
    holders = [];
    databases = databases;
    current_pid = none;
    saw_command = false;
    saw_name = false;
    matched_target = false;
    malformed = false;
  })
