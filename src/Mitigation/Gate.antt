-- ===== src/Mitigation/Gate.antt =====
-- `_scan_dict` and `ensure_process_gate`: the test that no Codex process runs and that nobody but
-- this process holds the database open. Fails closed.
pub mod Verdict
use codex_storage_doctor.Prelude.{
  ℕ, String, ◌==◌, ◌<>◌, Bool, true, false, not, ◌&&◌, ◌||◌, List, [], ◌∷◌, ◌++◌, eqb, any_of,
  contains, is_nil, if◌then◌else◌,
}
use codex_storage_doctor.Text.{lower}
use codex_storage_doctor.Json.{
  Json, Items, Fields, null, bool, num, str, arr, obj, nil, cons, end, field, pos, get, truthy,
  text_of,
}
use codex_storage_doctor.Errors.{
  Exn, safety_gate, type_error, class_name, is_type_error, is_exception,
}
use codex_storage_doctor.Effects.{
  Request, Scanned, Outcome, ok, raised, M, pure, raise, call, ◌>>=◌, ◌>>◌, catch, return,
}

-- The entries whose keys are among the names.
only : List String → Fields → Fields
only names end = end
only names (field k v rest) =
    let others = only names rest in if contains names k then field k v others else others

abbrev scan_names : List String
scan_names =
    "complete" ∷ "status" ∷ "processes" ∷ "open_database_paths" ∷ "held_database_paths" ∷ "errors"
    ∷ []

unfoldable pub scan_dict : Scanned → Fields
unfolding only
scan_dict Scanned.nothing = end
scan_dict (Scanned.dict fs) = fs
scan_dict (Scanned.convertible (obj fs)) = fs
scan_dict (Scanned.convertible _) = end
scan_dict (Scanned.attributes fs) = only scan_names fs

-- `status in {"complete", "ok", "supported"}`
abbrev complete_statuses : List String
complete_statuses = "complete" ∷ "ok" ∷ "supported" ∷ []

complete_value : Json → Json → Bool
unfolding truthy lower text_of
complete_value null status = contains complete_statuses (lower (text_of status))
complete_value value status = truthy value

-- The value `complete` of the scan, or what its status says where there is none.
unfoldable pub is_complete : Fields → Bool
unfolding complete_value
is_complete fs = complete_value (get "complete" fs) (get "status" fs)

chars_of : String → Items
chars_of String.[] = nil
chars_of (String.◌∷◌ c s) = cons (str (String.◌∷◌ c "")) (chars_of s)

keys_of : Fields → Items
keys_of end = nil
keys_of (field k v rest) = cons (str k) (keys_of rest)

not_iterable : Json → Bool
not_iterable (num n) = true
not_iterable (bool b) = true
not_iterable _ = false

items_of : Json → Items
unfolding chars_of keys_of
items_of (arr xs) = xs
items_of (str s) = chars_of s
items_of (obj fs) = keys_of fs
items_of _ = nil

-- `for … in value or []`
unfoldable pub iterate : Json → Outcome Items
unfolding truthy not_iterable items_of
iterate v =
    if not (truthy v)
    then ok nil
    else if not_iterable v
    then raised (type_error "object is not iterable")
    else ok (items_of v)

-- The texts of a list.
texts_in : Items → List String
texts_in nil = []
texts_in (cons (str s) xs) = s ∷ texts_in xs
texts_in (cons x xs) = texts_in xs

-- `{value for value in raw if isinstance(value, str)} if isinstance(raw, (list, tuple)) else set()`
unfoldable pub open_ids : Json → List String
unfolding texts_in
open_ids (arr xs) = texts_in xs
open_ids _ = []

-- `isinstance(pid, int) and pid in allowed`: a bool is an int.
unfoldable pub is_allowed : List ℕ → Json → Bool
is_allowed allowed (num (pos n)) = any_of (λ a. eqb a n) allowed
is_allowed allowed (bool true) = any_of (λ a. eqb a 1) allowed
is_allowed allowed (bool false) = any_of (λ a. eqb a 0) allowed
is_allowed allowed _ = false

unfoldable pub is_false : Json → Bool
is_false (bool false) = true
is_false _ = false

-- `ids == {"database-001"}`, for a set
only_first_database : List String → Bool
only_first_database ids = not (is_nil ids) && not (any_of (λ i. not (i == "database-001")) ids)

-- `is_known_self_handle`
unfoldable pub is_self_handle : List ℕ → Fields → Bool
unfolding is_allowed is_false only_first_database open_ids
is_self_handle allowed process =
    is_allowed allowed (get "pid" process)
    && is_false (get "is_codex" process)
    && only_first_database (open_ids (get "open_database_ids" process))

-- What the loop over the processes collects: is any left, the ids of the ignored ones, and the ids
-- of the others.
pub record Holders : Type 0 where
  pub remaining : Bool
  pub ignored_ids : List String
  pub remaining_ids : List String

module _ (allowed : List ℕ) where
  judge : Json → Holders → Holders
  unfolding is_self_handle open_ids
  judge (obj fs) h =
      let ids = open_ids (get "open_database_ids" fs) in
      if is_self_handle allowed fs
      then record h { ignored_ids = ids ++ h.ignored_ids }
      else record h { remaining = true; remaining_ids = ids ++ h.remaining_ids }
  judge _ h = record h { remaining = true }

  unfoldable pub judge_all : Items → Holders → Holders
  unfolding judge
  judge_all nil h = h
  judge_all (cons x xs) h = judge_all xs (judge x h)

-- A held path that only ignored processes account for.
is_explained : Holders → Json → Bool
is_explained h (str s) = contains h.ignored_ids s && not (contains h.remaining_ids s)
is_explained h _ = false

unfoldable pub all_explained : Holders → Items → Bool
unfolding is_explained
all_explained h nil = true
all_explained h (cons x xs) = is_explained h x && all_explained h xs

abbrev pub partial_refusal : Exn
partial_refusal = safety_gate "process/open-handle detection is partial; refusing mutation"

abbrev pub running_refusal : Exn
running_refusal =
    safety_gate
      "Codex appears to be running or the selected database is open; quit every Codex surface and close every database tool"

abbrev pub no_holders : Holders
no_holders = record { remaining = false; ignored_ids = []; remaining_ids = [] }

decide_open : List ℕ → Fields → Items → Items → Outcome (Unit {0})
unfolding judge_all all_explained truthy
decide_open allowed scan processes held =
    let h = judge_all allowed processes no_holders in
    if h.remaining || truthy (get "open_database_paths" scan) || not (all_explained h held)
    then raised running_refusal
    else ok tt

-- The verdict on a scan, given the pids whose handles are known.
unfoldable pub gate_verdict : List ℕ → Fields → Outcome (Unit {0})
unfolding is_complete iterate decide_open
gate_verdict allowed scan =
    if not (is_complete scan)
    then raised partial_refusal
    else elim (iterate (get "processes" scan)) [
      | raised e ↦ raised e
      | ok processes ↦ elim (iterate (get "held_database_paths" scan)) [
        | raised e ↦ raised e
        | ok held ↦ decide_open allowed scan processes held
      ]
    ]

-- The call of the scanner: by keyword, and by position where that is a TypeError.
unfoldable pub run_scanner : String → M Scanned
unfolding is_type_error is_exception class_name
run_scanner database = catch (call (Request.scan_keyword database)) (λ e.
    if is_type_error e
    then call (Request.scan_positional database)
    else if is_exception e
    then raise (safety_gate ("process detection failed; refusing mutation: " <> class_name e))
    else raise e)

unfoldable pub ensure_process_gate : String → List ℕ → M Fields
unfolding run_scanner scan_dict gate_verdict
ensure_process_gate database allowed = do
  scan ← run_scanner database
  let found = scan_dict scan
  return (gate_verdict allowed found)
  pure found
