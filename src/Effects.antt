-- ===== src/Effects.antt =====
-- The program's dealings with its surroundings. Every call of the operating system, of SQLite and
-- of the process scanner is a request. The surroundings are an arbitrary function from what has
-- happened so far to a reply, an exception included, so other processes may act between two
-- requests. The trace keeps each request with its reply, newest first.
pub mod Rules
pub mod Mutations
pub mod Reading
pub mod Yields
use codex_storage_doctor.Prelude.{ℕ, String, Bool, Option, List, ◌∷◌, if◌then◌else◌}
use codex_storage_doctor.Json.{ℤ, Json, Fields}
use codex_storage_doctor.Errors.{Exn}

-- The read-only connection, the writable connection, and the one to a backup's copy.
pub data Conn : Type 0 where
  reader writer copy : Conn

-- A row of `sqlite_master`.
pub record Row : Type 0 where
  pub kind : String
  pub name : String
  pub table : String
  pub sql : Option String

-- What the program reads of an `os.stat` result.
pub record Stat : Type 0 where
  pub size : ℕ
  pub mtime_ns : ℕ
  pub device : ℕ
  pub inode : ℕ

-- What the program reads of a `subprocess.CompletedProcess`.
pub record Completed : Type 0 where
  pub returncode : ℤ
  pub stdout : String
  pub stderr : String

-- A row of `PRAGMA table_info`: the name, the declared type, NOT NULL and the place in the primary key.
pub record ColumnRow : Type 0 where
  pub name : String
  pub declared_type : Option String
  pub not_null : Bool
  pub primary_key_position : ℤ

-- What a process scanner may return: None, a dict, an object with `to_dict`, or another object,
-- given by its attributes.
pub data Scanned : Type 0 where
  nothing : Scanned
  dict : Fields → Scanned
  convertible : Json → Scanned
  attributes : Fields → Scanned

pub data Request : Type 0 where
  expand_user resolve resolve_strict is_file exists stat : String → Request
  platform_system os_is_nt get_pid utc_slug utc_now : Request
  environ read_text read_json : String → Request
  run_command : List String → Request
  drive_type : String → Request
  scan_keyword scan_positional : String → Request
  make_dir make_dirs : String → ℕ → Request
  chmod : String → ℕ → Request
  stat_mode disk_free sha256_file : String → Request
  mkstemp : String → String → Request
  write_file link rename replace : String → String → Request
  unlink : String → Request
  connect : Conn → String → Request
  pragma : Conn → String → Request
  quick_check master table_info : Conn → Request
  backup : Conn → Conn → Request
  begin_exclusive commit rollback_transaction : Request
  create_trigger drop_trigger : String → Request
  close : Conn → Request
  absolute list_dir stat_uid read_link lexists : String → Request
  effective_uid sys_platform : Request
  sleep : ℤ → Request
  table_columns has_sequence sequence_row count_row byte_sum : Conn → Request
  level_rows : Conn → Bool → Request
  is_readonly_cantinit : Exn → Request

abbrev pub Reply : Request → Type 0
Reply (expand_user _) = String
Reply (resolve _) = String
Reply (resolve_strict _) = String
Reply (is_file _) = Bool
Reply (exists _) = Bool
Reply (stat _) = Stat
Reply platform_system = String
Reply os_is_nt = Bool
Reply get_pid = ℕ
Reply utc_slug = String
Reply utc_now = String
Reply (environ _) = Option String
Reply (read_text _) = String
Reply (read_json _) = Json
Reply (run_command _) = Completed
Reply (drive_type _) = Option ℕ
Reply (scan_keyword _) = Scanned
Reply (scan_positional _) = Scanned
Reply (stat_mode _) = ℕ
Reply (disk_free _) = ℕ
Reply (sha256_file _) = String
Reply (mkstemp _ _) = String
Reply (quick_check _) = Option Json
Reply (master _) = List Row
Reply (table_info _) = List String
Reply (absolute _) = String
Reply (list_dir _) = List String
Reply (stat_uid _) = ℕ
Reply (read_link _) = String
Reply (lexists _) = Bool
Reply effective_uid = Option ℕ
Reply sys_platform = String
Reply (table_columns _) = List ColumnRow
Reply (has_sequence _) = Bool
Reply (sequence_row _) = Option ℤ
Reply (count_row _) = ℤ × Option ℤ
Reply (byte_sum _) = ℤ
Reply (level_rows _ _) = List (String × ℤ × ℤ)
Reply (is_readonly_cantinit _) = Bool
Reply _ = Unit {0}

pub data Outcome (A : Type 0) : Type 0 where
  ok : A → Outcome A
  raised : Exn → Outcome A

abbrev pub Event : Type 0
Event = (r : Request) × Outcome (Reply r)

abbrev pub Trace : Type 0
Trace = List Event

abbrev pub Env : Type 0
Env = Trace → (r : Request) → Outcome (Reply r)

-- The trace, and the local variables that `apply_plan` and `rollback` assign and their handlers read.
pub record World : Type 0 where
  pub trace : Trace
  pub transaction_open : Bool
  pub committed : Bool
  pub connection_closed : Bool
  pub manifest : Fields
  pub current_token : String

abbrev pub M : Type 0 → Type 0
M A = Env → World → Outcome A × World

module _ {A : Type 0} where
  unfoldable pub pure : A → M A
  pure a env w = (ok a, w)

  unfoldable pub raise : Exn → M A
  raise e env w = (raised e, w)

unfoldable pub call : (r : Request) → M (Reply r)
call r env w = let o = env w.trace r in (o, record w { trace = (r, o) ∷ w.trace })

-- An assignment to the local variable `manifest`, from its old value.
unfoldable pub update_manifest : (Fields → Fields) → M (Unit {0})
update_manifest f env w = (ok tt, record w { manifest = f w.manifest })

-- An assignment to the local variable `current_token`.
unfoldable pub set_token : String → M (Unit {0})
set_token token env w = (ok tt, record w { current_token = token })

-- An assignment to the local variable `transaction_open`.
unfoldable pub set_open : Bool → M (Unit {0})
set_open b env w = (ok tt, record w { transaction_open = b })

-- An assignment to the local variable `connection_closed`.
unfoldable pub set_closed : Bool → M (Unit {0})
set_closed b env w = (ok tt, record w { connection_closed = b })

-- An assignment to the local variable `committed`.
unfoldable pub set_committed : Bool → M (Unit {0})
set_committed b env w = (ok tt, record w { committed = b })

unfoldable pub gets : {A : Type 0} → (World → A) → M A
gets f env w = (ok (f w), w)

module _ {A B : Type 0} where
  abbrev pub continue : Outcome A → (A → M B) → M B
  continue (ok a) f env w = f a env w
  continue (raised e) f env w = (raised e, w)

  infixl 5 ◌>>=◌ ◌>>◌
  unfoldable pub ◌>>=◌ : M A → (A → M B) → M B
  ◌>>=◌ m f env w = let (r, w') = m env w in continue r f env w'

  abbrev pub ◌>>◌ : M A → M B → M B
  m >> n = m >>= λ _. n

module _ {A : Type 0} where
  abbrev pub recover : Outcome A → (Exn → M A) → M A
  recover (ok a) h env w = (ok a, w)
  recover (raised e) h env w = h e env w

  -- `try: m` with `except BaseException as e: h(e)`
  unfoldable pub catch : M A → (Exn → M A) → M A
  catch m h env w = let (r, w') = m env w in recover r h env w'

  -- The outcome of `m` as a value.
  unfoldable pub attempt : M A → M (Outcome A)
  attempt m env w = let (r, w') = m env w in (ok r, w')

  unfoldable pub return : Outcome A → M A
  return r env w = (r, w)

-- `if test: raise error`
unfoldable pub refuse_if : Bool → Exn → M (Unit {0})
unfolding raise pure
refuse_if test error = if test then raise error else pure tt
