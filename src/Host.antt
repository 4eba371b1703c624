-- ===== src/Host.antt =====
-- What the program takes from Python's standard library and this model leaves abstract: SHA-256,
-- the JSON printer and the path arithmetic of `pathlib` and `os.path`. A path is its own text, as
-- `str(path)` gives it.
use Prim.Native.Char.{Char}
use codex_storage_doctor.Prelude.{ℕ, String, Bool, Option}
use codex_storage_doctor.Json.{Json, Fields}

pub record Host : Type 0 where
  -- `hashlib.sha256(text.encode("utf-8")).hexdigest()`
  pub sha256 : String → String
  -- `json.dumps(value, ensure_ascii=True, sort_keys=True, separators=(",", ":"))`
  pub dumps : Fields → String
  -- `render_json(value)` of reports.py, which is `json.dumps` with an indentation
  pub render : Fields → String
  -- `str(Path(text))`
  pub path : String → String
  -- `path.is_absolute()`
  pub is_absolute : String → Bool
  -- `path.name`
  pub base_name : String → String
  -- `path.parent`
  pub parent : String → String
  -- `path / part`
  pub join : String → String → String
  -- `os.path.normcase(os.path.normpath(path))`
  pub normal : String → String
  -- `os.path.normcase(path)`
  pub normcase : String → String
  -- `target.relative_to(mount_point)` does not raise
  pub is_under : String → String → Bool
  -- `len(path.parts)`
  pub depth : String → ℕ
  -- `PureWindowsPath(text).drive`, and `anchor or parts[0]` where there are parts
  pub windows_drive : String → String
  pub windows_anchor : String → Option String
  -- `PureWindowsPath(text).name`
  pub windows_name : String → String
  -- `json.JSONDecoder().decode(text)`; none is a JSONDecodeError
  pub decode : String → Option Json
  -- `re.match(r"\w", character)`
  pub is_word : Char → Bool
