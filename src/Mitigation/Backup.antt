-- ===== src/Mitigation/Backup.antt =====
-- The writable connection, `_quick_check`, `_restrict`, the room for a backup, `_backup_database`,
-- `_storage_state` and `_same_file`.
use codex_storage_doctor.Prelude.{
  ℕ, ◌+◌, ◌*◌, max, String, ◌<>◌, Bool, true, false, not, ◌&&◌, ◌||◌, Option, none, some, eqb, ltb,
  if◌then◌else◌,
}
use codex_storage_doctor.Decimal.{decimal}
use codex_storage_doctor.Errors.{Exn, safety_gate, is_os, is_operational, is_file_not_found}
use codex_storage_doctor.Effects.{
  Conn, Request, Stat, M, pure, raise, call, ◌>>=◌, ◌>>◌, catch, refuse_if,
}
use codex_storage_doctor.Reports.{ignore_os, on_error}
use codex_storage_doctor.Planning.Surroundings.{with_reader}
use codex_storage_doctor.Planning.Create.{quick_check_fails}

unfoldable pub connect_writable : String → M (Unit {0})
unfolding is_os is_operational
connect_writable path = do
  catch
      (do
        resolved ← call (Request.resolve_strict path)
        call (Request.connect Conn.writer resolved))
      (λ e.
        if is_os e || is_operational e
        then raise
            (safety_gate "writable target is unavailable; refusing without creating a database")
        else raise e)
  call (Request.pragma Conn.writer "busy_timeout=1000")

-- `_quick_check(connection, label)`
unfoldable pub check_integrity : Conn → String → M (Unit {0})
unfolding quick_check_fails
check_integrity conn label = do
  row ← call (Request.quick_check conn)
  refuse_if (quick_check_fails row) (safety_gate (label <> " quick_check did not return ok"))

abbrev permission_refusal : Exn
permission_refusal = safety_gate "restrictive artifact permissions could not be established"

-- What follows the stat: the mode must be the one asked for, but on Windows.
unfoldable pub confirm_mode : ℕ → Option ℕ → M (Unit {0})
confirm_mode mode none = pure tt
confirm_mode mode (some actual) = do
  nt ← call Request.os_is_nt
  refuse_if (not nt && not (eqb actual mode)) permission_refusal

-- `_restrict`: none stands for its `return` in the handler.
unfoldable pub restrict : String → ℕ → M (Unit {0})
unfolding is_os confirm_mode
restrict path mode = do
  actual ←
      catch
        (do
          call (Request.chmod path mode)
          found ← call (Request.stat_mode path)
          pure (some found))
        (λ e.
          if is_os e
          then (do nt ← call Request.os_is_nt; if nt then pure none else raise permission_refusal)
          else raise e)
  confirm_mode mode actual

abbrev pub min_free_margin : ℕ
min_free_margin = 10 * 1024 * 1024

-- The free bytes that a backup of so many source bytes wants.
unfoldable pub needed_bytes : ℕ → ℕ
needed_bytes source = max (source * 2) (source + min_free_margin)

-- `try: path.stat()` with `except FileNotFoundError`
unfoldable pub stat_if_there : String → M (Option Stat)
unfolding is_file_not_found
stat_if_there path =
    catch (do found ← call (Request.stat path); pure (some found))
      (λ e. if is_file_not_found e then pure none else raise e)

abbrev size_or_zero : Option Stat → ℕ
size_or_zero none = 0
size_or_zero (some s) = s.size

unfoldable pub ensure_backup_space : String → String → M (Unit {0})
unfolding restrict needed_bytes stat_if_there
ensure_backup_space database artifact_root = do
  call (Request.make_dirs artifact_root 0o700)
  restrict artifact_root 0o700
  found ← call (Request.stat database)
  wal ← stat_if_there (database <> "-wal")
  available ← call (Request.disk_free artifact_root)
  let needed = needed_bytes (found.size + size_or_zero wal)
  refuse_if (ltb available needed) (
      safety_gate
        ("insufficient free space for verified backup: need " <> (decimal needed <> " bytes")))

-- The copy, closed and removed again unless SQLite finds it sound.
unfoldable pub copy_database : String → String → M (Unit {0})
unfolding on_error with_reader check_integrity ignore_os
copy_database database temporary = do
  call (Request.connect Conn.copy temporary)
  on_error
      (do
        with_reader database (call (Request.backup Conn.reader Conn.copy))
        check_integrity Conn.copy "backup")
      (do call (Request.close Conn.copy); ignore_os (call (Request.unlink temporary)))
  call (Request.close Conn.copy)

-- The move to the destination, which fails on an existing file.
unfoldable pub publish_backup : String → String → M (Unit {0})
unfolding on_error restrict ignore_os
publish_backup temporary destination =
    on_error
      (do
        restrict temporary 0o600
        nt ← call Request.os_is_nt
        if nt
            then call (Request.rename temporary destination)
            else (call (Request.link temporary destination) >> call (Request.unlink temporary))
        restrict destination 0o600)
      (ignore_os (call (Request.unlink temporary)))

unfoldable pub backup_database : String → String → M (String × ℕ)
unfolding copy_database publish_backup
backup_database database destination = do
  let temporary = destination <> ".tmp"
  taken ← call (Request.exists destination)
  left ← (if taken then pure true else call (Request.exists temporary))
  refuse_if left (safety_gate "refusing to overwrite an existing backup artifact")
  copy_database database temporary
  publish_backup temporary destination
  digest ← call (Request.sha256_file destination)
  found ← call (Request.stat destination)
  pure (digest, found.size)

-- Size and time of the database, and those of its WAL if there is one.
pub record StorageState : Type 0 where
  pub size : ℕ
  pub mtime_ns : ℕ
  pub wal : Option (ℕ × ℕ)

abbrev wal_state : Option Stat → Option (ℕ × ℕ)
wal_state none = none
wal_state (some s) = some (s.size, s.mtime_ns)

unfoldable pub storage_state : String → M StorageState
unfolding stat_if_there
storage_state database = do
  found ← call (Request.stat database)
  wal ← stat_if_there (database <> "-wal")
  pure (record { size = found.size; mtime_ns = found.mtime_ns; wal = wal_state wal })

abbrev same_wal : Option (ℕ × ℕ) → Option (ℕ × ℕ) → Bool
same_wal none none = true
same_wal (some (a, b)) (some (c, d)) = eqb a c && eqb b d
same_wal _ _ = false

unfoldable pub same_storage : StorageState → StorageState → Bool
same_storage a b = eqb a.size b.size && eqb a.mtime_ns b.mtime_ns && same_wal a.wal b.wal

-- `_same_file`
unfoldable pub same_file : Stat → Stat → Bool
same_file left right =
    if eqb left.device 0 || eqb left.inode 0
    then true
    else eqb right.device left.device && eqb right.inode left.inode
