-- ===== src/Planning/Surroundings.antt =====
-- `read_file_identity`, `observed_codex_version`, `is_wsl`, `cross_boundary_reason`,
-- `expected_artifact_root` and the read-only connection of planning.py.
use codex_storage_doctor.Prelude.{
  String, ◌==◌, starts_with, Bool, true, false, not, ◌&&◌, ◌||◌, Option, none, some, [], ◌∷◌,
  if◌then◌else◌,
}
use codex_storage_doctor.Text.{
  lower, strip, first_line, prefix, has_part, forward_slashes, is_mounted_drive,
}
use codex_storage_doctor.Json.{pos, eq_ℤ}
use codex_storage_doctor.Errors.{Exn, timeout_expired, is_os}
use codex_storage_doctor.Host.{Host}
use codex_storage_doctor.Effects.{
  Conn, Request, Stat, Completed, M, pure, raise, call, ◌>>=◌, ◌>>◌, catch, attempt, return,
}

-- `st_dev` and `st_ino` are attributes of every stat result of the platforms that mutate.
unfoldable pub read_file_identity : String → M Stat
read_file_identity path = call (Request.stat path)

-- The body of `with read_only_connection(path) as connection`: the connection is closed however
-- the body ends.
module _ {A : Type 0} where
  unfoldable pub with_reader : String → M A → M A
  with_reader path body = do
    resolved ← call (Request.resolve path)
    call (Request.connect Conn.reader resolved)
    result ← attempt (call (Request.pragma Conn.reader "query_only=ON") >> body)
    call (Request.close Conn.reader)
    return result

-- `except (OSError, subprocess.SubprocessError)`
unfoldable pub is_command_failure : Exn → Bool
unfolding is_os
is_command_failure timeout_expired = true
is_command_failure e = is_os e

unfoldable pub version_of : Completed → Option String
unfolding eq_ℤ strip first_line prefix
version_of c =
    if not (eq_ℤ c.returncode (pos 0)) || (strip c.stdout == "")
    then none
    else some (prefix 128 (first_line (strip c.stdout)))

unfoldable pub observed_codex_version : M (Option String)
unfolding version_of is_command_failure
observed_codex_version =
    catch
      (do done ← call (Request.run_command ("codex" ∷ "--version" ∷ [])); pure (version_of done))
      (λ e. if is_command_failure e then pure none else raise e)

abbrev is_set : Option String → Bool
is_set none = false
is_set (some s) = not (s == "")

unfoldable pub is_wsl : M Bool
unfolding is_os has_part lower
is_wsl = do
  distro ← call (Request.environ "WSL_DISTRO_NAME")
  interop ← call (Request.environ "WSL_INTEROP")
  if is_set distro || is_set interop
      then pure true
      else catch
          (do
            release ← call (Request.read_text "/proc/sys/kernel/osrelease")
            pure (has_part (lower release) "microsoft" || has_part (lower release) "wsl"))
          (λ e. if is_os e then pure false else raise e)

abbrev windows_refusal : String
windows_refusal = "Windows cannot mutate a WSL database; run the doctor inside WSL"

abbrev wsl_refusal : String
wsl_refusal = "WSL cannot mutate a Windows-hosted database; run the doctor in native Windows"

unfoldable pub cross_boundary_reason : String → M (Option String)
unfolding is_wsl lower forward_slashes is_mounted_drive
cross_boundary_reason path = do
  name ← call Request.platform_system
  let system = lower name
  let normalized = lower (forward_slashes path)
  let wsl_share = starts_with normalized "//wsl$/" || starts_with normalized "//wsl.localhost/"
  if (system == "windows") && wsl_share then pure (some windows_refusal) else do
    inside ← (if system == "linux" then is_wsl else pure false)
    pure (if inside && is_mounted_drive normalized then some wsl_refusal else none)

unfoldable pub expected_artifact_root : Host → String → String
expected_artifact_root host database =
    host.join (host.join (host.parent database) ".codex-storage-doctor") "rollback"
