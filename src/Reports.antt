-- ===== src/Reports.antt =====
-- reports.py: private JSON artifacts.
use codex_storage_doctor.Prelude.{String, ◌<>◌, Bool, true, false, not, ◌&&◌, if◌then◌else◌}
use codex_storage_doctor.Json.{Json, Fields, obj}
use codex_storage_doctor.Errors.{
  Exn, artifact_read, file_exists, unicode_error, json_decode_error, is_os, is_file_exists,
}
use codex_storage_doctor.Host.{Host}
use codex_storage_doctor.Effects.{Request, M, pure, raise, call, ◌>>=◌, ◌>>◌, catch, refuse_if}

-- `try: m` with `except OSError: pass`
unfoldable pub ignore_os : M (Unit {0}) → M (Unit {0})
unfolding is_os
ignore_os m = catch m (λ e. if is_os e then pure tt else raise e)

-- `try: m` with `except OSError: if os.name != "nt": raise`
unfoldable pub ignore_os_on_nt : M (Unit {0}) → M (Unit {0})
unfolding is_os
ignore_os_on_nt m = catch m (λ e.
    if is_os e then (do nt ← call Request.os_is_nt; if nt then pure tt else raise e) else raise e)

-- `try: m` with `except BaseException: cleanup; raise`
unfoldable pub on_error : {A : Type 0} → M A → M (Unit {0}) → M A
on_error m cleanup = catch m (λ e. cleanup >> raise e)

abbrev overwrite_error : String → Exn
overwrite_error target = file_exists ("refusing to overwrite existing artifact: " <> target)

-- A step that refuses an existing target.
unfoldable pub guard_exists : String → M (Unit {0}) → M (Unit {0})
unfolding is_file_exists
guard_exists target m =
    catch m (λ e. if is_file_exists e then raise (overwrite_error target) else raise e)

-- How the temporary file becomes the target.
unfoldable pub publish : String → String → Bool → M (Unit {0})
unfolding guard_exists
publish temporary target true = call (Request.replace temporary target)
publish temporary target false = do
  nt ← call Request.os_is_nt
  if nt then guard_exists target (call (Request.rename temporary target)) else do
    guard_exists target (call (Request.link temporary target))
    call (Request.unlink temporary)

module _ (host : Host) where
  unfoldable pub write_private_json : String → Fields → Bool → M String
  unfolding ignore_os ignore_os_on_nt on_error publish
  write_private_json path value overwrite = do
    expanded ← call (Request.expand_user path)
    target ← call (Request.resolve expanded)
    there ← call (Request.exists target)
    refuse_if (there && not overwrite) (overwrite_error target)
    let parent = host.parent target
    parent_existed ← call (Request.exists parent)
    call (Request.make_dirs parent 0o700)
    if parent_existed then pure tt else ignore_os_on_nt (call (Request.chmod parent 0o700))
    temporary ← call (Request.mkstemp parent (host.base_name target))
    on_error
        (do
          call (Request.write_file temporary (host.render value))
          ignore_os_on_nt (call (Request.chmod temporary 0o600))
          publish temporary target overwrite
          ignore_os_on_nt (call (Request.chmod target 0o600)))
        (ignore_os (call (Request.unlink temporary)))
    pure target

-- `except (OSError, UnicodeError, json.JSONDecodeError)`
is_read_failure : Exn → Bool
unfolding is_os
is_read_failure (unicode_error _) = true
is_read_failure (json_decode_error _) = true
is_read_failure e = is_os e

-- The decoded document, if it is an object.
unfoldable pub require_object : Json → M Fields
require_object (obj fs) = pure fs
require_object _ = raise (artifact_read "expected a JSON object artifact")

unfoldable pub read_json_object : String → M Fields
unfolding is_read_failure require_object
read_json_object path = do
  value ←
      catch (do expanded ← call (Request.expand_user path); call (Request.read_json expanded))
        (λ e.
          if is_read_failure e
          then raise (artifact_read "the requested JSON artifact could not be read safely")
          else raise e)
  require_object value
