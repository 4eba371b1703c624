-- ===== src/Filesystem.antt =====
-- filesystem.py: is the target on a local filesystem. The answer is a refusal, or none.
pub mod Types
use Prim.Native.Nat.{Ordering}
use Prim.Native.String.{compare}
use codex_storage_doctor.Prelude.{
  ℕ, String, ◌==◌, ◌<>◌, starts_with, Bool, not, ◌&&◌, ◌||◌, Option, none, some, List, [], ◌∷◌, ltb,
  eqb, contains, if◌then◌else◌,
}
use codex_storage_doctor.Text.{lower, strip, split}
use codex_storage_doctor.Text.Cut.{lines, partition, rpartition, decode_mount_path}
use codex_storage_doctor.Json.{pos, eq_ℤ}
use codex_storage_doctor.Errors.{is_os}
use codex_storage_doctor.Host.{Host}
use codex_storage_doctor.Effects.{Completed, Request, M, pure, raise, call, ◌>>=◌, ◌>>◌, catch}

abbrev pub remote_filesystems : List String
remote_filesystems =
    "9p" ∷ "afs" ∷ "afpfs" ∷ "autofs" ∷ "ceph" ∷ "cifs" ∷ "davfs" ∷ "fuse.rclone" ∷ "fuse.sshfs"
    ∷ "glusterfs" ∷ "nfs" ∷ "nfs4" ∷ "osxfuse" ∷ "smb3" ∷ "smbfs" ∷ "sshfs" ∷ "webdav" ∷ []

abbrev pub local_filesystems : List String
local_filesystems =
    "apfs" ∷ "btrfs" ∷ "devfs" ∷ "exfat" ∷ "ext2" ∷ "ext3" ∷ "ext4" ∷ "f2fs" ∷ "hfs" ∷ "hfsplus"
    ∷ "msdos" ∷ "ntfs" ∷ "ntfs3" ∷ "overlay" ∷ "tmpfs" ∷ "ufs" ∷ "vfat" ∷ "xfs" ∷ "zfs" ∷ []

-- A mount point that holds the target: the number of its parts, and its filesystem.
abbrev pub Match : Type 0
Match = ℕ × String

-- `max` of two pairs: the first of two equal ones.
larger : Match → Match → Match
larger (m, s) (n, t) =
    if ltb m n
    then (n, t)
    else if eqb m n
    then elim (compare s t) [ Ordering.lt ↦ (n, t) | _ ↦ (m, s) ]
    else (m, s)

-- `max(matches, default=(0, ""))`
unfoldable pub largest : List Match → Match
unfolding larger
largest [] = (0, "")
largest (m ∷ []) = m
largest (m ∷ n ∷ rest) = larger m (largest (n ∷ rest))

-- `max(…)[1] or None`
unfoldable pub chosen : List Match → Option String
unfolding largest
chosen matches = let (_, fs) = largest matches in if fs == "" then none else some fs

module _ (host : Host) where
  -- The part of a line of mountinfo before " - ", by its fields, with the first word behind.
  linux_fields : String → List String → List String → List Match
  unfolding decode_mount_path lower
  linux_fields target (a ∷ b ∷ c ∷ d ∷ point ∷ _) (fs ∷ _) =
      let mount_point = host.path (decode_mount_path point) in
      if host.is_under target mount_point then (host.depth mount_point, lower fs) ∷ [] else []
  linux_fields target _ _ = []

  linux_line : String → String → List Match
  unfolding linux_fields partition split
  linux_line target line = elim (partition " - " line) [
    | none ↦ []
    | some (left, right) ↦ linux_fields target (split left) (split right)
  ]

  linux_matches : String → List String → List Match
  unfolding linux_line
  linux_matches target [] = []
  linux_matches target (line ∷ rest) =
      mathlib.Core.List.◌++◌ (linux_line target line) (linux_matches target rest)

  unfoldable pub linux_type_in : String → Option String → M (Option String)
  unfolding linux_matches chosen lines
  linux_type_in path none = pure none
  linux_type_in path (some content) = do
    target ← call (Request.resolve path)
    pure (chosen (linux_matches target (lines content)))

  unfoldable pub linux_filesystem_type : String → M (Option String)
  unfolding linux_type_in is_os
  linux_filesystem_type path = do
    text ←
        catch (do content ← call (Request.read_text "/proc/self/mountinfo"); pure (some content))
          (λ e. if is_os e then pure none else raise e)
    linux_type_in path text

  -- The text before the last character, if that is a closing parenthesis.
  inside_options : String → Option String
  unfolding rpartition
  inside_options options = elim (rpartition ")" options) [
    | none ↦ none
    | some (inner, rest) ↦ if rest == "" then some inner else none
  ]

  first_option : String → String
  unfolding partition strip lower
  first_option options = elim (partition "," options) [
    | none ↦ lower (strip options)
    | some (first, _) ↦ lower (strip first)
  ]

  darwin_mount : String → String → String → List Match
  unfolding partition first_option
  darwin_mount target prefix options = elim (partition " on " prefix) [
    | none ↦ []
    | some (_, point) ↦
        let mount_point = host.path point in
        let fs = first_option options in
        if host.is_under target mount_point && not (fs == "")
        then (host.depth mount_point, fs) ∷ []
        else []
  ]

  darwin_options : String → String → Option String → List Match
  unfolding darwin_mount
  darwin_options target prefix none = []
  darwin_options target prefix (some inner) = darwin_mount target prefix inner

  darwin_line : String → String → List Match
  unfolding darwin_options inside_options rpartition
  darwin_line target line = elim (rpartition " (" line) [
    | none ↦ []
    | some (prefix, options) ↦ darwin_options target prefix (inside_options options)
  ]

  darwin_matches : String → List String → List Match
  unfolding darwin_line
  darwin_matches target [] = []
  darwin_matches target (line ∷ rest) =
      mathlib.Core.List.◌++◌ (darwin_line target line) (darwin_matches target rest)

  darwin_type_in : String → Option Completed → Option String
  unfolding darwin_matches chosen lines eq_ℤ
  darwin_type_in path none = none
  darwin_type_in path (some done) =
      if eq_ℤ done.returncode (pos 0)
      then chosen (darwin_matches path (lines done.stdout))
      else none

  unfoldable pub darwin_filesystem_type : String → M (Option String)
  unfolding darwin_type_in is_os
  darwin_filesystem_type path = do
    result ←
        catch (do done ← call (Request.run_command ("mount" ∷ [])); pure (some done))
          (λ e. if is_os e then pure none else raise e)
    pure (darwin_type_in path result)

  unfoldable pub windows_root : String → Option String
  windows_root value =
      if starts_with value "\\\\" || starts_with value "//"
      then host.windows_anchor value
      else if host.windows_drive value == ""
      then none
      else some (host.windows_drive value <> "\\")

-- What is said of a filesystem type; `none` accepts it.
unfoldable pub type_reason : Option String → Option String
type_reason none = some "filesystem locality could not be verified"
type_reason (some fs) =
    if contains remote_filesystems fs
    then some ("remote filesystem type " <> (fs <> " is audit-only"))
    else if not (contains local_filesystems fs)
    then some ("filesystem type " <> (fs <> " is not verified as local"))
    else none

-- What is said of a `GetDriveTypeW` answer.
unfoldable pub drive_reason : Option ℕ → Option String
drive_reason none = some "Windows drive locality could not be verified"
drive_reason (some n) =
    if eqb n 4
    then some "remote Windows drive is audit-only"
    else if eqb n 2 || eqb n 3 || eqb n 6
    then none
    else some "Windows drive locality could not be verified"

abbrev is_bsd : String → Bool
is_bsd system =
    starts_with system "darwin"
    || starts_with system "freebsd"
    || starts_with system "openbsd"
    || starts_with system "netbsd"

module _ (host : Host) where
  unfoldable pub windows_reason : Option String → M (Option String)
  unfolding drive_reason
  windows_reason none = pure (some "Windows drive locality could not be verified")
  windows_reason (some root) = do drive ← call (Request.drive_type root); pure (drive_reason drive)

  reason_on : String → String → M (Option String)
  unfolding linux_filesystem_type darwin_filesystem_type windows_root windows_reason type_reason
  reason_on path system =
      if starts_with system "linux"
      then (do fs ← linux_filesystem_type host path; pure (type_reason fs))
      else if is_bsd system
      then (do fs ← darwin_filesystem_type host path; pure (type_reason fs))
      else if starts_with system "windows"
      then windows_reason (windows_root host path)
      else pure (some "filesystem locality is unsupported on this platform")

  unfoldable pub nonlocal_filesystem_reason : String → M (Option String)
  unfolding reason_on lower
  nonlocal_filesystem_reason path = do
    name ← call Request.platform_system
    reason_on path (lower name)
