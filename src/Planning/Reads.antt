-- ===== src/Planning/Reads.antt =====
-- What planning.py, filesystem.py and the shared questions do, they do by requests that read.
use codex_storage_doctor.Prelude.{String, Option, none, some, refl}
use codex_storage_doctor.Errors.{Exn}
use codex_storage_doctor.Host.{Host}
use codex_storage_doctor.Effects.{Conn, M, Request}
use codex_storage_doctor.Effects.Reading.{Reading, Reading-call, reading_rules}
use codex_storage_doctor.Filesystem.{
  nonlocal_filesystem_reason, linux_type_in, linux_filesystem_type, darwin_filesystem_type,
  windows_reason,
}
use codex_storage_doctor.Planning.Schema.{
  validate_log_schema, doctor_triggers_connection, log_triggers_connection,
  schema_fingerprint_connection,
}
use codex_storage_doctor.Planning.Surroundings.{
  read_file_identity, with_reader, observed_codex_version, is_wsl, cross_boundary_reason,
}
use codex_storage_doctor.Planning.Create.{refuse_reason}

pub Reading-read_file_identity : (path : String) → Reading (read_file_identity path)
unfolding read_file_identity
Reading-read_file_identity path = Reading-call (Request.stat path) refl

pub Reading-with_reader :
    {A : Type 0} (path : String) (body : M A) → Reading body → Reading (with_reader path body)
unfolding with_reader
Reading-with_reader path body q = search reading_rules depth 20

pub Reading-validate_log_schema : (mode : String) → Reading (validate_log_schema Conn.reader mode)
unfolding validate_log_schema
Reading-validate_log_schema mode = search reading_rules depth 20

pub Reading-doctor_triggers_connection : Reading (doctor_triggers_connection Conn.reader)
unfolding doctor_triggers_connection
Reading-doctor_triggers_connection = search reading_rules

pub Reading-log_triggers_connection : Reading (log_triggers_connection Conn.reader)
unfolding log_triggers_connection
Reading-log_triggers_connection = search reading_rules

pub Reading-schema_fingerprint_connection :
    (host : Host) → Reading (schema_fingerprint_connection host Conn.reader)
unfolding schema_fingerprint_connection
Reading-schema_fingerprint_connection host = search reading_rules

pub Reading-observed_codex_version : Reading observed_codex_version
unfolding observed_codex_version
Reading-observed_codex_version = search reading_rules depth 20

Reading-is_wsl : Reading is_wsl
unfolding is_wsl
Reading-is_wsl = search reading_rules depth 20

pub Reading-cross_boundary_reason : (path : String) → Reading (cross_boundary_reason path)
unfolding cross_boundary_reason
Reading-cross_boundary_reason path = search (reading_rules, Reading-is_wsl) depth 20

pub Reading-refuse_reason : (o : Option String) (e : String → Exn) → Reading (refuse_reason o e)
unfolding refuse_reason
Reading-refuse_reason none e = search reading_rules
Reading-refuse_reason (some s) e = search reading_rules

module _ (host : Host) where
  Reading-linux_type_in : (path : String) (o : Option String) → Reading (linux_type_in host path o)
  unfolding linux_type_in
  Reading-linux_type_in path none = search reading_rules
  Reading-linux_type_in path (some content) = search reading_rules

  Reading-linux : (path : String) → Reading (linux_filesystem_type host path)
  unfolding linux_filesystem_type
  Reading-linux path = search (reading_rules, Reading-linux_type_in) depth 20

  Reading-darwin : (path : String) → Reading (darwin_filesystem_type host path)
  unfolding darwin_filesystem_type
  Reading-darwin path = search reading_rules depth 20

  Reading-windows_reason : (o : Option String) → Reading (windows_reason host o)
  unfolding windows_reason
  Reading-windows_reason none = search reading_rules depth 20
  Reading-windows_reason (some root) = search reading_rules depth 20

  pub Reading-nonlocal_filesystem_reason :
      (path : String) → Reading (nonlocal_filesystem_reason host path)
  unfolding nonlocal_filesystem_reason
  Reading-nonlocal_filesystem_reason path =
      search (reading_rules, Reading-linux, Reading-darwin, Reading-windows_reason) depth 20

pub ruleset planning_reads = (
  reading_rules, Reading-read_file_identity, Reading-with_reader, Reading-validate_log_schema,
  Reading-doctor_triggers_connection, Reading-log_triggers_connection,
  Reading-schema_fingerprint_connection, Reading-observed_codex_version,
  Reading-cross_boundary_reason, Reading-refuse_reason, Reading-nonlocal_filesystem_reason,
)
