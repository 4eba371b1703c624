-- ===== src/Planning/Quiet.antt =====
-- What planning.py, filesystem.py and the shared questions read, they read without a change.
use codex_storage_doctor.Prelude.{String, Option}
use codex_storage_doctor.Errors.{Exn}
use codex_storage_doctor.Host.{Host}
use codex_storage_doctor.Effects.{Conn, M}
use codex_storage_doctor.Effects.Rules.{Quiet, quiet_rules}
use codex_storage_doctor.Effects.Reading.{Quiet-Reading}
use codex_storage_doctor.Planning.Reads.{
  Reading-read_file_identity, Reading-observed_codex_version, Reading-cross_boundary_reason,
  Reading-refuse_reason, Reading-nonlocal_filesystem_reason,
}
use codex_storage_doctor.Filesystem.{nonlocal_filesystem_reason}
use codex_storage_doctor.Planning.Schema.{
  validate_log_schema, doctor_triggers_connection, log_triggers_connection,
  schema_fingerprint_connection,
}
use codex_storage_doctor.Planning.Surroundings.{
  read_file_identity, with_reader, observed_codex_version, cross_boundary_reason,
}
use codex_storage_doctor.Planning.Create.{refuse_reason}

pub Quiet-read_file_identity : (path : String) → Quiet (read_file_identity path)
Quiet-read_file_identity path = Quiet-Reading (Reading-read_file_identity path)

pub Quiet-with_reader :
    {A : Type 0} (path : String) (body : M A) → Quiet body → Quiet (with_reader path body)
unfolding with_reader
Quiet-with_reader path body q = search quiet_rules depth 20

pub Quiet-validate_log_schema :
    (conn : Conn) (mode : String) → Quiet (validate_log_schema conn mode)
unfolding validate_log_schema
Quiet-validate_log_schema conn mode = search quiet_rules depth 20

pub Quiet-doctor_triggers_connection : (conn : Conn) → Quiet (doctor_triggers_connection conn)
unfolding doctor_triggers_connection
Quiet-doctor_triggers_connection conn = search quiet_rules

pub Quiet-log_triggers_connection : (conn : Conn) → Quiet (log_triggers_connection conn)
unfolding log_triggers_connection
Quiet-log_triggers_connection conn = search quiet_rules

pub Quiet-schema_fingerprint_connection :
    (host : Host) (conn : Conn) → Quiet (schema_fingerprint_connection host conn)
unfolding schema_fingerprint_connection
Quiet-schema_fingerprint_connection host conn = search quiet_rules

pub Quiet-observed_codex_version : Quiet observed_codex_version
Quiet-observed_codex_version = Quiet-Reading Reading-observed_codex_version

pub Quiet-cross_boundary_reason : (path : String) → Quiet (cross_boundary_reason path)
Quiet-cross_boundary_reason path = Quiet-Reading (Reading-cross_boundary_reason path)

pub Quiet-refuse_reason : (o : Option String) (e : String → Exn) → Quiet (refuse_reason o e)
Quiet-refuse_reason o e = Quiet-Reading (Reading-refuse_reason o e)

pub Quiet-nonlocal_filesystem_reason :
    (host : Host) (path : String) → Quiet (nonlocal_filesystem_reason host path)
Quiet-nonlocal_filesystem_reason host path =
    Quiet-Reading (Reading-nonlocal_filesystem_reason host path)

pub ruleset planning_rules = (
  quiet_rules, Quiet-read_file_identity, Quiet-with_reader, Quiet-validate_log_schema,
  Quiet-doctor_triggers_connection, Quiet-log_triggers_connection,
  Quiet-schema_fingerprint_connection, Quiet-observed_codex_version, Quiet-cross_boundary_reason,
  Quiet-refuse_reason, Quiet-nonlocal_filesystem_reason,
)
