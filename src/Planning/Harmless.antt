-- ===== src/Planning/Harmless.antt =====
-- Planning and the machine it runs on.
use codex_storage_doctor.Prelude.{String}
use codex_storage_doctor.Json.{Fields}
use codex_storage_doctor.Host.{Host}
use codex_storage_doctor.Effects.{World, Env}
use codex_storage_doctor.Effects.Reading.{Read, Reading}
use codex_storage_doctor.Planning.Reads.{planning_reads}
use codex_storage_doctor.Planning.Create.{create_plan}

module _ (host : Host) where
  Reading-create_plan :
      (database mode : String) (seen : Fields) → Reading (create_plan host database mode seen)
  unfolding create_plan
  Reading-create_plan database mode seen = search planning_reads depth 60

  -- Whatever planning finds, and whether it returns a plan or raises, it makes reading requests only:
  -- it asks about paths and the platform, runs `mount` or `codex --version`, and opens, reads and
  -- closes a read-only connection; it makes no request that writes, moves or removes a file, that
  -- opens a writable connection, or that sends SQLite a statement that edits.
  pub create_plan-Read :
      (env : Env) (database mode : String) (seen : Fields) (w : World)
      → Read w (create_plan host database mode seen env w).1
  create_plan-Read env database mode seen w = (Reading-create_plan database mode seen).at env w
