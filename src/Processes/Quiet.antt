-- ===== src/Processes/Quiet.antt =====
-- The scanners ask the surroundings, and change nothing in a database.
use codex_storage_doctor.Prelude.{ℕ, String, refl, Bool, List, [], ◌∷◌}
use codex_storage_doctor.Host.{Host}
use codex_storage_doctor.Effects.{M, Request}
use codex_storage_doctor.Effects.Rules.{
  Quiet, Quiet-call, Quiet-pure, Quiet-if, Quiet-option, Quiet-bind, quiet_rules,
}
use codex_storage_doctor.Processes.{
  Database, on_os_error, run, normalized, match_database, database_by_key, parse_linux_write_bytes,
}

pub Quiet-on_os_error : {A : Type 0} (m h : M A) → Quiet m → Quiet h → Quiet (on_os_error m h)
unfolding on_os_error
Quiet-on_os_error m h p q = search quiet_rules

pub Quiet-run : (command : List String) → Quiet (run command)
unfolding run
Quiet-run command = search quiet_rules depth 20

module _ (host : Host) where
  pub Quiet-normalized : (path : String) → Quiet (normalized host path)
  unfolding normalized
  Quiet-normalized path = search (quiet_rules, Quiet-on_os_error) depth 20

  pub Quiet-match_database :
      (allow : Bool) (target : String) (ds : List Database)
      → Quiet (match_database host allow target ds)
  unfolding match_database
  Quiet-match_database allow target ds = Quiet-bind _ _ (Quiet-normalized target) (λ key.
      Quiet-option _ _ _
        (Quiet-if _ _ _ (Quiet-pure _)
          (Quiet-bind _ _ (Quiet-call (Request.absolute target) refl) (λ a. Quiet-pure _)))
        (λ d. Quiet-pure _))

  pub Quiet-database_by_key :
      (paths : List String) (n : ℕ) (ds : List Database) → Quiet (database_by_key host n paths ds)
  unfolding database_by_key
  Quiet-database_by_key [] n ds = Quiet-pure ds
  Quiet-database_by_key (p ∷ ps) n ds =
      Quiet-bind _ _ (Quiet-normalized p) (λ key. Quiet-database_by_key ps _ _)

pub Quiet-parse_linux_write_bytes : (path : String) → Quiet (parse_linux_write_bytes path)
unfolding parse_linux_write_bytes
Quiet-parse_linux_write_bytes path = search quiet_rules depth 20
