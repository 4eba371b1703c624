-- ===== src/Planning/Modes.antt =====
-- `TRIGGER_NAMES`, `TRIGGER_SQL`, `normalize_sql` and the refusals of a document.
use codex_storage_doctor.Prelude.{
  String, ◌==◌, ◌<>◌, Bool, Option, none, some, List, [], ◌∷◌, if◌then◌else◌,
}
use codex_storage_doctor.Text.{strip, rstrip_if, is_semicolon, split, join_words}
use codex_storage_doctor.Errors.{Exn}
use codex_storage_doctor.Effects.{Outcome, ok, raised}

pub data Mode : Type 0 where
  balanced maximum : Mode

abbrev pub doctor_trigger_prefix : String
doctor_trigger_prefix = "codex_storage_doctor_v1_"

-- The key of `TRIGGER_SQL` that a text is, if it is one.
unfoldable pub mode_of : String → Option Mode
mode_of s = if s == "balanced" then some balanced else if s == "maximum" then some maximum else none

abbrev pub mode_name : Mode → String
mode_name balanced = "balanced"
mode_name maximum = "maximum"

-- `TRIGGER_NAMES[mode]`
unfoldable pub trigger_names : Mode → String
trigger_names balanced = doctor_trigger_prefix <> "balanced"
trigger_names maximum = doctor_trigger_prefix <> "maximum"

-- `TRIGGER_SQL[mode]`
unfoldable pub trigger_sql : Mode → String
trigger_sql balanced =
    "CREATE TRIGGER codex_storage_doctor_v1_balanced\nBEFORE INSERT ON logs\nWHEN UPPER(COALESCE(NEW.level, '')) IN ('TRACE', 'DEBUG', 'INFO')\nBEGIN\n  SELECT RAISE(IGNORE);\nEND"
trigger_sql maximum =
    "CREATE TRIGGER codex_storage_doctor_v1_maximum\nBEFORE INSERT ON logs\nBEGIN\n  SELECT RAISE(IGNORE);\nEND"

unfoldable pub normalize_sql : String → String
unfolding strip rstrip_if is_semicolon split join_words
normalize_sql sql = join_words (split (rstrip_if is_semicolon (strip sql)))

-- A run of `if test: raise error` statements: the first test that holds decides.
unfoldable pub first_refusal : List (Bool × Exn) → Outcome (Unit {0})
first_refusal [] = ok tt
first_refusal ((test, error) ∷ rest) = if test then raised error else first_refusal rest
