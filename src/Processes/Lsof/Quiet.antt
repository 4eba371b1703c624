-- ===== src/Processes/Lsof/Quiet.antt =====
-- The parser of lsof's output changes nothing in a database.
use Prim.Native.Char.{Char}
use codex_storage_doctor.Prelude.{ℕ, String, Bool, List, [], ◌∷◌}
use codex_storage_doctor.Host.{Host}
use codex_storage_doctor.Effects.Rules.{
  Quiet, Quiet-pure, Quiet-if, Quiet-option, Quiet-bind, quiet_rules,
}
use codex_storage_doctor.Processes.{Database}
use codex_storage_doctor.Processes.Quiet.{Quiet-match_database}
use codex_storage_doctor.Processes.Lsof.{
  Parser, corrupt, start_record, parse_name, parse_field, parse_line, parse_lines,
  parse_lsof_holders,
}

module _ (host : Host) where
  module _ (allow require : Bool) where
    Quiet-parse_name :
        (pid : ℕ) (value : String) (p : Parser) → Quiet (parse_name host allow require pid value p)
    unfolding parse_name
    Quiet-parse_name pid value p =
        Quiet-bind _ _ (Quiet-match_database host _ _ _) (λ found. Quiet-pure _)

    Quiet-parse_field :
        (pid : ℕ) (c : Char) (value : String) (p : Parser)
        → Quiet (parse_field host allow require pid c value p)
    unfolding parse_field
    Quiet-parse_field pid c value p = search (quiet_rules, Quiet-parse_name) depth 20

    Quiet-parse_line : (line : String) (p : Parser) → Quiet (parse_line host allow require line p)
    unfolding parse_line
    Quiet-parse_line String.[] p = Quiet-pure p
    Quiet-parse_line (String.◌∷◌ c value) p =
        Quiet-if _ _ _ (Quiet-pure (start_record require value p)) (
          Quiet-option p.current_pid _ _ (Quiet-pure (corrupt p))
            (λ pid. Quiet-parse_field pid c value p))

    Quiet-parse_lines :
        (rest : List String) (p : Parser) → Quiet (parse_lines host allow require rest p)
    unfolding parse_lines
    Quiet-parse_lines [] p = Quiet-pure _
    Quiet-parse_lines (line ∷ rest) p =
        Quiet-bind _ _ (Quiet-parse_line line p) (λ q. Quiet-parse_lines rest q)

    pub Quiet-parse_lsof_holders :
        (output : String) (ds : List Database)
        → Quiet (parse_lsof_holders host allow require output ds)
    unfolding parse_lsof_holders
    Quiet-parse_lsof_holders output ds = Quiet-parse_lines _ _
