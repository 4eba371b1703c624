-- ===== src/Processes/Lsof/Laws.antt =====
-- What an output of lsof about the selected databases says, where the parser finds nothing malformed
-- in it: every holder has one of them open.
use Prim.Native.Char.{Char}
use codex_storage_doctor.Prelude.{
  ℕ, ◌≡◌, refl, sym, subst, ◌⊎◌, inl, inr, String, Bool, true, false, Option, none, some, List, [],
  ◌∷◌, is_nil,
}
use codex_storage_doctor.Text.{is_blank}
use codex_storage_doctor.Text.Cut.{lines}
use codex_storage_doctor.Text.Laws.{all_empty}
use codex_storage_doctor.Host.{Host}
use codex_storage_doctor.Effects.Yields.{
  Yields, Yields-pure, Yields-if, Yields-bind, Yields-bind_with, Yields-weaken,
}
use codex_storage_doctor.Processes.{Database}
use codex_storage_doctor.Processes.Lsof.{
  Parser, corrupt, parse_name, parse_field, parse_line, parse_lines, parse_lsof_holders,
}
use codex_storage_doctor.Processes.Lsof.Fill.{
  AllFilled, Good, Fresh, malformed-Good, AllFill, start_record-Good, take_command-Good,
  record_name-Good, finish-AllFilled, finish_held, was_fine,
}

module _ (host : Host) (allow : Bool) where
  parse_field-Good :
      (pid : ℕ) (c : Char) (value : String) (p : Parser)
      → p.current_pid ≡ some pid
      → Good p
      → Yields Good (parse_field host allow true pid c value p)
  unfolding parse_field parse_name corrupt
  parse_field-Good pid c value p e g =
      Yields-if Good _ _ _ (Yields-pure Good _ (malformed-Good (corrupt p) refl)) (
        Yields-if Good _ _ _
          (Yields-pure Good _ (take_command-Good (host.base_name (host.path value)) pid p g))
          (Yields-if Good _ _ _ (Yields-pure Good p g) (
            Yields-bind Good _ _ (λ (found : Option Database × List Database). Yields-pure Good _ (
              record_name-Good pid found.0 (record p { databases = found.1; saw_name = true }) e
                (record { fills = g.fills; held = g.held }))))))

  -- A line that is not empty, after lines that were read
  parse_line-Good :
      (line : String) (p : Parser) → Good p → Yields Good (parse_line host allow true line p)
  unfolding parse_line corrupt
  parse_line-Good String.[] p g = Yields-pure Good p g
  parse_line-Good (String.◌∷◌ c value) p g =
      Yields-if Good _ _ _ (Yields-pure Good _ (start_record-Good value p g.fills))
        (go p.current_pid refl)
    where
      go :
          (o : Option ℕ)
          → p.current_pid ≡ o
          → Yields Good (elim o [
            | none ↦ codex_storage_doctor.Effects.pure (corrupt p)
            | some pid ↦ parse_field host allow true pid c value p
          ])
      go none e = Yields-pure Good _ (malformed-Good (corrupt p) refl)
      go (some pid) e = parse_field-Good pid c value p e g

  -- The first line that is not empty
  first_line-Good :
      (c : Char) (value : String) (p : Parser)
      → Fresh p
      → Yields Good (parse_line host allow true (String.◌∷◌ c value) p)
  unfolding parse_line corrupt
  first_line-Good c value p (current, empty) =
      Yields-if Good _ _ _
        (Yields-pure Good _ (
          start_record-Good value p
            (λ d. subst (λ hs. AllFill p.current_pid p.matched_target hs) (sym empty) tt)))
        (go p.current_pid current)
    where
      go :
          (o : Option ℕ)
          → o ≡ none
          → Yields Good (elim o [
            | none ↦ codex_storage_doctor.Effects.pure (corrupt p)
            | some pid ↦ parse_field host allow true pid c value p
          ])
      go none e = Yields-pure Good _ (malformed-Good (corrupt p) refl)
      go (some pid) e = cc

  -- The holders that the parser finds in a well-formed output: each has a database open, and there is
  -- one, but for an output of empty lines.
  abbrev pub Found : List String → Parser → Type 0
  Found rest p =
      p.malformed ≡ false
      → AllFilled p.holders × ((is_nil p.holders ≡ false) ⊎ (all_empty rest ≡ true))

  pub record Sound (rest : List String) (p : Parser) : Type 0 where
    pub found : Found rest p

  parse_line_empty : (p : Parser) → Yields (λ q. q ≡ p) (parse_line host allow true String.[] p)
  unfolding parse_line
  parse_line_empty p = Yields-pure (λ q. q ≡ p) p refl

  parse_lines-Good :
      (rest all : List String) (p : Parser)
      → Good p
      → Yields (Sound all) (parse_lines host allow true rest p)
  unfolding parse_lines
  parse_lines-Good [] all p g = Yields-pure (Sound all) _ (record {
    found = λ m. (finish-AllFilled p g.fills m, inl (finish_held p (g.held (was_fine p m))));
  })
  parse_lines-Good (line ∷ rest) all p g =
      Yields-bind_with (Sound all) Good _ _ (parse_line-Good line p g)
        (λ q h. parse_lines-Good rest all q h)

  parse_lines-Sound :
      (rest : List String) (p : Parser)
      → Fresh p
      → Yields (Sound rest) (parse_lines host allow true rest p)
  unfolding parse_lines all_empty is_blank
  parse_lines-Sound [] p (current, empty) = Yields-pure (Sound []) _ (record {
    found = λ m. (
      finish-AllFilled p
          (λ d. subst (λ hs. AllFill p.current_pid p.matched_target hs) (sym empty) tt) m,
      inr refl,
    );
  })
  parse_lines-Sound (String.[] ∷ rest) p f =
      Yields-bind_with (Sound (String.[] ∷ rest)) (λ q. q ≡ p) _ _ (parse_line_empty p)
        (λ q e.
          Yields-weaken (Sound rest) (Sound (String.[] ∷ rest)) _ longer
            (parse_lines-Sound rest q (subst Fresh (sym e) f)))
    where
      longer : (q : Parser) → Sound rest q → Sound (String.[] ∷ rest) q
      longer q s = record { found = s.found }
  parse_lines-Sound (String.◌∷◌ c value ∷ rest) p f =
      Yields-bind_with (Sound (String.◌∷◌ c value ∷ rest)) Good _ _ (first_line-Good c value p f)
        (λ q g. parse_lines-Good rest (String.◌∷◌ c value ∷ rest) q g)

  -- What the parser of lsof's output about the selected databases returns
  pub parse_lsof_holders-Sound :
      (output : String) (databases : List Database)
      → Yields (Sound (lines output)) (parse_lsof_holders host allow true output databases)
  unfolding parse_lsof_holders
  parse_lsof_holders-Sound output databases = parse_lines-Sound (lines output) _ (refl, refl)
