-- ===== src/Processes/Linux/Fds/Verdict.antt =====
-- What a scan on Linux rests on when it claims complete evidence: an answer of lsof about the selected
-- databases. And what lsof must have answered for the scan to pass the process gate.
use codex_storage_doctor.Prelude.{
  String, ◌≡◌, refl, sym, subst, ◌∙◌, ◌⊎◌, inl, inr, Bool, true, false, ◌||◌, Option, none, some,
  List, [], ◌∷◌, is_nil,
}
use codex_storage_doctor.Text.{strip, is_blank}
use codex_storage_doctor.Text.Cut.{lines}
use codex_storage_doctor.Text.Laws.{lines_blank}
use codex_storage_doctor.Json.{pos}
use codex_storage_doctor.Errors.{Exn}
use codex_storage_doctor.Host.{Host}
use codex_storage_doctor.Mitigation.Gate.{gate_verdict}
use codex_storage_doctor.Mitigation.Gate.Verdict.{true_false}
use codex_storage_doctor.Effects.{Completed, Request, ok, raised, World, Env, M, pure, ◌>>=◌}
use codex_storage_doctor.Effects.Rules.{Calm, Quiet-call}
use codex_storage_doctor.Effects.Mutations.{Post, step, step_quiet}
use codex_storage_doctor.Models.Scan.{ProcessScan, scan_to_dict}
use codex_storage_doctor.Models.Scan.Gate.{gate_verdict-scan_to_dict-Idle}
use codex_storage_doctor.Processes.{Database, run, lsof_command}
use codex_storage_doctor.Processes.Quiet.{Quiet-database_by_key}
use codex_storage_doctor.Processes.Lsof.{Parser, parse_lsof_holders}
use codex_storage_doctor.Processes.Lsof.Quiet.{Quiet-parse_lsof_holders}
use codex_storage_doctor.Processes.Lsof.Laws.{Sound, parse_lsof_holders-Sound}
use codex_storage_doctor.Processes.Linux.{
  Tally, Evidence, evidence_of, target_evidence, sort_holders, remaining_holders, result_of,
  unavailable_scan,
}
use codex_storage_doctor.Processes.Linux.Fds.{
  visit_directories, start_tally, scan_directories, scan_found, scan_linux,
}
use codex_storage_doctor.Processes.Linux.Fds.Quiet.{Quiet-pid_directories, Quiet-visit_directories}
use codex_storage_doctor.Processes.Linux.Fds.Tallies.{Tracked, directories-Tracked}
use codex_storage_doctor.Processes.Linux.Fds.Holders.{
  sort-AllFilled, sort_held, remaining-partial, remaining_observed,
}
use codex_storage_doctor.Processes.Linux.Fds.Asked.{
  Asked, Credible, Backed, Asked-Calm, Ran, run-Ran, not-true, blank_output, nobody,
}

fine : (a b c : Bool) → a || b || c ≡ false → (a ≡ false) × (b ≡ false) × (c ≡ false)
fine false false false h = (refl, refl, refl)
fine true b c h = cc
fine false true c h = cc
fine false false true h = cc

module _ (host : Host) (path : String) (paths : List String) (env : Env) where
  command : List String
  command = lsof_command (path ∷ paths)

  Known : Post Evidence
  Known (ok v) w = v.partial ≡ false → Credible (lsof_command (path ∷ paths)) v.holders w.trace
  Known (raised e) w = Unit

  known_evidence :
      (c : Completed) (p : Parser) (w : World)
      → Asked (lsof_command (path ∷ paths)) c w.trace
      → Sound host false (lines c.stdout) p
      → Known (ok (evidence_of c p)) w
  unfolding Known evidence_of
  known_evidence c p w a s e =
      let (trusted, well_formed, spoken) = fine _ _ _ e in
      let (filled, named) = s.found well_formed in
      record {
        answer = c;
        asked = a;
        trusted = trusted;
        spoken = spoken;
        filled = filled;
        named = blank named;
      }
    where
      blank :
          (is_nil p.holders ≡ false)
            ⊎ (codex_storage_doctor.Text.Laws.all_empty (lines c.stdout) ≡ true)
          → (is_nil p.holders ≡ false) ⊎ (is_blank (strip c.stdout) ≡ true)
      blank (inl n) = inl n
      blank (inr l) = inr (lines_blank c.stdout l)

  take_evidence : List Database → Option Completed → M Evidence
  take_evidence databases answer = elim answer [
    | none ↦ pure (record { holders = []; databases = databases; partial = true })
    | some c ↦ do p ← parse_lsof_holders host false true c.stdout databases; pure (evidence_of c p)
  ]

  take_evidence-Known :
      (databases : List Database) (o : Option Completed) (w : World)
      → Ran (lsof_command (path ∷ paths)) (ok o) w
      → let s = take_evidence databases o env w in Known s.0 s.1
  unfolding take_evidence Known pure Ran
  take_evidence-Known databases none w a = λ e. true_false e refl
  take_evidence-Known databases (some c) w a =
      let parse = parse_lsof_holders host false true c.stdout databases in
      step Known env parse (λ p. pure (evidence_of c p)) w
        (λ p e.
          known_evidence c p (parse env w).1
            (Asked-Calm _ ((Quiet-parse_lsof_holders host false true c.stdout databases).at env w)
              a)
            ((parse_lsof_holders-Sound host false c.stdout databases).at env w p e))
        (λ e _. tt)

  unknown_evidence : (e : Exn) (w : World) → Known (raised e) w
  unfolding Known
  unknown_evidence e w = tt

  target_evidence-Known :
      (databases : List Database) (w : World)
      → let s = target_evidence host (path ∷ paths) databases env w in Known s.0 s.1
  unfolding target_evidence take_evidence
  target_evidence-Known databases w =
      let asked = run (lsof_command (path ∷ paths)) env w in
      step Known env (run (lsof_command (path ∷ paths))) (take_evidence databases) w
        (λ o e. take_evidence-Known databases o asked.1 (
          subst (λ r. Ran (lsof_command (path ∷ paths)) r asked.1) e
            (run-Ran (lsof_command (path ∷ paths)) env w)))
        (λ e _. unknown_evidence e asked.1)

  -- What a scan that claims complete evidence rests on.
  Rests : Post ProcessScan
  Rests (ok s) w =
      s.handle_evidence_supported ≡ true → Backed (lsof_command (path ∷ paths)) s w.trace
  Rests (raised e) w = Unit

  nothing_rests : (e : Exn) (w : World) → Rests (raised e) w
  unfolding Rests
  nothing_rests e w = tt

  result-Rests :
      (v : Evidence) (t : Tally) (w : World)
      → Known (ok v) w
      → Tracked v.partial t
      → Rests (ok (result_of (remaining_holders (sort_holders v.holders) t))) w
  unfolding Rests Known result_of
  result-Rests v t w known k supported =
      let whole = not-true _ supported in
      let c = known (k.fine (sym (remaining-partial (sort_holders v.holders) t) ∙ whole)) in
      record {
        answer = c.answer;
        asked = c.asked;
        trusted = c.trusted;
        spoken = c.spoken;
        observed = elim c.named [
          | inl n ↦ inl (
              remaining_observed v.partial (sort_holders v.holders) t k
                (sort-AllFilled v.holders c.filled) (sort_held v.holders n))
          | inr b ↦ inr b
        ];
      }

  Known-Calm : (v : Evidence) (u w : World) → Calm u w → Known (ok v) u → Known (ok v) w
  unfolding Known
  Known-Calm v u w k known e =
      let c = known e in
      record {
        answer = c.answer;
        asked = Asked-Calm _ k c.asked;
        trusted = c.trusted;
        spoken = c.spoken;
        filled = c.filled;
        named = c.named;
      }

  scan_directories-Rests :
      (v : Evidence) (dirs : List String) (w : World)
      → Known (ok v) w
      → let s = scan_directories host v dirs env w in Rests s.0 s.1
  unfolding scan_directories start_tally pure
  scan_directories-Rests v dirs w known =
      step_quiet Rests env (Quiet-call Request.effective_uid refl) _ w
        (λ uid u k.
          let visit = visit_directories host v.holders uid dirs (start_tally host v) in
          let quiet = Quiet-visit_directories host v.holders uid dirs (start_tally host v) in
          step Rests env visit _ u
            (λ t e.
              result-Rests v t (visit env u).1
                (Known-Calm v u _ (quiet.at env u) (Known-Calm v w u k known))
                ((directories-Tracked v.partial host v.holders uid dirs (start_tally host v)
                    (record { fine = λ p. p; seen = inl refl })).at
                  env u t e))
            (λ e _. nothing_rests e (visit env u).1))
        (λ e u _. nothing_rests e u)

  scan_found-Rests :
      (v : Evidence) (o : Option (List String)) (w : World)
      → Known (ok v) w
      → let s = scan_found host v o env w in Rests s.0 s.1
  unfolding scan_found unavailable_scan pure Rests
  scan_found-Rests v none w known = λ e. true_false refl e
  scan_found-Rests v (some dirs) w known = scan_directories-Rests v dirs w known

  scan_linux-Rests :
      (root : String) (w : World)
      → let s = scan_linux host (path ∷ paths) root env w in Rests s.0 s.1
  unfolding scan_linux
  scan_linux-Rests root w =
      step_quiet Rests env (Quiet-database_by_key host (path ∷ paths) 1 []) _ w
        (λ databases u _.
          let evidence = target_evidence host (path ∷ paths) databases in
          step Rests env evidence _ u
            (λ v e.
              let x = (evidence env u).1 in
              step_quiet Rests env (Quiet-pid_directories host root) _ x
                (λ found y k. scan_found-Rests v found y (
                  Known-Calm v x y k
                    (subst (λ o. Known o x) e (target_evidence-Known databases u))))
                (λ e y _. nothing_rests e y))
            (λ e _. nothing_rests e (evidence env u).1))
        (λ e u _. nothing_rests e u)

  module _ (root : String) (w : World) (s : ProcessScan) where
    -- A scan on Linux for at least one database claims complete evidence only where lsof was asked
    -- about exactly those databases and its answer can be trusted: nothing on its standard error, exit
    -- code 0 with output or exit code 1 without. If it printed anything, the scan has a process.
    pub scan_linux_evidence :
        (scan_linux host (path ∷ paths) root env w).0 ≡ ok s
        → s.handle_evidence_supported ≡ true
        → Backed (lsof_command (path ∷ paths)) s (scan_linux host (path ∷ paths) root env w).1.trace
    unfolding Rests
    scan_linux_evidence e supported =
        subst (λ o. Rests o (scan_linux host (path ∷ paths) root env w).1) e
          (scan_linux-Rests root w) supported

    -- Where the dict of a scan on Linux for at least one database passes the process gate, no pid being
    -- known, lsof was asked about those databases and found nobody: exit code 1 with no output.
    pub gate_verdict-scan_linux :
        (scan_linux host (path ∷ paths) root env w).0 ≡ ok s
        → gate_verdict [] (scan_to_dict s) ≡ ok tt
        → (c : Completed) × Asked
            (lsof_command (path ∷ paths))
            c
            (scan_linux host (path ∷ paths) root env w).1.trace
          × (c.returncode ≡ pos 1)
          × (is_blank (strip c.stdout) ≡ true)
          × (is_blank (strip c.stderr) ≡ true)
    gate_verdict-scan_linux e g =
        let ((status, supported, unopened), none_seen, unheld) =
          (gate_verdict-scan_to_dict-Idle s).0 g in
        let backed = scan_linux_evidence e supported in
        let (code, stdout, stderr) =
          nobody backed.answer backed.trusted backed.spoken
            (blank_output s none_seen backed.observed) in
        (backed.answer, backed.asked, code, stdout, stderr)
