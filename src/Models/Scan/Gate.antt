-- ===== src/Models/Scan/Gate.antt =====
-- What the process gate of mitigation.py makes of a scan's dict.
use codex_storage_doctor.Prelude.{
  ℕ, String, ◌==◌, ◌≡◌, refl, sym, ap, subst, ◌∙◌, ◌↔◌, eq_iff, Bool, true, false, List, [], ◌∷◌,
  map,
}
use codex_storage_doctor.Json.{ℤ, pos, negsuc, Json, Items, num, str, arr, nil, cons, get, truthy}
use codex_storage_doctor.Effects.{Outcome, ok, raised}
use codex_storage_doctor.Mitigation.Gate.{
  is_complete, iterate, is_allowed, is_false, all_explained, judge_all, no_holders, gate_verdict,
}
use codex_storage_doctor.Mitigation.Gate.Verdict.{
  AllSelf, both, is_self_handle_known, gate_verdict_sound, gate_verdict_idle,
}
use codex_storage_doctor.Models.{items, list_of, texts, numbered, sorted_set}
use codex_storage_doctor.Models.Scan.{
  ProcessObservation, ProcessScan, observation_dict, ids_of, ids_or_numbered, scan_to_dict,
}

-- The process is not Codex, and its pid is among the known ones.
abbrev pub Known : List ℕ → ProcessObservation → Type 0
Known allowed o = (is_allowed allowed (num o.pid) ≡ true) × (o.is_codex ≡ false)

abbrev pub AllKnown : List ℕ → List ProcessObservation → Type 0
AllKnown allowed [] = Unit
AllKnown allowed (o ∷ os) = Known allowed o × AllKnown allowed os

-- The evidence is complete, and no database is open in Codex.
abbrev pub Supported : ProcessScan → Type 0
Supported s =
    (s.status ≡ "ok") × (s.handle_evidence_supported ≡ true) × (s.open_database_paths ≡ [])

-- The evidence is complete, and nobody runs or holds anything.
abbrev pub Idle : ProcessScan → Type 0
Idle s = Supported s × (s.observations ≡ []) × (s.held_database_paths ≡ [])

iterate-arr : (xs : Items) → iterate (arr xs) ≡ ok xs
unfolding iterate truthy
iterate-arr nil = refl
iterate-arr (cons x xs) = refl

value_or : Items → Outcome Items → Items
value_or d (ok a) = a
value_or d (raised e) = d

ok-injective : (a b : Items) → ok a ≡ ok b → a ≡ b
unfolding value_or
ok-injective a b e = ap (λ o. value_or nil o) e

not_codex : (b : Bool) → is_false (Json.bool b) ≡ true → b ≡ false
unfolding is_false
not_codex true h = cc
not_codex false h = refl

module _ (allowed : List ℕ) where
  all_known :
      (os : List ProcessObservation)
      → AllSelf allowed (items (map observation_dict os))
      → AllKnown allowed os
  unfolding observation_dict get items
  all_known [] h = tt
  all_known (o ∷ os) (h, hs) =
      let (pid, no_codex) = is_self_handle_known allowed _ h in
      ((pid, not_codex o.is_codex no_codex), all_known os hs)

none_known : (os : List ProcessObservation) → AllKnown [] os → os ≡ []
unfolding is_allowed
none_known [] h = refl
none_known (o ∷ os) ((h, c), hs) = absurd (unknown o.pid h)
  where
    unknown : (n : ℤ) → is_allowed [] (num n) ≡ true → ⊥
    unknown (pos n) h = cc
    unknown (negsuc n) h = cc

no_texts : (ts : List String) → truthy (texts ts) ≡ false → ts ≡ []
unfolding texts list_of items truthy
no_texts [] h = refl
no_texts (t ∷ ts) h = cc

no_numbered :
    (label : String) (paths ids : List String) → ids_or_numbered label paths ids ≡ [] → paths ≡ []
unfolding ids_or_numbered numbered
no_numbered label [] ids h = refl
no_numbered label (p ∷ ps) [] h = cc
no_numbered label (p ∷ ps) (i ∷ ids) h = cc

none_explained :
    (ts : List String) → all_explained no_holders (items (map (λ s. str s) ts)) ≡ true → ts ≡ []
unfolding all_explained items
none_explained [] h = refl
none_explained (t ∷ ts) h = cc

module _ (allowed : List ℕ) (s : ProcessScan) where
  -- A scan whose dict passes the gate is complete and supported, names no database open in Codex,
  -- and has no Codex process: every process it has is known by its pid.
  pub gate_verdict-scan_to_dict :
      gate_verdict allowed (scan_to_dict s) ≡ ok tt → Supported s × AllKnown allowed s.observations
  unfolding scan_to_dict get is_complete truthy list_of
  gate_verdict-scan_to_dict h =
      let (complete, (processes, held, p, q, known, unopened, explained)) =
        gate_verdict_sound allowed (scan_to_dict s) h in
      let (status, supported) = both (s.status == "ok") s.handle_evidence_supported complete in
      let listed = ok-injective _ _ (sym (iterate-arr _) ∙ p) in
      (
        (
          (eq_iff s.status "ok").0 status,
          supported,
          no_numbered _ s.open_database_paths _ (no_texts _ unopened),
        ),
        all_known allowed s.observations (subst (AllSelf allowed) (sym listed) known),
      )

module _ (s : ProcessScan) where
  no_process : gate_verdict [] (scan_to_dict s) ≡ ok tt → s.observations ≡ []
  no_process h = none_known s.observations (gate_verdict-scan_to_dict [] s h).1

  idle_held : gate_verdict [] (scan_to_dict s) ≡ ok tt → s.held_database_paths ≡ []
  unfolding scan_to_dict get list_of texts judge_all items
  idle_held h =
      let (complete, (processes, held, p, q, known, unopened, explained)) =
        gate_verdict_sound [] (scan_to_dict s) h in
      let listed = ok-injective _ _ (sym (iterate-arr _) ∙ p) in
      let none = sym listed ∙ ap (λ os. items (map observation_dict os)) (no_process h) in
      let heard = sym (ok-injective _ _ (sym (iterate-arr _) ∙ q)) in
      no_numbered "held-database-" s.held_database_paths _ (
        none_explained _ (
          subst (λ xs. all_explained no_holders xs ≡ true) heard
            (subst (λ ps. all_explained (judge_all [] ps no_holders) held ≡ true) none explained)))

  Idle-passes : Idle s → gate_verdict [] (scan_to_dict s) ≡ ok tt
  unfolding scan_to_dict get is_complete truthy list_of items texts iterate ids_or_numbered numbered
      sorted_set ids_of
  Idle-passes ((status, supported, opened), none, held) =
      gate_verdict_idle [] (scan_to_dict s) complete processes unopened unheld
    where
      complete : is_complete (scan_to_dict s) ≡ true
      complete = rw (status, supported) refl

      processes : iterate (get "processes" (scan_to_dict s)) ≡ ok nil
      processes = rw none refl

      unopened : truthy (get "open_database_paths" (scan_to_dict s)) ≡ false
      unopened = rw (none, opened) refl

      unheld : iterate (get "held_database_paths" (scan_to_dict s)) ≡ ok nil
      unheld = rw (none, held) refl

  -- The dict of a scan passes the gate, when no pid is known, exactly when the scan is complete and
  -- supported and has no process, no database open in Codex and no held database.
  pub gate_verdict-scan_to_dict-Idle : (gate_verdict [] (scan_to_dict s) ≡ ok tt) ↔ Idle s
  gate_verdict-scan_to_dict-Idle =
      (λ h. ((gate_verdict-scan_to_dict [] s h).0, no_process h, idle_held h), Idle-passes)
