-- ===== src/Mitigation/Gate/Verdict.antt =====
-- When the process gate lets a change pass.
use codex_storage_doctor.Prelude.{
  ℕ, ◌≡◌, refl, Bool, true, false, not, ◌&&◌, ◌||◌, Bool-cases, inl, inr, List, if◌then◌else◌,
}
use codex_storage_doctor.Json.{Items, nil, cons, Fields, obj, get, truthy}
use codex_storage_doctor.Effects.{Outcome, ok, raised}
use codex_storage_doctor.Mitigation.Gate.{
  is_complete, iterate, is_allowed, is_false, is_self_handle, Holders, judge, judge_all, no_holders,
  all_explained, partial_refusal, running_refusal, decide_open, gate_verdict,
}

-- Every entry is a process whose handle is known.
abbrev pub AllSelf : List ℕ → Items → Type 0
AllSelf allowed nil = Unit
AllSelf allowed (cons (obj fs) xs) = (is_self_handle allowed fs ≡ true) × AllSelf allowed xs
AllSelf allowed (cons x xs) = ⊥

pub true_false : {A : Type 0} {b : Bool} → b ≡ false → b ≡ true → A
true_false {A} {b} p q = absurd (clash b p q)
  where
    clash : (b : Bool) → b ≡ false → b ≡ true → ⊥
    clash b p q = cc

not-false : (b : Bool) → not b ≡ false → b ≡ true
not-false true h = refl
not-false false h = cc

pub both : (a b : Bool) → a && b ≡ true → (a ≡ true) × (b ≡ true)
both true true h = (refl, refl)
both true false h = cc
both false b h = cc

module _ (allowed : List ℕ) where
  -- A process whose handle is known has a known pid and is not Codex.
  pub is_self_handle_known :
      (fs : Fields)
      → is_self_handle allowed fs ≡ true
      → (is_allowed allowed (get "pid" fs) ≡ true) × (is_false (get "is_codex" fs) ≡ true)
  unfolding is_self_handle
  is_self_handle_known fs h = both _ _ (both _ _ h).0

  if_remaining :
      (b : Bool) (k m : Holders)
      → (b ≡ true → k.remaining ≡ true)
      → m.remaining ≡ true
      → (if b then k else m).remaining ≡ true
  if_remaining true k m p q = p refl
  if_remaining false k m p q = q

  judge_all-remaining :
      (xs : Items) (h : Holders) → h.remaining ≡ true → (judge_all allowed xs h).remaining ≡ true
  unfolding judge_all judge
  judge_all-remaining nil h p = p
  judge_all-remaining (cons (obj fs) xs) h p =
      judge_all-remaining xs (judge allowed (obj fs) h)
        (if_remaining (is_self_handle allowed fs) _ _ (λ _. p) refl)
  judge_all-remaining (cons x xs) h p = judge_all-remaining xs _ refl

  remaining-AllSelf :
      (xs : Items) (h : Holders) → (judge_all allowed xs h).remaining ≡ false → AllSelf allowed xs
  unfolding judge_all judge
  remaining-AllSelf nil h p = tt
  remaining-AllSelf (cons (obj fs) xs) h p = elim (Bool-cases (is_self_handle allowed fs)) [
    | inl e ↦ (e, remaining-AllSelf xs (judge allowed (obj fs) h) p)
    | inr e ↦
        let q =
          judge_all-remaining xs (judge allowed (obj fs) h)
            (if_remaining (is_self_handle allowed fs) _ _ (λ t. true_false e t) refl) in
        true_false p q
  ]
  remaining-AllSelf (cons x xs) h p =
      true_false p (judge_all-remaining xs (record h { remaining = true }) refl)

  refused :
      (a b c : Bool)
      → (if a || b || c then raised running_refusal else ok tt) ≡ ok (tt {0})
      → (a ≡ false) × (b ≡ false) × (c ≡ false)
  refused true b c h = cc
  refused false true c h = cc
  refused false false true h = cc
  refused false false false h = (refl, refl, refl)

  decide_open_sound :
      (scan : Fields) (processes held : Items)
      → decide_open allowed scan processes held ≡ ok tt
      → AllSelf allowed processes
        × (truthy (get "open_database_paths" scan) ≡ false)
        × (all_explained (judge_all allowed processes no_holders) held ≡ true)
  unfolding decide_open
  decide_open_sound scan processes held h =
      let found = judge_all allowed processes no_holders in
      let (a, b, c) =
        refused found.remaining (truthy (get "open_database_paths" scan))
          (not (all_explained found held)) h in
      (remaining-AllSelf processes no_holders a, b, not-false _ c)

  passed :
      (scan : Fields) (c : Bool) (p q : Outcome Items)
      → (if not c then raised partial_refusal else elim p [
        | raised e ↦ raised e
        | ok processes ↦ elim q [
          | raised e ↦ raised e
          | ok held ↦ decide_open allowed scan processes held
        ]
      ])
        ≡ ok (tt {0})
      → (c ≡ true)
        × ((processes : Items) × (held : Items) × (p ≡ ok processes)
            × (q ≡ ok held)
            × (decide_open allowed scan processes held ≡ ok tt))
  passed scan false p q h = cc
  passed scan true (raised e) q h = cc
  passed scan true (ok processes) (raised e) h = cc
  passed scan true (ok processes) (ok held) h = (refl, (processes, held, refl, refl, h))

  -- A scan that passes the gate is complete. Every process it lists is known by its pid, is not
  -- Codex, and holds the first database alone. It names no open database, and each held path
  -- belongs to such a process and to no other.
  pub gate_verdict_sound :
      (scan : Fields)
      → gate_verdict allowed scan ≡ ok tt
      → (is_complete scan ≡ true)
        × ((processes : Items) × (held : Items) × (iterate (get "processes" scan) ≡ ok processes)
            × (iterate (get "held_database_paths" scan) ≡ ok held)
            × AllSelf allowed processes
            × (truthy (get "open_database_paths" scan) ≡ false)
            × (all_explained (judge_all allowed processes no_holders) held ≡ true))
  unfolding gate_verdict
  gate_verdict_sound scan h =
      let (c, (processes, held, p, q, d)) =
        passed scan (is_complete scan) (iterate (get "processes" scan))
          (iterate (get "held_database_paths" scan)) h in
      let (known, unopened, explained) = decide_open_sound scan processes held d in
      (c, (processes, held, p, q, known, unopened, explained))

  -- A complete scan that lists no process, no open database and no held path passes, whatever the
  -- pids whose handles are known.
  pub gate_verdict_idle :
      (scan : Fields)
      → is_complete scan ≡ true
      → iterate (get "processes" scan) ≡ ok nil
      → truthy (get "open_database_paths" scan) ≡ false
      → iterate (get "held_database_paths" scan) ≡ ok nil
      → gate_verdict allowed scan ≡ ok tt
  unfolding gate_verdict decide_open judge_all all_explained
  gate_verdict_idle scan c p o h = rw (c, p, h, o) refl
