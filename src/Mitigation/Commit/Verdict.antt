-- ===== src/Mitigation/Commit/Verdict.antt =====
-- What the two checks after a COMMIT say, told by a reading of the database that judges nothing.
use codex_storage_doctor.Prelude.{
  String, ◌==◌, ◌≡◌, refl, sym, ap, subst, ◌∙◌, eq_iff, eq_refl, ◌↔◌, inl, inr, Bool, true, false,
  ◌&&◌, [], ◌∷◌, is_nil, Bool-cases, if◌then◌else◌,
}
use codex_storage_doctor.Errors.{
  CommitOutcome, ambiguous, verified_committed, verified_not_committed,
}
use codex_storage_doctor.Host.{Host}
use codex_storage_doctor.Effects.{Outcome, ok, raised, World, Env}
use codex_storage_doctor.Planning.Schema.{Triggers, is_exactly}
use codex_storage_doctor.Mitigation.Commit.{
  apply_verdict, rollback_verdict, apply_commit_outcome, rollback_commit_outcome,
}
use codex_storage_doctor.Mitigation.Commit.State.{read_state, settled, judged, outcome_by_lem}

-- The outcome of the opposite change.
abbrev pub opposite : CommitOutcome → CommitOutcome
opposite ambiguous = ambiguous
opposite verified_committed = verified_not_committed
opposite verified_not_committed = verified_committed

and_both : (a b : Bool) → (a && b) ≡ true → (a ≡ true) × (b ≡ true)
and_both true b h = (refl, h)
and_both false b h = cc

pub is_exactly_iff :
    (name sql : String) (t : Triggers) → (is_exactly name sql t ≡ true) ↔ (t ≡ (name, sql) ∷ [])
unfolding is_exactly
is_exactly_iff name sql [] = (λ h. cc, λ h. cc)
is_exactly_iff name sql ((n, s) ∷ []) = (
  λ h.
      let (p, q) = and_both (n == name) (s == sql) h in
      let p' = (eq_iff n name).0 p in let q' = (eq_iff s sql).0 q in cc,
  λ h. subst (λ u. is_exactly name sql u ≡ true) (sym h) (rw (eq_refl name) (eq_refl sql)),
)
is_exactly_iff name sql (a ∷ b ∷ t) = (λ h. cc, λ h. cc)

verdict_committed :
    (a b : Bool)
    → ((if a then verified_committed else if b then verified_not_committed else ambiguous)
        ≡ verified_committed)
      ↔ (a ≡ true)
verdict_committed true b = (λ h. refl, λ h. refl)
verdict_committed false true = (λ h. cc, λ h. cc)
verdict_committed false false = (λ h. cc, λ h. cc)

-- A verified outcome of the check, told by what was read.
settled_iff :
    (verdict : Triggers → CommitOutcome) (base : String) (c : CommitOutcome) (found : Triggers)
    → (ambiguous ≡ c → ⊥)
    → ((t : Triggers) → (verdict t ≡ c) ↔ (t ≡ found))
    → (p : Outcome (String × Triggers))
    → (settled (judged verdict base p) ≡ c) ↔ (p ≡ ok (base, found))
settled_iff verdict base c found clear agrees (raised e) = (λ h. absurd (clear h), λ h. cc)
settled_iff verdict base c found clear agrees (ok (f, t)) = elim (Bool-cases (f == base)) [
  | inl e ↦
      let same = (eq_iff f base).0 e in
      (
        λ h. let q = (agrees t).0 (subst (λ b. (if b then verdict t else ambiguous) ≡ c) e h) in cc,
        λ h.
            let q : t ≡ found = cc in
            subst (λ b. (if b then verdict t else ambiguous) ≡ c) (sym e) ((agrees t).1 q),
      )
  | inr e ↦ (
    λ h. absurd (clear (subst (λ b. (if b then verdict t else ambiguous) ≡ c) e h)),
    λ h.
        let q : f ≡ base = cc in
        let r : (base == base) ≡ false = subst (λ s. (s == base) ≡ false) q e in
        let k = eq_refl base in cc,
  )
]

module _ (name sql : String) where
  apply_committed :
      (t : Triggers) → (apply_verdict name sql t ≡ verified_committed) ↔ (t ≡ (name, sql) ∷ [])
  unfolding apply_verdict
  apply_committed t =
      let v = verdict_committed (is_exactly name sql t) (is_nil t) in
      let e = is_exactly_iff name sql t in (λ h. e.0 (v.0 h), λ h. v.1 (e.1 h))

  apply_not_committed :
      (t : Triggers) → (apply_verdict name sql t ≡ verified_not_committed) ↔ (t ≡ [])
  unfolding apply_verdict is_exactly
  apply_not_committed [] = (λ h. refl, λ h. refl)
  apply_not_committed (a ∷ t) = (λ h. absurd (never _ h), λ h. cc)
    where
      never :
          (b : Bool) → (if b then verified_committed else ambiguous) ≡ verified_not_committed → ⊥
      never true h = cc
      never false h = cc

  opposite_verdict :
      (a b : Bool)
      → (a ≡ true → b ≡ false)
      → (if b then verified_committed else if a then verified_not_committed else ambiguous)
        ≡ opposite
            (if a then verified_committed else if b then verified_not_committed else ambiguous)
  opposite_verdict true true h = let p = h refl in cc
  opposite_verdict true false h = refl
  opposite_verdict false true h = refl
  opposite_verdict false false h = refl

  exactly-nil : (t : Triggers) → is_exactly name sql t ≡ true → is_nil t ≡ false
  unfolding is_exactly
  exactly-nil [] h = cc
  exactly-nil (a ∷ t) h = refl

  opposite-settled :
      (base : String) (p : Outcome (String × Triggers))
      → settled (judged (rollback_verdict name sql) base p)
        ≡ opposite (settled (judged (apply_verdict name sql) base p))
  unfolding rollback_verdict apply_verdict
  opposite-settled base (raised e) = refl
  opposite-settled base (ok (f, t)) = elim (Bool-cases (f == base)) [
    | inl e ↦ rw e (opposite_verdict (is_exactly name sql t) (is_nil t) (exactly-nil t))
    | inr e ↦ rw e refl
  ]

ok_iff :
    (o : Outcome CommitOutcome) (a c : CommitOutcome) (B : Type 0)
    → o ≡ ok a
    → (a ≡ c) ↔ B
    → (o ≡ ok c) ↔ B
ok_iff o a c B e h = (λ k. let q : a ≡ c = cc in h.0 q, λ b. let q = h.1 b in cc)

module _ (host : Host) (name sql base database : String) (env : Env) (w : World) where
  -- For any replies of the surroundings, the check after an apply says that the COMMIT took place
  -- exactly when a reading of the database finds the base fingerprint of the plan, and the planned
  -- trigger with its SQL as the only one on the table; it says that the COMMIT did not take place
  -- exactly when the reading finds that fingerprint and no trigger; and it raises nothing.
  pub apply_commit_outcome-read_state :
      (let o = (apply_commit_outcome host database name sql base env w).0 in
        let state = (read_state host database env w).0 in
        ((o ≡ ok verified_committed) ↔ (state ≡ ok (base, (name, sql) ∷ [])))
        × ((o ≡ ok verified_not_committed) ↔ (state ≡ ok (base, [])))
        × ((c : CommitOutcome) × (o ≡ ok c)))
  unfolding apply_commit_outcome
  apply_commit_outcome-read_state =
      let p = (read_state host database env w).0 in
      let e = outcome_by_lem host (apply_verdict name sql) base env database w in
      (
        ok_iff _ _ _ _ e (
            settled_iff (apply_verdict name sql) base verified_committed ((name, sql) ∷ [])
              (λ h. cc) (apply_committed name sql) p),
        ok_iff _ _ _ _ e (
            settled_iff (apply_verdict name sql) base verified_not_committed [] (λ h. cc)
              (apply_not_committed name sql) p),
        (settled (judged (apply_verdict name sql) base p), e),
      )

  -- For any replies of the surroundings, the check after a rollback gives the outcome opposite to
  -- that of the check after an apply: what one counts as committed, the other counts as not
  -- committed, and they are ambiguous together.
  pub rollback_commit_outcome-opposite :
      (c : CommitOutcome) × ((apply_commit_outcome host database name sql base env w).0 ≡ ok c)
      × ((rollback_commit_outcome host database name sql base env w).0 ≡ ok (opposite c))
  unfolding apply_commit_outcome rollback_commit_outcome
  rollback_commit_outcome-opposite =
      let p = (read_state host database env w).0 in
      (
        settled (judged (apply_verdict name sql) base p),
        outcome_by_lem host (apply_verdict name sql) base env database w,
        outcome_by_lem host (rollback_verdict name sql) base env database w
            ∙ ap (λ c. ok c) (opposite-settled name sql base p),
      )
