-- ===== src/Mitigation/Commit/State.antt =====
-- The check after a COMMIT beside a reading of the database that judges nothing: the two runs make the
-- same requests until the check stops at a changed base fingerprint.
use codex_storage_doctor.Prelude.{
  String, ◌==◌, ◌≡◌, refl, sym, ap, subst, ◌∙◌, ◌⊎◌, inl, inr, Bool, true, false, not,
  if◌then◌else◌,
}
use codex_storage_doctor.Errors.{Exn, CommitOutcome, ambiguous}
use codex_storage_doctor.Host.{Host}
use codex_storage_doctor.Effects.{
  Conn, Request, Outcome, ok, raised, World, Env, M, pure, call, ◌>>=◌, ◌>>◌, catch, attempt,
  return, continue, recover,
}
use codex_storage_doctor.Planning.Schema.{
  Triggers, schema_fingerprint_connection, log_triggers_connection,
}
use codex_storage_doctor.Planning.Surroundings.{with_reader}
use codex_storage_doctor.Mitigation.Commit.{outcome_by}

-- The base fingerprint of the database and the triggers on its table `logs`, or the exception that
-- stopped the reading.
unfoldable pub read_state : Host → String → M (String × Triggers)
unfolding with_reader schema_fingerprint_connection log_triggers_connection
read_state host database = with_reader database do
  found ← schema_fingerprint_connection host Conn.reader
  triggers ← log_triggers_connection Conn.reader
  pure (found, triggers)

abbrev pub settled : Outcome CommitOutcome → CommitOutcome
settled (ok c) = c
settled (raised e) = ambiguous

abbrev pub judged :
    (Triggers → CommitOutcome) → String → Outcome (String × Triggers) → Outcome CommitOutcome
judged verdict base (ok (found, t)) = ok (if found == base then verdict t else ambiguous)
judged verdict base (raised e) = raised e

module _ (host : Host) (verdict : Triggers → CommitOutcome) (base : String) (env : Env) where
  -- Two ends of runs with the same judgement.
  abbrev Same : Outcome CommitOutcome → Outcome (String × Triggers) → Type 0
  Same o p = settled o ≡ settled (judged verdict base p)

  -- Two runs that are in step, or of which neither can say that the COMMIT is verified.
  abbrev Alike : Outcome CommitOutcome × World → Outcome (String × Triggers) × World → Type 0
  Alike s p =
      ((s.1 ≡ p.1) × (s.0 ≡ judged verdict base p.0))
      ⊎ ((settled s.0 ≡ ambiguous) × (settled (judged verdict base p.0) ≡ ambiguous))

  Same-continue :
      {A : Type 0} (f : A → M CommitOutcome) (g : A → M (String × Triggers)) (o : Outcome A)
      (v : World)
      → ((a : A) → Same (f a env v).0 (g a env v).0)
      → Same (continue o f env v).0 (continue o g env v).0
  Same-continue f g (ok a) v h = h a
  Same-continue f g (raised e) v h = refl

  Alike-continue :
      {A : Type 0} (f : A → M CommitOutcome) (g : A → M (String × Triggers)) (o : Outcome A)
      (v : World)
      → ((a : A) → Alike (f a env v) (g a env v))
      → Alike (continue o f env v) (continue o g env v)
  Alike-continue f g (ok a) v h = h a
  Alike-continue f g (raised e) v h = inl (refl, refl)

  module _ {A : Type 0} (m : M A) (f : A → M CommitOutcome) (g : A → M (String × Triggers))
      (w : World) where
    Same-bind :
        ((a : A) (v : World) → Same (f a env v).0 (g a env v).0)
        → Same ((m >>= f) env w).0 ((m >>= g) env w).0
    unfolding ◌>>=◌
    Same-bind h = Same-continue f g (m env w).0 (m env w).1 (λ a. h a (m env w).1)

    Alike-bind :
        ((a : A) (v : World) → Alike (f a env v) (g a env v))
        → Alike ((m >>= f) env w) ((m >>= g) env w)
    unfolding ◌>>=◌
    Alike-bind h = Alike-continue f g (m env w).0 (m env w).1 (λ a. h a (m env w).1)

  abbrev closing : {B : Type 0} → Outcome B → M B
  closing result = call (Request.close Conn.reader) >> return result

  -- Two runs in step close their connections with the same reply.
  Same-closing :
      (o : Outcome CommitOutcome) (p : Outcome (String × Triggers)) (v : World)
      → o ≡ judged verdict base p
      → Same (closing o env v).0 (closing p env v).0
  unfolding return
  Same-closing o p v e =
      Same-bind (call (Request.close Conn.reader)) (λ _. return o) (λ _. return p) v after
    where
      after : (a : Unit {0}) (u : World) → Same (return o env u).0 (return p env u).0
      after a u = ap settled e

  -- Two runs of which neither verifies do not, however the connections are closed.
  closed_ambiguous :
      {B : Type 0} (c : Outcome B → CommitOutcome) (o : Outcome B) (v : World)
      → ((e : Exn) → c (raised e) ≡ ambiguous)
      → c o ≡ ambiguous
      → c (closing o env v).0 ≡ ambiguous
  unfolding ◌>>=◌ return
  closed_ambiguous {B} c o v h e = by_reply _ _
    where
      by_reply :
          (r : Outcome (Unit {0})) (u : World) → c (continue r (λ _. return o) env u).0 ≡ ambiguous
      by_reply (ok a) u = e
      by_reply (raised x) u = h x

  Alike-close :
      (s : Outcome CommitOutcome × World) (p : Outcome (String × Triggers) × World)
      → Alike s p
      → Same (closing s.0 env s.1).0 (closing p.0 env p.1).0
  Alike-close s p (inl (v, e)) =
      subst (λ u. Same (closing s.0 env u).0 (closing p.0 env p.1).0) (sym v)
        (Same-closing s.0 p.0 p.1 e)
  Alike-close s p (inr (a, b)) =
      closed_ambiguous settled s.0 s.1 (λ e. refl) a
      ∙ sym (closed_ambiguous (λ o. settled (judged verdict base o)) p.0 p.1 (λ e. refl) b)

  read_pair : M (String × Triggers)
  unfolding schema_fingerprint_connection log_triggers_connection
  read_pair = do
    found ← schema_fingerprint_connection host Conn.reader
    triggers ← log_triggers_connection Conn.reader
    pure (found, triggers)

  judge : M CommitOutcome
  unfolding schema_fingerprint_connection log_triggers_connection
  judge = do
    found ← schema_fingerprint_connection host Conn.reader
    if not (found == base)
        then pure ambiguous
        else do triggers ← log_triggers_connection Conn.reader; pure (verdict triggers)

  Alike-found :
      (found : String) (b : Bool) (w : World)
      → (found == base) ≡ b
      → Alike
          ((if not b
              then pure ambiguous
              else (log_triggers_connection Conn.reader >>= λ t. pure (verdict t)))
            env w)
          ((log_triggers_connection Conn.reader >>= λ t. pure (found, t)) env w)
  unfolding log_triggers_connection pure ◌>>=◌
  Alike-found found true w e =
      Alike-bind (log_triggers_connection Conn.reader) (λ t. pure (verdict t))
        (λ t. pure (found, t)) w
        (λ t v. inl (refl, ap (λ b. ok (if b then verdict t else ambiguous)) (sym e)))
  Alike-found found false w e = inr (refl, never _ _)
    where
      never :
          (r : Outcome Triggers) (v : World)
          → settled (judged verdict base (continue r (λ t env w. (ok (found, t), w)) env v).0)
            ≡ ambiguous
      never (ok t) v = rw e refl
      never (raised x) v = refl

  Alike-pair : (w : World) → Alike (judge env w) (read_pair env w)
  unfolding judge read_pair
  Alike-pair w =
      Alike-bind (schema_fingerprint_connection host Conn.reader) _ _ w
        (λ found v. Alike-found found (found == base) v refl)

  Same-attempt :
      (x : M CommitOutcome) (y : M (String × Triggers)) (w : World)
      → Alike (x env w) (y env w)
      → Same ((attempt x >>= closing) env w).0 ((attempt y >>= closing) env w).0
  unfolding attempt ◌>>=◌
  Same-attempt x y w h = Alike-close (x env w) (y env w) h

  Same-with_reader :
      (path : String) (x : M CommitOutcome) (y : M (String × Triggers))
      → ((w : World) → Alike (x env w) (y env w))
      → (w : World) → Same (with_reader path x env w).0 (with_reader path y env w).0
  unfolding with_reader
  Same-with_reader path x y h w = Same-bind (call (Request.resolve path)) _ _ w (λ resolved v.
      Same-bind (call (Request.connect Conn.reader resolved)) _ _ v (λ _ u.
        Same-attempt _ _ u
          (Alike-bind (call (Request.pragma Conn.reader "query_only=ON")) _ _ u (λ _ t. h t))))

  settled-catch :
      (m : M CommitOutcome) (w : World)
      → (catch m (λ e. pure ambiguous) env w).0 ≡ ok (settled (m env w).0)
  unfolding catch pure
  settled-catch m w = by_outcome (m env w).0 (m env w).1
    where
      by_outcome :
          (o : Outcome CommitOutcome) (v : World)
          → (recover o (λ e. pure ambiguous) env v).0 ≡ ok (settled o)
      by_outcome (ok c) v = refl
      by_outcome (raised e) v = refl

  -- The check gives its verdict on the triggers that the reading finds beside the base fingerprint,
  -- and is ambiguous about every other reading.
  pub outcome_by_lem :
      (database : String) (w : World)
      → (outcome_by host verdict database base env w).0
        ≡ ok (settled (judged verdict base (read_state host database env w).0))
  unfolding outcome_by read_state judge read_pair
  outcome_by_lem database w =
      settled-catch (with_reader database judge) w
      ∙ ap (λ c. ok c) (Same-with_reader database judge read_pair Alike-pair w)
