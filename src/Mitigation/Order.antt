-- ===== src/Mitigation/Order.antt =====
-- What must have happened before the trigger is created or dropped.
use codex_storage_doctor.Prelude.{
  Option, ◌≡◌, refl, sym, ap, subst, Bool, true, false, not, ◌||◌, [], ◌∷◌,
}
use codex_storage_doctor.Json.{Json}
use codex_storage_doctor.Effects.{Conn, Request, Reply, Outcome, ok, raised, World, Trace, Event}
use codex_storage_doctor.Effects.Rules.{
  Calm, here, more, manifest, open_flag, closed_flag, token, is_harmless,
}
use codex_storage_doctor.Planning.Create.{quick_check_fails}

abbrev pub sound : Outcome (Option Json) → Bool
sound (ok row) = not (quick_check_fails row)
sound (raised e) = false

-- SQLite found the backup's copy sound.
abbrev is_copy_check : Event → Bool
is_copy_check (Request.quick_check Conn.copy, answer) = sound answer
is_copy_check _ = false

abbrev pub returned : Outcome (Unit {0}) → Bool
returned (ok a) = true
returned (raised e) = false

abbrev is_begin : Event → Bool
is_begin (Request.begin_exclusive, answer) = returned answer
is_begin _ = false

abbrev pub copied : Trace → Bool
copied [] = false
copied (e ∷ t) = is_copy_check e || copied t

abbrev pub begun : Trace → Bool
begun [] = false
begun (e ∷ t) = is_begin e || begun t

-- What the event asks of the trace before it.
abbrev Allowed : Event → Trace → Type 0
Allowed (Request.create_trigger sql, _) t = (copied t ≡ true) × (begun t ≡ true)
Allowed (Request.drop_trigger name, _) t = (copied t ≡ true) × (begun t ≡ true)
Allowed _ t = Unit

-- Before each CREATE TRIGGER and each DROP TRIGGER there are a backup copy that SQLite found sound and
-- a BEGIN EXCLUSIVE that returned.
abbrev pub Ordered : Trace → Type 0
Ordered [] = Unit
Ordered (e ∷ t) = Allowed e t × Ordered t

or_later : (a b : Bool) → b ≡ true → (a || b) ≡ true
or_later true b h = refl
or_later false b h = h

outcome_inj : (r s : Option Json) → ok r ≡ ok s → r ≡ s
outcome_inj r s p = cc

pub or_first : (a b : Bool) → a ≡ true → (a || b) ≡ true
or_first true b h = refl
or_first false b h = cc

pub sound_ok :
    (o : Outcome (Option Json)) (row : Option Json)
    → o ≡ ok row
    → quick_check_fails row ≡ false
    → sound o ≡ true
sound_ok (ok r) row p q =
    let e = outcome_inj r row p in subst (λ x. not (quick_check_fails x) ≡ true) (sym e) (ap not q)
sound_ok (raised e) row p q = cc

harmless-Allowed :
    (r : Request) (o : Outcome (Reply r)) (t : Trace) → is_harmless r ≡ true → Allowed (r, o) t
harmless-Allowed (Request.create_trigger s) o t h = cc
harmless-Allowed (Request.drop_trigger s) o t h = cc
harmless-Allowed _ o t h = tt

pub Ordered-Calm : {u v : World} → Calm u v → Ordered u.trace → Ordered v.trace
Ordered-Calm here h = h
Ordered-Calm (more k r o p) h = (harmless-Allowed r o _ p, Ordered-Calm k h)
Ordered-Calm (manifest k m) h = Ordered-Calm k h
Ordered-Calm (open_flag k) h = Ordered-Calm k h
Ordered-Calm (closed_flag k b) h = Ordered-Calm k h
Ordered-Calm (token k s) h = Ordered-Calm k h

pub copied-Calm : {u v : World} → Calm u v → copied u.trace ≡ true → copied v.trace ≡ true
copied-Calm here h = h
copied-Calm (more k r o p) h = or_later _ _ (copied-Calm k h)
copied-Calm (manifest k m) h = copied-Calm k h
copied-Calm (open_flag k) h = copied-Calm k h
copied-Calm (closed_flag k b) h = copied-Calm k h
copied-Calm (token k s) h = copied-Calm k h

pub begun-Calm : {u v : World} → Calm u v → begun u.trace ≡ true → begun v.trace ≡ true
begun-Calm here h = h
begun-Calm (more k r o p) h = or_later _ _ (begun-Calm k h)
begun-Calm (manifest k m) h = begun-Calm k h
begun-Calm (open_flag k) h = begun-Calm k h
begun-Calm (closed_flag k b) h = begun-Calm k h
begun-Calm (token k s) h = begun-Calm k h
