-- ===== src/Effects/Rules.antt =====
-- Code that makes no CREATE TRIGGER, DROP TRIGGER or COMMIT request: what such code leaves alone, and
-- one rule for each way to build code.
use codex_storage_doctor.Prelude.{
  ℕ, String, ◌≡◌, refl, Bool, true, false, Option, none, some, ◌∷◌, if◌then◌else◌,
}
use codex_storage_doctor.Json.{Fields}
use codex_storage_doctor.Errors.{Exn}
use codex_storage_doctor.Effects.{
  Conn, Request, Reply, Outcome, ok, raised, World, Env, Trace, Event, M, pure, raise, call, gets,
  ◌>>=◌, catch, attempt, return, refuse_if, update_manifest, set_token, set_open, set_closed,
}

-- The requests other than the two that edit the schema, and COMMIT.
abbrev pub is_harmless : Request → Bool
is_harmless (Request.create_trigger s) = false
is_harmless (Request.drop_trigger s) = false
is_harmless Request.commit = false
is_harmless _ = true

-- The second world is the first, with some harmless requests more, and with assignments to other
-- variables than `committed`, and none that sets `transaction_open`.
pub data Calm (w : World) : World → Type 0 where
  here : Calm w w
  more :
      {v : World}
      → Calm w v
      → (r : Request) (o : Outcome (Reply r)) → is_harmless r ≡ true
      → Calm w (record v { trace = (r, o) ∷ v.trace })
  manifest : {v : World} → Calm w v → (m : Fields) → Calm w (record v { manifest = m })
  open_flag : {v : World} → Calm w v → Calm w (record v { transaction_open = false })
  closed_flag : {v : World} → Calm w v → (b : Bool) → Calm w (record v { connection_closed = b })
  token : {v : World} → Calm w v → (s : String) → Calm w (record v { current_token = s })

pub Calm-trans : {u v w : World} → Calm u v → Calm v w → Calm u w
Calm-trans h here = h
Calm-trans h (more k r o harmless) = more (Calm-trans h k) r o harmless
Calm-trans h (manifest k m) = manifest (Calm-trans h k) m
Calm-trans h (open_flag k) = open_flag (Calm-trans h k)
Calm-trans h (closed_flag k b) = closed_flag (Calm-trans h k) b
Calm-trans h (token k s) = token (Calm-trans h k) s

-- The code makes harmless requests only, and does not assign `committed`.
pub record Quiet {A : Type 0} (m : M A) : Type 0 where
  pub at : (env : Env) (w : World) → Calm w (m env w).1

module _ {A : Type 0} where
  pub Quiet-pure : (a : A) → Quiet (pure a)
  unfolding pure
  Quiet-pure a = record { at = λ env w. here }

  pub Quiet-raise : (e : Exn) → Quiet (raise {A = A} e)
  unfolding raise
  Quiet-raise e = record { at = λ env w. here }

  pub Quiet-return : (r : Outcome A) → Quiet (return r)
  unfolding return
  Quiet-return r = record { at = λ env w. here }

  pub Quiet-gets : (f : World → A) → Quiet (gets f)
  unfolding gets
  Quiet-gets f = record { at = λ env w. here }

  pub Quiet-if : (b : Bool) (m n : M A) → Quiet m → Quiet n → Quiet (if b then m else n)
  Quiet-if true m n qm qn = qm
  Quiet-if false m n qm qn = qn

  pub Quiet-option :
      {B : Type 0} (o : Option B) (m : M A) (f : B → M A)
      → Quiet m
      → ((b : B) → Quiet (f b))
      → Quiet (elim o [ none ↦ m | some b ↦ f b ])
  Quiet-option none m f p q = p
  Quiet-option (some b) m f p q = q b

  pub Quiet-attempt : (m : M A) → Quiet m → Quiet (attempt m)
  unfolding attempt
  Quiet-attempt m q = record { at = λ env w. q.at env w }

  recover-Calm :
      (r : Outcome A) (h : Exn → M A)
      → ((e : Exn) → Quiet (h e))
      → (env : Env) (w : World) → Calm w (codex_storage_doctor.Effects.recover r h env w).1
  recover-Calm (ok a) h q env w = here
  recover-Calm (raised e) h q env w = (q e).at env w

  pub Quiet-catch :
      (m : M A) (h : Exn → M A) → Quiet m → ((e : Exn) → Quiet (h e)) → Quiet (catch m h)
  unfolding catch
  Quiet-catch m h qm qh = record {
    at = λ env w. let (r, v) = m env w in Calm-trans (qm.at env w) (recover-Calm r h qh env v);
  }

pub Quiet-update_manifest : (f : Fields → Fields) → Quiet (update_manifest f)
unfolding update_manifest
Quiet-update_manifest f = record { at = λ env w. manifest here (f w.manifest) }

pub Quiet-set_open : Quiet (set_open false)
unfolding set_open
Quiet-set_open = record { at = λ env w. open_flag here }

pub Quiet-set_closed : (b : Bool) → Quiet (set_closed b)
unfolding set_closed
Quiet-set_closed b = record { at = λ env w. closed_flag here b }

pub Quiet-set_token : (s : String) → Quiet (set_token s)
unfolding set_token
Quiet-set_token s = record { at = λ env w. token here s }

pub Quiet-call : (r : Request) → is_harmless r ≡ true → Quiet (call r)
unfolding call
Quiet-call r h = record { at = λ env w. more here r (env w.trace r) h }

-- The rule for a request at the type of its reply, for requests that stand where that type is given.
module _ (a b : String) where
  pub Quiet-link : Quiet (call (Request.link a b))
  Quiet-link = Quiet-call (Request.link a b) refl

  pub Quiet-rename : Quiet (call (Request.rename a b))
  Quiet-rename = Quiet-call (Request.rename a b) refl

  pub Quiet-replace : Quiet (call (Request.replace a b))
  Quiet-replace = Quiet-call (Request.replace a b) refl

  pub Quiet-write_file : Quiet (call (Request.write_file a b))
  Quiet-write_file = Quiet-call (Request.write_file a b) refl

pub Quiet-unlink : (a : String) → Quiet (call (Request.unlink a))
Quiet-unlink a = Quiet-call (Request.unlink a) refl

pub Quiet-chmod : (a : String) (n : ℕ) → Quiet (call (Request.chmod a n))
Quiet-chmod a n = Quiet-call (Request.chmod a n) refl

pub Quiet-exists : (a : String) → Quiet (call (Request.exists a))
Quiet-exists a = Quiet-call (Request.exists a) refl

pub Quiet-close : (c : Conn) → Quiet (call (Request.close c))
Quiet-close c = Quiet-call (Request.close c) refl

pub Quiet-connect : (c : Conn) (a : String) → Quiet (call (Request.connect c a))
Quiet-connect c a = Quiet-call (Request.connect c a) refl

pub Quiet-pragma : (c : Conn) (a : String) → Quiet (call (Request.pragma c a))
Quiet-pragma c a = Quiet-call (Request.pragma c a) refl

pub Quiet-backup : (c d : Conn) → Quiet (call (Request.backup c d))
Quiet-backup c d = Quiet-call (Request.backup c d) refl

pub Quiet-scan_keyword : (a : String) → Quiet (call (Request.scan_keyword a))
Quiet-scan_keyword a = Quiet-call (Request.scan_keyword a) refl

pub Quiet-scan_positional : (a : String) → Quiet (call (Request.scan_positional a))
Quiet-scan_positional a = Quiet-call (Request.scan_positional a) refl

pub Quiet-rollback_transaction : Quiet (call Request.rollback_transaction)
Quiet-rollback_transaction = Quiet-call Request.rollback_transaction refl

pub Quiet-read_json : (a : String) → Quiet (call (Request.read_json a))
Quiet-read_json a = Quiet-call (Request.read_json a) refl

pub Quiet-refuse_if : (b : Bool) (e : Exn) → Quiet (refuse_if b e)
unfolding refuse_if
Quiet-refuse_if b e = Quiet-if b _ _ (Quiet-raise e) (Quiet-pure tt)

module _ {A B : Type 0} where
  continue-Calm :
      (r : Outcome A) (f : A → M B)
      → ((a : A) → Quiet (f a))
      → (env : Env) (w : World) → Calm w (codex_storage_doctor.Effects.continue r f env w).1
  continue-Calm (ok a) f q env w = (q a).at env w
  continue-Calm (raised e) f q env w = here

  pub Quiet-bind : (m : M A) (f : A → M B) → Quiet m → ((a : A) → Quiet (f a)) → Quiet (m >>= f)
  unfolding ◌>>=◌
  Quiet-bind m f qm qf = record {
    at = λ env w. let (r, v) = m env w in Calm-trans (qm.at env w) (continue-Calm r f qf env v);
  }

pub ruleset quiet_rules = (
  Quiet-pure, Quiet-raise, Quiet-return, Quiet-gets, Quiet-if, Quiet-attempt, Quiet-catch,
  Quiet-call, Quiet-refuse_if, Quiet-bind, Quiet-link, Quiet-rename, Quiet-replace,
  Quiet-write_file, Quiet-unlink, Quiet-chmod, Quiet-close, Quiet-connect, Quiet-pragma,
  Quiet-backup, Quiet-scan_keyword, Quiet-scan_positional, Quiet-rollback_transaction,
  Quiet-read_json, Quiet-exists, Quiet-set_open, Quiet-set_closed, Quiet-update_manifest,
  Quiet-set_token,
)
