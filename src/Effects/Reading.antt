-- ===== src/Effects/Reading.antt =====
-- Code that only reads: the requests it may make, and one rule for each way to build code.
use codex_storage_doctor.Prelude.{
  String, ◌==◌, ◌≡◌, refl, Bool, true, false, List, [], ◌∷◌, ◌&&◌, if◌then◌else◌,
}
use codex_storage_doctor.Errors.{Exn}
use codex_storage_doctor.Effects.{
  Conn, Request, Reply, Outcome, ok, raised, World, Env, M, pure, raise, call, ◌>>=◌, catch,
  attempt, return, refuse_if, continue, recover,
}
use codex_storage_doctor.Effects.Rules.{Calm, here, more, Quiet, is_harmless}

-- The commands that print the mount table and a version.
abbrev pub is_printing : List String → Bool
is_printing (a ∷ []) = a == "mount"
is_printing (a ∷ b ∷ []) = (a == "codex") && (b == "--version")
is_printing _ = false

-- The requests that read: of a path, of the platform, of a connection that is opened for reading with
-- `mode=ro`, and the two commands that print.
abbrev pub is_reading : Request → Bool
is_reading (Request.expand_user s) = true
is_reading (Request.resolve s) = true
is_reading (Request.resolve_strict s) = true
is_reading (Request.is_file s) = true
is_reading (Request.stat s) = true
is_reading Request.platform_system = true
is_reading Request.utc_now = true
is_reading (Request.environ s) = true
is_reading (Request.read_text s) = true
is_reading (Request.run_command words) = is_printing words
is_reading (Request.drive_type s) = true
is_reading (Request.connect Conn.reader s) = true
is_reading (Request.pragma Conn.reader s) = s == "query_only=ON"
is_reading (Request.quick_check Conn.reader) = true
is_reading (Request.master Conn.reader) = true
is_reading (Request.table_info Conn.reader) = true
is_reading (Request.close Conn.reader) = true
is_reading _ = false

-- The second world is the first with some reading requests more, and the same local variables.
pub data Read (w : World) : World → Type 0 where
  start : Read w w
  next :
      {v : World}
      → Read w v
      → (r : Request) (o : Outcome (Reply r)) → is_reading r ≡ true
      → Read w (record v { trace = (r, o) ∷ v.trace })

Read-trans : {u v w : World} → Read u v → Read v w → Read u w
Read-trans h start = h
Read-trans h (next k r o reading) = next (Read-trans h k) r o reading

pub record Reading {A : Type 0} (m : M A) : Type 0 where
  pub at : (env : Env) (w : World) → Read w (m env w).1

reading_harmless : (r : Request) → is_reading r ≡ true → is_harmless r ≡ true
reading_harmless (Request.create_trigger s) h = cc
reading_harmless (Request.drop_trigger s) h = cc
reading_harmless Request.commit h = cc
reading_harmless _ h = refl

Calm-Read : {u v : World} → Read u v → Calm u v
Calm-Read start = here
Calm-Read (next k r o h) = more (Calm-Read k) r o (reading_harmless r h)

pub Quiet-Reading : {A : Type 0} {m : M A} → Reading m → Quiet m
Quiet-Reading h = record { at = λ env w. Calm-Read (h.at env w) }

module _ {A : Type 0} where
  pub Reading-pure : (a : A) → Reading (pure a)
  unfolding pure
  Reading-pure a = record { at = λ env w. start }

  pub Reading-raise : (e : Exn) → Reading (raise {A = A} e)
  unfolding raise
  Reading-raise e = record { at = λ env w. start }

  pub Reading-return : (r : Outcome A) → Reading (return r)
  unfolding return
  Reading-return r = record { at = λ env w. start }

  pub Reading-if : (b : Bool) (m n : M A) → Reading m → Reading n → Reading (if b then m else n)
  Reading-if true m n p q = p
  Reading-if false m n p q = q

  pub Reading-attempt : (m : M A) → Reading m → Reading (attempt m)
  unfolding attempt
  Reading-attempt m q = record { at = λ env w. q.at env w }

  recover-Read :
      (r : Outcome A) (h : Exn → M A)
      → ((e : Exn) → Reading (h e))
      → (env : Env) (w : World) → Read w (recover r h env w).1
  recover-Read (ok a) h q env w = start
  recover-Read (raised e) h q env w = (q e).at env w

  pub Reading-catch :
      (m : M A) (h : Exn → M A) → Reading m → ((e : Exn) → Reading (h e)) → Reading (catch m h)
  unfolding catch
  Reading-catch m h p q = record {
    at = λ env w. let (r, v) = m env w in Read-trans (p.at env w) (recover-Read r h q env v);
  }

pub Reading-call : (r : Request) → is_reading r ≡ true → Reading (call r)
unfolding call
Reading-call r h = record { at = λ env w. next start r (env w.trace r) h }

pub Reading-refuse_if : (b : Bool) (e : Exn) → Reading (refuse_if b e)
unfolding refuse_if
Reading-refuse_if b e = Reading-if b _ _ (Reading-raise e) (Reading-pure tt)

-- The rules for the requests without a value.
pub Reading-connect : (s : String) → Reading (call (Request.connect Conn.reader s))
Reading-connect s = Reading-call (Request.connect Conn.reader s) refl

pub Reading-query_only : Reading (call (Request.pragma Conn.reader "query_only=ON"))
Reading-query_only = Reading-call (Request.pragma Conn.reader "query_only=ON") refl

pub Reading-close : Reading (call (Request.close Conn.reader))
Reading-close = Reading-call (Request.close Conn.reader) refl

module _ {A B : Type 0} where
  continue-Read :
      (r : Outcome A) (f : A → M B)
      → ((a : A) → Reading (f a))
      → (env : Env) (w : World) → Read w (continue r f env w).1
  continue-Read (ok a) f q env w = (q a).at env w
  continue-Read (raised e) f q env w = start

  pub Reading-bind :
      (m : M A) (f : A → M B) → Reading m → ((a : A) → Reading (f a)) → Reading (m >>= f)
  unfolding ◌>>=◌
  Reading-bind m f p q = record {
    at = λ env w. let (r, v) = m env w in Read-trans (p.at env w) (continue-Read r f q env v);
  }

pub ruleset reading_rules = (
  Reading-pure, Reading-raise, Reading-return, Reading-if, Reading-attempt, Reading-catch,
  Reading-call, Reading-refuse_if, Reading-bind, Reading-connect, Reading-query_only, Reading-close,
)
