-- ===== src/Planning/Accept.antt =====
-- What `validate_plan_document` has checked of a plan that it accepts, and `create_plan`'s seal
-- against those checks.
use codex_storage_doctor.Prelude.{
  String, Bool, true, false, not, ◌||◌, ◌≡◌, refl, sym, ap, ◌∙◌, Option, none, some, List, [], ◌∷◌,
}
use codex_storage_doctor.Text.{is_log_db_name}
use codex_storage_doctor.Json.{Json, Fields, str, get, put, without, is_text, text_of}
use codex_storage_doctor.Json.Laws.{get-put, get-put_other, without-put, is_text-eq}
use codex_storage_doctor.Errors.{Exn}
use codex_storage_doctor.Host.{Host}
use codex_storage_doctor.Effects.{ok}
use codex_storage_doctor.Planning.Modes.{
  mode_of, Mode, trigger_names, trigger_sql, normalize_sql, first_refusal,
}
use codex_storage_doctor.Planning.Schema.{is_none}
use codex_storage_doctor.Planning.Document.{
  name_for, sql_for, calculate_plan_digest, confirmation_token, plan_tests, validate_plan_document,
}
use codex_storage_doctor.Planning.Create.{seal_plan}

-- The first test of an accepted list is false, and the others are accepted.
pub accepted_head :
    (t : Bool) (e : Exn) (rest : List (Bool × Exn))
    → first_refusal ((t, e) ∷ rest) ≡ ok tt
    → t ≡ false
unfolding first_refusal
accepted_head true e rest h = cc
accepted_head false e rest h = refl

pub accepted_tail :
    (t : Bool) (e : Exn) (rest : List (Bool × Exn))
    → first_refusal ((t, e) ∷ rest) ≡ ok tt
    → first_refusal rest ≡ ok tt
unfolding first_refusal
accepted_tail true e rest h = cc
accepted_tail false e rest h = h

pub not-false : (b : Bool) → not b ≡ false → b ≡ true
not-false true h = refl
not-false false h = cc

neither : (a b : Bool) → (not a || not b) ≡ false → (a ≡ true) × (b ≡ true)
neither true true h = (refl, refl)
neither true false h = cc
neither false b h = cc

-- A test that compares a value with a text.
pub accepted_text : (s : String) (v : Json) → not (is_text s v) ≡ false → v ≡ str s
accepted_text s v h = is_text-eq s v (not-false (is_text s v) h)

pub known_mode : (o : Option Mode) → is_none o ≡ false → (m : Mode) × (o ≡ some m)
known_mode none h = cc
known_mode (some m) h = (m, refl)

-- A name and a SQL hash that were compared with those of a known mode.
pub mode_facts :
    (host : Host) (o : Option Mode) (name hash : Json)
    → is_none o ≡ false
    → name ≡ str (name_for o)
    → hash ≡ str (host.sha256 (normalize_sql (sql_for o)))
    → (m : Mode) × (o ≡ some m)
      × (name ≡ str (trigger_names m))
      × (hash ≡ str (host.sha256 (normalize_sql (trigger_sql m))))
unfolding name_for sql_for
mode_facts host none name hash h p q = cc
mode_facts host (some m) name hash h p q = (m, refl, p, q)

module _ (host : Host) where
  without-seal :
      (body : Fields)
      → without ("plan_digest" ∷ "confirmation_token" ∷ []) (seal_plan host body)
        ≡ without ("plan_digest" ∷ "confirmation_token" ∷ []) body
  unfolding seal_plan
  without-seal body =
      let keys = "plan_digest" ∷ "confirmation_token" ∷ [] in
      let digest = calculate_plan_digest host body in
      without-put keys "confirmation_token" _ (put "plan_digest" (str digest) body) refl
      ∙ without-put keys "plan_digest" (str digest) body refl

  digest-seal :
      (body : Fields)
      → calculate_plan_digest host (seal_plan host body) ≡ calculate_plan_digest host body
  unfolding calculate_plan_digest
  digest-seal body = ap (λ f. host.sha256 (host.dumps f)) (without-seal body)

  -- A sealed plan holds the digest of its other keys, and the confirmation token of that digest.
  pub seal_plan-verifies :
      (body : Fields)
      → let s = seal_plan host body in
        let digest = calculate_plan_digest host s in
        (get "plan_digest" s ≡ str digest)
        × (get "confirmation_token" s ≡ str (confirmation_token host digest))
  unfolding seal_plan
  seal_plan-verifies body =
      let digest = calculate_plan_digest host body in
      let marked = put "plan_digest" (str digest) body in
      let same = sym (digest-seal body) in
      (
        get-put_other "plan_digest" "confirmation_token" _ marked refl
            ∙ get-put "plan_digest" (str digest) body
            ∙ ap (λ d. str d) same,
        get-put "confirmation_token" (str (confirmation_token host digest)) marked
            ∙ ap (λ d. str (confirmation_token host d)) same,
      )

module _ (host : Host) (plan : Fields) where
  -- A plan that `validate_plan_document` accepts names an absolute path of a log database, holds the
  -- digest of its other keys and the confirmation token of that digest, it has one of the two modes,
  -- and its trigger name and SQL hash are those of the program's trigger of that mode.
  pub validate_plan_document_sound :
      validate_plan_document host plan ≡ ok tt
      → let database = host.path (text_of (get "database" plan)) in
        (host.is_absolute database ≡ true)
        × (is_log_db_name (host.base_name database) ≡ true)
        × (get "plan_digest" plan ≡ str (calculate_plan_digest host plan))
        × (get "confirmation_token" plan
            ≡ str (confirmation_token host (calculate_plan_digest host plan)))
        × ((mode : Mode) × (mode_of (text_of (get "mode" plan)) ≡ some mode)
            × (get "trigger_name" plan ≡ str (trigger_names mode))
            × (get "trigger_sql_sha256" plan
                ≡ str (host.sha256 (normalize_sql (trigger_sql mode)))))
  unfolding validate_plan_document plan_tests
  validate_plan_document_sound h =
      let t2 = accepted_tail _ _ _ (accepted_tail _ _ _ h) in
      let t4 = accepted_tail _ _ _ (accepted_tail _ _ _ t2) in
      let t6 = accepted_tail _ _ _ (accepted_tail _ _ _ t4) in
      let t8 = accepted_tail _ _ _ (accepted_tail _ _ _ t6) in
      let t10 = accepted_tail _ _ _ (accepted_tail _ _ _ t8) in
      let t12 = accepted_tail _ _ _ (accepted_tail _ _ _ t10) in
      let t13 = accepted_tail _ _ _ t12 in
      let t14 = accepted_tail _ _ _ t13 in
      let t15 = accepted_tail _ _ _ t14 in
      let t16 = accepted_tail _ _ _ t15 in
      let (absolute, named) = neither _ _ (accepted_head _ _ _ t4) in
      (
        absolute,
        named,
        accepted_text _ _ (accepted_head _ _ _ t13),
        accepted_text _ _ (accepted_head _ _ _ t14),
        mode_facts host (mode_of (text_of (get "mode" plan))) _ _ (accepted_head _ _ _ t2)
            (accepted_text _ _ (accepted_head _ _ _ t15))
            (accepted_text _ _ (accepted_head _ _ _ t16)),
      )
