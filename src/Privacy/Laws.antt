-- ===== src/Privacy/Laws.antt =====
-- What a report that passes the privacy check has, and which reports pass.
use codex_storage_doctor.Prelude.{
  String, ◌≡◌, refl, sym, ap, ◌∙◌, ◌↔◌, Bool, true, false, not, ◌&&◌, List, [], ◌∷◌, ◌++◌, any_of,
  contains, Bool-cases, inl, inr, if◌then◌else◌,
}
use codex_storage_doctor.Text.{has_part, lower, strip}
use codex_storage_doctor.Json.{
  Json, Items, Fields, null, bool, num, str, arr, obj, nil, cons, end, field,
}
use codex_storage_doctor.Errors.{value_error}
use codex_storage_doctor.Effects.{Outcome, ok, raised}
use codex_storage_doctor.Host.{Host}
use codex_storage_doctor.Privacy.{
  forbidden_output_keys, contains_absolute_path, canaries, check_text, check_key, and_then, visit,
  visit_items, visit_fields, assert_privacy_safe,
}

-- Every key of a value, at any depth, and every text that is not a key.
unfoldable mutual
  pub keys : Json → List String
  keys (obj fs) = keys_of_fields fs
  keys (arr xs) = keys_of_items xs
  keys _ = []

  keys_of_items : Items → List String
  keys_of_items nil = []
  keys_of_items (cons x xs) = keys x ++ keys_of_items xs

  keys_of_fields : Fields → List String
  keys_of_fields end = []
  keys_of_fields (field k v rest) = k ∷ (keys v ++ keys_of_fields rest)

unfoldable mutual
  pub values : Json → List String
  values (str s) = s ∷ []
  values (obj fs) = values_of_fields fs
  values (arr xs) = values_of_items xs
  values _ = []

  values_of_items : Items → List String
  values_of_items nil = []
  values_of_items (cons x xs) = values x ++ values_of_items xs

  values_of_fields : Fields → List String
  values_of_fields end = []
  values_of_fields (field k v rest) = values v ++ values_of_fields rest

unfoldable pub all_of : (String → Bool) → List String → Bool
all_of test [] = true
all_of test (s ∷ ss) = test s && all_of test ss

passes : Outcome (Unit {0}) → Bool
passes (ok _) = true
passes (raised e) = false

passes_ok : (o : Outcome (Unit {0})) → passes o ≡ true → o ≡ ok tt
unfolding passes
passes_ok (ok tt) h = refl
passes_ok (raised e) h = cc

both_parts : (a b : Bool) → a && b ≡ true → (a ≡ true) × (b ≡ true)
both_parts true true h = (refl, refl)
both_parts true false h = cc
both_parts false b h = cc

and_true : (b : Bool) → b ≡ b && true
and_true true = refl
and_true false = refl

and_assoc : (a b c : Bool) → a && (b && c) ≡ (a && b) && c
and_assoc true b c = refl
and_assoc false b c = refl

and_both : (a b : Bool) → a ≡ true → b ≡ true → a && b ≡ true
and_both true b p q = q
and_both false b p q = cc

-- Every key and every text of a value pass their tests.
clean : (String → Bool) → (String → Bool) → List String → List String → Bool
unfolding all_of
clean key text ks vs = all_of key ks && all_of text vs

module _ (key text : String → Bool) where
  all_of-append :
      (test : String → Bool) (xs ys : List String)
      → all_of test (xs ++ ys) ≡ all_of test xs && all_of test ys
  unfolding all_of
  all_of-append test [] ys = refl
  all_of-append test (x ∷ xs) ys =
      ap (λ b. test x && b) (all_of-append test xs ys)
      ∙ and_assoc (test x) (all_of test xs) (all_of test ys)

  -- Two parts that are clean make a whole that is clean.
  joined :
      (ks ks' vs vs' : List String)
      → clean key text (ks ++ ks') (vs ++ vs') ≡ clean key text ks vs && clean key text ks' vs'
  unfolding clean
  joined ks ks' vs vs' =
      rw (all_of-append key ks ks', all_of-append text vs vs')
        (middle (all_of key ks) (all_of key ks') (all_of text vs) (all_of text vs'))
    where
      middle : (a b c d : Bool) → (a && b) && (c && d) ≡ (a && c) && (b && d)
      middle true true true d = refl
      middle true true false d = refl
      middle true false true d = refl
      middle true false false d = refl
      middle false b c d = refl

module _ (host : Host) (forbidden : List String) (no_paths : Bool) where
  -- The key is not one of the forbidden ones.
  unfoldable pub key_allowed : String → Bool
  key_allowed k = not (contains forbidden_output_keys (lower (strip k)))

  -- The text has no absolute path, where these are forbidden, and none of the secrets.
  unfoldable pub text_allowed : String → Bool
  text_allowed s =
      not (no_paths && contains_absolute_path host s)
      && not (any_of (λ secret. has_part s secret) (canaries host forbidden no_paths))

  passes-check_key : (k : String) → passes (check_key host forbidden no_paths k) ≡ key_allowed k
  unfolding check_key key_allowed passes
  passes-check_key k = elim (Bool-cases (contains forbidden_output_keys (lower (strip k)))) [
    | inl e ↦ rw e refl
    | inr e ↦ rw e refl
  ]

  passes-check_text : (s : String) → passes (check_text host forbidden no_paths s) ≡ text_allowed s
  unfolding check_text text_allowed passes
  passes-check_text s =
      go (no_paths && contains_absolute_path host s)
        (any_of (λ secret. has_part s secret) (canaries host forbidden no_paths))
    where
      go :
          (a b : Bool)
          → passes (
              if a
              then raised (value_error "report contains an absolute path value")
              else if b
              then raised (value_error "report contains a forbidden fixture canary")
              else ok tt)
            ≡ not a && not b
      go true b = refl
      go false true = refl
      go false false = refl

  passes-and_then :
      (a b : Outcome (Unit {0}))
      → passes (and_then host forbidden no_paths a b) ≡ passes a && passes b
  unfolding and_then passes
  passes-and_then (ok _) b = refl
  passes-and_then (raised e) b = refl

  is_clean : List String → List String → Bool
  unfolding clean
  is_clean ks vs = clean key_allowed text_allowed ks vs

  mutual
    unfolding visit keys values passes clean all_of is_clean

    visit_clean :
        (v : Json) → passes (visit host forbidden no_paths v) ≡ is_clean (keys v) (values v)
    visit_clean (obj fs) = fields_clean fs
    visit_clean (arr xs) = items_clean xs
    visit_clean (str s) = passes-check_text s ∙ and_true (text_allowed s)
    visit_clean null = refl
    visit_clean (bool b) = refl
    visit_clean (num n) = refl

    items_clean :
        (xs : Items)
        → passes (visit_items host forbidden no_paths xs)
          ≡ is_clean (keys_of_items xs) (values_of_items xs)
    items_clean nil = refl
    items_clean (cons x xs) =
        passes-and_then _ _
        ∙ ap (λ b. b && passes (visit_items host forbidden no_paths xs)) (visit_clean x)
        ∙ ap (λ b. is_clean (keys x) (values x) && b) (items_clean xs)
        ∙ sym (
            joined key_allowed text_allowed (keys x) (keys_of_items xs) (values x)
              (values_of_items xs))

    fields_clean :
        (fs : Fields)
        → passes (visit_fields host forbidden no_paths fs)
          ≡ is_clean (keys_of_fields fs) (values_of_fields fs)
    fields_clean end = refl
    fields_clean (field k v rest) =
        passes-and_then _ _
        ∙ ap
            (λ b.
              b
              && passes (
                  and_then host forbidden no_paths (visit host forbidden no_paths v)
                    (visit_fields host forbidden no_paths rest)))
            (passes-check_key k)
        ∙ ap (λ b. key_allowed k && b)
            (passes-and_then _ _
              ∙ ap (λ b. b && passes (visit_fields host forbidden no_paths rest)) (visit_clean v)
              ∙ ap (λ b. is_clean (keys v) (values v) && b) (fields_clean rest)
              ∙ sym (
                  joined key_allowed text_allowed (keys v) (keys_of_fields rest) (values v)
                    (values_of_fields rest)))
        ∙ and_assoc (key_allowed k) (all_of key_allowed (keys v ++ keys_of_fields rest))
            (all_of text_allowed (values v ++ values_of_fields rest))

  -- The check passes a report exactly when no key of it, at any depth, is a forbidden one in lower case
  -- without white space around it, and no text of it has a given secret or, where paths are
  -- forbidden, an absolute path.
  pub assert_privacy_safe_lem :
      (v : Json)
      → (assert_privacy_safe host forbidden no_paths v ≡ ok tt)
        ↔ ((all_of key_allowed (keys v) ≡ true) × (all_of text_allowed (values v) ≡ true))
  unfolding assert_privacy_safe is_clean clean passes
  assert_privacy_safe_lem v = (
    λ h. both_parts _ _ (sym (visit_clean v) ∙ ap passes h),
    λ (k, t). passes_ok _ (visit_clean v ∙ and_both _ _ k t),
  )
