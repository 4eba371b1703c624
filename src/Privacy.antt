-- ===== src/Privacy.antt =====
-- privacy.py: the test that a report carries no raw field, no known secret and no absolute path.
-- A report is a JSON value; PrivacyViolation is a ValueError.
pub mod Laws
use Prim.Native.Char.{Char, code}
use codex_storage_doctor.Prelude.{
  String, ◌<>◌, ◌==◌, Bool, true, false, not, ◌&&◌, ◌||◌, Option, none, some, List, [], ◌∷◌, leb,
  eqb, any_of, keep_if, contains, if◌then◌else◌,
}
use codex_storage_doctor.Text.{is_space, is_digit, is_blank, after_fold, has_part, lower, strip}
use codex_storage_doctor.Json.{
  Json, Items, Fields, null, bool, num, str, arr, obj, nil, cons, end, field,
}
use codex_storage_doctor.Errors.{value_error}
use codex_storage_doctor.Effects.{Outcome, ok, raised}
use codex_storage_doctor.Host.{Host}

abbrev pub forbidden_output_keys : List String
forbidden_output_keys =
    "argv" ∷ "args" ∷ "body" ∷ "command" ∷ "command_line" ∷ "commandline" ∷ "environment"
    ∷ "feedback_log_body" ∷ "file" ∷ "message" ∷ "module" ∷ "module_path" ∷ "payload"
    ∷ "process_uuid" ∷ "target" ∷ "thread_id" ∷ "tool_input" ∷ []

is_slash : Char → Bool
is_slash c = eqb (code c) 47

is_backslash : Char → Bool
is_backslash c = eqb (code c) 92

is_quote : Char → Bool
is_quote c = eqb (code c) 34 || eqb (code c) 39

is_ascii_letter : Char → Bool
is_ascii_letter c =
    (leb b'a' (code c) && leb (code c) b'z') || (leb b'A' (code c) && leb (code c) b'Z')

-- `[A-Z]` without regard to case, which takes in four letters outside of ASCII.
is_drive_letter : Char → Bool
unfolding is_ascii_letter
is_drive_letter c =
    is_ascii_letter c
    || eqb (code c) 0x130
    || eqb (code c) 0x131
    || eqb (code c) 0x17f
    || eqb (code c) 0x212a

-- The test of the character before a position; true at the start.
not_behind : (Char → Bool) → String → Bool
not_behind test String.[] = true
not_behind test (String.◌∷◌ c past) = not (test c)

-- At least one character that passes the test, and then one that passes the second test and not the
-- first.
run_then : (Char → Bool) → (Char → Bool) → Bool → String → Bool
run_then inside stop started String.[] = false
run_then inside stop started (String.◌∷◌ c s) =
    let later = run_then inside stop true s in if inside c then later else started && stop c

-- The four patterns at one position; `past` is the text before it, reversed.
-- `(?<![A-Za-z0-9/])/(?!/)[^\s\"']+`
posix_at : String → String → Bool
unfolding not_behind is_ascii_letter is_digit is_slash is_space is_quote
posix_at past (String.◌∷◌ c (String.◌∷◌ d s)) =
    not_behind (λ b. is_ascii_letter b || is_digit b || is_slash b) past
    && is_slash c
    && not (is_slash d)
    && not (is_space d)
    && not (is_quote d)
posix_at past s = false

-- `[A-Z]:[\\/]`
drive_at : String → Bool
unfolding is_drive_letter is_slash is_backslash
drive_at (String.◌∷◌ c (String.◌∷◌ d (String.◌∷◌ e s))) =
    is_drive_letter c && eqb (code d) 58 && (is_slash e || is_backslash e)
drive_at s = false

-- `\\\\[^\\/\s]+[\\/]`
unc_at : String → Bool
unfolding is_slash is_backslash is_space run_then
unc_at (String.◌∷◌ c (String.◌∷◌ d s)) =
    is_backslash c
    && is_backslash d
    && run_then (λ e. not (is_slash e || is_backslash e || is_space e))
        (λ e. is_slash e || is_backslash e) false s
unc_at s = false

-- `(?i)(?<![A-Za-z0-9])(?:[A-Z]:[\\/]|\\\\[^\\/\s]+[\\/])`
windows_at : String → String → Bool
unfolding not_behind is_drive_letter is_digit drive_at unc_at
windows_at past s =
    not_behind (λ b. is_drive_letter b || is_digit b) past && (drive_at s || unc_at s)

is_none : Option String → Bool
is_none none = true
is_none (some s) = false

-- `(?i)(?<!http:)(?<!https:)//[^/\s]+/`
forward_at : String → String → Bool
unfolding is_slash is_space run_then after_fold is_none
forward_at past (String.◌∷◌ c (String.◌∷◌ d s)) =
    is_none (after_fold ":ptth" past)
    && is_none (after_fold ":sptth" past)
    && is_slash c
    && is_slash d
    && run_then (λ e. not (is_slash e || is_space e)) is_slash false s
forward_at past s = false

module _ (host : Host) where
  -- `(?i)\bfile:/+`
  file_uri_at : String → String → Bool
  unfolding not_behind after_fold is_none
  file_uri_at past s = not_behind host.is_word past && not (is_none (after_fold "file:/" s))

  path_at : String → String → Bool
  unfolding posix_at windows_at forward_at file_uri_at
  path_at past s = posix_at past s || windows_at past s || forward_at past s || file_uri_at past s

  -- Is there a path at a position from here on?
  search_from : String → String → Bool
  unfolding path_at
  search_from past String.[] = false
  search_from past (String.◌∷◌ c s) =
      path_at past (String.◌∷◌ c s) || search_from (String.◌∷◌ c past) s

  unfoldable pub contains_absolute_path : String → Bool
  unfolding search_from strip
  contains_absolute_path s = search_from "" s || strip s == "/"

  module _ (forbidden_values : List String) (forbid_absolute_paths : Bool) where
    -- `tuple(item for item in forbidden_values if item)`
    unfoldable pub canaries : List String
    unfolding is_blank
    canaries = keep_if (λ s. not (is_blank s)) forbidden_values

    unfoldable pub check_text : String → Outcome (Unit {0})
    unfolding contains_absolute_path canaries has_part
    check_text s =
        if forbid_absolute_paths && contains_absolute_path s
        then raised (value_error "report contains an absolute path value")
        else if any_of (λ canary. has_part s canary) canaries
        then raised (value_error "report contains a forbidden fixture canary")
        else ok tt

    unfoldable pub check_key : String → Outcome (Unit {0})
    unfolding lower strip
    check_key key =
        let normalized_key = lower (strip key) in
        if contains forbidden_output_keys normalized_key
        then raised (value_error ("forbidden output field: " <> normalized_key))
        else ok tt

    -- The second call, where the first one raises nothing.
    unfoldable pub and_then : Outcome (Unit {0}) → Outcome (Unit {0}) → Outcome (Unit {0})
    and_then (ok _) next = next
    and_then (raised e) next = raised e

    unfoldable mutual
      unfolding check_text check_key and_then

      pub visit : Json → Outcome (Unit {0})
      visit (obj fs) = visit_fields fs
      visit (arr xs) = visit_items xs
      visit (str s) = check_text s
      visit null = ok tt
      visit (bool b) = ok tt
      visit (num n) = ok tt

      pub visit_items : Items → Outcome (Unit {0})
      visit_items nil = ok tt
      visit_items (cons x xs) = and_then (visit x) (visit_items xs)

      pub visit_fields : Fields → Outcome (Unit {0})
      visit_fields end = ok tt
      visit_fields (field k v rest) =
          and_then (check_key k) (and_then (visit v) (visit_fields rest))

    unfoldable pub assert_privacy_safe : Json → Outcome (Unit {0})
    unfolding visit
    assert_privacy_safe value = visit value
