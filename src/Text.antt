-- ===== src/Text.antt =====
-- The methods of Python's `str` that the program calls, over texts as lists of characters. Case
-- folding is that of ASCII.
pub mod Cut
pub mod Laws
use Prim.Native.Nat.{◌-◌}
use Prim.Native.Char.{Char, code}
use Prim.Native.String.{char_at, find, len, ◌++◌ as ◌<>◌}
use codex_storage_doctor.Prelude.{
  ℕ, zero, suc, String, Bool, true, false, ◌&&◌, ◌||◌, List, [], ◌∷◌, ◌==◌, starts_with, Option,
  none, some, leb, eqb, if◌then◌else◌,
}

-- `str.isspace` for one character.
unfoldable pub is_space : Char → Bool
is_space c =
    (leb 9 (code c) && leb (code c) 13)
    || (leb 28 (code c) && leb (code c) 32)
    || eqb (code c) 0x85
    || eqb (code c) 0xa0
    || eqb (code c) 0x1680
    || (leb 0x2000 (code c) && leb (code c) 0x200a)
    || (leb 0x2028 (code c) && leb (code c) 0x2029)
    || eqb (code c) 0x202f
    || eqb (code c) 0x205f
    || eqb (code c) 0x3000

unfoldable pub lower_char : Char → Char
lower_char c =
    if leb b'A' (code c) && leb (code c) b'Z'
    then char_at "abcdefghijklmnopqrstuvwxyz" (code c - b'A')
    else c

unfoldable pub upper_char : Char → Char
upper_char c =
    if leb b'a' (code c) && leb (code c) b'z'
    then char_at "ABCDEFGHIJKLMNOPQRSTUVWXYZ" (code c - b'a')
    else c

-- `s.lower()`
unfoldable pub lower : String → String
unfolding lower_char
lower String.[] = String.[]
lower (String.◌∷◌ c s) = String.◌∷◌ (lower_char c) (lower s)

-- `s.upper()`
unfoldable pub upper : String → String
unfolding upper_char
upper String.[] = String.[]
upper (String.◌∷◌ c s) = String.◌∷◌ (upper_char c) (upper s)

-- `s[:n]`
unfoldable pub prefix : ℕ → String → String
prefix zero s = String.[]
prefix (suc n) String.[] = String.[]
prefix (suc n) (String.◌∷◌ c s) = String.◌∷◌ c (prefix n s)

-- `part in s`
unfoldable pub has_part : String → String → Bool
has_part s part = leb (find s part) (len s)

reverse_onto : String → String → String
reverse_onto String.[] acc = acc
reverse_onto (String.◌∷◌ c s) acc = reverse_onto s (String.◌∷◌ c acc)

drop_while : (Char → Bool) → String → String
drop_while test String.[] = String.[]
drop_while test (String.◌∷◌ c s) =
    let rest = drop_while test s in if test c then rest else String.◌∷◌ c s

-- Removal at the right end of what passes the test.
unfoldable pub rstrip_if : (Char → Bool) → String → String
unfolding reverse_onto drop_while
rstrip_if test s = reverse_onto (drop_while test (reverse_onto s String.[])) String.[]

-- `s.strip()`
unfoldable pub strip : String → String
unfolding rstrip_if is_space
strip s = rstrip_if is_space (drop_while is_space s)

is_empty : String → Bool
is_empty String.[] = true
is_empty (String.◌∷◌ c s) = false

-- The words of `s.split()`; `word` holds the current word, reversed.
split_from : String → String → List String
unfolding is_empty reverse_onto is_space
split_from word String.[] = if is_empty word then [] else reverse_onto word String.[] ∷ []
split_from word (String.◌∷◌ c s) =
    let skip = split_from String.[] s in
    let more = split_from (String.◌∷◌ c word) s in
    if is_space c
    then (if is_empty word then skip else reverse_onto word String.[] ∷ skip)
    else more

-- `s.split()`
unfoldable pub split : String → List String
unfolding split_from
split s = split_from String.[] s

-- `" ".join(words)`
unfoldable pub join_words : List String → String
join_words [] = ""
join_words (w ∷ []) = w
join_words (w ∷ v ∷ words) = w <> (" " <> join_words (v ∷ words))

unfoldable pub is_semicolon : Char → Bool
is_semicolon c = eqb (code c) b';'

-- Every character passes the test.
unfoldable pub all_chars : (Char → Bool) → String → Bool
all_chars test String.[] = true
all_chars test (String.◌∷◌ c s) = test c && all_chars test s

unfoldable pub is_digit : Char → Bool
is_digit c = leb b'0' (code c) && leb (code c) b'9'

-- A character of `0123456789abcdef`.
unfoldable pub is_hex : Char → Bool
is_hex c = (leb b'0' (code c) && leb (code c) b'9') || (leb b'a' (code c) && leb (code c) b'f')

-- `not s`
unfoldable pub is_blank : String → Bool
unfolding is_empty
is_blank s = is_empty s

-- The characters at which `s.splitlines()` breaks.
is_break : Char → Bool
is_break c =
    (leb 10 (code c) && leb (code c) 13)
    || (leb 28 (code c) && leb (code c) 30)
    || eqb (code c) 0x85
    || (leb 0x2028 (code c) && leb (code c) 0x2029)

take_line : String → String
unfolding is_break
take_line String.[] = String.[]
take_line (String.◌∷◌ c s) = let rest = take_line s in if is_break c then "" else String.◌∷◌ c rest

-- `s.splitlines()[0]`, for a text that is not empty.
unfoldable pub first_line : String → String
unfolding take_line
first_line s = take_line s

-- `s.replace("\\", "/")`
unfoldable pub forward_slashes : String → String
forward_slashes String.[] = String.[]
forward_slashes (String.◌∷◌ c s) =
    String.◌∷◌ (if eqb (code c) 92 then char_at "/" 0 else c) (forward_slashes s)

-- What is left of a text behind a literal, if the text begins with it.
unfoldable pub after : String → String → Option String
after String.[] s = some s
after (String.◌∷◌ c lit) String.[] = none
after (String.◌∷◌ c lit) (String.◌∷◌ d s) =
    let rest = after lit s in if eqb (code c) (code d) then rest else none

-- One character of a pattern without regard to case: the two dotted and dotless letters and the
-- long s are equal to their Latin letters, as in Python's `re.IGNORECASE`.
fold_code : Char → ℕ
unfolding lower_char
fold_code c =
    if eqb (code c) 0x17f
    then b's'
    else if eqb (code c) 0x130 || eqb (code c) 0x131
    then b'i'
    else code (lower_char c)

-- `after`, without regard to case; the literal is in lower case.
unfoldable pub after_fold : String → String → Option String
unfolding fold_code
after_fold String.[] s = some s
after_fold (String.◌∷◌ c lit) String.[] = none
after_fold (String.◌∷◌ c lit) (String.◌∷◌ d s) =
    let rest = after_fold lit s in if eqb (code c) (fold_code d) then rest else none

drop_digits : String → String
unfolding is_digit
drop_digits String.[] = String.[]
drop_digits (String.◌∷◌ c s) =
    let rest = drop_digits s in if is_digit c then rest else String.◌∷◌ c s

-- At least one digit, and then the rest.
digits_then : String → Option String
unfolding drop_digits is_digit
digits_then String.[] = none
digits_then (String.◌∷◌ c s) = if is_digit c then some (drop_digits s) else none

ends_sqlite : Option String → Bool
unfolding after_fold
ends_sqlite none = false
ends_sqlite (some s) = elim (after_fold ".sqlite" s) [ none ↦ false | some rest ↦ rest == "" ]

then_number : Option String → Bool
unfolding digits_then ends_sqlite
then_number none = false
then_number (some s) = ends_sqlite (digits_then s)

-- `LOG_DB_NAME.fullmatch(name)`: `^logs_[0-9]+\.sqlite$` without regard to case.
unfoldable pub is_log_db_name : String → Bool
unfolding then_number after_fold
is_log_db_name s = then_number (after_fold "logs_" s)

is_letter : Option String → Bool
is_letter none = false
is_letter (some String.[]) = false
is_letter (some (String.◌∷◌ c s)) =
    leb b'a' (code c) && leb (code c) b'z' && (s == "" || s == "\n" || starts_with s "/")

-- `re.match(r"^/mnt/[a-z](?:/|$)", s)`, for a text in lower case.
unfoldable pub is_mounted_drive : String → Bool
unfolding is_letter after
is_mounted_drive s = is_letter (after "/mnt/" s)
