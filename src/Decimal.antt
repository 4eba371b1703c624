-- ===== src/Decimal.antt =====
-- Numbers in decimal, as Python prints and reads them.
pub mod Laws
use Prim.Native.Char.{Char, code}
use Prim.Native.String.{char_at}
use codex_storage_doctor.Prelude.{
  ℕ, zero, suc, ◌+◌, ◌*◌, ◌-◌, ◌/◌, ◌%◌, String, Bool, true, false, not, ◌&&◌, Option, none, some,
  ltb, eqb, if◌then◌else◌,
}
use codex_storage_doctor.Text.{is_digit, all_chars, is_blank}
use codex_storage_doctor.Json.{ℤ, pos, negsuc}

unfoldable pub digit : ℕ → Char
digit d = char_at "0123456789" d

-- The digits of `n` in front of a text. Each step drops a digit, so `suc n` steps are enough.
unfoldable pub digits : ℕ → ℕ → String → String
unfolding digit
digits zero n s = s
digits (suc k) n s =
    let t = String.◌∷◌ (digit (n % 10)) s in
    elim (ltb n 10) [ true ↦ t | false ↦ digits k (n / 10) t ]

-- `f"{n}"`
unfoldable pub decimal : ℕ → String
unfolding digits
decimal n = digits (suc n) n ""

-- `f"{n:03d}"`
unfoldable pub padded : ℕ → String
unfolding decimal digit
padded n =
    if ltb n 10
    then String.◌∷◌ (digit 0) (String.◌∷◌ (digit 0) (decimal n))
    else if ltb n 100
    then String.◌∷◌ (digit 0) (decimal n)
    else decimal n

unfoldable pub number_from : ℕ → String → ℕ
number_from n String.[] = n
number_from n (String.◌∷◌ c s) = number_from (n * 10 + (code c - 48)) s

-- `int(text)`, for a text of digits.
unfoldable pub number : String → ℕ
unfolding number_from
number s = number_from 0 s

-- `text.isdigit()`
unfoldable pub is_number : String → Bool
unfolding is_blank all_chars is_digit
is_number s = not (is_blank s) && all_chars is_digit s

-- Digits with single underscores between them; `start` says that a digit must come next.
grouped : Bool → String → Bool
unfolding is_digit
grouped start String.[] = not start
grouped start (String.◌∷◌ c s) =
    let more = grouped false s in
    let next = grouped true s in
    if is_digit c then more else (not start && eqb (code c) b'_' && next)

drop_underscores : String → String
drop_underscores String.[] = String.[]
drop_underscores (String.◌∷◌ c s) =
    let rest = drop_underscores s in if eqb (code c) b'_' then rest else String.◌∷◌ c rest

unsigned : (ℕ → ℤ) → String → Option ℤ
unfolding grouped drop_underscores number
unsigned sign s = if grouped true s then some (sign (number (drop_underscores s))) else none

negated : ℕ → ℤ
negated zero = pos zero
negated (suc n) = negsuc n

-- `int(text)` for a text without white space around it: none is a ValueError.
unfoldable pub int_of : String → Option ℤ
unfolding unsigned negated
int_of String.[] = none
int_of (String.◌∷◌ c s) =
    if eqb (code c) b'-'
    then unsigned negated s
    else if eqb (code c) b'+'
    then unsigned pos s
    else unsigned pos (String.◌∷◌ c s)
