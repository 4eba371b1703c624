-- ===== src/Json.antt =====
-- Values of a decoded JSON document and of the dicts that the program builds, with the dict
-- operations that the program uses. Numbers are Python ints; a document with a float is not modelled.
pub mod Laws
use codex_storage_doctor.Prelude.{
  ℕ, zero, String, Bool, true, false, not, List, ◌==◌, eqb, contains, if◌then◌else◌,
}

-- A Python int: `negsuc n` is -(n + 1).
pub data ℤ : Type 0 where
  pos : ℕ → ℤ
  negsuc : ℕ → ℤ

unfoldable pub eq_ℤ : ℤ → ℤ → Bool
eq_ℤ (pos a) (pos b) = eqb a b
eq_ℤ (negsuc a) (negsuc b) = eqb a b
eq_ℤ _ _ = false

mutual
  pub data Json : Type 0 where
    null : Json
    bool : Bool → Json
    num : ℤ → Json
    str : String → Json
    arr : Items → Json
    obj : Fields → Json

  pub data Items : Type 0 where
    nil : Items
    cons : Json → Items → Items

  pub data Fields : Type 0 where
    end : Fields
    field : String → Json → Fields → Fields

-- `d.get(key)`: None on a missing key.
unfoldable pub get : String → Fields → Json
get key end = null
get key (field k v rest) = if k == key then v else get key rest

-- `d[key] = value`: an old key keeps its place, a new one goes to the end.
unfoldable pub put : String → Json → Fields → Fields
put key value end = field key value end
put key value (field k v rest) =
    if k == key then field k value rest else field k v (put key value rest)

-- `{k: v for k, v in d.items() if k not in keys}`
unfoldable pub without : List String → Fields → Fields
without keys end = end
without keys (field k v rest) =
    let others = without keys rest in if contains keys k then others else field k v others

unfoldable pub append : Items → Items → Items
append nil ys = ys
append (cons x xs) ys = cons x (append xs ys)

-- `bool(value)`
unfoldable pub truthy : Json → Bool
truthy null = false
truthy (bool b) = b
truthy (num (pos zero)) = false
truthy (num n) = true
truthy (str s) = not (s == "")
truthy (arr nil) = false
truthy (arr (cons x xs)) = true
truthy (obj end) = false
truthy (obj (field k v rest)) = true

-- `value == text`, for a text.
unfoldable pub is_text : String → Json → Bool
is_text text (str s) = s == text
is_text text _ = false

-- `isinstance(value, int) and not isinstance(value, bool) and value >= 0`
unfoldable pub is_natural : Json → Bool
is_natural (num (pos n)) = true
is_natural _ = false

-- `str(value)` for a text, the case that the callers have checked. For any other value this is a
-- text that the callers' tests refuse, as they refuse Python's.
unfoldable pub text_of : Json → String
text_of (str s) = s
text_of (bool true) = "True"
text_of (bool false) = "False"
text_of null = "None"
text_of (num n) = "<int>"
text_of (arr xs) = "[...]"
text_of (obj fs) = "{...}"

-- `int(value)` for a checked natural number.
unfoldable pub natural_of : Json → ℕ
natural_of (num (pos n)) = n
natural_of _ = 0
