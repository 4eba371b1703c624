-- ===== src/Text/Cut.antt =====
-- The operations of Python that cut a text: splitlines, removesuffix, partition, rpartition, and the
-- replacements of `_decode_mount_path` (filesystem.py).
use Prim.Native.Char.{Char, code}
use Prim.Native.String.{◌++◌ as ◌<>◌}
use codex_storage_doctor.Prelude.{
  String, ◌&&◌, List, [], ◌∷◌, ◌==◌, Option, none, some, eqb, if◌then◌else◌,
}
use codex_storage_doctor.Text.{reverse_onto, is_empty, is_break, after}

-- `s.splitlines()`, where `line` holds the current line, reversed. A final break ends the last
-- line and begins none.
unfoldable pub lines_from : String → String → List String
unfolding is_break is_empty reverse_onto
lines_from line String.[] = if is_empty line then [] else reverse_onto line String.[] ∷ []
lines_from line (String.◌∷◌ c s) =
    let next = lines_from String.[] s in
    let more = lines_from (String.◌∷◌ c line) s in
    if is_break c then reverse_onto line String.[] ∷ next else more

-- A carriage return before a line feed is one break with it.
unfoldable pub drop_returns : String → String
drop_returns String.[] = String.[]
drop_returns (String.◌∷◌ c String.[]) = String.◌∷◌ c String.[]
drop_returns (String.◌∷◌ c (String.◌∷◌ d s)) =
    let rest = drop_returns (String.◌∷◌ d s) in
    if eqb (code c) 13 && eqb (code d) 10 then rest else String.◌∷◌ c rest

unfoldable pub lines : String → List String
unfolding lines_from drop_returns
lines s = lines_from String.[] (drop_returns s)

-- `s.removesuffix(end)`
unfoldable pub removesuffix : String → String → String
unfolding reverse_onto after
removesuffix suffix s = elim (after (reverse_onto suffix String.[]) (reverse_onto s String.[])) [
  | none ↦ s
  | some rest ↦ reverse_onto rest String.[]
]

put_front : Char → Option (String × String) → Option (String × String)
put_front c none = none
put_front c (some (a, b)) = some (String.◌∷◌ c a, b)

split_here : Option String → Option (String × String) → Option (String × String)
split_here none later = later
split_here (some rest) later = some ("", rest)

-- `s.partition(sep)`: none where the separator is missing.
unfoldable pub partition : String → String → Option (String × String)
unfolding put_front split_here after
partition sep String.[] = none
partition sep (String.◌∷◌ c s) =
    split_here (after sep (String.◌∷◌ c s)) (put_front c (partition sep s))

or_here : Option (String × String) → Option String → Option (String × String)
or_here (some p) here = some p
or_here none none = none
or_here none (some rest) = some ("", rest)

-- `s.rpartition(sep)`
unfoldable pub rpartition : String → String → Option (String × String)
unfolding put_front or_here after
rpartition sep String.[] = none
rpartition sep (String.◌∷◌ c s) =
    or_here (put_front c (rpartition sep s)) (after sep (String.◌∷◌ c s))

-- `s.replace(old, new)` for a text `old` of four characters and a new one of one.
replace_four : String → String → String → String
unfolding after
replace_four old new String.[] = String.[]
replace_four old new (String.◌∷◌ c String.[]) = String.◌∷◌ c String.[]
replace_four old new (String.◌∷◌ c (String.◌∷◌ d String.[])) = String.◌∷◌ c (String.◌∷◌ d String.[])
replace_four old new (String.◌∷◌ c (String.◌∷◌ d (String.◌∷◌ e String.[]))) =
    String.◌∷◌ c (String.◌∷◌ d (String.◌∷◌ e String.[]))
replace_four old new (String.◌∷◌ c (String.◌∷◌ d (String.◌∷◌ e (String.◌∷◌ f s)))) =
    let skip = replace_four old new s in
    let keep = replace_four old new (String.◌∷◌ d (String.◌∷◌ e (String.◌∷◌ f s))) in
    if String.◌∷◌ c (String.◌∷◌ d (String.◌∷◌ e (String.◌∷◌ f ""))) == old
    then new <> skip
    else String.◌∷◌ c keep

-- `_decode_mount_path` of filesystem.py
unfoldable pub decode_mount_path : String → String
unfolding replace_four
decode_mount_path s =
    replace_four "\\134" "\\"
      (replace_four "\\012" "\n" (replace_four "\\011" "\t" (replace_four "\\040" " " s)))
