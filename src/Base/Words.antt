-- ===== src/Base/Words.antt =====
-- The standard library's functions on texts with which files of /proc are read.
pub mod Lines
use Prim.Native.Nat.{ℕ, ◌+◌, ◌-◌, ◌*◌, ◌^◌}
use Prim.Native.Char.{Char, code}
use Prim.Native.String.{String}
use mathlib.Core.Bool.{◌&&◌}
use mathlib.Core.Option.{Option, none, some}
use mathlib.Core.List.{List, [], ◌∷◌}
use cerynth_os.Base.Tests.{leb, ◌==◌, if◌then◌else◌}
use cerynth_os.Base.Text.{is_whitespace, is_empty}

-- `split_whitespace`: the first word, cut or empty, and the others.
words_from : String → String × List String
words_from String.[] = ("", [])
words_from (String.◌∷◌ c s) =
    let (word, rest) = words_from s in
    if is_whitespace c
    then ("", if is_empty word then rest else word ∷ rest)
    else (String.◌∷◌ c word, rest)

unfoldable pub split_whitespace : String → List String
unfolding words_from is_whitespace
split_whitespace s = let (word, rest) = words_from s in if is_empty word then rest else word ∷ rest

-- `split`: always one part more than there are separators.
parts_from : ℕ → String → String × List String
parts_from sep String.[] = ("", [])
parts_from sep (String.◌∷◌ c s) =
    let (part, rest) = parts_from sep s in
    if code c == sep then ("", part ∷ rest) else (String.◌∷◌ c part, rest)

unfoldable pub split : ℕ → String → List String
unfolding parts_from
split sep s = let (part, rest) = parts_from sep s in part ∷ rest

-- `lines`: a CR before the LF goes, and the text behind the last LF counts if it is not empty.
drop_cr : String → String
drop_cr String.[] = String.[]
drop_cr (String.◌∷◌ c s) =
    let rest = drop_cr s in if is_empty s && code c == 13 then String.[] else String.◌∷◌ c rest

ended_lines : String → List String → List String
ended_lines line [] = if is_empty line then [] else line ∷ []
ended_lines line (next ∷ rest) = drop_cr line ∷ ended_lines next rest

unfoldable pub lines : String → List String
unfolding drop_cr ended_lines parts_from
lines s = let (line, rest) = parts_from 10 s in ended_lines line rest

unfoldable pub strip_prefix : String → String → Option String
strip_prefix String.[] s = some s
strip_prefix (String.◌∷◌ p prefix) String.[] = none
strip_prefix (String.◌∷◌ p prefix) (String.◌∷◌ c s) =
    let rest = strip_prefix prefix s in if code p == code c then rest else none

abbrev add_before : Char → Option (String × String) → Option (String × String)
add_before c none = none
add_before c (some (before, after)) = some (String.◌∷◌ c before, after)

-- `split_once`
unfoldable pub split_once : ℕ → String → Option (String × String)
split_once sep String.[] = none
split_once sep (String.◌∷◌ c s) =
    let rest = split_once sep s in if code c == sep then some ("", s) else add_before c rest

-- `rsplit_once`
last_split : Char → String → ℕ → Option (String × String) → Option (String × String)
last_split c s sep none = if code c == sep then some ("", s) else none
last_split c s sep (some (before, after)) = some (String.◌∷◌ c before, after)

unfoldable pub rsplit_once : ℕ → String → Option (String × String)
unfolding last_split
rsplit_once sep String.[] = none
rsplit_once sep (String.◌∷◌ c s) = last_split c s sep (rsplit_once sep s)

-- `u64::from_str` and its kin: digits, one at least, after a `+` or none, and no overflow.
digits_from : ℕ → ℕ → String → Option ℕ
digits_from bound n String.[] = if leb n bound then some n else none
digits_from bound n (String.◌∷◌ c s) =
    let rest = digits_from bound (n * 10 + (code c - 48)) s in
    if leb 48 (code c) && leb (code c) 57 then rest else none

abbrev digits : ℕ → String → Option ℕ
digits bound s = if is_empty s then none else digits_from bound 0 s

unfoldable pub parse_up_to : ℕ → String → Option ℕ
unfolding digits_from
parse_up_to bound String.[] = none
parse_up_to bound (String.◌∷◌ c s) =
    if code c == 43 then digits bound s else digits bound (String.◌∷◌ c s)

unfoldable pub parse_u64 : String → Option ℕ
unfolding parse_up_to
parse_u64 s = parse_up_to (2 ^ 64 - 1) s
