-- ===== src/Base/Words/Lines.antt =====
-- `lines` on a text that was written line by line.
use Prim.Native.String.{String, ◌++◌}
use text.Mathlib.TextLemmas.{nil-append, cons-append}
use mathlib.Core.Path.{◌≡◌, refl, ◌∙◌, ap}
use mathlib.Core.Bool.{true}
use mathlib.Core.List.{List, [], ◌∷◌}
use native.Mathlib.Omega.{arith}
use cerynth_os.Base.Lists.{All}
use cerynth_os.Base.Text.Chars.{lacks}
use cerynth_os.Base.Words.{drop_cr, ended_lines, parts_from, lines}

-- Each text, and a line feed behind it.
abbrev pub unlines : List String → String
unlines [] = ""
unlines (s ∷ ss) = s ++ (String.◌∷◌ "\n" (unlines ss))

-- A text that is one line: no line feed, no carriage return.
abbrev pub IsLine : String → Type 0
IsLine s = (lacks 10 s ≡ true) × (lacks 13 s ≡ true)

drop_cr-lacks : (s : String) → lacks 13 s ≡ true → drop_cr s ≡ s
unfolding drop_cr
drop_cr-lacks String.[] h = refl
drop_cr-lacks (String.◌∷◌ c s) h = ground (arith, drop_cr-lacks s)

parts_from-line :
    (s rest : String)
    → lacks 10 s ≡ true
    → parts_from 10 (s ++ (String.◌∷◌ "\n" rest))
      ≡ (s, (parts_from 10 rest).0 ∷ (parts_from 10 rest).1)
unfolding parts_from
parts_from-line String.[] rest h = rw (nil-append (String.◌∷◌ "\n" rest)) refl
parts_from-line (String.◌∷◌ c s) rest h =
    rw (cons-append c s (String.◌∷◌ "\n" rest)) (ground (arith, parts_from-line s rest))

lines-line : (s rest : String) → IsLine s → lines (s ++ (String.◌∷◌ "\n" rest)) ≡ s ∷ lines rest
unfolding lines ended_lines
lines-line s rest h =
    rw (parts_from-line s rest h.0) (ap (λ t. t ∷ lines rest) (drop_cr-lacks s h.1))

pub lines-unlines : (ss : List String) → All IsLine ss → lines (unlines ss) ≡ ss
unfolding lines ended_lines parts_from
lines-unlines [] h = refl
lines-unlines (s ∷ ss) h = lines-line s (unlines ss) h.0 ∙ ap (◌∷◌ s) (lines-unlines ss h.1)
