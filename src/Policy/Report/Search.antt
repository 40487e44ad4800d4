-- ===== src/Policy/Report/Search.antt =====
-- crates/cerynth-policy/src/bin/cerynth-policy-report.rs: where `contains` finds its needle in a text
-- that was put together from pieces.
use Prim.Native.Char.{Char, code}
use Prim.Native.String.{◌++◌}
use text.Mathlib.TextLemmas.{nil-append, cons-append}
use mathlib.Core.List
use cerynth_os.Base.{
  ◌≡◌, refl, ◌∙◌, Bool, true, false, not, ◌&&◌, ◌||◌, ◌==◌, arith, String, none, some, List, [],
  ◌∷◌, All, format, Option-cases, inl, inr,
}
use cerynth_os.Base.Text.Chars.{lacks}
use cerynth_os.Base.Words.{strip_prefix}
use cerynth_os.Policy.Report.{contains}

-- The needle and the text differ before either ends.
abbrev clashes : String → String → Bool
clashes String.[] s = false
clashes (String.◌∷◌ p needle) String.[] = false
clashes (String.◌∷◌ p needle) (String.◌∷◌ c s) = not (code p == code c) || clashes needle s

-- No occurrence of the needle begins in the text, whatever follows.
abbrev pub quiet : String → String → Bool
quiet needle String.[] = true
quiet needle (String.◌∷◌ c s) = clashes needle (String.◌∷◌ c s) && quiet needle s

strip_prefix-clashes :
    (needle s t : String) → clashes needle s ≡ true → strip_prefix needle (s ++ t) ≡ none
unfolding strip_prefix
strip_prefix-clashes String.[] s t h = absurd (cc)
strip_prefix-clashes (String.◌∷◌ p needle) String.[] t h = absurd (cc)
strip_prefix-clashes (String.◌∷◌ p needle) (String.◌∷◌ c s) t h =
    rw (cons-append c s t) (ground (arith, strip_prefix-clashes needle s t))

pub contains-quiet :
    (needle s t : String) → quiet needle s ≡ true → contains needle (s ++ t) ≡ contains needle t
unfolding contains
contains-quiet needle String.[] t h = rw (nil-append t) refl
contains-quiet needle (String.◌∷◌ c s) t h = rw (cons-append c s t) (
    ground (
      arith,
      contains-quiet needle s t,
      strip_prefix-clashes needle (String.◌∷◌ c s) t,
      cons-append c s t,
    ))

pub quiet-lacks :
    (c : Char) (needle s : String) → lacks (code c) s ≡ true → quiet (String.◌∷◌ c needle) s ≡ true
quiet-lacks c needle String.[] h = refl
quiet-lacks c needle (String.◌∷◌ d s) h = ground (arith, quiet-lacks c needle s)

pub quiet-format :
    (needle : String) (pieces : List String)
    → All (λ s. quiet needle s ≡ true) pieces
    → contains needle (format pieces) ≡ contains needle ""
quiet-format needle [] h = refl
quiet-format needle (s ∷ pieces) h =
    contains-quiet needle s (format pieces) h.0 ∙ quiet-format needle pieces h.1

strip_prefix-append :
    (needle s t behind : String)
    → strip_prefix needle s ≡ some behind
    → strip_prefix needle (s ++ t) ≡ some (behind ++ t)
unfolding strip_prefix
strip_prefix-append String.[] s t behind h = ground arith
strip_prefix-append (String.◌∷◌ p needle) String.[] t behind h = absurd (cc)
strip_prefix-append (String.◌∷◌ p needle) (String.◌∷◌ c s) t behind h =
    rw (cons-append c s t) (ground (arith, strip_prefix-append needle s t behind))

-- A needle with a character that was found is found in a longer text too.
pub contains-append :
    (p : Char) (needle s t : String)
    → contains (String.◌∷◌ p needle) s ≡ true
    → contains (String.◌∷◌ p needle) (s ++ t) ≡ true
unfolding contains
contains-append p needle String.[] t h = absurd (cc)
contains-append p needle (String.◌∷◌ c s) t h =
    elim (Option-cases (strip_prefix (String.◌∷◌ p needle) (String.◌∷◌ c s))) [
      | inl e ↦ rw (cons-append c s t) (ground (arith, contains-append p needle s t))
      | inr (behind, e) ↦
          let longer = strip_prefix-append (String.◌∷◌ p needle) (String.◌∷◌ c s) t behind e in
          rw (cons-append c s t) (ground (arith, longer, cons-append c s t))
    ]

-- The needle is in a piece behind quiet ones.
pub contains-format :
    (p : Char) (needle : String) (before : List String) (s : String) (after : List String)
    → All (λ t. quiet (String.◌∷◌ p needle) t ≡ true) before
    → contains (String.◌∷◌ p needle) s ≡ true
    → contains (String.◌∷◌ p needle) (format (List.◌++◌ before (s ∷ after))) ≡ true
contains-format p needle [] s after h k = contains-append p needle s (format after) k
contains-format p needle (t ∷ before) s after h k =
    contains-quiet (String.◌∷◌ p needle) t (format (List.◌++◌ before (s ∷ after))) h.0
    ∙ contains-format p needle before s after h.1 k
