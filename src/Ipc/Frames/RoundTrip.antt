-- ===== src/Ipc/Frames/RoundTrip.antt =====
-- crates/cerynth-ipc/src/protocol.rs, `to_line` and `from_line` together.

use cerynth_os.Base.{ℕ, ◌≡◌, refl, ap, ◌∙◌, some, List, [], ◌∷◌, ◌++◌, ok, arith}
use cerynth_os.Ipc.Frames.{Codec, strip_suffix, lf, crlf, trim_line, to_line, from_line}

strip_suffix-lf : (xs : List ℕ) → strip_suffix lf (xs ++ lf) ≡ some xs
unfolding strip_suffix
strip_suffix-lf [] = refl
strip_suffix-lf (x ∷ []) = ground (arith, strip_suffix-lf [])
strip_suffix-lf (x ∷ y ∷ xs) = ground (arith, strip_suffix-lf (y ∷ xs))

pub trim_line-lf : (xs : List ℕ) → trim_line (xs ++ lf) ≡ xs
unfolding trim_line
trim_line-lf xs = rw (strip_suffix-lf xs, trim_line)

-- A frame that the encoding reads back from its own bytes is also read back from its line,
-- whatever these bytes are.
pub from_line-to_line :
    {A : Type 0} (c : Codec A) (a : A)
    → c.from_slice (c.to_vec a) ≡ ok a
    → from_line c (to_line c a) ≡ ok a
unfolding from_line to_line
from_line-to_line c a h = ap c.from_slice (trim_line-lf (c.to_vec a)) ∙ h

crlf_line : (xs : List ℕ) → xs ++ crlf ≡ (xs ++ b'\r' ∷ []) ++ lf
crlf_line [] = refl
crlf_line (x ∷ xs) = ap (◌∷◌ x) (crlf_line xs)

-- Of a line that ends in CR LF only the LF is trimmed: the CR is handed to the JSON parser.
pub from_line-crlf :
    {A : Type 0} (c : Codec A) (xs : List ℕ)
    → from_line c (xs ++ crlf) ≡ c.from_slice (xs ++ b'\r' ∷ [])
unfolding from_line
from_line-crlf c xs =
    ap c.from_slice (ap trim_line (crlf_line xs) ∙ trim_line-lf (xs ++ b'\r' ∷ []))
