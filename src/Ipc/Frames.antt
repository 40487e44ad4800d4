-- ===== src/Ipc/Frames.antt =====
-- crates/cerynth-ipc/src/protocol.rs, trait Frame: JSON lines. `serde_json` is the parameter
-- `Codec`, at one type of frames; bytes are numbers.
use mathlib.Core.Option
pub mod RoundTrip
use cerynth_os.Base.{
  ℕ, String, Bool, true, false, ◌&&◌, Option, none, some, List, [], ◌∷◌, ◌++◌, Result, ok, ◌==◌,
  if◌then◌else◌,
}

pub record Codec (A : Type 0) : Type 0 where
  pub to_vec : A → List ℕ
  pub from_slice : List ℕ → Result A String

unfoldable pub same_bytes : List ℕ → List ℕ → Bool
same_bytes [] [] = true
same_bytes (x ∷ xs) (y ∷ ys) = x == y && same_bytes xs ys
same_bytes _ _ = false

-- `[u8]::strip_suffix`: the bytes before the suffix, if they end in it.
unfoldable pub strip_suffix : List ℕ → List ℕ → Option (List ℕ)
unfolding same_bytes
strip_suffix suffix [] = if same_bytes [] suffix then some [] else none
strip_suffix suffix (x ∷ xs) =
    if same_bytes (x ∷ xs) suffix then some [] else Option.map (◌∷◌ x) (strip_suffix suffix xs)

abbrev pub lf : List ℕ
lf = b'\n' ∷ []

abbrev pub crlf : List ℕ
crlf = b'\r' ∷ b'\n' ∷ []

-- `strip_suffix(b"\n").or_else(|| strip_suffix(b"\r\n")).unwrap_or(line)`.
unfoldable pub trim_line : List ℕ → List ℕ
unfolding strip_suffix
trim_line line = elim (strip_suffix lf line) [
  | some trimmed ↦ trimmed
  | none ↦ elim (strip_suffix crlf line) [ some trimmed ↦ trimmed | none ↦ line ]
]

module _ {A : Type 0} (c : Codec A) where
  unfoldable pub to_line : A → List ℕ
  to_line a = c.to_vec a ++ lf

  unfoldable pub from_line : List ℕ → Result A String
  from_line line = c.from_slice (trim_line line)
