-- ===== src/Daemon/Ops.antt =====
-- Operations on a state that may fail: `Result<A, String>` with a state that the operation changes,
-- whether it fails or not. `none` is a loop that met the bound on its rounds.
use cerynth_os.Base.{String, Option, none, some, Result, ok, err}

abbrev pub Op : Type 0 → Type 0 → Type 0
Op S A = S → Option (Result A String × S)

abbrev pub pure : {S A : Type 0} → A → Op S A
pure a s = some (ok a, s)

abbrev pub fail : {S A : Type 0} → String → Op S A
fail e s = some (err e, s)

abbrev pub and_then :
    {S A B : Type 0} → Option (Result A String × S) → (A → Op S B) → Option (Result B String × S)
and_then none f = none
and_then (some (ok a, t)) f = f a t
and_then (some (err e, t)) f = some (err e, t)

-- `?` after an operation: its error ends the whole.
infixl 5 ◌>>=◌ ◌>>◌
abbrev pub ◌>>=◌ : {S A B : Type 0} → Op S A → (A → Op S B) → Op S B
◌>>=◌ m f s = and_then (m s) f

abbrev pub ◌>>◌ : {S B : Type 0} → Op S (Unit {0}) → Op S B → Op S B
m >> k = m >>= λ _. k

-- The operation comes to an end, with a result and a state of which `Q` holds.
abbrev pub Returns :
    {S A : Type 0} → Option (Result A String × S) → (Result A String → S → Type 0) → Type 0
Returns none Q = ⊥
Returns (some (r, s)) Q = Q r s

module _ {S A : Type 0} where
  -- A weaker postcondition.
  pub Returns-mono :
      (o : Option (Result A String × S)) (Q R : Result A String → S → Type 0)
      → Returns o Q
      → ((r : Result A String) (s : S) → Q r s → R r s)
      → Returns o R
  Returns-mono none Q R h k = h
  Returns-mono (some (r, s)) Q R h k = k r s h

  -- The rule of `?`.
  pub Returns-and_then :
      {B : Type 0} (o : Option (Result A String × S)) (f : A → Op S B)
      (Q : Result A String → S → Type 0) (R : Result B String → S → Type 0)
      → Returns o Q
      → ((a : A) (s : S) → Q (ok a) s → Returns (f a s) R)
      → ((e : String) (s : S) → Q (err e) s → R (err e) s)
      → Returns (and_then o f) R
  Returns-and_then none f Q R h k l = h
  Returns-and_then (some (ok a, s)) f Q R h k l = k a s h
  Returns-and_then (some (err e, s)) f Q R h k l = l e s h
