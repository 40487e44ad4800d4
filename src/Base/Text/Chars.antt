-- ===== src/Base/Text/Chars.antt =====
-- Characters that a text does not hold: none of a number's but its digits.
use Prim.Native.Nat.{ℕ, zero, suc, ◌/◌, ◌%◌}
use Prim.Native.Char.{code}
use Prim.Native.String.{String, ◌++◌}
use text.Mathlib.TextLemmas.{nil-append, cons-append}
use mathlib.Core.Path.{◌≡◌, refl}
use mathlib.Core.Bool.{Bool, true, not, ◌&&◌}
use native.Mathlib.Omega.{arith}
use cerynth_os.Base.Tests.{◌==◌}
use cerynth_os.Base.Text.{digit, decimal, show_ℕ}

abbrev pub lacks : ℕ → String → Bool
lacks n String.[] = true
lacks n (String.◌∷◌ c s) = not (code c == n) && lacks n s

pub lacks-append :
    (n : ℕ) (s t : String) → lacks n s ≡ true → lacks n t ≡ true → lacks n (s ++ t) ≡ true
lacks-append n String.[] t h k = rw (nil-append t) k
lacks-append n (String.◌∷◌ c s) t h k = rw (cons-append c s t) (ground (arith, lacks-append n s t))

-- A lower-case letter; 99 is `c`.
lacks_c-digit : (n : ℕ) → lacks 99 (digit n) ≡ true
unfolding digit
lacks_c-digit zero = refl
lacks_c-digit (suc zero) = refl
lacks_c-digit (suc (suc zero)) = refl
lacks_c-digit (suc (suc (suc zero))) = refl
lacks_c-digit (suc (suc (suc (suc zero)))) = refl
lacks_c-digit (suc (suc (suc (suc (suc zero))))) = refl
lacks_c-digit (suc (suc (suc (suc (suc (suc zero)))))) = refl
lacks_c-digit (suc (suc (suc (suc (suc (suc (suc zero))))))) = refl
lacks_c-digit (suc (suc (suc (suc (suc (suc (suc (suc zero)))))))) = refl
lacks_c-digit (suc (suc (suc (suc (suc (suc (suc (suc (suc n))))))))) = refl

lacks_c-decimal : (fuel n : ℕ) → lacks 99 (decimal fuel n) ≡ true
unfolding decimal
lacks_c-decimal zero n = lacks_c-digit n
lacks_c-decimal (suc fuel) n = ground (
  arith,
  lacks_c-digit n,
  lacks-append 99 (decimal fuel (n / 10)) (digit (n % 10)),
  lacks_c-decimal fuel (n / 10),
  lacks_c-digit (n % 10),
)

pub lacks_c-show_ℕ : (n : ℕ) → lacks 99 (show_ℕ n) ≡ true
unfolding show_ℕ
lacks_c-show_ℕ n = lacks_c-decimal n n
