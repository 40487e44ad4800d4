-- ===== src/Policy/Floats.antt =====
-- `f64` as the policy uses it: the type, its IEEE 754 operations and comparisons are parameters;
-- `clamp` and `max` are the standard library's.
use cerynth_os.Base.{ℕ, ◌≤◌, ◌≡◌, Bool, true, false, if◌then◌else◌}

pub record Float64 (R : Type 0) : Type 0 where
  pub add : R → R → R
  pub sub : R → R → R
  pub mul : R → R → R
  pub div : R → R → R
  pub abs : R → R
  pub le : R → R → Bool
  pub lt : R → R → Bool
  pub is_nan : R → Bool
  pub is_finite : R → Bool
  pub of_u64 : ℕ → R
  -- The literal with these digits and this number of them behind the point.
  pub lit : ℕ → ℕ → R

-- Comparison is a total order on what is not NaN, and literals are not NaN.
pub record FloatLaws {R : Type 0} (fl : Float64 R) : Type 0 where
  pub le_refl : (a : R) → fl.is_nan a ≡ false → fl.le a a ≡ true
  pub le_of_lt : (a b : R) → fl.lt a b ≡ true → fl.le a b ≡ true
  pub le_of_not_lt :
      (a b : R) → fl.is_nan a ≡ false → fl.is_nan b ≡ false → fl.lt a b ≡ false → fl.le b a ≡ true
  pub lit_not_nan : (digits places : ℕ) → fl.is_nan (fl.lit digits places) ≡ false
  pub lit_le_one : (digits : ℕ) → digits ≤ 100 → fl.le (fl.lit digits 2) (fl.lit 10 1) ≡ true

module _ {R : Type 0} (fl : Float64 R) where
  abbrev pub zero_f : R
  zero_f = fl.lit 0 1

  abbrev pub one_f : R
  one_f = fl.lit 10 1

  -- `f64::clamp`: NaN stays.
  unfoldable pub clamp : R → R → R → R
  clamp x lo hi = let y = if fl.lt x lo then lo else x in if fl.lt hi y then hi else y

  -- `f64::max`: the other argument, if one is NaN.
  unfoldable pub max_f : R → R → R
  max_f a b = if fl.is_nan a then b else if fl.is_nan b then a else if fl.lt a b then b else a

  abbrev pub clamp_unit : R → R
  clamp_unit x = clamp x zero_f one_f
