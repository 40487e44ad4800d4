-- ===== src/Sched/OpsName/Text.antt =====
-- schedulers/cerynth-scx/src/bpf.rs, `set_scx_ops_name`: the text in the field.
use cerynth_os.Base.{
  ℕ, zero, suc, ◌≡◌, refl, ap, ◌∙◌, ◌≢◌, true, false, some, List, [], ◌∷◌, ◌++◌, ok, take, length,
  All, arith,
}
use cerynth_os.Sched.OpsName.{is_ascii, fill_zero, copy_bytes, append_suffix, set_scx_ops_name}

-- A field of `suc n` bytes that holds a text, cut to `n` bytes, and zeros behind it.
abbrev pub c_string : ℕ → List ℕ → List ℕ
c_string zero text = 0 ∷ []
c_string (suc n) [] = 0 ∷ c_string n []
c_string (suc n) (x ∷ text) = x ∷ c_string n text

fill_zero-c_string : (c : ℕ) (cells : List ℕ) → fill_zero (c ∷ cells) ≡ c_string (length cells) []
unfolding fill_zero
fill_zero-c_string c [] = refl
fill_zero-c_string c (d ∷ cells) = ap (◌∷◌ 0) (fill_zero-c_string d cells)

copy_bytes-c_string :
    (n : ℕ) (src : List ℕ) → copy_bytes (take n src) (c_string n []) ≡ c_string n src
unfolding copy_bytes
copy_bytes-c_string zero src = refl
copy_bytes-c_string (suc n) [] = refl
copy_bytes-c_string (suc n) (x ∷ src) = ap (◌∷◌ x) (copy_bytes-c_string n src)

-- Behind the first zero the suffix follows.
append_suffix-blank :
    (n : ℕ) (suffix : List ℕ) → append_suffix true (c_string n []) suffix ≡ c_string n suffix
unfolding append_suffix
append_suffix-blank zero suffix = refl
append_suffix-blank (suc zero) [] = refl
append_suffix-blank (suc zero) (b ∷ suffix) = refl
append_suffix-blank (suc (suc n)) [] = refl
append_suffix-blank (suc (suc n)) (b ∷ suffix) = ap (◌∷◌ b) (append_suffix-blank (suc n) suffix)

append_suffix-zero :
    (n : ℕ) (suffix : List ℕ) → append_suffix false (c_string n []) suffix ≡ c_string n suffix
unfolding append_suffix
append_suffix-zero zero suffix = refl
append_suffix-zero (suc zero) [] = refl
append_suffix-zero (suc zero) (b ∷ suffix) = refl
append_suffix-zero (suc (suc n)) [] = refl
append_suffix-zero (suc (suc n)) (b ∷ suffix) = ap (◌∷◌ b) (append_suffix-blank (suc n) suffix)

-- A cell that is not zero stays.
append_suffix-skip :
    (x d : ℕ) (cells suffix : List ℕ)
    → x ≢ 0
    → append_suffix false (x ∷ d ∷ cells) suffix ≡ x ∷ append_suffix false (d ∷ cells) suffix
unfolding append_suffix
append_suffix-skip x d cells [] h = ground arith
append_suffix-skip x d cells (b ∷ suffix) h = ground arith

append_suffix-c_string :
    (n : ℕ) (src suffix : List ℕ)
    → All (λ x. x ≢ 0) src
    → append_suffix false (c_string n src) suffix ≡ c_string n (src ++ suffix)
unfolding append_suffix
append_suffix-c_string zero src suffix h = refl
append_suffix-c_string (suc n) [] suffix h = append_suffix-zero (suc n) suffix
append_suffix-c_string (suc zero) (x ∷ src) suffix h = append_suffix-skip x 0 [] suffix h.0
append_suffix-c_string (suc (suc n)) (x ∷ []) suffix h =
    append_suffix-skip x 0 (c_string n []) suffix h.0
    ∙ ap (◌∷◌ x) (append_suffix-zero (suc n) suffix)
append_suffix-c_string (suc (suc n)) (x ∷ y ∷ src) suffix h =
    append_suffix-skip x y (c_string n src) suffix h.0
    ∙ ap (◌∷◌ x) (append_suffix-c_string (suc n) (y ∷ src) suffix h.1)

-- On a field that is not empty and an ASCII name without zero bytes, the field becomes the name
-- and the version suffix behind it, cut to all but the last byte of the field, and zeros up to
-- its end.
pub set_scx_ops_name-c_string :
    (c : ℕ) (cells src version_suffix : List ℕ)
    → is_ascii src ≡ true
    → All (λ x. x ≢ 0) src
    → set_scx_ops_name (c ∷ cells) src version_suffix
      ≡ some (ok (c_string (length cells) (src ++ version_suffix)))
unfolding set_scx_ops_name
set_scx_ops_name-c_string c cells src version_suffix ascii h =
    let copied : copy_bytes (take (length cells) src) (fill_zero (c ∷ cells))
        ≡ c_string (length cells) src =
      ap (copy_bytes (take (length cells) src)) (fill_zero-c_string c cells)
      ∙ copy_bytes-c_string (length cells) src in
    let written =
      ap (λ f. append_suffix false f version_suffix) copied
      ∙ append_suffix-c_string (length cells) src version_suffix h in
    ground (arith, written)
