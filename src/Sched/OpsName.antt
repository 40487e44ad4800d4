-- ===== src/Sched/OpsName.antt =====
-- schedulers/cerynth-scx/src/bpf.rs, `set_scx_ops_name`: the name under which the kernel lists the
-- scheduler, a field of bytes. The version suffix is the build library's, an argument.
pub mod Text
use cerynth_os.Base.{
  ℕ, zero, suc, Bool, true, false, not, ◌||◌, ◌==◌, ltb, String, Option, none, some, List, [], ◌∷◌,
  Result, ok, err, take, length, if◌then◌else◌,
}

unfoldable pub is_ascii : List ℕ → Bool
is_ascii [] = true
is_ascii (x ∷ xs) = if ltb x 128 then is_ascii xs else false

-- `name_field.fill(0)`.
unfoldable pub fill_zero : List ℕ → List ℕ
fill_zero [] = []
fill_zero (c ∷ cells) = 0 ∷ fill_zero cells

-- The `for`: one cell for each byte.
unfoldable pub copy_bytes : List ℕ → List ℕ → List ℕ
copy_bytes [] cells = cells
copy_bytes (b ∷ bytes) [] = []
copy_bytes (b ∷ bytes) (c ∷ cells) = b ∷ copy_bytes bytes cells

-- The `while` from a cell on, with `found_null` and the rest of the suffix; the last cell, or the one at
-- which the suffix ends, becomes 0.
unfoldable pub append_suffix : Bool → List ℕ → List ℕ → List ℕ
append_suffix found_null [] suffix = []
append_suffix found_null (c ∷ []) suffix = 0 ∷ []
append_suffix found_null (c ∷ d ∷ cells) [] =
    let rest = append_suffix false (d ∷ cells) [] in
    if found_null || c == 0 then 0 ∷ d ∷ cells else c ∷ rest
append_suffix found_null (c ∷ d ∷ cells) (b ∷ suffix) =
    let skipped = append_suffix false (d ∷ cells) (b ∷ suffix) in
    let filled = append_suffix true (d ∷ cells) suffix in
    if found_null || c == 0 then b ∷ filled else c ∷ skipped

-- `none` is the panic on an empty field.
unfoldable pub set_scx_ops_name : List ℕ → List ℕ → List ℕ → Option (Result (List ℕ) String)
unfolding is_ascii fill_zero copy_bytes append_suffix
set_scx_ops_name name_field src version_suffix =
    if not (is_ascii src) then some (err "name must be an ASCII string") else named name_field
  where
    named : List ℕ → Option (Result (List ℕ) String)
    named [] = none
    named (c ∷ cells) = some (
        ok (
          append_suffix false (copy_bytes (take (length cells) src) (fill_zero (c ∷ cells)))
            version_suffix))
