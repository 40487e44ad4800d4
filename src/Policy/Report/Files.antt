-- ===== src/Policy/Report/Files.antt =====
-- crates/cerynth-policy/src/bin/cerynth-policy-report.rs: the files under a directory. The directories are
-- the parameter `Directories`, and stay as they are during the walk.
pub mod Found
pub mod Walk
use text.Mathlib.Text.{◌==◌ as str_eq}
use cerynth_os.Base.{
  ℕ, zero, suc, Bool, true, false, not, ◌&&◌, String, Option, none, some, List, [], ◌∷◌, ◌++◌,
  Result, ok, err, format,
}

-- `std::fs::read_dir` with the paths of its entries, `read_to_string`, and the questions that are asked
-- of a path.
pub record Directories : Type 0 where
  pub read_dir : String → Result (List (Result String String)) String
  pub is_dir : String → Bool
  pub is_symlink : String → Bool
  pub extension : String → Option String
  pub read_to_string : String → Result String String

abbrev pub has_jsonl : Option String → Bool
has_jsonl none = false
has_jsonl (some ext) = str_eq ext "jsonl"

module _ (dirs : Directories) where
  open dirs use {read_dir, is_dir, is_symlink, extension}

  abbrev pub is_real_dir : String → Bool
  is_real_dir path = is_dir path && not (is_symlink path)

  abbrev pub is_jsonl : String → Bool
  is_jsonl path = has_jsonl (extension path)

  -- The files so far, or an error. `none` is a walk that was cut off.
  abbrev pub Walked : Type 0
  Walked = Option (Result (List String) String)

  abbrev pub then_walk : Walked → (List String → Walked) → Walked
  then_walk none next = none
  then_walk (some (err e)) next = some (err e)
  then_walk (some (ok files)) next = next files

  -- The loop over the entries, with the call for a directory below.
  unfoldable pub collect_entries :
      (String → List String → Walked) → List (Result String String) → List String → Walked
  collect_entries below [] files = some (ok files)
  collect_entries below (err e ∷ entries) files = some (err e)
  collect_entries below (ok path ∷ entries) files = elim (is_real_dir path) [
    | true ↦ then_walk (below path files) (λ more. collect_entries below entries more)
    | false ↦ elim (is_jsonl path) [
      | true ↦ collect_entries below entries (files ++ path ∷ [])
      | false ↦ collect_entries below entries files
    ]
  ]

  abbrev pub read_error : String → String
  read_error dir = format ("reading " ∷ dir ∷ [])

  -- The recursion into directories is cut off below a number of levels.
  unfoldable pub collect_files : ℕ → String → List String → Walked
  unfolding collect_entries
  collect_files zero dir files = none
  collect_files (suc levels) dir files = elim (read_dir dir) [
    | err e ↦ some (err (read_error dir))
    | ok entries ↦ collect_entries (collect_files levels) entries files
  ]
