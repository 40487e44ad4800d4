-- ===== src/Policy/Report.antt =====
-- crates/cerynth-policy/src/bin/cerynth-policy-report.rs: what `analyze` counts. A `BTreeMap` is an
-- association list, which is put in order when it is printed.
pub mod Printing
pub mod Search
pub mod Files
pub mod Holds
pub mod Tally
use text.Mathlib.Text.{◌==◌ as str_eq}
use cerynth_os.Base.{
  ℕ, ◌+◌, Bool, true, false, String, Option, none, some, List, [], ◌∷◌, Result, ok, err, format,
  if◌then◌else◌,
}
use cerynth_os.Base.Text.{trim, is_empty}
use cerynth_os.Base.Words.{lines, strip_prefix}
use cerynth_os.Ipc.Profiles.{Profile, profile_name, same_profile}

pub record PolicyRecord (R : Type 0) : Type 0 where
  pub current_profile : Option Profile
  pub recommended_profile : Profile
  pub confidence : R
  pub reason : String

abbrev pub Counts : Type 0
Counts = List (String × ℕ)

pub record Report : Type 0 where
  pub samples : ℕ
  pub recommendation_counts : Counts
  pub transitions : Counts
  pub dwell_holds : ℕ
  pub cooldown_holds : ℕ
  pub first : Option Profile
  pub last : Option Profile

abbrev pub default_report : Report
default_report = record {
  samples = 0;
  recommendation_counts = [];
  transitions = [];
  dwell_holds = 0;
  cooldown_holds = 0;
  first = none;
  last = none;
}

-- `*map.entry(key).or_default() += 1`
unfoldable pub increment : String → Counts → Counts
increment key [] = (key, 1) ∷ []
increment key ((k, n) ∷ rest) =
    let others = increment key rest in if str_eq k key then (k, n + 1) ∷ rest else (k, n) ∷ others

-- `str::contains`
unfoldable pub contains : String → String → Bool
contains needle String.[] = is_empty needle
contains needle (String.◌∷◌ c s) =
    let rest = contains needle s in
    elim (strip_prefix needle (String.◌∷◌ c s)) [ some behind ↦ true | none ↦ rest ]

unfoldable pub transition : Profile → Profile → String
transition p q = format (profile_name p ∷ " -> " ∷ profile_name q ∷ [])

abbrev pub add_if : Bool → ℕ → ℕ
add_if true n = n + 1
add_if false n = n

abbrev pub first_or : Option Profile → Profile → Option Profile
first_or none p = some p
first_or (some q) p = some q

unfoldable pub count_transition : Option Profile → Profile → Counts → Counts
unfolding increment transition
count_transition none q counts = counts
count_transition (some p) q counts =
    if same_profile p q then counts else increment (transition p q) counts

module _ {R : Type 0} (from_str : String → Result (PolicyRecord R) String) where
  -- One record, with the profile of the one before it.
  unfoldable pub count_record : Option Profile → PolicyRecord R → Report → Report
  unfolding increment contains count_transition
  count_record previous x r = record {
    samples = r.samples + 1;
    recommendation_counts = increment (profile_name x.recommended_profile) r.recommendation_counts;
    transitions = count_transition previous x.recommended_profile r.transitions;
    dwell_holds = add_if (contains "consecutive samples" x.reason) r.dwell_holds;
    cooldown_holds = add_if (contains "cooldown" x.reason) r.cooldown_holds;
    first = first_or r.first x.recommended_profile;
    last = some x.recommended_profile;
  }

  unfoldable pub analyze_lines : Option Profile → List String → Report → Result Report String
  unfolding count_record
  analyze_lines previous [] r = ok r
  analyze_lines previous (line ∷ rest) r = elim (is_empty (trim line)) [
    | true ↦ analyze_lines previous rest r
    | false ↦ elim (from_str line) [
      | err e ↦ err e
      | ok x ↦ analyze_lines (some x.recommended_profile) rest (count_record previous x r)
    ]
  ]

  -- The text of the file is the argument.
  unfoldable pub analyze : String → Result Report String
  unfolding analyze_lines
  analyze content = analyze_lines none (lines content) default_report
