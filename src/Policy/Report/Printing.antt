-- ===== src/Policy/Report/Printing.antt =====
-- crates/cerynth-policy/src/bin/cerynth-policy-report.rs: the lines that are printed, and `main`. `clap`
-- parses the arguments. The order of paths is the parameter `path_le`.
pub mod Order
pub mod Complete
use Prim.Native.Char.{code}
use cerynth_os.Base.{
  ℕ, zero, suc, Bool, true, false, String, Option, none, some, List, [], ◌∷◌, ◌++◌, Result, ok, err,
  format, ltb, ◌==◌, map, if◌then◌else◌,
}
use cerynth_os.Base.Text.{show_ℕ}
use cerynth_os.Base.Sorting.{sort}
use cerynth_os.Ipc.Profiles.{Profile, profile_name}
use cerynth_os.Policy.Report.{PolicyRecord, Counts, Report, analyze}
use cerynth_os.Policy.Report.Files.{Directories, Walked, collect_files, read_error}

-- The order of texts, in which a `BTreeMap` is printed: that of the code points.
unfoldable pub text_le : String → String → Bool
text_le String.[] t = true
text_le (String.◌∷◌ c s) String.[] = false
text_le (String.◌∷◌ c s) (String.◌∷◌ d t) =
    let rest = text_le s t in if code c == code d then rest else ltb (code c) (code d)

abbrev pub key_le : String × ℕ → String × ℕ → Bool
key_le (k, n) (j, m) = text_le k j

abbrev pub count_line : String × ℕ → String
count_line (name, n) = format ("  " ∷ name ∷ ": " ∷ show_ℕ n ∷ [])

abbrev pub rule : String
rule = "========================================"

abbrev pub profile_line : String → Option Profile → List String
profile_line label none = []
profile_line label (some p) = format (label ∷ profile_name p ∷ []) ∷ []

abbrev pub transition_lines : Counts → List String
transition_lines [] = "  none" ∷ []
transition_lines (x ∷ counts) = map count_line (sort key_le (x ∷ counts))

unfoldable pub print_report : String → Report → List String
unfolding text_le
print_report path r =
    ""
    ∷ rule
    ∷ format ("Workload: " ∷ path ∷ [])
    ∷ rule
    ∷ format ("Samples: " ∷ show_ℕ r.samples ∷ [])
    ∷ (profile_line "First recommendation: " r.first
        ++ (profile_line "Last recommendation:  " r.last
            ++ ("" ∷ "Recommendations:" ∷ map count_line (sort key_le r.recommendation_counts)
                ++ ("" ∷ "Recommendation transitions:" ∷ transition_lines r.transitions
                    ++ (""
                        ∷ "Stability:"
                        ∷ format ("  dwell holds:    " ∷ show_ℕ r.dwell_holds ∷ [])
                        ∷ format ("  cooldown holds: " ∷ show_ℕ r.cooldown_holds ∷ [])
                        ∷ [])))))

-- `clap` gives exactly one of the two.
pub record Args : Type 0 where
  pub input : Option String
  pub directory : Option String

-- The lines that were printed, and how the program has ended.
abbrev pub Printed : Type 0
Printed = List String × Result (Unit {0}) String

module _ {R : Type 0} (from_str : String → Result (PolicyRecord R) String) (dirs : Directories)
    (path_le : String → String → Bool) where
  -- Of an error with its context only the context is kept.
  abbrev pub parse_context : String → Result Report String → Result Report String
  parse_context path (err e) = err (format ("parsing policy decision in " ∷ path ∷ []))
  parse_context path (ok r) = ok r

  abbrev pub analyze_content : String → Result String String → Result Report String
  analyze_content path (err e) = err (read_error dirs path)
  analyze_content path (ok content) = parse_context path (analyze from_str content)

  unfoldable pub analyze_file : String → Result Report String
  analyze_file path = analyze_content path (dirs.read_to_string path)

  abbrev pub printed : String → Result Report String → Printed → Printed
  printed path (err e) rest = ([], err e)
  printed path (ok r) (ls, ended) = (print_report path r ++ ls, ended)

  -- The first file that cannot be read or parsed ends the program.
  unfoldable pub print_files : List String → Printed
  unfolding analyze_file print_report
  print_files [] = ([], ok tt)
  print_files (path ∷ paths) = printed path (analyze_file path) (print_files paths)

  abbrev pub with_header : Printed → Printed
  with_header (ls, ended) = ("CerynthOS Adaptive Policy Replay Report" ∷ ls, ended)

  abbrev pub report_on : List String → Printed
  report_on [] = ([], err "No policy JSONL files found")
  report_on (path ∷ paths) = with_header (print_files (path ∷ paths))

  unfoldable pub files_of : ℕ → Args → Walked dirs
  files_of levels args = elim args.input [
    | some path ↦ some (ok (path ∷ []))
    | none ↦ elim args.directory [
      | some dir ↦ collect_files dirs levels dir []
      | none ↦ some (ok [])
    ]
  ]

  abbrev pub reported : Walked dirs → Option Printed
  reported none = none
  reported (some (err e)) = some ([], err e)
  reported (some (ok files)) = some (report_on (sort path_le files))

  -- The walk into directories is cut off below a number of levels.
  unfoldable pub report_main : ℕ → Args → Option Printed
  unfolding files_of print_files
  report_main levels args = reported (files_of levels args)
