-- ===== src/Examples/Reports.antt =====
-- A report on a directory with files, a directory below it, and a link back to itself.
use mathlib.Core.Path.{subst}
use text.Mathlib.Text.{◌==◌ as str_eq}
use text.Mathlib.TextEquality.{eq_iff}
use cerynth_os.Base.{
  ◌≡◌, sym, ◌∙◌, inl, inr, ◌||◌, true, String, none, some, List, [], ◌∷◌, Result, ok, arith,
  if◌then◌else◌,
}
use cerynth_os.Base.Sorting.{In}
use cerynth_os.Policy.Report.Files.{Directories, is_real_dir}
use cerynth_os.Policy.Report.Files.Found.{IsFinite, finite}
use cerynth_os.Policy.Report.Printing.{Printed, text_le, report_main}
use cerynth_os.Policy.Report.Printing.Order.{text_le-IsOrder}
use cerynth_os.Policy.Report.Printing.Complete.{IsComplete, report_main-IsComplete}
use cerynth_os.Examples.Tools.{parsed}

abbrev entries_of : String → List (Result String String)
entries_of dir =
    if str_eq dir "/runs"
    then ok "/runs/old" ∷ ok "/runs/loop" ∷ ok "/runs/b.jsonl" ∷ ok "/runs/a.jsonl" ∷ []
    else ok "/runs/old/c.jsonl" ∷ []

abbrev runs : Directories
runs = record {
  read_dir = λ dir. ok (entries_of dir);
  is_dir = λ path. str_eq path "/runs/old" || str_eq path "/runs/loop";
  is_symlink = λ path. str_eq path "/runs/loop";
  extension = λ path. some "jsonl";
  read_to_string = λ path. ok "a\n";
}

real-eq : (path : String) → is_real_dir runs path ≡ true → path ≡ "/runs/old"
real-eq path h = ground (arith, eq_iff path "/runs/old")

entries-eq :
    (dir : String) (entries : List (Result String String))
    → runs.read_dir dir ≡ ok entries
    → entries_of dir ≡ entries
entries-eq dir entries h = cc

path-eq : (p q : String) → ◌≡◌ {A = Result String String} (ok p) (ok q) → p ≡ q
path-eq p q h = cc

old_ne_file : ◌≡◌ {A = String} "/runs/old" "/runs/old/c.jsonl" → ⊥
old_ne_file h = ground (arith, eq_iff "/runs/old" "/runs/old/c.jsonl")

old_ends : (sub : String) → In (ok sub) (entries_of "/runs/old") → is_real_dir runs sub ≡ true → ⊥
old_ends sub (inl e) d = old_ne_file (sym (real-eq sub d) ∙ path-eq sub "/runs/old/c.jsonl" e)
old_ends sub (inr e) d = e

old-IsFinite : IsFinite runs 1 "/runs/old"
old-IsFinite = finite λ entries sub h m d.
    absurd
      (old_ends sub (subst (λ es. In (ok sub) es) (sym (entries-eq "/runs/old" entries h)) m) d)

runs-IsFinite : IsFinite runs 2 "/runs"
runs-IsFinite =
    finite λ entries sub h m d. subst (IsFinite runs 1) (sym (real-eq sub d)) old-IsFinite

report_main-IsComplete_example :
    (out : Printed) × (report_main parsed runs text_le 2
        (record { input = none; directory = some "/runs" })
      ≡ some out)
    × IsComplete parsed runs text_le "/runs" out
report_main-IsComplete_example =
    report_main-IsComplete parsed runs text_le text_le-IsOrder "/runs" 2 runs-IsFinite
