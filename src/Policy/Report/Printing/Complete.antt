-- ===== src/Policy/Report/Printing/Complete.antt =====
-- crates/cerynth-policy/src/bin/cerynth-policy-report.rs: a report on a directory leaves no file out.
use cerynth_os.Base.{
  ℕ, ◌≡◌, refl, ap, ◌↔◌, ◌⊎◌, inl, inr, Bool, String, none, some, List, [], ◌∷◌, ◌++◌, Result, ok,
  err,
}
use cerynth_os.Base.Sorting.{In, IsOrder, IsSorted, sort, In-sort, sort-In, sort-IsSorted}
use cerynth_os.Policy.Report.{PolicyRecord, Report}
use cerynth_os.Policy.Report.Files.{Directories, collect_files}
use cerynth_os.Policy.Report.Files.Found.{Inside, IsFinite}
use cerynth_os.Policy.Report.Files.Walk.{Adds, collect_files-Finds}
use cerynth_os.Policy.Report.Printing.{
  Args, Printed, print_report, analyze_file, printed, print_files, with_header, report_on, files_of,
  reported, report_main,
}

module _ {R : Type 0} (from_str : String → Result (PolicyRecord R) String) (dirs : Directories)
    (path_le : String → String → Bool) where
  -- Every file is read, and its report printed, in this order.
  pub data Reports : List String → List String → Type 0 where
    no_files : Reports [] []
    one_file :
        {path : String} {paths ls : List String} {r : Report}
        → analyze_file from_str dirs path_le path ≡ ok r
        → Reports paths ls
        → Reports (path ∷ paths) (print_report path r ++ ls)

  -- All the reports, or those of the files before the first that cannot be read or parsed.
  abbrev pub ArePrinted : List String → Printed → Type 0
  ArePrinted files (ls, ok _) = Reports files ls
  ArePrinted files (ls, err e) =
      (before : List String) × (path : String) × (after : List String) × (files
        ≡ before ++ path ∷ after)
      × Reports before ls
      × (analyze_file from_str dirs path_le path ≡ err e)

  printed-ArePrinted :
      (path : String) (paths : List String) (r : Result Report String) (rest : Printed)
      → analyze_file from_str dirs path_le path ≡ r
      → ArePrinted paths rest
      → ArePrinted (path ∷ paths) (printed from_str dirs path_le path r rest)
  printed-ArePrinted path paths (err e) rest h ih = ([], path, paths, refl, no_files, h)
  printed-ArePrinted path paths (ok r) (ls, ok _) h ih = one_file h ih
  printed-ArePrinted path paths (ok r) (ls, err e) h ih =
      let (before, failing, after, splits, reports, fails) = ih in
      (path ∷ before, failing, after, ap (◌∷◌ path) splits, one_file h reports, fails)

  print_files-ArePrinted :
      (paths : List String) → ArePrinted paths (print_files from_str dirs path_le paths)
  unfolding print_files
  print_files-ArePrinted [] = no_files
  print_files-ArePrinted (path ∷ paths) =
      printed-ArePrinted path paths (analyze_file from_str dirs path_le path)
        (print_files from_str dirs path_le paths) refl (print_files-ArePrinted paths)

  -- The files of a directory, each as often as the walk has found it, in the order of paths.
  pub record Lists (dir : String) (files : List String) : Type 0 where
    pub sorted : IsSorted path_le files
    pub found : (p : String) → In p files ↔ Inside dirs dir p

  -- What is printed of a directory: nothing and an error, or the header and its reports.
  abbrev pub IsComplete : String → Printed → Type 0
  IsComplete dir ([], ended) = (e : String) × (ended ≡ err e)
  IsComplete dir (header ∷ ls, ended) =
      (files : List String) × Lists dir files
      × (header ≡ "CerynthOS Adaptive Policy Replay Report")
      × ArePrinted files (ls, ended)

  headed-IsComplete :
      (dir : String) (files : List String) (out : Printed)
      → Lists dir files
      → ArePrinted files out
      → IsComplete dir (with_header from_str dirs path_le out)
  headed-IsComplete dir files (ls, ended) h k = (files, h, refl, k)

  report_on-IsComplete :
      (dir : String) (files : List String)
      → Lists dir files
      → IsComplete dir (report_on from_str dirs path_le files)
  report_on-IsComplete dir [] h = ("No policy JSONL files found", refl)
  report_on-IsComplete dir (path ∷ paths) h =
      headed-IsComplete dir (path ∷ paths) (print_files from_str dirs path_le (path ∷ paths)) h
        (print_files-ArePrinted (path ∷ paths))

  module _ (order : IsOrder path_le) (dir : String) where
    listed :
        (files : List String)
        → ((p : String) → In p files ↔ (In p [] ⊎ Inside dirs dir p))
        → Lists dir (sort path_le files)
    listed files h = record {
      sorted = sort-IsSorted path_le order files;
      found = λ p. (
        λ m. elim ((h p).0 (sort-In path_le p files m)) [ inl k ↦ absurd k | inr k ↦ k ],
        λ i. In-sort path_le p files ((h p).1 (inr i)),
      );
    }

    abbrev on_directory : Args
    on_directory = record { input = none; directory = some dir }

    abbrev Completes : ℕ → Type 0
    Completes levels =
        (out : Printed) × (report_main from_str dirs path_le levels on_directory ≡ some out)
        × IsComplete dir out

    walked-Completes :
        (levels : ℕ) (r : Result (List String) String)
        → collect_files dirs levels dir [] ≡ some r
        → Adds dirs (Inside dirs dir) [] r
        → Completes levels
    unfolding report_main files_of
    walked-Completes levels (err e) h adds =
        (([], err e), ap (reported from_str dirs path_le) h, (e, refl))
    walked-Completes levels (ok files) h adds = (
      report_on from_str dirs path_le (sort path_le files),
      ap (reported from_str dirs path_le) h,
      report_on-IsComplete dir (sort path_le files) (listed files adds),
    )

    -- If paths have a total order, and some number of levels ends every chain of directories that
    -- are not links: the report on a directory comes to an end. It prints nothing and fails, or
    -- prints the header and, in the order of paths, the reports of exactly the `.jsonl` files
    -- inside: of all of them, or of those before the first that cannot be read or parsed.
    pub report_main-IsComplete :
        (levels : ℕ)
        → IsFinite dirs levels dir
        → (out : Printed) × (report_main from_str dirs path_le levels
              (record { input = none; directory = some dir })
            ≡ some out)
          × IsComplete dir out
    report_main-IsComplete levels bounded =
        let (r, h, adds) = collect_files-Finds dirs levels dir [] bounded in
        walked-Completes levels r h adds
