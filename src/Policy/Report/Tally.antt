-- ===== src/Policy/Report/Tally.antt =====
-- crates/cerynth-policy/src/bin/cerynth-policy-report.rs: the counts of a report against the records.
use text.Mathlib.Text.{◌==◌ as str_eq}
use text.Mathlib.TextEquality.{eq_iff}
use mathlib.Core.Path.{subst}
use cerynth_os.Base.{
  sym, ℕ, ◌+◌, ◌≤◌, ◌≡◌, refl, ◌∙◌, Bool, true, false, Bool-cases, Result-cases, inl, inr, String,
  Option, none, some, List, [], ◌∷◌, Result, ok, err, arith, length, if◌then◌else◌,
}
use cerynth_os.Base.Text.{trim, is_empty}
use cerynth_os.Base.Words.{lines}
use cerynth_os.Ipc.Profiles.{
  Profile, balanced, interactive, performance, background, profile_name, same_profile,
}
use cerynth_os.Policy.Report.{
  PolicyRecord, Counts, Report, default_report, increment, contains, transition, add_if, first_or,
  count_transition, count_record, analyze_lines, analyze,
}

-- The count of a name, and the sum of all counts.
abbrev pub count_of : String → Counts → ℕ
count_of key [] = 0
count_of key ((k, n) ∷ rest) = if str_eq k key then n else count_of key rest

abbrev pub sum_of : Counts → ℕ
sum_of [] = 0
sum_of ((k, n) ∷ rest) = n + sum_of rest

count_of-increment :
    (key name : String) (counts : Counts)
    → count_of name (increment key counts)
      ≡ (if str_eq key name then count_of name counts + 1 else count_of name counts)
unfolding increment
count_of-increment key name [] = ground arith
count_of-increment key name ((k, n) ∷ rest) =
    ground (arith, count_of-increment key name rest, eq_iff k key, eq_iff k name, eq_iff key name)

sum_of-increment :
    (key : String) (counts : Counts) → sum_of (increment key counts) ≡ sum_of counts + 1
unfolding increment
sum_of-increment key [] = refl
sum_of-increment key ((k, n) ∷ rest) = ground (arith, sum_of-increment key rest)

profile_name-eq : (p q : Profile) → str_eq (profile_name p) (profile_name q) ≡ same_profile p q
unfolding profile_name same_profile
profile_name-eq balanced balanced = refl
profile_name-eq balanced interactive = refl
profile_name-eq balanced performance = refl
profile_name-eq balanced background = refl
profile_name-eq interactive balanced = refl
profile_name-eq interactive interactive = refl
profile_name-eq interactive performance = refl
profile_name-eq interactive background = refl
profile_name-eq performance balanced = refl
profile_name-eq performance interactive = refl
profile_name-eq performance performance = refl
profile_name-eq performance background = refl
profile_name-eq background balanced = refl
profile_name-eq background interactive = refl
profile_name-eq background performance = refl
profile_name-eq background background = refl

err_not_ok : (e : String) (t : Report) → err e ≡ ok t → ⊥
err_not_ok e t h = cc

module _ {R : Type 0} (from_str : String → Result (PolicyRecord R) String) where
  -- How often a profile is recommended, how often two records in a row differ, and the last.
  abbrev pub times : Profile → List (PolicyRecord R) → ℕ
  times p [] = 0
  times p (x ∷ xs) = if same_profile x.recommended_profile p then times p xs + 1 else times p xs

  abbrev pub changes : Option Profile → List (PolicyRecord R) → ℕ
  changes previous [] = 0
  changes none (x ∷ xs) = changes (some x.recommended_profile) xs
  changes (some p) (x ∷ xs) =
      let rest = changes (some x.recommended_profile) xs in
      if same_profile p x.recommended_profile then rest else rest + 1

  abbrev pub head_or : Option Profile → List (PolicyRecord R) → Option Profile
  head_or o [] = o
  head_or none (x ∷ xs) = some x.recommended_profile
  head_or (some p) (x ∷ xs) = some p

  abbrev pub last_or : Option Profile → List (PolicyRecord R) → Option Profile
  last_or o [] = o
  last_or o (x ∷ xs) = last_or (some x.recommended_profile) xs

  -- The records of the lines that are not blank.
  pub data Records : List String → List (PolicyRecord R) → Type 0 where
    no_lines : Records [] []
    blank :
        {line : String} {rest : List String} {xs : List (PolicyRecord R)}
        → is_empty (trim line) ≡ true
        → Records rest xs
        → Records (line ∷ rest) xs
    full :
        {line : String} {rest : List String} {x : PolicyRecord R} {xs : List (PolicyRecord R)}
        → is_empty (trim line) ≡ false
        → from_str line ≡ ok x
        → Records rest xs
        → Records (line ∷ rest) (x ∷ xs)

  -- What the records add to a report.
  pub record IsTally (previous : Option Profile) (xs : List (PolicyRecord R)) (r t : Report)
      : Type 0 where
    pub samples : t.samples ≡ r.samples + length xs
    pub recommended :
        (p : Profile)
        → count_of (profile_name p) t.recommendation_counts
          ≡ count_of (profile_name p) r.recommendation_counts + times p xs
    pub changed : sum_of t.transitions ≡ sum_of r.transitions + changes previous xs
    pub dwelt : t.dwell_holds ≤ r.dwell_holds + length xs
    pub cooled : t.cooldown_holds ≤ r.cooldown_holds + length xs
    pub begins : t.first ≡ head_or r.first xs
    pub ends : t.last ≡ last_or r.last xs

  count_transition-sum :
      (previous : Option Profile) (x : PolicyRecord R) (xs : List (PolicyRecord R))
      (counts : Counts)
      → sum_of (count_transition previous x.recommended_profile counts)
          + changes (some x.recommended_profile) xs
        ≡ sum_of counts + changes previous (x ∷ xs)
  unfolding count_transition
  count_transition-sum none x xs counts = refl
  count_transition-sum (some p) x xs counts =
      ground (arith, sum_of-increment (transition p x.recommended_profile) counts)

  add_if_most : (b : Bool) (n : ℕ) → add_if b n ≤ n + 1
  add_if_most true n = omega arith
  add_if_most false n = omega arith

  head_or-first_or :
      (o : Option Profile) (x : PolicyRecord R) (xs : List (PolicyRecord R))
      → head_or (first_or o x.recommended_profile) xs ≡ head_or o (x ∷ xs)
  head_or-first_or none x [] = refl
  head_or-first_or none x (y ∷ xs) = refl
  head_or-first_or (some p) x [] = refl
  head_or-first_or (some p) x (y ∷ xs) = refl

  count_record-IsTally :
      (previous : Option Profile) (x : PolicyRecord R) (xs : List (PolicyRecord R)) (r t : Report)
      → IsTally (some x.recommended_profile) xs (count_record from_str previous x r) t
      → IsTally previous (x ∷ xs) r t
  unfolding count_record
  count_record-IsTally previous x xs r t i = record {
    samples = omega (arith, i.samples);
    recommended = λ p. ground (
      arith,
      i.recommended p,
      count_of-increment (profile_name x.recommended_profile) (profile_name p)
          r.recommendation_counts,
      profile_name-eq x.recommended_profile p,
    );
    changed = i.changed ∙ count_transition-sum previous x xs r.transitions;
    dwelt =
        omega (arith, i.dwelt, add_if_most (contains "consecutive samples" x.reason) r.dwell_holds);
    cooled = omega (arith, i.cooled, add_if_most (contains "cooldown" x.reason) r.cooldown_holds);
    begins = i.begins ∙ head_or-first_or r.first x xs;
    ends = i.ends;
  }

  -- The report of some lines comes from their records.
  abbrev pub Tallied : Option Profile → List String → Report → Report → Type 0
  Tallied previous ls r t = (xs : List (PolicyRecord R)) × Records ls xs × IsTally previous xs r t

  analyze_blank :
      (previous : Option Profile) (line : String) (rest : List String) (r : Report)
      → is_empty (trim line) ≡ true
      → analyze_lines from_str previous (line ∷ rest) r ≡ analyze_lines from_str previous rest r
  unfolding analyze_lines
  analyze_blank previous line rest r h = ground arith

  analyze_refused :
      (previous : Option Profile) (line e : String) (rest : List String) (r : Report)
      → is_empty (trim line) ≡ false
      → from_str line ≡ err e
      → analyze_lines from_str previous (line ∷ rest) r ≡ err e
  unfolding analyze_lines
  analyze_refused previous line e rest r h k = ground arith

  pub analyze_full :
      (previous : Option Profile) (line : String) (rest : List String) (r : Report)
      (x : PolicyRecord R)
      → is_empty (trim line) ≡ false
      → from_str line ≡ ok x
      → analyze_lines from_str previous (line ∷ rest) r
        ≡ analyze_lines from_str
            (some x.recommended_profile)
            rest
            (count_record from_str previous x r)
  unfolding analyze_lines
  analyze_full previous line rest r x h k = ground arith

  nothing-IsTally : (previous : Option Profile) (r t : Report) → r ≡ t → IsTally previous [] r t
  nothing-IsTally previous r t h = subst (IsTally previous [] r) h (record {
    samples = omega arith;
    recommended = λ p. omega arith;
    changed = omega arith;
    dwelt = omega arith;
    cooled = omega arith;
    begins = refl;
    ends = refl;
  })

  analyze_lines-Tallied :
      (previous : Option Profile) (ls : List String) (r t : Report)
      → analyze_lines from_str previous ls r ≡ ok t
      → Tallied previous ls r t
  unfolding analyze_lines
  analyze_lines-Tallied previous [] r t h = ([], no_lines, nothing-IsTally previous r t (cc))
  analyze_lines-Tallied previous (line ∷ rest) r t h = elim (Bool-cases (is_empty (trim line))) [
    | inl e ↦
        let (xs, records, tally) =
          analyze_lines-Tallied previous rest r t
            (sym (analyze_blank previous line rest r e) ∙ h) in
        (xs, blank e records, tally)
    | inr e ↦ elim (Result-cases (from_str line)) [
      | inl (x, k) ↦
          let (xs, records, tally) =
            analyze_lines-Tallied (some x.recommended_profile) rest
              (count_record from_str previous x r) t
              (sym (analyze_full previous line rest r x e k) ∙ h) in
          (x ∷ xs, full e k records, count_record-IsTally previous x xs r t tally)
      | inr (m, k) ↦ absurd (err_not_ok m t (sym (analyze_refused previous line m rest r e k) ∙ h))
    ]
  ]

  -- A report that is made counts the records of the lines that are not blank: their number, each
  -- profile as often as it is recommended, as many transitions as two records in a row differ,
  -- and the first and the last recommendation. There are not more dwell and cooldown holds than
  -- records.
  pub analyze-Tallied :
      (content : String) (t : Report)
      → analyze from_str content ≡ ok t
      → Tallied none (lines content) default_report t
  unfolding analyze
  analyze-Tallied content t h = analyze_lines-Tallied none (lines content) default_report t h
