-- ===== src/Policy/Report/Files/Walk.antt =====
-- crates/cerynth-policy/src/bin/cerynth-policy-report.rs: the walk over a directory comes to an end, and
-- with which files.
use cerynth_os.Base.{
  ℕ, zero, suc, ◌≡◌, refl, ◌∙◌, ◌↔◌, ◌⊎◌, inl, inr, Bool, true, false, String, some, List, [], ◌∷◌,
  ◌++◌, Result, ok, err, arith, Bool-cases,
}
use cerynth_os.Base.Sorting.{In, In-append_left, In-append_right, In-append_cases}
use cerynth_os.Policy.Report.Files.{
  Directories, is_real_dir, is_jsonl, Walked, then_walk, collect_entries, collect_files, read_error,
}
use cerynth_os.Policy.Report.Files.Found.{
  Inside, IsFinite, finite, Given, Given-Inside, Inside-Given,
}

or_congr : {P Q S : Type 0} → P ↔ Q → (P ⊎ S) ↔ (Q ⊎ S)
or_congr h = (
  λ m. elim m [ inl p ↦ inl (h.0 p) | inr s ↦ inr s ],
  λ m. elim m [ inl q ↦ inl (h.1 q) | inr s ↦ inr s ],
)

true_not_false : {b : Bool} → b ≡ true → b ≡ false → ⊥
true_not_false h k = cc

module _ (dirs : Directories) where
  open dirs use {read_dir}

  -- The files that were there before, and those that are new.
  abbrev pub Adds : (String → Type 0) → List String → Result (List String) String → Type 0
  Adds new files (err e) = Unit
  Adds new files (ok more) = (p : String) → In p more ↔ (In p files ⊎ new p)

  -- The walk comes to an end, and adds the files of the directory.
  abbrev Finds : (String → Type 0) → List String → Walked dirs → Type 0
  Finds new files out = (r : Result (List String) String) × (out ≡ some r) × Adds new files r

  Adds-trans :
      (new new₁ new₂ : String → Type 0) (files more : List String) (r : Result (List String) String)
      → Adds new₁ files (ok more)
      → Adds new₂ more r
      → ((p : String) → (new₁ p ⊎ new₂ p) ↔ new p)
      → Adds new files r
  Adds-trans new new₁ new₂ files more (err e) h k both = tt
  Adds-trans new new₁ new₂ files more (ok last) h k both = λ p. (
    λ m. elim ((k p).0 m) [
      | inl n ↦ elim ((h p).0 n) [ inl o ↦ inl o | inr o ↦ inr ((both p).0 (inl o)) ]
      | inr n ↦ inr ((both p).0 (inr n))
    ],
    λ m. elim m [
      | inl n ↦ (k p).1 (inl ((h p).1 (inl n)))
      | inr n ↦ elim ((both p).1 n) [
        | inl o ↦ (k p).1 (inl ((h p).1 (inr o)))
        | inr o ↦ (k p).1 (inr o)
      ]
    ],
  )

  then-Finds :
      (new new₁ new₂ : String → Type 0) (files : List String) (out : Walked dirs)
      (next : List String → Walked dirs)
      → ((p : String) → (new₁ p ⊎ new₂ p) ↔ new p)
      → Finds new₁ files out
      → ((more : List String) → Finds new₂ more (next more))
      → Finds new files (then_walk dirs out next)
  then-Finds new new₁ new₂ files out next both (err e, h, adds) k = (err e, rw h refl, tt)
  then-Finds new new₁ new₂ files out next both (ok more, h, adds) k =
      let (r, e, adds₂) = k more in
      (r, rw h e, Adds-trans new new₁ new₂ files more r adds adds₂ both)

  one_more :
      (files : List String) (path : String)
      → Finds (λ p. p ≡ path) files (some (ok (files ++ path ∷ [])))
  one_more files path = (
    ok (files ++ path ∷ []),
    refl,
    λ p. (
      λ m. elim (In-append_cases p files (path ∷ []) m) [
        | inl h ↦ inl h
        | inr h ↦ elim h [ inl e ↦ inr e | inr n ↦ absurd n ]
      ],
      λ m. elim m [
        | inl h ↦ In-append_left p files (path ∷ []) h
        | inr e ↦ In-append_right p files (path ∷ []) (inl e)
      ],
    ),
  )

  no_more : (files : List String) → Finds (λ p. ⊥) files (some (ok files))
  no_more files = (ok files, refl, λ p. (inl, λ m. elim m [ inl h ↦ h | inr h ↦ absurd h ]))

  same_new :
      {new new₂ : String → Type 0}
      → ((p : String) → new p ↔ new₂ p)
      → (files : List String) (r : Result (List String) String) → Adds new files r
      → Adds new₂ files r
  same_new h files (err e) adds = tt
  same_new h files (ok more) adds = λ p. (
    λ m. elim ((adds p).0 m) [ inl k ↦ inl k | inr k ↦ inr ((h p).0 k) ],
    λ m. (adds p).1 (elim m [ inl k ↦ inl k | inr k ↦ inr ((h p).1 k) ]),
  )

  module _ (rec : String → List String → Walked dirs) (path : String)
      (entries : List (Result String String)) (files : List String) where
    abbrev rest : List String → Walked dirs
    rest = collect_entries dirs rec entries

    collect_entries_dir :
        is_real_dir dirs path ≡ true
        → collect_entries dirs rec (ok path ∷ entries) files ≡ then_walk dirs (rec path files) rest
    unfolding collect_entries
    collect_entries_dir h = ground arith

    collect_entries_file :
        is_real_dir dirs path ≡ false
        → is_jsonl dirs path ≡ true
        → collect_entries dirs rec (ok path ∷ entries) files
          ≡ then_walk dirs (some (ok (files ++ path ∷ []))) rest
    unfolding collect_entries
    collect_entries_file h k = ground arith

    collect_entries_other :
        is_real_dir dirs path ≡ false
        → is_jsonl dirs path ≡ false
        → collect_entries dirs rec (ok path ∷ entries) files ≡ then_walk dirs (some (ok files)) rest
    unfolding collect_entries
    collect_entries_other h k = ground arith

    gives_dir :
        is_real_dir dirs path ≡ true
        → (p : String)
        → (Inside dirs path p ⊎ Given dirs entries p) ↔ Given dirs (ok path ∷ entries) p
    gives_dir d p =
        or_congr
          (λ i. inl (d, i), λ g. elim g [ inl k ↦ k.1 | inr k ↦ absurd (true_not_false d k.0) ])

    gives_file :
        is_real_dir dirs path ≡ false
        → is_jsonl dirs path ≡ true
        → (p : String) → ((p ≡ path) ⊎ Given dirs entries p) ↔ Given dirs (ok path ∷ entries) p
    gives_file d j p =
        or_congr
          (λ e. inr (d, j, e), λ g. elim g [ inl k ↦ absurd (true_not_false k.0 d) | inr k ↦ k.2 ])

    gives_other :
        is_real_dir dirs path ≡ false
        → is_jsonl dirs path ≡ false
        → (p : String) → (⊥ ⊎ Given dirs entries p) ↔ Given dirs (ok path ∷ entries) p
    gives_other d j p = or_congr (
      λ n. absurd n,
      λ g. elim g [ inl k ↦ absurd (true_not_false k.0 d) | inr k ↦ absurd (true_not_false k.1 j) ],
    )

  entries-Finds :
      (rec : String → List String → Walked dirs) (entries : List (Result String String))
      (files : List String)
      → ((sub : String)
          → In (ok sub) entries
          → is_real_dir dirs sub ≡ true
          → (held : List String) → Finds (Inside dirs sub) held (rec sub held))
      → Finds (Given dirs entries) files (collect_entries dirs rec entries files)
  unfolding collect_entries
  entries-Finds rec [] files ih =
      (ok files, refl, λ p. (inl, λ m. elim m [ inl h ↦ h | inr h ↦ absurd h ]))
  entries-Finds rec (err e ∷ entries) files ih = (err e, refl, tt)
  entries-Finds rec (ok path ∷ entries) files ih =
      let others =
        λ (held : List String). entries-Finds rec entries held (λ sub m. ih sub (inr m)) in
      let new = Given dirs (ok path ∷ entries) in
      elim (Bool-cases (is_real_dir dirs path)) [
        | inl d ↦ rw (collect_entries_dir rec path entries files d) (
            then-Finds new (Inside dirs path) (Given dirs entries) files (rec path files)
              (rest rec path entries files) (gives_dir rec path entries files d)
              (ih path (inl refl) d files) others)
        | inr d ↦ elim (Bool-cases (is_jsonl dirs path)) [
          | inl j ↦ rw (collect_entries_file rec path entries files d j) (
              then-Finds new (λ p. p ≡ path) (Given dirs entries) files
                (some (ok (files ++ path ∷ []))) (rest rec path entries files)
                (gives_file rec path entries files d j) (one_more files path) others)
          | inr j ↦ rw (collect_entries_other rec path entries files d j) (
              then-Finds new (λ p. ⊥) (Given dirs entries) files (some (ok files))
                (rest rec path entries files) (gives_other rec path entries files d j)
                (no_more files) others)
        ]
      ]

  Given-iff :
      (dir : String) (entries : List (Result String String))
      → read_dir dir ≡ ok entries
      → (p : String) → Given dirs entries p ↔ Inside dirs dir p
  Given-iff dir entries h p =
      (Given-Inside dirs dir p entries entries h (λ e m. m), Inside-Given dirs dir p entries h)

  collect_files_err :
      (levels : ℕ) (dir e : String) (files : List String)
      → read_dir dir ≡ err e
      → collect_files dirs (suc levels) dir files ≡ some (err (read_error dirs dir))
  unfolding collect_files
  collect_files_err levels dir e files h = ground arith

  collect_files_ok :
      (levels : ℕ) (dir : String) (entries : List (Result String String)) (files : List String)
      → read_dir dir ≡ ok entries
      → collect_files dirs (suc levels) dir files
        ≡ collect_entries dirs (collect_files dirs levels) entries files
  unfolding collect_files
  collect_files_ok levels dir entries files h = ground arith

  collect-Finds :
      (levels : ℕ) (dir : String) (files : List String)
      (r : Result (List (Result String String)) String)
      → ((sub : String)
          → (entries : List (Result String String)) → read_dir dir ≡ ok entries
          → In (ok sub) entries
          → is_real_dir dirs sub ≡ true
          → (held : List String)
          → Finds (Inside dirs sub) held (collect_files dirs levels sub held))
      → read_dir dir ≡ r
      → Finds (Inside dirs dir) files (collect_files dirs (suc levels) dir files)
  collect-Finds levels dir files (err e) ih h =
      (err (read_error dirs dir), collect_files_err levels dir e files h, tt)
  collect-Finds levels dir files (ok entries) ih h =
      let (r, e, adds) =
        entries-Finds (collect_files dirs levels) entries files
          (λ sub m d held. ih sub entries h m d held) in
      (
        r,
        collect_files_ok levels dir entries files h ∙ e,
        same_new (Given-iff dir entries h) files r adds,
      )

  -- In directories of finite depth the walk comes to an end; if it meets no error, then a path is
  -- among its files exactly when it was there before or is that of a `.jsonl` file inside.
  pub collect_files-Finds :
      (levels : ℕ) (dir : String) (files : List String)
      → IsFinite dirs levels dir
      → Finds (Inside dirs dir) files (collect_files dirs levels dir files)
  collect_files-Finds zero dir files f = elim f [ ]
  collect_files-Finds (suc levels) dir files (finite subs) =
      collect-Finds levels dir files (read_dir dir)
        (λ sub entries h m d held. collect_files-Finds levels sub held (subs entries sub h m d))
        refl
