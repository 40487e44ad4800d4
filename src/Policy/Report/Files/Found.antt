-- ===== src/Policy/Report/Files/Found.antt =====
-- crates/cerynth-policy/src/bin/cerynth-policy-report.rs: which files the walk over a directory finds.
use mathlib.Core.Path.{subst}
use text.Mathlib.TextEquality.{eq_iff}
use cerynth_os.Base.{
  ℕ, suc, ◌≡◌, refl, sym, ap, ◌∙◌, ◌⊎◌, inl, inr, true, false, String, Option, none, some, List, [],
  ◌∷◌, Result, ok, err,
}
use cerynth_os.Base.Sorting.{In}
use cerynth_os.Policy.Report.Files.{Directories, is_real_dir, has_jsonl, is_jsonl}

module _ (dirs : Directories) where
  open dirs use {read_dir, extension}

  jsonl-is_some : (e : Option String) → has_jsonl e ≡ true → e ≡ some "jsonl"
  jsonl-is_some none h = absurd (cc)
  jsonl-is_some (some ext) h = ap some ((eq_iff ext "jsonl").0 h)

  is_some-jsonl : (e : Option String) → e ≡ some "jsonl" → has_jsonl e ≡ true
  is_some-jsonl e h = rw h ((eq_iff "jsonl" "jsonl").1 refl)

  -- A `.jsonl` file in the directory or in one below it that is not reached through a link.
  pub data Inside : String → String → Type 0 where
    entry :
        {dir path : String} {entries : List (Result String String)}
        → read_dir dir ≡ ok entries
        → In (ok path) entries
        → is_real_dir dirs path ≡ false
        → extension path ≡ some "jsonl"
        → Inside dir path
    below :
        {dir sub path : String} {entries : List (Result String String)}
        → read_dir dir ≡ ok entries
        → In (ok sub) entries
        → is_real_dir dirs sub ≡ true
        → Inside sub path
        → Inside dir path

  -- Some levels end every chain of directories.
  pub data IsFinite : ℕ → String → Type 0 where
    finite :
        {levels : ℕ} {dir : String}
        → ((entries : List (Result String String)) (sub : String)
            → read_dir dir ≡ ok entries
            → In (ok sub) entries
            → is_real_dir dirs sub ≡ true
            → IsFinite levels sub)
        → IsFinite (suc levels) dir

  -- What one entry contributes, and what the entries do.
  abbrev pub Gives : Result String String → String → Type 0
  Gives (err e) path = ⊥
  Gives (ok sub) path =
      ((is_real_dir dirs sub ≡ true) × Inside sub path)
      ⊎ ((is_real_dir dirs sub ≡ false) × (is_jsonl dirs sub ≡ true) × (path ≡ sub))

  abbrev pub Given : List (Result String String) → String → Type 0
  Given [] path = ⊥
  Given (e ∷ entries) path = Gives e path ⊎ Given entries path

  pub Given-Inside :
      (dir path : String) (all entries : List (Result String String))
      → read_dir dir ≡ ok all
      → ((e : Result String String) → In e entries → In e all)
      → Given entries path
      → Inside dir path
  Given-Inside dir path all [] h sub k = absurd k
  Given-Inside dir path all (err e ∷ entries) h sub (inr k) =
      Given-Inside dir path all entries h (λ x m. sub x (inr m)) k
  Given-Inside dir path all (err e ∷ entries) h sub (inl k) = absurd k
  Given-Inside dir path all (ok q ∷ entries) h sub (inl (inl (d, i))) =
      below h (sub (ok q) (inl refl)) d i
  Given-Inside dir path all (ok q ∷ entries) h sub (inl (inr (d, j, e))) =
      subst (Inside dir) (sym e) (entry h (sub (ok q) (inl refl)) d (jsonl-is_some (extension q) j))
  Given-Inside dir path all (ok q ∷ entries) h sub (inr k) =
      Given-Inside dir path all entries h (λ x m. sub x (inr m)) k

  In-Given :
      (e : Result String String) (path : String) (entries : List (Result String String))
      → In e entries
      → Gives e path
      → Given entries path
  In-Given e path [] m g = absurd m
  In-Given e path (x ∷ entries) (inl m) g = inl (subst (λ y. Gives y path) m g)
  In-Given e path (x ∷ entries) (inr m) g = inr (In-Given e path entries m g)

  ok_injective :
      (xs ys : List (Result String String))
      → ◌≡◌ {A = Result (List (Result String String)) String} (ok xs) (ok ys)
      → xs ≡ ys
  ok_injective xs ys h = cc

  pub Inside-Given :
      (dir path : String) (entries : List (Result String String))
      → read_dir dir ≡ ok entries
      → Inside dir path
      → Given entries path
  Inside-Given dir path entries h (entry {entries = other} k m d j) =
      subst (λ es. Given es path) (ok_injective other entries (sym k ∙ h))
        (In-Given (ok path) path other m (inr (d, is_some-jsonl (extension path) j, refl)))
  Inside-Given dir path entries h (below {sub = sub} {entries = other} k m d i) =
      subst (λ es. Given es path) (ok_injective other entries (sym k ∙ h))
        (In-Given (ok sub) path other m (inl (d, i)))
