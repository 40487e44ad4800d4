-- ===== src/Sched/Khugepaged.antt =====
-- schedulers/cerynth-scx/src/bpf.rs: the process id that the set-up hands to the BPF side. The processes
-- and what is read of them are the parameter `Processes`.
use text.Mathlib.Text.{◌==◌ as str_eq}
use text.Mathlib.TextEquality.{eq_iff}
use mathlib.Core.Path.{subst}
use cerynth_os.Base.{
  ℕ, ◌≡◌, refl, ap, ◌⊎◌, inl, inr, Bool, true, false, ◌&&◌, String, List, [], ◌∷◌, Result, ok, err,
  if◌then◌else◌, arith,
}
use cerynth_os.Base.Sorting.{In}

-- Of the status line only the name of the command is used.
pub record Processes (P : Type 0) : Type 0 where
  pub all_processes : Result (List (Result P String)) String
  pub comm : P → Result String String
  pub exe : P → Result String String
  pub pid : P → ℕ

module _ {P : Type 0} (procs : Processes P) where
  open procs use {all_processes, comm, exe, pid}

  abbrev named : Result String String → Bool
  named (ok name) = str_eq name "khugepaged"
  named (err e) = false

  abbrev unreadable : Result String String → Bool
  unreadable (ok path) = false
  unreadable (err e) = true

  -- A kernel thread has no executable.
  unfoldable is_khugepaged : P → Bool
  is_khugepaged p = unreadable (exe p) && named (comm p)

  unfoldable first_khugepaged : List (Result P String) → ℕ
  unfolding is_khugepaged
  first_khugepaged [] = 0
  first_khugepaged (err e ∷ rest) = first_khugepaged rest
  first_khugepaged (ok p ∷ rest) =
      let others = first_khugepaged rest in if is_khugepaged p then pid p else others

  abbrev among : Result (List (Result P String)) String → ℕ
  among (ok entries) = first_khugepaged entries
  among (err e) = 0

  unfoldable pub khugepaged_pid : ℕ
  unfolding first_khugepaged
  khugepaged_pid = among all_processes

  -- A kernel thread of this name has no executable.
  abbrev pub IsKhugepaged : P → Type 0
  IsKhugepaged p = (comm p ≡ ok "khugepaged") × ((e : String) × (exe p ≡ err e))

  -- The process with this id, or none with the number 0.
  abbrev pub Found : List (Result P String) → ℕ → Type 0
  Found entries n =
      ((p : P) × In (ok p) entries × IsKhugepaged p × (n ≡ pid p))
      ⊎ (((p : P) → In (ok p) entries → IsKhugepaged p → ⊥) × (n ≡ 0))

  named_iff : (r : Result String String) → named r ≡ true → r ≡ ok "khugepaged"
  named_iff (ok name) h = ap ok ((eq_iff name "khugepaged").0 h)
  named_iff (err e) h = absurd (cc)

  unreadable_err : (r : Result String String) → unreadable r ≡ true → (e : String) × (r ≡ err e)
  unreadable_err (ok path) h = absurd (cc)
  unreadable_err (err e) h = (e, refl)

  test-IsKhugepaged : (p : P) → is_khugepaged p ≡ true → IsKhugepaged p
  unfolding is_khugepaged
  test-IsKhugepaged p h = (named_iff (comm p) (ground arith), unreadable_err (exe p) (ground arith))

  IsKhugepaged-test : (p : P) → IsKhugepaged p → is_khugepaged p ≡ true
  unfolding is_khugepaged
  IsKhugepaged-test p (h, (e, k)) = rw (h, k) refl

  skip-Found :
      (x : Result P String) (rest : List (Result P String)) (n : ℕ)
      → ((p : P) → ok p ≡ x → IsKhugepaged p → ⊥)
      → Found rest n
      → Found (x ∷ rest) n
  skip-Found x rest n other (inl (p, m, k, h)) = inl (p, inr m, k, h)
  skip-Found x rest n other (inr (f, h)) =
      inr (λ p m. elim m [ inl e ↦ other p e | inr k ↦ f p k ], h)

  ok_injective : (p q : P) → ◌≡◌ {A = Result P String} (ok p) (ok q) → p ≡ q
  ok_injective p q h = cc

  test-Found :
      (b : Bool) (p : P) (rest : List (Result P String)) (n : ℕ)
      → is_khugepaged p ≡ b
      → Found rest n
      → Found (ok p ∷ rest) (if b then pid p else n)
  test-Found true p rest n h found = inl (p, inl refl, test-IsKhugepaged p h, refl)
  test-Found false p rest n h found =
      skip-Found (ok p) rest n
        (λ q e k.
          let t = IsKhugepaged-test p (subst IsKhugepaged (ok_injective q p e) k) in absurd (cc))
        found

  first-Found : (entries : List (Result P String)) → Found entries (first_khugepaged entries)
  unfolding first_khugepaged
  first-Found [] = inr (λ p m k. m, refl)
  first-Found (err e ∷ rest) =
      skip-Found (err e) rest (first_khugepaged rest) (λ p h k. absurd (cc)) (first-Found rest)
  first-Found (ok p ∷ rest) =
      test-Found (is_khugepaged p) p rest (first_khugepaged rest) refl (first-Found rest)

  -- When the processes can be listed, the id is that of a listed process with the name khugepaged
  -- whose executable cannot be read; it is 0 when no such process is listed.
  pub khugepaged_pid-Found :
      (entries : List (Result P String)) → all_processes ≡ ok entries → Found entries khugepaged_pid
  unfolding khugepaged_pid
  khugepaged_pid-Found entries h = rw h (first-Found entries)
