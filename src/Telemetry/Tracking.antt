-- ===== src/Telemetry/Tracking.antt =====
-- crates/cerynth-telemetry/src/lib.rs, `collect`: the lifetimes of processes.
use cerynth_os.Base.{
  ℕ, zero, suc, ◌-◌, ◌≡◌, refl, ap, ◌∙◌, ◌==◌, Bool, true, false, not, ◌&&◌, Bool-cases, inl, inr,
  Option, none, some, List, [], ◌∷◌, arith, if◌then◌else◌,
}
use cerynth_os.Policy.Floats.{Float64, zero_f}
use cerynth_os.Telemetry.Lifetimes.{
  Times, get, contains, insert_if, or_insert, first_seen, still_running, exited, count_short_lived,
  track,
}

-- The time at which a process counts as first seen.
abbrev pub since : Option ℕ → ℕ → ℕ
since none now = now
since (some t) now = t

get-insert_if :
    (o : Option ℕ) (p q now : ℕ) (seen : Times)
    → get q seen ≡ o
    → get p (insert_if o q now seen)
      ≡ (if q == p then some (since (get q seen) now) else get p seen)
unfolding get
get-insert_if none p q now seen h = ground arith
get-insert_if (some t) p q now seen h = elim (Bool-cases (q == p)) [
  | inl e ↦ let same : q ≡ p = ground arith in ground (arith, ap (λ (x : ℕ). get x seen) same)
  | inr e ↦ ground arith
]

get-first_seen :
    (pids : List ℕ) (p now : ℕ) (seen : Times)
    → get p (first_seen pids now seen)
      ≡ (if contains p pids then some (since (get p seen) now) else get p seen)
unfolding first_seen contains or_insert
get-first_seen [] p now seen = refl
get-first_seen (q ∷ pids) p now seen =
    let step = get-insert_if (get q seen) p q now seen refl in
    let rest = get-first_seen pids p now (or_insert q now seen) in
    elim (Bool-cases (q == p)) [
      | inl e ↦
          let same : q ≡ p = ground arith in
          ground (arith, step, rest, ap (λ (x : ℕ). get x seen) same)
      | inr e ↦ ground (arith, step, rest)
    ]

get-still_running :
    (pids : List ℕ) (p : ℕ) (seen : Times)
    → get p (still_running pids seen) ≡ (if contains p pids then get p seen else none)
unfolding get still_running
get-still_running pids p [] = ground arith
get-still_running pids p ((q, t) ∷ seen) = elim (Bool-cases (q == p)) [
  | inl e ↦
      let same : q ≡ p = ground arith in
      ground (arith, get-still_running pids p seen, ap (λ (x : ℕ). contains x pids) same)
  | inr e ↦ ground (arith, get-still_running pids p seen)
]

exited-insert_if :
    (o : Option ℕ) (pids : List ℕ) (q now : ℕ) (seen : Times)
    → contains q pids ≡ true
    → exited pids (insert_if o q now seen) ≡ exited pids seen
unfolding exited
exited-insert_if none pids q now seen h = ground arith
exited-insert_if (some t) pids q now seen h = refl

exited-first_seen :
    (qs pids : List ℕ) (now : ℕ) (seen : Times)
    → ((q : ℕ) → contains q qs ≡ true → contains q pids ≡ true)
    → exited pids (first_seen qs now seen) ≡ exited pids seen
unfolding first_seen or_insert contains
exited-first_seen [] pids now seen h = refl
exited-first_seen (q ∷ qs) pids now seen h =
    exited-first_seen qs pids now (or_insert q now seen) (λ p e. h p (ground arith))
    ∙ exited-insert_if (get q seen) pids q now seen (h q (ground arith))

module _ {R : Type 0} (fl : Float64 R) (secs_f64 : ℕ → R) where
  -- It ran before the sample and runs no longer, for less than five seconds since it was first seen.
  abbrev pub ended_early : List ℕ → ℕ → ℕ × ℕ → Bool
  ended_early pids now (p, t) = not (contains p pids) && fl.lt (secs_f64 (now - t)) (fl.lit 50 1)

  -- How many there are, as the sum of ones.
  abbrev pub ones : ℕ → R → R
  ones zero n = n
  ones (suc k) n = ones k (fl.add n (fl.lit 10 1))

  abbrev pub number_early : List ℕ → ℕ → Times → ℕ
  number_early pids now [] = 0
  number_early pids now (x ∷ seen) =
      let rest = number_early pids now seen in if ended_early pids now x then suc rest else rest

  module _ (pids : List ℕ) (now p t : ℕ) (seen : Times)
      (ih : (n : R)
        → count_short_lived fl secs_f64 now (exited pids seen) n
          ≡ ones (number_early pids now seen) n) where
    counted-exited :
        (runs : Bool) (n : R)
        → contains p pids ≡ runs
        → count_short_lived fl secs_f64 now (exited pids ((p, t) ∷ seen)) n
          ≡ ones (number_early pids now ((p, t) ∷ seen)) n
    unfolding count_short_lived exited
    counted-exited true n h = ground (arith, ih n)
    counted-exited false n h = elim (Bool-cases (fl.lt (secs_f64 (now - t)) (fl.lit 50 1))) [
      | inl e ↦ ground (arith, ih (fl.add n (fl.lit 10 1)))
      | inr e ↦ ground (arith, ih n)
    ]

  count-exited :
      (pids : List ℕ) (now : ℕ) (seen : Times) (n : R)
      → count_short_lived fl secs_f64 now (exited pids seen) n ≡ ones (number_early pids now seen) n
  unfolding count_short_lived exited
  count-exited pids now [] n = refl
  count-exited pids now ((p, t) ∷ seen) n =
      counted-exited pids now p t seen (count-exited pids now seen) (contains p pids) n refl

  -- After a sample the processes that are known are those that run: one that was known keeps the
  -- time at which it was first seen, a new one has the time of the sample. The short-lived ones
  -- are as many as those, known before the sample, that run no longer and were first seen less
  -- than 5.0 seconds ago, as a sum of ones.
  pub track_lem :
      (pids : List ℕ) (now p : ℕ) (seen : Times)
      → let (short_lived, times) = track fl secs_f64 pids now seen in
        (get p times ≡ (if contains p pids then some (since (get p seen) now) else none))
        × (short_lived ≡ ones (number_early pids now seen) (fl.lit 0 1))
  unfolding track
  track_lem pids now p seen = (
    ground (
      arith,
      get-still_running pids p (first_seen pids now seen),
      get-first_seen pids p now seen,
    ),
    ap (λ (gone : Times). count_short_lived fl secs_f64 now gone (zero_f fl))
          (exited-first_seen pids pids now seen (λ q e. e))
        ∙ count-exited pids now seen (zero_f fl),
  )
