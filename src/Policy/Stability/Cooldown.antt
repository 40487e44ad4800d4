-- ===== src/Policy/Stability/Cooldown.antt =====
-- crates/cerynth-policy/src/lib.rs, cooldown: the samples after a change.
use cerynth_os.Base.{ℕ, suc, ◌≤◌, ◌≡◌, ◌≢◌, some, List, [], ◌∷◌, length, arith}
use cerynth_os.Ipc.Profiles.{Profile}
use cerynth_os.Policy.Floats.{Float64}
use cerynth_os.Policy.Rules.{PolicyInput, PolicyDecision, RulesBasedPolicy, candidate}
use cerynth_os.Policy.Stability.{stabilize_from, evaluate, run}

module _ {R : Type 0} (fl : Float64 R) where
  -- One step from a policy that has accepted `a`.
  stabilize_cooling :
      (s : RulesBasedPolicy R) (a : Profile) (c : PolicyDecision R) (n : ℕ)
      → s.accepted_profile ≡ some a
      → suc n ≤ s.cooldown_remaining
      → ((stabilize_from fl s a c).1.accepted_profile ≡ some a)
        × (n ≤ (stabilize_from fl s a c).1.cooldown_remaining)
        × ((stabilize_from fl s a c).1.cooldown_samples ≡ s.cooldown_samples)
  unfolding stabilize_from
  stabilize_cooling s a c n h k = ground arith

  evaluate_cooling :
      (s : RulesBasedPolicy R) (a : Profile) (i : PolicyInput R) (n : ℕ)
      → s.accepted_profile ≡ some a
      → suc n ≤ s.cooldown_remaining
      → ((evaluate fl s i).1.accepted_profile ≡ some a)
        × (n ≤ (evaluate fl s i).1.cooldown_remaining)
  unfolding evaluate
  evaluate_cooling s a i n h k = ground (arith, stabilize_cooling s a (candidate fl s i) n h k)

  run_cooling :
      (s : RulesBasedPolicy R) (a : Profile) (is : List (PolicyInput R))
      → s.accepted_profile ≡ some a
      → length is ≤ s.cooldown_remaining
      → (run fl s is).accepted_profile ≡ some a
  unfolding run
  run_cooling s a [] h k = h
  run_cooling s a (i ∷ is) h k =
      let next = evaluate_cooling s a i (length is) h k in
      run_cooling (evaluate fl s i).1 a is next.0 next.1

  evaluate_changed :
      (s : RulesBasedPolicy R) (i : PolicyInput R) (a b : Profile)
      → s.accepted_profile ≡ some a
      → (evaluate fl s i).1.accepted_profile ≡ some b
      → a ≢ b
      → (evaluate fl s i).1.cooldown_remaining ≡ s.cooldown_samples
  unfolding evaluate
  evaluate_changed s i a b h k n = ground arith

  -- When a sample has changed the accepted profile from one to another, no sequence of up to
  -- `cooldown_samples` further samples changes it, whatever they report.
  pub run_after_change :
      (s : RulesBasedPolicy R) (i : PolicyInput R) (a b : Profile) (is : List (PolicyInput R))
      → s.accepted_profile ≡ some a
      → (evaluate fl s i).1.accepted_profile ≡ some b
      → a ≢ b
      → length is ≤ s.cooldown_samples
      → (run fl (evaluate fl s i).1 is).accepted_profile ≡ some b
  run_after_change s i a b is h k n l =
      run_cooling (evaluate fl s i).1 b is k (omega (arith, evaluate_changed s i a b h k n))
