-- ===== src/Policy/Evaluation.antt =====
-- crates/cerynth-policy/src/lib.rs, `evaluate`: the profile that it reports.
use mathlib.Core.Path.{subst}
use cerynth_os.Base.{
  ◌≡◌, ◌∙◌, ◌⊎◌, inl, inr, true, false, some, arith, Bool-cases, Option-cases, sym,
}
use cerynth_os.Ipc.Profiles.{Profile, balanced, same_profile-eq}
use cerynth_os.Policy.Floats.{Float64}
use cerynth_os.Policy.Rules.{
  PolicyInput, PolicyDecision, RulesBasedPolicy, decision, is_invalid, candidate,
}
use cerynth_os.Policy.Stability.{
  adopt_current, accepted, count_sample, dwell_hold, cooldown_hold, after_sample, stabilize_from,
  evaluate,
}

module _ {R : Type 0} (fl : Float64 R) where
  after_sample_reports :
      (s : RulesBasedPolicy R) (a : Profile) (c : PolicyDecision R)
      → s.accepted_profile ≡ some a
      → (after_sample fl s a c).1.accepted_profile
        ≡ some (after_sample fl s a c).0.recommended_profile
  unfolding after_sample dwell_hold decision
  after_sample_reports s a c h = ground arith

  count_sample-accepted :
      (s : RulesBasedPolicy R) (p : Profile)
      → (count_sample fl s p).accepted_profile ≡ s.accepted_profile
  unfolding count_sample
  count_sample-accepted s p = ground arith

  stabilize_from_reports :
      (s : RulesBasedPolicy R) (a : Profile) (c : PolicyDecision R)
      → s.accepted_profile ≡ some a
      → (stabilize_from fl s a c).1.accepted_profile
        ≡ some (stabilize_from fl s a c).0.recommended_profile
  unfolding stabilize_from cooldown_hold decision
  stabilize_from_reports s a c h =
      let sampled = count_sample fl s c.recommended_profile in
      let reports =
        after_sample_reports sampled a c (count_sample-accepted s c.recommended_profile ∙ h) in
      ground (arith, same_profile-eq c.recommended_profile a, reports)

  adopt_current_accepts :
      (s : RulesBasedPolicy R) (current : Profile)
      → (adopt_current fl s current).accepted_profile ≡ some (accepted fl s current)
  unfolding adopt_current
  adopt_current_accepts s current = elim (Option-cases s.accepted_profile) [
    | inl e ↦ ground arith
    | inr e ↦ ground arith
  ]

  evaluate_valid :
      (s : RulesBasedPolicy R) (i : PolicyInput R)
      → is_invalid fl i ≡ false
      → evaluate fl s i
        ≡ stabilize_from fl
            (adopt_current fl s i.current_profile)
            (accepted fl s i.current_profile)
            (candidate fl s i)
  unfolding evaluate
  evaluate_valid s i h = ground arith

  evaluate_invalid :
      (s : RulesBasedPolicy R) (i : PolicyInput R)
      → is_invalid fl i ≡ true
      → ((evaluate fl s i).0.recommended_profile ≡ balanced) × ((evaluate fl s i).1 ≡ s)
  unfolding evaluate decision
  evaluate_invalid s i h = ground arith

  abbrev pub HasNonFinite : PolicyInput R → Type 0
  HasNonFinite i =
      (fl.is_finite i.cpu_usage_percent ≡ false)
      ⊎ ((fl.is_finite i.load_1m ≡ false)
          ⊎ ((fl.is_finite i.context_switch_rate ≡ false)
              ⊎ (fl.is_finite i.short_lived_process_rate ≡ false)))

  abbrev pub IsFinite : PolicyInput R → Type 0
  IsFinite i =
      (fl.is_finite i.cpu_usage_percent ≡ true)
      × (fl.is_finite i.load_1m ≡ true)
      × (fl.is_finite i.context_switch_rate ≡ true)
      × (fl.is_finite i.short_lived_process_rate ≡ true)

  is_invalid-HasNonFinite : (i : PolicyInput R) → is_invalid fl i ≡ true → HasNonFinite i
  unfolding is_invalid
  is_invalid-HasNonFinite i h = ground arith

  is_invalid-IsFinite : (i : PolicyInput R) → is_invalid fl i ≡ false → IsFinite i
  unfolding is_invalid
  is_invalid-IsFinite i h = ground arith

  -- Telemetry of which the CPU usage, the load, the context switch rate or the rate of
  -- short-lived processes is not finite is answered with balanced and leaves the policy as it is;
  -- telemetry of which all four are finite leaves the policy with a profile accepted, and reports
  -- that profile.
  pub evaluate_reports :
      (s : RulesBasedPolicy R) (i : PolicyInput R)
      → (HasNonFinite i
          × ((evaluate fl s i).0.recommended_profile ≡ balanced)
          × ((evaluate fl s i).1 ≡ s))
        ⊎ (IsFinite i
            × ((evaluate fl s i).1.accepted_profile ≡ some (evaluate fl s i).0.recommended_profile))
  evaluate_reports s i = elim (Bool-cases (is_invalid fl i)) [
    | inl h ↦
        inl (is_invalid-HasNonFinite i h, (evaluate_invalid s i h).0, (evaluate_invalid s i h).1)
    | inr h ↦
        let reports =
          stabilize_from_reports (adopt_current fl s i.current_profile)
            (accepted fl s i.current_profile) (candidate fl s i)
            (adopt_current_accepts s i.current_profile) in
        inr (
          is_invalid-IsFinite i h,
          subst (λ r. r.1.accepted_profile ≡ some r.0.recommended_profile)
              (sym (evaluate_valid s i h)) reports,
        )
  ]
