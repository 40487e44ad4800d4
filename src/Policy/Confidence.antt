-- ===== src/Policy/Confidence.antt =====
-- crates/cerynth-policy/src/lib.rs, `evaluate`: the confidence that it reports.
use cerynth_os.Base.{
  ◌≡◌, refl, ◌∙◌, inl, inr, Bool, true, false, arith, ltb, Option-cases, String, if◌then◌else◌,
}
use cerynth_os.Ipc.Profiles.{Profile, balanced, performance, interactive, background, same_profile}
use cerynth_os.Policy.Floats.{Float64, FloatLaws, max_f, clamp, clamp_unit, one_f, zero_f}
use cerynth_os.Policy.Rules.{
  PolicyInput, PolicyDecision, RulesBasedPolicy, decision, is_invalid, is_saturated, is_responsive,
  is_idle, is_light, candidate, workload_confidence,
}
use cerynth_os.Policy.Stability.{
  cool_down, clear_pending, adopt_current, accepted, count_sample, dwell_hold, cooldown_hold,
  after_sample, stabilize_from, evaluate,
}

module _ {R : Type 0} (fl : Float64 R) (laws : FloatLaws fl) where
  -- At most 1, unless it is NaN.
  abbrev IsUnit : R → Type 0
  IsUnit x = fl.is_nan x ≡ false → fl.le x (one_f fl) ≡ true

  -- From `m` to 1.
  abbrev pub IsConfidence : R → R → Type 0
  IsConfidence m x = (fl.le m x ≡ true) × (fl.le x (one_f fl) ≡ true)

  below_one-IsUnit :
      (y : R) (b : Bool) → fl.lt (one_f fl) y ≡ b → IsUnit (if b then one_f fl else y)
  below_one-IsUnit y true e h = laws.le_refl (one_f fl) h
  below_one-IsUnit y false e h = laws.le_of_not_lt (one_f fl) y (laws.lit_not_nan 10 1) h e

  clamp_unit-IsUnit : (x : R) → IsUnit (clamp_unit fl x)
  unfolding clamp
  clamp_unit-IsUnit x h =
      let y = if fl.lt x (zero_f fl) then zero_f fl else x in
      below_one-IsUnit y (fl.lt (one_f fl) y) refl h

  max_f-IsConfidence :
      (a m : R)
      → IsUnit a
      → fl.is_nan m ≡ false
      → fl.le m (one_f fl) ≡ true
      → IsConfidence m (max_f fl a m)
  unfolding max_f
  max_f-IsConfidence a m h k l =
      ground (arith, laws.le_refl m k, laws.le_of_lt a m, laws.le_of_not_lt a m)

  module _ (s : RulesBasedPolicy R) (number : fl.is_nan s.min_confidence ≡ false)
      (unit : fl.le s.min_confidence (one_f fl) ≡ true) where
    abbrev InRange : PolicyDecision R → Type 0
    InRange d = IsConfidence s.min_confidence d.confidence

    decision-InRange :
        (t : RulesBasedPolicy R) (p : Profile) (x : R) (reason : String)
        → t.min_confidence ≡ s.min_confidence
        → IsUnit x
        → InRange (decision fl t p x reason)
    unfolding decision
    decision-InRange t p x reason e h = rw e (max_f-IsConfidence x s.min_confidence h number unit)

    workload_confidence-IsUnit :
        (p : Profile) (i : PolicyInput R) → IsUnit (workload_confidence fl p i)
    unfolding workload_confidence
    workload_confidence-IsUnit performance i = clamp_unit-IsUnit _
    workload_confidence-IsUnit interactive i = clamp_unit-IsUnit _
    workload_confidence-IsUnit background i = clamp_unit-IsUnit _
    workload_confidence-IsUnit balanced i = clamp_unit-IsUnit _

    if-InRange :
        (b : Bool) (x y : PolicyDecision R) → InRange x → InRange y → InRange (if b then x else y)
    if-InRange true x y h k = h
    if-InRange false x y h k = k

    if-InRange-0 :
        (b : Bool) (x y : PolicyDecision R × RulesBasedPolicy R)
        → InRange x.0
        → InRange y.0
        → InRange (if b then x else y).0
    if-InRange-0 true x y h k = h
    if-InRange-0 false x y h k = k

    scored-InRange :
        (p : Profile) (i : PolicyInput R) (reason : String)
        → InRange (decision fl s p (workload_confidence fl p i) reason)
    scored-InRange p i reason = decision-InRange s p _ reason refl (workload_confidence-IsUnit p i)

    candidate-InRange : (i : PolicyInput R) → InRange (candidate fl s i)
    unfolding candidate
    candidate-InRange i = if-InRange (is_saturated fl i) _ _ (scored-InRange performance i "") (
        if-InRange (is_responsive fl i) _ _ (scored-InRange interactive i "") (
          if-InRange (is_idle fl i) _ _ (scored-InRange background i "") (
            if-InRange (is_light fl i) _ _
              (decision-InRange s balanced _ "" refl (λ n. laws.lit_le_one 90 (omega arith)))
              (scored-InRange balanced i ""))))

    held-InRange :
        (t : RulesBasedPolicy R) (a : Profile) (c : PolicyDecision R)
        → t.min_confidence ≡ s.min_confidence
        → InRange c
        → InRange (dwell_hold fl t a c) × InRange (cooldown_hold fl t a c)
    unfolding dwell_hold cooldown_hold
    held-InRange t a c e h = (
      decision-InRange t a c.confidence _ e (λ n. h.1),
      decision-InRange t a c.confidence _ e (λ n. h.1),
    )

    after_sample-InRange :
        (t : RulesBasedPolicy R) (a : Profile) (c : PolicyDecision R)
        → t.min_confidence ≡ s.min_confidence
        → InRange c
        → InRange (after_sample fl t a c).0
    unfolding after_sample
    after_sample-InRange t a c e h =
        if-InRange-0 (ltb t.pending_count t.min_dwell_samples) _ _ (held-InRange t a c e h).0 h

    count_sample-min_confidence :
        (t : RulesBasedPolicy R) (p : Profile)
        → (count_sample fl t p).min_confidence ≡ t.min_confidence
    unfolding count_sample
    count_sample-min_confidence t p = ground arith

    stabilize_from-InRange :
        (t : RulesBasedPolicy R) (a : Profile) (c : PolicyDecision R)
        → t.min_confidence ≡ s.min_confidence
        → InRange c
        → InRange (stabilize_from fl t a c).0
    unfolding stabilize_from
    stabilize_from-InRange t a c e h = if-InRange-0 (same_profile c.recommended_profile a) _ _ h (
        if-InRange-0 (ltb 0 t.cooldown_remaining) _ _
          (held-InRange (cool_down fl (clear_pending fl t)) a c e h).1
          (after_sample-InRange (count_sample fl t c.recommended_profile) a c
            (count_sample-min_confidence t c.recommended_profile ∙ e) h))

    adopt_current-min_confidence :
        (current : Profile) → (adopt_current fl s current).min_confidence ≡ s.min_confidence
    unfolding adopt_current
    adopt_current-min_confidence current = elim (Option-cases s.accepted_profile) [
      | inl e ↦ ground arith
      | inr e ↦ ground arith
    ]

    -- When the configured minimum is a number of at most 1, the confidence of every decision lies
    -- between this minimum and 1, whatever the telemetry is and in whichever state the policy is.
    pub evaluate-confidence :
        (i : PolicyInput R) → IsConfidence s.min_confidence (evaluate fl s i).0.confidence
    unfolding evaluate is_invalid candidate
    evaluate-confidence i =
        if-InRange-0 (is_invalid fl i) _ _
          (decision-InRange s balanced _ "" refl (laws.le_refl (one_f fl)))
          (stabilize_from-InRange (adopt_current fl s i.current_profile)
            (accepted fl s i.current_profile) (candidate fl s i)
            (adopt_current-min_confidence i.current_profile) (candidate-InRange i))
