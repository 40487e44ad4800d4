-- ===== src/Policy/Pipeline/Confident.antt =====
-- crates/cerynth-policy/src/bin/cerynth-policy-replay.rs: the confidence in the records of a replay.
use cerynth_os.Base.{
  ◌≡◌, refl, ◌∙◌, sym, inl, inr, true, false, String, Option, none, some, List, [], ◌∷◌, All, arith,
  Option-cases,
}
use mathlib.Core.Path.{subst}
use cerynth_os.Policy.Floats.{Float64, FloatLaws}
use cerynth_os.Policy.Rules.{PolicyInput, PolicyDecision, RulesBasedPolicy, default_policy}
use cerynth_os.Ipc.Profiles.{Profile}
use cerynth_os.Policy.Stability.{
  adopt_current, count_sample, after_sample, stabilize_from, evaluate,
}
use cerynth_os.Policy.Confidence.{IsConfidence, evaluate-confidence}
use cerynth_os.Policy.Replay.{PolicyRecord, record_of, replay_input}
use cerynth_os.Policy.Replay.Batch.{inputs_of, records_of}
use cerynth_os.Telemetry.Samples.{SystemSnapshot}

module _ {R : Type 0} (fl : Float64 R) (laws : FloatLaws fl) (lowercase : String → String) where
  count_sample-minimum :
      (s : RulesBasedPolicy R) (p : Profile)
      → (count_sample fl s p).min_confidence ≡ s.min_confidence
  unfolding count_sample
  count_sample-minimum s p = ground arith

  after_sample-minimum :
      (s : RulesBasedPolicy R) (a : Profile) (c : PolicyDecision R)
      → (after_sample fl s a c).1.min_confidence ≡ s.min_confidence
  unfolding after_sample
  after_sample-minimum s a c = ground arith

  stabilize_from-minimum :
      (s : RulesBasedPolicy R) (a : Profile) (c : PolicyDecision R)
      → (stabilize_from fl s a c).1.min_confidence ≡ s.min_confidence
  unfolding stabilize_from
  stabilize_from-minimum s a c =
      let sampled = count_sample fl s c.recommended_profile in
      ground (arith, after_sample-minimum sampled a c, count_sample-minimum s c.recommended_profile)

  adopt_current-minimum :
      (s : RulesBasedPolicy R) (p : Profile)
      → (adopt_current fl s p).min_confidence ≡ s.min_confidence
  unfolding adopt_current
  adopt_current-minimum s p = elim (Option-cases s.accepted_profile) [
    | inl e ↦ ground arith
    | inr e ↦ ground arith
  ]

  evaluate-minimum :
      (s : RulesBasedPolicy R) (i : PolicyInput R)
      → (evaluate fl s i).1.min_confidence ≡ s.min_confidence
  unfolding evaluate
  evaluate-minimum s i = ground (
    arith,
    adopt_current-minimum s i.current_profile,
    stabilize_from-minimum (adopt_current fl s i.current_profile),
  )

  abbrev pub IsConfident : PolicyRecord R → Type 0
  IsConfident r = IsConfidence fl laws (fl.lit 60 2) r.confidence

  records_of-IsConfident :
      (previous : Option (SystemSnapshot R)) (s : RulesBasedPolicy R) (xs : List (SystemSnapshot R))
      → s.min_confidence ≡ fl.lit 60 2
      → All IsConfident (records_of fl lowercase s xs (inputs_of fl lowercase previous xs))
  unfolding record_of
  records_of-IsConfident previous s [] h = tt
  records_of-IsConfident previous s (x ∷ xs) h =
      let i = replay_input fl lowercase previous x in
      (
        subst (λ m. IsConfidence fl laws m (evaluate fl s i).0.confidence) h
            (evaluate-confidence fl laws s
              (subst (λ m. fl.is_nan m ≡ false) (sym h) (laws.lit_not_nan 60 2))
              (subst (λ m. fl.le m (fl.lit 10 1) ≡ true) (sym h) (laws.lit_le_one 60 (omega arith)))
              i),
        records_of-IsConfident (some x) (evaluate fl s i).1 xs (evaluate-minimum s i ∙ h),
      )

  -- Every record of a replay has a confidence between 0.60 and 1.0.
  pub replayed-IsConfident :
      (xs : List (SystemSnapshot R))
      → All IsConfident
          (records_of fl lowercase (default_policy fl) xs (inputs_of fl lowercase none xs))
  unfolding default_policy
  replayed-IsConfident xs = records_of-IsConfident none (default_policy fl) xs refl
