-- ===== src/Examples/Policies.antt =====
-- The policy on fixed-point numbers.
use cerynth_os.Base.{
  ℕ, zero, suc, ◌+◌, ◌-◌, ◌*◌, ◌/◌, ◌≡◌, refl, true, false, none, some, [], ◌∷◌, arith, ltb, leb,
  ◌⊎◌,
}
use cerynth_os.Ipc.Profiles.{Profile, balanced, interactive, performance, background}
use cerynth_os.Policy.Floats.{Float64, FloatLaws}
use cerynth_os.Policy.Rules.{
  PolicyInput, RulesBasedPolicy, with_stability_controls, default_policy, candidate, is_invalid,
}
use cerynth_os.Policy.Stability.{evaluate, run}
use cerynth_os.Policy.Stability.Cooldown.{run_after_change}
use cerynth_os.Policy.Stability.Dwell.{Streak, accepted-Streak}
use cerynth_os.Policy.Evaluation.{HasNonFinite, IsFinite, evaluate_reports}
use cerynth_os.Policy.Confidence.{IsConfidence, evaluate-confidence}

abbrev divided : ℕ → ℕ → ℕ
divided a zero = 0
divided a (suc b) = a / suc b

-- Hundredths, without negative numbers and without NaN.
abbrev literal : ℕ → ℕ → ℕ
literal digits zero = digits * 100
literal digits (suc zero) = digits * 10
literal digits (suc (suc zero)) = digits
literal digits (suc (suc (suc places))) = 0

abbrev pub fixed : Float64 ℕ
fixed = record {
  add = λ a b. a + b;
  sub = λ a b. a - b;
  mul = λ a b. (a * b) / 100;
  div = λ a b. divided (a * 100) b;
  abs = λ a. a;
  le = leb;
  lt = ltb;
  is_nan = λ a. false;
  is_finite = λ a. true;
  of_u64 = λ n. n * 100;
  lit = literal;
}

pub fixed-FloatLaws : FloatLaws fixed
fixed-FloatLaws = record {
  le_refl = λ a n. ground arith;
  le_of_lt = λ a b h. ground arith;
  le_of_not_lt = λ a b m n h. ground arith;
  lit_not_nan = λ digits places. refl;
  lit_le_one = λ digits h. ground arith;
}

-- Every sample but an idle one asks for performance.
abbrev busy_input : PolicyInput ℕ
busy_input = record {
  cpu_usage_percent = 9900;
  load_1m = 400;
  runnable_tasks = 8;
  context_switch_rate = 100;
  short_lived_process_rate = 0;
  current_profile = balanced;
}

abbrev idle_input : PolicyInput ℕ
idle_input = record busy_input { cpu_usage_percent = 100; load_1m = 10; runnable_tasks = 0 }

abbrev quick : RulesBasedPolicy ℕ
quick = record {
  min_confidence = 60;
  min_dwell_samples = 2;
  cooldown_samples = 3;
  accepted_profile = none;
  pending_profile = none;
  pending_count = 0;
  cooldown_remaining = 0;
}

-- One sample short of performance.
abbrev waiting : RulesBasedPolicy ℕ
waiting = record quick {
  accepted_profile = some balanced;
  pending_profile = some performance;
  pending_count = 1;
}

run_after_change_example :
    (run fixed
      (evaluate fixed waiting busy_input).1
      (idle_input ∷ idle_input ∷ idle_input ∷ [])).accepted_profile
    ≡ some performance
unfolding evaluate is_invalid cerynth_os.Ipc.Profiles.same_profile candidate
    cerynth_os.Policy.Rules.is_saturated
run_after_change_example =
    run_after_change fixed waiting busy_input balanced performance
      (idle_input ∷ idle_input ∷ idle_input ∷ []) refl refl (λ e. ground arith) (omega arith)

accepted-Streak_example : Streak performance 2 (performance ∷ performance ∷ [])
unfolding run candidate is_invalid cerynth_os.Ipc.Profiles.same_profile
    cerynth_os.Policy.Rules.is_saturated
accepted-Streak_example =
    accepted-Streak fixed quick (busy_input ∷ []) busy_input balanced performance refl refl refl
      refl (λ e. ground arith)

evaluate_reports_example :
    (HasNonFinite fixed busy_input
      × ((evaluate fixed waiting busy_input).0.recommended_profile ≡ balanced)
      × ((evaluate fixed waiting busy_input).1 ≡ waiting))
    ⊎ (IsFinite fixed busy_input
        × ((evaluate fixed waiting busy_input).1.accepted_profile
            ≡ some (evaluate fixed waiting busy_input).0.recommended_profile))
evaluate_reports_example = evaluate_reports fixed waiting busy_input

evaluate-confidence_example :
    IsConfidence fixed fixed-FloatLaws 60 (evaluate fixed waiting busy_input).0.confidence
evaluate-confidence_example = evaluate-confidence fixed fixed-FloatLaws waiting refl refl busy_input
