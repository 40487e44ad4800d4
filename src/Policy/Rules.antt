-- ===== src/Policy/Rules.antt =====
-- crates/cerynth-policy/src/lib.rs: the policy's state, its confidence scores and its raw
-- recommendation.

use cerynth_os.Base.{ℕ, ◌==◌, Bool, not, ◌&&◌, ◌||◌, String, Option, none, max, leb, if◌then◌else◌}
use cerynth_os.Ipc.Profiles.{Profile, balanced, interactive, performance, background}
use cerynth_os.Policy.Floats.{Float64, max_f, clamp_unit}

pub record PolicyInput (R : Type 0) : Type 0 where
  pub cpu_usage_percent : R
  pub load_1m : R
  pub runnable_tasks : ℕ
  pub context_switch_rate : R
  pub short_lived_process_rate : R
  pub current_profile : Profile

pub record PolicyDecision (R : Type 0) : Type 0 where
  pub recommended_profile : Profile
  pub confidence : R
  pub reason : String

pub record RulesBasedPolicy (R : Type 0) : Type 0 where
  pub min_confidence : R
  pub min_dwell_samples : ℕ
  pub cooldown_samples : ℕ
  pub accepted_profile : Option Profile
  pub pending_profile : Option Profile
  pub pending_count : ℕ
  pub cooldown_remaining : ℕ

module _ {R : Type 0} (fl : Float64 R) where
  open fl use {add, sub, mul, div, abs, le, lt, is_finite, of_u64, lit}

  unfoldable pub default_policy : RulesBasedPolicy R
  default_policy = record {
    min_confidence = lit 60 2;
    min_dwell_samples = 3;
    cooldown_samples = 5;
    accepted_profile = none;
    pending_profile = none;
    pending_count = 0;
    cooldown_remaining = 0;
  }

  unfoldable pub with_min_confidence : R → RulesBasedPolicy R
  unfolding default_policy
  with_min_confidence m = record default_policy { min_confidence = clamp_unit fl m }

  unfoldable pub with_stability_controls : R → ℕ → ℕ → RulesBasedPolicy R
  unfolding default_policy
  with_stability_controls m dwell cooldown = record default_policy {
    min_confidence = clamp_unit fl m;
    min_dwell_samples = max dwell 1;
    cooldown_samples = cooldown;
  }

  -- The weights and scores of `workload_confidence`, one profile after the other.
  unfoldable pub performance_score : R → R → ℕ → R
  performance_score cpu load runnable =
      let cpu_score = clamp_unit fl (div (sub cpu (lit 850 1)) (lit 150 1)) in
      let load_score = clamp_unit fl (div (sub load (lit 10 1)) (lit 20 1)) in
      let runnable_score = clamp_unit fl (div (sub (of_u64 runnable) (lit 20 1)) (lit 40 1)) in
      add (add (mul (lit 65 2) cpu_score) (mul (lit 20 2) load_score))
        (mul (lit 15 2) runnable_score)

  unfoldable pub interactive_score : ℕ → R → R → R
  interactive_score runnable ctxt_rate short_lived =
      let runnable_score = clamp_unit fl (div (sub (of_u64 runnable) (lit 10 1)) (lit 30 1)) in
      let ctxt_score = clamp_unit fl (div (sub ctxt_rate (lit 1500 1)) (lit 8500 1)) in
      let process_score = clamp_unit fl (div (sub short_lived (lit 20 1)) (lit 80 1)) in
      add (add (mul (lit 35 2) runnable_score) (mul (lit 40 2) ctxt_score))
        (mul (lit 25 2) process_score)

  unfoldable pub background_score : R → R → ℕ → R → R
  background_score cpu load runnable short_lived =
      let cpu_score = clamp_unit fl (sub (lit 10 1) (div cpu (lit 100 1))) in
      let load_score = clamp_unit fl (sub (lit 10 1) (div load (lit 5 1))) in
      let runnable_score = if runnable == 0 then lit 10 1 else lit 0 1 in
      let process_score = clamp_unit fl (sub (lit 10 1) short_lived) in
      add
        (add (add (mul (lit 40 2) cpu_score) (mul (lit 25 2) load_score))
          (mul (lit 20 2) runnable_score))
        (mul (lit 15 2) process_score)

  unfoldable pub balanced_score : R → R → R
  balanced_score cpu load =
      let cpu_distance = div (abs (sub cpu (lit 500 1))) (lit 500 1) in
      let load_distance = div (abs (sub load (lit 10 1))) (lit 20 1) in
      sub (sub (lit 10 1) (mul (lit 6 1) cpu_distance)) (mul (lit 4 1) load_distance)

  unfoldable pub workload_confidence : Profile → PolicyInput R → R
  unfolding performance_score interactive_score background_score balanced_score
  workload_confidence performance i =
      clamp_unit fl (performance_score i.cpu_usage_percent i.load_1m i.runnable_tasks)
  workload_confidence interactive i =
      clamp_unit fl
        (interactive_score i.runnable_tasks i.context_switch_rate i.short_lived_process_rate)
  workload_confidence background i =
      clamp_unit fl
        (background_score i.cpu_usage_percent i.load_1m i.runnable_tasks i.short_lived_process_rate)
  workload_confidence balanced i = clamp_unit fl (balanced_score i.cpu_usage_percent i.load_1m)

  unfoldable pub decision : RulesBasedPolicy R → Profile → R → String → PolicyDecision R
  decision s profile confidence reason = record {
    recommended_profile = profile;
    confidence = max_f fl confidence s.min_confidence;
    reason = reason;
  }

  abbrev pub ge : R → R → Bool
  ge a b = le b a

  -- The conditions of `evaluate`, in their order.
  unfoldable pub is_invalid : PolicyInput R → Bool
  is_invalid i =
      not (is_finite i.cpu_usage_percent)
      || not (is_finite i.load_1m)
      || not (is_finite i.context_switch_rate)
      || not (is_finite i.short_lived_process_rate)

  unfoldable pub is_saturated : PolicyInput R → Bool
  is_saturated i =
      ge i.cpu_usage_percent (lit 900 1) && ge i.load_1m (lit 10 1) && leb 2 i.runnable_tasks

  unfoldable pub is_responsive : PolicyInput R → Bool
  is_responsive i =
      leb 2 i.runnable_tasks
      && ((ge i.context_switch_rate (lit 5000 1) && leb 3 i.runnable_tasks)
          || ge i.short_lived_process_rate (lit 50 1))

  unfoldable pub is_idle : PolicyInput R → Bool
  is_idle i =
      lt i.cpu_usage_percent (lit 100 1)
      && lt i.load_1m (lit 5 1)
      && leb i.runnable_tasks 1
      && lt i.short_lived_process_rate (lit 10 1)

  unfoldable pub is_light : PolicyInput R → Bool
  is_light i = lt i.cpu_usage_percent (lit 300 1) && leb i.runnable_tasks 1

  -- The raw recommendation.
  unfoldable pub candidate : RulesBasedPolicy R → PolicyInput R → PolicyDecision R
  unfolding decision
  candidate s i =
      if is_saturated i
      then decision s performance (workload_confidence performance i)
          "Very high CPU utilisation with sustained runnable pressure"
      else if is_responsive i
      then decision s interactive (workload_confidence interactive i)
          "High runnable load with frequent context switches or short-lived process activity"
      else if is_idle i
      then decision s background (workload_confidence background i)
          "Very low CPU utilisation and runnable pressure with minimal process activity"
      else if is_light i
      then decision s balanced (lit 90 2) "Low CPU utilisation and low runnable load"
      else decision s balanced (workload_confidence balanced i)
          "Workload does not strongly match another profile"
