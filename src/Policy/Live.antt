-- ===== src/Policy/Live.antt =====
-- crates/cerynth-policy/src/bin/cerynth-policy-live.rs: once a second a recommendation from fresh
-- telemetry, written to a file. What is printed is left out.
pub mod Shadow
use cerynth_os.Base.{
  ℕ, zero, suc, String, Bool, true, false, Option, none, some, Result, ok, err, format, [], ◌∷◌,
}
use cerynth_os.Base.Disk.{Disk, and_next}
use cerynth_os.Ipc.Profiles.{Profile, balanced, parse_profile}
use cerynth_os.Policy.Floats.{Float64}
use cerynth_os.Policy.Rules.{PolicyInput, PolicyDecision, RulesBasedPolicy}
use cerynth_os.Policy.Stability.{evaluate}
use cerynth_os.Telemetry.Samples.{SystemSnapshot}
use cerynth_os.Telemetry.Processes.{Proc}
use cerynth_os.Telemetry.Collect.{ProcTelemetrySource, collect}

pub record PolicyOutput (R : Type 0) : Type 0 where
  pub recommended_profile : Profile
  pub confidence : R
  pub reason : String
  pub apply : Bool

abbrev pub with_newline : String → String
with_newline json = format (json ∷ "\n" ∷ [])

-- `From<PolicyDecision> for PolicyOutput`.
unfoldable pub from_decision : {R : Type 0} → PolicyDecision R → PolicyOutput R
from_decision d = record {
  recommended_profile = d.recommended_profile;
  confidence = d.confidence;
  reason = d.reason;
  apply = false;
}

-- `CERYNTH_POLICY_PATH`, if it is set.
unfoldable pub output_path : Option String → String
output_path none = "/run/cerynth/policy.json"
output_path (some path) = path

-- `parse().ok()`, or balanced. The argument is `str::to_lowercase`.
abbrev pub parsed_or_balanced : (String → String) → Option String → Profile
parsed_or_balanced lowercase none = balanced
parsed_or_balanced lowercase (some text) = elim (parse_profile lowercase text) [
  | ok p ↦ p
  | err e ↦ balanced
]

unfoldable pub current_profile : {R : Type 0} → (String → String) → SystemSnapshot R → Profile
current_profile lowercase x = parsed_or_balanced lowercase x.scheduler_profile

unfoldable pub live_input : {R : Type 0} → (String → String) → SystemSnapshot R → PolicyInput R
unfolding current_profile
live_input lowercase x = record {
  cpu_usage_percent = x.cpu_usage_percent;
  load_1m = x.load_1m;
  runnable_tasks = x.runnable_tasks;
  context_switch_rate = x.context_switch_rate;
  short_lived_process_rate = x.short_lived_process_rate;
  current_profile = current_profile lowercase x;
}

-- The program between two rounds: /proc and the clock, and the disk with the recommendation.
pub record Live (W D R : Type 0) : Type 0 where
  pub telemetry : ProcTelemetrySource R
  pub policy : RulesBasedPolicy R
  pub proc : W
  pub disk : D

module _ {W D J R : Type 0} (fl : Float64 R) (proc : Proc W J R) (disk : Disk D)
    (lowercase : String → String) (sleep_ms : ℕ → W → W)
    (to_string_pretty : PolicyOutput R → Result String String) (parent : String → Option String)
    (with_extension : String → String) where
  unfoldable pub output_of :
      Result (SystemSnapshot R) String → RulesBasedPolicy R → PolicyOutput R × RulesBasedPolicy R
  unfolding from_decision live_input
  output_of (err e) policy = (
    record {
      recommended_profile = balanced;
      confidence = fl.lit 10 1;
      reason = format ("Telemetry collection failed; defaulting to balanced: " ∷ e ∷ []);
      apply = false;
    },
    policy,
  )
  output_of (ok snapshot) policy =
      let (decision, next) = evaluate fl policy (live_input lowercase snapshot) in
      (from_decision decision, next)

  abbrev pub make_directory : Option String → D → Result (Unit {0}) String × D
  make_directory none d = (ok tt, d)
  make_directory (some dir) d = disk.create_dir_all dir d

  abbrev pub write_text : String → Result String String → D → Result (Unit {0}) String × D
  write_text path (err e) d = (err e, d)
  write_text path (ok json) d =
      and_next (disk.write (with_extension path) (with_newline json) d)
        λ x. disk.rename (with_extension path) path x

  unfoldable pub write_policy : PolicyOutput R → String → D → Result (Unit {0}) String × D
  write_policy output path d =
      and_next (make_directory (parent path) d) λ x. write_text path (to_string_pretty output) x

  -- An error of the write is printed, and the loop goes on.
  unfoldable pub live_round : String → Live W D R → Live W D R
  unfolding output_of write_policy
  live_round path l =
      let (sample, source, w) = collect fl proc l.telemetry l.proc in
      let (output, policy) = output_of sample l.policy in
      let (written, d) = write_policy output path l.disk in
      record { telemetry = source; policy = policy; proc = sleep_ms 1000 w; disk = d }

  -- The loop, cut off after a number of rounds.
  unfoldable pub live_rounds : ℕ → String → Live W D R → Live W D R
  unfolding live_round
  live_rounds zero path l = l
  live_rounds (suc n) path l = live_rounds n path (live_round path l)
