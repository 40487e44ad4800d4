-- ===== src/Policy/Replay.antt =====
-- crates/cerynth-policy/src/bin/cerynth-policy-replay.rs: recorded telemetry through the policy, from
-- the opened files on. The summary on stdout is left out.
pub mod Batch
use cerynth_os.Base.{
  ℕ, ◌+◌, ◌-◌, ◌==◌, Bool, true, false, String, Option, none, some, List, [], ◌∷◌, Result, ok, err,
  format, if◌then◌else◌,
}
use cerynth_os.Base.Text.{trim, is_empty, show_ℕ}
use cerynth_os.Ipc.Profiles.{Profile}
use cerynth_os.Policy.Floats.{Float64, zero_f}
use cerynth_os.Policy.Rules.{PolicyInput, PolicyDecision, RulesBasedPolicy, default_policy}
use cerynth_os.Policy.Stability.{evaluate}
use cerynth_os.Policy.Live.{parsed_or_balanced}
use cerynth_os.Telemetry.Samples.{SystemSnapshot}

pub record PolicyRecord (R : Type 0) : Type 0 where
  pub timestamp_ms : ℕ
  pub current_profile : Profile
  pub recommended_profile : Profile
  pub confidence : R
  pub reason : String

unfoldable pub profile_from_snapshot : {R : Type 0} → (String → String) → SystemSnapshot R → Profile
profile_from_snapshot lowercase x = parsed_or_balanced lowercase x.scheduler_profile

unfoldable pub record_of :
    {R : Type 0} → (String → String) → SystemSnapshot R → PolicyDecision R → PolicyRecord R
unfolding profile_from_snapshot
record_of lowercase x d = record {
  timestamp_ms = x.timestamp_ms;
  current_profile = profile_from_snapshot lowercase x;
  recommended_profile = d.recommended_profile;
  confidence = d.confidence;
  reason = d.reason;
}

module _ {R : Type 0} (fl : Float64 R) (lowercase : String → String) where
  -- Subtraction stops at 0, as `saturating_sub` does.
  abbrev pub switches_per : ℕ → ℕ → R
  switches_per elapsed_ms switches =
      if elapsed_ms == 0
      then zero_f fl
      else fl.div (fl.of_u64 switches) (fl.div (fl.of_u64 elapsed_ms) (fl.lit 10000 1))

  unfoldable pub context_switch_rate : Option (SystemSnapshot R) → SystemSnapshot R → R
  context_switch_rate none current = zero_f fl
  context_switch_rate (some previous) current =
      switches_per (current.timestamp_ms - previous.timestamp_ms)
        (current.context_switches - previous.context_switches)

  unfoldable pub replay_input : Option (SystemSnapshot R) → SystemSnapshot R → PolicyInput R
  unfolding context_switch_rate profile_from_snapshot
  replay_input previous x = record {
    cpu_usage_percent = x.cpu_usage_percent;
    load_1m = x.load_1m;
    runnable_tasks = x.runnable_tasks;
    context_switch_rate = context_switch_rate previous x;
    short_lived_process_rate = zero_f fl;
    current_profile = profile_from_snapshot lowercase x;
  }

  module _ {W : Type 0} (from_str : String → Result (SystemSnapshot R) String)
      (to_string : PolicyRecord R → Result String String)
      (write_line : String → W → Result (Unit {0}) String × W)
      (flush : W → Result (Unit {0}) String × W) where
    -- The records that were written, the policy, how it has ended, and the output.
    abbrev pub Replayed : Type 0
    Replayed = List (PolicyRecord R) × RulesBasedPolicy R × Result (Unit {0}) String × W

    abbrev pub stopped_at : String → RulesBasedPolicy R → W → Replayed
    stopped_at e policy w = ([], policy, err e, w)

    abbrev pub written :
        PolicyRecord R
        → RulesBasedPolicy R
        → (W → Replayed)
        → Result (Unit {0}) String × W
        → Replayed
    written r policy next (err e, w) = stopped_at e policy w
    written r policy next (ok _, w) = let (rs, p, ended, v) = next w in (r ∷ rs, p, ended, v)

    abbrev pub encoded :
        PolicyRecord R → RulesBasedPolicy R → (W → Replayed) → Result String String → W → Replayed
    encoded r policy next (err e) w = stopped_at e policy w
    encoded r policy next (ok text) w = written r policy next (write_line text w)

    abbrev pub flushed : RulesBasedPolicy R → Result (Unit {0}) String × W → Replayed
    flushed policy (r, w) = ([], policy, r, w)

    abbrev pub replay_error : String → ℕ → String
    replay_error text n = format (text ∷ show_ℕ n ∷ [])

    -- One line: whether it is blank, what it parses to, and how the rest is replayed.
    abbrev pub replayed_line :
        ℕ
        → Option (SystemSnapshot R)
        → RulesBasedPolicy R
        → Bool
        → Result (SystemSnapshot R) String
        → (Option (SystemSnapshot R) → RulesBasedPolicy R → W → Replayed)
        → W
        → Replayed
    replayed_line n previous policy true parsed next w = next previous policy w
    replayed_line n previous policy false (err e) next w =
        stopped_at (replay_error "parsing telemetry JSON on line " n) policy w
    replayed_line n previous policy false (ok x) next w =
        let decision = evaluate fl policy (replay_input previous x) in
        let r = record_of lowercase x decision.0 in
        encoded r decision.1 (next (some x) decision.1) (to_string r) w

    -- The lines from number `n` on.
    unfoldable pub replay_lines :
        ℕ
        → Option (SystemSnapshot R)
        → RulesBasedPolicy R
        → List (Result String String)
        → W
        → Replayed
    unfolding replay_input record_of
    replay_lines n previous policy [] w = flushed policy (flush w)
    replay_lines n previous policy (err e ∷ rest) w =
        stopped_at (replay_error "reading telemetry line " n) policy w
    replay_lines n previous policy (ok line ∷ rest) w =
        replayed_line n previous policy (is_empty (trim line)) (from_str line)
          (λ p q v. replay_lines (n + 1) p q rest v) w

    unfoldable pub replay : List (Result String String) → W → Replayed
    unfolding replay_lines
    replay ls w = replay_lines 1 none (default_policy fl) ls w
