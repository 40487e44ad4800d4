-- ===== src/Examples/Tools.antt =====
-- The policy's tools on one process, a short file and a disk that is a function.
use text.Mathlib.TextEquality.{eq_iff}
use cerynth_os.Base.{
  ℕ, ◌≡◌, ◌≢◌, refl, String, Bool, true, false, Option, none, some, List, [], ◌∷◌, Result, ok, err,
  arith, ◌++◌,
}
use cerynth_os.Ipc.Profiles.{balanced, interactive}
use cerynth_os.Telemetry.Samples.{SystemSnapshot}
use cerynth_os.Telemetry.Collect.{new_source}
use cerynth_os.Policy.Rules.{default_policy}
use cerynth_os.Policy.Live.{Live, live_rounds}
use cerynth_os.Policy.Live.Shadow.{IsShadow, live_rounds-IsShadow}
use cerynth_os.Policy.Report
use cerynth_os.Policy.Report.{Report, default_report, analyze}
use cerynth_os.Policy.Report.Tally.{Tallied, analyze-Tallied}
use cerynth_os.Base.Words.{lines}
use cerynth_os.Policy.Replay.{replay}
use cerynth_os.Policy.Replay.Batch.{IsBatch, replay-IsBatch}
use cerynth_os.Examples.Policies.{fixed}
use cerynth_os.Examples.Measurements.{one_process}
use cerynth_os.Examples.Lifecycles.{Files, in_memory, in_memory-DiskLaws}

tmp-ne : ◌≢◌ {A = String} "policy.json.tmp" "policy.json"
tmp-ne h = ground (arith, eq_iff "policy.json.tmp" "policy.json")

abbrev before_start : Live ℕ Files ℕ
before_start = record {
  telemetry = new_source fixed 100;
  policy = default_policy fixed;
  proc = 5;
  disk = λ p. none;
}

live_rounds-IsShadow_example :
    IsShadow fixed one_process in_memory in_memory-DiskLaws
      (λ s. s)
      (λ n w. w)
      (λ o. ok "{}")
      (λ path. some "/run")
      (λ path. "policy.json.tmp")
      none
      ((live_rounds fixed one_process in_memory
          (λ s. s)
          (λ n w. w)
          (λ o. ok "{}")
          (λ path. some "/run")
          (λ path. "policy.json.tmp")
          2
          "policy.json"
          before_start).disk
        "policy.json")
live_rounds-IsShadow_example =
    live_rounds-IsShadow fixed one_process in_memory in_memory-DiskLaws (λ s. s) (λ n w. w)
      (λ o. ok "{}") (λ path. some "/run") (λ path. "policy.json.tmp") 2 "policy.json" before_start
      tmp-ne

-- Two records, of which the second is held back by the cooldown.
abbrev pub parsed : String → Result (Report.PolicyRecord ℕ) String
parsed s = ok (record {
  current_profile = none;
  recommended_profile = interactive;
  confidence = 80;
  reason = "Holding interactive during profile-change cooldown";
})

abbrev two_records : Report
two_records = record {
  samples = 2;
  recommendation_counts = ("interactive", 2) ∷ [];
  transitions = [];
  dwell_holds = 0;
  cooldown_holds = 2;
  first = some interactive;
  last = some interactive;
}

analyze-Tallied_example : Tallied parsed none (lines "a\n\nb\n") default_report two_records
unfolding analyze lines cerynth_os.Base.Text.trim cerynth_os.Ipc.Profiles.profile_name
    cerynth_os.Ipc.Profiles.same_profile cerynth_os.Base.Words.strip_prefix
analyze-Tallied_example = analyze-Tallied parsed "a\n\nb\n" two_records refl

abbrev pub snapshot : SystemSnapshot ℕ
snapshot = record {
  timestamp_ms = 1000;
  cpu_usage_percent = 9900;
  load_1m = 400;
  load_5m = 400;
  load_15m = 400;
  runnable_tasks = 8;
  total_tasks = 100;
  context_switches = 7;
  context_switch_rate = 0;
  short_lived_process_rate = 0;
  interrupts = 0;
  memory_used_bytes = 0;
  memory_total_bytes = 0;
  swap_used_bytes = 0;
  swap_total_bytes = 0;
  top_processes = [];
  scheduler_profile = none;
  sched_ext_state = "enabled";
}

abbrev three_lines : List (Result String String)
three_lines = ok "{}" ∷ ok " " ∷ ok "{}" ∷ []

replay-IsBatch_example :
    IsBatch fixed
      (λ s. s)
      (λ s. ok snapshot)
      (λ r. ok "{}")
      (λ line (w : ℕ). (ok tt, w))
      (λ (w : ℕ). (ok tt, w))
      none
      (default_policy fixed)
      three_lines
      (replay fixed
        (λ s. s)
        (λ s. ok snapshot)
        (λ r. ok "{}")
        (λ line (w : ℕ). (ok tt, w))
        (λ (w : ℕ). (ok tt, w))
        three_lines
        0)
unfolding replay cerynth_os.Base.Text.trim
replay-IsBatch_example =
    replay-IsBatch fixed (λ s. s) (λ s. ok snapshot) (λ r. ok "{}") (λ line (w : ℕ). (ok tt, w))
      (λ (w : ℕ). (ok tt, w)) three_lines 0 refl
