-- ===== src/Telemetry/Bounds.antt =====
-- crates/cerynth-telemetry/src/lib.rs, `collect`: what a sample can say, and what a failed one leaves.
use cerynth_os.Base.{ℕ, ◌≤◌, ◌≡◌, ◌≢◌, ◌⊎◌, none, some, ok, err, length}
use cerynth_os.Policy.Floats.{Float64, zero_f}
use cerynth_os.Telemetry.Samples.{SystemSnapshot, StatFigures}
use cerynth_os.Telemetry.Processes.{Proc, top_processes}
use cerynth_os.Telemetry.Collect.{ProcTelemetrySource, Sampled}

module _ {R : Type 0} (fl : Float64 R) where
  -- A share of a total that is not zero, times 100.
  pub record IsShare (x : R) : Type 0 where
    pub busy : ℕ
    pub of : ℕ
    pub divides : of ≢ 0
    pub part : busy ≤ of
    pub value : x ≡ fl.mul (fl.div (fl.of_u64 busy) (fl.of_u64 of)) (fl.lit 1000 1)

  -- No usage, or a share of the ticks that have passed.
  abbrev pub IsUsage : R → Type 0
  IsUsage x = (x ≡ zero_f fl) ⊎ IsShare x

module _ {W J R : Type 0} (fl : Float64 R) (proc : Proc W J R) where
  -- The figures of a sample fit together, and those that compare it with the one before are zero
  -- when there was none.
  pub record IsSound (s : ProcTelemetrySource R) (x : SystemSnapshot R) : Type 0 where
    pub memory : x.memory_used_bytes ≤ x.memory_total_bytes
    pub swap : x.swap_used_bytes ≤ x.swap_total_bytes
    pub usage : IsUsage fl x.cpu_usage_percent
    pub top : length x.top_processes ≤ 5
    pub first :
        s.prev_sample_at ≡ none
        → (x.context_switch_rate ≡ zero_f fl) × (x.short_lived_process_rate ≡ zero_f fl)

  -- A sample that fails has at most remembered the counters, and no time.
  abbrev pub IsSampled : ProcTelemetrySource R → Sampled fl proc → Type 0
  IsSampled s (err e, t, w) =
      (t ≡ s)
      ⊎ ((f : StatFigures) × (t ≡ record s {
        prev_cpu = f.cpu;
        prev_context_switches = some f.context_switches;
        prev_processes = some f.processes_created;
      }))
  IsSampled s (ok x, t, w) = IsSound s x × ((now : ℕ) × (t.prev_sample_at ≡ some now))
