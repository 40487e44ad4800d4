-- ===== src/Telemetry/Collect.antt =====
-- crates/cerynth-telemetry/src/lib.rs, `collect`: one sample. The creation rate of processes, which the
-- code computes and does not use, is left out.
use cerynth_os.Base.{
  ℕ, ◌-◌, String, Option, none, some, List, [], ◌∷◌, Result, ok, err, if◌then◌else◌,
}
use cerynth_os.Base.Text.{trim}
use cerynth_os.Base.Words.{split_whitespace, split, parse_u64}
use cerynth_os.Policy.Floats.{Float64, zero_f}
use cerynth_os.Telemetry.Samples.{
  SystemSnapshot, CpuTimes, StatFigures, or_zero, parse_stat, parse_meminfo, bytes_of,
  usage_percent_since,
}
use cerynth_os.Telemetry.Lifetimes.{Times, track}
use cerynth_os.Telemetry.Processes.{Proc, word_at, parse_pid, top_processes}

pub record ProcTelemetrySource (R : Type 0) : Type 0 where
  pub prev_cpu : Option CpuTimes
  pub prev_proc_cpu : Times
  pub pid_first_seen : Times
  pub prev_context_switches : Option ℕ
  pub prev_processes : Option ℕ
  pub prev_sample_at : Option ℕ
  pub clk_tck : R

-- The argument is the result of `sysconf`, with 0 for a negative one.
unfoldable pub new_source : {R : Type 0} → Float64 R → ℕ → ProcTelemetrySource R
new_source fl ticks = record {
  prev_cpu = none;
  prev_proc_cpu = [];
  pid_first_seen = [];
  prev_context_switches = none;
  prev_processes = none;
  prev_sample_at = none;
  clk_tck = elim ticks [ ℕ.zero ↦ fl.lit 1000 1 | ℕ.suc n ↦ fl.of_u64 (ℕ.suc n) ];
}

module _ {W J R : Type 0} (fl : Float64 R) (proc : Proc W J R) where
  unfoldable pub elapsed_since : Option ℕ → ℕ → R
  elapsed_since none now = zero_f fl
  elapsed_since (some prev) now = proc.secs_f64 (now - prev)

  unfoldable pub rate : R → Option ℕ → ℕ → R
  rate elapsed none n = zero_f fl
  rate elapsed (some prev) n =
      if fl.lt (zero_f fl) elapsed then fl.div (fl.of_u64 (n - prev)) elapsed else zero_f fl

  unfoldable pub cpu_usage : Option CpuTimes → Option CpuTimes → R
  cpu_usage none cur = zero_f fl
  cpu_usage (some prev) none = zero_f fl
  cpu_usage (some prev) (some cur) = usage_percent_since fl cur prev

  abbrev pub parse_load : Option String → R
  parse_load none = zero_f fl
  parse_load (some word) = elim (proc.parse_f64 word) [ none ↦ zero_f fl | some x ↦ x ]

  abbrev pub second_number : Option String → ℕ
  second_number none = 0
  second_number (some word) = elim (word_at 1 (split 47 word)) [
    | none ↦ 0
    | some n ↦ or_zero (parse_u64 n)
  ]

  abbrev pub state_text : Result String String → String
  state_text (ok text) = trim text
  state_text (err e) = "unavailable"

  abbrev pub profile_of : Result String String → Option String
  profile_of (err e) = none
  profile_of (ok text) = elim (proc.json_from_str text) [
    | err e ↦ none
    | ok value ↦ elim (proc.json_get value "profile") [ none ↦ none | some p ↦ proc.json_as_str p ]
  ]

  unfoldable pub read_scheduler_profile : W → Option String × W
  read_scheduler_profile w =
      let (text, w₁) = proc.read_to_string "/var/lib/cerynth/state.json" w in (profile_of text, w₁)

  -- `fs::read_dir("/proc").ok()`: no process, if the directory cannot be read.
  abbrev pub pids_of : List String → List ℕ
  pids_of [] = []
  pids_of (name ∷ names) = elim (parse_pid name) [
    | none ↦ pids_of names
    | some pid ↦ pid ∷ pids_of names
  ]

  abbrev pub current_pids : Result (List String) String → List ℕ
  current_pids (err e) = []
  current_pids (ok names) = pids_of names

  -- What the part of the sample before an early return has found.
  pub record Begun : Type 0 where
    pub now : ℕ
    pub elapsed : R
    pub timestamp_ms : ℕ
    pub figures : StatFigures
    pub cpu_usage_percent : R
    pub context_switch_rate : R

  abbrev pub Sampled : Type 0
  Sampled = Result (SystemSnapshot R) String × ProcTelemetrySource R × W

  unfoldable pub finish_sample : Begun → String → String → ProcTelemetrySource R → W → Sampled
  unfolding parse_pid
  finish_sample g loadavg meminfo s w =
      let parts = split_whitespace loadavg in
      let mem = parse_meminfo meminfo in
      let (state, w₁) = proc.read_to_string "/sys/kernel/sched_ext/state" w in
      let (top, ticks, w₂) = top_processes fl proc s.clk_tck g.elapsed s.prev_proc_cpu w₁ in
      let (entries, w₃) = proc.read_dir "/proc" w₂ in
      let (short_lived, times) =
        track fl proc.secs_f64 (current_pids entries) g.now s.pid_first_seen in
      let (profile, w₄) = read_scheduler_profile w₃ in
      (
        ok (record {
          timestamp_ms = g.timestamp_ms;
          cpu_usage_percent = g.cpu_usage_percent;
          load_1m = parse_load (word_at 0 parts);
          load_5m = parse_load (word_at 1 parts);
          load_15m = parse_load (word_at 2 parts);
          runnable_tasks = g.figures.runnable_tasks;
          total_tasks = second_number (word_at 3 parts);
          context_switches = g.figures.context_switches;
          context_switch_rate = g.context_switch_rate;
          short_lived_process_rate =
              if fl.lt (zero_f fl) g.elapsed then fl.div short_lived g.elapsed else zero_f fl;
          interrupts = g.figures.interrupts;
          memory_used_bytes = bytes_of "MemTotal" mem - bytes_of "MemAvailable" mem;
          memory_total_bytes = bytes_of "MemTotal" mem;
          swap_used_bytes = bytes_of "SwapTotal" mem - bytes_of "SwapFree" mem;
          swap_total_bytes = bytes_of "SwapTotal" mem;
          top_processes = top;
          scheduler_profile = profile;
          sched_ext_state = state_text state;
        }),
        record s { prev_proc_cpu = ticks; pid_first_seen = times; prev_sample_at = some g.now },
        w₄,
      )

  abbrev pub after_meminfo :
      Begun → String → ProcTelemetrySource R → Result String String × W → Sampled
  after_meminfo g loadavg s (err e, w) = (err "reading /proc/meminfo", s, w)
  after_meminfo g loadavg s (ok meminfo, w) = finish_sample g loadavg meminfo s w

  abbrev pub after_loadavg : Begun → ProcTelemetrySource R → Result String String × W → Sampled
  after_loadavg g s (err e, w) = (err "reading /proc/loadavg", s, w)
  after_loadavg g s (ok loadavg, w) =
      after_meminfo g loadavg s (proc.read_to_string "/proc/meminfo" w)

  -- The counters of /proc/stat are remembered before the other files are read.
  unfoldable pub remember : StatFigures → ProcTelemetrySource R → ProcTelemetrySource R
  remember f s = record s {
    prev_cpu = f.cpu;
    prev_context_switches = some f.context_switches;
    prev_processes = some f.processes_created;
  }

  unfoldable pub begin : ℕ → ℕ → StatFigures → ProcTelemetrySource R → Begun
  unfolding elapsed_since rate cpu_usage
  begin now timestamp_ms f s =
      let elapsed = elapsed_since s.prev_sample_at now in
      record {
        now = now;
        elapsed = elapsed;
        timestamp_ms = timestamp_ms;
        figures = f;
        cpu_usage_percent = cpu_usage s.prev_cpu f.cpu;
        context_switch_rate = rate elapsed s.prev_context_switches f.context_switches;
      }

  abbrev pub after_stat : ℕ → ℕ → ProcTelemetrySource R → Result String String × W → Sampled
  after_stat now timestamp_ms s (err e, w) = (err "reading /proc/stat", s, w)
  after_stat now timestamp_ms s (ok stat, w) =
      after_loadavg (begin now timestamp_ms (parse_stat stat) s) (remember (parse_stat stat) s)
        (proc.read_to_string "/proc/loadavg" w)

  abbrev pub after_clock : ℕ → ProcTelemetrySource R → Result ℕ String × W → Sampled
  after_clock now s (err e, w) = (err "system clock before UNIX epoch", s, w)
  after_clock now s (ok timestamp_ms, w) =
      after_stat now timestamp_ms s (proc.read_to_string "/proc/stat" w)

  unfoldable pub collect : ProcTelemetrySource R → W → Sampled
  unfolding finish_sample remember begin
  collect s w = let (now, w₁) = proc.instant_ns w in after_clock now s (proc.unix_ms w₁)
