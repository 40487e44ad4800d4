-- ===== src/Telemetry/Samples.antt =====
-- crates/cerynth-telemetry/src/lib.rs: the snapshot, and the figures of /proc/stat and /proc/meminfo.
-- Sums of 64-bit counters wrap around.
use cerynth_os.Base.{
  ℕ, ◌+◌, ◌-◌, ◌*◌, ◌%◌, ◌^◌, ◌==◌, String, Option, none, some, List, [], ◌∷◌, if◌then◌else◌,
}
use text.Mathlib.Text.{◌==◌ as str_eq}
use cerynth_os.Base.Text.{trim}
use cerynth_os.Base.Words.{lines, split_whitespace, strip_prefix, split_once, parse_u64}
use cerynth_os.Policy.Floats.{Float64, zero_f}

pub record ProcessCpuSample (R : Type 0) : Type 0 where
  pub pid : ℕ
  pub command : String
  pub cpu_percent : R

pub record SystemSnapshot (R : Type 0) : Type 0 where
  pub timestamp_ms : ℕ
  pub cpu_usage_percent : R
  pub load_1m : R
  pub load_5m : R
  pub load_15m : R
  pub runnable_tasks : ℕ
  pub total_tasks : ℕ
  pub context_switches : ℕ
  pub context_switch_rate : R
  pub short_lived_process_rate : R
  pub interrupts : ℕ
  pub memory_used_bytes : ℕ
  pub memory_total_bytes : ℕ
  pub swap_used_bytes : ℕ
  pub swap_total_bytes : ℕ
  pub top_processes : List (ProcessCpuSample R)
  pub scheduler_profile : Option String
  pub sched_ext_state : String

pub record CpuTimes : Type 0 where
  pub user : ℕ
  pub nice : ℕ
  pub system : ℕ
  pub idle : ℕ
  pub iowait : ℕ
  pub irq : ℕ
  pub softirq : ℕ
  pub steal : ℕ

abbrev pub plus : ℕ → ℕ → ℕ
plus a b = (a + b) % 2 ^ 64

-- `.get(i).copied().unwrap_or(0)`
unfoldable pub field_at : ℕ → List ℕ → ℕ
field_at i [] = 0
field_at ℕ.zero (x ∷ xs) = x
field_at (ℕ.suc i) (x ∷ xs) = field_at i xs

unfoldable pub from_fields : List ℕ → CpuTimes
unfolding field_at
from_fields fields = record {
  user = field_at 0 fields;
  nice = field_at 1 fields;
  system = field_at 2 fields;
  idle = field_at 3 fields;
  iowait = field_at 4 fields;
  irq = field_at 5 fields;
  softirq = field_at 6 fields;
  steal = field_at 7 fields;
}

unfoldable pub total : CpuTimes → ℕ
total c =
    plus
      (plus (plus (plus (plus (plus (plus c.user c.nice) c.system) c.idle) c.iowait) c.irq)
        c.softirq)
      c.steal

unfoldable pub idle_total : CpuTimes → ℕ
idle_total c = plus c.idle c.iowait

-- The lines of /proc/stat that count.
pub record StatFigures : Type 0 where
  pub context_switches : ℕ
  pub interrupts : ℕ
  pub processes_created : ℕ
  pub runnable_tasks : ℕ
  pub cpu : Option CpuTimes

abbrev pub or_zero : Option ℕ → ℕ
or_zero none = 0
or_zero (some n) = n

abbrev pub parsed : List String → List ℕ
parsed [] = []
parsed (w ∷ ws) = elim (parse_u64 w) [ none ↦ parsed ws | some n ↦ n ∷ parsed ws ]

abbrev pub first_number : List String → ℕ
first_number [] = 0
first_number (w ∷ ws) = or_zero (parse_u64 w)

abbrev pub stat_number : String → ℕ
stat_number rest = or_zero (parse_u64 (trim rest))

unfoldable pub stat_line : String → StatFigures → StatFigures
unfolding from_fields
stat_line line f = elim (strip_prefix "cpu " line) [
  | some rest ↦ record f { cpu = some (from_fields (parsed (split_whitespace rest))) }
  | none ↦ elim (strip_prefix "ctxt " line) [
    | some rest ↦ record f { context_switches = stat_number rest }
    | none ↦ elim (strip_prefix "processes " line) [
      | some rest ↦ record f { processes_created = stat_number rest }
      | none ↦ elim (strip_prefix "intr " line) [
        | some rest ↦ record f { interrupts = first_number (split_whitespace rest) }
        | none ↦ elim (strip_prefix "procs_running " line) [
          | some rest ↦ record f { runnable_tasks = stat_number rest }
          | none ↦ f
        ]
      ]
    ]
  ]
]

abbrev pub stat_lines : List String → StatFigures → StatFigures
stat_lines [] f = f
stat_lines (line ∷ rest) f = stat_lines rest (stat_line line f)

unfoldable pub parse_stat : String → StatFigures
unfolding stat_line
parse_stat text = stat_lines (lines text) (record {
  context_switches = 0;
  interrupts = 0;
  processes_created = 0;
  runnable_tasks = 0;
  cpu = none;
})

abbrev pub meminfo_value : List String → Option ℕ
meminfo_value [] = none
meminfo_value (w ∷ ws) = parse_u64 w

abbrev pub meminfo_entry : Option (String × String) → Option (String × ℕ)
meminfo_entry none = none
meminfo_entry (some (key, rest)) = elim (meminfo_value (split_whitespace rest)) [
  | none ↦ none
  | some kb ↦ some (key, kb)
]

-- The map as the list of its insertions, the latest first: a later line wins.
abbrev pub meminfo_lines : List String → List (String × ℕ) → List (String × ℕ)
meminfo_lines [] entries = entries
meminfo_lines (line ∷ rest) entries = elim (meminfo_entry (split_once 58 line)) [
  | none ↦ meminfo_lines rest entries
  | some entry ↦ meminfo_lines rest (entry ∷ entries)
]

unfoldable pub parse_meminfo : String → List (String × ℕ)
parse_meminfo text = meminfo_lines (lines text) []

abbrev pub meminfo_get : String → List (String × ℕ) → ℕ
meminfo_get key [] = 0
meminfo_get key ((k, kb) ∷ rest) = if str_eq k key then kb else meminfo_get key rest

-- `kb`: the product wraps around.
unfoldable pub bytes_of : String → List (String × ℕ) → ℕ
bytes_of key mem = (meminfo_get key mem * 1024) % 2 ^ 64

module _ {R : Type 0} (fl : Float64 R) where
  -- Of the ticks that have passed, the idle ones and the others.
  unfoldable pub percent_of : ℕ → ℕ → R
  percent_of total_delta idle_delta =
      if total_delta == 0
      then zero_f fl
      else fl.mul (fl.div (fl.of_u64 (total_delta - idle_delta)) (fl.of_u64 total_delta))
          (fl.lit 1000 1)

  -- Subtraction stops at 0, as `saturating_sub` does.
  unfoldable pub usage_percent_since : CpuTimes → CpuTimes → R
  unfolding total idle_total percent_of
  usage_percent_since cur prev =
      percent_of (total cur - total prev) (idle_total cur - idle_total prev)
