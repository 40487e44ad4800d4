-- ===== src/Telemetry/Processes.antt =====
-- crates/cerynth-telemetry/src/lib.rs, `top_processes`: who has used the processor most since the last
-- sample. `W` is the state of /proc.
use cerynth_os.Base.{
  ℕ, ◌-◌, Bool, String, Option, none, some, List, [], ◌∷◌, Result, ok, err, format, take,
  if◌then◌else◌,
}
use cerynth_os.Base.Words.{split_whitespace, split_once, rsplit_once, parse_u64, parse_up_to}
use cerynth_os.Policy.Floats.{Float64, zero_f}
use cerynth_os.Telemetry.Samples.{ProcessCpuSample, or_zero, plus}
use cerynth_os.Telemetry.Lifetimes.{Times, get}

-- What the telemetry reads: files, the names of a directory's entries that can be read, clocks, and
-- the profile that serde_json finds in a text. `total_cmp_le` and `secs_f64` are the standard
-- library's, on `f64` and on a number of nanoseconds.
pub record Proc (W J R : Type 0) : Type 0 where
  pub instant_ns : W → ℕ × W
  pub unix_ms : W → Result ℕ String × W
  pub read_to_string : String → W → Result String String × W
  pub read_dir : String → W → Result (List String) String × W
  pub parse_f64 : String → Option R
  pub total_cmp_le : R → R → Bool
  pub secs_f64 : ℕ → R
  pub show_pid : ℕ → String
  pub json_from_str : String → Result J String
  pub json_get : J → String → Option J
  pub json_as_str : J → Option String

-- A name that is a process id. No entry of /proc has a sign.
unfoldable pub parse_pid : String → Option ℕ
parse_pid name = parse_up_to 2_147_483_647 name

-- The name and the fields behind it, `none` when there are no parentheses. The kernel writes no `)`
-- in front of the first `(`.
abbrev pub command_of : Option (String × String) → Option (String × List String)
command_of none = none
command_of (some (before, after)) = elim (rsplit_once 41 after) [
  | none ↦ none
  | some (command, rest) ↦ some (command, split_whitespace rest)
]

unfoldable pub parse_process : String → Option (String × List String)
parse_process stat = command_of (split_once 40 stat)

abbrev pub word_at : ℕ → List String → Option String
word_at n [] = none
word_at ℕ.zero (w ∷ ws) = some w
word_at (ℕ.suc n) (w ∷ ws) = word_at n ws

abbrev pub number_at : ℕ → List String → ℕ
number_at n ws = elim (word_at n ws) [ none ↦ 0 | some w ↦ or_zero (parse_u64 w) ]

abbrev pub ticks_of : List String → ℕ
ticks_of rest = plus (number_at 11 rest) (number_at 12 rest)

module _ {W J R : Type 0} (fl : Float64 R) (proc : Proc W J R) where
  unfoldable pub sample_of :
      R → R → ℕ → String → ℕ → Option ℕ → List (ProcessCpuSample R) → List (ProcessCpuSample R)
  sample_of clk_tck elapsed pid command ticks none samples = samples
  sample_of clk_tck elapsed pid command ticks (some prev) samples =
      let percent =
        fl.mul (fl.div (fl.div (fl.of_u64 (ticks - prev)) clk_tck) elapsed) (fl.lit 1000 1) in
      if fl.lt (zero_f fl) elapsed
      then if fl.lt (zero_f fl) percent
        then record { pid = pid; command = command; cpu_percent = percent } ∷ samples
        else samples
      else samples

  -- `sort_by` on the percentage, the largest first; it is stable.
  unfoldable pub insert_sample :
      ProcessCpuSample R → List (ProcessCpuSample R) → List (ProcessCpuSample R)
  insert_sample s [] = s ∷ []
  insert_sample s (t ∷ ts) =
      let rest = insert_sample s ts in
      if proc.total_cmp_le t.cpu_percent s.cpu_percent then s ∷ t ∷ ts else t ∷ rest

  unfoldable pub sort_samples : List (ProcessCpuSample R) → List (ProcessCpuSample R)
  unfolding insert_sample
  sort_samples [] = []
  sort_samples (s ∷ ss) = insert_sample s (sort_samples ss)

  abbrev pub Scan : Type 0
  Scan = List (ProcessCpuSample R) × Times × W

  abbrev pub scan_read :
      R
      → R
      → Times
      → ℕ
      → Result String String
      → List (ProcessCpuSample R) × Times
      → List (ProcessCpuSample R) × Times
  scan_read clk_tck elapsed prev pid (err e) found = found
  scan_read clk_tck elapsed prev pid (ok stat) (samples, seen) = elim (parse_process stat) [
    | none ↦ (samples, seen)
    | some (command, rest) ↦ (
      sample_of clk_tck elapsed pid command (ticks_of rest) (get pid prev) samples,
      (pid, ticks_of rest) ∷ seen,
    )
  ]

  abbrev pub scan_entry : R → R → Times → Option ℕ → Scan → Scan
  scan_entry clk_tck elapsed prev none found = found
  scan_entry clk_tck elapsed prev (some pid) (samples, seen, w) =
      let (stat, w₁) =
        proc.read_to_string (format ("/proc/" ∷ proc.show_pid pid ∷ "/stat" ∷ [])) w in
      let next = scan_read clk_tck elapsed prev pid stat (samples, seen) in (next.0, next.1, w₁)

  -- The samples in reverse order of the entries.
  abbrev pub scan : R → R → Times → List String → Scan → Scan
  scan clk_tck elapsed prev [] found = found
  scan clk_tck elapsed prev (name ∷ names) found =
      scan clk_tck elapsed prev names (scan_entry clk_tck elapsed prev (parse_pid name) found)

  abbrev pub reversed :
      List (ProcessCpuSample R) → List (ProcessCpuSample R) → List (ProcessCpuSample R)
  reversed [] out = out
  reversed (s ∷ ss) out = reversed ss (s ∷ out)

  abbrev pub top_of : R → R → Times → Result (List String) String → W → Scan
  top_of clk_tck elapsed prev (err e) w = ([], prev, w)
  top_of clk_tck elapsed prev (ok names) w =
      let (samples, seen, w₁) = scan clk_tck elapsed prev names ([], [], w) in
      (take 5 (sort_samples (reversed samples [])), seen, w₁)

  -- The five busiest processes, the ticks of all, and what is read later.
  unfoldable pub top_processes : R → R → Times → W → Scan
  unfolding parse_process sample_of sort_samples parse_pid
  top_processes clk_tck elapsed prev w =
      let (entries, w₁) = proc.read_dir "/proc" w in top_of clk_tck elapsed prev entries w₁
