-- ===== src/Telemetry/Record.antt =====
-- crates/cerynth-telemetry/src/bin/cerynth-telemetry-record.rs: a number of samples, one line each. The
-- arguments are parsed and the file is opened; the progress on stderr is left out.
use cerynth_os.Base.{
  ℕ, zero, suc, ◌*◌, ◌/◌, ◌%◌, ◌^◌, ◌≤◌, ◌≡◌, refl, ap, String, List, [], ◌∷◌, Result, ok, err,
  arith, length, max,
}
use cerynth_os.Policy.Floats.{Float64}
use cerynth_os.Telemetry.Samples.{SystemSnapshot}
use cerynth_os.Telemetry.Processes.{Proc}
use cerynth_os.Telemetry.Collect.{ProcTelemetrySource, Sampled, new_source, collect}

-- The product wraps around at 64 bits.
unfoldable pub iterations : ℕ → ℕ → ℕ
iterations interval_ms duration_seconds =
    max ((duration_seconds * 1000) % 2 ^ 64 / max interval_ms 1) 1

-- `serde_json::to_string`, `writeln!` with `flush`, and `sleep`.
pub record Output (W R : Type 0) : Type 0 where
  pub to_string : SystemSnapshot R → Result String String
  pub write_line : String → W → Result (Unit {0}) String × W
  pub sleep_ms : ℕ → W → W

module _ {W J R : Type 0} (fl : Float64 R) (proc : Proc W J R) (out : Output W R)
    (interval_ms : ℕ) where
  -- The lines that were written, how it has ended, and the world.
  abbrev pub Recorded : Type 0
  Recorded = List String × Result (Unit {0}) String × W

  abbrev pub written : String → (W → Recorded) → Result (Unit {0}) String × W → Recorded
  written line next (err e, w) = ([], err e, w)
  written line next (ok _, w) = let rest = next w in (line ∷ rest.0, rest.1, rest.2)

  abbrev pub encoded : (W → Recorded) → Result String String → W → Recorded
  encoded next (err e) w = ([], err e, w)
  encoded next (ok line) w = written line next (out.write_line line w)

  abbrev pub sampled : (ProcTelemetrySource R → W → Recorded) → Sampled fl proc → Recorded
  sampled next (err e, s, w) = ([], err e, w)
  sampled next (ok snapshot, s, w) = encoded (next s) (out.to_string snapshot) w

  -- It sleeps between two samples, not after the last.
  abbrev pub pause : ℕ → W → W
  pause zero w = w
  pause (suc left) w = out.sleep_ms (max interval_ms 1) w

  unfoldable pub record_samples : ℕ → ProcTelemetrySource R → W → Recorded
  record_samples zero s w = ([], ok tt, w)
  record_samples (suc left) s w =
      sampled (λ t v. record_samples left t (pause left v)) (collect fl proc s w)

  abbrev pub after_baseline : ℕ → Sampled fl proc → Recorded
  after_baseline n (err e, s, w) = ([], err e, w)
  after_baseline n (ok snapshot, s, w) = record_samples n s (out.sleep_ms (max interval_ms 1) w)

  -- The first sample is thrown away.
  unfoldable pub record_main : ℕ → ℕ → W → Recorded
  unfolding record_samples iterations
  record_main ticks duration_seconds w =
      after_baseline (iterations interval_ms duration_seconds)
        (collect fl proc (new_source fl ticks) w)

  abbrev pub Counts : ℕ → Recorded → Type 0
  Counts n (lines, ended, w) = ended ≡ ok tt → length lines ≡ n

  written-Counts :
      (n : ℕ) (line : String) (next : W → Recorded) (r : Result (Unit {0}) String × W)
      → ((v : W) → Counts n (next v))
      → Counts (suc n) (written line next r)
  written-Counts n line next (err e, w) k h = absurd (cc)
  written-Counts n line next (ok _, w) k h = ap suc (k w h)

  encoded-Counts :
      (n : ℕ) (next : W → Recorded) (r : Result String String) (w : W)
      → ((v : W) → Counts n (next v))
      → Counts (suc n) (encoded next r w)
  encoded-Counts n next (err e) w k h = absurd (cc)
  encoded-Counts n next (ok line) w k h = written-Counts n line next (out.write_line line w) k h

  sampled-Counts :
      (n : ℕ) (next : ProcTelemetrySource R → W → Recorded) (r : Sampled fl proc)
      → ((s : ProcTelemetrySource R) (v : W) → Counts n (next s v))
      → Counts (suc n) (sampled next r)
  sampled-Counts n next (err e, s, w) k h = absurd (cc)
  sampled-Counts n next (ok snapshot, s, w) k h =
      encoded-Counts n (next s) (out.to_string snapshot) w (k s) h

  samples-Counts : (n : ℕ) (s : ProcTelemetrySource R) (w : W) → Counts n (record_samples n s w)
  unfolding record_samples
  samples-Counts zero s w h = refl
  samples-Counts (suc n) s w h =
      sampled-Counts n (λ t v. record_samples n t (pause n v)) (collect fl proc s w)
        (λ t v. samples-Counts n t (pause n v)) h

  baseline-Counts : (n : ℕ) (r : Sampled fl proc) → Counts n (after_baseline n r)
  baseline-Counts n (err e, s, w) h = absurd (cc)
  baseline-Counts n (ok snapshot, s, w) h =
      samples-Counts n s (out.sleep_ms (max interval_ms 1) w) h

  -- If the recorder ends without an error, it has written one line for each of its iterations,
  -- and at least one.
  pub record_main_lem :
      (ticks duration_seconds : ℕ) (w : W)
      → (record_main ticks duration_seconds w).1 ≡ ok tt
      → (length (record_main ticks duration_seconds w).0 ≡ iterations interval_ms duration_seconds)
        × (1 ≤ length (record_main ticks duration_seconds w).0)
  unfolding record_main
  record_main_lem ticks duration_seconds w h =
      let n = iterations interval_ms duration_seconds in
      let counted = baseline-Counts n (collect fl proc (new_source fl ticks) w) h in
      (counted, ground (arith, counted))
