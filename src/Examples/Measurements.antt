-- ===== src/Examples/Measurements.antt =====
-- Telemetry from a /proc of one process.
use cerynth_os.Base.{ℕ, ◌+◌, ◌*◌, ◌≡◌, String, none, some, [], ◌∷◌, ok, leb}
use cerynth_os.Telemetry.Lifetimes.{get, contains, exited, count_short_lived, track}
use cerynth_os.Telemetry.Tracking.{track_lem}
use cerynth_os.Telemetry.Processes.{Proc}
use cerynth_os.Examples.Policies.{fixed}

-- Process 1 was seen at 0, process 2 at 10; now only 1 and 3 run.
track_lem_example :
    let (short_lived, times) = track fixed (λ n. n * 100) (1 ∷ 3 ∷ []) 12 ((1, 0) ∷ (2, 10) ∷ []) in
    (get 3 times ≡ some 12) × (short_lived ≡ 100)
unfolding get contains exited count_short_lived
track_lem_example = track_lem fixed (λ n. n * 100) (1 ∷ 3 ∷ []) 12 3 ((1, 0) ∷ (2, 10) ∷ [])

abbrev pub one_process : Proc ℕ String ℕ
one_process = record {
  instant_ns = λ w. (w, w + 1);
  unix_ms = λ w. (ok w, w);
  read_to_string = λ path w. (ok "cpu 1 2 3 4", w);
  read_dir = λ path w. (ok ("1" ∷ []), w);
  parse_f64 = λ s. none;
  total_cmp_le = leb;
  secs_f64 = λ n. n * 100;
  show_pid = λ n. "1";
  json_from_str = λ s. ok s;
  json_get = λ j key. none;
  json_as_str = λ j. none;
}
