-- ===== src/Scx/Os.antt =====
-- What services/cerynthd/src/backends/scx.rs uses of the operating system and of `serde_json`.
-- `W` is the state of the world outside the daemon and `J` the type `serde_json::Value`.
use cerynth_os.Base.{ℕ, ◌+◌, ◌≤◌, String, Bool, Option, List, Result}

-- `Child::try_wait`.
pub data Polled : Type 0 where
  exited : Polled
  running : Polled
  failed : String → Polled

-- `libc::kill`: 0, ESRCH, or another error.
pub data Killed : Type 0 where
  delivered : Killed
  no_process : Killed
  refused : String → Killed

-- The signals sent; `probe` is the signal 0.
pub data Signal : Type 0 where
  probe sigterm sigkill : Signal

-- A child is named by its process id, which is what `Child::id` returns.
pub record Os (W J : Type 0) : Type 0 where
  pub try_wait : ℕ → W → Polled × W
  pub wait : ℕ → W → Result (Unit {0}) String × W
  pub kill : ℕ → Signal → W → Killed × W
  pub spawn : String → List String → W → Result ℕ String × W
  pub path_exists : String → W → Bool × W
  pub env_var : String → W → Option String
  pub read_to_string : String → W → Result String String × W
  pub instant_ms : W → ℕ × W
  pub unix_secs : W → Option ℕ × W
  pub sleep_ms : ℕ → W → W
  pub json_from_str : String → Option J
  pub json_get : J → String → Option J
  pub json_as_u64 : J → Option ℕ
  pub json_as_bool : J → Option Bool

-- `Instant` never runs backwards, and `thread::sleep` lasts at least as long as it is told.
pub record Clocked {W J : Type 0} (os : Os W J) : Type 0 where
  pub clock : W → ℕ
  pub instant_before : (w : W) → clock w ≤ (os.instant_ms w).0
  pub instant_after : (w : W) → (os.instant_ms w).0 ≤ clock (os.instant_ms w).1
  pub sleep_lasts : (d : ℕ) (w : W) → clock w + d ≤ clock (os.sleep_ms d w)
  pub try_wait_mono : (c : ℕ) (w : W) → clock w ≤ clock (os.try_wait c w).1
  pub wait_mono : (c : ℕ) (w : W) → clock w ≤ clock (os.wait c w).1
  pub kill_mono : (p : ℕ) (s : Signal) (w : W) → clock w ≤ clock (os.kill p s w).1
  pub spawn_mono : (b : String) (a : List String) (w : W) → clock w ≤ clock (os.spawn b a w).1
  pub exists_mono : (p : String) (w : W) → clock w ≤ clock (os.path_exists p w).1
  pub read_mono : (p : String) (w : W) → clock w ≤ clock (os.read_to_string p w).1
  pub unix_mono : (w : W) → clock w ≤ clock (os.unix_secs w).1
