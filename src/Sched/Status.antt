-- ===== src/Sched/Status.antt =====
-- schedulers/cerynth-scx/src/status.rs: the record that the daemon reads as the heartbeat.
use cerynth_os.Base.{ℕ, String, Bool, true, false, Option, none}

pub record SchedulerStatus : Type 0 where
  pub running : Bool
  pub pid : ℕ
  pub profile : String
  pub healthy : Bool
  pub started_at_ms : ℕ
  pub sched_ext_state : String
  pub heartbeat : ℕ
  pub exit_error : Option String

-- The process id, the `Debug` form of the profile and the time are arguments.
unfoldable pub running_status : ℕ → String → ℕ → ℕ → SchedulerStatus
running_status pid profile started_at_ms now = record {
  running = true;
  pid = pid;
  profile = profile;
  healthy = true;
  started_at_ms = started_at_ms;
  sched_ext_state = "enabled";
  heartbeat = now;
  exit_error = none;
}

unfoldable pub stopped_status : ℕ → String → ℕ → SchedulerStatus
stopped_status pid state now = record {
  running = false;
  pid = pid;
  profile = "";
  healthy = false;
  started_at_ms = 0;
  sched_ext_state = state;
  heartbeat = now;
  exit_error = none;
}
