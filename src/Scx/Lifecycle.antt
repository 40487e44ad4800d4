-- ===== src/Scx/Lifecycle.antt =====
-- services/cerynthd/src/backends/scx.rs, the methods of `Backend` but `stop`.
use cerynth_os.Base.{
  ℕ, String, Bool, true, false, Option, none, some, [], ◌∷◌, Result, ok, err, format, if◌then◌else◌,
}
use cerynth_os.Ipc.Profiles.{Profile, profile_name, SchedulerStatus, scx}
use cerynth_os.Daemon.Ops.{Op, pure, fail, ◌>>=◌}
use cerynth_os.Scx.Os.{Os}
use cerynth_os.Scx.Health.{scx_state_path, heartbeat_path, read_scx_state_from, heartbeat_is_fresh}
use cerynth_os.Scx.Backend.{Machine, start_timeout_secs, reap_child, wait_until_healthy}
use cerynth_os.Scx.Stop.{stop}

module _ {W J : Type 0} (os : Os W J) where
  -- `let _ = self.stop(); return Err(error)`: the result of `stop` is dropped, its effect is not.
  abbrev pub instead :
      String
      → Option (Result (Unit {0}) String × Machine W)
      → Option (Result (Unit {0}) String × Machine W)
  instead error none = none
  instead error (some (r, m)) = some (err error, m)

  abbrev pub give_up : String → Op (Machine W) (Unit {0})
  give_up error m = instead error (stop os m)

  abbrev pub or_give_up :
      Option (Result (Unit {0}) String × Machine W) → Option (Result (Unit {0}) String × Machine W)
  or_give_up none = none
  or_give_up (some (ok u, m)) = some (ok tt, m)
  or_give_up (some (err e, m)) = give_up e m

  unfoldable pub ensure_healthy_startup : ℕ → Op (Machine W) (Unit {0})
  ensure_healthy_startup secs m = or_give_up (wait_until_healthy os secs m)

  abbrev pub already_running : String
  already_running = "scheduler is already running"

  -- The child that `spawn` returns is tracked before the safety gate.
  unfoldable pub adopt : Result ℕ String → Op (Machine W) (Unit {0})
  adopt (ok id) m =
      ensure_healthy_startup start_timeout_secs
        (record m { backend = record m.backend { pid = some id; child = some id } })
  adopt (err e) m = fail (format ("failed to spawn scheduler: " ∷ e ∷ [])) m

  unfoldable pub spawn_scheduler : Op (Machine W) (Unit {0})
  spawn_scheduler m =
      let b = m.backend in
      let (found, w) = os.path_exists b.scheduler_binary m.world in
      let (spawned, w') =
        os.spawn b.scheduler_binary ("--profile" ∷ profile_name b.profile ∷ []) w in
      if found
      then adopt spawned (record m { world = w' })
      else fail (format ("scheduler binary not found: " ∷ b.scheduler_binary ∷ []))
          (record m { world = w })

  unfoldable pub start_if_stopped : Option ℕ → Op (Machine W) (Unit {0})
  start_if_stopped (some pid) m = fail already_running m
  start_if_stopped none m = spawn_scheduler m

  unfoldable pub start : Op (Machine W) (Unit {0})
  start = reap_child os >>= λ _ m. start_if_stopped m.backend.pid m

  unfoldable pub use_profile : Profile → Op (Machine W) (Unit {0})
  use_profile profile m = pure tt (record m { backend = record m.backend { profile = profile } })

  unfoldable pub change_profile : Profile → Option ℕ → Op (Machine W) (Unit {0})
  change_profile profile none = use_profile profile
  change_profile profile (some pid) = stop os >>= λ _. use_profile profile >>= λ _. start

  unfoldable pub set_profile : Profile → Op (Machine W) (Unit {0})
  set_profile profile = reap_child os >>= λ _ m. change_profile profile m.backend.pid m

  unfoldable pub get_profile : Machine W → Result Profile String
  get_profile m = ok m.backend.profile

  unfoldable pub pause_adaptation : Op (Machine W) (Unit {0})
  pause_adaptation m =
      pure tt (record m { backend = record m.backend { adaptation_enabled = false } })

  unfoldable pub resume_adaptation : Op (Machine W) (Unit {0})
  resume_adaptation m =
      pure tt (record m { backend = record m.backend { adaptation_enabled = true } })

  unfoldable pub stop_if_running : Option ℕ → Op (Machine W) (Unit {0})
  stop_if_running none = pure tt
  stop_if_running (some pid) = stop os

  unfoldable pub restart : Op (Machine W) (Unit {0})
  restart = reap_child os >>= λ _ m. (stop_if_running m.backend.pid >>= λ _. start) m

  -- `self.pid.is_some_and(|pid| heartbeat_is_fresh(&heartbeat_path(), pid))`.
  unfoldable pub own_heartbeat : Option ℕ → W → Bool × W
  own_heartbeat none w = (false, w)
  own_heartbeat (some pid) w = heartbeat_is_fresh os (heartbeat_path os w) pid w

  abbrev pub is_some : Option ℕ → Bool
  is_some none = false
  is_some (some n) = true

  unfoldable pub report_status : Op (Machine W) SchedulerStatus
  report_status m =
      let b = m.backend in
      let (state, w) = read_scx_state_from os (scx_state_path os m.world) m.world in
      let (fresh, w') = own_heartbeat b.pid w in
      pure
        (record {
          profile = b.profile;
          adaptation_enabled = b.adaptation_enabled;
          backend = scx;
          running = is_some b.pid;
          sched_ext_state = state;
          heartbeat_ok = fresh;
        })
        (record m { world = w' })

  unfoldable pub status : Op (Machine W) SchedulerStatus
  status = reap_child os >>= λ _. report_status
