-- ===== src/Daemon/State.antt =====
-- services/cerynthd/src/state.rs, backend.rs and backends/mock.rs: the daemon's live state, the trait
-- `Backend` and its in-process implementation.
use cerynth_os.Base.{String, Bool, true, false, none, Result, ok}
use cerynth_os.Ipc.Profiles.{Profile, SchedulerBackend, SchedulerStatus}
use cerynth_os.Config.Settings.{RuntimeState}
use cerynth_os.Daemon.Ops.{Op, pure}

-- The trait. `get_profile` takes `&self`: it returns no new state.
pub record Backend (S : Type 0) : Type 0 where
  pub status : Op S SchedulerStatus
  pub get_profile : S → Result Profile String
  pub set_profile : Profile → Op S (Unit {0})
  pub pause_adaptation : Op S (Unit {0})
  pub resume_adaptation : Op S (Unit {0})
  pub start : Op S (Unit {0})
  pub stop : Op S (Unit {0})
  pub restart : Op S (Unit {0})

pub record DaemonState : Type 0 where
  pub profile : Profile
  pub adaptation_enabled : Bool
  pub scheduler_backend : SchedulerBackend

-- `From<RuntimeState> for DaemonState` and back.
unfoldable pub from_runtime : RuntimeState → DaemonState
from_runtime s = record {
  profile = s.profile;
  adaptation_enabled = s.adaptation_enabled;
  scheduler_backend = s.scheduler_backend;
}

unfoldable pub to_runtime : DaemonState → RuntimeState
to_runtime s = record {
  profile = s.profile;
  adaptation_enabled = s.adaptation_enabled;
  scheduler_backend = s.scheduler_backend;
}

unfoldable pub mock_status : Op DaemonState SchedulerStatus
mock_status s =
    pure
      (record {
        profile = s.profile;
        adaptation_enabled = s.adaptation_enabled;
        backend = s.scheduler_backend;
        running = true;
        sched_ext_state = none;
        heartbeat_ok = false;
      })
      s

unfoldable pub mock_set_profile : Profile → Op DaemonState (Unit {0})
mock_set_profile profile s = pure tt (record s { profile = profile })

unfoldable pub mock_adaptation : Bool → Op DaemonState (Unit {0})
mock_adaptation enabled s = pure tt (record s { adaptation_enabled = enabled })

-- `MockBackend`: its lifecycle methods do nothing.
unfoldable pub mock_backend : Backend DaemonState
unfolding mock_status mock_set_profile mock_adaptation
mock_backend = record {
  status = mock_status;
  get_profile = λ s. ok s.profile;
  set_profile = mock_set_profile;
  pause_adaptation = mock_adaptation false;
  resume_adaptation = mock_adaptation true;
  start = pure tt;
  stop = pure tt;
  restart = pure tt;
}
