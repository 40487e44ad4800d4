-- ===== src/Startup.antt =====
-- services/cerynthd/src/main.rs, paths.rs and server/listener.rs: how the daemon starts.
pub mod Restart
pub mod Main
use mathlib.Core.Option
use cerynth_os.Base.{String, Bool, Option, none, some, Result, ok, err, if◌then◌else◌}
use cerynth_os.Ipc.Profiles.{Profile, SchedulerBackend, mock, scx, SchedulerStatus}
use cerynth_os.Config.Settings.{Config, RuntimeState}
use cerynth_os.Daemon.Ops.{Op}
use cerynth_os.Daemon.State.{Backend, DaemonState, from_runtime, mock_backend}
use cerynth_os.Scx.Os.{Os}
use cerynth_os.Scx.Backend.{scx_new, with_adaptation, Machine}
use cerynth_os.Scx.Stop.{stop}
use cerynth_os.Scx.Lifecycle.{
  status, get_profile, set_profile, pause_adaptation, resume_adaptation, start, restart,
}

abbrev pub default_config_path : String
default_config_path = "/etc/cerynth/cerynth.toml"

abbrev pub default_state_path : String
default_state_path = "/var/lib/cerynth/state.json"

-- `resolve`: the value of an environment variable, or the default.
unfoldable pub resolve : Option String → String → String
resolve (some value) default = value
resolve none default = default

unfoldable pub config_path : Option String → String
unfolding resolve
config_path var = resolve var default_config_path

unfoldable pub state_path : Option String → String
unfolding resolve
state_path var = resolve var default_state_path

-- `Box<dyn Backend>`: one of the two backends.
pub data DynBackend (W : Type 0) : Type 0 where
  mocked : DaemonState → DynBackend W
  driven : Machine W → DynBackend W

-- The binary of the environment variable `CERYNTH_SCX_BINARY`, or that of the configuration.
unfoldable pub scheduler_binary : Option String → Config → String
unfolding resolve
scheduler_binary var config = resolve var config.scheduler_binary

-- The backend that `main` builds, with the persisted state and the world.
unfoldable pub choose_backend :
    {W : Type 0} → Config → RuntimeState → Option String → W → DynBackend W
unfolding from_runtime scx_new with_adaptation scheduler_binary
choose_backend config state var w =
    let daemon_state = from_runtime state in
    elim config.scheduler_backend [
      | mock ↦ mocked daemon_state
      | scx ↦ driven (record {
        backend =
            with_adaptation (scx_new (scheduler_binary var config) daemon_state.profile)
              daemon_state.adaptation_enabled;
        world = w;
      })
    ]

module _ {W J : Type 0} (os : Os W J) where
  abbrev pub as_driven : {A : Type 0} → Option (A × Machine W) → Option (A × DynBackend W)
  as_driven none = none
  as_driven (some (a, m)) = some (a, driven m)

  -- `start` of the backend that was chosen; the mock's does nothing.
  unfoldable pub start_backend : Op (DynBackend W) (Unit {0})
  start_backend (mocked s) = some (ok tt, mocked s)
  start_backend (driven m) = as_driven (start os m)

  -- A failed auto-start is only reported.
  unfoldable pub auto_start : Bool → DynBackend W → Option (DynBackend W)
  unfolding start_backend
  auto_start enabled b =
      if enabled then elim (start_backend b) [ none ↦ none | some (_, b') ↦ some b' ] else some b

  abbrev pub as_mocked : {A : Type 0} → Option (A × DaemonState) → Option (A × DynBackend W)
  as_mocked none = none
  as_mocked (some (a, s)) = some (a, mocked s)

  -- A call through `Box<dyn Backend>`: one operation for each of the two backends.
  abbrev pub dispatch : {A : Type 0} → Op DaemonState A → Op (Machine W) A → Op (DynBackend W) A
  dispatch f g (mocked s) = as_mocked (f s)
  dispatch f g (driven m) = as_driven (g m)

  abbrev pub profile_of : DynBackend W → Result Profile String
  profile_of (mocked s) = mock_backend.get_profile s
  profile_of (driven m) = get_profile os m

  unfoldable pub dyn_backend : Backend (DynBackend W)
  dyn_backend = record {
    status = dispatch mock_backend.status (status os);
    get_profile = profile_of;
    set_profile = λ p. dispatch (mock_backend.set_profile p) (set_profile os p);
    pause_adaptation = dispatch mock_backend.pause_adaptation (pause_adaptation os);
    resume_adaptation = dispatch mock_backend.resume_adaptation (resume_adaptation os);
    start = dispatch mock_backend.start (start os);
    stop = dispatch mock_backend.stop (stop os);
    restart = dispatch mock_backend.restart (restart os);
  }
