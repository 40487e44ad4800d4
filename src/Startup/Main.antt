-- ===== src/Startup/Main.antt =====
-- services/cerynthd/src/main.rs: `main`, from the files that it loads to the end of the server. The
-- banner that it prints is left out.
pub mod Boot
pub mod Serving
pub mod Promised
pub mod Conversing
use cerynth_os.Base.{String, Bool, Option, none, some, List, Result, ℕ}
use cerynth_os.Config.Files.{Fs, TextCodec}
use cerynth_os.Config.Settings.{Config, RuntimeState, load_config, load_state}
use cerynth_os.Daemon.Listener.{Net, Event, Ended, start_server}
use cerynth_os.Scx.Os.{Os}
use cerynth_os.Startup.{DynBackend, config_path, state_path, choose_backend, auto_start}

-- The environment variables for the two paths and for the scheduler's binary.
pub record Variables : Type 0 where
  pub config_var : Option String
  pub state_var : Option String
  pub binary_var : Option String

module _ {W J F : Type 0} (os : Os W J) (fs : Fs F) (toml : TextCodec Config)
    (json : TextCodec RuntimeState) where
  abbrev pub loaded_config : Variables → F → Config
  loaded_config v f = load_config fs toml (config_path v.config_var) f

  abbrev pub loaded_state : Variables → F → RuntimeState
  loaded_state v f = load_state fs json (state_path v.state_var) f

  -- Up to the server: the backend behind the lock.
  unfoldable pub boot : Variables → F → W → Option (DynBackend W)
  unfolding auto_start choose_backend
  boot v f w =
      let config = loaded_config v f in
      auto_start os config.auto_start (choose_backend config (loaded_state v f) v.binary_var w)

  module _ {N : Type 0} (net : Net N) (socket : String) where
    abbrev pub run_server :
        List Event → N → Option (DynBackend W) → Option (DynBackend W × (List ℕ × Ended × N))
    run_server events n none = none
    run_server events n (some b) = some (b, start_server net socket events n)

    -- The backend with which the server begins, the connections that it spawns, and its end.
    unfoldable pub main :
        Variables → F → W → List Event → N → Option (DynBackend W × (List ℕ × Ended × N))
    unfolding boot
    main v f w events n = run_server events n (boot v f w)
