-- ===== src/Startup/Restart.antt =====
-- services/cerynthd: the state saved after a request and the backend of the next start.
use cerynth_os.Base.{String, ◌≡◌, refl, ap, ◌∙◌, Bool, Option, some, ok, arith}
use cerynth_os.Ipc.Profiles.{Profile, SchedulerBackend, mock, scx, SchedulerStatus}
use cerynth_os.Ipc.Messages.{Response}
use cerynth_os.Ipc.Envelopes.{RequestEnvelope, ResponseEnvelope}
use cerynth_os.Ipc.Frames.{Codec}
use cerynth_os.Config.Files.{Fs, FsLaws, TextCodec}
use cerynth_os.Config.Settings.{Config, RuntimeState, make_parent, load_state, save_state}
use cerynth_os.Config.Persistence.{load_state-save_state}
use cerynth_os.Daemon.State.{Backend}
use cerynth_os.Daemon.Server.{Shared, state_of_status, persist}
use cerynth_os.Startup.{DynBackend, mocked, driven, choose_backend}

-- The profile and the adaptation switch of a backend.
abbrev pub settings : {W : Type 0} → DynBackend W → Profile × Bool
settings (mocked s) = (s.profile, s.adaptation_enabled)
settings (driven m) = (m.backend.profile, m.backend.adaptation_enabled)

pub choose_backend-settings :
    {W : Type 0} (k : SchedulerBackend) (config : Config) (state : RuntimeState)
    (var : Option String) (w : W)
    → config.scheduler_backend ≡ k
    → settings (choose_backend config state var w) ≡ (state.profile, state.adaptation_enabled)
unfolding choose_backend
choose_backend-settings mock config state var w e = ground arith
choose_backend-settings scx config state var w e = ground arith

module _ {S F : Type 0} (b : Backend S) (fs : Fs F) (laws : FsLaws fs)
    (json : TextCodec RuntimeState) (requests : Codec RequestEnvelope)
    (responses : Codec ResponseEnvelope) (path : String) where
  -- If the directory can be made, the state can be encoded and the write succeeds, a daemon that
  -- starts from the file saved after a request has the profile and the adaptation switch of the
  -- status saved, whichever backend its configuration chooses and whatever default profile it
  -- names.
  pub choose_backend-persist :
      {W : Type 0} (a : Response) (sh : Shared S F) (status : SchedulerStatus) (s : S)
      (text : String) (config : Config) (var : Option String) (w : W)
      → b.status sh.backend ≡ some (ok status, s)
      → (make_parent fs (fs.parent path) sh.disk).0 ≡ ok tt
      → json.to_string_pretty (state_of_status status) ≡ ok text
      → (fs.write path text (make_parent fs (fs.parent path) sh.disk).1).0 ≡ ok tt
      → (sh' : Shared S F) × (persist b fs json requests responses path a sh ≡ some (a, sh'))
        × (settings (choose_backend config (load_state fs json path sh'.disk) var w)
            ≡ (status.profile, status.adaptation_enabled))
  unfolding persist state_of_status
  choose_backend-persist a sh status s text config var w reported made encoded written = (
    record { backend = s; disk = save_state fs json (state_of_status status) path sh.disk },
    ground arith,
    choose_backend-settings config.scheduler_backend config _ var w refl
        ∙ ap (λ (r : RuntimeState). (r.profile, r.adaptation_enabled))
            (load_state-save_state fs laws json (state_of_status status) path text sh.disk made
              encoded written),
  )
