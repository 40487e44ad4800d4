-- ===== src/Startup/Main/Serving.antt =====
-- services/cerynthd/src/main.rs: the connections that a new daemon serves, whichever backend it chose.
use mathlib.Core.Path.{subst}
use cerynth_os.Base.{sym, ℕ, ◌≡◌, refl, ◌∙◌, ◌≢◌, String, Option, none, some, List, Result}
use cerynth_os.Ipc.Messages.{Request, Response}
use cerynth_os.Ipc.Envelopes.{RequestEnvelope, ResponseEnvelope}
use cerynth_os.Ipc.Frames.{Codec}
use cerynth_os.Config.Files.{Fs, TextCodec}
use cerynth_os.Config.Settings.{Config, RuntimeState}
use cerynth_os.Daemon.State.{DaemonState, mock_backend}
use cerynth_os.Daemon.Handlers.{respond, done, with_status, handle_request}
use cerynth_os.Daemon.Server.{Shared, Served}
use cerynth_os.Daemon.Threads.{Threads, finished, advance, Reach}
use cerynth_os.Daemon.Threads.Invariant.{some_injective}
use cerynth_os.Daemon.Threads.Upkeep.{Stays, Reach-Kept}
use cerynth_os.Daemon.Threads.Progress.{advance-progress}
use cerynth_os.Scx.Os.{Os, Clocked}
use cerynth_os.Scx.Backend.{Machine}
use cerynth_os.Scx.Lifecycle.{status}
use cerynth_os.Scx.Serving.{scx_backend}
use cerynth_os.Scx.Interleaving
use cerynth_os.Startup.{DynBackend, mocked, driven, as_driven, dyn_backend}
use cerynth_os.Startup.Main.{Variables, boot}
use cerynth_os.Startup.Main.Boot.{InStep, boot_lem}

module _ {W J : Type 0} (os : Os W J) (t : Clocked os) where
  driven-Stays :
      {A : Type 0} (o : Option (A × Machine W))
      → Stays (Interleaving.InStep os t) o
      → Stays InStep (as_driven os o)
  driven-Stays none h = h
  driven-Stays (some (a, m)) h = h

  respond-as_driven :
      {A : Type 0} (f : A → Response) (o : Option (A × Machine W))
      → respond f (as_driven os o) ≡ as_driven os (respond f o)
  respond-as_driven f none = refl
  respond-as_driven f (some (a, m)) = refl

  pub driven_request :
      (r : Request) (m : Machine W)
      → handle_request (dyn_backend os) r (driven m)
        ≡ as_driven os (handle_request (scx_backend os) r m)
  unfolding handle_request dyn_backend scx_backend
  driven_request Request.status m = respond-as_driven with_status (status os m)
  driven_request Request.get_profile m = refl
  driven_request (Request.set_profile p) m = respond-as_driven done _
  driven_request Request.pause_adaptation m = respond-as_driven done _
  driven_request Request.resume_adaptation m = respond-as_driven done _
  driven_request Request.start m = respond-as_driven done _
  driven_request Request.stop m = respond-as_driven done _
  driven_request Request.restart m = respond-as_driven done _

  mocked_request :
      (r : Request) (s : DaemonState) → Stays InStep (handle_request (dyn_backend os) r (mocked s))
  unfolding handle_request dyn_backend mock_backend
  mocked_request Request.status s = tt
  mocked_request Request.get_profile s = tt
  mocked_request (Request.set_profile p) s = tt
  mocked_request Request.pause_adaptation s = tt
  mocked_request Request.resume_adaptation s = tt
  mocked_request Request.start s = tt
  mocked_request Request.stop s = tt
  mocked_request Request.restart s = tt

  answers :
      (r : Request) (b : DynBackend W)
      → InStep b
      → Stays InStep (handle_request (dyn_backend os) r b)
  answers r (mocked s) h = mocked_request r s
  answers r (driven m) h =
      rw (driven_request r m)
        (driven-Stays (handle_request (scx_backend os) r m) (Interleaving.answers os t r m h))

  reports : (b : DynBackend W) → InStep b → Stays InStep ((dyn_backend os).status b)
  unfolding dyn_backend scx_backend mock_backend
  reports (mocked s) h = tt
  reports (driven m) h = driven-Stays (status os m) (Interleaving.reports os t m h)

  module _ {F : Type 0} (fs : Fs F) (toml : TextCodec Config) (json : TextCodec RuntimeState)
      (requests : Codec RequestEnvelope) (responses : Codec ResponseEnvelope) (path : String)
      (input : ℕ → Result (List ℕ) String) where
    -- On a clock that never runs backwards, and whichever backend a daemon begins to serve with
    -- after its start-up: however the threads of the connections interleave, the process id is
    -- that of the child in every state that they reach, and as long as some connection has not
    -- finished a thread can take its next step: the lock never blocks them all, and no call of
    -- the backend under it runs for ever.
    pub boot-serves :
        (v : Variables) (f g : F) (w : W) (b : DynBackend W) (d : Threads (DynBackend W) F) (i : ℕ)
        → boot os fs toml json v f w ≡ some b
        → Reach
            (dyn_backend os)
            fs
            json
            requests
            responses
            path
            input
            (record { backend = b; disk = g })
            d
        → ((out : Served) → d.phase i ≢ finished out)
        → InStep d.shared.backend
          × ((j : ℕ) × (next : Threads (DynBackend W) F) × (advance
                  (dyn_backend os)
                  fs
                  json
                  requests
                  responses
                  path
                  input
                  j
                  d
                ≡ some next))
    boot-serves v f g w b d i h r busy =
        let sh : Shared (DynBackend W) F = record { backend = b; disk = g } in
        let (b', h', same, k') = boot_lem os t fs toml json v f w in
        let k = subst InStep (some_injective b' b (sym h' ∙ h)) k' in
        (
          Reach-Kept (dyn_backend os) fs json requests responses path input InStep answers reports
              sh d k r,
          advance-progress (dyn_backend os) fs json requests responses path input InStep sh d i
              answers reports k r busy,
        )
