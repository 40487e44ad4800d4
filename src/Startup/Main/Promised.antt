-- ===== src/Startup/Main/Promised.antt =====
-- services/cerynthd/src/backends: both backends keep the contract of the trait, and so does the daemon that
-- begins with one of them.
use mathlib.Core.Path.{subst}
use cerynth_os.Base.{
  ℕ, ◌≡◌, refl, sym, ap, ◌∙◌, Bool, String, Option, none, some, List, Result, ok, err, arith,
}
use cerynth_os.Ipc.Profiles.{Profile, SchedulerStatus}
use cerynth_os.Ipc.Messages.{Request, Response}
use cerynth_os.Config.Files.{Fs, TextCodec}
use cerynth_os.Config.Settings.{Config, RuntimeState}
use cerynth_os.Daemon.Ops.{Returns}
use cerynth_os.Daemon.Contract.{
  Settings, IsOutcome, Step, told_status, no_status, told_profile, switched, not_switched, paused,
  resumed, started, stopped, restarted, Steps, Obeys, Refines, serve_requests,
  serve_requests-AreServed,
}
use cerynth_os.Daemon.State.{DaemonState, mock_backend}
use cerynth_os.Daemon.Handlers.{respond, done, with_status, handle_request}
use cerynth_os.Daemon.Threads.Invariant.{some_injective}
use cerynth_os.Scx.Os.{Os, Clocked}
use cerynth_os.Scx.Backend.{Machine}
use cerynth_os.Scx.Lifecycle.{get_profile, pause_adaptation, resume_adaptation}
use cerynth_os.Scx.Serving.{scx_backend}
use cerynth_os.Scx.Stopping.{IsTracked, PollFailed, Halted, stop_lem}
use cerynth_os.Scx.Running.{Started, start_lem, restart_lem}
use cerynth_os.Scx.Switching.{Switched, set_profile_lem, Reported, status_lem}
use cerynth_os.Startup.{DynBackend, mocked, driven, as_driven, dyn_backend}
use cerynth_os.Startup.Restart.{settings}
use cerynth_os.Startup.Main.{Variables, loaded_state, boot}
use cerynth_os.Startup.Main.Boot.{InStep, boot_lem}
use cerynth_os.Startup.Main.Serving.{driven_request}

abbrev pub as_settings : Profile × Bool → Settings
as_settings (p, a) = record { profile = p; adaptation_enabled = a }

abbrev pub view : {W : Type 0} → DynBackend W → Settings
view b = as_settings (settings b)

module _ {W J : Type 0} (os : Os W J) (t : Clocked os) where
  -- The message of a poll of a child that failed.
  abbrev pub CannotPoll : String → Type 0
  CannotPoll e = (c : ℕ) × (w : W) × PollFailed os t (some c) w e

  PollFailed-CannotPoll : (c : Option ℕ) (w : W) (e : String) → PollFailed os t c w e → CannotPoll e
  unfolding PollFailed
  PollFailed-CannotPoll none w e h = absurd h
  PollFailed-CannotPoll (some c) w e h = (c, w, h)

  abbrev machine_view : Machine W → Settings
  machine_view m = record {
    profile = m.backend.profile;
    adaptation_enabled = m.backend.adaptation_enabled;
  }

  abbrev ObeysScx : Settings → Request → Option (Response × Machine W) → Type 0
  ObeysScx = Obeys CannotPoll (λ m. IsTracked m.backend) machine_view

  respond-Obeys :
      {A : Type 0} (f : Result A String → Response) (o : Option (Result A String × Machine W))
      (Q : Result A String → Machine W → Type 0) (s : Settings) (r : Request)
      → Returns o Q
      → ((x : Result A String) (m : Machine W)
          → Q x m
          → Step CannotPoll s r (f x) (machine_view m) × IsTracked m.backend)
      → ObeysScx s r (respond f o)
  respond-Obeys f none Q s r h k = h
  respond-Obeys f (some (x, m)) Q s r h k = k x m h

  done-IsOutcome : (x : Result (Unit {0}) String) → IsOutcome (done x)
  unfolding done
  done-IsOutcome (ok u) = tt
  done-IsOutcome (err e) = tt

  module _ (m : Machine W) (h : IsTracked m.backend) where
    same_view :
        (n : Machine W) (r : Request) (a : Response)
        → n.backend.profile ≡ m.backend.profile
        → n.backend.adaptation_enabled ≡ m.backend.adaptation_enabled
        → Step CannotPoll (machine_view m) r a (machine_view m)
        → Step CannotPoll (machine_view m) r a (machine_view n)
    same_view n r a p q step =
        subst (λ s. Step CannotPoll (machine_view m) r a s) (sym (ground arith)) step

    Started-view :
        (r : Request) (x : Result (Unit {0}) String) (n : Machine W)
        → Started os t m x n
        → Step CannotPoll (machine_view m) r (done x) (machine_view m)
        → Step CannotPoll (machine_view m) r (done x) (machine_view n) × IsTracked n.backend
    Started-view r (ok u) n k step =
        (same_view n r _ (ground arith) (ground arith) step, ground arith)
    Started-view r (err e) n k step =
        (same_view n r _ (ground arith) (ground arith) step, ground arith)

    Halted-view :
        (x : Result (Unit {0}) String) (n : Machine W)
        → Halted os t m x n
        → Step CannotPoll (machine_view m) Request.stop (done x) (machine_view n)
          × IsTracked n.backend
    Halted-view (ok u) n k = (
      same_view n _ _ (ground arith) (ground arith) (stopped (done-IsOutcome (ok u))),
      ground arith,
    )
    Halted-view (err e) n k = (
      same_view n _ _ (ground arith) (ground arith) (stopped (done-IsOutcome (err e))),
      ground arith,
    )

    Switched-view :
        (p : Profile) (x : Result (Unit {0}) String) (n : Machine W)
        → Switched os t p m x n
        → Step CannotPoll (machine_view m) (Request.set_profile p) (done x) (machine_view n)
          × IsTracked n.backend
    unfolding done
    Switched-view p (ok u) n k = (
      subst (λ s. Step CannotPoll (machine_view m) (Request.set_profile p) Response.success s)
          (ground arith) switched,
      ground arith,
    )
    Switched-view p (err e) n k = (
      subst (λ s. Step CannotPoll (machine_view m) (Request.set_profile p) (Response.error e) s)
          (ground arith) (not_switched {q = n.backend.profile} (ground arith)),
      ground arith,
    )

    Reported-view :
        (x : Result SchedulerStatus String) (n : Machine W)
        → Reported os t m x n
        → Step CannotPoll (machine_view m) Request.status (with_status x) (machine_view n)
          × IsTracked n.backend
    unfolding with_status
    Reported-view (ok s) n k = (
      same_view n _ _ (ground (arith, k.0.1)) (ground (arith, k.0.1))
          (told_status (ground arith) (ground arith)),
      ground (arith, k.0.1),
    )
    Reported-view (err e) n k = (
      same_view n _ _ (ground arith) (ground arith)
          (no_status (PollFailed-CannotPoll m.backend.child m.world e k.2)),
      ground arith,
    )

  scx-ObeysScx :
      (r : Request) (m : Machine W)
      → IsTracked m.backend
      → ObeysScx (machine_view m) r (handle_request (scx_backend os) r m)
  unfolding handle_request scx_backend pause_adaptation resume_adaptation get_profile
  scx-ObeysScx Request.status m h =
      respond-Obeys with_status _ (Reported os t m) _ _ (status_lem os t m h) (Reported-view m h)
  scx-ObeysScx Request.get_profile m h = (told_profile refl, h)
  scx-ObeysScx (Request.set_profile p) m h =
      respond-Obeys done _ (Switched os t p m) _ _ (set_profile_lem os t p m h)
        (Switched-view m h p)
  scx-ObeysScx Request.pause_adaptation m h = (paused, h)
  scx-ObeysScx Request.resume_adaptation m h = (resumed, h)
  scx-ObeysScx Request.start m h =
      respond-Obeys done _ (Started os t m) _ _ (start_lem os t m h)
        (λ x n k. Started-view m h Request.start x n k (started (done-IsOutcome x)))
  scx-ObeysScx Request.stop m h =
      respond-Obeys done _ (Halted os t m) _ _ (stop_lem os t m h) (Halted-view m h)
  scx-ObeysScx Request.restart m h =
      respond-Obeys done _ (Started os t m) _ _ (restart_lem os t m h)
        (λ x n k. Started-view m h Request.restart x n k (restarted (done-IsOutcome x)))

  mock-Obeys :
      (r : Request) (s : DaemonState)
      → let b : DynBackend W = mocked s in
        Obeys CannotPoll InStep view (view b) r (handle_request (dyn_backend os) r b)
  unfolding handle_request dyn_backend mock_backend
  mock-Obeys Request.status s = (told_status refl refl, tt)
  mock-Obeys Request.get_profile s = (told_profile refl, tt)
  mock-Obeys (Request.set_profile p) s = (switched, tt)
  mock-Obeys Request.pause_adaptation s = (paused, tt)
  mock-Obeys Request.resume_adaptation s = (resumed, tt)
  mock-Obeys Request.start s = (started tt, tt)
  mock-Obeys Request.stop s = (stopped tt, tt)
  mock-Obeys Request.restart s = (restarted tt, tt)

  as_driven-Obeys :
      (s : Settings) (r : Request) (o : Option (Response × Machine W))
      → ObeysScx s r o
      → Obeys CannotPoll InStep view s r (as_driven os o)
  as_driven-Obeys s r none h = h
  as_driven-Obeys s r (some (a, m)) h = h

  dyn-Obeys :
      (r : Request) (b : DynBackend W)
      → InStep b
      → Obeys CannotPoll InStep view (view b) r (handle_request (dyn_backend os) r b)
  dyn-Obeys r (mocked s) h = mock-Obeys r s
  dyn-Obeys r (driven m) h = rw (driven_request os t r m) (
      as_driven-Obeys (machine_view m) r (handle_request (scx_backend os) r m) (scx-ObeysScx r m h))

  -- Both backends keep the contract.
  pub dyn_backend-Refines : Refines CannotPoll InStep view (dyn_backend os)
  dyn_backend-Refines = record { obeys = dyn-Obeys }

  -- On a clock that never runs backwards, the backend that a daemon begins to serve with after
  -- its start-up, whichever it is, answers every sequence of requests as the trait promises,
  -- beginning with the profile and the adaptation switch of the state that was loaded: a status
  -- and a profile are reported as they are, and instead of a status there is an error only with
  -- the message of a poll of a child that failed; a profile that was set is in force, one that
  -- could not be set may be or not; pausing and resuming turn the switch off and on; starting,
  -- stopping and restarting succeed or fail, and change neither. Afterwards the process id is
  -- that of the child.
  pub boot-Steps :
      {F : Type 0} (fs : Fs F) (toml : TextCodec Config) (json : TextCodec RuntimeState)
      (v : Variables) (f : F) (w : W) (b : DynBackend W) (rs : List Request)
      → boot os fs toml json v f w ≡ some b
      → (as' : List Response) × (b' : DynBackend W) × (serve_requests (dyn_backend os) rs b
          ≡ some (as', b'))
        × Steps CannotPoll
            (record {
              profile = (loaded_state os fs toml json v f).profile;
              adaptation_enabled = (loaded_state os fs toml json v f).adaptation_enabled;
            })
            rs
            as'
            (view b')
        × InStep b'
  boot-Steps fs toml json v f w b rs h =
      let (b₀, h₀, same₀, k₀) = boot_lem os t fs toml json v f w in
      let e = some_injective b₀ b (sym h₀ ∙ h) in
      let same = ap settings (sym e) ∙ same₀ in
      let (as', b', served, steps, k) =
        serve_requests-AreServed CannotPoll InStep view (dyn_backend os) dyn_backend-Refines rs b
          (subst InStep e k₀) in
      (
        as',
        b',
        served,
        subst (λ s. Steps CannotPoll s rs as' (view b')) (ap as_settings same) steps,
        k,
      )
