-- ===== src/Scx/Interleaving.antt =====
-- services/cerynthd/src/backends/scx.rs behind the lock of the daemon, under connections whose threads
-- interleave.
use cerynth_os.Base.{ℕ, ◌≡◌, ◌≢◌, refl, Bool, String, Option, none, some, List, Result}
use cerynth_os.Ipc.Profiles.{Profile, SchedulerStatus}
use cerynth_os.Ipc.Messages.{Request, Response}
use cerynth_os.Ipc.Envelopes.{RequestEnvelope, ResponseEnvelope}
use cerynth_os.Ipc.Frames.{Codec}
use cerynth_os.Config.Files.{Fs, TextCodec}
use cerynth_os.Config.Settings.{RuntimeState}
use cerynth_os.Daemon.Ops.{Returns}
use cerynth_os.Daemon.Handlers.{handle_request}
use cerynth_os.Daemon.Server.{Shared, Served}
use cerynth_os.Daemon.Threads.{Threads, finished, advance, Reach}
use cerynth_os.Daemon.Threads.Upkeep.{Stays, Reach-Kept}
use cerynth_os.Daemon.Threads.Progress.{advance-progress}
use cerynth_os.Scx.Os.{Os, Clocked}
use cerynth_os.Scx.Backend.{scx_new, with_adaptation, Machine}
use cerynth_os.Scx.Lifecycle.{status}
use cerynth_os.Scx.Stopping.{IsTracked}
use cerynth_os.Scx.Switching.{Reported, status_lem}
use cerynth_os.Scx.Serving.{scx_backend, IsAnswered, Reported-IsTracked, handle_request-IsAnswered}

module _ {W J : Type 0} (os : Os W J) (t : Clocked os) where
  abbrev pub InStep : Machine W → Type 0
  InStep m = IsTracked m.backend

  answered-Stays : (o : Option (Response × Machine W)) → IsAnswered os t o → Stays InStep o
  answered-Stays none h = h
  answered-Stays (some (a, m)) h = h

  Reported-Stays :
      (m : Machine W) (k : IsTracked m.backend)
      (o : Option (Result SchedulerStatus String × Machine W))
      → Returns o (Reported os t m)
      → Stays InStep o
  Reported-Stays m k none h = h
  Reported-Stays m k (some (r, n)) h = Reported-IsTracked os t m k r n h

  pub answers :
      (r : Request) (m : Machine W) → InStep m → Stays InStep (handle_request (scx_backend os) r m)
  answers r m k = answered-Stays _ (handle_request-IsAnswered os t r m k)

  pub reports : (m : Machine W) → InStep m → Stays InStep ((scx_backend os).status m)
  unfolding scx_backend
  reports m k = Reported-Stays m k (status os m) (status_lem os t m k)

  abbrev pub new_machine : String → Profile → Bool → W → Machine W
  new_machine binary p enabled w = record {
    backend = with_adaptation (scx_new binary p) enabled;
    world = w;
  }

  new_machine-InStep :
      (binary : String) (p : Profile) (enabled : Bool) (w : W)
      → InStep (new_machine binary p enabled w)
  unfolding scx_new with_adaptation
  new_machine-InStep binary p enabled w = refl

  -- On a clock that never runs backwards, and with the scheduler's backend new at the start:
  -- however the threads of the connections interleave, the process id is that of the child in
  -- every state that they reach, and as long as some connection has not finished a thread can
  -- take its next step: the lock never blocks them all, and no call of the backend under it runs
  -- for ever.
  pub advance-InStep :
      {F : Type 0} (fs : Fs F) (json : TextCodec RuntimeState) (requests : Codec RequestEnvelope)
      (responses : Codec ResponseEnvelope) (state_path : String)
      (input : ℕ → Result (List ℕ) String) (binary : String) (p : Profile) (enabled : Bool) (w : W)
      (f : F) (d : Threads (Machine W) F) (i : ℕ)
      → Reach
          (scx_backend os)
          fs
          json
          requests
          responses
          state_path
          input
          (record { backend = new_machine binary p enabled w; disk = f })
          d
      → ((out : Served) → d.phase i ≢ finished out)
      → InStep d.shared.backend
        × ((j : ℕ) × (next : Threads (Machine W) F) × (advance
                (scx_backend os)
                fs
                json
                requests
                responses
                state_path
                input
                j
                d
              ≡ some next))
  advance-InStep {F} fs json requests responses state_path input binary p enabled w f d i r busy =
      let sh : Shared (Machine W) F = record {
        backend = new_machine binary p enabled w;
        disk = f;
      } in
      let k = new_machine-InStep binary p enabled w in
      (
        Reach-Kept (scx_backend os) fs json requests responses state_path input InStep answers
            reports sh d k r,
        advance-progress (scx_backend os) fs json requests responses state_path input InStep sh d i
            answers reports k r busy,
      )
