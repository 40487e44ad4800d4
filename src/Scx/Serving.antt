-- ===== src/Scx/Serving.antt =====
-- services/cerynthd/src/backends/scx.rs behind the trait `Backend`, under sequences of requests.
use cerynth_os.Base.{
  ◌≡◌, refl, Bool, String, Option, none, some, List, [], ◌∷◌, Result, ok, err, arith, length,
}
use cerynth_os.Ipc.Profiles.{Profile, SchedulerStatus}
use cerynth_os.Ipc.Messages.{Request, Response}
use cerynth_os.Daemon.Ops.{Returns}
use cerynth_os.Daemon.State.{Backend}
use cerynth_os.Daemon.Handlers.{respond, done, with_status, handle_request}
use cerynth_os.Scx.Os.{Os, Clocked}
use cerynth_os.Scx.Backend.{scx_new, with_adaptation, Machine}
use cerynth_os.Scx.Stop.{stop}
use cerynth_os.Scx.Lifecycle.{
  status, get_profile, set_profile, pause_adaptation, resume_adaptation, start, restart,
}
use cerynth_os.Scx.Stopping.{IsTracked, Halted, stop_lem}
use cerynth_os.Scx.Running.{Started, start_lem, restart_lem}
use cerynth_os.Scx.Switching.{Switched, set_profile_lem, Reported, status_lem}

module _ {W J : Type 0} (os : Os W J) where
  -- `impl Backend for ScxBackend`.
  unfoldable pub scx_backend : Backend (Machine W)
  scx_backend = record {
    status = status os;
    get_profile = get_profile os;
    set_profile = set_profile os;
    pause_adaptation = pause_adaptation os;
    resume_adaptation = resume_adaptation os;
    start = start os;
    stop = stop os;
    restart = restart os;
  }

  -- The requests that arrive at the daemon, one after the other under the lock.
  abbrev pub after_answer :
      Option (Response × Machine W)
      → (Machine W → Option (List Response × Machine W))
      → Option (List Response × Machine W)
  after_answer none rest = none
  after_answer (some (a, m)) rest = elim (rest m) [
    | none ↦ none
    | some (as', m') ↦ some (a ∷ as', m')
  ]

  pub handle_requests : List Request → Machine W → Option (List Response × Machine W)
  handle_requests [] m = some ([], m)
  handle_requests (r ∷ rs) m =
      let rest = handle_requests rs in after_answer (handle_request scx_backend r m) rest

  module _ (t : Clocked os) where
    -- An answer, and a backend that is still in step.
    abbrev pub IsAnswered : Option (Response × Machine W) → Type 0
    IsAnswered none = ⊥
    IsAnswered (some (a, m)) = IsTracked m.backend

    answered :
        {A : Type 0} (f : Result A String → Response) (o : Option (Result A String × Machine W))
        (Q : Result A String → Machine W → Type 0)
        → Returns o Q
        → ((r : Result A String) (m : Machine W) → Q r m → IsTracked m.backend)
        → IsAnswered (respond f o)
    answered f none Q h k = h
    answered f (some (r, m)) Q h k = k r m h

    module _ (m : Machine W) (h : IsTracked m.backend) where
      Halted-IsTracked :
          (r : Result (Unit {0}) String) (n : Machine W) → Halted os t m r n → IsTracked n.backend
      Halted-IsTracked (ok u) n s = ground arith
      Halted-IsTracked (err e) n s = ground arith

      Started-IsTracked :
          (r : Result (Unit {0}) String) (n : Machine W) → Started os t m r n → IsTracked n.backend
      Started-IsTracked (ok u) n s = s.0.2
      Started-IsTracked (err e) n s = s.0.2

      Switched-IsTracked :
          (p : Profile) (r : Result (Unit {0}) String) (n : Machine W)
          → Switched os t p m r n
          → IsTracked n.backend
      Switched-IsTracked p (ok u) n s = s.0.3
      Switched-IsTracked p (err e) n s = s.0.3

      pub Reported-IsTracked :
          (r : Result SchedulerStatus String) (n : Machine W)
          → Reported os t m r n
          → IsTracked n.backend
      Reported-IsTracked (ok s) n k = ground arith
      Reported-IsTracked (err e) n k = ground arith

    -- On a clock that never runs backwards, and if the process id is that of the child, every
    -- request to the scheduler's backend is answered: none of the polling loops runs for ever.
    -- Afterwards the process id is again that of the child.
    pub handle_request-IsAnswered :
        (r : Request) (m : Machine W)
        → IsTracked m.backend
        → IsAnswered (handle_request scx_backend r m)
    unfolding handle_request scx_backend pause_adaptation resume_adaptation
    handle_request-IsAnswered Request.status m h =
        answered with_status _ (Reported os t m) (status_lem os t m h) (Reported-IsTracked m h)
    handle_request-IsAnswered Request.get_profile m h = h
    handle_request-IsAnswered (Request.set_profile p) m h =
        answered done _ (Switched os t p m) (set_profile_lem os t p m h) (Switched-IsTracked m h p)
    handle_request-IsAnswered Request.pause_adaptation m h = h
    handle_request-IsAnswered Request.resume_adaptation m h = h
    handle_request-IsAnswered Request.start m h =
        answered done _ (Started os t m) (start_lem os t m h) (Started-IsTracked m h)
    handle_request-IsAnswered Request.stop m h =
        answered done _ (Halted os t m) (stop_lem os t m h) (Halted-IsTracked m h)
    handle_request-IsAnswered Request.restart m h =
        answered done _ (Started os t m) (restart_lem os t m h) (Started-IsTracked m h)

    -- One response for each request, and a backend that is still in step.
    abbrev pub AreAnswered : List Request → Option (List Response × Machine W) → Type 0
    AreAnswered rs none = ⊥
    AreAnswered rs (some (as', m)) = (length as' ≡ length rs) × IsTracked m.backend

    requests_answered :
        (rs : List Request) (m : Machine W)
        → IsTracked m.backend
        → AreAnswered rs (handle_requests rs m)
    unfolding handle_requests
    requests_answered [] m h = (refl, h)
    requests_answered (r ∷ rs) m h =
        next (handle_request scx_backend r m) (handle_request-IsAnswered r m h)
          (λ n k. requests_answered rs n k)
      where
        next :
            (o : Option (Response × Machine W))
            → IsAnswered o
            → ((n : Machine W) → IsTracked n.backend → AreAnswered rs (handle_requests rs n))
            → AreAnswered (r ∷ rs) (after_answer o (handle_requests rs))
        next none k rest = k
        next (some (a, n)) k rest = ground (arith, rest n k)

    -- On a clock that never runs backwards, and from its construction on, the scheduler's backend
    -- answers every sequence of requests, one response each, and afterwards the process id is
    -- that of the child.
    pub handle_requests-AreAnswered :
        (binary : String) (p : Profile) (enabled : Bool) (w : W) (rs : List Request)
        → AreAnswered rs (
            handle_requests rs
              (record { backend = with_adaptation (scx_new binary p) enabled; world = w }))
    unfolding scx_new with_adaptation
    handle_requests-AreAnswered binary p enabled w rs = requests_answered rs _ refl
