-- ===== src/Daemon/Contract.antt =====
-- services/cerynthd/src/backend.rs: what the trait `Backend` promises to the daemon, whichever backend
-- stands behind it: the profile and the adaptation switch, and how requests change them.
use cerynth_os.Base.{
  ◌≡◌, refl, ap, ◌⊎◌, Bool, true, false, String, Option, none, some, List, [], ◌∷◌,
}
use cerynth_os.Ipc.Profiles.{Profile, SchedulerStatus}
use cerynth_os.Ipc.Messages.{Request, Response}
use cerynth_os.Daemon.State.{Backend}
use cerynth_os.Daemon.Handlers.{handle_request}

-- The profile and the adaptation switch.
pub record Settings : Type 0 where
  pub profile : Profile
  pub adaptation_enabled : Bool

-- Success or an error.
abbrev pub IsOutcome : Response → Type 0
IsOutcome (Response.status s) = ⊥
IsOutcome (Response.profile p) = ⊥
IsOutcome Response.success = Unit
IsOutcome (Response.error e) = Unit

-- One request: the settings before, the response, and the settings after. `Fault` has the errors that a
-- status may be answered with. A profile that could not be set may be in force all the same.
pub data Step (Fault : String → Type 0) : Settings → Request → Response → Settings → Type 0 where
  told_status :
      {s : Settings} {report : SchedulerStatus}
      → report.profile ≡ s.profile
      → report.adaptation_enabled ≡ s.adaptation_enabled
      → Step Fault s Request.status (Response.status report) s
  no_status :
      {s : Settings} {e : String} → Fault e → Step Fault s Request.status (Response.error e) s
  told_profile :
      {s : Settings} {p : Profile}
      → p ≡ s.profile
      → Step Fault s Request.get_profile (Response.profile p) s
  switched :
      {s : Settings} {p : Profile}
      → Step Fault s (Request.set_profile p) Response.success (record s { profile = p })
  not_switched :
      {s : Settings} {p q : Profile} {e : String}
      → (q ≡ s.profile) ⊎ (q ≡ p)
      → Step Fault s (Request.set_profile p) (Response.error e) (record s { profile = q })
  paused :
      {s : Settings}
      → Step Fault s Request.pause_adaptation Response.success
          (record s { adaptation_enabled = false })
  resumed :
      {s : Settings}
      → Step Fault s Request.resume_adaptation Response.success
          (record s { adaptation_enabled = true })
  started : {s : Settings} {a : Response} → IsOutcome a → Step Fault s Request.start a s
  stopped : {s : Settings} {a : Response} → IsOutcome a → Step Fault s Request.stop a s
  restarted : {s : Settings} {a : Response} → IsOutcome a → Step Fault s Request.restart a s

pub data Steps (Fault : String → Type 0)
    : Settings → List Request → List Response → Settings → Type 0 where
  idle : {s : Settings} → Steps Fault s [] [] s
  next :
      {s t u : Settings} {r : Request} {rs : List Request} {a : Response} {as' : List Response}
      → Step Fault s r a t
      → Steps Fault t rs as' u
      → Steps Fault s (r ∷ rs) (a ∷ as') u

module _ {S : Type 0} where
  abbrev pub add_answer : Response → Option (List Response × S) → Option (List Response × S)
  add_answer a none = none
  add_answer a (some (as', s)) = some (a ∷ as', s)

  abbrev pub after_answer :
      Option (Response × S) → (S → Option (List Response × S)) → Option (List Response × S)
  after_answer none rest = none
  after_answer (some (a, s)) rest = add_answer a (rest s)

  -- Requests one after the other.
  unfoldable pub serve_requests : Backend S → List Request → S → Option (List Response × S)
  serve_requests b [] s = some ([], s)
  serve_requests b (r ∷ rs) s = after_answer (handle_request b r s) (λ t. serve_requests b rs t)

module _ {S : Type 0} (Fault : String → Type 0) (I : S → Type 0) (view : S → Settings) where
  -- The request comes to an end as the contract says, in a state of which `I` holds.
  abbrev pub Obeys : Settings → Request → Option (Response × S) → Type 0
  Obeys s r none = ⊥
  Obeys s r (some (a, b)) = Step Fault s r a (view b) × I b

  -- A backend that keeps the contract.
  pub record Refines (b : Backend S) : Type 0 where
    pub obeys : (r : Request) (s : S) → I s → Obeys (view s) r (handle_request b r s)

  module _ (b : Backend S) where
    -- All are answered, as the contract says.
    abbrev pub AreServed : List Request → S → Option (List Response × S) → Type 0
    AreServed rs s o =
        (as' : List Response) × (t : S) × (o ≡ some (as', t))
        × Steps Fault (view s) rs as' (view t)
        × I t

    answer-AreServed :
        (r : Request) (rs : List Request) (s : S) (o : Option (Response × S))
        → Obeys (view s) r o
        → ((t : S) → I t → AreServed rs t (serve_requests b rs t))
        → AreServed (r ∷ rs) s (after_answer o (λ t. serve_requests b rs t))
    answer-AreServed r rs s none h k = absurd h
    answer-AreServed r rs s (some (a, t)) (step, i) k =
        let (as', u, e, steps, j) = k t i in (a ∷ as', u, ap (add_answer a) e, next step steps, j)

    pub serve_requests-AreServed :
        Refines b → (rs : List Request) (s : S) → I s → AreServed rs s (serve_requests b rs s)
    unfolding serve_requests
    serve_requests-AreServed refines [] s i = ([], s, refl, idle, i)
    serve_requests-AreServed refines (r ∷ rs) s i =
        answer-AreServed r rs s (handle_request b r s) (refines.obeys r s i)
          (λ t j. serve_requests-AreServed refines rs t j)
