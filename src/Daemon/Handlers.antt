-- ===== src/Daemon/Handlers.antt =====
-- services/cerynthd/src/handlers.rs: one request, answered by a backend.
use cerynth_os.Base.{String, Option, none, some, Result, ok, err}
use cerynth_os.Ipc.Profiles.{Profile, SchedulerStatus}
use cerynth_os.Ipc.Messages.{Request, Response}
use cerynth_os.Daemon.State.{Backend}

-- `match … { Ok(()) => Response::Success, Err(e) => Response::Error(e) }`, and its like.
unfoldable pub done : Result (Unit {0}) String → Response
done (ok _) = Response.success
done (err e) = Response.error e

unfoldable pub with_status : Result SchedulerStatus String → Response
with_status (ok s) = Response.status s
with_status (err e) = Response.error e

unfoldable pub with_profile : Result Profile String → Response
with_profile (ok p) = Response.profile p
with_profile (err e) = Response.error e

-- The response of a call that came to an end.
abbrev pub respond {ℓ} :
    {S : Type 0} {A : Type ℓ} → (A → Response) → Option (A × S) → Option (Response × S)
respond f none = none
respond f (some (a, s)) = some (f a, s)

module _ {S : Type 0} (b : Backend S) where
  unfoldable pub handle_request : Request → S → Option (Response × S)
  unfolding done with_status with_profile
  handle_request Request.status s = respond with_status (b.status s)
  handle_request Request.get_profile s = some (with_profile (b.get_profile s), s)
  handle_request (Request.set_profile p) s = respond done (b.set_profile p s)
  handle_request Request.pause_adaptation s = respond done (b.pause_adaptation s)
  handle_request Request.resume_adaptation s = respond done (b.resume_adaptation s)
  handle_request Request.start s = respond done (b.start s)
  handle_request Request.stop s = respond done (b.stop s)
  handle_request Request.restart s = respond done (b.restart s)
