-- ===== src/Daemon/Server.antt =====
-- services/cerynthd/src/server/connection.rs and codec.rs: one connection, from the bytes that were
-- read to the bytes that are written back. Messages on stderr are left out.
use cerynth_os.Base.{ℕ, String, Option, none, some, List, [], ◌∷◌, Result, ok, err}
use cerynth_os.Ipc.Messages.{to_request, Response, to_socket_response}
use cerynth_os.Ipc.Envelopes.{
  RequestEnvelope, ResponseEnvelope, validate_version, response_for_request,
}
use cerynth_os.Ipc.Frames.{Codec, from_line, to_line}
use cerynth_os.Ipc.Profiles.{SchedulerStatus}
use cerynth_os.Config.Files.{Fs, TextCodec}
use cerynth_os.Config.Settings.{RuntimeState, save_state}
use cerynth_os.Daemon.State.{Backend}
use cerynth_os.Daemon.Handlers.{handle_request}

-- How a connection ends: an error of the read, no reply, or the bytes of the reply.
pub data Served : Type 0 where
  read_error : String → Served
  closed : Served
  replied : List ℕ → Served

-- The backend behind its lock, and the file system.
pub record Shared (S F : Type 0) : Type 0 where
  pub backend : S
  pub disk : F

unfoldable pub state_of_status : SchedulerStatus → RuntimeState
state_of_status s = record {
  profile = s.profile;
  adaptation_enabled = s.adaptation_enabled;
  scheduler_backend = s.backend;
}

module _ {S F : Type 0} (b : Backend S) (fs : Fs F) (json : TextCodec RuntimeState)
    (requests : Codec RequestEnvelope) (responses : Codec ResponseEnvelope)
    (state_path : String) where
  unfoldable pub decode_request : List ℕ → Result RequestEnvelope String
  decode_request = from_line requests

  unfoldable pub encode_response : ResponseEnvelope → List ℕ
  encode_response = to_line responses

  -- `if let Ok(status) = backend.status()`: the state is saved under the lock.
  unfoldable pub persisted :
      Response → F → Option (Result SchedulerStatus String × S) → Option (Response × Shared S F)
  unfolding state_of_status
  persisted response disk none = none
  persisted response disk (some (err e, s)) = some (response, record { backend = s; disk = disk })
  persisted response disk (some (ok status, s)) = some (
    response,
    record { backend = s; disk = save_state fs json (state_of_status status) state_path disk },
  )

  unfoldable pub persist : Response → Shared S F → Option (Response × Shared S F)
  unfolding persisted
  persist response sh = persisted response sh.disk (b.status sh.backend)

  -- What is done with the lock held.
  abbrev pub persist_after : F → Option (Response × S) → Option (Response × Shared S F)
  persist_after disk none = none
  persist_after disk (some (response, s)) = persist response (record { backend = s; disk = disk })

  abbrev pub reply : RequestEnvelope → Option (Response × Shared S F) → Option (Served × Shared S F)
  reply envelope none = none
  reply envelope (some (response, sh)) =
      some (
        replied (encode_response (response_for_request envelope (to_socket_response response))),
        sh,
      )

  unfoldable pub serve_envelope : RequestEnvelope → Shared S F → Option (Served × Shared S F)
  unfolding persist encode_response
  serve_envelope envelope sh = elim (validate_version envelope) [
    | err e ↦ some (closed, sh)
    | ok _ ↦
        reply envelope
          (persist_after sh.disk (handle_request b (to_request envelope.request) sh.backend))
  ]

  -- The argument is what `stream.read` returned.
  unfoldable pub handle_connection :
      Result (List ℕ) String → Shared S F → Option (Served × Shared S F)
  unfolding serve_envelope decode_request
  handle_connection (err e) sh = some (read_error e, sh)
  handle_connection (ok []) sh = some (closed, sh)
  handle_connection (ok (x ∷ xs)) sh = elim (decode_request (x ∷ xs)) [
    | err e ↦ some (closed, sh)
    | ok envelope ↦ serve_envelope envelope sh
  ]
