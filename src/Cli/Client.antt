-- ===== src/Cli/Client.antt =====
-- cli/cerynthctl/src/client.rs and transport.rs: one request over the socket. The socket is a function
-- from the bytes written to it to the bytes that come back before it closes.
use cerynth_os.Base.{
  ℕ, String, Option, none, some, List, [], ◌∷◌, Result, ok, err, ◌==◌, if◌then◌else◌,
}
use cerynth_os.Ipc.Messages.{Request, SocketRequest}
use cerynth_os.Ipc.Envelopes.{RequestEnvelope, ResponseEnvelope, request_envelope}
use cerynth_os.Ipc.Frames.{Codec, from_line, to_line}

-- `execute`, before it sends.
unfoldable pub to_socket_request : Request → SocketRequest
to_socket_request Request.status = SocketRequest.status
to_socket_request Request.get_profile = SocketRequest.get_profile
to_socket_request Request.pause_adaptation = SocketRequest.pause_adaptation
to_socket_request Request.resume_adaptation = SocketRequest.resume_adaptation
to_socket_request (Request.set_profile p) = SocketRequest.set_profile p
to_socket_request Request.start = SocketRequest.start
to_socket_request Request.stop = SocketRequest.stop
to_socket_request Request.restart = SocketRequest.restart

-- `BufRead::read_until`: up to the first such byte, and with it.
unfoldable pub read_until : ℕ → List ℕ → List ℕ
read_until delimiter [] = []
read_until delimiter (x ∷ xs) = x ∷ (if x == delimiter then [] else read_until delimiter xs)

abbrev pub Socket : Type 0
Socket = List ℕ → Result (List ℕ) String

module _ (requests : Codec RequestEnvelope) (responses : Codec ResponseEnvelope) where
  -- `from_line(...).unwrap()`: `none` is a panic.
  unfoldable pub read_response : Result (List ℕ) String → Option (Result ResponseEnvelope String)
  read_response (err e) = some (err e)
  read_response (ok bytes) = elim (from_line responses (read_until b'\n' bytes)) [
    | ok envelope ↦ some (ok envelope)
    | err e ↦ none
  ]

  unfoldable pub send_request : Socket → RequestEnvelope → Option (Result ResponseEnvelope String)
  unfolding read_response
  send_request socket request = read_response (socket (to_line requests request))

  unfoldable pub execute : Socket → Request → Option (Result ResponseEnvelope String)
  unfolding send_request to_socket_request
  execute socket request = send_request socket (request_envelope (to_socket_request request))
