-- ===== src/Daemon/Exchange.antt =====
-- cli/cerynthctl and services/cerynthd together: the client at one end of the socket, the daemon
-- at the other.
use cerynth_os.Base.{
  ℕ, zero, suc, ◌≤◌, ◌≡◌, refl, ap, ◌∙◌, ◌≢◌, String, Option, none, some, List, [], ◌∷◌, ◌++◌,
  Result, ok, err, arith, All, length, take,
}
use cerynth_os.Ipc.Profiles.{SchedulerStatus}
use cerynth_os.Ipc.Messages.{Request, to_request, Response, to_socket_response}
use cerynth_os.Ipc.Envelopes.{
  max_message_size, RequestEnvelope, ResponseEnvelope, request_envelope, validate_version,
  response_for_request,
}
use cerynth_os.Ipc.Frames.{Codec, lf, from_line, to_line}
use cerynth_os.Ipc.Frames.RoundTrip.{from_line-to_line}
use cerynth_os.Config.Files.{Fs, TextCodec}
use cerynth_os.Config.Settings.{RuntimeState}
use cerynth_os.Daemon.State.{Backend}
use cerynth_os.Daemon.Handlers.{handle_request}
use cerynth_os.Daemon.Server.{
  Shared, Served, read_error, closed, replied, serve_envelope, handle_connection,
}
use cerynth_os.Cli.Client.{to_socket_request, read_until, Socket, read_response, execute}

-- No request of the client is changed on its way.
pub to_request-to_socket_request : (r : Request) → to_request (to_socket_request r) ≡ r
unfolding to_request to_socket_request
to_request-to_socket_request Request.status = refl
to_request-to_socket_request (Request.set_profile p) = refl
to_request-to_socket_request r = refl

read_until-lf : (xs : List ℕ) → All (λ x. x ≢ b'\n') xs → read_until b'\n' (xs ++ lf) ≡ xs ++ lf
unfolding read_until
read_until-lf [] h = refl
read_until-lf (x ∷ xs) h = ground (arith, read_until-lf xs)

take_all : (n : ℕ) (xs : List ℕ) → length xs ≤ n → take n xs ≡ xs
take_all zero [] h = refl
take_all (suc n) [] h = refl
take_all zero (x ∷ xs) h = absurd (omega arith)
take_all (suc n) (x ∷ xs) h = ap (◌∷◌ x) (take_all n xs (omega arith))

read_response-to_line :
    (requests : Codec RequestEnvelope) (responses : Codec ResponseEnvelope) (e : ResponseEnvelope)
    → responses.from_slice (responses.to_vec e) ≡ ok e
    → All (λ x. x ≢ b'\n') (responses.to_vec e)
    → read_response requests responses (ok (to_line responses e)) ≡ some (ok e)
unfolding read_response to_line
read_response-to_line requests responses e k h =
    rw (read_until-lf (responses.to_vec e) h, read_response)
      (rw (from_line-to_line responses e k, read_response))

module _ {S F : Type 0} (b : Backend S) (fs : Fs F) (json : TextCodec RuntimeState)
    (requests : Codec RequestEnvelope) (responses : Codec ResponseEnvelope)
    (state_path : String) where
  -- The daemon at the other end: it reads one buffer and writes its reply before it closes.
  abbrev pub sent_back : Option (Served × Shared S F) → Result (List ℕ) String
  sent_back none = err "no reply"
  sent_back (some (replied bytes, sh)) = ok bytes
  sent_back (some (closed, sh)) = ok []
  sent_back (some (read_error e, sh)) = err e

  pub daemon_socket : Shared S F → Socket
  daemon_socket sh bytes = sent_back (
      handle_connection b fs json requests responses state_path (ok (take max_message_size bytes))
        sh)

  served_line :
      (xs : List ℕ) (sh : Shared S F) (e : RequestEnvelope)
      → from_line requests (xs ++ lf) ≡ ok e
      → handle_connection b fs json requests responses state_path (ok (xs ++ lf)) sh
        ≡ serve_envelope b fs json requests responses state_path e sh
  unfolding handle_connection
  served_line [] sh e h = ground arith
  served_line (x ∷ xs) sh e h = ground arith

  served_answer :
      (r : Request) (sh : Shared S F) (a : Response) (s : S)
      (t : Option (Result SchedulerStatus String × S))
      → t ≢ none
      → handle_request b r sh.backend ≡ some (a, s)
      → b.status s ≡ t
      → sent_back (
          serve_envelope b fs json requests responses state_path
            (request_envelope (to_socket_request r))
            sh)
        ≡ ok (
            to_line responses (
              response_for_request (request_envelope (to_socket_request r)) (to_socket_response a)))
  unfolding serve_envelope request_envelope validate_version
  served_answer r sh a s t n h k = ground (arith, to_request-to_socket_request r)

  -- If the request and the answer are read back from their own encoding, the request fits the
  -- daemon's buffer, the encoded answer holds no newline, and the backend's call and the status
  -- call after it come to an end, then what the client reads is the backend's answer to that very
  -- request.
  pub execute-daemon_socket :
      (r : Request) (sh : Shared S F) (a : Response) (s : S)
      → let e = request_envelope (to_socket_request r) in
        let out = response_for_request e (to_socket_response a) in
        requests.from_slice (requests.to_vec e) ≡ ok e
        → responses.from_slice (responses.to_vec out) ≡ ok out
        → length (to_line requests (request_envelope (to_socket_request r))) ≤ max_message_size
        → All (λ x. x ≢ b'\n') (responses.to_vec out)
        → handle_request b r sh.backend ≡ some (a, s)
        → b.status s ≢ none
        → execute requests responses (daemon_socket sh) r
          ≡ some (
              ok (
                response_for_request
                  (request_envelope (to_socket_request r))
                  (to_socket_response a)))
  unfolding execute daemon_socket to_line
  execute-daemon_socket r sh a s decodes encoded fits plain answered ends =
      let e = request_envelope (to_socket_request r) in
      let out = response_for_request e (to_socket_response a) in
      ap
        (λ (bytes : List ℕ).
          read_response requests responses
            (sent_back (handle_connection b fs json requests responses state_path (ok bytes) sh)))
        (take_all max_message_size (to_line requests e) fits)
      ∙ ap (λ (o : Option (Served × Shared S F)). read_response requests responses (sent_back o))
          (served_line (requests.to_vec e) sh e (from_line-to_line requests e decodes))
      ∙ ap (read_response requests responses)
          (served_answer r sh a s (b.status s) ends answered refl)
      ∙ read_response-to_line requests responses out encoded plain
