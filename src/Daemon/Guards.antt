-- ===== src/Daemon/Guards.antt =====
-- services/cerynthd/src/server/connection.rs: when a request is answered, and with what.
use cerynth_os.Base.{
  ℕ, ◌≤◌, ◌<◌, ◌≡◌, refl, ◌≢◌, ◌⊎◌, String, Option, none, some, List, [], ◌∷◌, Result, ok, err,
  arith,
}
use cerynth_os.Ipc.Messages.{to_request, Response, pong, to_socket_response}
use cerynth_os.Ipc.Envelopes.{
  min_protocol_version, protocol_version, RequestEnvelope, ResponseEnvelope, VersionError,
  validate_version, response_for_request,
}
use cerynth_os.Ipc.Frames.{Codec, from_line, to_line}
use cerynth_os.Config.Files.{Fs, TextCodec}
use cerynth_os.Config.Settings.{RuntimeState}
use cerynth_os.Daemon.State.{Backend}
use cerynth_os.Daemon.Handlers.{handle_request}
use cerynth_os.Daemon.Server.{
  Shared, closed, replied, encode_response, persist_after, reply, serve_envelope, handle_connection,
}

pub validate_version-ok :
    (e : RequestEnvelope)
    → validate_version e ≡ ok tt
    → (min_protocol_version ≤ e.version) × (e.version ≤ protocol_version)
unfolding validate_version
validate_version-ok e h = ground arith

pub validate_version-err :
    (e : RequestEnvelope)
    → (e.version < min_protocol_version) ⊎ (protocol_version < e.version)
    → validate_version e
      ≡ err (record {
        requested = e.version;
        min_supported = min_protocol_version;
        max_supported = protocol_version;
      })
unfolding validate_version
validate_version-err e h = ground arith

to_socket_response-ne-pong : (r : Response) → to_socket_response r ≢ pong
unfolding to_socket_response
to_socket_response-ne-pong (Response.status s) h = cc
to_socket_response-ne-pong (Response.profile p) h = cc
to_socket_response-ne-pong Response.success h = cc
to_socket_response-ne-pong (Response.error m) h = cc

module _ {S F : Type 0} (b : Backend S) (fs : Fs F) (json : TextCodec RuntimeState)
    (requests : Codec RequestEnvelope) (responses : Codec ResponseEnvelope)
    (state_path : String) where
  -- A request whose version is not supported is dropped without a reply: the backend is not
  -- called and nothing is saved.
  pub handle_connection_unsupported :
      (x : ℕ) (xs : List ℕ) (sh : Shared S F) (e : RequestEnvelope)
      → from_line requests (x ∷ xs) ≡ ok e
      → (e.version < min_protocol_version) ⊎ (protocol_version < e.version)
      → handle_connection b fs json requests responses state_path (ok (x ∷ xs)) sh
        ≡ some (closed, sh)
  unfolding handle_connection
  handle_connection_unsupported x xs sh e decoded v = ground (arith, validate_version-err e v)

  -- What a reply decodes to, for the request that was read.
  pub record Answers (line bytes : List ℕ) : Type 0 where
    pub request : RequestEnvelope
    pub decoded : from_line requests line ≡ ok request
    pub not_older : min_protocol_version ≤ request.version
    pub not_newer : request.version ≤ protocol_version
    pub response : ResponseEnvelope
    pub written : bytes ≡ to_line responses response
    pub current : response.version ≡ protocol_version
    pub correlated : response.correlation_id ≡ request.correlation_id
    pub no_pong : response.response ≢ pong

  reply-Answers :
      (line : List ℕ) (e : RequestEnvelope) (o : Option (Response × Shared S F)) (bytes : List ℕ)
      (sh : Shared S F)
      → from_line requests line ≡ ok e
      → validate_version e ≡ ok tt
      → reply b fs json requests responses state_path e o ≡ some (replied bytes, sh)
      → Answers line bytes
  unfolding encode_response response_for_request
  reply-Answers line e none bytes sh d v h = absurd (ground arith)
  reply-Answers line e (some (a, sh')) bytes sh d v h =
      let out = response_for_request e (to_socket_response a) in
      record {
        request = e;
        decoded = d;
        not_older = (validate_version-ok e v).0;
        not_newer = (validate_version-ok e v).1;
        response = out;
        written = ground arith;
        current = refl;
        correlated = refl;
        no_pong = to_socket_response-ne-pong a;
      }

  envelope-Answers :
      (line : List ℕ) (e : RequestEnvelope) (v : Result (Unit {0}) VersionError)
      (sh sh' : Shared S F) (bytes : List ℕ)
      → validate_version e ≡ v
      → from_line requests line ≡ ok e
      → serve_envelope b fs json requests responses state_path e sh ≡ some (replied bytes, sh')
      → Answers line bytes
  unfolding serve_envelope
  envelope-Answers line e (err u) sh sh' bytes k d h = absurd (ground arith)
  envelope-Answers line e (ok u) sh sh' bytes k d h =
      reply-Answers line e
        (persist_after b fs json requests responses state_path sh.disk
          (handle_request b (to_request e.request) sh.backend))
        bytes sh' d k (ground arith)

  served-Answers :
      (x : ℕ) (xs : List ℕ) (sh sh' : Shared S F) (bytes : List ℕ)
      (r : Result RequestEnvelope String)
      → from_line requests (x ∷ xs) ≡ r
      → handle_connection b fs json requests responses state_path (ok (x ∷ xs)) sh
        ≡ some (replied bytes, sh')
      → Answers (x ∷ xs) bytes
  unfolding handle_connection
  served-Answers x xs sh sh' bytes (err m) d h = absurd (ground arith)
  served-Answers x xs sh sh' bytes (ok e) d h =
      envelope-Answers (x ∷ xs) e (validate_version e) sh sh' bytes refl d (ground arith)

  -- Every reply is in answer to a request that was read whole, in a supported version. It is the
  -- line of a response of the current version with the correlation id of the request, and never
  -- of a pong, not even to a ping.
  pub handle_connection-Answers :
      (line : List ℕ) (sh sh' : Shared S F) (bytes : List ℕ)
      → handle_connection b fs json requests responses state_path (ok line) sh
        ≡ some (replied bytes, sh')
      → Answers line bytes
  unfolding handle_connection
  handle_connection-Answers [] sh sh' bytes h = absurd (ground arith)
  handle_connection-Answers (x ∷ xs) sh sh' bytes h = served-Answers x xs sh sh' bytes _ refl h
