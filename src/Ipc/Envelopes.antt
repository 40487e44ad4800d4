-- ===== src/Ipc/Envelopes.antt =====
-- crates/cerynth-ipc/src/protocol.rs: the versioned envelopes and the version check.
use cerynth_os.Base.{ℕ, ◌*◌, String, ◌||◌, Option, none, some, Result, ok, err, ltb, if◌then◌else◌}
use cerynth_os.Ipc.Messages.{SocketRequest, SocketResponse}

abbrev pub protocol_version : ℕ
protocol_version = 2

abbrev pub min_protocol_version : ℕ
min_protocol_version = 1

abbrev pub max_message_size : ℕ
max_message_size = 64 * 1024

abbrev pub default_socket_path : String
default_socket_path = "/run/cerynth/cerynthd.sock"

-- The argument is `std::env::var(SOCKET_PATH_ENV)`.
unfoldable pub socket_path : Option String → String
socket_path (some path) = path
socket_path none = default_socket_path

pub record RequestEnvelope : Type 0 where
  pub version : ℕ
  pub correlation_id : Option String
  pub request : SocketRequest

pub record ResponseEnvelope : Type 0 where
  pub version : ℕ
  pub correlation_id : Option String
  pub response : SocketResponse

pub record VersionError : Type 0 where
  pub requested : ℕ
  pub min_supported : ℕ
  pub max_supported : ℕ

unfoldable pub request_envelope : SocketRequest → RequestEnvelope
request_envelope r = record { version = protocol_version; correlation_id = none; request = r }

unfoldable pub request_envelope_with_id : SocketRequest → String → RequestEnvelope
request_envelope_with_id r id = record {
  version = protocol_version;
  correlation_id = some id;
  request = r;
}

unfoldable pub validate_version : RequestEnvelope → Result (Unit {0}) VersionError
validate_version e =
    if ltb e.version min_protocol_version || ltb protocol_version e.version
    then err (record {
      requested = e.version;
      min_supported = min_protocol_version;
      max_supported = protocol_version;
    })
    else ok tt

unfoldable pub response_for_request : RequestEnvelope → SocketResponse → ResponseEnvelope
response_for_request e r = record {
  version = protocol_version;
  correlation_id = e.correlation_id;
  response = r;
}

unfoldable pub response_with_id : SocketResponse → String → ResponseEnvelope
response_with_id r id = record {
  version = protocol_version;
  correlation_id = some id;
  response = r;
}
