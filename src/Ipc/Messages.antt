-- ===== src/Ipc/Messages.antt =====
-- crates/cerynth-ipc/src/request.rs and response.rs: the daemon's requests and responses, and the
-- messages that travel over the socket.
use cerynth_os.Base.{String, Bool, true, false, Option, none, some}
use cerynth_os.Ipc.Profiles.{Profile, SchedulerStatus}

pub data Request : Type 0 where
  status : Request
  get_profile : Request
  set_profile : Profile → Request
  pause_adaptation : Request
  resume_adaptation : Request
  start : Request
  stop : Request
  restart : Request

pub data SocketRequest : Type 0 where
  status : SocketRequest
  get_profile : SocketRequest
  set_profile : Profile → SocketRequest
  pause_adaptation : SocketRequest
  resume_adaptation : SocketRequest
  start : SocketRequest
  stop : SocketRequest
  restart : SocketRequest
  shutdown : SocketRequest
  ping : SocketRequest

-- `From<SocketRequest> for Request`.
unfoldable pub to_request : SocketRequest → Request
to_request SocketRequest.status = Request.status
to_request SocketRequest.get_profile = Request.get_profile
to_request (SocketRequest.set_profile p) = Request.set_profile p
to_request SocketRequest.pause_adaptation = Request.pause_adaptation
to_request SocketRequest.resume_adaptation = Request.resume_adaptation
to_request SocketRequest.start = Request.start
to_request SocketRequest.stop = Request.stop
to_request SocketRequest.restart = Request.restart
to_request SocketRequest.shutdown = Request.status
to_request SocketRequest.ping = Request.status

unfoldable pub command_name : SocketRequest → String
command_name SocketRequest.status = "status"
command_name SocketRequest.get_profile = "get-profile"
command_name (SocketRequest.set_profile p) = "set-profile"
command_name SocketRequest.pause_adaptation = "pause-adaptation"
command_name SocketRequest.resume_adaptation = "resume-adaptation"
command_name SocketRequest.start = "start"
command_name SocketRequest.stop = "stop"
command_name SocketRequest.restart = "restart"
command_name SocketRequest.shutdown = "shutdown"
command_name SocketRequest.ping = "ping"

pub data Response : Type 0 where
  status : SchedulerStatus → Response
  profile : Profile → Response
  success : Response
  error : String → Response

pub data SocketResponse : Type 0 where
  status : SchedulerStatus → SocketResponse
  profile : Profile → SocketResponse
  success : SocketResponse
  error : String → SocketResponse
  pong : SocketResponse

-- `From<Response> for SocketResponse`.
unfoldable pub to_socket_response : Response → SocketResponse
to_socket_response (Response.status s) = SocketResponse.status s
to_socket_response (Response.profile p) = SocketResponse.profile p
to_socket_response Response.success = SocketResponse.success
to_socket_response (Response.error m) = SocketResponse.error m

unfoldable pub is_success : SocketResponse → Bool
is_success (SocketResponse.error m) = false
is_success r = true

unfoldable pub error_message : SocketResponse → Option String
error_message (SocketResponse.error m) = some m
error_message r = none
