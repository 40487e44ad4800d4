-- ===== src/Examples/Daemons.antt =====
-- The daemon on a mock backend, its client and its files.
use cerynth_os.Base.{
  ℕ, ◌≡◌, ◌↔◌, refl, String, true, false, Option, none, some, List, [], ◌∷◌, ◌++◌, ok, arith,
  length, take,
}
use cerynth_os.Ipc.Profiles.{interactive}
use cerynth_os.Ipc.Messages.{Request, SocketRequest, Response, to_request, to_socket_response}
use cerynth_os.Ipc.Envelopes.{
  RequestEnvelope, request_envelope, response_for_request, protocol_version,
}
use cerynth_os.Ipc.Frames.{crlf, to_line, from_line}
use cerynth_os.Ipc.Frames.RoundTrip.{from_line-to_line, from_line-crlf}
use cerynth_os.Config.Settings.{default_config, make_parent, load_state, save_state}
use cerynth_os.Daemon.State.{DaemonState, mock_backend}
use cerynth_os.Daemon.Handlers.{handle_request}
use cerynth_os.Daemon.Server.{Shared, closed, replied, handle_connection, persist}
use cerynth_os.Daemon.Exchange.{daemon_socket, execute-daemon_socket}
use cerynth_os.Daemon.Guards.{Answers, handle_connection-Answers}
use cerynth_os.Cli.Client.{execute}
use cerynth_os.Cli.Commands.{parse_command, usage}
use cerynth_os.Cli.Commands.Usage.{parse_command_iff}
use cerynth_os.Startup.{choose_backend}
use cerynth_os.Startup.Restart.{settings, choose_backend-persist}
use cerynth_os.Examples.Worlds.{
  one_file, one_file-FsLaws, state_codec, request_codec, response_codec, mock_state, mock_report,
  shared_mock,
}

-- The line of a status request, and of a ping.
abbrev status_line : List ℕ
status_line = 115 ∷ 10 ∷ []

abbrev ping_line : List ℕ
ping_line = 112 ∷ 10 ∷ []

from_line-to_line_example :
    from_line request_codec (to_line request_codec (request_envelope SocketRequest.status))
    ≡ ok (request_envelope SocketRequest.status)
unfolding request_envelope
from_line-to_line_example =
    from_line-to_line request_codec (request_envelope SocketRequest.status) refl

from_line-crlf_example :
    from_line request_codec ((115 ∷ []) ++ crlf) ≡ request_codec.from_slice (115 ∷ 13 ∷ [])
from_line-crlf_example = from_line-crlf request_codec (115 ∷ [])

parse_command_iff_example :
    (parse_command ("cerynthctl" ∷ "profile" ∷ "get" ∷ []) ≡ some Request.get_profile) ↔ (
      take (length (usage Request.get_profile)) ("profile" ∷ "get" ∷ [])
      ≡ usage Request.get_profile)
parse_command_iff_example =
    parse_command_iff "cerynthctl" ("profile" ∷ "get" ∷ []) Request.get_profile

-- A ping is answered with the status.
handle_connection-Answers_example :
    Answers mock_backend one_file state_codec request_codec response_codec "state.json" ping_line
      (83 ∷ 10 ∷ [])
unfolding handle_connection from_line cerynth_os.Ipc.Frames.trim_line
    cerynth_os.Ipc.Envelopes.validate_version request_envelope handle_request to_request
    mock_backend to_line save_state
handle_connection-Answers_example =
    handle_connection-Answers mock_backend one_file state_codec request_codec response_codec
      "state.json" ping_line shared_mock
      (record { backend = mock_state; disk = some "interactive" }) (83 ∷ 10 ∷ []) refl

execute-daemon_socket_example :
    execute request_codec response_codec
      (daemon_socket mock_backend one_file state_codec request_codec response_codec "state.json"
        shared_mock)
      Request.status
    ≡ some (
        ok (
          response_for_request
            (request_envelope SocketRequest.status)
            (to_socket_response (Response.status mock_report))))
unfolding execute request_envelope to_socket_response to_line handle_request mock_backend
execute-daemon_socket_example =
    execute-daemon_socket mock_backend one_file state_codec request_codec response_codec
      "state.json" Request.status shared_mock (Response.status mock_report) mock_state refl refl
      (omega arith) ((λ e. ground arith), tt) refl (λ e. ground arith)

choose_backend-persist_example :
    (sh' : Shared DaemonState (Option String)) × (persist mock_backend one_file state_codec
        request_codec response_codec "state.json" Response.success shared_mock
      ≡ some (Response.success, sh'))
    × (settings (
          choose_backend default_config
            (load_state one_file state_codec "state.json" sh'.disk)
            none
            false)
        ≡ (interactive, true))
unfolding make_parent mock_backend cerynth_os.Daemon.Server.state_of_status
choose_backend-persist_example =
    choose_backend-persist mock_backend one_file one_file-FsLaws state_codec request_codec
      response_codec "state.json" Response.success shared_mock mock_report mock_state "interactive"
      default_config none false refl refl refl refl
