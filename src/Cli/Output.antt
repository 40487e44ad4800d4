-- ===== src/Cli/Output.antt =====
-- cli/cerynthctl/src/output.rs and main.rs: what the client prints, and its exit code.
use cerynth_os.Base.{
  ℕ, String, Option, none, some, List, [], ◌∷◌, Result, ok, err, format, if◌then◌else◌,
}
use cerynth_os.Ipc.Profiles.{
  Profile, balanced, interactive, performance, background, SchedulerBackend, mock, scx,
  SchedulerStatus,
}
use cerynth_os.Ipc.Messages.{SocketResponse}
use cerynth_os.Ipc.Envelopes.{RequestEnvelope, ResponseEnvelope}
use cerynth_os.Ipc.Frames.{Codec}
use cerynth_os.Cli.Commands.{parse_command}
use cerynth_os.Cli.Client.{Socket, execute}

-- A line of stdout or of stderr.
pub data Line : Type 0 where
  out : String → Line
  error : String → Line

-- The derived `Debug`.
unfoldable pub debug_profile : Profile → String
debug_profile balanced = "Balanced"
debug_profile interactive = "Interactive"
debug_profile performance = "Performance"
debug_profile background = "Background"

unfoldable pub debug_backend : SchedulerBackend → String
debug_backend mock = "Mock"
debug_backend scx = "Scx"

abbrev pub state_text : Option String → String
state_text none = "not available"
state_text (some s) = s

unfoldable pub status_lines : SchedulerStatus → List Line
unfolding debug_profile debug_backend
status_lines s =
    out (format ("Current Profile : " ∷ debug_profile s.profile ∷ []))
    ∷ out (format ("Backend         : " ∷ debug_backend s.backend ∷ []))
    ∷ out (
        format
          ("Adaptation      : " ∷ (if s.adaptation_enabled then "Enabled" else "Disabled") ∷ []))
    ∷ out (format ("Running         : " ∷ (if s.running then "Yes" else "No") ∷ []))
    ∷ out (format ("sched_ext state : " ∷ state_text s.sched_ext_state ∷ []))
    ∷ out (format ("Heartbeat       : " ∷ (if s.heartbeat_ok then "OK" else "stale/missing") ∷ []))
    ∷ []

unfoldable pub print_response : ResponseEnvelope → List Line
unfolding status_lines
print_response envelope = elim envelope.response [
  | SocketResponse.status s ↦ status_lines s
  | SocketResponse.profile p ↦ out (format ("Current Profile : " ∷ debug_profile p ∷ [])) ∷ []
  | SocketResponse.success ↦ out "✓ Success" ∷ []
  | SocketResponse.error message ↦ error (format ("✗ " ∷ message ∷ [])) ∷ []
  | SocketResponse.pong ↦ out "Pong" ∷ []
]

abbrev pub usage_lines : List Line
usage_lines =
    out "Usage:"
    ∷ out "  cerynthctl status"
    ∷ out "  cerynthctl start"
    ∷ out "  cerynthctl stop"
    ∷ out "  cerynthctl restart"
    ∷ out "  cerynthctl profile get"
    ∷ out "  cerynthctl profile set <balanced|interactive|performance|background>"
    ∷ out "  cerynthctl adaptation pause"
    ∷ out "  cerynthctl adaptation resume"
    ∷ []

abbrev pub unreachable_lines : List Line
unreachable_lines =
    error "Error: Could not connect to cerynthd." ∷ error "Is the daemon running?" ∷ []

module _ (requests : Codec RequestEnvelope) (responses : Codec ResponseEnvelope) where
  abbrev pub finish : Option (Result ResponseEnvelope String) → Option (ℕ × List Line)
  finish none = none
  finish (some (ok envelope)) = some (0, print_response envelope)
  finish (some (err e)) = some (1, unreachable_lines)

  -- The exit code and the lines; `none` is a panic.
  unfoldable pub run_client : List String → Socket → Option (ℕ × List Line)
  run_client args socket = elim (parse_command args) [
    | none ↦ some (0, usage_lines)
    | some request ↦ finish (execute requests responses socket request)
  ]
