-- ===== src/Examples/Worlds.antt =====
-- A simulated machine, a file system of one file, and encodings that are their own inverse.
use text.Mathlib.Text.{◌==◌ as str_eq}
use cerynth_os.Base.{
  ℕ, ◌+◌, ◌≤◌, ◌≡◌, refl, ap, String, Bool, true, false, Option, none, some, [], ◌∷◌, Result, ok,
  err, arith, ◌==◌, if◌then◌else◌,
}
use cerynth_os.Ipc.Profiles.{
  Profile, balanced, interactive, performance, background, mock, scx, SchedulerBackend,
  SchedulerStatus,
}
use cerynth_os.Ipc.Messages.{SocketRequest, SocketResponse}
use cerynth_os.Ipc.Envelopes.{
  RequestEnvelope, ResponseEnvelope, request_envelope, response_for_request,
}
use cerynth_os.Ipc.Frames.{Codec}
use cerynth_os.Daemon.State.{DaemonState}
use cerynth_os.Daemon.Server.{Shared}
use cerynth_os.Config.Files.{Fs, FsLaws, TextCodec}
use cerynth_os.Config.Settings.{Config, RuntimeState}
use cerynth_os.Scx.Os.{
  Os, Clocked, Polled, exited, running, Killed, delivered, no_process, Signal, probe, sigterm,
  sigkill,
}
use cerynth_os.Scx.Backend.{Machine}

-- A process that runs or not, under a clock that only sleeping moves.
pub record World : Type 0 where
  pub time : ℕ
  pub alive : Bool

pub data Json : Type 0 where
  number : ℕ → Json
  boolean : Bool → Json
  object : Json

abbrev polled : Bool → Polled
polled true = running
polled false = exited

abbrev killed : Bool → Killed
killed true = delivered
killed false = no_process

-- The process dies of any signal but the probe.
abbrev signalled : Signal → World → World
signalled probe w = w
signalled sigterm w = record w { alive = false }
signalled sigkill w = record w { alive = false }

abbrev field : Json → String → Option Json
field object key =
    if str_eq key "pid"
    then some (number 7)
    else if str_eq key "heartbeat"
    then some (number 95)
    else some (boolean true)
field _ key = none

abbrev as_u64 : Json → Option ℕ
as_u64 (number n) = some n
as_u64 _ = none

abbrev as_bool : Json → Option Bool
as_bool (boolean b) = some b
as_bool _ = none

abbrev pub simulated : Os World Json
simulated = record {
  try_wait = λ c w. (polled w.alive, w);
  wait = λ c w. (ok tt, w);
  kill = λ p s w. (killed w.alive, signalled s w);
  spawn = λ b args w. (ok 7, record w { alive = true });
  path_exists = λ p w. (true, w);
  env_var = λ name w. none;
  read_to_string = λ p w. (ok "enabled", w);
  instant_ms = λ w. (w.time, w);
  unix_secs = λ w. (some 100, w);
  sleep_ms = λ d w. record w { time = w.time + d };
  json_from_str = λ text. some object;
  json_get = field;
  json_as_u64 = as_u64;
  json_as_bool = as_bool;
}

pub signalled-time : (s : Signal) (w : World) → w.time ≤ (signalled s w).time
signalled-time probe w = omega arith
signalled-time sigterm w = omega arith
signalled-time sigkill w = omega arith

unfoldable pub simulated-Clocked : Clocked simulated
simulated-Clocked = record {
  clock = λ w. w.time;
  instant_before = λ w. omega arith;
  instant_after = λ w. omega arith;
  sleep_lasts = λ d w. omega arith;
  try_wait_mono = λ c w. omega arith;
  wait_mono = λ c w. omega arith;
  kill_mono = λ p s w. signalled-time s w;
  spawn_mono = λ b a w. omega arith;
  exists_mono = λ p w. omega arith;
  read_mono = λ p w. omega arith;
  unix_mono = λ w. omega arith;
}

-- Before the first start, and with a scheduler that runs.
abbrev pub idle_machine : Machine World
idle_machine = record {
  backend = record {
    scheduler_binary = "cerynth-scx";
    profile = balanced;
    adaptation_enabled = true;
    pid = none;
    child = none;
  };
  world = record { time = 0; alive = false };
}

abbrev pub busy_machine : Machine World
busy_machine = record {
  backend = record {
    scheduler_binary = "cerynth-scx";
    profile = balanced;
    adaptation_enabled = true;
    pid = some 7;
    child = some 7;
  };
  world = record { time = 0; alive = true };
}

-- One file, whatever its path is.
abbrev pub one_file : Fs (Option String)
one_file = record {
  path_exists = λ path f. elim f [ none ↦ false | some text ↦ true ];
  read_to_string = λ path f. elim f [ none ↦ err "not found" | some text ↦ ok text ];
  parent = λ path. some "/var/lib/cerynth";
  create_dir_all = λ path f. (ok tt, f);
  write = λ path text f. (ok tt, some text);
}

abbrev pub one_file-FsLaws : FsLaws one_file
one_file-FsLaws = record {
  written_exists = λ path text f e. refl;
  written_read = λ path text f e. refl;
}

-- The profile alone is written; a state with other settings is refused.
abbrev profile_text : Profile → String
profile_text balanced = "balanced"
profile_text interactive = "interactive"
profile_text performance = "performance"
profile_text background = "background"

abbrev pub saved_state : RuntimeState
saved_state = record { profile = interactive; adaptation_enabled = true; scheduler_backend = scx }

abbrev state_name : Profile → Bool → SchedulerBackend → Result String String
state_name interactive true scx = ok "interactive"
state_name interactive true mock = err "refused"
state_name interactive false b = err "refused"
state_name balanced a b = err "refused"
state_name performance a b = err "refused"
state_name background a b = err "refused"

pub state_name-law :
    (p : Profile) (a : Bool) (b : SchedulerBackend) (text : String)
    → state_name p a b ≡ ok text
    → saved_state ≡ record { profile = p; adaptation_enabled = a; scheduler_backend = b }
state_name-law interactive true scx text h = refl
state_name-law interactive true mock text h = cc
state_name-law interactive false b text h = cc
state_name-law balanced a b text h = cc
state_name-law performance a b text h = cc
state_name-law background a b text h = cc

abbrev pub state_codec : TextCodec RuntimeState
state_codec = record {
  to_string_pretty = λ s. state_name s.profile s.adaptation_enabled s.scheduler_backend;
  from_str = λ text. ok saved_state;
  from_str-to_string =
      λ s text h. ap ok (state_name-law s.profile s.adaptation_enabled s.scheduler_backend text h);
}

abbrev config_name : Profile → Bool → SchedulerBackend → String → Bool → Result String String
config_name balanced false mock binary true = ok binary
config_name balanced false mock binary false = err "refused"
config_name balanced false scx binary start = err "refused"
config_name balanced true b binary start = err "refused"
config_name interactive a b binary start = err "refused"
config_name performance a b binary start = err "refused"
config_name background a b binary start = err "refused"

abbrev pub config_of : String → Config
config_of binary = record {
  default_profile = balanced;
  adaptation_enabled = false;
  scheduler_backend = mock;
  scheduler_binary = binary;
  auto_start = true;
}

pub config_name-law :
    (p : Profile) (a : Bool) (b : SchedulerBackend) (binary : String) (start : Bool) (text : String)
    → config_name p a b binary start ≡ ok text
    → config_of text ≡ record {
      default_profile = p;
      adaptation_enabled = a;
      scheduler_backend = b;
      scheduler_binary = binary;
      auto_start = start;
    }
config_name-law balanced false mock binary true text h = cc
config_name-law balanced false mock binary false text h = cc
config_name-law balanced false scx binary start text h = cc
config_name-law balanced true b binary start text h = cc
config_name-law interactive a b binary start text h = cc
config_name-law performance a b binary start text h = cc
config_name-law background a b binary start text h = cc

abbrev pub config_codec : TextCodec Config
config_codec = record {
  to_string_pretty = λ c.
      config_name c.default_profile c.adaptation_enabled c.scheduler_backend c.scheduler_binary
        c.auto_start;
  from_str = λ text. ok (config_of text);
  from_str-to_string = λ c text h. ap ok (
      config_name-law c.default_profile c.adaptation_enabled c.scheduler_backend c.scheduler_binary
        c.auto_start text h);
}

-- One byte for each command of version 2 without correlation id.
abbrev request_byte : SocketRequest → ℕ
request_byte SocketRequest.status = 115
request_byte SocketRequest.ping = 112
request_byte r = 120

abbrev pub request_codec : Codec RequestEnvelope
request_codec = record {
  to_vec = λ e. request_byte e.request ∷ [];
  from_slice = λ bytes. elim bytes [
    | [] ↦ err "EOF"
    | x ∷ xs ↦
        if x == 115
        then ok (request_envelope SocketRequest.status)
        else if x == 112
        then ok (request_envelope SocketRequest.ping)
        else ok (record { version = 9; correlation_id = none; request = SocketRequest.status })
  ];
}

-- The status of a fresh mock backend is the one response with a byte.
abbrev pub mock_state : DaemonState
mock_state = record { profile = interactive; adaptation_enabled = true; scheduler_backend = scx }

abbrev pub mock_report : SchedulerStatus
mock_report = record {
  profile = interactive;
  adaptation_enabled = true;
  backend = scx;
  running = true;
  sched_ext_state = none;
  heartbeat_ok = false;
}

abbrev pub response_codec : Codec ResponseEnvelope
response_codec = record {
  to_vec = λ e. 83 ∷ [];
  from_slice = λ bytes. ok (
      response_for_request (request_envelope SocketRequest.status)
        (SocketResponse.status mock_report));
}

abbrev pub shared_mock : Shared DaemonState (Option String)
shared_mock = record { backend = mock_state; disk = none }
