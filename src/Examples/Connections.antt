-- ===== src/Examples/Connections.antt =====
-- Two connections to the daemon on a mock backend, and the socket file.
use cerynth_os.Base.{
  ℕ, zero, suc, ◌≡◌, refl, String, Bool, true, false, Option, none, some, List, [], ◌∷◌, Result, ok,
}
use cerynth_os.Ipc.Envelopes.{validate_version, request_envelope}
use cerynth_os.Ipc.Frames.{from_line, trim_line}
use cerynth_os.Daemon.State.{DaemonState, mock_backend}
use cerynth_os.Daemon.Threads.{Threads, accepted, advance, Reach, begun, stepped}
use cerynth_os.Daemon.Threads.Serial.{IsSerial, Reach-IsSerial}
use cerynth_os.Daemon.Listener.{Net, NetLaws, Event, shutdown, listen, serve, stopped}
use cerynth_os.Daemon.Listener.Lifetime.{IsListening, listen-IsListening, serve_shutdown}
use cerynth_os.Examples.Worlds.{
  World, one_file, state_codec, request_codec, response_codec, shared_mock,
}

-- A status request, then a ping.
abbrev pub input : ℕ → Result (List ℕ) String
input zero = ok (115 ∷ 10 ∷ [])
input (suc n) = ok (112 ∷ 10 ∷ [])

abbrev pub still : World
still = record { time = 0; alive = false }

abbrev step : ℕ → Threads DaemonState (Option String) → Option (Threads DaemonState (Option String))
step i d =
    advance mock_backend one_file state_codec request_codec response_codec "state.json" input i d

abbrev run : List ℕ → Threads DaemonState (Option String) → Threads DaemonState (Option String)
run [] d = d
run (i ∷ is) d = elim (step i d) [ none ↦ d | some t ↦ run is t ]

-- Both have read; the second has the lock.
abbrev contended : Threads DaemonState (Option String)
contended = run (0 ∷ 1 ∷ 1 ∷ []) (accepted shared_mock)

abbrev Reachable : Threads DaemonState (Option String) → Type 0
Reachable d =
    Reach mock_backend one_file state_codec request_codec response_codec "state.json" input
      shared_mock d

contended-Reachable : Reachable contended
unfolding advance mock_backend from_line trim_line validate_version request_envelope
contended-Reachable = stepped 1 (stepped 1 (stepped 0 begun refl) refl) refl

Reach-IsSerial_example :
    IsSerial mock_backend one_file state_codec request_codec response_codec "state.json" input
      shared_mock contended
Reach-IsSerial_example =
    Reach-IsSerial mock_backend one_file state_codec request_codec response_codec "state.json" input
      shared_mock contended contended-Reachable

-- The socket file is there or not, and nothing fails.
abbrev one_socket : Net Bool
one_socket = record {
  parent = λ path. some "/run/cerynth";
  create_dir_all = λ path n. (ok tt, n);
  path_exists = λ path n. n;
  remove_file = λ path n. (ok tt, false);
  bind = λ path n. (ok tt, true);
  set_mode = λ path mode n. (ok tt, n);
}

abbrev one_socket-NetLaws : NetLaws one_socket
one_socket-NetLaws = record { removed = λ path n h. refl }

listen-IsListening_example : IsListening one_socket one_socket-NetLaws "cerynth.sock" true
unfolding listen
listen-IsListening_example =
    listen-IsListening one_socket one_socket-NetLaws "cerynth.sock" true true refl

serve_shutdown_example :
    let (spawned, ended, m) =
      serve one_socket "cerynth.sock"
        (Event.accepted (ok 3) ∷ Event.accepted (ok 4) ∷ shutdown (ok tt) ∷ [])
        true in
    (spawned ≡ 3 ∷ 4 ∷ []) × (ended ≡ stopped (ok tt)) × (m ≡ false)
serve_shutdown_example =
    serve_shutdown one_socket one_socket-NetLaws "cerynth.sock" (3 ∷ 4 ∷ []) (ok tt) [] true
      (λ h. refl)
