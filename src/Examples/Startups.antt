-- ===== src/Examples/Startups.antt =====
-- A daemon that starts the scheduler, and two connections to it: the first one waits for the lock, which
-- the second one has.
use cerynth_os.Base.{
  ℕ, ◌≡◌, refl, String, true, false, Option, none, some, List, [], ◌∷◌, Result, ok, err,
}
use cerynth_os.Ipc.Profiles.{balanced, interactive, scx}
use cerynth_os.Ipc.Envelopes.{validate_version, request_envelope}
use cerynth_os.Ipc.Frames.{from_line, trim_line}
use cerynth_os.Config.Files.{TextCodec}
use cerynth_os.Config.Settings.{Config}
use cerynth_os.Daemon.Server.{Shared}
use cerynth_os.Daemon.Contract.{Steps, serve_requests}
use cerynth_os.Ipc.Messages.{Request, Response}
use cerynth_os.Startup.Main.Promised.{view, CannotPoll, boot-Steps}
use cerynth_os.Daemon.Threads.{Threads, accepted, advance, Reach, begun, stepped}
use cerynth_os.Startup.{DynBackend, dyn_backend, state_path}
use cerynth_os.Startup.Restart.{settings}
use cerynth_os.Startup.Main.{Variables, loaded_state, boot}
use cerynth_os.Startup.Main.Boot.{InStep, boot_lem}
use cerynth_os.Startup.Main.Serving.{boot-serves}
use cerynth_os.Startup.Main.Conversing.{Reaches, Converses, boot-Converses}
use cerynth_os.Daemon.Threads.Invariant.{replies_of, outcome}
use cerynth_os.Examples.Worlds.{
  simulated, simulated-Clocked, World, one_file, state_codec, request_codec, response_codec,
}
use cerynth_os.Examples.Connections.{input, still}

abbrev scx_config : Config
scx_config = record {
  default_profile = balanced;
  adaptation_enabled = false;
  scheduler_backend = scx;
  scheduler_binary = "cerynth-scx";
  auto_start = true;
}

refused-ok :
    (c : Config) (text : String)
    → ◌≡◌ {A = Result String String} (err "refused") (ok text)
    → ◌≡◌ {A = Result Config String} (ok scx_config) (ok c)
refused-ok c text h = absurd (cc)

-- The configuration is read, and never written.
abbrev scx_codec : TextCodec Config
scx_codec = record {
  to_string_pretty = λ c. err "refused";
  from_str = λ text. ok scx_config;
  from_str-to_string = refused-ok;
}

abbrev no_variables : Variables
no_variables = record { config_var = none; state_var = none; binary_var = none }

abbrev booted : Option (DynBackend World)
booted = boot simulated one_file scx_codec state_codec no_variables (some "interactive") still

boot_lem_example :
    (b : DynBackend World) × (booted ≡ some b)
    × (settings b ≡ (
      (loaded_state simulated one_file scx_codec state_codec no_variables
          (some "interactive")).profile,
      (loaded_state simulated one_file scx_codec state_codec no_variables
          (some "interactive")).adaptation_enabled,
    ))
    × InStep b
boot_lem_example =
    boot_lem simulated simulated-Clocked one_file scx_codec state_codec no_variables
      (some "interactive") still

-- The backend that the daemon serves with.
abbrev serving_backend : DynBackend World
serving_backend =
    (boot_lem simulated simulated-Clocked one_file scx_codec state_codec no_variables
      (some "interactive") still).0

abbrev serving : Shared (DynBackend World) (Option String)
serving = record { backend = serving_backend; disk = some "interactive" }

abbrev step :
    ℕ
    → Threads (DynBackend World) (Option String)
    → Option (Threads (DynBackend World) (Option String))
step i d =
    advance (dyn_backend simulated) one_file state_codec request_codec response_codec
      "/var/lib/cerynth/state.json" input i d

abbrev run :
    List ℕ → Threads (DynBackend World) (Option String) → Threads (DynBackend World) (Option String)
run [] d = d
run (i ∷ is) d = elim (step i d) [ none ↦ d | some t ↦ run is t ]

abbrev contended : Threads (DynBackend World) (Option String)
contended = run (0 ∷ 1 ∷ 1 ∷ []) (accepted serving)

contended-Reachable :
    Reach
      (dyn_backend simulated)
      one_file
      state_codec
      request_codec
      response_codec
      "/var/lib/cerynth/state.json"
      input
      serving
      contended
unfolding advance from_line trim_line validate_version request_envelope
contended-Reachable = stepped 1 (stepped 1 (stepped 0 begun refl) refl) refl

boot-serves_example :
    InStep contended.shared.backend
    × ((j : ℕ) × (next : Threads (DynBackend World) (Option String)) × (step j contended
          ≡ some next))
unfolding advance from_line trim_line validate_version request_envelope
boot-serves_example =
    boot-serves simulated simulated-Clocked one_file scx_codec state_codec request_codec
      response_codec "/var/lib/cerynth/state.json" input no_variables (some "interactive")
      (some "interactive") still serving_backend contended 0
      (boot_lem simulated simulated-Clocked one_file scx_codec state_codec no_variables
        (some "interactive") still).1
      contended-Reachable (λ out h. cc)

abbrev two_requests : List Request
two_requests = Request.set_profile interactive ∷ Request.get_profile ∷ []

boot-Steps_example :
    (as' : List Response) × (b' : DynBackend World) × (serve_requests
        (dyn_backend simulated)
        two_requests
        serving_backend
      ≡ some (as', b'))
    × Steps
        (CannotPoll simulated simulated-Clocked)
        (record {
          profile =
              (loaded_state simulated one_file scx_codec state_codec no_variables
                (some "interactive")).profile;
          adaptation_enabled =
              (loaded_state simulated one_file scx_codec state_codec no_variables
                (some "interactive")).adaptation_enabled;
        })
        two_requests
        as'
        (view b')
    × InStep b'
boot-Steps_example =
    boot-Steps simulated simulated-Clocked one_file scx_codec state_codec no_variables
      (some "interactive") still serving_backend two_requests
      (boot_lem simulated simulated-Clocked one_file scx_codec state_codec no_variables
        (some "interactive") still).1

-- Both connections come to an end; the second is answered first.
abbrev answered_both : Threads (DynBackend World) (Option String)
answered_both = run (0 ∷ 1 ∷ 1 ∷ 1 ∷ 1 ∷ 1 ∷ 1 ∷ 0 ∷ 0 ∷ 0 ∷ 0 ∷ 0 ∷ []) (accepted serving)

abbrev ReachesHere : Threads (DynBackend World) (Option String) → Type 0
ReachesHere =
    Reaches simulated simulated-Clocked one_file scx_codec state_codec request_codec response_codec
      input no_variables serving

after-ReachesHere :
    (is : List ℕ) (d : Threads (DynBackend World) (Option String))
    (o : Option (Threads (DynBackend World) (Option String)))
    → ReachesHere d
    → ((t : Threads (DynBackend World) (Option String)) → o ≡ some t → ReachesHere (run is t))
    → ReachesHere (elim o [ none ↦ d | some t ↦ run is t ])
after-ReachesHere is d none r next = r
after-ReachesHere is d (some t) r next = next t refl

run-ReachesHere :
    (is : List ℕ) (d : Threads (DynBackend World) (Option String))
    → ReachesHere d
    → ReachesHere (run is d)
unfolding state_path
run-ReachesHere [] d r = r
run-ReachesHere (i ∷ is) d r =
    after-ReachesHere is d (step i d) r (λ t h. run-ReachesHere is t (stepped i r h))

boot-Converses_example :
    (a : Shared (DynBackend World) (Option String)) × Converses simulated simulated-Clocked one_file
      scx_codec state_codec request_codec response_codec input no_variables
      (some "interactive")
      answered_both
      a
    × (answered_both.lock ≡ none → answered_both.shared ≡ a)
    × ((j : ℕ) → replies_of j answered_both.log ≡ outcome (answered_both.phase j))
boot-Converses_example =
    boot-Converses simulated simulated-Clocked one_file scx_codec state_codec request_codec
      response_codec input no_variables (some "interactive") still serving_backend answered_both
      (boot_lem simulated simulated-Clocked one_file scx_codec state_codec no_variables
        (some "interactive") still).1
      (run-ReachesHere (0 ∷ 1 ∷ 1 ∷ 1 ∷ 1 ∷ 1 ∷ 1 ∷ 0 ∷ 0 ∷ 0 ∷ 0 ∷ 0 ∷ []) (accepted serving)
        begun)
