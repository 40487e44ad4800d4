-- ===== src/Startup/Main/Conversing.antt =====
-- services/cerynthd/src/main.rs: what the clients of a new daemon are told, and what it saves.
use mathlib.Core.Path.{subst}
use cerynth_os.Base.{ℕ, ◌≡◌, sym, ap, ◌∙◌, String, some, none, List, Result}
use cerynth_os.Ipc.Envelopes.{RequestEnvelope, ResponseEnvelope}
use cerynth_os.Ipc.Frames.{Codec}
use cerynth_os.Config.Files.{Fs, TextCodec}
use cerynth_os.Config.Settings.{Config, RuntimeState}
use cerynth_os.Daemon.Contract.{Settings}
use cerynth_os.Daemon.Server.{Shared}
use cerynth_os.Daemon.Threads.{Threads, Reach}
use cerynth_os.Daemon.Threads.Invariant.{some_injective, replies_of, outcome}
use cerynth_os.Daemon.Threads.Conversation.{Conversation, Reach-Conversation}
use cerynth_os.Scx.Os.{Os, Clocked}
use cerynth_os.Startup.{DynBackend, dyn_backend, state_path}
use cerynth_os.Startup.Restart.{settings}
use cerynth_os.Startup.Main.{Variables, loaded_state, boot}
use cerynth_os.Startup.Main.Boot.{InStep, boot_lem}
use cerynth_os.Startup.Main.Promised.{as_settings, view, CannotPoll, dyn_backend-Refines}

module _ {W J F : Type 0} (os : Os W J) (t : Clocked os) (fs : Fs F) (toml : TextCodec Config)
    (json : TextCodec RuntimeState) (requests : Codec RequestEnvelope)
    (responses : Codec ResponseEnvelope) (input : ℕ → Result (List ℕ) String) (v : Variables) where
  abbrev pub Reaches : Shared (DynBackend W) F → Threads (DynBackend W) F → Type 0
  Reaches = Reach (dyn_backend os) fs json requests responses (state_path v.state_var) input

  -- The settings of the state file that is loaded.
  abbrev pub loaded_settings : F → Settings
  loaded_settings f = record {
    profile = (loaded_state os fs toml json v f).profile;
    adaptation_enabled = (loaded_state os fs toml json v f).adaptation_enabled;
  }

  abbrev pub Converses : F → Threads (DynBackend W) F → Shared (DynBackend W) F → Type 0
  Converses f d a =
      Conversation (dyn_backend os) fs json requests responses (state_path v.state_var) input
        (CannotPoll os t) (loaded_settings f) f d.log (view a.backend) a.disk

  -- On a clock that never runs backwards, and whichever backend a daemon begins to serve with
  -- after its start-up: however the threads of its connections interleave, the outcomes so far
  -- are, in the order of the log, those of a conversation by the contract of the trait, which
  -- begins with the settings and the files that were loaded. A connection without a request that
  -- is understood changes neither settings nor files. Every other one gets the line of a response
  -- that the contract allows, in the current version of the protocol and with the correlation id
  -- of the request; after it the state file is as it was, or is written from a status with the
  -- settings then in force. A status is answered by an error only with the message of a poll of a
  -- child that failed. The settings and the files at the end of the conversation are the shared
  -- ones whenever the lock is free, and each connection has one outcome in the log if it has
  -- finished, that very one, and none before.
  pub boot-Converses :
      (f : F) (w : W) (b : DynBackend W) (d : Threads (DynBackend W) F)
      → boot os fs toml json v f w ≡ some b
      → Reaches (record { backend = b; disk = f }) d
      → (a : Shared (DynBackend W) F) × Converses f d a
        × (d.lock ≡ none → d.shared ≡ a)
        × ((j : ℕ) → replies_of j d.log ≡ outcome (d.phase j))
  boot-Converses f w b d h r =
      let (b₀, h₀, same₀, k₀) = boot_lem os t fs toml json v f w in
      let e = some_injective b₀ b (sym h₀ ∙ h) in
      let same = ap as_settings (ap settings (sym e) ∙ same₀) in
      let (a, talk, settled, once) =
        Reach-Conversation (dyn_backend os) fs json requests responses (state_path v.state_var)
          input (CannotPoll os t) InStep view (dyn_backend-Refines os t)
          (record { backend = b; disk = f }) d (subst InStep e k₀) r in
      (
        a,
        subst
            (λ s.
              Conversation (dyn_backend os) fs json requests responses (state_path v.state_var)
                input (CannotPoll os t) s f d.log (view a.backend) a.disk)
            same talk,
        settled,
        once,
      )
