-- ===== src/Daemon/Threads/Invariant.antt =====
-- services/cerynthd/src/server/listener.rs and connection.rs: what the lock guarantees at every moment.

use cerynth_os.Base.{
  ℕ, ◌≡◌, inr, String, true, none, some, List, [], ◌∷◌, Result, ◌==◌, if◌then◌else◌,
}
use cerynth_os.Ipc.Messages.{to_request}
use cerynth_os.Ipc.Envelopes.{RequestEnvelope, ResponseEnvelope}
use cerynth_os.Ipc.Frames.{Codec}
use cerynth_os.Config.Files.{Fs, TextCodec}
use cerynth_os.Config.Settings.{RuntimeState}
use cerynth_os.Daemon.State.{Backend}
use cerynth_os.Daemon.Handlers.{handle_request}
use cerynth_os.Daemon.Server.{Shared, Served, persist_after}
use cerynth_os.Daemon.Threads.{
  Phase, reading, waiting, holding, handled, reported, saved, finished, in_section, Threads, admit,
  Sequential,
}

-- The outcomes of one connection.
abbrev pub replies_of : ℕ → List (ℕ × Served) → List Served
replies_of j [] = []
replies_of j ((i, out) ∷ log) = if i == j then out ∷ replies_of j log else replies_of j log

abbrev pub outcome : Phase → List Served
outcome reading = []
outcome (waiting e) = []
outcome (holding e) = []
outcome (handled e r) = []
outcome (reported e r st) = []
outcome (saved e r) = []
outcome (finished out) = out ∷ []

pub some_injective : {A : Type 0} (i j : A) → some i ≡ some j → i ≡ j
some_injective i j h = cc

pub none_not_some : {A : Type 0} (j : A) → none ≡ some j → ⊥
none_not_some j h = cc

module _ {S F : Type 0} (b : Backend S) (fs : Fs F) (json : TextCodec RuntimeState)
    (requests : Codec RequestEnvelope) (responses : Codec ResponseEnvelope) (state_path : String)
    (input : ℕ → Result (List ℕ) String) where
  -- What a thread with the lock has done to the state `a` that it found.
  abbrev pub Within : Phase → Shared S F → Shared S F → Type 0
  Within reading a sh = ⊥
  Within (waiting e) a sh = ⊥
  Within (holding e) a sh = sh ≡ a
  Within (handled e r) a sh =
      (handle_request b (to_request e.request) a.backend ≡ some (r, sh.backend))
      × (sh.disk ≡ a.disk)
  Within (reported e r st) a sh =
      (s : S) × (handle_request b (to_request e.request) a.backend ≡ some (r, s))
      × (b.status s ≡ some (st, sh.backend))
      × (sh.disk ≡ a.disk)
  Within (saved e r) a sh =
      persist_after b fs json requests responses state_path a.disk
        (handle_request b (to_request e.request) a.backend)
      ≡ some (r, sh)
  Within (finished out) a sh = ⊥

  -- A request that waits is the one that was read.
  abbrev pub Admitted : ℕ → Phase → Type 0
  Admitted j reading = Unit {0}
  Admitted j (waiting e) = admit b fs json requests responses state_path input (input j) ≡ inr e
  Admitted j (holding e) = admit b fs json requests responses state_path input (input j) ≡ inr e
  Admitted j (handled e r) = admit b fs json requests responses state_path input (input j) ≡ inr e
  Admitted j (reported e r st) =
      admit b fs json requests responses state_path input (input j) ≡ inr e
  Admitted j (saved e r) = admit b fs json requests responses state_path input (input j) ≡ inr e
  Admitted j (finished out) = Unit {0}

  -- The connections that are done were served one after another, up to the state `atomic`.
  pub record IsConsistent (sh : Shared S F) (d : Threads S F) : Type 0 where
    pub atomic : Shared S F
    pub sequential : Sequential b fs json requests responses state_path input sh d.log atomic
    pub settled : d.lock ≡ none → d.shared ≡ atomic
    pub answers : (j : ℕ) → replies_of j d.log ≡ outcome (d.phase j)
    pub admitted : (j : ℕ) → Admitted j (d.phase j)
    pub within : (j : ℕ) → d.lock ≡ some j → Within (d.phase j) atomic d.shared
    pub exclusive : (j : ℕ) → in_section (d.phase j) ≡ true → d.lock ≡ some j
