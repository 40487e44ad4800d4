-- ===== src/Daemon/Threads/Serial.antt =====
-- services/cerynthd/src/server/listener.rs and connection.rs: the threads against a daemon that serves one whole connection after another.

use cerynth_os.Base.{ℕ, ◌≡◌, refl, String, none, List, Result}
use cerynth_os.Ipc.Envelopes.{RequestEnvelope, ResponseEnvelope}
use cerynth_os.Ipc.Frames.{Codec}
use cerynth_os.Config.Files.{Fs, TextCodec}
use cerynth_os.Config.Settings.{RuntimeState}
use cerynth_os.Daemon.State.{Backend}
use cerynth_os.Daemon.Server.{Shared}
use cerynth_os.Daemon.Threads.{Threads, advance, Reach, begun, stepped, Sequential, idle}
use cerynth_os.Daemon.Threads.Invariant.{none_not_some, replies_of, outcome, IsConsistent}
use cerynth_os.Daemon.Threads.Steps.{advance_from-IsConsistent}

module _ {S F : Type 0} (b : Backend S) (fs : Fs F) (json : TextCodec RuntimeState)
    (requests : Codec RequestEnvelope) (responses : Codec ResponseEnvelope) (state_path : String)
    (input : ℕ → Result (List ℕ) String) where
  -- The daemon that serves one whole connection after another, in the order of the log, can be in
  -- the state `atomic`; this is the shared state when the lock is free.
  pub record IsSerial (sh : Shared S F) (d : Threads S F) : Type 0 where
    pub atomic : Shared S F
    pub sequential : Sequential b fs json requests responses state_path input sh d.log atomic
    pub settled : d.lock ≡ none → d.shared ≡ atomic
    pub answers : (j : ℕ) → replies_of j d.log ≡ outcome (d.phase j)

  pub Reach-IsConsistent :
      (sh : Shared S F) (d : Threads S F)
      → Reach b fs json requests responses state_path input sh d
      → IsConsistent b fs json requests responses state_path input sh d
  unfolding advance
  Reach-IsConsistent sh _ begun = record {
    atomic = sh;
    sequential = idle;
    settled = λ h. refl;
    answers = λ j. refl;
    admitted = λ j. tt;
    within = λ j h. absurd (none_not_some j h);
    exclusive = λ j h. cc;
  }
  Reach-IsConsistent sh _ (stepped {d} {t} i r h) =
      advance_from-IsConsistent b fs json requests responses state_path input sh d t i (d.phase i)
        (Reach-IsConsistent sh d r) refl h

  -- However the threads of the connections interleave over the locked backend, the outcomes so
  -- far are those of a daemon that serves one whole connection after another, in the order of the
  -- log; the state this daemon reaches is the shared one whenever the lock is free; and each
  -- connection has one outcome in the log if it has finished, that very one, and none before.
  pub Reach-IsSerial :
      (sh : Shared S F) (d : Threads S F)
      → Reach b fs json requests responses state_path input sh d
      → IsSerial sh d
  Reach-IsSerial sh d r =
      let s = Reach-IsConsistent sh d r in
      record {
        atomic = s.atomic;
        sequential = s.sequential;
        settled = s.settled;
        answers = s.answers;
      }
