-- ===== src/Daemon/Threads.antt =====
-- services/cerynthd/src/server: the connections that listener.rs spawns, each a thread of its own, over
-- one backend behind its lock. A thread is at one of the places of `handle_connection` where another
-- thread may come in between; `log` has the outcomes, the latest first, and is no part of the code.
pub mod Invariant
pub mod Admission
pub mod Moves
pub mod Steps
pub mod Serial
pub mod Conversation
pub mod Upkeep
pub mod Progress
use cerynth_os.Base.{
  ℕ, ◌≡◌, ◌⊎◌, inl, inr, String, Bool, true, false, Option, none, some, List, [], ◌∷◌, Result, ok,
  err, ◌==◌, if◌then◌else◌,
}
use cerynth_os.Ipc.Messages.{to_request, Response, to_socket_response}
use cerynth_os.Ipc.Envelopes.{
  RequestEnvelope, ResponseEnvelope, validate_version, response_for_request,
}
use cerynth_os.Ipc.Frames.{Codec}
use cerynth_os.Ipc.Profiles.{SchedulerStatus}
use cerynth_os.Config.Files.{Fs, TextCodec}
use cerynth_os.Config.Settings.{RuntimeState, save_state}
use cerynth_os.Daemon.State.{Backend}
use cerynth_os.Daemon.Handlers.{handle_request}
use cerynth_os.Daemon.Server.{
  Shared, Served, read_error, closed, replied, state_of_status, decode_request, encode_response,
  handle_connection,
}

-- `waiting` is `backend.lock().await`; from `holding` to `saved` the thread has the lock.
pub data Phase : Type 0 where
  reading : Phase
  waiting : RequestEnvelope → Phase
  holding : RequestEnvelope → Phase
  handled : RequestEnvelope → Response → Phase
  reported : RequestEnvelope → Response → Result SchedulerStatus String → Phase
  saved : RequestEnvelope → Response → Phase
  finished : Served → Phase

abbrev pub in_section : Phase → Bool
in_section reading = false
in_section (waiting e) = false
in_section (holding e) = true
in_section (handled e r) = true
in_section (reported e r s) = true
in_section (saved e r) = true
in_section (finished out) = false

pub record Threads (S F : Type 0) : Type 0 where
  pub lock : Option ℕ
  pub shared : Shared S F
  pub phase : ℕ → Phase
  pub log : List (ℕ × Served)

abbrev pub update : ℕ → Phase → (ℕ → Phase) → ℕ → Phase
update i p f j = if i == j then p else f j

module _ {S F : Type 0} where
  abbrev pub goto : ℕ → Phase → Threads S F → Threads S F
  goto i p d = record d { phase = update i p d.phase }

  abbrev pub finish : ℕ → Served → Threads S F → Threads S F
  finish i out d = record d { phase = update i (finished out) d.phase; log = (i, out) ∷ d.log }

  abbrev pub acquire : ℕ → RequestEnvelope → Option ℕ → Threads S F → Option (Threads S F)
  acquire i e none d = some (record (goto i (holding e) d) { lock = some i })
  acquire i e (some j) d = none

  abbrev pub after_request :
      ℕ → RequestEnvelope → Threads S F → Option (Response × S) → Option (Threads S F)
  after_request i e d none = none
  after_request i e d (some (r, s)) =
      some (record (goto i (handled e r) d) { shared = record d.shared { backend = s } })

  abbrev pub after_status :
      ℕ
      → RequestEnvelope
      → Response
      → Threads S F
      → Option (Result SchedulerStatus String × S)
      → Option (Threads S F)
  after_status i e r d none = none
  after_status i e r d (some (st, s)) =
      some (record (goto i (reported e r st) d) { shared = record d.shared { backend = s } })

  -- Nothing is read and nobody holds the lock.
  abbrev pub accepted : Shared S F → Threads S F
  accepted sh = record { lock = none; shared = sh; phase = λ j. reading; log = [] }

-- `input` is what `stream.read` returns on each connection.
module _ {S F : Type 0} (b : Backend S) (fs : Fs F) (json : TextCodec RuntimeState)
    (requests : Codec RequestEnvelope) (responses : Codec ResponseEnvelope) (state_path : String)
    (input : ℕ → Result (List ℕ) String) where
  abbrev pub supported : RequestEnvelope → Served ⊎ RequestEnvelope
  supported e = elim (validate_version e) [ err v ↦ inl closed | ok _ ↦ inr e ]

  -- Up to the lock: the connection has ended, or its request waits.
  unfoldable pub admit : Result (List ℕ) String → Served ⊎ RequestEnvelope
  unfolding decode_request
  admit (err e) = inl (read_error e)
  admit (ok []) = inl closed
  admit (ok (x ∷ xs)) = elim (decode_request b fs json requests responses state_path (x ∷ xs)) [
    | err e ↦ inl closed
    | ok e ↦ supported e
  ]

  abbrev pub after_read : ℕ → Threads S F → Served ⊎ RequestEnvelope → Option (Threads S F)
  after_read i d (inl out) = some (finish i out d)
  after_read i d (inr e) = some (goto i (waiting e) d)

  abbrev pub save : Result SchedulerStatus String → Shared S F → Shared S F
  save (err e) sh = sh
  save (ok status) sh = record sh {
    disk = save_state fs json (state_of_status status) state_path sh.disk;
  }

  abbrev pub answer : RequestEnvelope → Response → Served
  answer e r = replied (
      encode_response b fs json requests responses state_path
        (response_for_request e (to_socket_response r)))

  abbrev pub advance_from : ℕ → Threads S F → Phase → Option (Threads S F)
  advance_from i d reading = after_read i d (admit (input i))
  advance_from i d (waiting e) = acquire i e d.lock d
  advance_from i d (holding e) =
      after_request i e d (handle_request b (to_request e.request) d.shared.backend)
  advance_from i d (handled e r) = after_status i e r d (b.status d.shared.backend)
  advance_from i d (reported e r st) =
      some (record (goto i (saved e r) d) { shared = save st d.shared })
  advance_from i d (saved e r) = some (record (finish i (answer e r) d) { lock = none })
  advance_from i d (finished out) = none

  -- The next step of thread `i`: none while it waits for the lock, and when it has finished.
  unfoldable pub advance : ℕ → Threads S F → Option (Threads S F)
  unfolding admit state_of_status encode_response
  advance i d = advance_from i d (d.phase i)

  pub data Reach (sh : Shared S F) : Threads S F → Type 0 where
    begun : Reach sh (accepted sh)
    stepped : {d t : Threads S F} (i : ℕ) → Reach sh d → advance i d ≡ some t → Reach sh t

  -- What the daemon promises: one whole connection after another.
  pub data Sequential (sh : Shared S F) : List (ℕ × Served) → Shared S F → Type 0 where
    idle : Sequential sh [] sh
    served :
        {log : List (ℕ × Served)} {a t : Shared S F} (i : ℕ) (out : Served)
        → Sequential sh log a
        → handle_connection b fs json requests responses state_path (input i) a ≡ some (out, t)
        → Sequential sh ((i, out) ∷ log) t
