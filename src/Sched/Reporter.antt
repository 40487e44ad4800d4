-- ===== src/Sched/Reporter.antt =====
-- schedulers/cerynth-scx/src/reporter.rs: snapshots from the dispatch loop to the reporting process,
-- and what this process writes. The receive calls of one drain are a list of their outcomes.
pub mod Latest
pub mod Rounds
pub mod Kept
use text.Mathlib.Text.{◌==◌ as str_eq}
use cerynth_os.Base.{
  ℕ, String, Bool, true, false, not, ◌||◌, Option, none, some, List, [], ◌∷◌, Result, ok, err,
  length, ltb, ◌==◌, if◌then◌else◌,
}
use cerynth_os.Base.Text.{trim}
use cerynth_os.Sched.Status.{SchedulerStatus, running_status}
use cerynth_os.Sched.Dispatch.{SchedulerStats}

abbrev pub max_snapshot : ℕ
max_snapshot = 8192

pub record Snapshot (R : Type 0) : Type 0 where
  pub status : SchedulerStatus
  pub stats : SchedulerStats R

-- What `UnixDatagram::send` does.
pub data Sent : Type 0 where
  sent : ℕ → Sent
  would_block : Sent
  interrupted : Sent
  failed : String → Sent

-- What `UnixDatagram::recv` does.
pub data Received : Type 0 where
  datagram : List ℕ → Received
  would_block : Received
  interrupted : Received
  failed : String → Received

-- A full queue drops the snapshot: `ok false`.
unfoldable pub after_send : ℕ → Sent → Result Bool String
after_send size (Sent.sent n) = if n == size then ok true else err "partial scheduler datagram"
after_send size Sent.would_block = ok false
after_send size Sent.interrupted = ok false
after_send size (Sent.failed e) = err e

-- Bytes that are too many are not sent at all.
unfoldable pub send_snapshot :
    {K : Type 0} → (List ℕ → K → Sent × K) → List ℕ → K → Result Bool String × K
unfolding after_send
send_snapshot send bytes k =
    if ltb max_snapshot (length bytes)
    then (err "oversized scheduler snapshot", k)
    else (let (outcome, k') = send bytes k in (after_send (length bytes) outcome, k'))

module _ {R : Type 0} (encode : Snapshot R → Result (List ℕ) String) where
  unfoldable pub publish :
      {K : Type 0}
      → (List ℕ → K → Sent × K)
      → ℕ
      → String
      → ℕ
      → ℕ
      → SchedulerStats R
      → K
      → Result Bool String × K
  unfolding send_snapshot running_status
  publish send pid profile started_at_ms now stats k =
      elim (encode
        (record { status = running_status pid profile started_at_ms now; stats = stats })) [
          | err e ↦ (err e, k)
          | ok bytes ↦ send_snapshot send bytes k
        ]

module _ {R : Type 0} (decode : List ℕ → Result (Snapshot R) String) where
  -- The inner loop: the latest frame wins, a frame that cannot be read ends it with an error.
  unfoldable pub drain : Option (Snapshot R) → List Received → Result (Option (Snapshot R)) String
  drain latest [] = ok latest
  drain latest (datagram bytes ∷ rest) = elim (decode bytes) [
    | err e ↦ err e
    | ok snapshot ↦ drain (some snapshot) rest
  ]
  drain latest (Received.would_block ∷ rest) = ok latest
  drain latest (Received.interrupted ∷ rest) = drain latest rest
  drain latest (Received.failed e ∷ rest) = err e

  -- The state of sched_ext is read anew, the rest of the snapshot stays.
  unfoldable pub with_state : Snapshot R → String → Snapshot R
  with_state s contents =
      let state = trim contents in
      record s {
        status = record s.status { sched_ext_state = state; healthy = str_eq state "enabled" };
      }

  -- The argument after the snapshot is the result of reading the state file.
  unfoldable pub observe_latest :
      ℕ → Option (Snapshot R) → Result String String → Result (Option (Snapshot R)) String
  unfolding with_state
  observe_latest parent none contents = ok none
  observe_latest parent (some s) contents =
      if not (s.status.pid == parent) || not (s.stats.pid == parent)
      then err "snapshot PID mismatch"
      else elim contents [ err e ↦ err e | ok text ↦ ok (some (with_state s text)) ]

  -- What one round of `run` writes, if it writes: the two files get the status and the counters.
  unfoldable pub observe :
      ℕ → List Received → Result String String → Result (Option (Snapshot R)) String
  unfolding observe_latest drain
  observe parent outcomes contents = elim (drain none outcomes) [
    | err e ↦ err e
    | ok latest ↦ observe_latest parent latest contents
  ]
