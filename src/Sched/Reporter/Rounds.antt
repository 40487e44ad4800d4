-- ===== src/Sched/Reporter/Rounds.antt =====
-- schedulers/cerynth-scx/src/reporter.rs, `run`: the reporting process from start to end, and the status
-- file that it keeps.
use cerynth_os.Base.{
  ℕ, zero, suc, ◌==◌, Bool, true, false, String, Option, none, some, List, Result, ok, err,
}
use cerynth_os.Base.Disk.{Disk, and_next}
use cerynth_os.Sched.Dispatch.{SchedulerStats}
use cerynth_os.Sched.Status.{SchedulerStatus}
use cerynth_os.Sched.Files.{write_status, write_stats_file}
use cerynth_os.Sched.Reporter.{Snapshot, Received, observe}

-- `receive` is what the receive calls of one drain return, `read_state` the state file of sched_ext.
pub record Child (W : Type 0) : Type 0 where
  pub prctl : W → Result (Unit {0}) String × W
  pub getppid : W → ℕ × W
  pub set_nonblocking : W → Result (Unit {0}) String × W
  pub receive : W → List Received × W
  pub read_state : W → Result String String
  pub sleep_ms : ℕ → W → W

-- `running` is a loop that was cut off.
pub data Ended : Type 0 where
  running : Ended
  returned : Result (Unit {0}) String → Ended

module _ {W D R : Type 0} (child : Child W) (disk : Disk D)
    (decode : List ℕ → Result (Snapshot R) String) (pretty : SchedulerStatus → Result String String)
    (to_vec : SchedulerStats R → Result String String) (parent : ℕ) where
  unfoldable pub write_snapshot : Snapshot R → D → Result (Unit {0}) String × D
  write_snapshot s d =
      and_next (write_status disk pretty s.status d) λ x. write_stats_file disk (to_vec s.stats) x

  abbrev pub write_observed : Result (Option (Snapshot R)) String → D → Result (Unit {0}) String × D
  write_observed (err e) d = (err e, d)
  write_observed (ok none) d = (ok tt, d)
  write_observed (ok (some s)) d = write_snapshot s d

  abbrev pub next_round : (W → D → Ended × W × D) → W → Result (Unit {0}) String × D → Ended × W × D
  next_round next w (err e, d) = (returned (err e), w, d)
  next_round next w (ok _, d) = next (child.sleep_ms 100 w) d

  abbrev pub while_child : Bool → (W → D → Ended × W × D) → W → D → Ended × W × D
  while_child false next w d = (returned (ok tt), w, d)
  while_child true next w d =
      let (outcomes, w₁) = child.receive w in
      next_round next w₁ (write_observed (observe decode parent outcomes (child.read_state w₁)) d)

  -- `while getppid() == parent`
  unfoldable pub report_rounds : ℕ → W → D → Ended × W × D
  unfolding write_snapshot
  report_rounds zero w d = (running, w, d)
  report_rounds (suc n) w d =
      let (ppid, w₁) = child.getppid w in
      while_child (ppid == parent) (λ v x. report_rounds n v x) w₁ d

  abbrev pub with_receiver : ℕ → Result (Unit {0}) String × W → D → Ended × W × D
  with_receiver n (err e, w) d = (returned (err e), w, d)
  with_receiver n (ok _, w) d = report_rounds n w d

  abbrev pub if_parent : Bool → ℕ → W → D → Ended × W × D
  if_parent false n w d = (returned (ok tt), w, d)
  if_parent true n w d = with_receiver n (child.set_nonblocking w) d

  abbrev pub after_prctl : ℕ → Result (Unit {0}) String × W → D → Ended × W × D
  after_prctl n (err e, w) d = (returned (err e), w, d)
  after_prctl n (ok _, w) d = let (ppid, w₁) = child.getppid w in if_parent (ppid == parent) n w₁ d

  unfoldable pub run : ℕ → W → D → Ended × W × D
  unfolding report_rounds
  run n w d = after_prctl n (child.prctl w) d
