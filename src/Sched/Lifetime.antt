-- ===== src/Sched/Lifetime.antt =====
-- schedulers/cerynth-scx/src: main.rs, initialization.rs and the set-up in bpf.rs and reporter.rs, from
-- the start of the process to its end. libbpf, the allocator and the system calls are parameters.
pub mod Actions
pub mod Protocol
pub mod Main
pub mod Phases
pub mod Safety
pub mod Signals
pub mod Flags
use cerynth_os.Base.{
  ℕ, zero, suc, ◌+◌, String, Bool, true, false, Option, none, some, List, [], Result, ok, err, ◌∷◌,
  format, if◌then◌else◌,
}
use cerynth_os.Base.Integers.{ℤ, pos, negsuc, show_ℤ}
use cerynth_os.Base.Disk.{Disk}
use cerynth_os.Policy.Floats.{Float64}
use cerynth_os.Sched.Tasks.{Profile}
use cerynth_os.Sched.Ring.{Kernel}
use cerynth_os.Sched.Dispatch.{SchedulerStats}
use cerynth_os.Sched.Status.{SchedulerStatus, stopped_status}
use cerynth_os.Sched.Reporter.{Snapshot}
use cerynth_os.Sched.Files.{write_status}
use cerynth_os.Sched.Loop.{Host, Running, write_stats, run_step}
use cerynth_os.Sched.Lifetime.Actions.{
  Effect, reporter_spawned, memory_locked, attached, detached, memory_unlocked, reporter_reaped,
  stopped_written, Outcome, done, failed, panicked, unfinished, Books, Process, Action, ◌>>=◌, ◌>>◌,
  call, expect, note, booked,
}

pub record Libs (K E : Type 0) : Type 0 where
  pub current_exe : K → Result (Unit {0}) String × K
  pub socket_pair : K → Result (Unit {0}) String × K
  pub set_nonblocking : K → Result (Unit {0}) String × K
  pub spawn : K → Result (Unit {0}) String × K
  pub set_handler : K → Result (Unit {0}) String × K
  pub ops_open : K → Result (Unit {0}) String × K
  pub topology : K → Result (Unit {0}) String × K
  pub ops_load : K → Result (Unit {0}) String × K
  pub add_callback : K → Result (Unit {0}) String × K
  pub build_queued : K → Result (Unit {0}) String × K
  pub new_dispatched : K → Result (Unit {0}) String × K
  pub disable_mmap : K → Result (Unit {0}) String × K
  -- The return value of `pthread_setschedparam`.
  pub use_sched_ext : K → ℤ × K
  pub ops_attach : K → Result (Unit {0}) String × K
  pub uei_report : K → Result E String × K
  pub should_restart : E → Bool
  pub read_state : K → Result String String × K
  pub trim : String → String

-- The order of initialization.rs, for any state.
abbrev pub attached_after : {S P L : Type 0} → P → Outcome L × S → Outcome (P × L) × S
attached_after prepared (done link, s) = (done (prepared, link), s)
attached_after prepared (failed e, s) = (failed e, s)
attached_after prepared (panicked, s) = (panicked, s)
attached_after prepared (unfinished, s) = (unfinished, s)

abbrev pub prepared_then :
    {S P L : Type 0} → (S → Outcome L × S) → Outcome P × S → Outcome (P × L) × S
prepared_then attach (done prepared, s) = attached_after prepared (attach s)
prepared_then attach (failed e, s) = (failed e, s)
prepared_then attach (panicked, s) = (panicked, s)
prepared_then attach (unfinished, s) = (unfinished, s)

unfoldable pub prepare_then_attach :
    {S P L : Type 0} → (S → Outcome P × S) → (S → Outcome L × S) → S → Outcome (P × L) × S
prepare_then_attach prepare attach s = prepared_then attach (prepare s)

-- What happens to the books when a value goes out of scope.
abbrev pub drop_memory : Books → Books
drop_memory b =
    if b.armed then record b { armed = false; effects = memory_unlocked ∷ b.effects } else b

abbrev pub drop_link : Books → Books
drop_link b =
    if b.struct_ops then record b { struct_ops = false; effects = detached ∷ b.effects } else b

-- In the order of the fields: the BPF side first, then the reporter.
abbrev pub drop_scheduler : Books → Books
drop_scheduler b = note reporter_reaped (note memory_unlocked (drop_link b))

module _ {K : Type 0} where
  -- Run `f` on the books on the way out of a scope, by `?` or by a panic.
  abbrev pub on_error :
      {A : Type 0} → (Books → Books) → Outcome A × Process K → Outcome A × Process K
  on_error f (done a, p) = (done a, p)
  on_error f (failed e, p) = (failed e, record p { books = f p.books })
  on_error f (panicked, p) = (panicked, record p { books = f p.books })
  on_error f (unfinished, p) = (unfinished, p)

  -- And at its end.
  abbrev pub at_end : {A : Type 0} → (Books → Books) → Outcome A × Process K → Outcome A × Process K
  at_end f (done a, p) = (done a, record p { books = f p.books })
  at_end f (failed e, p) = (failed e, record p { books = f p.books })
  at_end f (panicked, p) = (panicked, record p { books = f p.books })
  at_end f (unfinished, p) = (unfinished, p)

module _ {K E : Type 0} (libs : Libs K E) where
  -- `Reporter::start` and `with_command`.
  unfoldable pub reporter_start : Action K (Unit {0})
  reporter_start =
      call libs.current_exe
      >> call libs.socket_pair
      >> call libs.set_nonblocking
      >> call libs.spawn
      >> booked (note reporter_spawned)

  abbrev pub handler_set : ℕ → Option ℕ → Action K (Unit {0})
  handler_set flag none =
      expect libs.set_handler >> λ p. (done tt, record p { handler = some flag })
  handler_set flag (some other) = λ p. (done tt, p)

  -- The `Once` lets the first flag in, and no other.
  unfoldable pub set_ctrlc_handler : ℕ → Action K (Unit {0})
  set_ctrlc_handler flag p = handler_set flag p.handler p

  abbrev pub new_flag : Action K ℕ
  new_flag p = (done p.flags, record p { flags = p.flags + 1 })

  -- Only a value below 0 counts as an error.
  abbrev pub entered : ℤ × K → Action K (Unit {0})
  entered (pos n, k) p = (done tt, record p { kernel = k })
  entered (negsuc n, k) p = (
    failed (format ("sched_setscheduler error: " ∷ show_ℤ (negsuc n) ∷ [])),
    record p { kernel = k },
  )

  abbrev pub enter_sched_ext : Bool → Action K (Unit {0})
  enter_sched_ext true = λ p. entered (libs.use_sched_ext p.kernel) p
  enter_sched_ext false = λ p. (done tt, p)

  unfoldable pub prepare : Bool → Action K (Unit {0})
  prepare partial =
      expect libs.add_callback
      >> expect libs.build_queued
      >> expect libs.new_dispatched
      >> booked (λ b. note memory_locked (record b { armed = true }))
      >> expect libs.disable_mmap
      >> enter_sched_ext partial

  unfoldable pub attach_ops : Action K (Unit {0})
  attach_ops = call libs.ops_attach >> booked (note attached)

  -- The rings and the link, under the guard of the memory settings.
  unfoldable pub set_up : Bool → Action K (Unit {0} × Unit {0})
  set_up partial p = on_error drop_memory (prepare_then_attach (prepare partial) attach_ops p)

  -- `BpfScheduler::init`: the number of its shutdown flag.
  unfoldable pub bpf_init : Bool → Action K ℕ
  bpf_init partial = new_flag >>= λ flag.
      set_ctrlc_handler flag
      >> call libs.ops_open
      >> expect libs.topology
      >> call libs.ops_load
      >> set_up partial
      >> booked (λ b. record b { struct_ops = true; armed = false })
      >> λ p. (done flag, p)

  -- `Scheduler::init`
  unfoldable pub scheduler_init : Action K ℕ
  scheduler_init = reporter_start >> λ p. on_error (note reporter_reaped) (bpf_init false p)

  unfoldable pub shutdown_and_report : Action K E
  shutdown_and_report = booked drop_link >> call libs.uei_report

  unfoldable pub read_sched_ext_state : Result String String → String
  read_sched_ext_state (ok text) = libs.trim text
  read_sched_ext_state (err e) = "unavailable"
