-- ===== src/Sched/Dispatch.antt =====
-- schedulers/cerynth-scx/src/main.rs: one round of the dispatch loop, and status.rs's counters. Sums
-- of 64-bit counters wrap around, as in a release build.
pub mod Counters
use cerynth_os.Base.{
  ℕ, suc, zero, ◌+◌, ◌*◌, ◌%◌, max, ltb, Bool, true, false, if◌then◌else◌, String, Result, ok, err,
  Option, none, some, List, [], ◌∷◌, length,
}
use cerynth_os.Policy.Floats.{Float64}
use cerynth_os.Sched.Tasks.{Profile, QueuedTask, dispatched_task}
use cerynth_os.Sched.Order.{order_tasks}
use cerynth_os.Sched.Ring.{Kernel, dequeue_task, dispatch_task, notify_complete}

abbrev pub max_batch : ℕ
max_batch = 64

abbrev pub u64_modulus : ℕ
u64_modulus = 18_446_744_073_709_551_616

abbrev pub add_u64 : ℕ → ℕ → ℕ
add_u64 a b = (a + b) % u64_modulus

pub record SchedulerStats (R : Type 0) : Type 0 where
  pub pid : ℕ
  pub profile : String
  pub heartbeat : ℕ
  pub scheduler_uptime_ms : ℕ
  pub progress_sequence : ℕ
  pub tasks_dequeued : ℕ
  pub tasks_dispatched : ℕ
  pub reporter_drops : ℕ
  pub dispatch_errors : ℕ
  pub dequeue_errors : ℕ
  pub batches_processed : ℕ
  pub avg_batch_size : R
  pub max_batch_size : ℕ
  pub kernel_queued : ℕ
  pub kernel_scheduled : ℕ
  pub kernel_user_dispatches : ℕ
  pub kernel_direct_dispatches : ℕ
  pub kernel_failed_dispatches : ℕ
  pub kernel_cancel_dispatches : ℕ

module _ {K R : Type 0} (kernel : Kernel K) (fl : Float64 R) where
  -- What a batch is collected as: the tasks in their order, whether an error ended it, the kernel.
  abbrev pub Batch : Type 0
  Batch = List QueuedTask × Bool × K

  -- `none` is a panic, here and below.
  abbrev pub put_first : QueuedTask → Option Batch → Option Batch
  put_first t none = none
  put_first t (some (ts, failed, k)) = some (t ∷ ts, failed, k)

  abbrev pub collected :
      (K → Option Batch) → Option (Result (Option QueuedTask) ℕ × K) → Option Batch
  collected rest none = none
  collected rest (some (ok (some t), k)) = put_first t (rest k)
  collected rest (some (ok none, k)) = some ([], false, k)
  collected rest (some (err code, k)) = some ([], true, k)

  -- The first loop, with the room left in the batch.
  unfoldable pub collect : ℕ → K → Option Batch
  collect zero k = some ([], false, k)
  collect (suc room) k = collected (λ next. collect room next) (dequeue_task kernel k)

  unfoldable pub count_batch : Bool → ℕ → SchedulerStats R → SchedulerStats R
  count_batch failed n s =
      let errors = if failed then add_u64 s.dequeue_errors 1 else s.dequeue_errors in
      let tasks = add_u64 s.tasks_dequeued n in
      let batches = add_u64 s.batches_processed 1 in
      if ltb 0 n
      then record s {
        dequeue_errors = errors;
        tasks_dequeued = tasks;
        batches_processed = batches;
        max_batch_size = max s.max_batch_size n;
        avg_batch_size = fl.div (fl.of_u64 tasks) (fl.of_u64 batches);
      }
      else record s { dequeue_errors = errors; tasks_dequeued = tasks }

  unfoldable pub count_dispatch : Bool → SchedulerStats R → SchedulerStats R
  count_dispatch true s = record s { tasks_dispatched = add_u64 s.tasks_dispatched 1 }
  count_dispatch false s = record s { dispatch_errors = add_u64 s.dispatch_errors 1 }

  abbrev pub after_dispatch :
      (SchedulerStats R × K → Option (SchedulerStats R × K))
      → SchedulerStats R
      → Option (Bool × K)
      → Option (SchedulerStats R × K)
  after_dispatch rest s none = none
  after_dispatch rest s (some (sent, k)) = rest (count_dispatch sent s, k)

  -- The second loop.
  unfoldable pub dispatch_all :
      List QueuedTask → SchedulerStats R × K → Option (SchedulerStats R × K)
  unfolding count_dispatch dispatch_task
  dispatch_all [] (s, k) = some (s, k)
  dispatch_all (t ∷ ts) (s, k) =
      after_dispatch (λ x. dispatch_all ts x) s (dispatch_task kernel k (dispatched_task t))

  abbrev pub count_round : SchedulerStats R → SchedulerStats R
  count_round s = record s { progress_sequence = add_u64 s.progress_sequence 1 }

  abbrev pub completed : Option (SchedulerStats R × K) → Option (SchedulerStats R × K)
  completed none = none
  completed (some (s, k)) = some (count_round s, notify_complete kernel k 0)

  unfoldable pub dispatch_batch :
      Profile → Option Batch → SchedulerStats R → Option (SchedulerStats R × K)
  unfolding dispatch_all count_batch
  dispatch_batch profile none s = none
  dispatch_batch profile (some (tasks, failed, k)) s =
      completed (dispatch_all (order_tasks profile tasks) (count_batch failed (length tasks) s, k))

  unfoldable pub dispatch_tasks : Profile → SchedulerStats R × K → Option (SchedulerStats R × K)
  unfolding dispatch_batch collect
  dispatch_tasks profile (s, k) = dispatch_batch profile (collect max_batch k) s
