-- ===== src/Sched/Ring.antt =====
-- schedulers/cerynth-scx/src/bpf.rs: the ring buffers and counters that the scheduler shares with its
-- BPF side. The buffers are libbpf's and the counters also change in the kernel: parameters.
use cerynth_os.Base.{
  ℕ, ◌-◌, ◌≡◌, refl, ◌⊎◌, inl, inr, Bool, true, false, Result, ok, err, Option, none, some,
}
use cerynth_os.Sched.Tasks.{
  QueuedTaskCtx, QueuedTask, to_queued_task, DispatchedTask, DispatchedTaskCtx, dispatched_ctx,
}

-- What `consume_raw_n(1)` does: nothing is there, one message, a negative error code, or a number above
-- 1, which the code panics on.
pub data Consumed : Type 0 where
  empty : Consumed
  received : QueuedTaskCtx → Consumed
  failed : ℕ → Consumed
  unexpected : ℕ → Consumed

-- What reserving a slot does: there is none, its bytes are no dispatched task, or there is one.
pub data Reserved : Type 0 where
  full : Reserved
  unfit : Reserved
  slot : Reserved

pub record Kernel (K : Type 0) : Type 0 where
  pub consume : K → Consumed × K
  pub reserve : K → Reserved × K
  -- Whether the slot was handed over, which the code expects.
  pub submit : K → DispatchedTaskCtx → Bool × K
  pub nr_queued : K → ℕ
  pub set_nr_queued : K → ℕ → K
  pub nr_scheduled : K → ℕ
  pub set_nr_scheduled : K → ℕ → K
  pub nr_user_dispatches : K → ℕ
  pub nr_kernel_dispatches : K → ℕ
  pub nr_failed_dispatches : K → ℕ
  pub nr_cancel_dispatches : K → ℕ
  pub exited : K → Bool × K

module _ {K : Type 0} (kernel : Kernel K) where
  -- Subtraction stops at 0, as `saturating_sub` does. `none` is a panic.
  unfoldable pub dequeued : Consumed × K → Option (Result (Option QueuedTask) ℕ × K)
  dequeued (empty, k) = some (ok none, kernel.set_nr_queued k 0)
  dequeued (received c, k) =
      some (ok (some (to_queued_task c)), kernel.set_nr_queued k (kernel.nr_queued k - 1))
  dequeued (failed code, k) = some (err code, k)
  dequeued (unexpected n, k) = none

  unfoldable pub dequeue_task : K → Option (Result (Option QueuedTask) ℕ × K)
  unfolding dequeued
  dequeue_task k = dequeued (kernel.consume k)

  abbrev pub submitted : Bool × K → Option (Bool × K)
  submitted (true, k) = some (true, k)
  submitted (false, k) = none

  unfoldable pub fill : Reserved × K → DispatchedTask → Option (Bool × K)
  unfolding dispatched_ctx
  fill (full, k) task = some (false, k)
  fill (unfit, k) task = none
  fill (slot, k) task = submitted (kernel.submit k (dispatched_ctx task))

  -- Whether the task was sent. `none` is a panic.
  unfoldable pub dispatch_task : K → DispatchedTask → Option (Bool × K)
  unfolding fill
  dispatch_task k task = fill (kernel.reserve k) task

  -- A call of libbpf has done what the code panics on.
  abbrev pub IsBroken : Type 0
  IsBroken =
      ((k : K) × (n : ℕ) × ((kernel.consume k).0 ≡ unexpected n))
      ⊎ (((k : K) × ((kernel.reserve k).0 ≡ unfit))
          ⊎ ((k : K) × (c : DispatchedTaskCtx) × ((kernel.submit k c).0 ≡ false)))

  dequeued-none : (o : Consumed × K) → dequeued o ≡ none → (n : ℕ) × (o.0 ≡ unexpected n)
  unfolding dequeued
  dequeued-none (empty, k) h = absurd (cc)
  dequeued-none (received c, k) h = absurd (cc)
  dequeued-none (failed code, k) h = absurd (cc)
  dequeued-none (unexpected n, k) h = (n, refl)

  pub dequeue_task-IsBroken : (k : K) → dequeue_task k ≡ none → IsBroken
  unfolding dequeue_task
  dequeue_task-IsBroken k h = let (n, e) = dequeued-none (kernel.consume k) h in inl (k, n, e)

  submitted-none : (o : Bool × K) → submitted o ≡ none → o.0 ≡ false
  submitted-none (true, k) h = absurd (cc)
  submitted-none (false, k) h = refl

  fill-none :
      (k : K) (o : Reserved × K) (task : DispatchedTask)
      → (kernel.reserve k).0 ≡ o.0
      → fill o task ≡ none
      → IsBroken
  unfolding fill
  fill-none k (full, k') task e h = absurd (cc)
  fill-none k (unfit, k') task e h = inr (inl (k, e))
  fill-none k (slot, k') task e h = inr (inr (k', _, submitted-none _ h))

  pub dispatch_task-IsBroken :
      (k : K) (task : DispatchedTask) → dispatch_task k task ≡ none → IsBroken
  unfolding dispatch_task
  dispatch_task-IsBroken k task h = fill-none k (kernel.reserve k) task refl h

  abbrev pub notify_complete : K → ℕ → K
  notify_complete k pending = kernel.set_nr_scheduled k pending
