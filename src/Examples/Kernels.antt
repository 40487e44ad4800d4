-- ===== src/Examples/Kernels.antt =====
-- The scheduler process on a scripted kernel.
use cerynth_os.Base.{
  length, Result, String, none, err, ℕ, zero, suc, ◌≤◌, ◌≡◌, refl, true, false, some, List, [], ◌∷◌,
  ok, arith, All,
}
use cerynth_os.Base.Text.{trim}
use mathlib.Core.List.{Perm}
use cerynth_os.Sched.Tasks
use cerynth_os.Sched.Tasks.{QueuedTask, QueuedTaskCtx}
use cerynth_os.Sched.Order.{Key, newest_stop, rescue_key, order_tasks}
use cerynth_os.Sched.Order.Sorting.{Ordered, with_key}
use cerynth_os.Sched.Order.Rescue.{GoesBefore, order_tasks-perm, order_tasks_interactive}
use cerynth_os.Sched.Ring.{Kernel, Consumed, received, Reserved, full, slot}
use cerynth_os.Sched.Dispatch.{SchedulerStats}
use cerynth_os.Sched.OpsName.{is_ascii, set_scx_ops_name}
use cerynth_os.Sched.OpsName.Text.{set_scx_ops_name-c_string}
use cerynth_os.Sched.Loop.{Host, Running}
use cerynth_os.Sched.Reporter.{Snapshot, Sent, Received, datagram, observe}
use cerynth_os.Sched.Reporter.Latest.{Observed, observe-Observed}

-- Tasks of a batch: one has waited for long, the others have not.
abbrev task : ℕ → ℕ → ℕ → QueuedTask
task pid stop_ts exec_runtime = record {
  pid = pid;
  cpu = 0;
  nr_cpus_allowed = 4;
  flags = 0;
  start_ts = 0;
  stop_ts = stop_ts;
  exec_runtime = exec_runtime;
  weight = 100;
  vtime = 0;
  enq_cnt = 1;
  comm = [];
}

abbrev batch : List QueuedTask
batch = task 1 50_000_000 900 ∷ task 2 49_000_000 100 ∷ task 3 1_000_000 500 ∷ []

-- The starved task first, then the one that has run less.
order_tasks_runs :
    order_tasks Tasks.interactive batch
    ≡ task 3 1_000_000 500 ∷ task 2 49_000_000 100 ∷ task 1 50_000_000 900 ∷ []
unfolding order_tasks cerynth_os.Sched.Order.rescue_starved_tasks cerynth_os.Sched.Order.sort_by_key
order_tasks_runs = refl

order_tasks-perm_example : Perm (order_tasks Tasks.interactive batch) batch
order_tasks-perm_example = order_tasks-perm Tasks.interactive batch

order_tasks_interactive_example :
    All (λ t. t.stop_ts ≤ 50_000_000) batch
    × Ordered (GoesBefore 50_000_000) (order_tasks Tasks.interactive batch)
    × ((k : Key)
        → with_key (rescue_key 50_000_000) k (order_tasks Tasks.interactive batch)
          ≡ with_key (rescue_key 50_000_000) k batch)
unfolding newest_stop
order_tasks_interactive_example = order_tasks_interactive batch 50_000_000 refl (omega arith)

-- A kernel with a number of tasks to hand out, and room for a number of dispatched ones.
pub record Script : Type 0 where
  pub queued : ℕ
  pub room : ℕ
  pub scheduled : ℕ

abbrev message : ℕ → QueuedTaskCtx
message pid = record {
  pid = pid;
  cpu = 0;
  nr_cpus_allowed = 4;
  flags = 0;
  start_ts = 0;
  stop_ts = 10;
  exec_runtime = 5;
  weight = 100;
  vtime = 0;
  enq_cnt = 1;
  comm = [];
}

abbrev consume_one : ℕ → Script → Consumed × Script
consume_one zero k = (Consumed.empty, k)
consume_one (suc n) k = (received (message n), record k { queued = n })

abbrev reserve_one : ℕ → Script → Reserved × Script
reserve_one zero k = (full, k)
reserve_one (suc n) k = (slot, record k { room = n })

abbrev script : Kernel Script
script = record {
  consume = λ k. consume_one k.queued k;
  reserve = λ k. reserve_one k.room k;
  submit = λ k t. (true, k);
  nr_queued = λ k. k.queued;
  set_nr_queued = λ k n. k;
  nr_scheduled = λ k. k.scheduled;
  set_nr_scheduled = λ k n. record k { scheduled = n };
  nr_user_dispatches = λ k. 0;
  nr_kernel_dispatches = λ k. 0;
  nr_failed_dispatches = λ k. 0;
  nr_cancel_dispatches = λ k. 0;
  exited = λ k. (false, k);
}

abbrev pub no_stats : SchedulerStats ℕ
no_stats = record {
  pid = 7;
  profile = "Interactive";
  heartbeat = 0;
  scheduler_uptime_ms = 0;
  progress_sequence = 0;
  tasks_dequeued = 0;
  tasks_dispatched = 0;
  reporter_drops = 0;
  dispatch_errors = 0;
  dequeue_errors = 0;
  batches_processed = 0;
  avg_batch_size = 0;
  max_batch_size = 0;
  kernel_queued = 0;
  kernel_scheduled = 0;
  kernel_user_dispatches = 0;
  kernel_direct_dispatches = 0;
  kernel_failed_dispatches = 0;
  kernel_cancel_dispatches = 0;
}

-- Three tasks, and room for two of them.
abbrev three_tasks : Script
three_tasks = record { queued = 3; room = 2; scheduled = 3 }

-- Clocks that stand at two seconds, and a socket that takes every datagram.
abbrev host : Host Script
host = record {
  now_ms = λ k. (2000, k);
  now_secs = λ k. (2, k);
  instant_ms = λ k. (2000, k);
  send = λ bytes k. (Sent.sent (length bytes), k);
  process_id = 7;
  debug_profile = λ p. "Interactive";
}

abbrev started : Running Script ℕ
started = record { stats = no_stats; last_heartbeat = 0; kernel = three_tasks }

-- Two snapshots wait in the queue; the second one is written.
abbrev pub snapshot : ℕ → Snapshot ℕ
snapshot heartbeat = record {
  status = record {
    running = true;
    pid = 7;
    profile = "Interactive";
    healthy = true;
    started_at_ms = 500;
    sched_ext_state = "enabled";
    heartbeat = heartbeat;
    exit_error = none;
  };
  stats = no_stats;
}

abbrev pub decoded : List ℕ → Result (Snapshot ℕ) String
decoded [] = err "EOF"
decoded (x ∷ xs) = ok (snapshot x)

abbrev pub two_frames : List Received
two_frames = datagram (1 ∷ []) ∷ Received.interrupted ∷ datagram (2 ∷ []) ∷ []

observe-Observed_example : Observed decoded 7 two_frames (ok "enabled") (snapshot 2)
unfolding observe trim
observe-Observed_example = observe-Observed decoded 7 two_frames (ok "enabled") (snapshot 2) refl

-- A field of eight bytes, the name "ab" and the suffix "_1".
set_scx_ops_name-c_string_example :
    set_scx_ops_name (9 ∷ 9 ∷ 9 ∷ 9 ∷ 9 ∷ 9 ∷ 9 ∷ 9 ∷ []) (97 ∷ 98 ∷ []) (95 ∷ 49 ∷ [])
    ≡ some (ok (97 ∷ 98 ∷ 95 ∷ 49 ∷ 0 ∷ 0 ∷ 0 ∷ 0 ∷ []))
unfolding is_ascii
set_scx_ops_name-c_string_example =
    set_scx_ops_name-c_string 9 (9 ∷ 9 ∷ 9 ∷ 9 ∷ 9 ∷ 9 ∷ 9 ∷ []) (97 ∷ 98 ∷ []) (95 ∷ 49 ∷ []) refl
      ((λ e. ground arith), ((λ e. ground arith), tt))
