-- ===== src/Sched/Tasks.antt =====
-- schedulers/cerynth-scx/src/profile.rs and bpf.rs: profiles, and tasks on their way through the
-- scheduler. Machine words are numbers; the 64-bit ones stay below `2 ^ 64`.
use cerynth_os.Base.{ℕ, List}

pub data Profile : Type 0 where
  balanced interactive performance background : Profile

unfoldable pub slice_ns : Profile → ℕ
slice_ns balanced = 5_000_000
slice_ns interactive = 2_000_000
slice_ns performance = 10_000_000
slice_ns background = 20_000_000

abbrev pub u64_max : ℕ
u64_max = 18_446_744_073_709_551_615

-- `bpf_intf::queued_task_ctx`, the message of the BPF side.
pub record QueuedTaskCtx : Type 0 where
  pub pid : ℕ
  pub cpu : ℕ
  pub nr_cpus_allowed : ℕ
  pub flags : ℕ
  pub start_ts : ℕ
  pub stop_ts : ℕ
  pub exec_runtime : ℕ
  pub weight : ℕ
  pub vtime : ℕ
  pub enq_cnt : ℕ
  pub comm : List ℕ

pub record QueuedTask : Type 0 where
  pub pid : ℕ
  pub cpu : ℕ
  pub nr_cpus_allowed : ℕ
  pub flags : ℕ
  pub start_ts : ℕ
  pub stop_ts : ℕ
  pub exec_runtime : ℕ
  pub weight : ℕ
  pub vtime : ℕ
  pub enq_cnt : ℕ
  pub comm : List ℕ

unfoldable pub to_queued_task : QueuedTaskCtx → QueuedTask
to_queued_task c = record {
  pid = c.pid;
  cpu = c.cpu;
  nr_cpus_allowed = c.nr_cpus_allowed;
  flags = c.flags;
  start_ts = c.start_ts;
  stop_ts = c.stop_ts;
  exec_runtime = c.exec_runtime;
  weight = c.weight;
  vtime = c.vtime;
  enq_cnt = c.enq_cnt;
  comm = c.comm;
}

pub record DispatchedTask : Type 0 where
  pub pid : ℕ
  pub cpu : ℕ
  pub flags : ℕ
  pub slice_ns : ℕ
  pub vtime : ℕ
  pub enq_cnt : ℕ

-- `DispatchedTask::new`: the default slice, on the task's CPU.
unfoldable pub dispatched_task : QueuedTask → DispatchedTask
dispatched_task t = record {
  pid = t.pid;
  cpu = t.cpu;
  flags = t.flags;
  slice_ns = 0;
  vtime = 0;
  enq_cnt = t.enq_cnt;
}

-- `bpf_intf::dispatched_task_ctx`, the message to the BPF side.
pub record DispatchedTaskCtx : Type 0 where
  pub pid : ℕ
  pub cpu : ℕ
  pub flags : ℕ
  pub slice_ns : ℕ
  pub vtime : ℕ
  pub enq_cnt : ℕ

unfoldable pub dispatched_ctx : DispatchedTask → DispatchedTaskCtx
dispatched_ctx t = record {
  pid = t.pid;
  cpu = t.cpu;
  flags = t.flags;
  slice_ns = t.slice_ns;
  vtime = t.vtime;
  enq_cnt = t.enq_cnt;
}
