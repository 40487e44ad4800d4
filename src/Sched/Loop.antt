-- ===== src/Sched/Loop.antt =====
-- schedulers/cerynth-scx/src/main.rs: the run loop and the statistics that it reports once a second.
-- The clocks and the socket of the reporter are parameters.
pub mod Accounts
use cerynth_os.Base.{
  ℕ, zero, suc, ◌-◌, ◌/◌, Bool, true, false, not, String, Option, none, some, List, Result, ok, err,
  leb, if◌then◌else◌,
}
use cerynth_os.Policy.Floats.{Float64}
use cerynth_os.Sched.Tasks.{Profile}
use cerynth_os.Sched.Ring.{Kernel}
use cerynth_os.Sched.Dispatch.{SchedulerStats, add_u64, dispatch_tasks}
use cerynth_os.Sched.Reporter.{Snapshot, Sent, publish}

abbrev pub heartbeat_interval_ms : ℕ
heartbeat_interval_ms = 1000

-- `now_ms` and `now_secs` read the wall clock, `instant_ms` the monotonic one.
pub record Host (K : Type 0) : Type 0 where
  pub now_ms : K → ℕ × K
  pub now_secs : K → ℕ × K
  pub instant_ms : K → ℕ × K
  pub send : List ℕ → K → Sent × K
  pub process_id : ℕ
  pub debug_profile : Profile → String

-- The loop's own state, and the kernel's.
pub record Running (K R : Type 0) : Type 0 where
  pub stats : SchedulerStats R
  pub last_heartbeat : ℕ
  pub kernel : K

-- `over` when the kernel side has exited, `broken` when a call has panicked.
pub data Turn (K R : Type 0) : Type 0 where
  over : Turn K R
  broken : Turn K R
  turned : Running K R → Turn K R

module _ {K R : Type 0} (kernel : Kernel K) (fl : Float64 R) (host : Host K)
    (encode : Snapshot R → Result (List ℕ) String) (profile : Profile) (started_at_ms : ℕ) where
  abbrev pub is_published : Result Bool String → Bool
  is_published (ok b) = b
  is_published (err e) = false

  -- Anything but `Ok(true)` counts as a drop.
  abbrev pub count_drop : Bool → SchedulerStats R → SchedulerStats R
  count_drop true s = s
  count_drop false s = record s { reporter_drops = add_u64 s.reporter_drops 1 }

  unfoldable pub read_counters : ℕ → ℕ → K → SchedulerStats R → SchedulerStats R
  read_counters now later k s = record s {
    heartbeat = now / 1000;
    scheduler_uptime_ms = later - started_at_ms;
    kernel_queued = kernel.nr_queued k;
    kernel_scheduled = kernel.nr_scheduled k;
    kernel_user_dispatches = kernel.nr_user_dispatches k;
    kernel_direct_dispatches = kernel.nr_kernel_dispatches k;
    kernel_failed_dispatches = kernel.nr_failed_dispatches k;
    kernel_cancel_dispatches = kernel.nr_cancel_dispatches k;
  }

  unfoldable pub write_stats : SchedulerStats R × K → SchedulerStats R × K
  unfolding read_counters
  write_stats (s, k) =
      let (now, k₁) = host.now_ms k in
      let (later, k₂) = host.now_ms k₁ in
      let stats = read_counters now later k₂ s in
      let (secs, k₃) = host.now_secs k₂ in
      let (published, k₄) =
        publish encode host.send host.process_id (host.debug_profile profile) started_at_ms secs
          stats k₃ in
      (count_drop (is_published published) stats, k₄)

  -- After a round: the statistics, if the interval has passed since the last time.
  unfoldable pub report_if_due : ℕ → SchedulerStats R × K → Running K R
  unfolding write_stats
  report_if_due last (s, k) =
      let (now, k₁) = host.instant_ms k in
      let written = write_stats (s, k₁) in
      let (restarted, k₂) = host.instant_ms written.1 in
      if leb heartbeat_interval_ms (now - last)
      then record { stats = written.0; last_heartbeat = restarted; kernel = k₂ }
      else record { stats = s; last_heartbeat = last; kernel = k₁ }

  abbrev pub turn : ℕ → Option (SchedulerStats R × K) → Turn K R
  turn last none = broken
  turn last (some x) = turned (report_if_due last x)

  -- One turn of the `while`.
  unfoldable pub run_step : Running K R → Turn K R
  unfolding report_if_due
  run_step r =
      let (stop, k) = kernel.exited r.kernel in
      if stop then over else turn r.last_heartbeat (dispatch_tasks kernel fl profile (r.stats, k))

  -- At most so many turns of the loop; `none` is a panic.
  unfoldable pub run_for : ℕ → Running K R → Option (Running K R)
  unfolding run_step
  run_for zero r = some r
  run_for (suc turns) r = elim (run_step r) [
    | over ↦ some r
    | broken ↦ none
    | turned next ↦ run_for turns next
  ]
