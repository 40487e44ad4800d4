-- ===== src/Sched/Lifetime/Main.antt =====
-- schedulers/cerynth-scx/src/main.rs: the scheduler's runs, one after another, and the end of the
-- process. `turns` and `runs` bound the run loop and the restarts; the code has no bound.
use cerynth_os.Base.{ℕ, zero, suc, String, Option, none, some, List, Result, if◌then◌else◌}
use cerynth_os.Base.Disk.{Disk}
use cerynth_os.Policy.Floats.{Float64}
use cerynth_os.Sched.Tasks.{Profile}
use cerynth_os.Sched.Ring.{Kernel}
use cerynth_os.Sched.Dispatch.{SchedulerStats}
use cerynth_os.Sched.Status.{SchedulerStatus, stopped_status}
use cerynth_os.Sched.Reporter.{Snapshot}
use cerynth_os.Sched.Files.{write_status}
use cerynth_os.Sched.Loop.{Host, Running, over, broken, turned, write_stats, run_step}
use cerynth_os.Sched.Lifetime.Actions.{
  stopped_written, Outcome, done, failed, panicked, unfinished, Process, Action, bind, ◌>>◌, note,
}
use cerynth_os.Sched.Lifetime.{
  Libs, at_end, drop_scheduler, scheduler_init, shutdown_and_report, read_sched_ext_state,
}

unfoldable pub new_stats : {R : Type 0} → Float64 R → ℕ → String → SchedulerStats R
new_stats fl pid profile = record {
  pid = pid;
  profile = profile;
  heartbeat = 0;
  scheduler_uptime_ms = 0;
  progress_sequence = 0;
  tasks_dequeued = 0;
  tasks_dispatched = 0;
  reporter_drops = 0;
  dispatch_errors = 0;
  dequeue_errors = 0;
  batches_processed = 0;
  avg_batch_size = fl.of_u64 0;
  max_batch_size = 0;
  kernel_queued = 0;
  kernel_scheduled = 0;
  kernel_user_dispatches = 0;
  kernel_direct_dispatches = 0;
  kernel_failed_dispatches = 0;
  kernel_cancel_dispatches = 0;
}

module _ {K E R : Type 0} (libs : Libs K E) (kernel : Kernel K) (fl : Float64 R) (host : Host K)
    (encode : Snapshot R → Result (List ℕ) String) (disk : Disk K)
    (pretty : SchedulerStatus → Result String String) (profile : Profile) where
  -- The run loop up to its own end.
  unfoldable pub run_to_exit : ℕ → ℕ → Running K R → Outcome (Running K R)
  run_to_exit zero started r = unfinished
  run_to_exit (suc turns) started r = elim (run_step kernel fl host encode profile started r) [
    | over ↦ done r
    | broken ↦ panicked
    | turned next ↦ run_to_exit turns started next
  ]

  abbrev pub after_loop : Outcome (Running K R) → Action K (Unit {0})
  after_loop (done r) p = (done tt, record p { kernel = r.kernel })
  after_loop (failed e) p = (failed e, p)
  after_loop panicked p = (panicked, p)
  after_loop unfinished p = (unfinished, p)

  -- The start time, the first statistics and the loop.
  unfoldable pub serve_kernel : ℕ → Action K (Unit {0})
  unfolding run_to_exit new_stats
  serve_kernel turns p =
      let (started, k₁) = host.now_ms p.kernel in
      let (stats, k₂) =
        write_stats kernel fl host encode profile started
          (new_stats fl host.process_id (host.debug_profile profile), k₁) in
      let (last, k₃) = host.instant_ms k₂ in
      after_loop
        (run_to_exit turns started (record { stats = stats; last_heartbeat = last; kernel = k₃ })) p

  -- The body of the loop in `run_scheduler`, and the end of its scope.
  unfoldable pub run_once : ℕ → Action K E
  unfolding serve_kernel
  run_once turns = scheduler_init libs >> λ p.
      at_end drop_scheduler ((serve_kernel turns >> shutdown_and_report libs) p)

  abbrev pub again : Action K (Unit {0}) → Outcome E × Process K → Outcome (Unit {0}) × Process K
  again next ended = bind ended λ e p. if libs.should_restart e then next p else (done tt, p)

  unfoldable pub run_scheduler : ℕ → ℕ → Action K (Unit {0})
  unfolding run_once
  run_scheduler zero turns p = (unfinished, p)
  run_scheduler (suc runs) turns p = again (run_scheduler runs turns) (run_once turns p)

  unfoldable pub report_stopped : Option String → Process K → Process K
  report_stopped error p =
      let (text, k₁) = libs.read_state p.kernel in
      let (now, k₂) = host.now_secs k₁ in
      let state = read_sched_ext_state libs text in
      let status = record (stopped_status host.process_id state now) { exit_error = error } in
      let (written, k₃) = write_status disk pretty status k₂ in
      record p { kernel = k₃; books = note (stopped_written error) p.books }

  abbrev pub concluded : Outcome (Unit {0}) × Process K → Outcome (Unit {0}) × Process K
  concluded (done _, p) = (done tt, report_stopped none p)
  concluded (failed e, p) = (failed e, report_stopped (some e) p)
  concluded (panicked, p) = (panicked, p)
  concluded (unfinished, p) = (unfinished, p)

  -- `main`, when it is not the reporter.
  unfoldable pub main : ℕ → ℕ → Action K (Unit {0})
  unfolding run_scheduler report_stopped
  main runs turns p = concluded (run_scheduler runs turns p)
