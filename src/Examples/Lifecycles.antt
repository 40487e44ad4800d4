-- ===== src/Examples/Lifecycles.antt =====
-- The scheduler process from start to end, and its files on a disk that is a function.
use text.Mathlib.Text.{◌==◌ as str_eq}
use text.Mathlib.TextEquality.{eq_iff}
use cerynth_os.Base.{
  ℕ, ◌+◌, ◌≡◌, refl, ◌≢◌, String, Bool, true, false, Option, none, some, [], Result, ok, err, arith,
  if◌then◌else◌,
}
use cerynth_os.Base.Integers.{pos}
use cerynth_os.Base.Disk.{Disk, DiskLaws, Replaced}
use cerynth_os.Sched.Tasks
use cerynth_os.Sched.Status.{SchedulerStatus}
use cerynth_os.Sched.Ring.{Kernel, Consumed, Reserved}
use cerynth_os.Sched.Loop.{Host}
use cerynth_os.Sched.Reporter.{Sent}
use cerynth_os.Sched.Reporter.Rounds.{Child, run}
use cerynth_os.Sched.Reporter.Kept.{IsReport, run-IsReport}
use cerynth_os.Examples.Kernels.{decoded, two_frames}
use cerynth_os.Sched.Files.{status_path, write_status}
use cerynth_os.Sched.Files.Whole.{write_status-Replaced}
use cerynth_os.Sched.Lifetime.{Libs}
use cerynth_os.Sched.Lifetime.Actions.{Outcome, Process}
use cerynth_os.Sched.Lifetime.Protocol.{begun}
use cerynth_os.Sched.Lifetime.Main.{main}
use cerynth_os.Sched.Lifetime.Safety.{IsClean, main-IsClean}
use cerynth_os.Examples.Policies.{fixed}

abbrev pub Files : Type 0
Files = String → Option String

abbrev pub put : String → Option String → Files → Files
put path text d p = if str_eq path p then text else d p

pub put_same : (path : String) (text : Option String) (d : Files) → put path text d path ≡ text
put_same path text d = ground (arith, eq_iff path path)

pub put_other :
    (tmp path : String) (text : Option String) (d : Files)
    → tmp ≢ path
    → put tmp text d path ≡ d path
put_other tmp path text d h = ground (arith, eq_iff tmp path)

abbrev pub in_memory : Disk Files
in_memory = record {
  create_dir_all = λ dir d. (ok tt, d);
  create = λ tmp d. (ok tt, put tmp (some "") d);
  write_all = λ tmp text d. (ok tt, put tmp (some text) d);
  sync_all = λ tmp d. (ok tt, d);
  write = λ tmp text d. (ok tt, put tmp (some text) d);
  rename = λ tmp path d. (ok tt, put path (d tmp) d);
  contents = λ path d. d path;
}

pub ok_not_err : (x : Unit {0}) (e : String) → ok x ≡ err e → ⊥
ok_not_err x e h = cc

abbrev pub in_memory-DiskLaws : DiskLaws in_memory
in_memory-DiskLaws = record {
  directories_keep = λ dir path d. refl;
  create_keeps = λ tmp path d h. put_other tmp path (some "") d h;
  create_empties = λ tmp d h. put_same tmp (some "") d;
  write_all_keeps = λ tmp path text d h. put_other tmp path (some text) d h;
  write_all_fills = λ tmp text d e h. put_same tmp (some text) d;
  sync_keeps = λ tmp path d. refl;
  write_keeps = λ tmp path text d h. put_other tmp path (some text) d h;
  write_fills = λ tmp text d h. put_same tmp (some text) d;
  rename_moves = λ tmp path d h. put_same path (d tmp) d;
  rename_keeps = λ tmp path e d h. absurd (ok_not_err tt e h);
  rename_leaves = λ tmp path other d h k. put_other path other (d tmp) d k;
}

abbrev stopped : SchedulerStatus
stopped = record {
  running = false;
  pid = 7;
  profile = "";
  healthy = false;
  started_at_ms = 0;
  sched_ext_state = "disabled";
  heartbeat = 2;
  exit_error = none;
}

write_status-Replaced_example :
    let out = write_status in_memory (λ s. ok "{}") stopped (λ p. some "old") in
    Replaced (some "old") "{}" out.0 (out.1 status_path)
write_status-Replaced_example =
    write_status-Replaced in_memory in_memory-DiskLaws (λ s. ok "{}") stopped (λ p. some "old")

-- A kernel with nothing to schedule that lets the scheduler go at once.
abbrev pub quiet : Kernel Files
quiet = record {
  consume = λ k. (Consumed.empty, k);
  reserve = λ k. (Reserved.slot, k);
  submit = λ k t. (true, k);
  nr_queued = λ k. 0;
  set_nr_queued = λ k n. k;
  nr_scheduled = λ k. 0;
  set_nr_scheduled = λ k n. k;
  nr_user_dispatches = λ k. 0;
  nr_kernel_dispatches = λ k. 0;
  nr_failed_dispatches = λ k. 0;
  nr_cancel_dispatches = λ k. 0;
  exited = λ k. (true, k);
}

abbrev pub quiet_host : Host Files
quiet_host = record {
  now_ms = λ k. (2000, k);
  now_secs = λ k. (2, k);
  instant_ms = λ k. (2000, k);
  send = λ bytes k. (Sent.sent 1, k);
  process_id = 7;
  debug_profile = λ p. "Balanced";
}

abbrev fine : Files → Result (Unit {0}) String × Files
fine k = (ok tt, k)

-- The memory settings cannot be changed: the set-up panics.
abbrev no_mmap : Libs Files Bool
no_mmap = record {
  current_exe = fine;
  socket_pair = fine;
  set_nonblocking = fine;
  spawn = fine;
  set_handler = fine;
  ops_open = fine;
  topology = fine;
  ops_load = fine;
  add_callback = fine;
  build_queued = fine;
  new_dispatched = fine;
  disable_mmap = λ k. (err "mallopt", k);
  use_sched_ext = λ k. (pos 0, k);
  ops_attach = fine;
  uei_report = λ k. (ok false, k);
  should_restart = λ e. e;
  read_state = λ k. (ok "disabled", k);
  trim = λ s. s;
}

abbrev pub all_fine : Libs Files Bool
all_fine = record no_mmap { disable_mmap = fine }

abbrev pub fresh : Process Files
fresh = record {
  kernel = λ p. none;
  flags = 0;
  handler = none;
  books = record { effects = []; armed = false; struct_ops = false };
}

main-IsClean_example : IsClean (
    main all_fine quiet fixed quiet_host
      (λ s. ok [])
      in_memory
      (λ s. ok "{}")
      Tasks.balanced
      1
      1
      fresh)
main-IsClean_example =
    main-IsClean all_fine quiet fixed quiet_host (λ s. ok []) in_memory (λ s. ok "{}")
      Tasks.balanced 1 1 fresh (begun, refl, refl)

-- It panics, and yet nothing is held.
no_mmap-panics :
    (main no_mmap quiet fixed quiet_host
      (λ s. ok [])
      in_memory
      (λ s. ok "{}")
      Tasks.balanced
      1
      1
      fresh).0
    ≡ Outcome.panicked
unfolding main cerynth_os.Sched.Lifetime.scheduler_init cerynth_os.Sched.Lifetime.reporter_start
    cerynth_os.Sched.Lifetime.Actions.call cerynth_os.Sched.Lifetime.bpf_init
    cerynth_os.Sched.Lifetime.set_ctrlc_handler cerynth_os.Sched.Lifetime.Actions.expect
    cerynth_os.Sched.Lifetime.set_up cerynth_os.Sched.Lifetime.prepare_then_attach
    cerynth_os.Sched.Lifetime.prepare
no_mmap-panics = refl

-- The reporting process of process 7, whose queue always holds the same two frames.
abbrev reporting : Child ℕ
reporting = record {
  prctl = λ w. (ok tt, w);
  getppid = λ w. (7, w);
  set_nonblocking = λ w. (ok tt, w);
  receive = λ w. (two_frames, w);
  read_state = λ w. ok "enabled";
  sleep_ms = λ n w. w + n;
}

run-IsReport_example :
    IsReport reporting in_memory decoded
      (λ s. ok "{}")
      (λ s. ok "[]")
      7
      in_memory-DiskLaws
      0
      none
      ((run reporting in_memory decoded (λ s. ok "{}") (λ s. ok "[]") 7 2 0 (λ p. none)).2
        status_path)
run-IsReport_example =
    run-IsReport reporting in_memory decoded (λ s. ok "{}") (λ s. ok "[]") 7 in_memory-DiskLaws 0 2
      (λ p. none)
