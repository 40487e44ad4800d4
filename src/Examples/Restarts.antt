-- ===== src/Examples/Restarts.antt =====
-- A scheduler that is initialized for a second time in its process.
use cerynth_os.Base.{ℕ, ◌<◌, ◌≡◌, ◌≢◌, refl, Bool, true, some, [], ok}
use cerynth_os.Sched.Tasks
use cerynth_os.Sched.Lifetime.{Libs, scheduler_init}
use cerynth_os.Sched.Lifetime.Actions.{Outcome, done, Process, Action}
use cerynth_os.Sched.Lifetime.Main.{run_once}
use cerynth_os.Sched.Lifetime.Flags.{run_once-stale}
use cerynth_os.Examples.Policies.{fixed}
use cerynth_os.Examples.Lifecycles.{Files, in_memory, quiet, quiet_host, all_fine, fresh}

-- The kernel's side asks for a restart.
abbrev restarting : Libs Files Bool
restarting = record all_fine { uei_report = λ k. (ok true, k) }

abbrev one_run : Action Files Bool
one_run =
    run_once restarting quiet fixed quiet_host (λ s. ok []) in_memory (λ s. ok "{}") Tasks.balanced
      1

abbrev second_run : Process Files
second_run = (scheduler_init restarting (one_run fresh).1).1

first_ends : one_run fresh ≡ (done true, (one_run fresh).1)
unfolding run_once scheduler_init cerynth_os.Sched.Lifetime.reporter_start
    cerynth_os.Sched.Lifetime.Actions.call cerynth_os.Sched.Lifetime.bpf_init
    cerynth_os.Sched.Lifetime.set_ctrlc_handler cerynth_os.Sched.Lifetime.Actions.expect
    cerynth_os.Sched.Lifetime.set_up cerynth_os.Sched.Lifetime.prepare_then_attach
    cerynth_os.Sched.Lifetime.prepare cerynth_os.Sched.Lifetime.attach_ops
    cerynth_os.Sched.Loop.run_step cerynth_os.Sched.Lifetime.shutdown_and_report
first_ends = refl

second_begins : scheduler_init restarting (one_run fresh).1 ≡ (done 1, second_run)
unfolding scheduler_init cerynth_os.Sched.Lifetime.reporter_start
    cerynth_os.Sched.Lifetime.Actions.call cerynth_os.Sched.Lifetime.bpf_init
    cerynth_os.Sched.Lifetime.set_ctrlc_handler run_once cerynth_os.Sched.Lifetime.Actions.expect
    cerynth_os.Sched.Lifetime.set_up cerynth_os.Sched.Lifetime.prepare_then_attach
    cerynth_os.Sched.Lifetime.prepare cerynth_os.Sched.Lifetime.attach_ops
    cerynth_os.Sched.Loop.run_step cerynth_os.Sched.Lifetime.shutdown_and_report
second_begins = refl

run_once-stale_example :
    (h : ℕ) × (second_run.handler ≡ some h) × (h ≢ 1) × (h < (one_run fresh).1.flags)
run_once-stale_example =
    run_once-stale restarting quiet fixed quiet_host (λ s. ok []) in_memory (λ s. ok "{}")
      Tasks.balanced 1 fresh (one_run fresh).1 second_run true 1 (λ h e. absurd (cc)) first_ends
      second_begins
