-- ===== src/Examples/Scheduling.antt =====
-- The daemon's sched_ext backend on a simulated machine.
use cerynth_os.Base.{◌≡◌, ◌↔◌, refl, true, some, ok}
use cerynth_os.Daemon.Ops.{Returns}
use cerynth_os.Scx.Backend.{scx_new, with_adaptation, scheduler_is_healthy}
use cerynth_os.Scx.Stop.{stop}
use cerynth_os.Scx.Lifecycle.{start, status}
use cerynth_os.Scx.Health.{heartbeat_is_fresh, sched_ext_is_enabled, scx_state}
use cerynth_os.Base.Text.{trim}
use cerynth_os.Scx.Stopping.{Halted, stop_lem}
use cerynth_os.Scx.Running.{Started, start_lem}
use cerynth_os.Scx.Switching.{Reported, status_lem}
use cerynth_os.Scx.Gate.{IsFreshAt, heartbeat_is_fresh_iff, IsGated, scheduler_is_healthy-IsGated}
use cerynth_os.Examples.Worlds.{simulated, simulated-Clocked, idle_machine, busy_machine}

-- The simulated start passes its gate on the first round.
start_runs : start simulated idle_machine ≡ some (ok tt, busy_machine)
unfolding start scheduler_is_healthy sched_ext_is_enabled scx_state trim heartbeat_is_fresh
    mathlib.Core.Option.bind cerynth_os.Scx.Backend.reap_child
    cerynth_os.Scx.Lifecycle.start_if_stopped cerynth_os.Scx.Lifecycle.spawn_scheduler
    cerynth_os.Scx.Lifecycle.adopt cerynth_os.Scx.Lifecycle.ensure_healthy_startup
    cerynth_os.Scx.Backend.wait_until_healthy cerynth_os.Scx.Backend.await_healthy
    cerynth_os.Scx.Backend.poll_health cerynth_os.Scx.Backend.check_started
start_runs = refl

start_lem_example :
    Returns (start simulated idle_machine) (Started simulated simulated-Clocked idle_machine)
start_lem_example = start_lem simulated simulated-Clocked idle_machine refl

stop_lem_example :
    Returns (stop simulated busy_machine) (Halted simulated simulated-Clocked busy_machine)
stop_lem_example = stop_lem simulated simulated-Clocked busy_machine refl

status_lem_example :
    Returns (status simulated busy_machine) (Reported simulated simulated-Clocked busy_machine)
status_lem_example = status_lem simulated simulated-Clocked busy_machine refl

scheduler_is_healthy-IsGated_example : IsGated simulated (some 7) busy_machine.world
unfolding scheduler_is_healthy sched_ext_is_enabled scx_state trim heartbeat_is_fresh
    mathlib.Core.Option.bind
scheduler_is_healthy-IsGated_example =
    scheduler_is_healthy-IsGated simulated (some 7) busy_machine.world refl

heartbeat_is_fresh_iff_example :
    ((heartbeat_is_fresh simulated "/run/cerynth/scheduler.json" 7 busy_machine.world).0 ≡ true)
    ↔ IsFreshAt simulated "/run/cerynth/scheduler.json" 7 busy_machine.world
heartbeat_is_fresh_iff_example =
    heartbeat_is_fresh_iff simulated "/run/cerynth/scheduler.json" 7 busy_machine.world
