-- ===== src/Scx/Stop.antt =====
-- services/cerynthd/src/backends/scx.rs, `stop`: SIGTERM, five seconds of polling, then SIGKILL.
use cerynth_os.Base.{
  ℕ, zero, suc, ◌+◌, ◌*◌, String, Option, none, some, [], ◌∷◌, ok, err, format, leb, if◌then◌else◌,
}
use cerynth_os.Base.Text.{show_ℕ}
use cerynth_os.Daemon.Ops.{Op, pure, fail, ◌>>=◌}
use cerynth_os.Scx.Os.{
  Os, exited, running, failed, delivered, no_process, refused, sigterm, sigkill,
}
use cerynth_os.Scx.Backend.{Machine, forget_child, reap_child}

-- One polling round for each 100 ms of the five seconds, and one more.
abbrev pub stop_rounds : ℕ
stop_rounds = 51

module _ {W J : Type 0} (os : Os W J) where
  abbrev pub not_running : String
  not_running = "no scheduler is currently running"

  unfoldable pub forget : Op (Machine W) (Unit {0})
  forget m = some (ok tt, record m { backend = forget_child m.backend })

  -- After the deadline of `stop`: SIGKILL, then reap. A process that is gone already is no error.
  unfoldable pub reap_killed : ℕ → Op (Machine W) (Unit {0})
  reap_killed child m =
      let (waited, w) = os.wait child m.world in
      elim waited [
        | ok _ ↦ pure tt (record m { world = w })
        | err e ↦
            fail (format ("failed to reap scheduler after SIGKILL: " ∷ e ∷ []))
              (record m { world = w })
      ]

  unfoldable pub force_kill : ℕ → ℕ → Op (Machine W) (Unit {0})
  force_kill child pid m =
      let (killed, w) = os.kill pid sigkill m.world in
      elim killed [
        | delivered ↦ reap_killed child (record m { world = w })
        | no_process ↦ reap_killed child (record m { world = w })
        | refused e ↦
            fail
              (format ("failed to send SIGKILL to scheduler (pid " ∷ show_ℕ pid ∷ "): " ∷ e ∷ []))
              (record m { world = w })
      ]

  -- The `loop` of `stop`.
  unfoldable pub await_exit : ℕ → ℕ → ℕ → ℕ → Op (Machine W) (Unit {0})
  await_exit zero child pid deadline m = none
  await_exit (suc rounds) child pid deadline m =
      let (polled, w) = os.try_wait child m.world in
      let again = await_exit rounds child pid deadline in
      elim polled [
        | exited ↦ pure tt (record m { world = w })
        | running ↦
            (let (now, w') = os.instant_ms w in
              if leb deadline now
              then force_kill child pid (record m { world = w' })
              else again (record m { world = os.sleep_ms 100 w' }))
        | failed e ↦
            fail (format ("failed to poll scheduler state: " ∷ e ∷ [])) (record m { world = w })
      ]

  -- `stop` from the first SIGTERM on, with the child and the process id that it has read.
  unfoldable pub terminate : ℕ → ℕ → Op (Machine W) (Unit {0})
  terminate child pid m =
      let (killed, w) = os.kill pid sigterm m.world in
      elim killed [
        | delivered ↦
            (let (now, w') = os.instant_ms w in
              (await_exit stop_rounds child pid (now + 5 * 1000) >>= λ _. forget)
                (record m { world = w' }))
        | no_process ↦ forget (record m { world = w })
        | refused e ↦
            fail
              (format ("failed to send SIGTERM to scheduler (pid " ∷ show_ℕ pid ∷ "): " ∷ e ∷ []))
              (record m { world = w })
      ]

  unfoldable pub stop_child : Option ℕ → Option ℕ → Op (Machine W) (Unit {0})
  stop_child none pid m = fail not_running m
  stop_child (some child) none m = fail not_running m
  stop_child (some child) (some pid) m = terminate child pid m

  unfoldable pub stop : Op (Machine W) (Unit {0})
  stop = reap_child os >>= λ _ m. stop_child m.backend.child m.backend.pid m
