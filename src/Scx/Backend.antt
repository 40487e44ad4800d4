-- ===== src/Scx/Backend.antt =====
-- services/cerynthd/src/backends/scx.rs, struct ScxBackend and its methods. A method is an operation
-- on a `Machine`, the backend and the world that it acts on.

use cerynth_os.Base.{
  ℕ, zero, suc, ◌+◌, ◌*◌, String, Bool, true, false, ◌&&◌, Option, none, some, [], ◌∷◌, ok, format,
  ltb, if◌then◌else◌,
}
use cerynth_os.Base.Text.{show_ℕ}
use cerynth_os.Ipc.Profiles.{Profile}
use cerynth_os.Daemon.Ops.{Op, pure, fail, ◌>>=◌}
use cerynth_os.Scx.Os.{Os, exited, running, failed, Killed, delivered, probe}
use cerynth_os.Scx.Health.{scx_state_path, heartbeat_path, sched_ext_is_enabled, heartbeat_is_fresh}

abbrev pub start_timeout_secs : ℕ
start_timeout_secs = 15

-- The rounds of the polling loop: one for each 100 ms of the deadline, and one more.
abbrev pub start_rounds : ℕ → ℕ
start_rounds timeout_secs = suc (10 * timeout_secs)

pub record ScxBackend : Type 0 where
  pub scheduler_binary : String
  pub profile : Profile
  pub adaptation_enabled : Bool
  pub pid : Option ℕ
  pub child : Option ℕ

unfoldable pub scx_new : String → Profile → ScxBackend
scx_new binary profile = record {
  scheduler_binary = binary;
  profile = profile;
  adaptation_enabled = true;
  pid = none;
  child = none;
}

unfoldable pub with_adaptation : ScxBackend → Bool → ScxBackend
with_adaptation b enabled = record b { adaptation_enabled = enabled }

pub record Machine (W : Type 0) : Type 0 where
  pub backend : ScxBackend
  pub world : W

abbrev pub forget_child : ScxBackend → ScxBackend
forget_child b = record b { child = none; pid = none }

module _ {W J : Type 0} (os : Os W J) where
  -- `reap_child`, with the child that it finds.
  unfoldable pub reap_tracked : Option ℕ → Op (Machine W) (Unit {0})
  reap_tracked none m = some (ok tt, record m { backend = record m.backend { pid = none } })
  reap_tracked (some child) m =
      let (polled, w) = os.try_wait child m.world in
      elim polled [
        | exited ↦ some (ok tt, record { backend = forget_child m.backend; world = w })
        | running ↦ some (ok tt, record m { world = w })
        | failed e ↦
            fail (format ("failed to inspect scheduler process: " ∷ e ∷ []))
              (record m { world = w })
      ]

  unfoldable pub reap_child : Op (Machine W) (Unit {0})
  unfolding reap_tracked
  reap_child m = reap_tracked m.backend.child m

  abbrev pub is_delivered : Killed → Bool
  is_delivered delivered = true
  is_delivered _ = false

  -- `&self`: the backend stays as it is, only the world is read.
  unfoldable pub process_is_healthy : ℕ → W → Bool × W
  process_is_healthy pid w =
      let (killed, w₁) = os.kill pid probe w in
      if is_delivered killed
      then (let (enabled, w₂) = sched_ext_is_enabled os (scx_state_path os w₁) w₁ in
          let (fresh, w₃) = heartbeat_is_fresh os (heartbeat_path os w₂) pid w₂ in
          (enabled && fresh, w₃))
      else (false, w₁)

  unfoldable pub scheduler_is_healthy : Option ℕ → W → Bool × W
  unfolding process_is_healthy
  scheduler_is_healthy none w = (false, w)
  scheduler_is_healthy (some pid) w = process_is_healthy pid w

  abbrev pub exited_early : String
  exited_early = "scheduler exited before becoming healthy"

  abbrev pub not_healthy_within : ℕ → String
  not_healthy_within secs =
      format ("scheduler did not become healthy within " ∷ show_ℕ secs ∷ " seconds" ∷ [])

  -- One round of `wait_until_healthy` after `reap_child`: `none` asks for another round.
  unfoldable pub check_started : Op (Machine W) (Option (Unit {0}))
  check_started m = elim m.backend.pid [
    | none ↦ fail exited_early m
    | some pid ↦
        (let (healthy, w) = scheduler_is_healthy (some pid) m.world in
          let m' = record m { world = w } in
          if healthy
          then pure (some tt) m'
          else pure none (record m' { world = os.sleep_ms 100 w }))
  ]

  abbrev pub unless_done : Op (Machine W) (Unit {0}) → Option (Unit {0}) → Op (Machine W) (Unit {0})
  unless_done again (some u) = pure tt
  unless_done again none = again

  -- The body of the `while` of `wait_until_healthy`, before the rounds that `again` makes.
  unfoldable pub poll_health : Op (Machine W) (Unit {0}) → Op (Machine W) (Unit {0})
  poll_health again = reap_child >>= λ _. check_started >>= λ done. unless_done again done

  -- The `while`; `deadline` is in milliseconds.
  unfoldable pub await_healthy : ℕ → ℕ → ℕ → Op (Machine W) (Unit {0})
  await_healthy zero secs deadline m = none
  await_healthy (suc rounds) secs deadline m =
      let (now, w) = os.instant_ms m.world in
      let again = await_healthy rounds secs deadline in
      if ltb now deadline
      then poll_health again (record m { world = w })
      else fail (not_healthy_within secs) (record m { world = w })

  unfoldable pub wait_until_healthy : ℕ → Op (Machine W) (Unit {0})
  wait_until_healthy secs m =
      let (now, w) = os.instant_ms m.world in
      await_healthy (start_rounds secs) secs (now + secs * 1000) (record m { world = w })
