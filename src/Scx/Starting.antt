-- ===== src/Scx/Starting.antt =====
-- services/cerynthd/src/backends/scx.rs, `wait_until_healthy`: its end and what it leaves behind.
use cerynth_os.Base.{
  ℕ, zero, suc, ◌+◌, ◌*◌, ◌≤◌, ◌≡◌, refl, inl, true, Option, none, some, String, Result, ok, err,
  arith, ltb, if◌then◌else◌,
}
use cerynth_os.Daemon.Ops.{Op, fail, Returns, Returns-mono, Returns-and_then}
use cerynth_os.Scx.Os.{Os, Clocked, probe}
use cerynth_os.Scx.Health.{scx_state_path, heartbeat_path, sched_ext_is_enabled, heartbeat_is_fresh}
use cerynth_os.Scx.Backend.{
  Machine, reap_child, scheduler_is_healthy, check_started, not_healthy_within, unless_done,
  poll_health, await_healthy, wait_until_healthy,
}
use cerynth_os.Scx.Stopping.{IsTracked, Settled, reap_child-Settled}

module _ {W J : Type 0} (os : Os W J) (t : Clocked os) where
  open t use {clock}

  pub heartbeat_is_fresh_mono :
      (path : String) (pid : ℕ) (w : W) → clock w ≤ clock (heartbeat_is_fresh os path pid w).1
  unfolding heartbeat_is_fresh
  heartbeat_is_fresh_mono path pid w =
      ground (arith, t.read_mono path w, t.unix_mono (os.read_to_string path w).1)

  scheduler_is_healthy_mono :
      (pid : Option ℕ) (w : W) → clock w ≤ clock (scheduler_is_healthy os pid w).1
  unfolding scheduler_is_healthy sched_ext_is_enabled
  scheduler_is_healthy_mono none w = omega arith
  scheduler_is_healthy_mono (some pid) w =
      let w₁ = (os.kill pid probe w).1 in
      let w₂ = (os.read_to_string (scx_state_path os w₁) w₁).1 in
      ground (
        arith,
        t.kill_mono pid probe w,
        t.read_mono (scx_state_path os w₁) w₁,
        heartbeat_is_fresh_mono (heartbeat_path os w₂) pid w₂,
      )

  -- One round: healthy, or asleep for 100 ms, or no child left.
  abbrev Checked : Machine W → Result (Option (Unit {0})) String → Machine W → Type 0
  Checked n (ok (some u)) n' =
      (clock n.world ≤ clock n'.world)
      × (n'.backend ≡ n.backend)
      × (scheduler_is_healthy os n.backend.pid n.world ≡ (true, n'.world))
  Checked n (ok none) n' = (clock n.world + 100 ≤ clock n'.world) × (n'.backend ≡ n.backend)
  Checked n (err e) n' = (clock n.world ≤ clock n'.world) × (n'.backend ≡ n.backend)

  check_started_lem : (n : Machine W) → Returns (check_started os n) (Checked n)
  unfolding check_started
  check_started_lem n =
      let w = (scheduler_is_healthy os n.backend.pid n.world).1 in
      ground (arith, scheduler_is_healthy_mono n.backend.pid n.world, t.sleep_lasts 100 w)

  -- The health check has just passed: it was run on this backend and left this world.
  abbrev pub IsHealthyNow : Machine W → Type 0
  IsHealthyNow m = (w : W) × (scheduler_is_healthy os m.backend.pid w ≡ (true, m.world))

  abbrev pub Awaited : Machine W → Result (Unit {0}) String → Machine W → Type 0
  Awaited m (ok u) m' = Settled os t m (ok u) m' × IsHealthyNow m'
  Awaited m (err e) m' = Settled os t m (err e) m'

  Awaited-trans :
      (m n : Machine W) (r : Result (Unit {0}) String) (m' : Machine W)
      → Settled os t m (ok tt) n
      → Awaited n r m'
      → Awaited m r m'
  Awaited-trans m n (ok u) m' k a = (ground arith, a.1)
  Awaited-trans m n (err e) m' k a = ground arith

  module _ (m : Machine W) (again : Op (Machine W) (Unit {0}))
      (rest : (n : Machine W)
        → IsTracked n.backend
        → clock m.world + 100 ≤ clock n.world
        → Returns (again n) (Awaited n)) where
    after_check :
        (n : Machine W) (done : Option (Unit {0})) (n' : Machine W)
        → IsTracked n.backend
        → Settled os t m (ok tt) n
        → Checked n (ok done) n'
        → Returns (unless_done os again done n') (Awaited m)
    after_check n (some u) n' h k c = (ground arith, (n.world, ground arith))
    after_check n none n' h k c =
        Returns-mono (again n') (Awaited n') (Awaited m) (rest n' (ground arith) (ground arith))
          λ r m'. Awaited-trans m n' r m' (ground arith)

    poll_health_lem : IsTracked m.backend → Returns (poll_health os again m) (Awaited m)
    unfolding poll_health
    poll_health_lem h =
        Returns-and_then (reap_child os m) _ (Settled os t m) (Awaited m)
          (reap_child-Settled os t m h)
          (λ _ n k.
            Returns-and_then (check_started os n) _ (Checked n) (Awaited m) (check_started_lem n)
              (λ done n' c. after_check n done n' (ground arith) k c) (λ e n' c. ground arith))
          (λ e n k. k)

  await_healthy_step :
      (rounds secs deadline : ℕ) (m : Machine W)
      → let n : Machine W = record m { world = (os.instant_ms m.world).1 } in
        await_healthy os (suc rounds) secs deadline m ≡ (
          if ltb (os.instant_ms m.world).0 deadline
          then poll_health os (await_healthy os rounds secs deadline) n
          else fail (not_healthy_within os secs) n)
  unfolding await_healthy
  await_healthy_step rounds secs deadline m = refl

  await_healthy_lem :
      (rounds secs deadline : ℕ) (m : Machine W)
      → IsTracked m.backend
      → deadline ≤ clock m.world + 100 * rounds
      → Returns (await_healthy os (suc rounds) secs deadline m) (Awaited m)
  await_healthy_lem zero secs deadline m h d = ground (
    arith,
    await_healthy_step zero secs deadline m,
    t.instant_before m.world,
    t.instant_after m.world,
  )
  await_healthy_lem (suc rounds) secs deadline m h d =
      let n : Machine W = record m { world = (os.instant_ms m.world).1 } in
      let later : clock m.world ≤ clock n.world =
        omega (arith, t.instant_before m.world, t.instant_after m.world) in
      let rest =
        poll_health_lem n (await_healthy os (suc rounds) secs deadline)
          (λ n' h' k. await_healthy_lem rounds secs deadline n' h' (omega arith)) h in
      rw (await_healthy_step (suc rounds) secs deadline m) (
        ground (
          arith,
          t.instant_before m.world,
          t.instant_after m.world,
          Returns-mono _ (Awaited n) (Awaited m) rest
              (λ r m'. Awaited-trans m n r m' (later, inl refl)),
        ))

  pub wait_until_healthy_lem :
      (secs : ℕ) (m : Machine W)
      → IsTracked m.backend
      → Returns (wait_until_healthy os secs m) (Awaited m)
  unfolding wait_until_healthy
  wait_until_healthy_lem secs m h =
      let n : Machine W = record m { world = (os.instant_ms m.world).1 } in
      let later : clock m.world ≤ clock n.world =
        omega (arith, t.instant_before m.world, t.instant_after m.world) in
      Returns-mono _ (Awaited n) (Awaited m)
        (await_healthy_lem (10 * secs) secs ((os.instant_ms m.world).0 + secs * 1000) n h
          (omega (arith, t.instant_after m.world)))
        λ r m'. Awaited-trans m n r m' (later, inl refl)
