-- ===== src/Scx/Stopping.antt =====
-- services/cerynthd/src/backends/scx.rs, `stop`: its end and what it leaves behind.
use mathlib.Core.Path.{subst}
use cerynth_os.Base.{
  ℕ, zero, suc, ◌+◌, ◌*◌, ◌≤◌, ◌≡◌, refl, sym, ap, ◌∙◌, ◌⊎◌, inl, inr, Option, none, some, String,
  Result, ok, err, arith, [], ◌∷◌, format,
}
use cerynth_os.Daemon.Ops.{Returns, Returns-mono, Returns-and_then}
use cerynth_os.Scx.Os.{Os, Clocked, Polled, exited, running, failed, sigterm, sigkill}
use cerynth_os.Scx.Backend.{ScxBackend, Machine, forget_child, reap_child, reap_tracked}
use cerynth_os.Scx.Stop.{reap_killed, force_kill, await_exit, terminate, forget, stop_child, stop}

-- The process id is that of the child, and there is none without a child.
abbrev pub IsTracked : ScxBackend → Type 0
IsTracked b = b.pid ≡ b.child

module _ {W J : Type 0} (os : Os W J) (t : Clocked os) where
  open t use {clock}

  -- The child is found to have exited when it is polled in this world.
  unfoldable pub HasExited : Option ℕ → W → Type 0
  HasExited none w = ⊥
  HasExited (some c) w = (os.try_wait c w).0 ≡ exited

  unfoldable pub HasNotExited : Option ℕ → W → Type 0
  unfolding HasExited
  HasNotExited c w = HasExited c w → ⊥

  -- The child was found to have exited and was forgotten, or it was not and the backend is untouched.
  abbrev pub Reaped : Machine W → Result (Unit {0}) String → Machine W → Type 0
  Reaped m r m' =
      (clock m.world ≤ clock m'.world)
      × (((m'.backend ≡ m.backend) × HasNotExited m.backend.child m.world)
          ⊎ ((m'.backend ≡ forget_child m.backend) × HasExited m.backend.child m.world))

  -- The poll of the child failed, and this is its message.
  unfoldable pub PollFailed : Option ℕ → W → String → Type 0
  PollFailed none w e = ⊥
  PollFailed (some c) w e =
      (why : String) × ((os.try_wait c w).0 ≡ failed why)
      × (e ≡ format ("failed to inspect scheduler process: " ∷ why ∷ []))

  -- The world after the child was polled, if there is one.
  abbrev pub after_poll : Option ℕ → W → W
  after_poll none w = w
  after_poll (some c) w = (os.try_wait c w).1

  -- `reap_child` fails only so, and then the backend is untouched.
  abbrev pub Inspected : Machine W → Result (Unit {0}) String → Machine W → Type 0
  Inspected m (ok u) m' = Reaped m (ok u) m' × (m'.world ≡ after_poll m.backend.child m.world)
  Inspected m (err e) m' =
      Reaped m (err e) m' × (m'.backend ≡ m.backend) × PollFailed m.backend.child m.world e

  not_exited :
      (p : Polled) (c : ℕ) (w : W)
      → (os.try_wait c w).0 ≡ p
      → (p ≡ exited → ⊥)
      → HasNotExited (some c) w
  unfolding HasNotExited HasExited
  not_exited p c w e h x = h (sym e ∙ x)

  polled_lem :
      (c : ℕ) (p : Polled) (m : Machine W)
      → (os.try_wait c m.world).0 ≡ p
      → m.backend.pid ≡ some c
      → m.backend.child ≡ some c
      → Returns (reap_tracked os (some c) m) (Inspected m)
  unfolding reap_tracked HasNotExited PollFailed HasExited
  polled_lem c exited m e h k =
      rw (e, reap_tracked)
        (
          (t.try_wait_mono c m.world, inr (refl, subst (λ o. HasExited o m.world) (sym k) e)),
          subst (λ o. (os.try_wait c m.world).1 ≡ after_poll o m.world) (sym k) refl,
        )
  polled_lem c running m e h k =
      rw (e, reap_tracked)
        (
          (
            t.try_wait_mono c m.world,
            inl (
              refl,
              subst (λ o. HasNotExited o m.world) (sym k)
                  (not_exited running c m.world e (λ x. absurd (cc))),
            ),
          ),
          subst (λ o. (os.try_wait c m.world).1 ≡ after_poll o m.world) (sym k) refl,
        )
  polled_lem c (failed why) m e h k =
      rw (e, reap_tracked)
        (
          (
            t.try_wait_mono c m.world,
            inl (
              refl,
              subst (λ o. HasNotExited o m.world) (sym k)
                  (not_exited (failed why) c m.world e (λ x. absurd (cc))),
            ),
          ),
          refl,
          subst
              (λ o.
                PollFailed o m.world (format ("failed to inspect scheduler process: " ∷ why ∷ [])))
              (sym k) (why, e, refl),
        )

  reap_tracked_lem :
      (c : Option ℕ) (m : Machine W)
      → m.backend.pid ≡ c
      → m.backend.child ≡ c
      → Returns (reap_tracked os c m) (Inspected m)
  unfolding reap_tracked HasNotExited HasExited
  reap_tracked_lem none m h k = (
    (
      omega arith,
      inl (
        ap (λ (p : Option ℕ). record m.backend { pid = p }) (sym h),
        subst (λ o. HasNotExited o m.world) (sym k) (λ x. x),
      ),
    ),
    subst (λ o. m.world ≡ after_poll o m.world) (sym k) refl,
  )
  reap_tracked_lem (some c) m h k = polled_lem c (os.try_wait c m.world).0 m refl h k

  pub inspect_lem : (m : Machine W) → IsTracked m.backend → Returns (reap_child os m) (Inspected m)
  unfolding reap_child
  inspect_lem m h = reap_tracked_lem m.backend.child m h refl

  Inspected-Reaped :
      (m : Machine W) (r : Result (Unit {0}) String) (m' : Machine W)
      → Inspected m r m'
      → Reaped m r m'
  Inspected-Reaped m (ok u) m' h = h.0
  Inspected-Reaped m (err e) m' h = h.0

  pub reap_child_lem : (m : Machine W) → IsTracked m.backend → Returns (reap_child os m) (Reaped m)
  reap_child_lem m h =
      Returns-mono (reap_child os m) (Inspected m) (Reaped m) (inspect_lem m h) (Inspected-Reaped m)

  -- The backend is untouched, or the child was forgotten.
  abbrev pub Settled : Machine W → Result (Unit {0}) String → Machine W → Type 0
  Settled m r m' =
      (clock m.world ≤ clock m'.world)
      × ((m'.backend ≡ m.backend) ⊎ (m'.backend ≡ forget_child m.backend))

  pub Reaped-Settled :
      (m : Machine W) (r : Result (Unit {0}) String) (m' : Machine W)
      → Reaped m r m'
      → Settled m r m'
  Reaped-Settled m r m' (h, inl k) = (h, inl k.0)
  Reaped-Settled m r m' (h, inr k) = (h, inr k.0)

  pub reap_child-Settled :
      (m : Machine W) → IsTracked m.backend → Returns (reap_child os m) (Settled m)
  reap_child-Settled m h =
      Returns-mono (reap_child os m) (Reaped m) (Settled m) (reap_child_lem m h) (Reaped-Settled m)

  -- What `stop` changes: on success the child is forgotten, on failure nothing has changed.
  abbrev pub Stopped : Machine W → Result (Unit {0}) String → Machine W → Type 0
  Stopped m (ok u) m' = (clock m.world ≤ clock m'.world) × (m'.backend ≡ forget_child m.backend)
  Stopped m (err e) m' = (clock m.world ≤ clock m'.world) × (m'.backend ≡ m.backend)

  -- The backend itself is not written.
  abbrev Watched : Machine W → Result (Unit {0}) String → Machine W → Type 0
  Watched m r m' = (clock m.world ≤ clock m'.world) × (m'.backend ≡ m.backend)

  force_kill_lem : (child pid : ℕ) (m : Machine W) → Returns (force_kill os child pid m) (Watched m)
  unfolding force_kill reap_killed
  force_kill_lem child pid m =
      ground
        (arith, t.kill_mono pid sigkill m.world, t.wait_mono child (os.kill pid sigkill m.world).1)

  await_exit_lem :
      (rounds child pid deadline : ℕ) (m : Machine W)
      → deadline ≤ clock m.world + 100 * rounds
      → Returns (await_exit os (suc rounds) child pid deadline m) (Watched m)
  unfolding await_exit
  await_exit_lem zero child pid deadline m h =
      let w = (os.try_wait child m.world).1 in
      ground (
        arith,
        t.try_wait_mono child m.world,
        t.instant_before w,
        t.instant_after w,
        force_kill_lem child pid (record m { world = (os.instant_ms w).1 }),
      )
  await_exit_lem (suc rounds) child pid deadline m h =
      let w = (os.try_wait child m.world).1 in
      let w' = (os.instant_ms w).1 in
      ground (
        arith,
        t.try_wait_mono child m.world,
        t.instant_before w,
        t.instant_after w,
        t.sleep_lasts 100 w',
        force_kill_lem child pid (record m { world = w' }),
        await_exit_lem rounds child pid deadline (record m { world = os.sleep_ms 100 w' }),
      )

  terminate_lem : (child pid : ℕ) (m : Machine W) → Returns (terminate os child pid m) (Stopped m)
  unfolding terminate forget
  terminate_lem child pid m =
      let w = (os.kill pid sigterm m.world).1 in
      let (now, w') = os.instant_ms w in
      ground (
        arith,
        t.kill_mono pid sigterm m.world,
        t.instant_before w,
        t.instant_after w,
        await_exit_lem 50 child pid (now + 5 * 1000) (record m { world = w' }),
      )

  -- What `stop` leaves behind: on success no child, and otherwise one only if it was there before.
  abbrev pub Halted : Machine W → Result (Unit {0}) String → Machine W → Type 0
  Halted m (ok u) m' = (clock m.world ≤ clock m'.world) × (m'.backend ≡ forget_child m.backend)
  Halted m (err e) m' = Reaped m (err e) m'

  stop_child_lem :
      (c p : Option ℕ) (m n : Machine W)
      → n.backend.pid ≡ p
      → n.backend.child ≡ c
      → IsTracked n.backend
      → Reaped m (ok tt) n
      → Returns (stop_child os c p n) (Halted m)
  unfolding stop_child
  stop_child_lem none p m n hp hc h r = ground arith
  stop_child_lem (some c) none m n hp hc h r = absurd (ground arith)
  stop_child_lem (some c) (some p) m n hp hc h r = ground (arith, terminate_lem c p n)

  -- On a clock that never runs backwards, and if the process id is that of the child, `stop`
  -- comes to an end. If it reports success the child is forgotten and nothing else of the backend
  -- has changed. If it fails, the child is forgotten when the poll at the beginning finds that it
  -- has exited and kept when it does not, and nothing else has changed.
  pub stop_lem : (m : Machine W) → IsTracked m.backend → Returns (stop os m) (Halted m)
  unfolding stop
  stop_lem m h =
      Returns-and_then (reap_child os m) _ (Reaped m) (Halted m) (reap_child_lem m h)
        (λ a n k.
          stop_child_lem n.backend.child n.backend.pid m n refl refl (ground arith) (ground arith))
        (λ e n k. k)
