-- ===== src/Scx/Running.antt =====
-- services/cerynthd/src/backends/scx.rs, `start` and `restart`: their end and what they leave
-- behind.
use cerynth_os.Base.{
  ℕ, ◌≤◌, ◌≡◌, refl, ◌∙◌, ◌⊎◌, inl, inr, Option, none, some, String, [], ◌∷◌, Result, ok, err,
  arith,
}
use cerynth_os.Ipc.Profiles.{profile_name}
use cerynth_os.Daemon.Ops.{Returns, Returns-mono, Returns-and_then}
use cerynth_os.Scx.Os.{Os, Clocked}
use cerynth_os.Scx.Backend.{ScxBackend, Machine, forget_child, reap_child, start_timeout_secs}
use cerynth_os.Scx.Stop.{stop}
use cerynth_os.Scx.Lifecycle.{
  instead, or_give_up, ensure_healthy_startup, adopt, spawn_scheduler, start_if_stopped, start,
  stop_if_running, restart,
}
use cerynth_os.Scx.Stopping.{IsTracked, Settled, reap_child-Settled, Halted, stop_lem}
use cerynth_os.Scx.Starting.{IsHealthyNow, Awaited, wait_until_healthy_lem}

-- The fields that neither `start` nor `stop` writes.
abbrev pub SameSettings : ScxBackend → ScxBackend → Type 0
SameSettings b b' =
    (b'.scheduler_binary ≡ b.scheduler_binary)
    × (b'.profile ≡ b.profile)
    × (b'.adaptation_enabled ≡ b.adaptation_enabled)

module _ {W J : Type 0} (os : Os W J) (t : Clocked os) where
  open t use {clock}

  -- The last thing done was a call of `stop` that failed.
  abbrev pub IsStopFailed : Machine W → Type 0
  IsStopFailed m = (n : Machine W) × (e : String) × (stop os n ≡ some (err e, m))

  abbrev pub Leaves : Machine W → Machine W → Type 0
  Leaves m m' =
      (clock m.world ≤ clock m'.world) × SameSettings m.backend m'.backend × IsTracked m'.backend

  -- On success the health check has just passed. On failure no child is left, but one that was
  -- there before or that `stop` could not remove.
  abbrev pub Started : Machine W → Result (Unit {0}) String → Machine W → Type 0
  Started m (ok u) m' = Leaves m m' × IsHealthyNow os t m'
  Started m (err e) m' =
      Leaves m m' × ((m'.backend ≡ m.backend) ⊎ (m'.backend.child ≡ none) ⊎ IsStopFailed m')

  give_up_lem :
      (e : String) (m n : Machine W) (o : Option (Result (Unit {0}) String × Machine W))
      → stop os n ≡ o
      → Leaves m n
      → Returns o (Halted os t n)
      → Returns (instead os e o) (Started m)
  give_up_lem e m n none h l s = s
  give_up_lem e m n (some (ok u, n')) h l s = (ground arith, inr (inl (ground arith)))
  give_up_lem e m n (some (err e', n')) h l s = (ground arith, inr (inr (n, e', h)))

  startup_lem :
      (m n : Machine W) (o : Option (Result (Unit {0}) String × Machine W))
      → IsTracked n.backend
      → Leaves m n
      → Returns o (Awaited os t n)
      → Returns (or_give_up os o) (Started m)
  startup_lem m n none h l s = s
  startup_lem m n (some (ok u, n')) h l s = (ground arith, s.1)
  startup_lem m n (some (err e, n')) h l s =
      give_up_lem e m n' (stop os n') refl (ground arith) (stop_lem os t n' (ground arith))

  ensure_healthy_startup_lem :
      (m n : Machine W)
      → IsTracked n.backend
      → Leaves m n
      → Returns (ensure_healthy_startup os start_timeout_secs n) (Started m)
  unfolding ensure_healthy_startup
  ensure_healthy_startup_lem m n h l =
      startup_lem m n _ h l (wait_until_healthy_lem os t start_timeout_secs n h)

  adopt_lem :
      (r : Result ℕ String) (m n : Machine W)
      → IsTracked m.backend
      → n.backend ≡ m.backend
      → clock m.world ≤ clock n.world
      → Returns (adopt os r n) (Started m)
  unfolding adopt
  adopt_lem (ok id) m n h e l = ensure_healthy_startup_lem m _ refl (ground arith)
  adopt_lem (err x) m n h e l = ground arith

  spawn_scheduler_lem :
      (m : Machine W) → IsTracked m.backend → Returns (spawn_scheduler os m) (Started m)
  unfolding spawn_scheduler
  spawn_scheduler_lem m h =
      let args = "--profile" ∷ profile_name m.backend.profile ∷ [] in
      let w = (os.path_exists m.backend.scheduler_binary m.world).1 in
      let (spawned, w') = os.spawn m.backend.scheduler_binary args w in
      let mono = t.exists_mono m.backend.scheduler_binary m.world in
      ground (
        arith,
        mono,
        adopt_lem spawned m (record m { world = w' }) h refl
            (omega (arith, mono, t.spawn_mono m.backend.scheduler_binary args w)),
      )

  left_over :
      (m n m' : Machine W)
      → ((n.backend ≡ m.backend) ⊎ (n.backend ≡ forget_child m.backend))
      → ((m'.backend ≡ n.backend) ⊎ (m'.backend.child ≡ none) ⊎ IsStopFailed m')
      → ((m'.backend ≡ m.backend) ⊎ (m'.backend.child ≡ none) ⊎ IsStopFailed m')
  left_over m n m' (inl k) (inl e) = inl (e ∙ k)
  left_over m n m' (inr k) (inl e) = inr (inl (ground arith))
  left_over m n m' k (inr e) = inr e

  -- What `Started` says of a machine that was left by an earlier step.
  Started-trans :
      (m n : Machine W) (r : Result (Unit {0}) String) (m' : Machine W)
      → Settled os t m (ok tt) n
      → Started n r m'
      → Started m r m'
  Started-trans m n (ok u) m' k s = (ground arith, s.1)
  Started-trans m n (err e) m' k s = (ground arith, left_over m n m' k.1 s.1)

  start_if_stopped_lem :
      (p : Option ℕ) (m n : Machine W)
      → IsTracked m.backend
      → Settled os t m (ok tt) n
      → Returns (start_if_stopped os p n) (Started m)
  unfolding start_if_stopped
  start_if_stopped_lem (some pid) m n h k = ground arith
  start_if_stopped_lem none m n h k =
      Returns-mono _ (Started n) (Started m) (spawn_scheduler_lem n (ground arith))
        λ r m'. Started-trans m n r m' k

  -- On a clock that never runs backwards, and if the process id is that of the child, `start`
  -- comes to an end. On success the health check has just passed; on failure no child is left but
  -- one that was there before or that `stop` could not remove. The binary, the profile and the
  -- adaptation switch stay, and the process id is again that of the child.
  pub start_lem : (m : Machine W) → IsTracked m.backend → Returns (start os m) (Started m)
  unfolding start
  start_lem m h =
      Returns-and_then (reap_child os m) _ (Settled os t m) (Started m)
        (reap_child-Settled os t m h) (λ _ n k. start_if_stopped_lem n.backend.pid m n h k)
        (λ e n k. ground arith)

  stop_if_running_lem :
      (p : Option ℕ) (m n : Machine W)
      → IsTracked m.backend
      → Settled os t m (ok tt) n
      → Returns (stop_if_running os p n) (Settled os t m)
  unfolding stop_if_running
  stop_if_running_lem none m n h k = k
  stop_if_running_lem (some pid) m n h k =
      Returns-mono _ (Halted os t n) (Settled os t m) (stop_lem os t n (ground arith)) weaken
    where
      weaken :
          (r : Result (Unit {0}) String) (m' : Machine W) → Halted os t n r m' → Settled os t m r m'
      weaken (ok u) m' s = ground arith
      weaken (err e) m' s = ground arith

  pub restart_lem : (m : Machine W) → IsTracked m.backend → Returns (restart os m) (Started m)
  unfolding restart
  restart_lem m h =
      Returns-and_then (reap_child os m) _ (Settled os t m) (Started m)
        (reap_child-Settled os t m h)
        (λ _ n k.
          Returns-and_then (stop_if_running os n.backend.pid n) _ (Settled os t m) (Started m)
            (stop_if_running_lem n.backend.pid m n h k)
            (λ _ n' k'.
              Returns-mono _ (Started n') (Started m) (start_lem n' (ground arith))
                λ r m'. Started-trans m n' r m' k')
            (λ e n' k'. ground arith))
        (λ e n k. ground arith)
