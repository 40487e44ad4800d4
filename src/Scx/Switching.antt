-- ===== src/Scx/Switching.antt =====
-- services/cerynthd/src/backends/scx.rs, `set_profile` and `status`.
use mathlib.Core.Path.{subst}
use cerynth_os.Base.{
  ℕ, ◌≤◌, ◌≡◌, refl, sym, ap, ◌↔◌, ◌⊎◌, inl, true, Option, none, some, String, Result, ok, err,
  arith,
}
use cerynth_os.Ipc.Profiles.{Profile, SchedulerStatus, scx}
use cerynth_os.Daemon.Ops.{Returns, Returns-mono, Returns-and_then}
use cerynth_os.Scx.Os.{Os, Clocked}
use cerynth_os.Scx.Health.{scx_state, scx_state_path, heartbeat_path, read_scx_state_from}
use cerynth_os.Scx.Backend.{Machine, reap_child}
use cerynth_os.Scx.Stop.{stop}
use cerynth_os.Scx.Lifecycle.{
  use_profile, change_profile, set_profile, own_heartbeat, is_some, report_status, status,
}
use cerynth_os.Scx.Gate.{IsFreshAt, heartbeat_is_fresh_iff}
use cerynth_os.Daemon.Threads.Invariant.{some_injective, none_not_some}
use cerynth_os.Scx.Stopping.{
  IsTracked, Reaped, PollFailed, after_poll, Inspected, inspect_lem, reap_child_lem, Halted,
  stop_lem,
}
use cerynth_os.Scx.Starting.{IsHealthyNow, heartbeat_is_fresh_mono}
use cerynth_os.Scx.Running.{Started, start_lem}

module _ {W J : Type 0} (os : Os W J) (t : Clocked os) where
  open t use {clock}

  -- All but the profile stays, and the child and its process id are in step.
  abbrev pub Keeps : Machine W → Machine W → Type 0
  Keeps m m' =
      (clock m.world ≤ clock m'.world)
      × (m'.backend.scheduler_binary ≡ m.backend.scheduler_binary)
      × (m'.backend.adaptation_enabled ≡ m.backend.adaptation_enabled)
      × IsTracked m'.backend

  -- On success the profile is the new one, and a scheduler runs only if it has passed its gate. On
  -- failure the profile is the old or the new one.
  abbrev pub Switched : Profile → Machine W → Result (Unit {0}) String → Machine W → Type 0
  Switched p m (ok u) m' =
      Keeps m m' × (m'.backend.profile ≡ p) × (IsHealthyNow os t m' ⊎ (m'.backend.child ≡ none))
  Switched p m (err e) m' =
      Keeps m m' × ((m'.backend.profile ≡ m.backend.profile) ⊎ (m'.backend.profile ≡ p))

  Switched-Started :
      (p : Profile) (m n : Machine W) (r : Result (Unit {0}) String) (m' : Machine W)
      → Keeps m n
      → n.backend.profile ≡ p
      → Started os t n r m'
      → Switched p m r m'
  Switched-Started p m n (ok u) m' k e s = (ground arith, ground arith, inl s.1)
  Switched-Started p m n (err x) m' k e s = ground arith

  change_profile_lem :
      (p : Profile) (c : Option ℕ) (m n : Machine W)
      → n.backend.pid ≡ c
      → IsTracked m.backend
      → Reaped os t m (ok tt) n
      → Returns (change_profile os p c n) (Switched p m)
  unfolding change_profile use_profile
  change_profile_lem p none m n e h k = ground arith
  change_profile_lem p (some pid) m n e h k =
      Returns-and_then (stop os n) _ (Halted os t n) (Switched p m) (stop_lem os t n (ground arith))
        (λ _ n' s.
          Returns-mono _ (Started os t _) (Switched p m) (start_lem os t _ (ground arith))
            λ r m'. Switched-Started p m _ r m' (ground arith) refl)
        (λ e n' s. ground arith)

  pub set_profile_lem :
      (p : Profile) (m : Machine W)
      → IsTracked m.backend
      → Returns (set_profile os p m) (Switched p m)
  unfolding set_profile
  set_profile_lem p m h =
      Returns-and_then (reap_child os m) _ (Reaped os t m) (Switched p m) (reap_child_lem os t m h)
        (λ _ n k. change_profile_lem p n.backend.pid m n refl h k) (λ e n k. ground arith)

  -- The worlds in which the state file and the heartbeat file are read.
  abbrev pub before_state : Machine W → W
  before_state m = after_poll os t m.backend.child m.world

  abbrev pub before_heartbeat : Machine W → W
  before_heartbeat m = let w = before_state m in (os.read_to_string (scx_state_path os w) w).1

  -- The process has a fresh heartbeat.
  abbrev pub Beats : Option ℕ → W → Type 0
  Beats p w = (pid : ℕ) × (p ≡ some pid) × IsFreshAt os (heartbeat_path os w) pid w

  -- The report is about the backend after an exited child was forgotten, and about the files as they
  -- are read after that.
  abbrev pub Report : Machine W → SchedulerStatus → Machine W → Type 0
  Report m s m' =
      (s.profile ≡ m.backend.profile)
      × (s.adaptation_enabled ≡ m.backend.adaptation_enabled)
      × (s.backend ≡ scx)
      × (s.running ≡ is_some os m'.backend.child)
      × (s.sched_ext_state
          ≡ scx_state (os.read_to_string (scx_state_path os (before_state m)) (before_state m)).0)
      × ((s.heartbeat_ok ≡ true) ↔ Beats m'.backend.child (before_heartbeat m))

  -- There is no report only if the child could not be polled.
  abbrev pub Reported : Machine W → Result SchedulerStatus String → Machine W → Type 0
  Reported m (ok s) m' = Reaped os t m (ok tt) m' × Report m s m'
  Reported m (err e) m' =
      (clock m.world ≤ clock m'.world)
      × (m'.backend ≡ m.backend)
      × PollFailed os t m.backend.child m.world e

  own_heartbeat_mono : (p : Option ℕ) (w : W) → clock w ≤ clock (own_heartbeat os p w).1
  unfolding own_heartbeat
  own_heartbeat_mono none w = omega arith
  own_heartbeat_mono (some pid) w = heartbeat_is_fresh_mono os t (heartbeat_path os w) pid w

  own_heartbeat-Beats : (p : Option ℕ) (w : W) → ((own_heartbeat os p w).0 ≡ true) ↔ Beats p w
  unfolding own_heartbeat
  own_heartbeat-Beats none w = (λ h. absurd (cc), λ b. absurd (none_not_some b.0 b.1))
  own_heartbeat-Beats (some pid) w =
      let fresh = heartbeat_is_fresh_iff os (heartbeat_path os w) pid w in
      (
        λ h. (pid, refl, fresh.0 h),
        λ b. fresh.1 (
            subst (λ q. IsFreshAt os (heartbeat_path os w) q w) (sym (some_injective pid b.0 b.1))
              b.2),
      )

  report_status_lem :
      (m n : Machine W)
      → IsTracked n.backend
      → Inspected os t m (ok tt) n
      → Returns (report_status os n) (Reported m)
  unfolding report_status read_scx_state_from
  report_status_lem m n h (k, moved) =
      let v = (os.read_to_string (scx_state_path os n.world) n.world).1 in
      let beat = (own_heartbeat os n.backend.pid v).0 in
      (
        (
          omega (
            arith,
            k.0,
            t.read_mono (scx_state_path os n.world) n.world,
            own_heartbeat_mono n.backend.pid v,
          ),
          k.1,
        ),
        (
          ground (arith, k.1),
          ground (arith, k.1),
          refl,
          ap (is_some os) h,
          ap (λ (w : W). scx_state (os.read_to_string (scx_state_path os w) w).0) moved,
          subst
              (λ (w : W).
                (beat ≡ true) ↔ Beats n.backend.child (os.read_to_string (scx_state_path os w) w).1)
              moved
              (subst (λ q. (beat ≡ true) ↔ Beats q v) h (own_heartbeat-Beats n.backend.pid v)),
        ),
      )

  -- On a clock that never runs backwards, and if the process id is that of the child, `status`
  -- comes to an end. It forgets a child that the poll finds to have exited, and changes nothing
  -- else. It fails only if the child cannot be polled, with the message of the poll. Otherwise it
  -- reports the profile and the adaptation switch of the backend, whether a child is left, the
  -- state of sched_ext as its file says, and a heartbeat exactly when that of this child is
  -- fresh.
  pub status_lem : (m : Machine W) → IsTracked m.backend → Returns (status os m) (Reported m)
  unfolding status
  status_lem m h =
      Returns-and_then (reap_child os m) _ (Inspected os t m) (Reported m) (inspect_lem os t m h)
        (λ _ n k. report_status_lem m n (ground arith) k)
        (λ e n (k, same, failed). (k.0, same, failed))
