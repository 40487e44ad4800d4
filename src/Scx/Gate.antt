-- ===== src/Scx/Gate.antt =====
-- services/cerynthd/src/backends/scx.rs, the health check: what a check that passes has seen.
use mathlib.Core.Option
use text.Mathlib.TextEquality.{eq_iff}
use cerynth_os.Base.{
  ℕ, ◌+◌, ◌≤◌, ◌≡◌, refl, ap, ◌↔◌, Bool, true, false, Option, none, some, String, Result, ok, err,
  arith, inl, inr, Bool-cases,
}
use cerynth_os.Scx.Os.{Os, delivered, probe, Killed}
use cerynth_os.Scx.Health.{
  scx_state, scx_state_path, heartbeat_path, sched_ext_is_enabled, names_process, heartbeat_of,
  timestamp_is_fresh, record_is_fresh, heartbeat_is_fresh, is_enabled, is_some_u64, is_some_true,
}
use cerynth_os.Scx.Backend.{process_is_healthy, scheduler_is_healthy}

module _ {W J : Type 0} (os : Os W J) where
  -- What the heartbeat file must hold, and when.
  pub record IsFreshAt (path : String) (pid : ℕ) (w : W) : Type 0 where
    pub text : String
    pub found : (os.read_to_string path w).0 ≡ ok text
    pub json : J
    pub parsed : os.json_from_str text ≡ some json
    pub same_pid : Option.bind (os.json_get json "pid") os.json_as_u64 ≡ some pid
    pub says_running : Option.bind (os.json_get json "running") os.json_as_bool ≡ some true
    pub says_healthy : Option.bind (os.json_get json "healthy") os.json_as_bool ≡ some true
    pub timestamp : ℕ
    pub stamped : heartbeat_of os json ≡ some timestamp
    pub now : ℕ
    pub time : (os.unix_secs (os.read_to_string path w).1).0 ≡ some now
    pub not_future : timestamp ≤ now
    pub not_stale : now ≤ timestamp + 10

  is_some_u64-eq : (o : Option ℕ) (n : ℕ) → is_some_u64 o n ≡ true → o ≡ some n
  is_some_u64-eq none n h = cc
  is_some_u64-eq (some m) n h = ground arith

  is_some_true-eq : (o : Option Bool) → is_some_true o ≡ true → o ≡ some true
  is_some_true-eq none h = cc
  is_some_true-eq (some true) h = refl
  is_some_true-eq (some false) h = cc

  module _ (path : String) (pid : ℕ) (w : W) (text : String)
      (found : (os.read_to_string path w).0 ≡ ok text) (json : J)
      (parsed : os.json_from_str text ≡ some json) (named : names_process os json pid ≡ true) where
    fresh_at :
        (s n : Option ℕ)
        → heartbeat_of os json ≡ s
        → (os.unix_secs (os.read_to_string path w).1).0 ≡ n
        → (timestamp_is_fresh os s (os.read_to_string path w).1).0 ≡ true
        → IsFreshAt path pid w
    unfolding timestamp_is_fresh names_process
    fresh_at none n e k h = cc
    fresh_at (some s) none e k h = absurd (ground arith)
    fresh_at (some s) (some n) e k h = record {
      text = text;
      found = found;
      json = json;
      parsed = parsed;
      same_pid = is_some_u64-eq _ pid (ground arith);
      says_running = is_some_true-eq _ (ground arith);
      says_healthy = is_some_true-eq _ (ground arith);
      timestamp = s;
      stamped = e;
      now = n;
      time = k;
      not_future = ground arith;
      not_stale = ground arith;
    }

  fresh_record :
      (path : String) (pid : ℕ) (w : W) (text : String) (j : Option J)
      → (os.read_to_string path w).0 ≡ ok text
      → os.json_from_str text ≡ j
      → (record_is_fresh os j pid (os.read_to_string path w).1).0 ≡ true
      → IsFreshAt path pid w
  unfolding record_is_fresh
  fresh_record path pid w text none e k h = cc
  fresh_record path pid w text (some json) e k h = elim (Bool-cases (names_process os json pid)) [
    | inl named ↦ fresh_at path pid w text e json k named _ _ refl refl (ground arith)
    | inr other ↦ absurd (ground arith)
  ]

  fresh_contents :
      (path : String) (pid : ℕ) (w : W) (r : Result String String)
      → (os.read_to_string path w).0 ≡ r
      → (heartbeat_is_fresh os path pid w).0 ≡ true
      → IsFreshAt path pid w
  unfolding heartbeat_is_fresh
  fresh_contents path pid w (err x) e h = absurd (ground arith)
  fresh_contents path pid w (ok text) e h =
      fresh_record path pid w text (os.json_from_str text) e refl (ground arith)

  heartbeat_of_fresh :
      (path : String) (pid : ℕ) (w : W)
      → IsFreshAt path pid w
      → (heartbeat_is_fresh os path pid w).0 ≡ true
  unfolding heartbeat_is_fresh
  heartbeat_of_fresh path pid w f = ground arith

  -- The heartbeat counts as fresh exactly when the file holds a record of this process that says
  -- it is running and healthy, stamped no later than now and at most ten seconds ago.
  pub heartbeat_is_fresh_iff :
      (path : String) (pid : ℕ) (w : W)
      → ((heartbeat_is_fresh os path pid w).0 ≡ true) ↔ IsFreshAt path pid w
  heartbeat_is_fresh_iff path pid w =
      (fresh_contents path pid w _ refl, heartbeat_of_fresh path pid w)

  -- The world after the process was probed, and after the state file was read then.
  abbrev pub after_probe : ℕ → W → W
  after_probe pid w = (os.kill pid probe w).1

  abbrev pub after_state : ℕ → W → W
  after_state pid w = let w₁ = after_probe pid w in (os.read_to_string (scx_state_path os w₁) w₁).1

  -- The process is alive, sched_ext is enabled and the heartbeat is fresh, in the worlds that follow
  -- one another from `w` on.
  pub record IsGated (p : Option ℕ) (w : W) : Type 0 where
    pub pid : ℕ
    pub is_pid : p ≡ some pid
    pub alive : (os.kill pid probe w).0 ≡ delivered
    pub enabled :
        scx_state (os.read_to_string (scx_state_path os (after_probe pid w)) (after_probe pid w)).0
        ≡ some "enabled"
    pub fresh : IsFreshAt (heartbeat_path os (after_state pid w)) pid (after_state pid w)

  is_enabled-eq : (o : Option String) → is_enabled o ≡ true → o ≡ some "enabled"
  is_enabled-eq none h = cc
  is_enabled-eq (some s) h = ap some ((eq_iff s "enabled").0 h)

  gate_passed :
      (pid : ℕ) (w : W) (k : Killed)
      → (os.kill pid probe w).0 ≡ k
      → (process_is_healthy os pid w).0 ≡ true
      → IsGated (some pid) w
  unfolding process_is_healthy sched_ext_is_enabled
  gate_passed pid w delivered e h =
      let w₂ = after_state pid w in
      record {
        pid = pid;
        is_pid = refl;
        alive = e;
        enabled = is_enabled-eq _ (ground arith);
        fresh = (heartbeat_is_fresh_iff (heartbeat_path os w₂) pid w₂).0 (ground arith);
      }
  gate_passed pid w other e h = absurd (ground arith)

  -- If the health check passes in a world, there is a process id, and in the worlds that follow
  -- one another from this one on the process is alive, sched_ext is enabled, and the heartbeat
  -- file is fresh for this process.
  pub scheduler_is_healthy-IsGated :
      (p : Option ℕ) (w : W) → (scheduler_is_healthy os p w).0 ≡ true → IsGated p w
  unfolding scheduler_is_healthy
  scheduler_is_healthy-IsGated none w h = cc
  scheduler_is_healthy-IsGated (some pid) w h = gate_passed pid w (os.kill pid probe w).0 refl h
