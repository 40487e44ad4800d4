-- ===== src/Scx/Health.antt =====
-- services/cerynthd/src/backends/scx.rs, the two files that say whether the scheduler is healthy.
use text.Mathlib.Text.{◌==◌ as str_eq}
use mathlib.Core.Option
use cerynth_os.Base.{
  ℕ, ◌-◌, String, Bool, true, false, not, ◌&&◌, ◌||◌, Option, none, some, Result, ok, err, leb,
  ◌==◌, if◌then◌else◌,
}
use cerynth_os.Base.Text.{trim, is_empty}
use cerynth_os.Scx.Os.{Os}

abbrev pub heartbeat_timeout_secs : ℕ
heartbeat_timeout_secs = 10

abbrev pub default_scx_state_path : String
default_scx_state_path = "/sys/kernel/sched_ext/state"

abbrev pub default_heartbeat_path : String
default_heartbeat_path = "/run/cerynth/scheduler.json"

abbrev pub is_some_u64 : Option ℕ → ℕ → Bool
is_some_u64 none n = false
is_some_u64 (some m) n = m == n

abbrev pub is_some_true : Option Bool → Bool
is_some_true (some true) = true
is_some_true _ = false

-- What is made of the contents of the state file.
unfoldable pub scx_state : Result String String → Option String
scx_state (err e) = none
scx_state (ok contents) =
    let state = trim contents in if is_empty state || str_eq state "none" then none else some state

abbrev pub is_enabled : Option String → Bool
is_enabled none = false
is_enabled (some s) = str_eq s "enabled"

module _ {W J : Type 0} (os : Os W J) where
  unfoldable pub scx_state_path : W → String
  scx_state_path w = Option.get_or (os.env_var "CERYNTH_SCX_STATE_PATH" w) default_scx_state_path

  unfoldable pub heartbeat_path : W → String
  heartbeat_path w = Option.get_or (os.env_var "CERYNTH_HEARTBEAT_PATH" w) default_heartbeat_path

  unfoldable pub read_scx_state_from : String → W → Option String × W
  read_scx_state_from path w =
      let (contents, w') = os.read_to_string path w in (scx_state contents, w')

  unfoldable pub sched_ext_is_enabled : String → W → Bool × W
  unfolding read_scx_state_from
  sched_ext_is_enabled path w =
      let (state, w') = read_scx_state_from path w in (is_enabled state, w')

  -- The `pid`, `running` and `healthy` of the record are those of a healthy process `pid`.
  unfoldable pub names_process : J → ℕ → Bool
  names_process json expected_pid =
      is_some_u64 (Option.bind (os.json_get json "pid") os.json_as_u64) expected_pid
      && is_some_true (Option.bind (os.json_get json "running") os.json_as_bool)
      && is_some_true (Option.bind (os.json_get json "healthy") os.json_as_bool)

  abbrev pub heartbeat_of : J → Option ℕ
  heartbeat_of json = Option.bind (os.json_get json "heartbeat") os.json_as_u64

  -- `timestamp <= now && now - timestamp <= HEARTBEAT_TIMEOUT_SECS`, if there is a time.
  unfoldable pub is_recent : ℕ → Option ℕ → Bool
  is_recent timestamp none = false
  is_recent timestamp (some now) = leb timestamp now && leb (now - timestamp) heartbeat_timeout_secs

  -- The time is read only if the record has passed all other tests.
  unfoldable pub timestamp_is_fresh : Option ℕ → W → Bool × W
  unfolding is_recent
  timestamp_is_fresh none w = (false, w)
  timestamp_is_fresh (some timestamp) w =
      let (now, w') = os.unix_secs w in (is_recent timestamp now, w')

  unfoldable pub record_is_fresh : Option J → ℕ → W → Bool × W
  unfolding names_process timestamp_is_fresh
  record_is_fresh none expected_pid w = (false, w)
  record_is_fresh (some json) expected_pid w =
      if not (names_process json expected_pid)
      then (false, w)
      else timestamp_is_fresh (heartbeat_of json) w

  unfoldable pub heartbeat_is_fresh : String → ℕ → W → Bool × W
  unfolding record_is_fresh
  heartbeat_is_fresh path expected_pid w =
      let (contents, w') = os.read_to_string path w in
      elim contents [
        | err e ↦ (false, w')
        | ok text ↦ record_is_fresh (os.json_from_str text) expected_pid w'
      ]
