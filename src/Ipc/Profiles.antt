-- ===== src/Ipc/Profiles.antt =====
-- crates/cerynth-ipc/src/profile.rs and backend.rs: profiles, scheduler backends and the status
-- record. `to_lowercase` is the standard library's, on ASCII text: the names compared are ASCII.
pub mod Parsing
use text.Mathlib.Text.{◌==◌ as str_eq}
use cerynth_os.Base.{
  String, ◌≡◌, ◌≢◌, arith, Bool, true, false, Option, none, List, [], ◌∷◌, Result, ok, err, format,
  if◌then◌else◌,
}

pub data Profile : Type 0 where
  balanced interactive performance background : Profile

-- The derived `PartialEq`.
unfoldable pub same_profile : Profile → Profile → Bool
same_profile balanced balanced = true
same_profile interactive interactive = true
same_profile performance performance = true
same_profile background background = true
same_profile _ _ = false

pub same_profile-eq : (p q : Profile) → same_profile p q ≡ true → p ≡ q
unfolding same_profile
same_profile-eq p q h = ground arith

pub same_profile-ne : (p q : Profile) → same_profile p q ≡ false → p ≢ q
unfolding same_profile
same_profile-ne p q h e = ground arith

unfoldable pub all_profiles : List Profile
all_profiles = balanced ∷ interactive ∷ performance ∷ background ∷ []

-- `Display`.
unfoldable pub profile_name : Profile → String
profile_name balanced = "balanced"
profile_name interactive = "interactive"
profile_name performance = "performance"
profile_name background = "background"

pub data SchedulerBackend : Type 0 where
  mock scx : SchedulerBackend

unfoldable pub all_backends : List SchedulerBackend
all_backends = mock ∷ scx ∷ []

unfoldable pub backend_name : SchedulerBackend → String
backend_name mock = "mock"
backend_name scx = "scx"

-- The two parsers lower the case of their input by the standard library's function.
module _ (to_lowercase : String → String) where
  unfoldable pub parse_profile : String → Result Profile String
  parse_profile s =
      let t = to_lowercase s in
      if str_eq t "balanced"
      then ok balanced
      else if str_eq t "interactive"
      then ok interactive
      else if str_eq t "performance"
      then ok performance
      else if str_eq t "background"
      then ok background
      else err (format ("unknown profile: " ∷ s ∷ []))

  unfoldable pub parse_backend : String → Result SchedulerBackend String
  parse_backend s =
      let t = to_lowercase s in
      if str_eq t "mock"
      then ok mock
      else if str_eq t "scx"
      then ok scx
      else err (format ("unknown scheduler backend: " ∷ s ∷ []))

pub record SchedulerStatus : Type 0 where
  pub profile : Profile
  pub adaptation_enabled : Bool
  pub backend : SchedulerBackend
  pub running : Bool
  pub sched_ext_state : Option String
  pub heartbeat_ok : Bool

-- `Default`, which `new` returns.
unfoldable pub default_status : SchedulerStatus
default_status = record {
  profile = balanced;
  adaptation_enabled = false;
  backend = mock;
  running = false;
  sched_ext_state = none;
  heartbeat_ok = false;
}
