-- ===== src/Ipc/Profiles/Parsing.antt =====
-- crates/cerynth-ipc: `FromStr` of profiles and backends against their `Display`.
use text.Mathlib.TextEquality.{eq_iff}
use cerynth_os.Base.{String, ◌≡◌, ◌↔◌, ok, arith}
use cerynth_os.Ipc.Profiles.{
  Profile, balanced, interactive, performance, background, profile_name, parse_profile,
  SchedulerBackend, mock, scx, backend_name, parse_backend,
}

module _ (to_lowercase : String → String) where
  -- A text is parsed to a profile exactly when its lower-case form is the profile's name.
  pub parse_profile_iff :
      (s : String) (p : Profile)
      → (parse_profile to_lowercase s ≡ ok p) ↔ (to_lowercase s ≡ profile_name p)
  unfolding parse_profile profile_name
  parse_profile_iff s p = (
    λ h. ground (
      arith,
      eq_iff (to_lowercase s) "balanced",
      eq_iff (to_lowercase s) "interactive",
      eq_iff (to_lowercase s) "performance",
      eq_iff (to_lowercase s) "background",
    ),
    to_ok p,
  )
    where
      to_ok : (q : Profile) → to_lowercase s ≡ profile_name q → parse_profile to_lowercase s ≡ ok q
      to_ok balanced h = rw (h, parse_profile)
      to_ok interactive h = rw (h, parse_profile)
      to_ok performance h = rw (h, parse_profile)
      to_ok background h = rw (h, parse_profile)

  -- A text is parsed to a backend exactly when its lower-case form is the backend's name.
  pub parse_backend_iff :
      (s : String) (b : SchedulerBackend)
      → (parse_backend to_lowercase s ≡ ok b) ↔ (to_lowercase s ≡ backend_name b)
  unfolding parse_backend backend_name
  parse_backend_iff s b =
      (λ h. ground (arith, eq_iff (to_lowercase s) "mock", eq_iff (to_lowercase s) "scx"), to_ok b)
    where
      to_ok :
          (q : SchedulerBackend)
          → to_lowercase s ≡ backend_name q
          → parse_backend to_lowercase s ≡ ok q
      to_ok mock h = rw (h, parse_backend)
      to_ok scx h = rw (h, parse_backend)
