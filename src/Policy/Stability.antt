-- ===== src/Policy/Stability.antt =====
-- crates/cerynth-policy/src/lib.rs, `stabilize` and `evaluate`: dwell time and cooldown. The line that
-- `evaluate` prints is left out.
pub mod Cooldown
pub mod Dwell
use mathlib.Core.Option
use cerynth_os.Base.{
  ℕ, ◌+◌, ◌-◌, Bool, true, false, String, Option, none, some, List, [], ◌∷◌, format, ltb, leb,
  if◌then◌else◌,
}
use cerynth_os.Base.Text.{show_ℕ}
use cerynth_os.Ipc.Profiles.{Profile, balanced, same_profile, profile_name}
use cerynth_os.Policy.Floats.{Float64}
use cerynth_os.Policy.Rules.{
  PolicyInput, PolicyDecision, RulesBasedPolicy, decision, is_invalid, candidate,
}

abbrev pub u32_max : ℕ
u32_max = 4_294_967_295

-- `u32::saturating_add(1)`.
abbrev pub saturating_suc : ℕ → ℕ
saturating_suc n = if ltb n u32_max then n + 1 else n

abbrev pub is_pending : Option Profile → Profile → Bool
is_pending none p = false
is_pending (some q) p = same_profile q p

module _ {R : Type 0} (fl : Float64 R) where
  abbrev pub Policy : Type 0
  Policy = RulesBasedPolicy R

  abbrev pub Decision : Type 0
  Decision = PolicyDecision R

  -- The externally reported profile is the first that counts as accepted.
  unfoldable pub adopt_current : Policy → Profile → Policy
  adopt_current s current = elim s.accepted_profile [
    | none ↦ record s { accepted_profile = some current }
    | some p ↦ s
  ]

  abbrev pub accepted : Policy → Profile → Profile
  accepted s current = Option.get_or s.accepted_profile current

  -- One more sample for the candidate, or the first.
  unfoldable pub count_sample : Policy → Profile → Policy
  count_sample s p =
      if is_pending s.pending_profile p
      then record s { pending_count = saturating_suc s.pending_count }
      else record s { pending_profile = some p; pending_count = 1 }

  unfoldable pub dwell_hold : Policy → Profile → Decision → Decision
  dwell_hold s old c = decision fl s old c.confidence (
      format (
        "Holding "
        ∷ profile_name old
        ∷ " until "
        ∷ profile_name c.recommended_profile
        ∷ " consecutive samples support "
        ∷ profile_name c.recommended_profile
        ∷ "; "
        ∷ show_ℕ s.pending_count
        ∷ "/"
        ∷ show_ℕ s.min_dwell_samples
        ∷ []))

  unfoldable pub cooldown_hold : Policy → Profile → Decision → Decision
  cooldown_hold s old c = decision fl s old c.confidence (
      format (
        "Holding "
        ∷ profile_name old
        ∷ " during profile-change cooldown; candidate "
        ∷ profile_name c.recommended_profile
        ∷ []))

  unfoldable pub accept : Policy → Profile → Policy
  accept s p = record s {
    accepted_profile = some p;
    pending_profile = none;
    pending_count = 0;
    cooldown_remaining = s.cooldown_samples;
  }

  -- The candidate is held back until it has dwelt long enough.
  unfoldable pub after_sample : Policy → Profile → Decision → Decision × Policy
  unfolding accept
  after_sample s old c =
      if ltb s.pending_count s.min_dwell_samples
      then (dwell_hold s old c, s)
      else (c, accept s c.recommended_profile)

  abbrev pub clear_pending : Policy → Policy
  clear_pending s = record s { pending_profile = none; pending_count = 0 }

  -- `if self.cooldown_remaining > 0 { self.cooldown_remaining -= 1; }`: subtraction stops at 0.
  abbrev pub cool_down : Policy → Policy
  cool_down s = record s { cooldown_remaining = s.cooldown_remaining - 1 }

  -- `stabilize`, with the accepted profile at hand.
  unfoldable pub stabilize_from : Policy → Profile → Decision → Decision × Policy
  unfolding after_sample count_sample
  stabilize_from s old c =
      if same_profile c.recommended_profile old
      then (c, cool_down (clear_pending s))
      else if ltb 0 s.cooldown_remaining
      then (cooldown_hold (cool_down (clear_pending s)) old c, cool_down (clear_pending s))
      else after_sample (count_sample s c.recommended_profile) old c

  unfoldable pub stabilize : Policy → Decision → Profile → Decision × Policy
  unfolding adopt_current stabilize_from
  stabilize s c current = stabilize_from (adopt_current s current) (accepted s current) c

  unfoldable pub evaluate : Policy → PolicyInput R → Decision × Policy
  unfolding stabilize
  evaluate s i =
      if is_invalid fl i
      then (decision fl s balanced (fl.lit 10 1) "Invalid telemetry; defaulting to balanced", s)
      else stabilize s (candidate fl s i) i.current_profile

  -- The policy after a sequence of samples.
  unfoldable pub run : Policy → List (PolicyInput R) → Policy
  unfolding evaluate
  run s [] = s
  run s (i ∷ is) = run (evaluate s i).1 is
