-- ===== src/Policy/Report/Holds.antt =====
-- crates/cerynth-policy: the reasons that the report searches for, against what the policy did.
use cerynth_os.Base.{
  ℕ, ◌≡◌, refl, ◌∙◌, Bool, true, false, not, ◌&&◌, ltb, arith, String, Option, none, some, List, [],
  ◌∷◌, format, Bool-cases, inl, inr, if◌then◌else◌,
}
use cerynth_os.Base.Text.{show_ℕ}
use cerynth_os.Base.Text.Chars.{lacks_c-show_ℕ}
use cerynth_os.Ipc.Profiles.{
  Profile, balanced, interactive, performance, background, same_profile, profile_name,
}
use cerynth_os.Policy.Floats.{Float64}
use cerynth_os.Policy.Rules.{
  PolicyInput, PolicyDecision, RulesBasedPolicy, decision, is_invalid, candidate,
}
use cerynth_os.Policy.Stability.{
  evaluate, stabilize_from, dwell_hold, cooldown_hold, accepted, adopt_current, count_sample,
  cool_down, clear_pending,
}
use cerynth_os.Policy.Stability.Dwell.{vote, candidate-vote}
use cerynth_os.Policy.Report.{contains}
use cerynth_os.Policy.Report.Search.{quiet, quiet-lacks, quiet-format, contains-format}

abbrev dwell_words : String
dwell_words = "consecutive samples"

abbrev cooldown_words : String
cooldown_words = "cooldown"

quiet_dwell-name : (p : Profile) → quiet dwell_words (profile_name p) ≡ true
unfolding profile_name
quiet_dwell-name balanced = refl
quiet_dwell-name interactive = refl
quiet_dwell-name performance = refl
quiet_dwell-name background = refl

quiet_cooldown-name : (p : Profile) → quiet cooldown_words (profile_name p) ≡ true
unfolding profile_name
quiet_cooldown-name balanced = refl
quiet_cooldown-name interactive = refl
quiet_cooldown-name performance = refl
quiet_cooldown-name background = refl

quiet_cooldown-show_ℕ : (n : ℕ) → quiet cooldown_words (show_ℕ n) ≡ true
quiet_cooldown-show_ℕ n = quiet-lacks "c" "ooldown" (show_ℕ n) (lacks_c-show_ℕ n)

dwell_words_found : contains dwell_words " consecutive samples support " ≡ true
unfolding contains cerynth_os.Base.Words.strip_prefix
dwell_words_found = refl

cooldown_words_found : contains cooldown_words " during profile-change cooldown; candidate " ≡ true
unfolding contains cerynth_os.Base.Words.strip_prefix
cooldown_words_found = refl

module _ {R : Type 0} (fl : Float64 R) (s : RulesBasedPolicy R) (old : Profile)
    (c : PolicyDecision R) where
  abbrev behind_dwell_words : List String
  behind_dwell_words =
      profile_name c.recommended_profile
      ∷ "; "
      ∷ show_ℕ s.pending_count
      ∷ "/"
      ∷ show_ℕ s.min_dwell_samples
      ∷ []

  cooldown-dwell_hold : contains cooldown_words (dwell_hold fl s old c).reason ≡ false
  unfolding dwell_hold decision contains
  cooldown-dwell_hold =
      quiet-format cooldown_words
        ("Holding "
          ∷ profile_name old
          ∷ " until "
          ∷ profile_name c.recommended_profile
          ∷ " consecutive samples support "
          ∷ behind_dwell_words)
        (
          refl,
          (
            quiet_cooldown-name old,
            (
              refl,
              (
                quiet_cooldown-name c.recommended_profile,
                (
                  refl,
                  (
                    quiet_cooldown-name c.recommended_profile,
                    (
                      refl,
                      (
                        quiet_cooldown-show_ℕ s.pending_count,
                        (refl, (quiet_cooldown-show_ℕ s.min_dwell_samples, tt)),
                      ),
                    ),
                  ),
                ),
              ),
            ),
          ),
        )

  dwell-cooldown_hold : contains dwell_words (cooldown_hold fl s old c).reason ≡ false
  unfolding cooldown_hold decision contains
  dwell-cooldown_hold =
      quiet-format dwell_words
        ("Holding "
          ∷ profile_name old
          ∷ " during profile-change cooldown; candidate "
          ∷ profile_name c.recommended_profile
          ∷ [])
        (refl, (quiet_dwell-name old, (refl, (quiet_dwell-name c.recommended_profile, tt))))

  dwell-dwell_hold : contains dwell_words (dwell_hold fl s old c).reason ≡ true
  unfolding dwell_hold decision
  dwell-dwell_hold =
      contains-format "c" "onsecutive samples"
        ("Holding " ∷ profile_name old ∷ " until " ∷ profile_name c.recommended_profile ∷ [])
        " consecutive samples support " behind_dwell_words
        (refl, (quiet_dwell-name old, (refl, (quiet_dwell-name c.recommended_profile, tt))))
        dwell_words_found

  cooldown-cooldown_hold : contains cooldown_words (cooldown_hold fl s old c).reason ≡ true
  unfolding cooldown_hold decision
  cooldown-cooldown_hold =
      contains-format "c" "ooldown" ("Holding " ∷ profile_name old ∷ [])
        " during profile-change cooldown; candidate " (profile_name c.recommended_profile ∷ [])
        (refl, (quiet_cooldown-name old, tt)) cooldown_words_found

same_profile_refl : (p : Profile) → same_profile p p ≡ true
unfolding same_profile
same_profile_refl p = ground arith

same_profile_comm : (p q : Profile) → same_profile p q ≡ same_profile q p
unfolding same_profile
same_profile_comm p q = ground arith

-- The texts of the raw recommendation, without either needle.
abbrev IsRaw : String → Type 0
IsRaw r = (contains dwell_words r ≡ false) × (contains cooldown_words r ≡ false)

saturated-IsRaw : IsRaw "Very high CPU utilisation with sustained runnable pressure"
unfolding contains cerynth_os.Base.Words.strip_prefix
saturated-IsRaw = (refl, refl)

responsive-IsRaw :
    IsRaw "High runnable load with frequent context switches or short-lived process activity"
unfolding contains cerynth_os.Base.Words.strip_prefix
responsive-IsRaw = (refl, refl)

idle-IsRaw : IsRaw "Very low CPU utilisation and runnable pressure with minimal process activity"
unfolding contains cerynth_os.Base.Words.strip_prefix
idle-IsRaw = (refl, refl)

light-IsRaw : IsRaw "Low CPU utilisation and low runnable load"
unfolding contains cerynth_os.Base.Words.strip_prefix
light-IsRaw = (refl, refl)

other-IsRaw : IsRaw "Workload does not strongly match another profile"
unfolding contains cerynth_os.Base.Words.strip_prefix
other-IsRaw = (refl, refl)

invalid-IsRaw : IsRaw "Invalid telemetry; defaulting to balanced"
unfolding contains cerynth_os.Base.Words.strip_prefix
invalid-IsRaw = (refl, refl)

module _ {R : Type 0} (fl : Float64 R) where
  -- A valid sample whose vote is not what is recommended, in and out of the cooldown.
  abbrev pub is_held : RulesBasedPolicy R → PolicyInput R → Bool
  is_held s i =
      not (is_invalid fl i)
      && not (same_profile (evaluate fl s i).0.recommended_profile (vote fl i))

  abbrev pub is_cooldown_hold : RulesBasedPolicy R → PolicyInput R → Bool
  is_cooldown_hold s i = is_held s i && ltb 0 s.cooldown_remaining

  abbrev pub is_dwell_hold : RulesBasedPolicy R → PolicyInput R → Bool
  is_dwell_hold s i = is_held s i && not (ltb 0 s.cooldown_remaining)

  candidate-IsRaw : (s : RulesBasedPolicy R) (i : PolicyInput R) → IsRaw (candidate fl s i).reason
  unfolding candidate decision
  candidate-IsRaw s i =
      ground (arith, saturated-IsRaw, responsive-IsRaw, idle-IsRaw, light-IsRaw, other-IsRaw)

  module _ (s : RulesBasedPolicy R) (old : Profile) (c : PolicyDecision R) where
    stabilize_from-dwell :
        contains dwell_words c.reason ≡ false
        → contains dwell_words (stabilize_from fl s old c).0.reason ≡ (
            not
              (same_profile (stabilize_from fl s old c).0.recommended_profile c.recommended_profile)
            && not (ltb 0 s.cooldown_remaining))
    unfolding stabilize_from dwell_hold cooldown_hold decision
    stabilize_from-dwell h = ground (
      arith,
      same_profile_comm c.recommended_profile old,
      same_profile_refl c.recommended_profile,
      dwell-dwell_hold fl (count_sample fl s c.recommended_profile) old c,
      dwell-cooldown_hold fl (cool_down fl (clear_pending fl s)) old c,
    )

    stabilize_from-cooldown :
        contains cooldown_words c.reason ≡ false
        → contains cooldown_words (stabilize_from fl s old c).0.reason ≡ (
            not
              (same_profile (stabilize_from fl s old c).0.recommended_profile c.recommended_profile)
            && ltb 0 s.cooldown_remaining)
    unfolding stabilize_from dwell_hold cooldown_hold decision
    stabilize_from-cooldown h = ground (
      arith,
      same_profile_comm c.recommended_profile old,
      same_profile_refl c.recommended_profile,
      cooldown-dwell_hold fl (count_sample fl s c.recommended_profile) old c,
      cooldown-cooldown_hold fl (cool_down fl (clear_pending fl s)) old c,
    )

  adopt_current-cooldown :
      (s : RulesBasedPolicy R) (p : Profile)
      → (adopt_current fl s p).cooldown_remaining ≡ s.cooldown_remaining
  unfolding adopt_current
  adopt_current-cooldown s p = ground arith

  evaluate_invalid :
      (s : RulesBasedPolicy R) (i : PolicyInput R)
      → is_invalid fl i ≡ true
      → (evaluate fl s i).0.reason ≡ "Invalid telemetry; defaulting to balanced"
  unfolding evaluate decision
  evaluate_invalid s i h = ground arith

  evaluate_valid :
      (s : RulesBasedPolicy R) (i : PolicyInput R)
      → is_invalid fl i ≡ false
      → evaluate fl s i
        ≡ stabilize_from fl
            (adopt_current fl s i.current_profile)
            (accepted fl s i.current_profile)
            (candidate fl s i)
  unfolding evaluate
  evaluate_valid s i h = rw h refl

  module _ (s : RulesBasedPolicy R) (i : PolicyInput R) where
    abbrev adopted : RulesBasedPolicy R
    adopted = adopt_current fl s i.current_profile

    -- The two texts that the report searches for tell exactly what the policy did.
    pub evaluate-dwell_words :
        contains "consecutive samples" (evaluate fl s i).0.reason ≡ is_dwell_hold s i
    evaluate-dwell_words = elim (Bool-cases (is_invalid fl i)) [
      | inl e ↦ ground (arith, invalid-IsRaw, evaluate_invalid s i e)
      | inr e ↦ ground (
        arith,
        evaluate_valid s i e,
        candidate-IsRaw s i,
        candidate-vote fl s i,
        adopt_current-cooldown s i.current_profile,
        stabilize_from-dwell adopted (accepted fl s i.current_profile) (candidate fl s i),
      )
    ]

    pub evaluate-cooldown_words :
        contains "cooldown" (evaluate fl s i).0.reason ≡ is_cooldown_hold s i
    evaluate-cooldown_words = elim (Bool-cases (is_invalid fl i)) [
      | inl e ↦ ground (arith, invalid-IsRaw, evaluate_invalid s i e)
      | inr e ↦ ground (
        arith,
        evaluate_valid s i e,
        candidate-IsRaw s i,
        candidate-vote fl s i,
        adopt_current-cooldown s i.current_profile,
        stabilize_from-cooldown adopted (accepted fl s i.current_profile) (candidate fl s i),
      )
    ]
