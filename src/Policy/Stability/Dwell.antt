-- ===== src/Policy/Stability/Dwell.antt =====
-- crates/cerynth-policy/src/lib.rs, dwell time: the samples behind a change.
use mathlib.Core.Path.{subst}
use cerynth_os.Base.{
  ℕ, zero, suc, ◌≤◌, ◌≡◌, refl, ◌≢◌, ◌∙◌, inl, inr, Bool, true, false, Option, none, some, List, [],
  ◌∷◌, arith, Option-cases, if◌then◌else◌, sym, ap,
}
use cerynth_os.Ipc.Profiles.{Profile, same_profile-eq}
use cerynth_os.Policy.Floats.{Float64}
use cerynth_os.Policy.Rules.{
  PolicyInput, PolicyDecision, RulesBasedPolicy, is_invalid, candidate, default_policy,
}
use cerynth_os.Policy.Stability.{
  adopt_current, accepted, count_sample, after_sample, stabilize_from, evaluate, run, is_pending,
  saturating_suc,
}

-- The newest `n` votes are there, and all for `p`. Votes are listed newest first.
abbrev pub Streak : Profile → ℕ → List Profile → Type 0
Streak p zero votes = Unit
Streak p (suc n) [] = ⊥
Streak p (suc n) (q ∷ votes) = (q ≡ p) × Streak p n votes

Streak-le :
    (p : Profile) (m n : ℕ) (votes : List Profile) → m ≤ n → Streak p n votes → Streak p m votes
Streak-le p zero n votes h s = tt
Streak-le p (suc m) zero votes h s = absurd (omega arith)
Streak-le p (suc m) (suc n) [] h s = s
Streak-le p (suc m) (suc n) (q ∷ votes) h s = (s.0, Streak-le p m n votes (omega arith) s.1)

-- The count of samples is backed by votes.
abbrev pub Backed : Option Profile → ℕ → List Profile → Type 0
Backed none n votes = n ≡ 0
Backed (some p) n votes = Streak p n votes

saturating_suc-le : (n : ℕ) → saturating_suc n ≤ suc n
saturating_suc-le n = ground arith

is_pending-eq : (o : Option Profile) (p : Profile) → is_pending o p ≡ true → o ≡ some p
is_pending-eq none p e = ground arith
is_pending-eq (some q) p e = ap some (same_profile-eq q p e)

-- One more vote for the pending profile, or a first vote for another one, is a streak.
counted-Streak :
    (o : Option Profile) (b : Bool) (n : ℕ) (p : Profile) (votes : List Profile)
    → Backed o n votes
    → (b ≡ true → o ≡ some p)
    → Streak p (if b then saturating_suc n else 1) (p ∷ votes)
counted-Streak o false n p votes h k = (refl, tt)
counted-Streak o true n p votes h k =
    let streak : Streak p n votes = subst (λ r. Backed r n votes) (k refl) h in
    Streak-le p (saturating_suc n) (suc n) (p ∷ votes) (saturating_suc-le n) (refl, streak)

module _ {R : Type 0} (fl : Float64 R) where
  abbrev pub IsBacked : RulesBasedPolicy R → List Profile → Type 0
  IsBacked s votes = Backed s.pending_profile s.pending_count votes

  -- The profile that a sample votes for.
  abbrev pub vote : PolicyInput R → Profile
  vote i = (candidate fl (default_policy fl) i).recommended_profile

  -- The votes after more samples. An invalid one has none.
  abbrev pub votes_after : List Profile → List (PolicyInput R) → List Profile
  votes_after votes [] = votes
  votes_after votes (i ∷ is) = votes_after (if is_invalid fl i then votes else vote i ∷ votes) is

  pub candidate-vote :
      (s : RulesBasedPolicy R) (i : PolicyInput R) → (candidate fl s i).recommended_profile ≡ vote i
  unfolding candidate
  candidate-vote s i = ground arith

  count_sample-count :
      (s : RulesBasedPolicy R) (p : Profile)
      → ((count_sample fl s p).pending_profile ≡ some p)
        × ((count_sample fl s p).pending_count
            ≡ (if is_pending s.pending_profile p then saturating_suc s.pending_count else 1))
  unfolding count_sample
  count_sample-count s p = ground (arith, is_pending-eq s.pending_profile p)

  count_sample-IsBacked :
      (s : RulesBasedPolicy R) (p : Profile) (votes : List Profile)
      → IsBacked s votes
      → Streak p (count_sample fl s p).pending_count (p ∷ votes)
  count_sample-IsBacked s p votes h =
      subst (λ n. Streak p n (p ∷ votes)) (sym (count_sample-count s p).1)
        (counted-Streak s.pending_profile (is_pending s.pending_profile p) s.pending_count p votes h
          (is_pending-eq s.pending_profile p))

  after_sample-IsBacked :
      (s : RulesBasedPolicy R) (old p : Profile) (c : PolicyDecision R) (votes : List Profile)
      → s.pending_profile ≡ some p
      → Streak p s.pending_count votes
      → IsBacked (after_sample fl s old c).1 votes
  unfolding after_sample
  after_sample-IsBacked s old p c votes e h = ground arith

  stabilize_from-IsBacked :
      (s : RulesBasedPolicy R) (old : Profile) (c : PolicyDecision R) (votes : List Profile)
      → IsBacked s votes
      → IsBacked (stabilize_from fl s old c).1 (c.recommended_profile ∷ votes)
  unfolding stabilize_from
  stabilize_from-IsBacked s old c votes h =
      let sampled = count_sample fl s c.recommended_profile in
      let backed =
        after_sample-IsBacked sampled old c.recommended_profile c (c.recommended_profile ∷ votes)
          (count_sample-count s c.recommended_profile).0
          (count_sample-IsBacked s c.recommended_profile votes h) in
      ground (arith, backed)

  adopt_current-IsBacked :
      (s : RulesBasedPolicy R) (current : Profile) (votes : List Profile)
      → IsBacked s votes
      → IsBacked (adopt_current fl s current) votes
  unfolding adopt_current
  adopt_current-IsBacked s current votes h = elim (Option-cases s.accepted_profile) [
    | inl e ↦ ground arith
    | inr e ↦ ground arith
  ]

  evaluate-IsBacked :
      (s : RulesBasedPolicy R) (i : PolicyInput R) (votes : List Profile)
      → IsBacked s votes
      → IsBacked (evaluate fl s i).1 (if is_invalid fl i then votes else vote i ∷ votes)
  unfolding evaluate
  evaluate-IsBacked s i votes h =
      let adopted = adopt_current-IsBacked s i.current_profile votes h in
      ground (
        arith,
        stabilize_from-IsBacked (adopt_current fl s i.current_profile)
            (accepted fl s i.current_profile) (candidate fl s i) votes adopted,
        candidate-vote s i,
      )

  run-IsBacked :
      (s : RulesBasedPolicy R) (is : List (PolicyInput R)) (votes : List Profile)
      → IsBacked s votes
      → IsBacked (run fl s is) (votes_after votes is)
  unfolding run
  run-IsBacked s [] votes h = h
  run-IsBacked s (i ∷ is) votes h =
      run-IsBacked (evaluate fl s i).1 is (if is_invalid fl i then votes else vote i ∷ votes)
        (evaluate-IsBacked s i votes h)

  evaluate-dwell :
      (s : RulesBasedPolicy R) (i : PolicyInput R)
      → (evaluate fl s i).1.min_dwell_samples ≡ s.min_dwell_samples
  unfolding evaluate
  evaluate-dwell s i = ground arith

  run-dwell :
      (s : RulesBasedPolicy R) (is : List (PolicyInput R))
      → (run fl s is).min_dwell_samples ≡ s.min_dwell_samples
  unfolding run
  run-dwell s [] = refl
  run-dwell s (i ∷ is) = run-dwell (evaluate fl s i).1 is ∙ evaluate-dwell s i

  stabilize_from_changed :
      (s : RulesBasedPolicy R) (a b : Profile) (c : PolicyDecision R)
      → s.accepted_profile ≡ some a
      → (stabilize_from fl s a c).1.accepted_profile ≡ some b
      → a ≢ b
      → (c.recommended_profile ≡ b)
        × (s.min_dwell_samples ≤ (count_sample fl s c.recommended_profile).pending_count)
  unfolding stabilize_from
  stabilize_from_changed s a b c k l n = ground arith

  stabilize_from-Streak :
      (s : RulesBasedPolicy R) (a b : Profile) (c : PolicyDecision R) (votes : List Profile)
      → IsBacked s votes
      → s.accepted_profile ≡ some a
      → (stabilize_from fl s a c).1.accepted_profile ≡ some b
      → a ≢ b
      → Streak b s.min_dwell_samples (c.recommended_profile ∷ votes)
  stabilize_from-Streak s a b c votes h k l n =
      let p = c.recommended_profile in
      let changed = stabilize_from_changed s a b c k l n in
      subst (λ q. Streak q s.min_dwell_samples (p ∷ votes)) changed.0
        (Streak-le p s.min_dwell_samples (count_sample fl s p).pending_count (p ∷ votes) changed.1
          (count_sample-IsBacked s p votes h))

  -- A sample that changes the accepted profile voted for the new one, and so did the last samples.
  evaluate-Streak :
      (s : RulesBasedPolicy R) (i : PolicyInput R) (a b : Profile) (votes : List Profile)
      → IsBacked s votes
      → s.accepted_profile ≡ some a
      → (evaluate fl s i).1.accepted_profile ≡ some b
      → a ≢ b
      → Streak b s.min_dwell_samples (vote i ∷ votes)
  unfolding evaluate
  evaluate-Streak s i a b votes h k l n =
      ground (arith, stabilize_from-Streak s a b (candidate fl s i) votes h k, candidate-vote s i)

  -- From a policy with no pending samples, over any samples: when the next sample changes the
  -- accepted profile, then it and the valid samples before it are, up to at least
  -- `min_dwell_samples` in a row, votes for the new profile. Invalid samples cast no vote and do
  -- not break the row.
  pub accepted-Streak :
      (s : RulesBasedPolicy R) (is : List (PolicyInput R)) (i : PolicyInput R) (a b : Profile)
      → s.pending_profile ≡ none
      → s.pending_count ≡ 0
      → (run fl s is).accepted_profile ≡ some a
      → (evaluate fl (run fl s is) i).1.accepted_profile ≡ some b
      → a ≢ b
      → Streak b s.min_dwell_samples (vote i ∷ votes_after [] is)
  accepted-Streak s is i a b none_pending zero_pending k l n =
      let start : IsBacked s [] = ground arith in
      subst (λ m. Streak b m (vote i ∷ votes_after [] is)) (run-dwell s is)
        (evaluate-Streak (run fl s is) i a b (votes_after [] is) (run-IsBacked s is [] start) k l n)
