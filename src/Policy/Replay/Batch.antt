-- ===== src/Policy/Replay/Batch.antt =====
-- crates/cerynth-policy/src/bin/cerynth-policy-replay.rs: the loop against the policy run over all the
-- snapshots of the input.
use cerynth_os.Base.{
  ℕ, ◌+◌, ◌≡◌, refl, ap, Bool, true, false, String, Option, none, some, List, [], ◌∷◌, Result, ok,
  err,
}
use cerynth_os.Base.Text.{trim, is_empty}
use cerynth_os.Policy.Floats.{Float64}
use cerynth_os.Policy.Rules.{PolicyInput, RulesBasedPolicy, default_policy}
use cerynth_os.Policy.Stability.{evaluate, run}
use cerynth_os.Policy.Replay.{
  PolicyRecord, record_of, replay_input, Replayed, written, encoded, flushed, replayed_line,
  replay_lines, replay,
}
use cerynth_os.Telemetry.Samples.{SystemSnapshot}

module _ {R : Type 0} (fl : Float64 R) (lowercase : String → String) where
  -- The inputs of the policy, and the records of its decisions.
  abbrev pub inputs_of : Option (SystemSnapshot R) → List (SystemSnapshot R) → List (PolicyInput R)
  inputs_of previous [] = []
  inputs_of previous (x ∷ xs) = replay_input fl lowercase previous x ∷ inputs_of (some x) xs

  abbrev pub records_of :
      RulesBasedPolicy R → List (SystemSnapshot R) → List (PolicyInput R) → List (PolicyRecord R)
  records_of policy [] is = []
  records_of policy (x ∷ xs) [] = []
  records_of policy (x ∷ xs) (i ∷ is) =
      record_of lowercase x (evaluate fl policy i).0 ∷ records_of (evaluate fl policy i).1 xs is

  module _ {W : Type 0} (from_str : String → Result (SystemSnapshot R) String)
      (to_string : PolicyRecord R → Result String String)
      (write_line : String → W → Result (Unit {0}) String × W)
      (flush : W → Result (Unit {0}) String × W) where
    -- The snapshots of the lines that are not blank.
    pub data Snapshots : List (Result String String) → List (SystemSnapshot R) → Type 0 where
      no_lines : Snapshots [] []
      blank :
          {line : String} {rest : List (Result String String)} {xs : List (SystemSnapshot R)}
          → is_empty (trim line) ≡ true
          → Snapshots rest xs
          → Snapshots (ok line ∷ rest) xs
      full :
          {line : String} {rest : List (Result String String)} {x : SystemSnapshot R}
          {xs : List (SystemSnapshot R)}
          → is_empty (trim line) ≡ false
          → from_str line ≡ ok x
          → Snapshots rest xs
          → Snapshots (ok line ∷ rest) (x ∷ xs)

    abbrev pub ResultOf : Type 0
    ResultOf = Replayed fl lowercase from_str to_string write_line flush

    -- All the lines were replayed.
    abbrev pub IsBatch :
        Option (SystemSnapshot R)
        → RulesBasedPolicy R
        → List (Result String String)
        → ResultOf
        → Type 0
    IsBatch previous policy ls (records, after, ended, w) =
        (xs : List (SystemSnapshot R)) × Snapshots ls xs
        × (records ≡ records_of policy xs (inputs_of previous xs))
        × (after ≡ run fl policy (inputs_of previous xs))

    abbrev pub IsReplayed :
        Option (SystemSnapshot R)
        → RulesBasedPolicy R
        → List (Result String String)
        → ResultOf
        → Type 0
    IsReplayed previous policy ls out = out.2 ≡ ok tt → IsBatch previous policy ls out

    module _ (previous : Option (SystemSnapshot R)) (policy : RulesBasedPolicy R) (line : String)
        (rest : List (Result String String)) (x : SystemSnapshot R)
        (shown : is_empty (trim line) ≡ false) (parses : from_str line ≡ ok x) where
      abbrev decided : PolicyRecord R
      decided = record_of lowercase x (evaluate fl policy (replay_input fl lowercase previous x)).0

      abbrev decides : RulesBasedPolicy R
      decides = (evaluate fl policy (replay_input fl lowercase previous x)).1

      continued-IsReplayed :
          (out : ResultOf)
          → IsReplayed (some x) decides rest out
          → out.2 ≡ ok tt
          → IsBatch previous policy (ok line ∷ rest) (decided ∷ out.0, out.1, out.2, out.3)
      unfolding run
      continued-IsReplayed (rs, after, ended, w) k h =
          let (xs, snapshots, records, reached) = k h in
          (x ∷ xs, full shown parses snapshots, ap (◌∷◌ decided) records, reached)

      written-IsReplayed :
          (next : W → ResultOf) (r : Result (Unit {0}) String × W)
          → ((v : W) → IsReplayed (some x) decides rest (next v))
          → IsReplayed previous policy
              (ok line ∷ rest)
              (written fl lowercase from_str to_string write_line flush decided decides next r)
      written-IsReplayed next (err e, w) k h = absurd (cc)
      written-IsReplayed next (ok _, w) k h = continued-IsReplayed (next w) (k w) h

      encoded-IsReplayed :
          (next : W → ResultOf) (r : Result String String) (w : W)
          → ((v : W) → IsReplayed (some x) decides rest (next v))
          → IsReplayed previous policy
              (ok line ∷ rest)
              (encoded fl lowercase from_str to_string write_line flush decided decides next r w)
      encoded-IsReplayed next (err e) w k h = absurd (cc)
      encoded-IsReplayed next (ok text) w k h = written-IsReplayed next (write_line text w) k h

    flushed-IsReplayed :
        (previous : Option (SystemSnapshot R)) (policy : RulesBasedPolicy R)
        (r : Result (Unit {0}) String × W)
        → IsReplayed previous policy []
            (flushed fl lowercase from_str to_string write_line flush policy r)
    unfolding run
    flushed-IsReplayed previous policy (r, w) h = ([], no_lines, refl, refl)

    skipped-IsReplayed :
        (previous : Option (SystemSnapshot R)) (policy : RulesBasedPolicy R) (line : String)
        (rest : List (Result String String)) (out : ResultOf)
        → is_empty (trim line) ≡ true
        → IsReplayed previous policy rest out
        → IsReplayed previous policy (ok line ∷ rest) out
    skipped-IsReplayed previous policy line rest (rs, after, ended, w) b k h =
        let (xs, snapshots, records, reached) = k h in (xs, blank b snapshots, records, reached)

    line-IsReplayed :
        (n : ℕ) (previous : Option (SystemSnapshot R)) (policy : RulesBasedPolicy R) (line : String)
        (rest : List (Result String String)) (is_blank : Bool)
        (r : Result (SystemSnapshot R) String)
        (next : Option (SystemSnapshot R) → RulesBasedPolicy R → W → ResultOf) (w : W)
        → is_empty (trim line) ≡ is_blank
        → from_str line ≡ r
        → ((p : Option (SystemSnapshot R)) (q : RulesBasedPolicy R) (v : W)
            → IsReplayed p q rest (next p q v))
        → IsReplayed previous policy (ok line ∷ rest) (
            replayed_line fl lowercase from_str to_string write_line flush n previous policy
              is_blank r next w)
    line-IsReplayed n previous policy line rest true r next w b h ih =
        skipped-IsReplayed previous policy line rest (next previous policy w) b
          (ih previous policy w)
    line-IsReplayed n previous policy line rest false (err e) next w b h ih = λ ended. absurd (cc)
    line-IsReplayed n previous policy line rest false (ok x) next w b h ih =
        let d = evaluate fl policy (replay_input fl lowercase previous x) in
        encoded-IsReplayed previous policy line rest x b h (next (some x) d.1)
          (to_string (record_of lowercase x d.0)) w (ih (some x) d.1)

    lines-IsReplayed :
        (n : ℕ) (previous : Option (SystemSnapshot R)) (policy : RulesBasedPolicy R)
        (ls : List (Result String String)) (w : W)
        → IsReplayed previous policy ls
            (replay_lines fl lowercase from_str to_string write_line flush n previous policy ls w)
    unfolding replay_lines
    lines-IsReplayed n previous policy [] w = flushed-IsReplayed previous policy (flush w)
    lines-IsReplayed n previous policy (err e ∷ rest) w = λ ended. absurd (cc)
    lines-IsReplayed n previous policy (ok line ∷ rest) w =
        line-IsReplayed n previous policy line rest (is_empty (trim line)) (from_str line)
          (λ p q v.
            replay_lines fl lowercase from_str to_string write_line flush (n + 1) p q rest v)
          w refl refl (λ p q v. lines-IsReplayed (n + 1) p q rest v)

    -- If a replay ends without an error, every line that is not blank parses to a snapshot; the
    -- records that it wrote are, one for one, the decisions of a new policy over the inputs made
    -- of these snapshots; and the policy is then what a run over these inputs leaves.
    pub replay-IsBatch :
        (ls : List (Result String String)) (w : W)
        → (replay fl lowercase from_str to_string write_line flush ls w).2 ≡ ok tt
        → IsBatch none
            (default_policy fl)
            ls
            (replay fl lowercase from_str to_string write_line flush ls w)
    unfolding replay
    replay-IsBatch ls w h = lines-IsReplayed 1 none (default_policy fl) ls w h
