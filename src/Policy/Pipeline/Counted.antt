-- ===== src/Policy/Pipeline/Counted.antt =====
-- crates/cerynth-policy/src/bin/cerynth-policy-report.rs: what the report counts in the file of a replay.
use Prim.Native.String.{◌++◌}
use mathlib.Core.Path.{subst}
use text.Mathlib.TextLemmas.{nil-append}
use cerynth_os.Base.{
  ℕ, ◌+◌, ◌≡◌, refl, sym, ap, ◌∙◌, Bool, String, Option, none, some, List, [], ◌∷◌, All, Result, ok,
  arith, length,
}
use cerynth_os.Base.Words.Lines.{IsLine, unlines, lines-unlines}
use cerynth_os.Ipc.Profiles.{Profile}
use cerynth_os.Policy.Floats.{Float64, FloatLaws}
use cerynth_os.Policy.Rules.{PolicyInput, RulesBasedPolicy, default_policy}
use cerynth_os.Policy.Stability.{evaluate}
use cerynth_os.Policy.Replay.{PolicyRecord, record_of, replay_input, replay}
use cerynth_os.Policy.Replay.Batch.{Snapshots, inputs_of, records_of, replay-IsBatch}
use cerynth_os.Policy.Report
use cerynth_os.Policy.Report.{
  Report, default_report, contains, add_if, count_record, analyze_lines, analyze,
}
use cerynth_os.Policy.Report.Holds.{
  is_dwell_hold, is_cooldown_hold, evaluate-dwell_words, evaluate-cooldown_words,
}
use cerynth_os.Policy.Report.Tally.{analyze_full}
use cerynth_os.Policy.Pipeline.{as_reported, OutputLaws, JsonLaws}
use cerynth_os.Policy.Pipeline.Confident.{IsConfident, replayed-IsConfident}
use cerynth_os.Policy.Pipeline.Written.{Texts, replay-IsWritten}
use cerynth_os.Telemetry.Samples.{SystemSnapshot}

module _ {R : Type 0} (fl : Float64 R) (lowercase : String → String)
    (read : String → Result (Report.PolicyRecord R) String) where
  -- How often the test holds of a sample, in the state in which the policy meets it.
  abbrev pub times_held :
      (RulesBasedPolicy R → PolicyInput R → Bool) → RulesBasedPolicy R → List (PolicyInput R) → ℕ
  times_held hold s [] = 0
  times_held hold s (i ∷ is) = add_if (hold s i) (times_held hold (evaluate fl s i).1 is)

  -- The report after more records.
  tallied : Option Profile → List (PolicyRecord R) → Report → Report
  tallied previous [] t = t
  tallied previous (r ∷ rs) t =
      tallied (some r.recommended_profile) rs (count_record read previous (as_reported r) t)

  add_if_plus : (b : Bool) (m n : ℕ) → add_if b m + n ≡ m + add_if b n
  add_if_plus b m n = ground arith

  -- What the report says of the replayed snapshots.
  pub record IsSummary (xs : List (SystemSnapshot R)) (t : Report) : Type 0 where
    pub samples : t.samples ≡ length xs
    pub dwell_holds :
        t.dwell_holds
        ≡ times_held (is_dwell_hold fl) (default_policy fl) (inputs_of fl lowercase none xs)
    pub cooldown_holds :
        t.cooldown_holds
        ≡ times_held (is_cooldown_hold fl) (default_policy fl) (inputs_of fl lowercase none xs)

  module _ (before : Option (SystemSnapshot R)) (s : RulesBasedPolicy R)
      (xs : List (SystemSnapshot R)) where
    abbrev inputs : List (PolicyInput R)
    inputs = inputs_of fl lowercase before xs

    abbrev decided : List (PolicyRecord R)
    decided = records_of fl lowercase s xs inputs

  tallied-samples :
      (before : Option (SystemSnapshot R)) (previous : Option Profile) (s : RulesBasedPolicy R)
      (xs : List (SystemSnapshot R)) (t : Report)
      → (tallied previous (decided before s xs) t).samples ≡ t.samples + length xs
  unfolding tallied count_record
  tallied-samples before previous s [] t = omega arith
  tallied-samples before previous s (x ∷ xs) t =
      let d = evaluate fl s (replay_input fl lowercase before x) in
      let r = record_of lowercase x d.0 in
      omega (
        arith,
        tallied-samples (some x) (some r.recommended_profile) d.1 xs
            (count_record read previous (as_reported r) t),
      )

  tallied-dwell_holds :
      (before : Option (SystemSnapshot R)) (previous : Option Profile) (s : RulesBasedPolicy R)
      (xs : List (SystemSnapshot R)) (t : Report)
      → (tallied previous (decided before s xs) t).dwell_holds
        ≡ t.dwell_holds + times_held (is_dwell_hold fl) s (inputs before s xs)
  unfolding tallied count_record record_of
  tallied-dwell_holds before previous s [] t = omega arith
  tallied-dwell_holds before previous s (x ∷ xs) t =
      let i = replay_input fl lowercase before x in
      let d = evaluate fl s i in
      let r = record_of lowercase x d.0 in
      tallied-dwell_holds (some x) (some r.recommended_profile) d.1 xs
        (count_record read previous (as_reported r) t)
      ∙ ap
          (λ b. add_if b t.dwell_holds + times_held (is_dwell_hold fl) d.1 (inputs (some x) d.1 xs))
          (evaluate-dwell_words fl s i)
      ∙ add_if_plus (is_dwell_hold fl s i) t.dwell_holds _

  tallied-cooldown_holds :
      (before : Option (SystemSnapshot R)) (previous : Option Profile) (s : RulesBasedPolicy R)
      (xs : List (SystemSnapshot R)) (t : Report)
      → (tallied previous (decided before s xs) t).cooldown_holds
        ≡ t.cooldown_holds + times_held (is_cooldown_hold fl) s (inputs before s xs)
  unfolding tallied count_record record_of
  tallied-cooldown_holds before previous s [] t = omega arith
  tallied-cooldown_holds before previous s (x ∷ xs) t =
      let i = replay_input fl lowercase before x in
      let d = evaluate fl s i in
      let r = record_of lowercase x d.0 in
      tallied-cooldown_holds (some x) (some r.recommended_profile) d.1 xs
        (count_record read previous (as_reported r) t)
      ∙ ap
          (λ b.
            add_if b t.cooldown_holds
            + times_held (is_cooldown_hold fl) d.1 (inputs (some x) d.1 xs))
          (evaluate-cooldown_words fl s i)
      ∙ add_if_plus (is_cooldown_hold fl s i) t.cooldown_holds _

  module _ {W : Type 0} (from_str : String → Result (SystemSnapshot R) String)
      (to_string : PolicyRecord R → Result String String)
      (write_line : String → W → Result (Unit {0}) String × W)
      (flush : W → Result (Unit {0}) String × W) (contents : W → String)
      (output : OutputLaws write_line flush contents) (laws : FloatLaws fl)
      (json : JsonLaws fl to_string read) where
    abbrev Encoded : List (PolicyRecord R) → List String → Type 0
    Encoded = Texts fl lowercase from_str to_string write_line flush contents output

    Encoded-IsLine :
        (rs : List (PolicyRecord R)) (texts : List String) → Encoded rs texts → All IsLine texts
    Encoded-IsLine [] [] h = tt
    Encoded-IsLine [] (text ∷ texts) h = absurd h
    Encoded-IsLine (r ∷ rs) [] h = absurd h
    Encoded-IsLine (r ∷ rs) (text ∷ texts) (e, h) =
        (json.one_line r text e, Encoded-IsLine rs texts h)

    analyze_text :
        (r : PolicyRecord R) (text : String) (texts : List String) (previous : Option Profile)
        (t : Report)
        → IsConfident fl laws lowercase r
        → to_string r ≡ ok text
        → analyze_lines read previous (text ∷ texts) t
          ≡ analyze_lines read
              (some r.recommended_profile)
              texts
              (count_record read previous (as_reported r) t)
    unfolding count_record
    analyze_text r text texts previous t (h, k) e =
        let (c, reads) = json.reads_back r text h k e in
        analyze_full read previous text texts t (as_reported (record r { confidence = c }))
          (json.not_blank r text e) reads

    analyze_texts :
        (rs : List (PolicyRecord R)) (texts : List String) (previous : Option Profile) (t : Report)
        → All (IsConfident fl laws lowercase) rs
        → Encoded rs texts
        → analyze_lines read previous texts t ≡ ok (tallied previous rs t)
    unfolding analyze_lines tallied
    analyze_texts [] [] previous t c h = refl
    analyze_texts [] (text ∷ texts) previous t c h = absurd h
    analyze_texts (r ∷ rs) [] previous t c h = absurd h
    analyze_texts (r ∷ rs) (text ∷ texts) previous t (c, cs) (e, h) =
        analyze_text r text texts previous t c e
        ∙ analyze_texts rs texts (some r.recommended_profile)
            (count_record read previous (as_reported r) t) cs h

    analyze-unlines :
        (rs : List (PolicyRecord R)) (texts : List String)
        → All (IsConfident fl laws lowercase) rs
        → Encoded rs texts
        → analyze read (unlines texts) ≡ ok (tallied none rs default_report)
    unfolding analyze
    analyze-unlines rs texts c h =
        ap (λ ls. analyze_lines read none ls default_report)
          (lines-unlines texts (Encoded-IsLine rs texts h))
        ∙ analyze_texts rs texts none default_report c h

    -- If the output file takes each line and a line feed, comparison is a total order on what is
    -- not NaN, each encoded record is one line that is not blank, and those with a confidence
    -- between 0.60 and 1.0 are read back, but for the last digits of the confidence: after a
    -- replay into an empty file that ends without an error, the report on the file can be made.
    -- It counts one sample for each replayed snapshot, and its dwell and cooldown holds are
    -- exactly the valid samples whose profile the policy held back, outside and inside of the
    -- cooldown.
    pub analyze-replay :
        (ls : List (Result String String)) (w : W)
        → contents w ≡ ""
        → (replay fl lowercase from_str to_string write_line flush ls w).2 ≡ ok tt
        → (xs : List (SystemSnapshot R)) × (t : Report) × Snapshots fl lowercase from_str to_string
            write_line flush ls xs
          × (analyze read
                (contents (replay fl lowercase from_str to_string write_line flush ls w).3)
              ≡ ok t)
          × IsSummary xs t
    analyze-replay ls w h ends =
        let out = replay fl lowercase from_str to_string write_line flush ls w in
        let (xs, snapshots, records, after) =
          replay-IsBatch fl lowercase from_str to_string write_line flush ls w ends in
        let (texts, encodings, holds) =
          replay-IsWritten fl lowercase from_str to_string write_line flush contents output ls w
            ends in
        let t = tallied none (decided none (default_policy fl) xs) default_report in
        (
          xs,
          t,
          snapshots,
          ap (analyze read) (holds ∙ ap (λ s. s ++ unlines texts) h ∙ nil-append (unlines texts))
              ∙ analyze-unlines out.0 texts
                  (subst (λ rs. All (IsConfident fl laws lowercase) rs) (sym records)
                    (replayed-IsConfident fl laws lowercase xs))
                  encodings
              ∙ ap (λ rs. ok (tallied none rs default_report)) records,
          record {
            samples = tallied-samples none none (default_policy fl) xs default_report ∙ omega arith;
            dwell_holds =
                tallied-dwell_holds none none (default_policy fl) xs default_report ∙ omega arith;
            cooldown_holds =
                tallied-cooldown_holds none none (default_policy fl) xs default_report
                ∙ omega arith;
          },
        )
