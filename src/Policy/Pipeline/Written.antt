-- ===== src/Policy/Pipeline/Written.antt =====
-- crates/cerynth-policy/src/bin/cerynth-policy-replay.rs: what a replay leaves in its output file.
use Prim.Native.String.{◌++◌}
use text.Mathlib.TextLemmas.{nil-append, cons-append, append-nil, append_assoc}
use cerynth_os.Base.{
  ℕ, ◌+◌, ◌≡◌, refl, sym, ap, ◌∙◌, Bool, true, false, String, Option, none, some, List, [], ◌∷◌,
  Result, ok, err,
}
use cerynth_os.Base.Text.{trim, is_empty}
use cerynth_os.Base.Words.Lines.{unlines}
use cerynth_os.Policy.Floats.{Float64}
use cerynth_os.Policy.Rules.{RulesBasedPolicy, default_policy}
use cerynth_os.Policy.Stability.{evaluate}
use cerynth_os.Policy.Replay.{
  PolicyRecord, record_of, replay_input, Replayed, written, encoded, flushed, replayed_line,
  replay_lines, replay,
}
use cerynth_os.Policy.Pipeline.{OutputLaws}
use cerynth_os.Telemetry.Samples.{SystemSnapshot}

-- The file after one more line, and after the lines behind it.
append_line :
    (held line behind : String)
    → (held ++ (line ++ "\n")) ++ behind ≡ held ++ (line ++ (String.◌∷◌ "\n" behind))
append_line held line behind =
    append_assoc held (line ++ "\n") behind
    ∙ ap (λ t. held ++ t)
        (append_assoc line "\n" behind
          ∙ ap (λ t. line ++ t)
              (cons-append "\n" "" behind ∙ ap (String.◌∷◌ "\n") (nil-append behind)))

module _ {R : Type 0} (fl : Float64 R) (lowercase : String → String) {W : Type 0}
    (from_str : String → Result (SystemSnapshot R) String)
    (to_string : PolicyRecord R → Result String String)
    (write_line : String → W → Result (Unit {0}) String × W)
    (flush : W → Result (Unit {0}) String × W) (contents : W → String)
    (laws : OutputLaws write_line flush contents) where
  abbrev ResultOf : Type 0
  ResultOf = Replayed fl lowercase from_str to_string write_line flush

  -- The encodings of the records.
  abbrev pub Texts : List (PolicyRecord R) → List String → Type 0
  Texts [] [] = Unit
  Texts (r ∷ rs) (text ∷ texts) = (to_string r ≡ ok text) × Texts rs texts
  Texts _ _ = ⊥

  abbrev pub IsWritten : W → ResultOf → Type 0
  IsWritten w (rs, policy, ended, v) =
      ended ≡ ok tt
      → (texts : List String) × Texts rs texts × (contents v ≡ contents w ++ unlines texts)

  module _ (r : PolicyRecord R) (policy : RulesBasedPolicy R) (next : W → ResultOf)
      (ih : (v : W) → IsWritten v (next v)) where
    continued-IsWritten :
        (text : String) (w v : W) (out : ResultOf)
        → to_string r ≡ ok text
        → contents v ≡ contents w ++ (text ++ "\n")
        → IsWritten v out
        → IsWritten w (r ∷ out.0, out.1, out.2, out.3)
    continued-IsWritten text w v (rs, p, ended, u) e h k ends =
        let (texts, encodings, holds) = k ends in
        (
          text ∷ texts,
          (e, encodings),
          holds ∙ ap (λ t. t ++ unlines texts) h ∙ append_line (contents w) text (unlines texts),
        )

    written-IsWritten :
        (text : String) (w : W) (out : Result (Unit {0}) String × W)
        → to_string r ≡ ok text
        → write_line text w ≡ out
        → IsWritten w (written fl lowercase from_str to_string write_line flush r policy next out)
    written-IsWritten text w (err e, v) t h ends = absurd (cc)
    written-IsWritten text w (ok _, v) t h ends =
        continued-IsWritten text w v (next v) t
          (ap (λ x. contents x.1) (sym h) ∙ laws.writes text w (ap (λ x. x.0) h)) (ih v) ends

    encoded-IsWritten :
        (w : W) (text : Result String String)
        → to_string r ≡ text
        → IsWritten w
            (encoded fl lowercase from_str to_string write_line flush r policy next text w)
    encoded-IsWritten w (err e) h ends = absurd (cc)
    encoded-IsWritten w (ok text) h ends = written-IsWritten text w (write_line text w) h refl ends

  flushed-IsWritten :
      (policy : RulesBasedPolicy R) (w : W) (out : Result (Unit {0}) String × W)
      → flush w ≡ out
      → IsWritten w (flushed fl lowercase from_str to_string write_line flush policy out)
  flushed-IsWritten policy w (r, v) h ends = (
    [],
    tt,
    ap (λ x. contents x.1) (sym h)
        ∙ laws.flushes w (ap (λ x. x.0) h ∙ ends)
        ∙ sym (append-nil (contents w)),
  )

  line-IsWritten :
      (n : ℕ) (previous : Option (SystemSnapshot R)) (policy : RulesBasedPolicy R) (is_blank : Bool)
      (parsed : Result (SystemSnapshot R) String)
      (next : Option (SystemSnapshot R) → RulesBasedPolicy R → W → ResultOf) (w : W)
      → ((p : Option (SystemSnapshot R)) (q : RulesBasedPolicy R) (v : W)
          → IsWritten v (next p q v))
      → IsWritten w (
          replayed_line fl lowercase from_str to_string write_line flush n previous policy is_blank
            parsed next w)
  line-IsWritten n previous policy true parsed next w ih = ih previous policy w
  line-IsWritten n previous policy false (err e) next w ih = λ ends. absurd (cc)
  line-IsWritten n previous policy false (ok x) next w ih =
      let d = evaluate fl policy (replay_input fl lowercase previous x) in
      let r = record_of lowercase x d.0 in
      encoded-IsWritten r d.1 (next (some x) d.1) (ih (some x) d.1) w (to_string r) refl

  lines-IsWritten :
      (n : ℕ) (previous : Option (SystemSnapshot R)) (policy : RulesBasedPolicy R)
      (ls : List (Result String String)) (w : W)
      → IsWritten w
          (replay_lines fl lowercase from_str to_string write_line flush n previous policy ls w)
  unfolding replay_lines
  lines-IsWritten n previous policy [] w = flushed-IsWritten policy w (flush w) refl
  lines-IsWritten n previous policy (err e ∷ rest) w = λ ends. absurd (cc)
  lines-IsWritten n previous policy (ok line ∷ rest) w =
      line-IsWritten n previous policy (is_empty (trim line)) (from_str line)
        (λ p q v. replay_lines fl lowercase from_str to_string write_line flush (n + 1) p q rest v)
        w (λ p q v. lines-IsWritten (n + 1) p q rest v)

  -- A replay without an error has added its records to the file, one line for each.
  pub replay-IsWritten :
      (ls : List (Result String String)) (w : W)
      → IsWritten w (replay fl lowercase from_str to_string write_line flush ls w)
  unfolding replay
  replay-IsWritten ls w = lines-IsWritten 1 none (default_policy fl) ls w
