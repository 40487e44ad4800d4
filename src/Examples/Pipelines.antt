-- ===== src/Examples/Pipelines.antt =====
-- A replay of one snapshot and the report on its file.
use Prim.Native.String.{◌++◌}
use text.Mathlib.Text.{◌==◌ as str_eq}
use text.Mathlib.TextEquality.{eq_iff}
use cerynth_os.Base.{
  ℕ, ◌≡◌, refl, ◌&&◌, ◌==◌, String, List, [], ◌∷◌, Result, ok, err, arith, sym, ap, false,
  if◌then◌else◌,
}
use cerynth_os.Base.Text.{trim, is_empty}
use cerynth_os.Base.Words.Lines.{IsLine}
use cerynth_os.Telemetry.Samples.{SystemSnapshot}
use cerynth_os.Ipc.Profiles.{balanced, same_profile}
use cerynth_os.Policy.Replay
use cerynth_os.Policy.Replay.{replay}
use cerynth_os.Policy.Replay.Batch.{Snapshots}
use cerynth_os.Policy.Report
use cerynth_os.Policy.Pipeline.{as_reported, OutputLaws, JsonLaws}
use cerynth_os.Policy.Pipeline.Counted.{IsSummary, analyze-replay}
use cerynth_os.Examples.Policies.{fixed, fixed-FloatLaws}
use cerynth_os.Examples.Tools.{snapshot}

abbrev hold_text : String
hold_text = "Holding balanced until performance consecutive samples support performance; 1/3"

-- The encoding knows one record.
abbrev held_record : Replay.PolicyRecord ℕ
held_record = record {
  timestamp_ms = 1000;
  current_profile = balanced;
  recommended_profile = balanced;
  confidence = 95;
  reason = hold_text;
}

abbrev encode : Replay.PolicyRecord ℕ → Result String String
encode r =
    if r.timestamp_ms == 1000
      && same_profile r.current_profile balanced
      && same_profile r.recommended_profile balanced
      && r.confidence == 95
      && str_eq r.reason hold_text
    then ok "{}"
    else err "another record"

encode-ok :
    (r : Replay.PolicyRecord ℕ) (text : String)
    → encode r ≡ ok text
    → (text ≡ "{}") × (r ≡ held_record)
unfolding same_profile
encode-ok r text h = ground (arith, eq_iff r.reason hold_text)

abbrev decode : String → Result (Report.PolicyRecord ℕ) String
decode text = ok (as_reported held_record)

abbrev write_line : String → String → Result (Unit {0}) String × String
write_line line held = (ok tt, held ++ (line ++ "\n"))

abbrev flush : String → Result (Unit {0}) String × String
flush held = (ok tt, held)

in_memory-OutputLaws : OutputLaws write_line flush (λ held. held)
in_memory-OutputLaws = record { writes = λ line w h. refl; flushes = λ w h. refl }

braces-IsLine : IsLine "{}"
braces-IsLine = (refl, refl)

braces_not_blank : is_empty (trim "{}") ≡ false
unfolding trim
braces_not_blank = refl

encode-JsonLaws : JsonLaws fixed encode decode
encode-JsonLaws = record {
  one_line = λ r text h. rw (encode-ok r text h).0 braces-IsLine;
  not_blank = λ r text h. rw (encode-ok r text h).0 braces_not_blank;
  reads_back =
      λ r text lo hi h. (r.confidence, ap (λ x. ok (as_reported x)) (sym (encode-ok r text h).1));
}

abbrev two_lines : List (Result String String)
two_lines = ok "{}" ∷ ok " " ∷ []

abbrev replayed : String
replayed = (replay fixed (λ s. s) (λ s. ok snapshot) encode write_line flush two_lines "").3

analyze-replay_example :
    (xs : List (SystemSnapshot ℕ)) × (t : Report.Report) × Snapshots fixed
      (λ s. s)
      (λ s. ok snapshot)
      encode
      write_line
      flush
      two_lines
      xs
    × (Report.analyze decode replayed ≡ ok t)
    × IsSummary fixed (λ s. s) decode xs t
unfolding replay trim same_profile cerynth_os.Policy.Stability.evaluate
    cerynth_os.Policy.Rules.is_invalid cerynth_os.Policy.Rules.candidate
    cerynth_os.Policy.Rules.is_saturated cerynth_os.Policy.Rules.default_policy
    cerynth_os.Policy.Stability.dwell_hold cerynth_os.Policy.Floats.max_f
    cerynth_os.Policy.Rules.workload_confidence cerynth_os.Policy.Floats.clamp
    cerynth_os.Ipc.Profiles.profile_name cerynth_os.Base.Text.show_ℕ
analyze-replay_example =
    analyze-replay fixed (λ s. s) decode (λ s. ok snapshot) encode write_line flush (λ held. held)
      in_memory-OutputLaws fixed-FloatLaws encode-JsonLaws two_lines "" refl refl
