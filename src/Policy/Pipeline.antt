-- ===== src/Policy/Pipeline.antt =====
-- crates/cerynth-policy/src/bin: the report on the file that a replay has written. What the two programs
-- need of the output file and of `serde_json` to understand each other.
pub mod Written
pub mod Confident
pub mod Counted
use Prim.Native.String.{◌++◌}
use cerynth_os.Policy.Floats.{Float64}
use cerynth_os.Base.{◌≡◌, Bool, true, false, String, some, Result, ok, List, [], ◌∷◌}
use cerynth_os.Base.Text.{trim, is_empty}
use cerynth_os.Base.Words.Lines.{IsLine}
use cerynth_os.Policy.Replay
use cerynth_os.Policy.Report

-- What is read of a record that was written: the time stamp is left out.
abbrev pub as_reported : {R : Type 0} → Replay.PolicyRecord R → Report.PolicyRecord R
as_reported r = record {
  current_profile = some r.current_profile;
  recommended_profile = r.recommended_profile;
  confidence = r.confidence;
  reason = r.reason;
}

-- `writeln!` puts the line and a line feed behind what the file holds.
pub record OutputLaws {W : Type 0} (write_line : String → W → Result (Unit {0}) String × W)
    (flush : W → Result (Unit {0}) String × W) (contents : W → String) : Type 0 where
  pub writes :
      (line : String) (w : W)
      → (write_line line w).0 ≡ ok tt
      → contents (write_line line w).1 ≡ contents w ++ (line ++ "\n")
  pub flushes : (w : W) → (flush w).0 ≡ ok tt → contents (flush w).1 ≡ contents w

-- `to_string` makes one line, which is not blank. `from_str` reads the record back from it if the
-- confidence is between 0.60 and 1.0, and so is finite: `serde_json` writes NaN and the infinities as
-- null. The last digits of the confidence may be lost.
pub record JsonLaws {R : Type 0} (fl : Float64 R)
    (to_string : Replay.PolicyRecord R → Result String String)
    (read : String → Result (Report.PolicyRecord R) String) : Type 0 where
  pub one_line : (r : Replay.PolicyRecord R) (text : String) → to_string r ≡ ok text → IsLine text
  pub not_blank :
      (r : Replay.PolicyRecord R) (text : String)
      → to_string r ≡ ok text
      → is_empty (trim text) ≡ false
  pub reads_back :
      (r : Replay.PolicyRecord R) (text : String)
      → fl.le (fl.lit 60 2) r.confidence ≡ true
      → fl.le r.confidence (fl.lit 10 1) ≡ true
      → to_string r ≡ ok text
      → (c : R) × (read text ≡ ok (as_reported (record r { confidence = c })))
