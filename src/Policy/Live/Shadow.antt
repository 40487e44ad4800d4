-- ===== src/Policy/Live/Shadow.antt =====
-- crates/cerynth-policy/src/bin/cerynth-policy-live.rs: the policy only recommends.
use mathlib.Core.Path.{subst}
use cerynth_os.Base.{
  ℕ, zero, suc, ◌≡◌, ◌≢◌, refl, sym, ◌⊎◌, inl, inr, String, false, Option, none, some, Result, ok,
  err,
}
use cerynth_os.Base.Disk.{Disk, DiskLaws, Replaced, and_next, write-rename-Replaced}
use cerynth_os.Policy.Floats.{Float64}
use cerynth_os.Policy.Rules.{RulesBasedPolicy}
use cerynth_os.Telemetry.Samples.{SystemSnapshot}
use cerynth_os.Telemetry.Processes.{Proc}
use cerynth_os.Telemetry.Collect.{collect}
use cerynth_os.Policy.Live.{
  PolicyOutput, with_newline, Live, output_of, make_directory, write_text, write_policy, live_round,
  live_rounds,
}

module _ {W D J R : Type 0} (fl : Float64 R) (proc : Proc W J R) (disk : Disk D)
    (laws : DiskLaws disk) (lowercase : String → String) (sleep_ms : ℕ → W → W)
    (to_string_pretty : PolicyOutput R → Result String String) (parent : String → Option String)
    (with_extension : String → String) where
  output_of_refrains :
      (r : Result (SystemSnapshot R) String) (p : RulesBasedPolicy R)
      → (output_of fl proc disk lowercase sleep_ms to_string_pretty parent with_extension r
          p).0.apply
        ≡ false
  unfolding output_of
  output_of_refrains (err e) p = refl
  output_of_refrains (ok x) p = refl

  -- The file holds what it held at the start, or a recommendation as a whole that is not to be
  -- applied.
  abbrev pub IsShadow : Option String → Option String → Type 0
  IsShadow old now =
      (now ≡ old)
      ⊎ ((output : PolicyOutput R) × (json : String) × (output.apply ≡ false)
          × (to_string_pretty output ≡ ok json)
          × (now ≡ some (with_newline json)))

  make_directory_keeps :
      (dir : Option String) (path : String) (d : D)
      → disk.contents path
          (make_directory fl proc disk lowercase sleep_ms to_string_pretty parent with_extension dir
            d).1
        ≡ disk.contents path d
  make_directory_keeps none path d = refl
  make_directory_keeps (some dir) path d = laws.directories_keep dir path d

  -- Replacing what is harmless as a whole by a harmless text leaves something harmless.
  after_replacing-IsShadow :
      (r : Result (Unit {0}) String) (output : PolicyOutput R) (json : String)
      (old before now : Option String)
      → output.apply ≡ false
      → to_string_pretty output ≡ ok json
      → IsShadow old before
      → Replaced before (with_newline json) r now
      → IsShadow old now
  after_replacing-IsShadow (ok _) output json old before now a h s replaced =
      inr (output, json, a, h, replaced)
  after_replacing-IsShadow (err e) output json old before now a h s kept =
      subst (IsShadow old) (sym kept) s

  write_text-IsShadow :
      (r : Result String String) (output : PolicyOutput R) (path : String) (old : Option String)
      (d : D)
      → output.apply ≡ false
      → to_string_pretty output ≡ r
      → with_extension path ≢ path
      → IsShadow old (disk.contents path d)
      → IsShadow old (
          disk.contents path
            (write_text fl proc disk lowercase sleep_ms to_string_pretty parent with_extension path
              r d).1)
  write_text-IsShadow (err e) output path old d a h apart s = s
  write_text-IsShadow (ok json) output path old d a h apart s =
      let tmp = with_extension path in
      let written = disk.write tmp (with_newline json) d in
      let out = and_next written (λ x. disk.rename tmp path x) in
      after_replacing-IsShadow out.0 output json old (disk.contents path d)
        (disk.contents path out.1) a h s
        (write-rename-Replaced disk laws path (with_newline json) (disk.contents path d) tmp d apart
          refl)

  directory-IsShadow :
      (made : Result (Unit {0}) String × D) (output : PolicyOutput R) (path : String)
      (old : Option String)
      → output.apply ≡ false
      → with_extension path ≢ path
      → IsShadow old (disk.contents path made.1)
      → IsShadow old (
          disk.contents path
            (and_next made (λ x.
              write_text fl proc disk lowercase sleep_ms to_string_pretty parent with_extension path
                (to_string_pretty output)
                x)).1)
  directory-IsShadow (err e, d) output path old a apart s = s
  directory-IsShadow (ok _, d) output path old a apart s =
      write_text-IsShadow (to_string_pretty output) output path old d a refl apart s

  round-IsShadow :
      (path : String) (old : Option String) (l : Live W D R)
      → with_extension path ≢ path
      → IsShadow old (disk.contents path l.disk)
      → IsShadow old (
          disk.contents path
            (live_round fl proc disk lowercase sleep_ms to_string_pretty parent with_extension path
              l).disk)
  unfolding live_round write_policy
  round-IsShadow path old l apart s =
      let (sample, source, w) = collect fl proc l.telemetry l.proc in
      let out =
        output_of fl proc disk lowercase sleep_ms to_string_pretty parent with_extension sample
          l.policy in
      let made =
        make_directory fl proc disk lowercase sleep_ms to_string_pretty parent with_extension
          (parent path) l.disk in
      directory-IsShadow made out.0 path old (output_of_refrains sample l.policy) apart
        (subst (IsShadow old) (sym (make_directory_keeps (parent path) path l.disk)) s)

  rounds-IsShadow :
      (n : ℕ) (path : String) (old : Option String) (l : Live W D R)
      → with_extension path ≢ path
      → IsShadow old (disk.contents path l.disk)
      → IsShadow old (
          disk.contents path
            (live_rounds fl proc disk lowercase sleep_ms to_string_pretty parent with_extension n
              path l).disk)
  unfolding live_rounds
  rounds-IsShadow zero path old l apart s = s
  rounds-IsShadow (suc n) path old l apart s =
      rounds-IsShadow n path old
        (live_round fl proc disk lowercase sleep_ms to_string_pretty parent with_extension path l)
        apart (round-IsShadow path old l apart s)

  -- On a disk with the usual laws, and if the temporary file has another path: after any number
  -- of rounds, whatever telemetry and the calls of the disk return, the policy file holds what it
  -- held at the start or, as a whole, the encoding of an output whose `apply` is false.
  pub live_rounds-IsShadow :
      (n : ℕ) (path : String) (l : Live W D R)
      → with_extension path ≢ path
      → IsShadow (disk.contents path l.disk) (
          disk.contents path
            (live_rounds fl proc disk lowercase sleep_ms to_string_pretty parent with_extension n
              path l).disk)
  live_rounds-IsShadow n path l apart =
      rounds-IsShadow n path (disk.contents path l.disk) l apart (inl refl)
