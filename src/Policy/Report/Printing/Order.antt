-- ===== src/Policy/Report/Printing/Order.antt =====
-- crates/cerynth-policy/src/bin/cerynth-policy-report.rs: the order in which a `BTreeMap` is printed.
use cerynth_os.Base.{◌≡◌, refl, true, false, arith, String}
use cerynth_os.Base.Sorting.{IsOrder}
use cerynth_os.Policy.Report.Printing.{text_le}

text_le_total : (s t : String) → text_le s t ≡ false → text_le t s ≡ true
unfolding text_le
text_le_total String.[] t h = absurd (cc)
text_le_total (String.◌∷◌ c s) String.[] h = refl
text_le_total (String.◌∷◌ c s) (String.◌∷◌ d t) h = ground (arith, text_le_total s t)

text_le_trans : (s t u : String) → text_le s t ≡ true → text_le t u ≡ true → text_le s u ≡ true
unfolding text_le
text_le_trans String.[] t u h k = refl
text_le_trans (String.◌∷◌ c s) String.[] u h k = absurd (cc)
text_le_trans (String.◌∷◌ c s) (String.◌∷◌ d t) String.[] h k = absurd (cc)
text_le_trans (String.◌∷◌ c s) (String.◌∷◌ d t) (String.◌∷◌ e u) h k =
    ground (arith, text_le_trans s t u)

pub text_le-IsOrder : IsOrder text_le
text_le-IsOrder = record { total = text_le_total; transitive = text_le_trans }
