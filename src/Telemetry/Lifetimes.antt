-- ===== src/Telemetry/Lifetimes.antt =====
-- crates/cerynth-telemetry/src/lib.rs, `collect`: when each process was first seen. A map is an
-- association list; times are nanoseconds.
use cerynth_os.Base.{
  ℕ, ◌-◌, ◌==◌, Bool, false, ◌||◌, Option, none, some, List, [], ◌∷◌, if◌then◌else◌,
}
use cerynth_os.Policy.Floats.{Float64, zero_f, one_f}

abbrev pub Times : Type 0
Times = List (ℕ × ℕ)

unfoldable pub get : ℕ → Times → Option ℕ
get pid [] = none
get pid ((p, t) ∷ rest) = if p == pid then some t else get pid rest

unfoldable pub contains : ℕ → List ℕ → Bool
contains pid [] = false
contains pid (p ∷ pids) = p == pid || contains pid pids

abbrev pub insert_if : Option ℕ → ℕ → ℕ → Times → Times
insert_if none pid now seen = (pid, now) ∷ seen
insert_if (some t) pid now seen = seen

-- `entry(pid).or_insert(now)`
unfoldable pub or_insert : ℕ → ℕ → Times → Times
unfolding get
or_insert pid now seen = insert_if (get pid seen) pid now seen

unfoldable pub first_seen : List ℕ → ℕ → Times → Times
unfolding or_insert
first_seen [] now seen = seen
first_seen (pid ∷ pids) now seen = first_seen pids now (or_insert pid now seen)

-- The processes of the list stay, the others have exited.
unfoldable pub still_running : List ℕ → Times → Times
unfolding contains
still_running pids [] = []
still_running pids ((p, t) ∷ rest) =
    let kept = still_running pids rest in if contains p pids then (p, t) ∷ kept else kept

unfoldable pub exited : List ℕ → Times → Times
unfolding contains
exited pids [] = []
exited pids ((p, t) ∷ rest) =
    let gone = exited pids rest in if contains p pids then gone else (p, t) ∷ gone

module _ {R : Type 0} (fl : Float64 R) (secs_f64 : ℕ → R) where
  abbrev pub is_short_lived : ℕ → ℕ → Bool
  is_short_lived now t = fl.lt (secs_f64 (now - t)) (fl.lit 50 1)

  unfoldable pub count_short_lived : ℕ → Times → R → R
  count_short_lived now [] n = n
  count_short_lived now ((p, t) ∷ rest) n =
      count_short_lived now rest (if is_short_lived now t then fl.add n (one_f fl) else n)

  -- The number of processes that have exited early, and the times of those that run.
  unfoldable pub track : List ℕ → ℕ → Times → R × Times
  unfolding first_seen still_running exited count_short_lived
  track pids now seen =
      let known = first_seen pids now seen in
      (count_short_lived now (exited pids known) (zero_f fl), still_running pids known)
