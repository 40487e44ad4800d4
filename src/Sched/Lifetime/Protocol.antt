-- ===== src/Sched/Lifetime/Protocol.antt =====
-- schedulers/cerynth-scx/src: the order in which the process may take hold of the system and let go of
-- it again.
use cerynth_os.Base.{◌≡◌, String, Result, ok, err, true, false, Option, List, [], ◌∷◌}
use cerynth_os.Sched.Lifetime.Actions.{
  Effect, reporter_spawned, memory_locked, attached, detached, memory_unlocked, reporter_reaped,
  stopped_written, Outcome, done, failed, panicked, unfinished, Books, Process, Action, bind,
  called, expected, call, expect, ◌>>◌,
}

-- What the process holds: nothing, the reporter, also locked memory, also the attached scheduler.
pub data Held : Type 0 where
  nothing : Held
  reporting : Held
  prepared : Held
  scheduling : Held

-- What is taken last is let go of first, and the stopped status is written when nothing is held.
pub data Protocol : List Effect → Held → Type 0 where
  begun : Protocol [] nothing
  spawns : {es : List Effect} → Protocol es nothing → Protocol (reporter_spawned ∷ es) reporting
  locks : {es : List Effect} → Protocol es reporting → Protocol (memory_locked ∷ es) prepared
  attaches : {es : List Effect} → Protocol es prepared → Protocol (attached ∷ es) scheduling
  detaches : {es : List Effect} → Protocol es scheduling → Protocol (detached ∷ es) prepared
  unlocks : {es : List Effect} → Protocol es prepared → Protocol (memory_unlocked ∷ es) reporting
  reaps : {es : List Effect} → Protocol es reporting → Protocol (reporter_reaped ∷ es) nothing
  stops :
      {es : List Effect} (error : Option String)
      → Protocol es nothing
      → Protocol (stopped_written error ∷ es) nothing

abbrev pub Holds : Held → Books → Type 0
Holds h b = Protocol b.effects h × (b.armed ≡ false) × (b.struct_ops ≡ false)

-- The guard of the memory settings is armed.
abbrev pub IsArmed : Held → Books → Type 0
IsArmed h b = Protocol b.effects h × (b.armed ≡ true) × (b.struct_ops ≡ false)

abbrev pub IsScheduling : Books → Type 0
IsScheduling b = Protocol b.effects scheduling × (b.armed ≡ false) × (b.struct_ops ≡ true)

abbrev pub IsCut : Books → Type 0
IsCut b = (h : Held) × Protocol b.effects h

-- Where an action leaves the books: on success, and on an error.
abbrev pub After :
    {A K : Type 0} → Outcome A × Process K → (Books → Type 0) → (Books → Type 0) → Type 0
After (done a, p) N E = N p.books
After (failed e, p) N E = E p.books
After (panicked, p) N E = E p.books
After (unfinished, p) N E = IsCut p.books

module _ {K : Type 0} where
  abbrev pub Triple :
      {A : Type 0} → (Books → Type 0) → Action K A → (Books → Type 0) → (Books → Type 0) → Type 0
  Triple P m N E = (p : Process K) → P p.books → After (m p) N E

  pub bind-After :
      {A B : Type 0} (o : Outcome A × Process K) (f : A → Action K B) (N E R : Books → Type 0)
      → After o N E
      → ((a : A) → Triple N (f a) R E)
      → After (bind o f) R E
  bind-After (done a, p) f N E R h k = k a p h
  bind-After (failed e, p) f N E R h k = h
  bind-After (panicked, p) f N E R h k = h
  bind-After (unfinished, p) f N E R h k = h

  pub weaken-After :
      {A : Type 0} (o : Outcome A × Process K) (N E F : Books → Type 0)
      → ((b : Books) → E b → F b)
      → After o N E
      → After o N F
  weaken-After (done a, p) N E F k h = h
  weaken-After (failed e, p) N E F k h = k p.books h
  weaken-After (panicked, p) N E F k h = k p.books h
  weaken-After (unfinished, p) N E F k h = h

  called-After :
      {A : Type 0} (r : Result A String × K) (p : Process K) (P E : Books → Type 0)
      → ((b : Books) → P b → E b)
      → P p.books
      → After (called r p) P E
  called-After (ok a, k) p P E w h = h
  called-After (err e, k) p P E w h = w p.books h

  expected-After :
      {A : Type 0} (r : Result A String × K) (p : Process K) (P E : Books → Type 0)
      → ((b : Books) → P b → E b)
      → P p.books
      → After (expected r p) P E
  expected-After (ok a, k) p P E w h = h
  expected-After (err e, k) p P E w h = w p.books h

  -- A call leaves the books as they are.
  pub call-Triple :
      {A : Type 0} (f : K → Result A String × K) (P E : Books → Type 0)
      → ((b : Books) → P b → E b)
      → Triple P (call f) P E
  unfolding call
  call-Triple f P E w p h = called-After (f p.kernel) p P E w h

  pub expect-Triple :
      {A : Type 0} (f : K → Result A String × K) (P E : Books → Type 0)
      → ((b : Books) → P b → E b)
      → Triple P (expect f) P E
  unfolding expect
  expect-Triple f P E w p h = expected-After (f p.kernel) p P E w h

  pub seq-Triple :
      {A B : Type 0} (P N R E : Books → Type 0) (m : Action K A) (n : Action K B)
      → Triple P m N E
      → Triple N n R E
      → Triple P (m >> n) R E
  seq-Triple P N R E m n h k p b = bind-After (m p) (λ _. n) N E R (h p b) (λ _. k)
