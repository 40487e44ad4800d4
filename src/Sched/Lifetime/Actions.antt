-- ===== src/Sched/Lifetime/Actions.antt =====
-- schedulers/cerynth-scx/src: the process and what it takes hold of. `effects` has what was done to the
-- system, the latest first, and is no part of the code.
use cerynth_os.Base.{ℕ, String, Bool, Option, List, ◌∷◌, Result, ok, err}

pub data Effect : Type 0 where
  reporter_spawned : Effect
  memory_locked : Effect
  attached : Effect
  detached : Effect
  memory_unlocked : Effect
  reporter_reaped : Effect
  stopped_written : Option String → Effect

-- How an action ends: `unfinished` is a loop that was cut off.
pub data Outcome (A : Type 0) : Type 0 where
  done : A → Outcome A
  failed : String → Outcome A
  panicked : Outcome A
  unfinished : Outcome A

-- `armed` is the flag of `MemoryPreparation`, `struct_ops` whether `BpfScheduler` has a link.
pub record Books : Type 0 where
  pub effects : List Effect
  pub armed : Bool
  pub struct_ops : Bool

-- Each run makes a new shutdown flag; `handler` is the one that Ctrl-C sets.
pub record Process (K : Type 0) : Type 0 where
  pub kernel : K
  pub flags : ℕ
  pub handler : Option ℕ
  pub books : Books

abbrev pub Action : Type 0 → Type 0 → Type 0
Action K A = Process K → Outcome A × Process K

abbrev pub note : Effect → Books → Books
note e b = record b { effects = e ∷ b.effects }

module _ {K : Type 0} where
  abbrev pub bind :
      {A B : Type 0} → Outcome A × Process K → (A → Action K B) → Outcome B × Process K
  bind (done a, p) f = f a p
  bind (failed e, p) f = (failed e, p)
  bind (panicked, p) f = (panicked, p)
  bind (unfinished, p) f = (unfinished, p)

  infixl 5 ◌>>=◌ ◌>>◌
  abbrev pub ◌>>=◌ : {A B : Type 0} → Action K A → (A → Action K B) → Action K B
  ◌>>=◌ m f p = bind (m p) f

  abbrev pub ◌>>◌ : {A B : Type 0} → Action K A → Action K B → Action K B
  m >> n = m >>= λ _. n

  -- A call whose error is passed on by `?`, and one whose error is met by `expect` or `unwrap`.
  abbrev pub called : {A : Type 0} → Result A String × K → Process K → Outcome A × Process K
  called (ok a, k) p = (done a, record p { kernel = k })
  called (err e, k) p = (failed e, record p { kernel = k })

  abbrev pub expected : {A : Type 0} → Result A String × K → Process K → Outcome A × Process K
  expected (ok a, k) p = (done a, record p { kernel = k })
  expected (err e, k) p = (panicked, record p { kernel = k })

  unfoldable pub call : {A : Type 0} → (K → Result A String × K) → Action K A
  call f p = called (f p.kernel) p

  unfoldable pub expect : {A : Type 0} → (K → Result A String × K) → Action K A
  expect f p = expected (f p.kernel) p

  abbrev pub booked : (Books → Books) → Action K (Unit {0})
  booked f p = (done tt, record p { books = f p.books })
