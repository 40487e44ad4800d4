-- ===== src/Sched/Lifetime/Signals.antt =====
-- schedulers/cerynth-scx/src/bpf.rs: what an action does to the shutdown flags and the handler of Ctrl-C.
use cerynth_os.Base.{ℕ, String, Option, Result, ok, err}
use cerynth_os.Sched.Lifetime.Actions.{
  Outcome, done, failed, panicked, unfinished, Books, Process, Action, bind, called, expected, ◌>>◌,
  call, expect,
}
use cerynth_os.Sched.Lifetime.{prepared_then, attached_after, on_error, at_end}

-- The number of flags that were made, and the one that the handler sets.
abbrev pub Signals : Type 1
Signals = ℕ → Option ℕ → Type 0

-- On success the signals are as `R` says.
abbrev pub Succeeds : {A K : Type 0} → Outcome A × Process K → (A → Signals) → Type 0
Succeeds (done a, p) R = R a p.flags p.handler
Succeeds (failed e, p) R = Unit
Succeeds (panicked, p) R = Unit
Succeeds (unfinished, p) R = Unit

module _ {K : Type 0} where
  abbrev pub Leads : {A : Type 0} → Signals → Action K A → (A → Signals) → Type 0
  Leads N m R = (p : Process K) → N p.flags p.handler → Succeeds (m p) R

  pub bind-Succeeds :
      {A B : Type 0} (o : Outcome A × Process K) (f : A → Action K B) (N : A → Signals)
      (R : B → Signals)
      → Succeeds o N
      → ((a : A) → Leads (N a) (f a) R)
      → Succeeds (bind o f) R
  bind-Succeeds (done a, p) f N R h k = k a p h
  bind-Succeeds (failed e, p) f N R h k = tt
  bind-Succeeds (panicked, p) f N R h k = tt
  bind-Succeeds (unfinished, p) f N R h k = tt

  called-Succeeds :
      {A : Type 0} (r : Result A String × K) (p : Process K) (N : Signals)
      → N p.flags p.handler
      → Succeeds (called r p) (λ a. N)
  called-Succeeds (ok a, k) p N h = h
  called-Succeeds (err e, k) p N h = tt

  expected-Succeeds :
      {A : Type 0} (r : Result A String × K) (p : Process K) (N : Signals)
      → N p.flags p.handler
      → Succeeds (expected r p) (λ a. N)
  expected-Succeeds (ok a, k) p N h = h
  expected-Succeeds (err e, k) p N h = tt

  pub call-Leads :
      {A : Type 0} (f : K → Result A String × K) (N : Signals) → Leads N (call f) (λ a. N)
  unfolding call
  call-Leads f N p h = called-Succeeds (f p.kernel) p N h

  pub expect-Leads :
      {A : Type 0} (f : K → Result A String × K) (N : Signals) → Leads N (expect f) (λ a. N)
  unfolding expect
  expect-Leads f N p h = expected-Succeeds (f p.kernel) p N h

  pub seq-Leads :
      {A B : Type 0} (N M : Signals) (R : B → Signals) (m : Action K A) (n : Action K B)
      → Leads N m (λ a. M)
      → Leads M n R
      → Leads N (m >> n) R
  seq-Leads N M R m n h k p s = bind-Succeeds (m p) (λ _. n) (λ a. M) R (h p s) (λ a. k)

  pub on_error-Succeeds :
      {A : Type 0} (o : Outcome A × Process K) (f : Books → Books) (R : A → Signals)
      → Succeeds o R
      → Succeeds (on_error f o) R
  on_error-Succeeds (done a, p) f R h = h
  on_error-Succeeds (failed e, p) f R h = tt
  on_error-Succeeds (panicked, p) f R h = tt
  on_error-Succeeds (unfinished, p) f R h = tt

  pub at_end-Succeeds :
      {A : Type 0} (o : Outcome A × Process K) (f : Books → Books) (R : A → Signals)
      → Succeeds o R
      → Succeeds (at_end f o) R
  at_end-Succeeds (done a, p) f R h = h
  at_end-Succeeds (failed e, p) f R h = tt
  at_end-Succeeds (panicked, p) f R h = tt
  at_end-Succeeds (unfinished, p) f R h = tt

  attached_after-Succeeds :
      {P L : Type 0} (x : P) (o : Outcome L × Process K) (N : Signals)
      → Succeeds o (λ a. N)
      → Succeeds (attached_after x o) (λ a. N)
  attached_after-Succeeds x (done a, p) N h = h
  attached_after-Succeeds x (failed e, p) N h = tt
  attached_after-Succeeds x (panicked, p) N h = tt
  attached_after-Succeeds x (unfinished, p) N h = tt

  pub prepared_then-Succeeds :
      {P L : Type 0} (attach : Action K L) (o : Outcome P × Process K) (N : Signals)
      → Leads N attach (λ a. N)
      → Succeeds o (λ a. N)
      → Succeeds (prepared_then attach o) (λ a. N)
  prepared_then-Succeeds attach (done a, p) N k h = attached_after-Succeeds a (attach p) N (k p h)
  prepared_then-Succeeds attach (failed e, p) N k h = tt
  prepared_then-Succeeds attach (panicked, p) N k h = tt
  prepared_then-Succeeds attach (unfinished, p) N k h = tt
