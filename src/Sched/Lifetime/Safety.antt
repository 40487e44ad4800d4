-- ===== src/Sched/Lifetime/Safety.antt =====
-- schedulers/cerynth-scx/src/main.rs: whatever fails, the process lets go of all that it holds.
use cerynth_os.Base.{
  ◌⊎◌, inl, inr, ℕ, zero, suc, ◌≡◌, refl, String, Bool, true, false, Option, none, some, List, ◌∷◌,
  Result, if◌then◌else◌,
}
use cerynth_os.Base.Disk.{Disk}
use cerynth_os.Policy.Floats.{Float64}
use cerynth_os.Sched.Tasks.{Profile}
use cerynth_os.Sched.Ring.{Kernel}
use cerynth_os.Sched.Status.{SchedulerStatus}
use cerynth_os.Sched.Reporter.{Snapshot}
use cerynth_os.Sched.Loop.{Host, Running}
use cerynth_os.Sched.Lifetime.Actions.{
  Effect, stopped_written, Outcome, done, failed, panicked, unfinished, Books, Process, Action,
  booked, call,
}
use cerynth_os.Sched.Lifetime.{Libs, drop_link, drop_scheduler, at_end, shutdown_and_report}
use cerynth_os.Sched.Lifetime.Main.{
  after_loop, serve_kernel, run_once, run_scheduler, report_stopped, concluded, main,
}
use cerynth_os.Sched.Lifetime.Protocol.{
  nothing, prepared, scheduling, Protocol, detaches, unlocks, reaps, Holds, IsScheduling, IsCut,
  After, Triple, bind-After, call-Triple, seq-Triple,
}
use cerynth_os.Sched.Lifetime.Phases.{scheduler_init-Triple}

drop_link-Holds :
    (es : List Effect) (armed link : Bool)
    → IsScheduling (record { effects = es; armed = armed; struct_ops = link })
    → Holds prepared (drop_link (record { effects = es; armed = armed; struct_ops = link }))
drop_link-Holds es armed true (h, a, s) = (detaches h, a, refl)
drop_link-Holds es armed false (h, a, s) = absurd (cc)

drop_scheduler-Holds :
    (es : List Effect) (armed link : Bool)
    → Holds prepared (record { effects = es; armed = armed; struct_ops = link })
    → Holds nothing (drop_scheduler (record { effects = es; armed = armed; struct_ops = link }))
drop_scheduler-Holds es armed true (h, a, s) = absurd (cc)
drop_scheduler-Holds es armed false (h, a, s) = (reaps (unlocks h), a, s)

-- The scheduler is detached already, or a panic has left it attached.
abbrev pub IsDroppable : Books → Type 0
IsDroppable b = Holds prepared b ⊎ IsScheduling b

drop_any-Holds :
    (es : List Effect) (armed link : Bool)
    → IsDroppable (record { effects = es; armed = armed; struct_ops = link })
    → Holds nothing (drop_scheduler (record { effects = es; armed = armed; struct_ops = link }))
drop_any-Holds es armed link (inl h) = drop_scheduler-Holds es armed link h
drop_any-Holds es armed true (inr (h, a, s)) = (reaps (unlocks (detaches h)), a, refl)
drop_any-Holds es armed false (inr (h, a, s)) = absurd (cc)

at_end-After :
    {A K : Type 0} (o : Outcome A × Process K) (f : Books → Books) (N R : Books → Type 0)
    → ((b : Books) → N b → R (f b))
    → After o N N
    → After (at_end f o) R R
at_end-After (done a, p) f N R k h = k p.books h
at_end-After (failed e, p) f N R k h = k p.books h
at_end-After (panicked, p) f N R k h = k p.books h
at_end-After (unfinished, p) f N R k h = h

-- The process is over: the last thing it did, holding nothing, was to write the stopped status.
abbrev pub IsOver : Option String → Books → Type 0
IsOver error b = (es : List Effect) × (b.effects ≡ stopped_written error ∷ es) × Protocol es nothing

abbrev pub IsClean : {K : Type 0} → Outcome (Unit {0}) × Process K → Type 0
IsClean (done _, p) = IsOver none p.books
IsClean (failed e, p) = IsOver (some e) p.books
IsClean (panicked, p) = Protocol p.books.effects nothing
IsClean (unfinished, p) = IsCut p.books

module _ {K E R : Type 0} (libs : Libs K E) (kernel : Kernel K) (fl : Float64 R) (host : Host K)
    (encode : Snapshot R → Result (List ℕ) String) (disk : Disk K)
    (pretty : SchedulerStatus → Result String String) (profile : Profile) where
  after_loop-Triple :
      (o : Outcome (Running K R))
      → Triple IsScheduling
          (after_loop libs kernel fl host encode disk pretty profile o)
          IsScheduling
          IsDroppable
  after_loop-Triple (done r) p h = h
  after_loop-Triple (failed e) p h = inr h
  after_loop-Triple panicked p h = inr h
  after_loop-Triple unfinished p (h, a, s) = (scheduling, h)

  serve_kernel-Triple :
      (turns : ℕ)
      → Triple IsScheduling
          (serve_kernel libs kernel fl host encode disk pretty profile turns)
          IsScheduling
          IsDroppable
  unfolding serve_kernel
  serve_kernel-Triple turns p h = after_loop-Triple _ p h

  shutdown_and_report-Triple :
      Triple IsScheduling (shutdown_and_report libs) IsDroppable IsDroppable
  unfolding shutdown_and_report
  shutdown_and_report-Triple =
      seq-Triple IsScheduling IsDroppable IsDroppable IsDroppable (booked drop_link)
        (call libs.uei_report)
        (λ p h. inl (drop_link-Holds p.books.effects p.books.armed p.books.struct_ops h))
        (call-Triple libs.uei_report IsDroppable IsDroppable (λ b h. h))

  run_once-Triple :
      (turns : ℕ)
      → Triple
          (Holds nothing)
          (run_once libs kernel fl host encode disk pretty profile turns)
          (Holds nothing)
          (Holds nothing)
  unfolding run_once
  run_once-Triple turns =
      seq-Triple (Holds nothing) IsScheduling (Holds nothing) (Holds nothing) _ _
        (scheduler_init-Triple libs)
        (λ p h.
          at_end-After _ drop_scheduler IsDroppable (Holds nothing)
            (λ b x. drop_any-Holds b.effects b.armed b.struct_ops x)
            (seq-Triple IsScheduling IsScheduling IsDroppable IsDroppable
              (serve_kernel libs kernel fl host encode disk pretty profile turns)
              (shutdown_and_report libs) (serve_kernel-Triple turns) shutdown_and_report-Triple p
              h))

  restart-Triple :
      (next : Action K (Unit {0})) (e : E) (once_more : Bool)
      → Triple (Holds nothing) next (Holds nothing) (Holds nothing)
      → Triple
          (Holds nothing)
          (λ p. if once_more then next p else (done tt, p))
          (Holds nothing)
          (Holds nothing)
  restart-Triple next e true k = k
  restart-Triple next e false k = λ p h. h

  run_scheduler-Triple :
      (runs turns : ℕ)
      → Triple
          (Holds nothing)
          (run_scheduler libs kernel fl host encode disk pretty profile runs turns)
          (Holds nothing)
          (Holds nothing)
  unfolding run_scheduler
  run_scheduler-Triple zero turns p (h, a, s) = (nothing, h)
  run_scheduler-Triple (suc runs) turns p h =
      bind-After (run_once libs kernel fl host encode disk pretty profile turns p) _ (Holds nothing)
        (Holds nothing) (Holds nothing) (run_once-Triple turns p h)
        (λ e. restart-Triple _ e (libs.should_restart e) (run_scheduler-Triple runs turns))

  concluded-IsClean :
      (o : Outcome (Unit {0}) × Process K)
      → After o (Holds nothing) (Holds nothing)
      → IsClean (concluded libs kernel fl host encode disk pretty profile o)
  unfolding report_stopped
  concluded-IsClean (done _, p) (h, a, s) = (p.books.effects, refl, h)
  concluded-IsClean (failed e, p) (h, a, s) = (p.books.effects, refl, h)
  concluded-IsClean (panicked, p) (h, a, s) = h
  concluded-IsClean (unfinished, p) h = h

  -- Whatever call fails or panics on the way, in any number of runs from one that holds nothing:
  -- the reporter, the locked memory and the attached scheduler are taken in this order and let go
  -- of in the reverse order, so that the scheduler is attached only after its preparation and
  -- detached before the reporter is waited for. When `main` returns, nothing is held and the last
  -- step was to write the stopped status, with the error if there was one; when it panics,
  -- nothing is held either.
  pub main-IsClean :
      (runs turns : ℕ) (p : Process K)
      → Holds nothing p.books
      → IsClean (main libs kernel fl host encode disk pretty profile runs turns p)
  unfolding main
  main-IsClean runs turns p h =
      concluded-IsClean (run_scheduler libs kernel fl host encode disk pretty profile runs turns p)
        (run_scheduler-Triple runs turns p h)
