-- ===== src/Sched/Lifetime/Flags.antt =====
-- schedulers/cerynth-scx/src/bpf.rs and main.rs: the handler of Ctrl-C over the runs of one process.
use mathlib.Core.Path.{subst}
use cerynth_os.Base.{
  ℕ, ◌+◌, ◌<◌, ◌≡◌, ◌≢◌, refl, sym, ap, ◌∙◌, String, Bool, true, false, Option, none, some, List,
  Result, arith,
}
use cerynth_os.Base.Disk.{Disk}
use cerynth_os.Policy.Floats.{Float64}
use cerynth_os.Sched.Tasks.{Profile}
use cerynth_os.Sched.Ring.{Kernel}
use cerynth_os.Sched.Reporter.{Snapshot}
use cerynth_os.Sched.Status.{SchedulerStatus}
use cerynth_os.Sched.Loop.{Host, Running}
use cerynth_os.Base.Integers.{ℤ, pos, negsuc}
use cerynth_os.Sched.Lifetime.Actions.{
  reporter_reaped, Outcome, done, failed, panicked, unfinished, Process, Action, ◌>>◌, call, expect,
  note, booked,
}
use cerynth_os.Sched.Lifetime.{
  Libs, prepare_then_attach, drop_memory, drop_link, drop_scheduler, on_error, reporter_start,
  handler_set, set_ctrlc_handler, entered, enter_sched_ext, prepare, attach_ops, set_up, bpf_init,
  scheduler_init, shutdown_and_report,
}
use cerynth_os.Sched.Lifetime.Main.{after_loop, serve_kernel, run_once}
use cerynth_os.Sched.Lifetime.Signals.{
  Signals, Succeeds, Leads, bind-Succeeds, call-Leads, expect-Leads, seq-Leads, on_error-Succeeds,
  at_end-Succeeds, prepared_then-Succeeds,
}

-- The flag that the handler sets once a run with this flag has begun.
abbrev pub registered : ℕ → Option ℕ → ℕ
registered flag none = flag
registered flag (some h) = h

module _ {K E : Type 0} (libs : Libs K E) where
  -- What leaves the signals as they are.
  abbrev Keeps : {A : Type 0} → Action K A → Type 1
  Keeps m = (N : Signals) → Leads N m (λ a. N)

  then_keep : {A B : Type 0} (m : Action K A) (n : Action K B) → Keeps m → Keeps n → Keeps (m >> n)
  then_keep m n h k N = seq-Leads N N (λ b. N) m n (h N) (k N)

  expect-Keeps : {A : Type 0} (f : K → Result A String × K) → Keeps (expect f)
  expect-Keeps f N = expect-Leads f N

  call-Keeps : {A : Type 0} (f : K → Result A String × K) → Keeps (call f)
  call-Keeps f N = call-Leads f N

  reporter_start-Keeps : Keeps (reporter_start libs)
  unfolding reporter_start
  reporter_start-Keeps =
      then_keep _ _
        (then_keep _ _
          (then_keep _ _ (then_keep _ _ (call-Keeps libs.current_exe) (call-Keeps libs.socket_pair))
            (call-Keeps libs.set_nonblocking))
          (call-Keeps libs.spawn))
        (λ N p h. h)

  entered-Succeeds :
      (r : ℤ × K) (N : Signals) (p : Process K)
      → N p.flags p.handler
      → Succeeds (entered libs r p) (λ a. N)
  entered-Succeeds (pos n, k) N p h = h
  entered-Succeeds (negsuc n, k) N p h = tt

  enter_sched_ext-Keeps : (partial : Bool) → Keeps (enter_sched_ext libs partial)
  enter_sched_ext-Keeps true N p h = entered-Succeeds (libs.use_sched_ext p.kernel) N p h
  enter_sched_ext-Keeps false N p h = h

  prepare-Keeps : (partial : Bool) → Keeps (prepare libs partial)
  unfolding prepare
  prepare-Keeps partial =
      then_keep _ _
        (then_keep _ _
          (then_keep _ _
            (then_keep _ _
              (then_keep _ _ (expect-Keeps libs.add_callback) (expect-Keeps libs.build_queued))
              (expect-Keeps libs.new_dispatched))
            (λ N p h. h))
          (expect-Keeps libs.disable_mmap))
        (enter_sched_ext-Keeps partial)

  attach_ops-Keeps : Keeps (attach_ops libs)
  unfolding attach_ops
  attach_ops-Keeps = then_keep _ _ (call-Keeps libs.ops_attach) (λ N p h. h)

  set_up-Keeps : (partial : Bool) → Keeps (set_up libs partial)
  unfolding set_up prepare_then_attach
  set_up-Keeps partial N p h =
      on_error-Succeeds _ drop_memory (λ a. N)
        (prepared_then-Succeeds (attach_ops libs) (prepare libs partial p) N (attach_ops-Keeps N)
          (prepare-Keeps partial N p h))

  -- The signals after a run with this flag has begun.
  abbrev Registered : ℕ → Option ℕ → Signals
  Registered flag handler n h = (n ≡ flag + 1) × (h ≡ some (registered flag handler))

  handler_set-Leads :
      (flag : ℕ) (handler : Option ℕ) (p : Process K)
      → p.flags ≡ flag + 1
      → p.handler ≡ handler
      → Succeeds (handler_set libs flag handler p) (λ a. Registered flag handler)
  handler_set-Leads flag none p h k =
      seq-Leads (λ n o. n ≡ flag + 1) (λ n o. n ≡ flag + 1) (λ a. Registered flag none) _ _
        (expect-Keeps libs.set_handler (λ n o. n ≡ flag + 1)) (λ q e. (e, refl)) p h
  handler_set-Leads flag (some other) p h k = (h, k)

  set_ctrlc_handler-Leads :
      (flag : ℕ) (handler : Option ℕ)
      → Leads
          (λ n h. (n ≡ flag + 1) × (h ≡ handler))
          (set_ctrlc_handler libs flag)
          (λ a. Registered flag handler)
  unfolding set_ctrlc_handler
  set_ctrlc_handler-Leads flag handler p (h, k) =
      subst (λ o. Succeeds (handler_set libs flag o p) (λ a. Registered flag handler)) (sym k)
        (handler_set-Leads flag handler p h k)

  bpf_init-Succeeds :
      (partial : Bool) (p : Process K)
      → Succeeds
          (bpf_init libs partial p)
          (λ flag n h. (flag ≡ p.flags) × Registered p.flags p.handler n h)
  unfolding bpf_init
  bpf_init-Succeeds partial p =
      let N = λ (n : ℕ) (h : Option ℕ). (n ≡ p.flags + 1) × (h ≡ p.handler) in
      let R = Registered p.flags p.handler in
      seq-Leads N R _ _ _
        (seq-Leads N R (λ a. R) _ _
          (seq-Leads N R (λ a. R) _ _
            (seq-Leads N R (λ a. R) _ _
              (seq-Leads N R (λ a. R) _ _
                (seq-Leads N R (λ a. R) _ _ (set_ctrlc_handler-Leads p.flags p.handler)
                  (call-Leads libs.ops_open R))
                (expect-Leads libs.topology R))
              (call-Leads libs.ops_load R))
            (set_up-Keeps partial R))
          (λ q h. h))
        (λ q h. (refl, h)) (record p { flags = p.flags + 1 }) (refl, refl)

  from-bpf_init :
      (q : Process K) (flag : ℕ) (handler : Option ℕ)
      → q.flags ≡ flag
      → q.handler ≡ handler
      → Succeeds (bpf_init libs false q) (λ a n h. (a ≡ flag) × Registered flag handler n h)
  from-bpf_init q flag handler h k =
      subst (λ f. Succeeds (bpf_init libs false q) (λ a n h. (a ≡ f) × Registered f handler n h)) h
        (subst
          (λ o.
            Succeeds (bpf_init libs false q) (λ a n h. (a ≡ q.flags) × Registered q.flags o n h))
          k (bpf_init-Succeeds false q))

  -- A scheduler that was initialized has the next flag, and the handler the first of all.
  scheduler_init-Leads :
      (flag : ℕ) (handler : Option ℕ)
      → Leads
          (λ n h. (n ≡ flag) × (h ≡ handler))
          (scheduler_init libs)
          (λ a n h. (a ≡ flag) × Registered flag handler n h)
  unfolding scheduler_init
  scheduler_init-Leads flag handler =
      let N = λ (n : ℕ) (h : Option ℕ). (n ≡ flag) × (h ≡ handler) in
      seq-Leads N N (λ a n h. (a ≡ flag) × Registered flag handler n h) (reporter_start libs)
        (λ p. on_error (note reporter_reaped) (bpf_init libs false p)) (reporter_start-Keeps N)
        (λ q (h, k).
          on_error-Succeeds (bpf_init libs false q) (note reporter_reaped) _
            (from-bpf_init q flag handler h k))

  shutdown_and_report-Keeps : Keeps (shutdown_and_report libs)
  unfolding shutdown_and_report
  shutdown_and_report-Keeps =
      then_keep (booked drop_link) _ (λ N p h. h) (call-Keeps libs.uei_report)

  module _ {R : Type 0} (kernel : Kernel K) (fl : Float64 R) (host : Host K)
      (encode : Snapshot R → Result (List ℕ) String) (disk : Disk K)
      (pretty : SchedulerStatus → Result String String) (profile : Profile) where
    after_loop-Succeeds :
        (o : Outcome (Running K R)) (N : Signals) (p : Process K)
        → N p.flags p.handler
        → Succeeds (after_loop libs kernel fl host encode disk pretty profile o p) (λ a. N)
    after_loop-Succeeds (done r) N p h = h
    after_loop-Succeeds (failed e) N p h = tt
    after_loop-Succeeds panicked N p h = tt
    after_loop-Succeeds unfinished N p h = tt

    serve_kernel-Keeps :
        (turns : ℕ) → Keeps (serve_kernel libs kernel fl host encode disk pretty profile turns)
    unfolding serve_kernel
    serve_kernel-Keeps turns N p h = after_loop-Succeeds _ N p h

    abbrev run : ℕ → Action K E
    run = run_once libs kernel fl host encode disk pretty profile

    run_once-Leads :
        (turns flag : ℕ) (handler : Option ℕ)
        → Leads (λ n h. (n ≡ flag) × (h ≡ handler)) (run turns) (λ e. Registered flag handler)
    unfolding run_once
    run_once-Leads turns flag handler p s =
        let T = Registered flag handler in
        bind-Succeeds (scheduler_init libs p) _ (λ a n h. (a ≡ flag) × T n h) (λ e. T)
          (scheduler_init-Leads flag handler p s)
          (λ a q (e, h).
            at_end-Succeeds _ drop_scheduler (λ e. T)
              (then_keep _ _ (serve_kernel-Keeps turns) shutdown_and_report-Keeps T q h))

    -- The handler sets a flag that some run has made.
    abbrev pub IsMade : Process K → Type 0
    IsMade p = (h : ℕ) → p.handler ≡ some h → h < p.flags

    lt_ne : (m n : ℕ) → m < n → m ≢ n
    lt_ne m n h e = omega arith

    registered_lt :
        (flag : ℕ) (handler : Option ℕ)
        → ((h : ℕ) → handler ≡ some h → h < flag)
        → registered flag handler < flag + 1
    registered_lt flag none made = omega arith
    registered_lt flag (some h) made = let k = made h refl in omega arith

    -- If the handler of Ctrl-C, where there is one, sets a flag that an earlier run made: when a
    -- run comes to its end and the scheduler is initialized again, the handler sets a flag that
    -- is not the shutdown flag of this scheduler, and that some earlier run made.
    pub run_once-stale :
        (turns : ℕ) (p q r : Process K) (e : E) (flag : ℕ)
        → IsMade p
        → run_once libs kernel fl host encode disk pretty profile turns p ≡ (done e, q)
        → scheduler_init libs q ≡ (done flag, r)
        → (h : ℕ) × (r.handler ≡ some h) × (h ≢ flag) × (h < q.flags)
    run_once-stale turns p q r e flag made ran started =
        let (nq, hq) =
          subst (λ o. Succeeds o (λ e. Registered p.flags p.handler)) ran
            (run_once-Leads turns p.flags p.handler p (refl, refl)) in
        let (same, (nr, hr)) =
          subst (λ o. Succeeds o (λ a n h. (a ≡ q.flags) × Registered q.flags q.handler n h))
            started (scheduler_init-Leads q.flags q.handler q (refl, refl)) in
        let bound = registered_lt p.flags p.handler made in
        (
          registered p.flags p.handler,
          hr ∙ ap (λ o. some (registered q.flags o)) hq,
          lt_ne _ flag (subst (λ n. registered p.flags p.handler < n) (sym nq ∙ sym same) bound),
          subst (λ n. registered p.flags p.handler < n) (sym nq) bound,
        )
