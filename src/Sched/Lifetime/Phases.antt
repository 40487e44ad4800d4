-- ===== src/Sched/Lifetime/Phases.antt =====
-- schedulers/cerynth-scx/src: what each step of the set-up holds when it ends, on every way out.
use cerynth_os.Base.{
  ℕ, List, refl, ◌⊎◌, inl, inr, String, Bool, true, false, Option, none, some, Result,
}
use cerynth_os.Base.Integers.{ℤ, pos, negsuc}
use cerynth_os.Sched.Lifetime.Actions.{
  Effect, reporter_reaped, Outcome, done, failed, panicked, unfinished, Books, Process, Action,
  note,
}
use cerynth_os.Sched.Lifetime.{
  Libs, prepare_then_attach, prepared_then, attached_after, drop_memory, on_error, reporter_start,
  handler_set, set_ctrlc_handler, entered, enter_sched_ext, prepare, attach_ops, set_up, bpf_init,
  scheduler_init,
}
use cerynth_os.Sched.Lifetime.Protocol.{
  nothing, reporting, prepared, scheduling, spawns, locks, attaches, unlocks, reaps, Holds, IsArmed,
  IsScheduling, After, Triple, call-Triple, expect-Triple, seq-Triple,
}

-- The memory settings may be changed, and if so the guard knows.
abbrev pub IsGuarded : Books → Type 0
IsGuarded b = Holds reporting b ⊎ IsArmed prepared b

pub drop_memory-Holds :
    (es : List Effect) (armed link : Bool)
    → IsGuarded (record { effects = es; armed = armed; struct_ops = link })
    → Holds reporting (drop_memory (record { effects = es; armed = armed; struct_ops = link }))
drop_memory-Holds es true link (inl (h, a, s)) = absurd (cc)
drop_memory-Holds es true link (inr (h, a, s)) = (unlocks h, refl, s)
drop_memory-Holds es false link (inl h) = h
drop_memory-Holds es false link (inr (h, a, s)) = absurd (cc)

module _ {K : Type 0} where
  on_error-After :
      {A : Type 0} (o : Outcome A × Process K) (f : Books → Books) (N E F : Books → Type 0)
      → ((b : Books) → E b → F (f b))
      → After o N E
      → After (on_error f o) N F
  on_error-After (done a, p) f N E F k h = h
  on_error-After (failed e, p) f N E F k h = k p.books h
  on_error-After (panicked, p) f N E F k h = k p.books h
  on_error-After (unfinished, p) f N E F k h = h

  attached_after-After :
      {P L : Type 0} (x : P) (o : Outcome L × Process K) (N E : Books → Type 0)
      → After o N E
      → After (attached_after x o) N E
  attached_after-After x (done a, p) N E h = h
  attached_after-After x (failed e, p) N E h = h
  attached_after-After x (panicked, p) N E h = h
  attached_after-After x (unfinished, p) N E h = h

  prepared_then-After :
      {P L : Type 0} (attach : Action K L) (o : Outcome P × Process K) (N R E : Books → Type 0)
      → Triple N attach R E
      → After o N E
      → After (prepared_then attach o) R E
  prepared_then-After attach (done a, p) N R E k h = attached_after-After a (attach p) R E (k p h)
  prepared_then-After attach (failed e, p) N R E k h = h
  prepared_then-After attach (panicked, p) N R E k h = h
  prepared_then-After attach (unfinished, p) N R E k h = h

module _ {K E : Type 0} (libs : Libs K E) where
  pub reporter_start-Triple :
      Triple (Holds nothing) (reporter_start libs) (Holds reporting) (Holds nothing)
  unfolding reporter_start
  reporter_start-Triple =
      let N = Holds nothing in
      let c = λ (f : K → Result (Unit {0}) String × K). call-Triple f N N (λ b h. h) in
      seq-Triple N N (Holds reporting) N _ _
        (seq-Triple N N N N _ _
          (seq-Triple N N N N _ _ (seq-Triple N N N N _ _ (c libs.current_exe) (c libs.socket_pair))
            (c libs.set_nonblocking))
          (c libs.spawn))
        (λ p (h, a, s). (spawns h, a, s))

  entered-After :
      (r : ℤ × K) (p : Process K)
      → IsArmed prepared p.books
      → After (entered libs r p) (IsArmed prepared) IsGuarded
  entered-After (pos n, k) p h = h
  entered-After (negsuc n, k) p h = inr h

  enter_sched_ext-Triple :
      (partial : Bool)
      → Triple (IsArmed prepared) (enter_sched_ext libs partial) (IsArmed prepared) IsGuarded
  enter_sched_ext-Triple true = λ p h. entered-After (libs.use_sched_ext p.kernel) p h
  enter_sched_ext-Triple false = λ p h. h

  pub prepare-Triple :
      (partial : Bool)
      → Triple (Holds reporting) (prepare libs partial) (IsArmed prepared) IsGuarded
  unfolding prepare
  prepare-Triple partial =
      let P = Holds reporting in
      let Q = IsArmed prepared in
      let c =
        λ (f : K → Result (Unit {0}) String × K). expect-Triple f P IsGuarded (λ b h. inl h) in
      seq-Triple P Q Q IsGuarded _ _
        (seq-Triple P Q Q IsGuarded _ _
          (seq-Triple P P Q IsGuarded _ _
            (seq-Triple P P P IsGuarded _ _
              (seq-Triple P P P IsGuarded _ _ (c libs.add_callback) (c libs.build_queued))
              (c libs.new_dispatched))
            (λ p (h, a, s). (locks h, refl, s)))
          (expect-Triple libs.disable_mmap Q IsGuarded (λ b h. inr h)))
        (enter_sched_ext-Triple partial)

  pub attach_ops-Triple : Triple (IsArmed prepared) (attach_ops libs) (IsArmed scheduling) IsGuarded
  unfolding attach_ops
  attach_ops-Triple =
      let P = IsArmed prepared in
      seq-Triple P P (IsArmed scheduling) IsGuarded _ _
        (call-Triple libs.ops_attach P IsGuarded (λ b h. inr h)) (λ p (h, a, s). (attaches h, a, s))

  set_up-Triple :
      (partial : Bool)
      → Triple (Holds reporting) (set_up libs partial) (IsArmed scheduling) (Holds reporting)
  unfolding set_up prepare_then_attach
  set_up-Triple partial p h =
      on_error-After (prepare_then_attach (prepare libs partial) (attach_ops libs) p) drop_memory
        (IsArmed scheduling) IsGuarded (Holds reporting)
        (λ b g. drop_memory-Holds b.effects b.armed b.struct_ops g)
        (prepared_then-After (attach_ops libs) (prepare libs partial p) (IsArmed prepared)
          (IsArmed scheduling) IsGuarded attach_ops-Triple (prepare-Triple partial p h))

  handler_set-Triple :
      (flag : ℕ) (handler : Option ℕ) (P : Books → Type 0)
      → Triple P (handler_set libs flag handler) P P
  handler_set-Triple flag none P =
      seq-Triple P P P P _ _ (expect-Triple libs.set_handler P P (λ b h. h)) (λ p h. h)
  handler_set-Triple flag (some other) P = λ p h. h

  set_ctrlc_handler-Triple :
      (flag : ℕ) (P : Books → Type 0) → Triple P (set_ctrlc_handler libs flag) P P
  unfolding set_ctrlc_handler
  set_ctrlc_handler-Triple flag P p h = handler_set-Triple flag p.handler P p h

  pub bpf_init-Triple :
      (partial : Bool)
      → Triple (Holds reporting) (bpf_init libs partial) IsScheduling (Holds reporting)
  unfolding bpf_init
  bpf_init-Triple partial p h =
      let P = Holds reporting in
      let flag = p.flags in
      seq-Triple P IsScheduling IsScheduling P _ _
        (seq-Triple P (IsArmed scheduling) IsScheduling P _ _
          (seq-Triple P P (IsArmed scheduling) P _ _
            (seq-Triple P P P P _ _
              (seq-Triple P P P P _ _
                (seq-Triple P P P P _ _ (set_ctrlc_handler-Triple flag P)
                  (call-Triple libs.ops_open P P (λ b x. x)))
                (expect-Triple libs.topology P P (λ b x. x)))
              (call-Triple libs.ops_load P P (λ b x. x)))
            (set_up-Triple partial))
          (λ q (x, a, s). (x, refl, refl)))
        (λ q x. x) _ h

  pub scheduler_init-Triple :
      Triple (Holds nothing) (scheduler_init libs) IsScheduling (Holds nothing)
  unfolding scheduler_init
  scheduler_init-Triple =
      seq-Triple (Holds nothing) (Holds reporting) IsScheduling (Holds nothing) _ _
        reporter_start-Triple
        (λ p h.
          on_error-After (bpf_init libs false p) (note reporter_reaped) IsScheduling
            (Holds reporting) (Holds nothing) (λ b (x, a, s). (reaps x, a, s))
            (bpf_init-Triple false p h))
