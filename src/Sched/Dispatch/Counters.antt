-- ===== src/Sched/Dispatch/Counters.antt =====
-- schedulers/cerynth-scx/src/main.rs: the counters over one dispatch round.
use mathlib.Core.Path.{subst}
use cerynth_os.Base.{
  ℕ, suc, zero, ◌+◌, ◌%◌, ◌≤◌, ◌≡◌, refl, ap, Option-cases, ◌∙◌, inl, inr, true, false, Bool,
  Option, none, some, List, [], ◌∷◌, arith, length, Result, ok, err,
}
use cerynth_os.Policy.Floats.{Float64}
use cerynth_os.Sched.Tasks.{
  Profile, balanced, interactive, performance, background, QueuedTask, dispatched_task,
}
use cerynth_os.Sched.Order.{
  Key, insert_by_key, sort_by_key, newest_stop, rescue_key, rescue_starved_tasks, order_tasks,
}
use cerynth_os.Sched.Ring.{
  Kernel, dequeue_task, dispatch_task, IsBroken, dequeue_task-IsBroken, dispatch_task-IsBroken,
}
use cerynth_os.Sched.Dispatch.{
  SchedulerStats, u64_modulus, max_batch, collect, put_first, Batch, count_batch, count_dispatch,
  dispatch_all, dispatch_batch, dispatch_tasks, collected, after_dispatch, completed,
}

module _ {ℓ} {A : Type ℓ} (key : A → Key) where
  length-insert_by_key : (x : A) (xs : List A) → length (insert_by_key key x xs) ≡ suc (length xs)
  unfolding insert_by_key
  length-insert_by_key x [] = refl
  length-insert_by_key x (y ∷ ys) = ground (arith, length-insert_by_key x ys)

  length-sort_by_key : (xs : List A) → length (sort_by_key key xs) ≡ length xs
  unfolding sort_by_key
  length-sort_by_key [] = refl
  length-sort_by_key (x ∷ xs) =
      length-insert_by_key x (sort_by_key key xs) ∙ ap suc (length-sort_by_key xs)

length-rescue_starved_tasks : (ts : List QueuedTask) → length (rescue_starved_tasks ts) ≡ length ts
unfolding rescue_starved_tasks
length-rescue_starved_tasks ts = elim (Option-cases (newest_stop ts)) [
  | inl h ↦ ground arith
  | inr h ↦ ground (arith, length-sort_by_key (rescue_key h.0) ts)
]

length-order_tasks : (p : Profile) (ts : List QueuedTask) → length (order_tasks p ts) ≡ length ts
unfolding order_tasks
length-order_tasks balanced ts = refl
length-order_tasks interactive ts = length-rescue_starved_tasks ts
length-order_tasks performance ts = refl
length-order_tasks background ts = refl

module _ {K R : Type 0} (kernel : Kernel K) (fl : Float64 R) where
  -- Up to wrap-around, `n` more tasks were answered for from `s` to `t`.
  abbrev Answered : ℕ → SchedulerStats R → SchedulerStats R → Type 0
  Answered n s t =
      (t.tasks_dispatched + t.dispatch_errors) % u64_modulus
      ≡ (s.tasks_dispatched + s.dispatch_errors + n) % u64_modulus

  count_dispatch_lem :
      (b : Bool) (s : SchedulerStats R)
      → Answered 1 s (count_dispatch kernel fl b s)
        × ((count_dispatch kernel fl b s).tasks_dequeued ≡ s.tasks_dequeued)
        × ((count_dispatch kernel fl b s).max_batch_size ≡ s.max_batch_size)
  unfolding count_dispatch
  count_dispatch_lem true s = (omega arith, refl, refl)
  count_dispatch_lem false s = (omega arith, refl, refl)

  -- All were answered for and the other counters stay, or a call has panicked.
  abbrev AllSent : ℕ → SchedulerStats R → Option (SchedulerStats R × K) → Type 0
  AllSent n s none = IsBroken kernel
  AllSent n s (some (t, k)) =
      Answered n s t × (t.tasks_dequeued ≡ s.tasks_dequeued) × (t.max_batch_size ≡ s.max_batch_size)

  AllSent-suc :
      (n : ℕ) (b : Bool) (s : SchedulerStats R) (o : Option (SchedulerStats R × K))
      → AllSent n (count_dispatch kernel fl b s) o
      → AllSent (suc n) s o
  AllSent-suc n b s none h = h
  AllSent-suc n b s (some (t, k)) h =
      let one = count_dispatch_lem b s in (omega (arith, one.0, h.0), h.1 ∙ one.1, h.2 ∙ one.2)

  after_dispatch-AllSent :
      (n : ℕ) (s : SchedulerStats R) (o : Option (Bool × K))
      (rest : SchedulerStats R × K → Option (SchedulerStats R × K))
      → (o ≡ none → IsBroken kernel)
      → ((b : Bool) (k : K)
          → AllSent n (count_dispatch kernel fl b s) (rest (count_dispatch kernel fl b s, k)))
      → AllSent (suc n) s (after_dispatch kernel fl rest s o)
  after_dispatch-AllSent n s none rest h ih = h refl
  after_dispatch-AllSent n s (some (b, k)) rest h ih = AllSent-suc n b s _ (ih b k)

  dispatch_all_lem :
      (ts : List QueuedTask) (s : SchedulerStats R) (k : K)
      → AllSent (length ts) s (dispatch_all kernel fl ts (s, k))
  unfolding dispatch_all
  dispatch_all_lem [] s k = (omega arith, refl, refl)
  dispatch_all_lem (t ∷ ts) s k =
      after_dispatch-AllSent (length ts) s (dispatch_task kernel k (dispatched_task t))
        (λ x. dispatch_all kernel fl ts x) (dispatch_task-IsBroken kernel k (dispatched_task t))
        (λ b next. dispatch_all_lem ts (count_dispatch kernel fl b s) next)

  -- The batch has room for its tasks, or a call has panicked.
  abbrev Fits : ℕ → Option (Batch kernel fl) → Type 0
  Fits room none = IsBroken kernel
  Fits room (some b) = length b.0 ≤ room

  put_first-Fits :
      (room : ℕ) (t : QueuedTask) (o : Option (Batch kernel fl))
      → Fits room o
      → Fits (suc room) (put_first kernel fl t o)
  put_first-Fits room t none h = h
  put_first-Fits room t (some b) h = omega arith

  collected-Fits :
      (room : ℕ) (o : Option (Result (Option QueuedTask) ℕ × K))
      → (o ≡ none → IsBroken kernel)
      → ((k : K) → Fits room (collect kernel fl room k))
      → Fits (suc room) (collected kernel fl (λ next. collect kernel fl room next) o)
  collected-Fits room none h ih = h refl
  collected-Fits room (some (ok (some t), k)) h ih = put_first-Fits room t _ (ih k)
  collected-Fits room (some (ok none, k)) h ih = omega arith
  collected-Fits room (some (err code, k)) h ih = omega arith

  collect-Fits : (room : ℕ) (k : K) → Fits room (collect kernel fl room k)
  unfolding collect
  collect-Fits zero k = omega arith
  collect-Fits (suc room) k =
      collected-Fits room (dequeue_task kernel k) (dequeue_task-IsBroken kernel k)
        (λ next. collect-Fits room next)

  count_batch_lem :
      (failed : Bool) (n : ℕ) (s : SchedulerStats R)
      → (((count_batch kernel fl failed n s).tasks_dispatched ≡ s.tasks_dispatched)
          × ((count_batch kernel fl failed n s).dispatch_errors ≡ s.dispatch_errors))
        × ((count_batch kernel fl failed n s).tasks_dequeued ≡ (s.tasks_dequeued + n) % u64_modulus)
        × (n ≤ max_batch
            → s.max_batch_size ≤ max_batch
            → (count_batch kernel fl failed n s).max_batch_size ≤ max_batch)
  unfolding count_batch
  count_batch_lem failed n s = ground arith

  -- The counters are consistent: up to wrap-around of 64-bit words, every dequeued task was dispatched
  -- or counted as an error; and no batch was larger than its limit.
  abbrev pub IsAccounted : SchedulerStats R → Type 0
  IsAccounted s =
      ((s.tasks_dispatched + s.dispatch_errors) % u64_modulus ≡ s.tasks_dequeued % u64_modulus)
      × (s.max_batch_size ≤ max_batch)

  -- The counters after a round, or the panic of a call that the code relies on.
  abbrev pub AreAccounted : Option (SchedulerStats R × K) → Type 0
  AreAccounted none = IsBroken kernel
  AreAccounted (some (s, k)) = IsAccounted s

  completed-AreAccounted :
      (n : ℕ) (failed : Bool) (s : SchedulerStats R) (o : Option (SchedulerStats R × K))
      → n ≤ max_batch
      → IsAccounted s
      → AllSent n (count_batch kernel fl failed n s) o
      → AreAccounted (completed kernel fl o)
  completed-AreAccounted n failed s none small h sent = sent
  completed-AreAccounted n failed s (some (t, k)) small h sent =
      let counted = count_batch_lem failed n s in
      (
        omega (arith, h.0, sent.0, sent.1, counted.0.0, counted.0.1, counted.1),
        omega (arith, sent.2, counted.2 small h.1),
      )

  dispatch_batch-AreAccounted :
      (p : Profile) (b : Option (Batch kernel fl)) (s : SchedulerStats R)
      → Fits max_batch b
      → IsAccounted s
      → AreAccounted (dispatch_batch kernel fl p b s)
  unfolding dispatch_batch
  dispatch_batch-AreAccounted p none s broke h = broke
  dispatch_batch-AreAccounted p (some (tasks, failed, k)) s small h =
      let counted = count_batch kernel fl failed (length tasks) s in
      let sent = dispatch_all_lem (order_tasks p tasks) counted k in
      completed-AreAccounted (length tasks) failed s _ small h (
        subst (λ n. AllSent n counted (dispatch_all kernel fl (order_tasks p tasks) (counted, k)))
          (length-order_tasks p tasks) sent)

  pub dispatch_tasks-AreAccounted :
      (p : Profile) (s : SchedulerStats R) (k : K)
      → IsAccounted s
      → AreAccounted (dispatch_tasks kernel fl p (s, k))
  unfolding dispatch_tasks
  dispatch_tasks-AreAccounted p s k h =
      dispatch_batch-AreAccounted p (collect kernel fl max_batch k) s (collect-Fits max_batch k) h
