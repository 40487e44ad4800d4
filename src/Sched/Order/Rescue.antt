-- ===== src/Sched/Order/Rescue.antt =====
-- schedulers/cerynth-scx/src/policy.rs: the order of a batch.
use mathlib.Core.List.{Perm}
use mathlib.Core.List.Perm
use cerynth_os.Base.{
  ℕ, ◌≤◌, ◌≡◌, refl, ◌⊎◌, inl, inr, true, false, Option, none, some, Option-cases, List, [], ◌∷◌,
  arith, All,
}
use cerynth_os.Sched.Tasks.{
  Profile, balanced, interactive, performance, background, QueuedTask, u64_max,
}
use cerynth_os.Sched.Order.{
  Key, key_le, sort_by_key, newest_stop, waited_ns, is_starved, rescue_key, rescue_starved_tasks,
  order_tasks,
}
use cerynth_os.Sched.Order.Sorting.{
  Ordered, with_key, KeyLe, sort_by_key-perm, sort_by_key-Ordered, sort_by_key-with_key,
}

rescue_eq :
    (ts : List QueuedTask) (now : ℕ)
    → newest_stop ts ≡ some now
    → rescue_starved_tasks ts ≡ sort_by_key (rescue_key now) ts
unfolding rescue_starved_tasks
rescue_eq ts now h = ground arith

rescue-perm :
    (ts : List QueuedTask) (o : Option ℕ) → newest_stop ts ≡ o → Perm (rescue_starved_tasks ts) ts
unfolding rescue_starved_tasks
rescue-perm ts none h = rw (h, rescue_starved_tasks) (Perm.refl ts)
rescue-perm ts (some now) h = rw (rescue_eq ts now h) (sort_by_key-perm (rescue_key now) ts)

-- Under every profile the tasks that are dispatched are those of the batch, each as often.
pub order_tasks-perm : (p : Profile) (ts : List QueuedTask) → Perm (order_tasks p ts) ts
unfolding order_tasks
order_tasks-perm balanced ts = Perm.refl ts
order_tasks-perm interactive ts = rescue-perm ts (newest_stop ts) refl
order_tasks-perm performance ts = Perm.refl ts
order_tasks-perm background ts = Perm.refl ts

-- Starved tasks before the others; among them, longer waits first; among the others, shorter runs
-- first.
abbrev pub GoesBefore : ℕ → QueuedTask → QueuedTask → Type 0
GoesBefore now a b =
    ((is_starved now a ≡ true) × (is_starved now b ≡ false))
    ⊎ ((is_starved now a ≡ true) × (is_starved now b ≡ true) × (waited_ns now b ≤ waited_ns now a))
    ⊎ ((is_starved now a ≡ false) × (is_starved now b ≡ false) × (a.exec_runtime ≤ b.exec_runtime))

key_le-GoesBefore :
    (now : ℕ) (a b : QueuedTask)
    → now ≤ u64_max
    → key_le (rescue_key now a) (rescue_key now b) ≡ true
    → GoesBefore now a b
unfolding rescue_key
key_le-GoesBefore now a b h k = ground arith

All-GoesBefore :
    (now : ℕ) (a : QueuedTask) (ts : List QueuedTask)
    → now ≤ u64_max
    → All (KeyLe (rescue_key now) a) ts
    → All (GoesBefore now a) ts
All-GoesBefore now a [] h k = tt
All-GoesBefore now a (t ∷ ts) h k = (key_le-GoesBefore now a t h k.0, All-GoesBefore now a ts h k.1)

Ordered-GoesBefore :
    (now : ℕ) (ts : List QueuedTask)
    → now ≤ u64_max
    → Ordered (KeyLe (rescue_key now)) ts
    → Ordered (GoesBefore now) ts
Ordered-GoesBefore now [] h k = tt
Ordered-GoesBefore now (t ∷ ts) h k =
    (All-GoesBefore now t ts h k.0, Ordered-GoesBefore now ts h k.1)

All-le :
    (m n : ℕ) (ts : List QueuedTask)
    → m ≤ n
    → All (λ t. t.stop_ts ≤ m) ts
    → All (λ t. t.stop_ts ≤ n) ts
All-le m n [] h k = tt
All-le m n (t ∷ ts) h k = (omega arith, All-le m n ts h k.1)

newest_stop-none : (ts : List QueuedTask) → newest_stop ts ≡ none → ts ≡ []
unfolding newest_stop
newest_stop-none [] h = refl
newest_stop-none (t ∷ ts) h = absurd (ground arith)

newest_stop-bound :
    (ts : List QueuedTask) (now : ℕ) → newest_stop ts ≡ some now → All (λ t. t.stop_ts ≤ now) ts
unfolding newest_stop
newest_stop-bound [] now h = tt
newest_stop-bound (t ∷ ts) now h = elim (Option-cases (newest_stop ts)) [
  | inl e ↦ rw (newest_stop-none ts e) (ground arith, tt)
  | inr (n, e) ↦ (ground arith, All-le n now ts (ground arith) (newest_stop-bound ts n e))
]

-- Under the interactive profile, with a newest `stop_ts` within 64 bits, the batch is ordered
-- starved tasks first by waiting time, then the others by run time, and stably.
pub order_tasks_interactive :
    (ts : List QueuedTask) (now : ℕ)
    → newest_stop ts ≡ some now
    → now ≤ u64_max
    → All (λ t. t.stop_ts ≤ now) ts
      × Ordered (GoesBefore now) (order_tasks interactive ts)
      × ((k : Key)
          → with_key (rescue_key now) k (order_tasks interactive ts)
            ≡ with_key (rescue_key now) k ts)
unfolding order_tasks
order_tasks_interactive ts now h b = (
  newest_stop-bound ts now h,
  rw (rescue_eq ts now h) (Ordered-GoesBefore now _ b (sort_by_key-Ordered (rescue_key now) ts)),
  λ k. rw (rescue_eq ts now h) (sort_by_key-with_key (rescue_key now) k ts),
)
