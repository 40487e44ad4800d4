-- ===== src/Sched/Order.antt =====
-- schedulers/cerynth-scx/src/policy.rs: the order in which a batch is dispatched.
pub mod Sorting
pub mod Rescue
use cerynth_os.Base.{
  ℕ, ◌-◌, max, Bool, true, false, ◌&&◌, ◌||◌, Option, none, some, List, [], ◌∷◌, ltb, leb, ◌==◌,
  if◌then◌else◌,
}
use cerynth_os.Sched.Tasks.{
  Profile, balanced, interactive, performance, background, QueuedTask, u64_max,
}

abbrev pub starvation_threshold_ns : ℕ
starvation_threshold_ns = 20_000_000

-- A sort key, in the order of pairs.
abbrev pub Key : Type 0
Key = ℕ × ℕ

abbrev pub key_le : Key → Key → Bool
key_le (a, b) (c, d) = ltb a c || (a == c && leb b d)

-- `slice::sort_by_key`, which is stable: a task goes before the first that has no smaller key.
module _ {ℓ} {A : Type ℓ} (key : A → Key) where
  unfoldable pub insert_by_key : A → List A → List A
  insert_by_key x [] = x ∷ []
  insert_by_key x (y ∷ ys) = if key_le (key x) (key y) then x ∷ y ∷ ys else y ∷ insert_by_key x ys

  unfoldable pub sort_by_key : List A → List A
  unfolding insert_by_key
  sort_by_key [] = []
  sort_by_key (x ∷ xs) = insert_by_key x (sort_by_key xs)

-- `iter().map(|task| task.stop_ts).max()`.
unfoldable pub newest_stop : List QueuedTask → Option ℕ
newest_stop [] = none
newest_stop (t ∷ ts) = elim (newest_stop ts) [
  | none ↦ some t.stop_ts
  | some n ↦ some (max t.stop_ts n)
]

-- `now.saturating_sub(task.stop_ts)`: subtraction stops at 0.
abbrev pub waited_ns : ℕ → QueuedTask → ℕ
waited_ns now t = now - t.stop_ts

abbrev pub is_starved : ℕ → QueuedTask → Bool
is_starved now t = leb starvation_threshold_ns (waited_ns now t)

unfoldable pub rescue_key : ℕ → QueuedTask → Key
rescue_key now t = if is_starved now t then (0, u64_max - waited_ns now t) else (1, t.exec_runtime)

unfoldable pub rescue_starved_tasks : List QueuedTask → List QueuedTask
unfolding newest_stop rescue_key
rescue_starved_tasks tasks = elim (newest_stop tasks) [
  | none ↦ tasks
  | some now ↦ sort_by_key (rescue_key now) tasks
]

unfoldable pub order_tasks : Profile → List QueuedTask → List QueuedTask
order_tasks balanced tasks = tasks
order_tasks interactive tasks = rescue_starved_tasks tasks
order_tasks performance tasks = tasks
order_tasks background tasks = tasks
