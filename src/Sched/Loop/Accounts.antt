-- ===== src/Sched/Loop/Accounts.antt =====
-- schedulers/cerynth-scx/src/main.rs: the counters over the run loop.
use cerynth_os.Base.{ℕ, String, Option, none, some, List, Result}
use cerynth_os.Policy.Floats.{Float64}
use cerynth_os.Sched.Tasks.{Profile}
use cerynth_os.Sched.Ring.{Kernel, IsBroken}
use cerynth_os.Sched.Dispatch.Counters.{IsAccounted}
use cerynth_os.Sched.Reporter.{Snapshot}
use cerynth_os.Sched.Loop.{Host, Running, Turn, over, broken, turned}

module _ {K R : Type 0} (kernel : Kernel K) (fl : Float64 R) (host : Host K)
    (encode : Snapshot R → Result (List ℕ) String) (profile : Profile) (started_at_ms : ℕ) where
  abbrev Stepped : Turn K R → Type 0
  Stepped over = Unit
  Stepped broken = IsBroken kernel
  Stepped (turned r) = IsAccounted kernel fl r.stats

  -- The counters are consistent, or a call of libbpf has done what the code panics on.
  abbrev pub Kept : Option (Running K R) → Type 0
  Kept none = IsBroken kernel
  Kept (some r) = IsAccounted kernel fl r.stats
