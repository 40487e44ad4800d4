-- ===== src/Startup/Main/Boot.antt =====
-- services/cerynthd/src/main.rs: the backend that a new daemon serves with.
use cerynth_os.Base.{
  ◌≡◌, refl, ◌∙◌, Bool, true, false, String, Option, none, some, Result, ok, err, arith,
}
use cerynth_os.Ipc.Profiles.{SchedulerBackend, mock, scx}
use cerynth_os.Config.Files.{Fs, TextCodec}
use cerynth_os.Config.Settings.{Config, RuntimeState}
use cerynth_os.Daemon.Ops.{Returns}
use cerynth_os.Scx.Os.{Os, Clocked}
use cerynth_os.Scx.Backend.{scx_new, with_adaptation, Machine}
use cerynth_os.Scx.Lifecycle.{start}
use cerynth_os.Scx.Stopping.{IsTracked}
use cerynth_os.Scx.Running.{Started, start_lem}
use cerynth_os.Startup.{DynBackend, mocked, driven, choose_backend, auto_start}
use cerynth_os.Startup.Restart.{settings, choose_backend-settings}
use cerynth_os.Startup.Main.{Variables, loaded_config, loaded_state, boot}

-- The process id of a scheduler is that of the child.
abbrev pub InStep : {W : Type 0} → DynBackend W → Type 0
InStep (mocked s) = Unit
InStep (driven m) = IsTracked m.backend

choose_backend-InStep :
    {W : Type 0} (k : SchedulerBackend) (config : Config) (state : RuntimeState)
    (var : Option String) (w : W)
    → config.scheduler_backend ≡ k
    → InStep (choose_backend config state var w)
unfolding choose_backend scx_new with_adaptation
choose_backend-InStep mock config state var w e = ground arith
choose_backend-InStep scx config state var w e = ground arith

module _ {W J : Type 0} (os : Os W J) (t : Clocked os) where
  -- It has come to an end with the same settings.
  abbrev IsStarted : DynBackend W → Option (DynBackend W) → Type 0
  IsStarted b o = (b' : DynBackend W) × (o ≡ some b') × (settings b' ≡ settings b) × InStep b'

  after_start-IsStarted :
      (m : Machine W) (o : Option (Result (Unit {0}) String × Machine W))
      → start os m ≡ o
      → Returns o (Started os t m)
      → IsStarted (driven m) (auto_start os true (driven m))
  unfolding auto_start
  after_start-IsStarted m none h k = absurd k
  after_start-IsStarted m (some (ok u, n)) h k = (driven n, rw h refl, ground arith, ground arith)
  after_start-IsStarted m (some (err e, n)) h k = (driven n, rw h refl, ground arith, ground arith)

  auto_start-IsStarted :
      (enabled : Bool) (b : DynBackend W) → InStep b → IsStarted b (auto_start os enabled b)
  unfolding auto_start
  auto_start-IsStarted false b h = (b, refl, refl, h)
  auto_start-IsStarted true (mocked s) h = (mocked s, refl, refl, tt)
  auto_start-IsStarted true (driven m) h =
      after_start-IsStarted m (start os m) refl (start_lem os t m h)

  -- On a clock that never runs backwards, a daemon always comes to serve: whether the scheduler
  -- is to be started or not, and whether it could be started or not, the start-up comes to an end
  -- with a backend that has the profile and the adaptation switch of the state that was loaded,
  -- and whose process id is that of the child.
  pub boot_lem :
      {F : Type 0} (fs : Fs F) (toml : TextCodec Config) (json : TextCodec RuntimeState)
      (v : Variables) (f : F) (w : W)
      → (b : DynBackend W) × (boot os fs toml json v f w ≡ some b)
        × (settings b ≡ (
          (loaded_state os fs toml json v f).profile,
          (loaded_state os fs toml json v f).adaptation_enabled,
        ))
        × InStep b
  unfolding boot
  boot_lem fs toml json v f w =
      let config = loaded_config os fs toml json v f in
      let state = loaded_state os fs toml json v f in
      let chosen = choose_backend config state v.binary_var w in
      let (b, h, same, k) =
        auto_start-IsStarted config.auto_start chosen
          (choose_backend-InStep config.scheduler_backend config state v.binary_var w refl) in
      (
        b,
        h,
        same ∙ choose_backend-settings config.scheduler_backend config state v.binary_var w refl,
        k,
      )
