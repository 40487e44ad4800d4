-- ===== src/Config/Settings.antt =====
-- crates/cerynth-config/src/config.rs and state.rs. Warnings on stderr are left out.
use cerynth_os.Base.{
  String, Bool, true, false, not, Option, none, some, Result, ok, err, if◌then◌else◌,
}
use cerynth_os.Ipc.Profiles.{Profile, balanced, SchedulerBackend, mock}
use cerynth_os.Config.Files.{Fs, TextCodec}

abbrev pub default_scheduler_binary : String
default_scheduler_binary = "/usr/lib/cerynth/cerynth-scx"

pub record Config : Type 0 where
  pub default_profile : Profile
  pub adaptation_enabled : Bool
  pub scheduler_backend : SchedulerBackend
  pub scheduler_binary : String
  pub auto_start : Bool

unfoldable pub default_config : Config
default_config = record {
  default_profile = balanced;
  adaptation_enabled = false;
  scheduler_backend = mock;
  scheduler_binary = default_scheduler_binary;
  auto_start = true;
}

pub record RuntimeState : Type 0 where
  pub profile : Profile
  pub adaptation_enabled : Bool
  pub scheduler_backend : SchedulerBackend

unfoldable pub default_state : RuntimeState
default_state = record { profile = balanced; adaptation_enabled = false; scheduler_backend = mock }

-- `unwrap_or_default`.
abbrev pub or_else {ℓ} : {A : Type ℓ} → Result A String → A → A
or_else (ok a) d = a
or_else (err e) d = d

module _ {F : Type 0} (fs : Fs F) where
  -- `if let Some(parent) = Path::new(path).parent()`, and what `create_dir_all` said.
  unfoldable pub make_parent : Option String → F → Result (Unit {0}) String × F
  make_parent none f = (ok tt, f)
  make_parent (some dir) f = fs.create_dir_all dir f

  module _ (toml : TextCodec Config) where
    unfoldable pub load_config : String → F → Config
    load_config path f =
        if not (fs.path_exists path f) then default_config else elim (fs.read_to_string path f) [
          | ok contents ↦ or_else (toml.from_str contents) default_config
          | err e ↦ default_config
        ]

    -- `none` is a panic of one of the two calls of `unwrap`.
    unfoldable pub save_config : Config → String → F → Option F
    unfolding make_parent
    save_config config path f =
        let (_, f') = make_parent (fs.parent path) f in
        elim (toml.to_string_pretty config) [
          | err e ↦ none
          | ok contents ↦
              (let (written, f'') = fs.write path contents f' in
                elim written [ ok _ ↦ some f'' | err e ↦ none ])
        ]

  module _ (json : TextCodec RuntimeState) where
    unfoldable pub load_state : String → F → RuntimeState
    load_state path f =
        if not (fs.path_exists path f)
        then default_state
        else or_else (json.from_str (or_else (fs.read_to_string path f) "")) default_state

    -- The text is written whatever `write` then says: a failure is only reported.
    unfoldable pub write_state : RuntimeState → String → F → F
    write_state state path f = elim (json.to_string_pretty state) [
      | err e ↦ f
      | ok text ↦ (fs.write path text f).1
    ]

    unfoldable pub save_state : RuntimeState → String → F → F
    unfolding make_parent write_state
    save_state state path f =
        let (made, f') = make_parent (fs.parent path) f in
        elim made [ err e ↦ f' | ok _ ↦ write_state state path f' ]
