-- ===== src/Config/Persistence.antt =====
-- crates/cerynth-config: what is loaded after a save.
use cerynth_os.Base.{String, ◌≡◌, refl, some, Result, ok, err, arith}
use cerynth_os.Config.Files.{Fs, FsLaws, TextCodec}
use cerynth_os.Config.Settings.{
  Config, RuntimeState, make_parent, load_config, save_config, load_state, save_state,
}

module _ {F : Type 0} (fs : Fs F) (laws : FsLaws fs) where
  -- If the directory can be made, the state can be encoded and the write succeeds, then the state
  -- that is loaded after a save is the one that was saved.
  pub load_state-save_state :
      (json : TextCodec RuntimeState) (state : RuntimeState) (path text : String) (f : F)
      → (make_parent fs (fs.parent path) f).0 ≡ ok tt
      → json.to_string_pretty state ≡ ok text
      → (fs.write path text (make_parent fs (fs.parent path) f).1).0 ≡ ok tt
      → load_state fs json path (save_state fs json state path f) ≡ state
  unfolding load_state save_state
  load_state-save_state json state path text f made encoded written =
      let f' = (make_parent fs (fs.parent path) f).1 in
      ground (
        arith,
        laws.written_exists path text f' written,
        laws.written_read path text f' written,
        json.from_str-to_string state text encoded,
      )

  loaded :
      (toml : TextCodec Config) (config : Config) (path text : String) (f : F)
      → toml.to_string_pretty config ≡ ok text
      → (fs.write path text f).0 ≡ ok tt
      → load_config fs toml path (fs.write path text f).1 ≡ config
  unfolding load_config
  loaded toml config path text f encoded written = ground (
    arith,
    laws.written_exists path text f written,
    laws.written_read path text f written,
    toml.from_str-to_string config text encoded,
  )

  load_saved :
      (toml : TextCodec Config) (config : Config) (path : String) (f f' : F)
      (r : Result String String)
      → toml.to_string_pretty config ≡ r
      → save_config fs toml config path f ≡ some f'
      → load_config fs toml path f' ≡ config
  unfolding save_config
  load_saved toml config path f f' (err e) h saved = absurd (ground arith)
  load_saved toml config path f f' (ok text) h saved =
      ground (arith, loaded toml config path text (make_parent fs (fs.parent path) f).1)

  -- A configuration whose save did not panic is the one that is loaded next.
  pub load_config-save_config :
      (toml : TextCodec Config) (config : Config) (path : String) (f f' : F)
      → save_config fs toml config path f ≡ some f'
      → load_config fs toml path f' ≡ config
  load_config-save_config toml config path f f' saved =
      load_saved toml config path f f' (toml.to_string_pretty config) refl saved
