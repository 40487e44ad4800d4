-- ===== src/Config/Files.antt =====
-- What crates/cerynth-config uses of the file system and of the crates `toml` and `serde_json`. `F` is
-- the state of the file system.
use cerynth_os.Base.{String, ◌≡◌, Bool, true, Option, Result, ok}

pub record Fs (F : Type 0) : Type 0 where
  pub path_exists : String → F → Bool
  pub read_to_string : String → F → Result String String
  pub parent : String → Option String
  pub create_dir_all : String → F → Result (Unit {0}) String × F
  pub write : String → String → F → Result (Unit {0}) String × F

-- A write that succeeds leaves a file with that text.
pub record FsLaws {F : Type 0} (fs : Fs F) : Type 0 where
  pub written_exists :
      (path text : String) (f : F)
      → (fs.write path text f).0 ≡ ok tt
      → fs.path_exists path (fs.write path text f).1 ≡ true
  pub written_read :
      (path text : String) (f : F)
      → (fs.write path text f).0 ≡ ok tt
      → fs.read_to_string path (fs.write path text f).1 ≡ ok text

-- `to_string_pretty` and `from_str` at one type, with the documented round trip.
pub record TextCodec (A : Type 0) : Type 0 where
  pub to_string_pretty : A → Result String String
  pub from_str : String → Result A String
  pub from_str-to_string : (a : A) (s : String) → to_string_pretty a ≡ ok s → from_str s ≡ ok a
