-- ===== src/Base/Disk.antt =====
-- What the programs use of `std::fs` to replace a file as a whole, with what a file holds after each
-- call. `D` is the state of the disk.
use Prim.Native.String.{String}
use mathlib.Core.Path.{◌≡◌, refl, ◌∙◌}
use mathlib.Core.Logic.{◌≢◌}
use mathlib.Core.Option.{Option, some}
use cerynth_os.Base.Tests.{Result, ok, err}

-- `create` empties the file.
pub record Disk (D : Type 0) : Type 0 where
  pub create_dir_all : String → D → Result (Unit {0}) String × D
  pub create : String → D → Result (Unit {0}) String × D
  pub write_all : String → String → D → Result (Unit {0}) String × D
  pub sync_all : String → D → Result (Unit {0}) String × D
  pub write : String → String → D → Result (Unit {0}) String × D
  pub rename : String → String → D → Result (Unit {0}) String × D
  pub contents : String → D → Option String

-- Calls on one file leave the others, whether they succeed or not; a rename happens as a whole.
pub record DiskLaws {D : Type 0} (disk : Disk D) : Type 0 where
  pub directories_keep :
      (dir path : String) (d : D)
      → disk.contents path (disk.create_dir_all dir d).1 ≡ disk.contents path d
  pub create_keeps :
      (tmp path : String) (d : D)
      → tmp ≢ path
      → disk.contents path (disk.create tmp d).1 ≡ disk.contents path d
  pub create_empties :
      (tmp : String) (d : D)
      → (disk.create tmp d).0 ≡ ok tt
      → disk.contents tmp (disk.create tmp d).1 ≡ some ""
  pub write_all_keeps :
      (tmp path text : String) (d : D)
      → tmp ≢ path
      → disk.contents path (disk.write_all tmp text d).1 ≡ disk.contents path d
  pub write_all_fills :
      (tmp text : String) (d : D)
      → disk.contents tmp d ≡ some ""
      → (disk.write_all tmp text d).0 ≡ ok tt
      → disk.contents tmp (disk.write_all tmp text d).1 ≡ some text
  pub sync_keeps :
      (tmp path : String) (d : D)
      → disk.contents path (disk.sync_all tmp d).1 ≡ disk.contents path d
  pub write_keeps :
      (tmp path text : String) (d : D)
      → tmp ≢ path
      → disk.contents path (disk.write tmp text d).1 ≡ disk.contents path d
  pub write_fills :
      (tmp text : String) (d : D)
      → (disk.write tmp text d).0 ≡ ok tt
      → disk.contents tmp (disk.write tmp text d).1 ≡ some text
  pub rename_moves :
      (tmp path : String) (d : D)
      → (disk.rename tmp path d).0 ≡ ok tt
      → disk.contents path (disk.rename tmp path d).1 ≡ disk.contents tmp d
  pub rename_keeps :
      (tmp path e : String) (d : D)
      → (disk.rename tmp path d).0 ≡ err e
      → disk.contents path (disk.rename tmp path d).1 ≡ disk.contents path d
  pub rename_leaves :
      (tmp path other : String) (d : D)
      → tmp ≢ other
      → path ≢ other
      → disk.contents other (disk.rename tmp path d).1 ≡ disk.contents other d

-- `?` after a call.
abbrev pub and_next :
    {N : Type 0}
    → Result (Unit {0}) String × N
    → (N → Result (Unit {0}) String × N)
    → Result (Unit {0}) String × N
and_next (err e, n) k = (err e, n)
and_next (ok _, n) k = k n

-- A file that held `old` was replaced as a whole by `text`, or is as it was and there is an error.
abbrev pub Replaced : Option String → String → Result (Unit {0}) String → Option String → Type 0
Replaced old text (ok _) now = now ≡ some text
Replaced old text (err e) now = now ≡ old

module _ {D : Type 0} (disk : Disk D) (laws : DiskLaws disk) (path text : String)
    (old : Option String) where
  -- The rule of `?`: what the path held is still there before the next call.
  pub and_next-Replaced :
      (r : Result (Unit {0}) String) (d : D) (k : D → Result (Unit {0}) String × D)
      → disk.contents path d ≡ old
      → (r ≡ ok tt → Replaced old text (k d).0 (disk.contents path (k d).1))
      → Replaced old text (and_next (r, d) k).0 (disk.contents path (and_next (r, d) k).1)
  and_next-Replaced (err e) d k h next = h
  and_next-Replaced (ok _) d k h next = next refl

  renamed :
      (tmp : String) (d : D) (r : Result (Unit {0}) String)
      → (disk.rename tmp path d).0 ≡ r
      → disk.contents path d ≡ old
      → disk.contents tmp d ≡ some text
      → Replaced old text r (disk.contents path (disk.rename tmp path d).1)
  renamed tmp d (ok _) h kept full = laws.rename_moves tmp path d h ∙ full
  renamed tmp d (err e) h kept full = laws.rename_keeps tmp path e d h ∙ kept

  pub rename-Replaced :
      (tmp : String) (d : D)
      → disk.contents path d ≡ old
      → disk.contents tmp d ≡ some text
      → Replaced old text (disk.rename tmp path d).0 (disk.contents path (disk.rename tmp path d).1)
  rename-Replaced tmp d kept full = renamed tmp d (disk.rename tmp path d).0 refl kept full

  -- A file that is written beside the path and renamed to it.
  pub write-rename-Replaced :
      (tmp : String) (d : D)
      → tmp ≢ path
      → disk.contents path d ≡ old
      → let out = and_next (disk.write tmp text d) (λ x. disk.rename tmp path x) in
        Replaced old text out.0 (disk.contents path out.1)
  write-rename-Replaced tmp d apart kept =
      let written = disk.write tmp text d in
      let h = laws.write_keeps tmp path text d apart ∙ kept in
      and_next-Replaced written.0 written.1 _ h
        λ a. rename-Replaced tmp written.1 h (laws.write_fills tmp text d a)

  -- Calls that leave the path, one after the other.
  pub and_next-keeps :
      (r : Result (Unit {0}) String × D) (k : D → Result (Unit {0}) String × D)
      → disk.contents path r.1 ≡ old
      → ((x : D) → disk.contents path x ≡ old → disk.contents path (k x).1 ≡ old)
      → disk.contents path (and_next r k).1 ≡ old
  and_next-keeps (err e, d) k h next = h
  and_next-keeps (ok _, d) k h next = next d h
