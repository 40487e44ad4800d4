-- ===== src/Sched/Files/Whole.antt =====
-- schedulers/cerynth-scx/src/status.rs: readers of the two files never see half of a record.
use text.Mathlib.TextEquality.{eq_iff}
use cerynth_os.Base.{String, ◌≡◌, ◌∙◌, ◌≢◌, Option, Result, ok, err, arith}
use cerynth_os.Base.Disk.{
  Disk, DiskLaws, Replaced, and_next-Replaced, rename-Replaced, write-rename-Replaced,
}
use cerynth_os.Sched.Status.{SchedulerStatus}
use cerynth_os.Sched.Files.{
  status_dir, status_path, status_tmp, stats_path, stats_tmp, unwrap_or_default, write_status,
  write_stats_text, write_stats_file,
}

pub status_tmp-ne : status_tmp ≢ status_path
status_tmp-ne h = ground (arith, eq_iff status_tmp status_path)

pub stats_tmp-ne : stats_tmp ≢ stats_path
stats_tmp-ne h = ground (arith, eq_iff stats_tmp stats_path)

module _ {D : Type 0} (disk : Disk D) (laws : DiskLaws disk) where
  -- On a disk with the usual laws, writing the status file replaces it as a whole: after a
  -- success it holds the encoded status, after any error what it held before.
  pub write_status-Replaced :
      (to_string_pretty : SchedulerStatus → Result String String) (status : SchedulerStatus) (d : D)
      → let out = write_status disk to_string_pretty status d in
        Replaced
          (disk.contents status_path d)
          (unwrap_or_default (to_string_pretty status))
          out.0
          (disk.contents status_path out.1)
  unfolding write_status
  write_status-Replaced to_string_pretty status d =
      let text = unwrap_or_default (to_string_pretty status) in
      let old = disk.contents status_path d in
      let made = disk.create_dir_all status_dir d in
      let created = disk.create status_tmp made.1 in
      let written = disk.write_all status_tmp text created.1 in
      let synced = disk.sync_all status_tmp written.1 in
      let h₁ = laws.directories_keep status_dir status_path d in
      let h₂ = laws.create_keeps status_tmp status_path made.1 status_tmp-ne ∙ h₁ in
      let h₃ = laws.write_all_keeps status_tmp status_path text created.1 status_tmp-ne ∙ h₂ in
      let h₄ = laws.sync_keeps status_tmp status_path written.1 ∙ h₃ in
      and_next-Replaced disk laws status_path text old made.0 made.1 _ h₁ λ a.
        and_next-Replaced disk laws status_path text old created.0 created.1 _ h₂ λ b.
          and_next-Replaced disk laws status_path text old written.0 written.1 _ h₃ λ c.
            and_next-Replaced disk laws status_path text old synced.0 synced.1 _ h₄ λ e.
              rename-Replaced disk laws status_path text old status_tmp synced.1 h₄ (
                laws.sync_keeps status_tmp status_tmp written.1
                ∙ laws.write_all_fills status_tmp text created.1
                    (laws.create_empties status_tmp made.1 b) c)

  stats_text-Replaced :
      (json : Result String String) (old : Option String) (d : D)
      → disk.contents stats_path d ≡ old
      → let out = write_stats_text disk json d in
        Replaced old (unwrap_or_default json) out.0 (disk.contents stats_path out.1)
  stats_text-Replaced (err e) old d h = h
  stats_text-Replaced (ok json) old d h =
      write-rename-Replaced disk laws stats_path json old stats_tmp d stats_tmp-ne h

  -- x
  pub write_stats_file-Replaced :
      (json : Result String String) (d : D)
      → let out = write_stats_file disk json d in
        Replaced
          (disk.contents stats_path d)
          (unwrap_or_default json)
          out.0
          (disk.contents stats_path out.1)
  unfolding write_stats_file
  write_stats_file-Replaced json d =
      let made = disk.create_dir_all status_dir d in
      let h = laws.directories_keep status_dir stats_path d in
      and_next-Replaced disk laws stats_path (unwrap_or_default json) _ made.0 made.1 _ h
        λ a. stats_text-Replaced json _ made.1 h
