-- ===== src/Sched/Files.antt =====
-- schedulers/cerynth-scx/src/status.rs: the two files that the scheduler leaves for others to read.
pub mod Whole
use cerynth_os.Base.{String, Result, ok, err}
use cerynth_os.Base.Disk.{Disk, and_next}
use cerynth_os.Sched.Status.{SchedulerStatus}

abbrev pub status_dir : String
status_dir = "/run/cerynth"

abbrev pub status_path : String
status_path = "/run/cerynth/scheduler.json"

abbrev pub status_tmp : String
status_tmp = "/run/cerynth/scheduler.json.tmp"

abbrev pub stats_path : String
stats_path = "/run/cerynth/scheduler-stats.json"

abbrev pub stats_tmp : String
stats_tmp = "/run/cerynth/scheduler-stats.json.tmp"

abbrev pub unwrap_or_default : Result String String → String
unwrap_or_default (ok text) = text
unwrap_or_default (err e) = ""

module _ {D : Type 0} (disk : Disk D) where
  unfoldable pub write_status :
      (SchedulerStatus → Result String String) → SchedulerStatus → D → Result (Unit {0}) String × D
  write_status to_string_pretty status d = and_next (disk.create_dir_all status_dir d) λ d₁.
      and_next (disk.create status_tmp d₁) λ d₂.
        and_next (disk.write_all status_tmp (unwrap_or_default (to_string_pretty status)) d₂)
          λ d₃. and_next (disk.sync_all status_tmp d₃) λ d₄. disk.rename status_tmp status_path d₄

  abbrev pub write_stats_text : Result String String → D → Result (Unit {0}) String × D
  write_stats_text (err e) d = (err e, d)
  write_stats_text (ok json) d =
      and_next (disk.write stats_tmp json d) λ d₁. disk.rename stats_tmp stats_path d₁

  -- The encoded counters are the argument.
  unfoldable pub write_stats_file : Result String String → D → Result (Unit {0}) String × D
  write_stats_file json d =
      and_next (disk.create_dir_all status_dir d) λ d₁. write_stats_text json d₁
