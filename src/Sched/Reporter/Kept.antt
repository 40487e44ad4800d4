-- ===== src/Sched/Reporter/Kept.antt =====
-- schedulers/cerynth-scx/src/reporter.rs, `run`: what the status file holds.
use mathlib.Core.Path.{subst}
use text.Mathlib.TextEquality.{eq_iff}
use cerynth_os.Base.{
  ℕ, zero, suc, ◌≡◌, refl, sym, ap, ◌∙◌, ◌⊎◌, inl, inr, ◌==◌, Bool, true, false, String, Option,
  none, some, List, Result, ok, err, ◌≢◌, arith,
}
use cerynth_os.Base.Disk.{Disk, DiskLaws, and_next, Replaced, and_next-keeps}
use cerynth_os.Sched.Dispatch.{SchedulerStats}
use cerynth_os.Sched.Status.{SchedulerStatus}
use cerynth_os.Sched.Files.{
  status_dir, status_path, stats_path, stats_tmp, unwrap_or_default, write_status, write_stats_text,
  write_stats_file,
}
use cerynth_os.Sched.Files.Whole.{write_status-Replaced}
use cerynth_os.Sched.Reporter.{Snapshot, Received, observe}
use cerynth_os.Sched.Reporter.Latest.{Observed, observe-Observed}
use cerynth_os.Sched.Reporter.Rounds.{
  Child, Ended, write_snapshot, write_observed, next_round, while_child, report_rounds,
  with_receiver, if_parent, after_prctl, run,
}

stats_tmp-ne-status : stats_tmp ≢ status_path
stats_tmp-ne-status h = ground (arith, eq_iff stats_tmp status_path)

stats_path-ne-status : stats_path ≢ status_path
stats_path-ne-status h = ground (arith, eq_iff stats_path status_path)

-- What one round drains from the socket, which begins in the world `v`, and the world after it.
abbrev pub drained : {W : Type 0} → Child W → W → List Received × W
drained child v = child.receive (child.getppid v).1

-- The worlds in which the rounds begin, of a process that begins in `start`.
pub data Round {W : Type 0} (child : Child W) (start : W) : W → Type 0 where
  first : Round child start (child.set_nonblocking (child.getppid (child.prctl start).1).1).1
  later : {v : W} → Round child start v → Round child start (child.sleep_ms 100 (drained child v).1)

module _ {W D R : Type 0} (child : Child W) (disk : Disk D)
    (decode : List ℕ → Result (Snapshot R) String) (pretty : SchedulerStatus → Result String String)
    (to_vec : SchedulerStats R → Result String String) (parent : ℕ) (laws : DiskLaws disk)
    (start : W) where
  -- The status file holds what it held at the start, or the encoding of the snapshot that was observed
  -- in a round, in what this round has drained and in the state file as it was then.
  abbrev pub IsReport : Option String → Option String → Type 0
  IsReport old now =
      (now ≡ old)
      ⊎ ((v : W) × Round child start v
          × (s : Snapshot R) × Observed decode parent (drained child v).0
              (child.read_state (drained child v).1) s
          × (now ≡ some (unwrap_or_default (pretty s.status))))

  after_write-IsReport :
      (r : Result (Unit {0}) String) (v : W) (s : Snapshot R) (old before now : Option String)
      → Round child start v
      → Observed decode parent (drained child v).0 (child.read_state (drained child v).1) s
      → IsReport old before
      → Replaced before (unwrap_or_default (pretty s.status)) r now
      → IsReport old now
  after_write-IsReport (ok _) v s old before now round o k h = inr (v, round, s, o, h)
  after_write-IsReport (err e) v s old before now round o k h = subst (IsReport old) (sym h) k

  stats_text_keeps :
      (json : Result String String) (old : Option String) (d : D)
      → disk.contents status_path d ≡ old
      → disk.contents status_path (write_stats_text disk json d).1 ≡ old
  stats_text_keeps (err e) old d h = h
  stats_text_keeps (ok text) old d h =
      and_next-keeps disk laws status_path text old (disk.write stats_tmp text d) _
        (laws.write_keeps stats_tmp status_path text d stats_tmp-ne-status ∙ h)
        (λ x k.
          laws.rename_leaves stats_tmp stats_path status_path x stats_tmp-ne-status
            stats_path-ne-status
          ∙ k)

  stats_file_keeps :
      (json : Result String String) (old : Option String) (d : D)
      → disk.contents status_path d ≡ old
      → disk.contents status_path (write_stats_file disk json d).1 ≡ old
  unfolding write_stats_file
  stats_file_keeps json old d h =
      and_next-keeps disk laws status_path "" old (disk.create_dir_all status_dir d) _
        (laws.directories_keep status_dir status_path d ∙ h) (λ x k. stats_text_keeps json old x k)

  then_stats-IsReport :
      (made : Result (Unit {0}) String × D) (json : Result String String) (old : Option String)
      → IsReport old (disk.contents status_path made.1)
      → IsReport old
          (disk.contents status_path (and_next made (λ x. write_stats_file disk json x)).1)
  then_stats-IsReport (err e, d) json old h = h
  then_stats-IsReport (ok _, d) json old h =
      subst (IsReport old) (sym (stats_file_keeps json (disk.contents status_path d) d refl)) h

  write_observed-IsReport :
      (v : W) (r : Result (Option (Snapshot R)) String) (old : Option String) (d : D)
      → Round child start v
      → observe decode parent (drained child v).0 (child.read_state (drained child v).1) ≡ r
      → IsReport old (disk.contents status_path d)
      → IsReport old
          (disk.contents status_path (write_observed child disk decode pretty to_vec parent r d).1)
  unfolding write_snapshot
  write_observed-IsReport v (err e) old d round o h = h
  write_observed-IsReport v (ok none) old d round o h = h
  write_observed-IsReport v (ok (some s)) old d round o h =
      let made = write_status disk pretty s.status d in
      then_stats-IsReport made (to_vec s.stats) old (
        after_write-IsReport made.0 v s old (disk.contents status_path d)
          (disk.contents status_path made.1) round
          (observe-Observed decode parent (drained child v).0 (child.read_state (drained child v).1)
            s o)
          h (write_status-Replaced disk laws pretty s.status d))

  -- The state of the disk after a round.
  abbrev pub Leaves : Option String → Ended × W × D → Type 0
  Leaves old (ended, w, d) = IsReport old (disk.contents status_path d)

  next_round-Leaves :
      (next : W → D → Ended × W × D) (v : W) (r : Result (Unit {0}) String × D)
      (old : Option String)
      → Round child start v
      → ((u : W) (x : D)
          → Round child start u
          → IsReport old (disk.contents status_path x)
          → Leaves old (next u x))
      → IsReport old (disk.contents status_path r.1)
      → Leaves old (next_round child disk decode pretty to_vec parent next (drained child v).1 r)
  next_round-Leaves next v (err e, d) old round k h = h
  next_round-Leaves next v (ok _, d) old round k h =
      k (child.sleep_ms 100 (drained child v).1) d (later round) h

  while_child-Leaves :
      (same : Bool) (next : W → D → Ended × W × D) (v : W) (d : D) (old : Option String)
      → Round child start v
      → ((u : W) (x : D)
          → Round child start u
          → IsReport old (disk.contents status_path x)
          → Leaves old (next u x))
      → IsReport old (disk.contents status_path d)
      → Leaves old
          (while_child child disk decode pretty to_vec parent same next (child.getppid v).1 d)
  while_child-Leaves false next v d old round k h = h
  while_child-Leaves true next v d old round k h =
      let (outcomes, w₁) = drained child v in
      let contents = child.read_state w₁ in
      next_round-Leaves next v _ old round k
        (write_observed-IsReport v (observe decode parent outcomes contents) old d round refl h)

  rounds-Leaves :
      (n : ℕ) (w : W) (d : D) (old : Option String)
      → Round child start w
      → IsReport old (disk.contents status_path d)
      → Leaves old (report_rounds child disk decode pretty to_vec parent n w d)
  unfolding report_rounds
  rounds-Leaves zero w d old round h = h
  rounds-Leaves (suc n) w d old round h =
      while_child-Leaves ((child.getppid w).0 == parent) _ w d old round
        (λ v x r k. rounds-Leaves n v x old r k) h

  -- The world after the check of the parent.
  abbrev checked : W
  checked = (child.getppid (child.prctl start).1).1

  receiver-Leaves :
      (n : ℕ) (r : Result (Unit {0}) String × W) (d : D)
      → child.set_nonblocking checked ≡ r
      → Leaves
          (disk.contents status_path d)
          (with_receiver child disk decode pretty to_vec parent n r d)
  receiver-Leaves n (err e, w) d h = inl refl
  receiver-Leaves n (ok _, w) d h =
      rounds-Leaves n w d (disk.contents status_path d)
        (subst (λ v. Round child start v) (ap (λ x. x.1) h) first) (inl refl)

  parent-Leaves :
      (same : Bool) (n : ℕ) (d : D)
      → Leaves
          (disk.contents status_path d)
          (if_parent child disk decode pretty to_vec parent same n checked d)
  parent-Leaves false n d = inl refl
  parent-Leaves true n d = receiver-Leaves n (child.set_nonblocking checked) d refl

  prctl-Leaves :
      (n : ℕ) (r : Result (Unit {0}) String × W) (d : D)
      → child.prctl start ≡ r
      → Leaves
          (disk.contents status_path d)
          (after_prctl child disk decode pretty to_vec parent n r d)
  prctl-Leaves n (err e, w) d h = inl refl
  prctl-Leaves n (ok _, w) d h =
      subst
        (λ v. Leaves (disk.contents status_path d) (
          if_parent child disk decode pretty to_vec parent ((child.getppid v).0 == parent) n
            (child.getppid v).1 d))
        (ap (λ x. x.1) h) (parent-Leaves ((child.getppid (child.prctl start).1).0 == parent) n d)

  -- On a disk with the usual laws, and whatever the process receives, however long it runs and
  -- however it ends: the status file holds what it held at the start or, as a whole, the encoded
  -- status of the snapshot that was observed in one of its rounds. This comes from the last frame
  -- that this round drained from the socket, has the parent's process id and is called healthy
  -- exactly when the state file, read after the drain, said enabled.
  pub run-IsReport :
      (n : ℕ) (d : D)
      → IsReport
          (disk.contents status_path d)
          (disk.contents status_path (run child disk decode pretty to_vec parent n start d).2)
  unfolding run
  run-IsReport n d = prctl-Leaves n (child.prctl start) d refl
