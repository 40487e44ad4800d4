-- ===== src/Sched/Reporter/Latest.antt =====
-- schedulers/cerynth-scx/src/reporter.rs: what is written, against the frames received.
use mathlib.Core.Path.{subst}
use text.Mathlib.TextEquality.{eq_iff}
use text.Mathlib.Text.{◌==◌ as str_eq}
use cerynth_os.Base.{
  ℕ, ◌≡◌, refl, ◌↔◌, sym, String, true, Option, none, some, List, [], ◌∷◌, Result, ok, err, arith,
}
use cerynth_os.Base.Text.{trim}
use cerynth_os.Sched.Reporter.{
  Snapshot, Received, datagram, drain, with_state, observe_latest, observe,
}

-- The last datagram before the queue was empty.
abbrev pub last_frame : Option (List ℕ) → List Received → Option (List ℕ)
last_frame o [] = o
last_frame o (datagram bytes ∷ rest) = last_frame (some bytes) rest
last_frame o (Received.would_block ∷ rest) = o
last_frame o (Received.interrupted ∷ rest) = last_frame o rest
last_frame o (Received.failed e ∷ rest) = none

module _ {R : Type 0} (decode : List ℕ → Result (Snapshot R) String) where
  -- The snapshot comes from the frame.
  abbrev Decoded : Option (List ℕ) → Option (Snapshot R) → Type 0
  Decoded none none = Unit
  Decoded none (some s) = ⊥
  Decoded (some bytes) none = ⊥
  Decoded (some bytes) (some s) = decode bytes ≡ ok s

  after_datagram :
      (bytes : List ℕ) (r : Result (Snapshot R) String) (latest : Option (Snapshot R))
      (rest : List Received) (end : Option (Snapshot R))
      → ((s : Snapshot R)
          → decode bytes ≡ ok s
          → drain decode (some s) rest ≡ ok end
          → Decoded (last_frame (some bytes) rest) end)
      → decode bytes ≡ r
      → drain decode latest (datagram bytes ∷ rest) ≡ ok end
      → Decoded (last_frame (some bytes) rest) end
  unfolding drain
  after_datagram bytes (err x) latest rest end h k e = absurd (ground arith)
  after_datagram bytes (ok s) latest rest end h k e = h s k (ground arith)

  drain_lem :
      (o : Option (List ℕ)) (latest : Option (Snapshot R)) (rs : List Received)
      (end : Option (Snapshot R))
      → Decoded o latest
      → drain decode latest rs ≡ ok end
      → Decoded (last_frame o rs) end
  unfolding drain
  drain_lem o latest [] end h e = let k : latest ≡ end = cc in subst (λ x. Decoded o x) k h
  drain_lem o latest (datagram bytes ∷ rest) end h e =
      after_datagram bytes (decode bytes) latest rest end
        (λ s k e'. drain_lem (some bytes) (some s) rest end k e') refl e
  drain_lem o latest (Received.would_block ∷ rest) end h e =
      let k : latest ≡ end = cc in subst (λ x. Decoded o x) k h
  drain_lem o latest (Received.interrupted ∷ rest) end h e = drain_lem o latest rest end h e
  drain_lem o latest (Received.failed x ∷ rest) end h e = absurd (ground arith)

  -- The snapshot that is written, against the frame that it comes from.
  pub record Observed (parent : ℕ) (outcomes : List Received) (contents : Result String String)
      (s : Snapshot R) : Type 0 where
    pub frame : List ℕ
    pub is_last : last_frame none outcomes ≡ some frame
    pub latest : Snapshot R
    pub decoded : decode frame ≡ ok latest
    pub status_pid : latest.status.pid ≡ parent
    pub stats_pid : latest.stats.pid ≡ parent
    pub text : String
    pub state_read : contents ≡ ok text
    pub same_stats : s.stats ≡ latest.stats
    pub same_pid : s.status.pid ≡ latest.status.pid
    pub same_running : s.status.running ≡ latest.status.running
    pub same_heartbeat : s.status.heartbeat ≡ latest.status.heartbeat
    pub healthy_iff : (s.status.healthy ≡ true) ↔ (trim text ≡ "enabled")

  observe_latest_lem :
      (parent : ℕ) (outcomes : List Received) (contents : Result String String)
      (s latest : Snapshot R) (o : Option (List ℕ))
      → last_frame none outcomes ≡ o
      → Decoded o (some latest)
      → observe_latest decode parent (some latest) contents ≡ ok (some s)
      → Observed parent outcomes contents s
  unfolding observe_latest
  observe_latest_lem parent outcomes contents s latest none l d e = absurd d
  observe_latest_lem parent outcomes (err x) s latest (some frame) l d e = absurd (ground arith)
  observe_latest_lem parent outcomes (ok text) s latest (some frame) l d e =
      let same : s ≡ with_state decode latest text = ground arith in
      let healthy : s.status.healthy ≡ str_eq (trim text) "enabled" = ground arith in
      record {
        frame = frame;
        is_last = l;
        latest = latest;
        decoded = d;
        status_pid = ground arith;
        stats_pid = ground arith;
        text = text;
        state_read = refl;
        same_stats = ground arith;
        same_pid = ground arith;
        same_running = ground arith;
        same_heartbeat = ground arith;
        healthy_iff =
            subst (λ b. (b ≡ true) ↔ (trim text ≡ "enabled")) (sym healthy)
              (eq_iff (trim text) "enabled");
      }

  drained_lem :
      (parent : ℕ) (outcomes : List Received) (contents : Result String String) (s : Snapshot R)
      (r : Result (Option (Snapshot R)) String)
      → drain decode none outcomes ≡ r
      → observe decode parent outcomes contents ≡ ok (some s)
      → Observed parent outcomes contents s
  unfolding observe
  drained_lem parent outcomes contents s (err x) k e = absurd (ground arith)
  drained_lem parent outcomes contents s (ok none) k e = absurd (ground arith)
  drained_lem parent outcomes contents s (ok (some latest)) k e =
      observe_latest_lem parent outcomes contents s latest (last_frame none outcomes) refl
        (drain_lem none none outcomes (some latest) tt k) (ground arith)

  -- A snapshot that the reporting process is about to write comes from the last frame that waited
  -- in its queue. Both its process ids are the parent's, its counters, its `running` and its
  -- heartbeat are those of the frame, and it is called healthy exactly when the state file, read
  -- now, says enabled.
  pub observe-Observed :
      (parent : ℕ) (outcomes : List Received) (contents : Result String String) (s : Snapshot R)
      → observe decode parent outcomes contents ≡ ok (some s)
      → Observed parent outcomes contents s
  observe-Observed parent outcomes contents s e =
      drained_lem parent outcomes contents s (drain decode none outcomes) refl e
