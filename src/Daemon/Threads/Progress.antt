-- ===== src/Daemon/Threads/Progress.antt =====
-- services/cerynthd/src/server/listener.rs and connection.rs: the threads never block each other.
use cerynth_os.Base.{
  ℕ, ◌≡◌, refl, ap, ◌∙◌, sym, ◌⊎◌, inl, inr, String, true, false, Option, none, some, List, Result,
  ◌≢◌, Option-cases,
}
use cerynth_os.Ipc.Messages.{Request, to_request, Response}
use cerynth_os.Ipc.Envelopes.{RequestEnvelope, ResponseEnvelope}
use cerynth_os.Ipc.Frames.{Codec}
use cerynth_os.Ipc.Profiles.{SchedulerStatus}
use cerynth_os.Config.Files.{Fs, TextCodec}
use cerynth_os.Config.Settings.{RuntimeState}
use cerynth_os.Daemon.State.{Backend}
use cerynth_os.Daemon.Handlers.{handle_request}
use cerynth_os.Daemon.Server.{Shared, Served}
use cerynth_os.Daemon.Threads.{
  Phase, reading, waiting, holding, handled, reported, saved, finished, in_section, Threads,
  acquire, after_request, after_status, admit, after_read, advance_from, advance, Reach,
}
use cerynth_os.Daemon.Threads.Invariant.{none_not_some, Within}
use cerynth_os.Daemon.Threads.Upkeep.{Stays, Reach-Kept}
use cerynth_os.Daemon.Threads.Serial.{Reach-IsConsistent}

false_not_true : false ≡ true → ⊥
false_not_true h = cc

module _ {S F : Type 0} (b : Backend S) (fs : Fs F) (json : TextCodec RuntimeState)
    (requests : Codec RequestEnvelope) (responses : Codec ResponseEnvelope) (state_path : String)
    (input : ℕ → Result (List ℕ) String) where
  within-in_section :
      (p : Phase) (a sh : Shared S F)
      → Within b fs json requests responses state_path input p a sh
      → in_section p ≡ true
  within-in_section reading a sh w = absurd w
  within-in_section (waiting e) a sh w = absurd w
  within-in_section (holding e) a sh w = refl
  within-in_section (handled e r) a sh w = refl
  within-in_section (reported e r st) a sh w = refl
  within-in_section (saved e r) a sh w = refl
  within-in_section (finished out) a sh w = absurd w

  section-busy : (p : Phase) (out : Served) → in_section p ≡ true → p ≢ finished out
  section-busy p out h e = false_not_true (sym (ap in_section e) ∙ h)

  abbrev pub Moves : Option (Threads S F) → Type 0
  Moves o = (t : Threads S F) × (o ≡ some t)

  read-Moves :
      (i : ℕ) (d : Threads S F) (r : Served ⊎ RequestEnvelope)
      → Moves (after_read b fs json requests responses state_path input i d r)
  read-Moves i d (inl out) = (_, refl)
  read-Moves i d (inr e) = (_, refl)

  request-Moves :
      (i : ℕ) (e : RequestEnvelope) (d : Threads S F) (o : Option (Response × S))
      → o ≢ none
      → Moves (after_request i e d o)
  request-Moves i e d none h = absurd (h refl)
  request-Moves i e d (some (r, s)) h = (_, refl)

  status-Moves :
      (i : ℕ) (e : RequestEnvelope) (r : Response) (d : Threads S F)
      (o : Option (Result SchedulerStatus String × S))
      → o ≢ none
      → Moves (after_status i e r d o)
  status-Moves i e r d none h = absurd (h refl)
  status-Moves i e r d (some (st, s)) h = (_, refl)

  -- With the lock, or when it is free, only a thread that has finished stands still.
  thread-Moves :
      (i : ℕ) (d : Threads S F) (p : Phase)
      → ((r : Request) → handle_request b r d.shared.backend ≢ none)
      → b.status d.shared.backend ≢ none
      → ((out : Served) → p ≢ finished out)
      → (d.lock ≡ none) ⊎ (in_section p ≡ true)
      → Moves (advance_from b fs json requests responses state_path input i d p)
  thread-Moves i d reading answers reports busy l =
      read-Moves i d (admit b fs json requests responses state_path input (input i))
  thread-Moves i d (waiting e) answers reports busy (inl free) = (_, ap (λ l. acquire i e l d) free)
  thread-Moves i d (waiting e) answers reports busy (inr h) = absurd (cc)
  thread-Moves i d (holding e) answers reports busy l =
      request-Moves i e d (handle_request b (to_request e.request) d.shared.backend)
        (answers (to_request e.request))
  thread-Moves i d (handled e r) answers reports busy l =
      status-Moves i e r d (b.status d.shared.backend) reports
  thread-Moves i d (reported e r st) answers reports busy l = (_, refl)
  thread-Moves i d (saved e r) answers reports busy l = (_, refl)
  thread-Moves i d (finished out) answers reports busy l = absurd (busy out refl)

  calls_end : {A : Type 0} (I : S → Type 0) (o : Option (A × S)) → Stays I o → o ≢ none
  calls_end I none k h = k
  calls_end I (some (a, s)) k h = none_not_some (a, s) (sym h)

  -- If the backend's calls come to an end in states that they preserve, then from such a state, and
  -- as long as some connection has not finished, a thread can take its next step.
  pub advance-progress :
      (I : S → Type 0) (sh : Shared S F) (d : Threads S F) (i : ℕ)
      → ((r : Request) (s : S) → I s → Stays I (handle_request b r s))
      → ((s : S) → I s → Stays I (b.status s))
      → I sh.backend
      → Reach b fs json requests responses state_path input sh d
      → ((out : Served) → d.phase i ≢ finished out)
      → (j : ℕ) × (t : Threads S F) × (advance b fs json requests responses state_path input j d
          ≡ some t)
  unfolding advance
  advance-progress I sh d i ends reports₀ start r busy =
      let k =
        Reach-Kept b fs json requests responses state_path input I ends reports₀ sh d start r in
      let answers = λ (q : Request).
        calls_end I (handle_request b q d.shared.backend) (ends q d.shared.backend k) in
      let reports = calls_end I (b.status d.shared.backend) (reports₀ d.shared.backend k) in
      elim (Option-cases d.lock) [
        | inl free ↦
            let m = thread-Moves i d (d.phase i) answers reports busy (inl free) in (i, m.0, m.1)
        | inr (j, held) ↦
            let s = Reach-IsConsistent b fs json requests responses state_path input sh d r in
            let h = within-in_section (d.phase j) s.atomic d.shared (s.within j held) in
            let m =
              thread-Moves j d (d.phase j) answers reports (λ out. section-busy (d.phase j) out h)
                (inr h) in
            (j, m.0, m.1)
      ]
