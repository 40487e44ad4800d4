-- ===== src/Daemon/Threads/Moves.antt =====
-- services/cerynthd/src/server/listener.rs and connection.rs: steps of one thread, in and outside the lock.

use cerynth_os.Base.{
  ℕ, ◌≡◌, refl, sym, ap, ◌∙◌, inl, inr, String, true, false, none, some, List, [], ◌∷◌, Result,
  arith, ◌==◌, Bool-cases, ◌≢◌,
}
use mathlib.Core.Path.{subst}
use cerynth_os.Ipc.Envelopes.{RequestEnvelope, ResponseEnvelope}
use cerynth_os.Ipc.Frames.{Codec}
use cerynth_os.Config.Files.{Fs, TextCodec}
use cerynth_os.Config.Settings.{RuntimeState}
use cerynth_os.Daemon.State.{Backend}
use cerynth_os.Daemon.Server.{Shared, Served, handle_connection}
use cerynth_os.Daemon.Threads.{
  Phase, reading, waiting, holding, handled, reported, saved, finished, in_section, Threads, update,
  Sequential, served,
}
use cerynth_os.Daemon.Threads.Invariant.{
  some_injective, none_not_some, replies_of, outcome, Within, Admitted, IsConsistent,
}

module _ {S F : Type 0} (b : Backend S) (fs : Fs F) (json : TextCodec RuntimeState)
    (requests : Codec RequestEnvelope) (responses : Codec ResponseEnvelope) (state_path : String)
    (input : ℕ → Result (List ℕ) String) where
  pub update_rule :
      (P : Phase → Type 0) (i j : ℕ) (p : Phase) (f : ℕ → Phase)
      → (i ≡ j → P p)
      → (i ≢ j → P (f j))
      → P (update i p f j)
  update_rule P i j p f h k = elim (Bool-cases (i == j)) [
    | inl e ↦ rw e (h (ground arith))
    | inr e ↦ rw e (k (λ q. ground arith))
  ]

  pub not_within :
      (p : Phase) (a sh : Shared S F)
      → in_section p ≡ false
      → Within b fs json requests responses state_path input p a sh
      → ⊥
  not_within reading a sh h w = w
  not_within (waiting e) a sh h w = w
  not_within (holding e) a sh h w = cc
  not_within (handled e r) a sh h w = cc
  not_within (reported e r st) a sh h w = cc
  not_within (saved e r) a sh h w = cc
  not_within (finished out) a sh h w = w

  -- The outcomes of a thread that has not finished do not change.
  pub answers_kept :
      (d : Threads S F) (i : ℕ) (p : Phase)
      → outcome p ≡ outcome (d.phase i)
      → ((j : ℕ) → replies_of j d.log ≡ outcome (d.phase j))
      → (j : ℕ) → replies_of j d.log ≡ outcome (update i p d.phase j)
  answers_kept d i p same h j =
      update_rule (λ x. replies_of j d.log ≡ outcome x) i j p d.phase
        (λ q. h j ∙ ap outcome (ap d.phase (sym q)) ∙ sym same) (λ q. h j)

  pub answers_added :
      (d : Threads S F) (i : ℕ) (out : Served)
      → outcome (d.phase i) ≡ []
      → ((j : ℕ) → replies_of j d.log ≡ outcome (d.phase j))
      → (j : ℕ) → replies_of j ((i, out) ∷ d.log) ≡ outcome (update i (finished out) d.phase j)
  answers_added d i out new h j = elim (Bool-cases (i == j)) [
    | inl e ↦
        let q : i ≡ j = ground arith in
        rw e (ap (◌∷◌ out) (h j ∙ ap outcome (ap d.phase (sym q)) ∙ new))
    | inr e ↦ rw e (h j)
  ]

  -- A thread that does not have the lock moves, and nothing else changes but the log.
  pub outside-IsConsistent :
      (sh : Shared S F) (d : Threads S F) (i : ℕ) (p : Phase) (log : List (ℕ × Served))
      (s : IsConsistent b fs json requests responses state_path input sh d)
      → in_section (d.phase i) ≡ false
      → in_section p ≡ false
      → Admitted b fs json requests responses state_path input i p
      → ((j : ℕ) → replies_of j log ≡ outcome (update i p d.phase j))
      → Sequential b fs json requests responses state_path input sh log s.atomic
      → IsConsistent b fs json requests responses state_path input sh
          (record d { phase = update i p d.phase; log = log })
  outside-IsConsistent sh d i p log s was now from answered run = record {
    atomic = s.atomic;
    sequential = run;
    settled = s.settled;
    answers = answered;
    admitted = λ j.
        update_rule (Admitted b fs json requests responses state_path input j) i j p d.phase
          (λ q. subst (λ x. Admitted b fs json requests responses state_path input x p) q from)
          (λ q. s.admitted j);
    within = λ j held.
        update_rule (λ x. Within b fs json requests responses state_path input x s.atomic d.shared)
          i j p d.phase
          (λ q. absurd (
            not_within (d.phase j) s.atomic d.shared (ap in_section (ap d.phase (sym q)) ∙ was)
              (s.within j held)))
          (λ q. s.within j held);
    exclusive = λ j.
        update_rule (λ x. in_section x ≡ true → d.lock ≡ some j) i j p d.phase (λ q h. cc)
          (λ q. s.exclusive j);
  }

  -- The thread with the lock moves.
  pub inside-IsConsistent :
      (sh : Shared S F) (d : Threads S F) (i : ℕ) (p : Phase) (x : Shared S F)
      (s : IsConsistent b fs json requests responses state_path input sh d)
      → in_section (d.phase i) ≡ true
      → in_section p ≡ true
      → Admitted b fs json requests responses state_path input i p
      → outcome p ≡ outcome (d.phase i)
      → Within b fs json requests responses state_path input p s.atomic x
      → IsConsistent b fs json requests responses state_path input sh
          (record d { phase = update i p d.phase; shared = x })
  inside-IsConsistent sh d i p x s was now from same done =
      let mine : d.lock ≡ some i = s.exclusive i was in
      record {
        atomic = s.atomic;
        sequential = s.sequential;
        settled = λ free. absurd (cc);
        answers = answers_kept d i p same s.answers;
        admitted = λ j.
            update_rule (Admitted b fs json requests responses state_path input j) i j p d.phase
              (λ q. subst (λ x. Admitted b fs json requests responses state_path input x p) q from)
              (λ q. s.admitted j);
        within = λ j held.
            update_rule (λ y. Within b fs json requests responses state_path input y s.atomic x) i j
              p d.phase (λ q. done) (λ q. absurd (q (some_injective i j (sym mine ∙ held))));
        exclusive = λ j.
            update_rule (λ y. in_section y ≡ true → d.lock ≡ some j) i j p d.phase
              (λ q h. mine ∙ ap some q) (λ q. s.exclusive j);
      }

  -- A thread takes the free lock.
  pub acquired-IsConsistent :
      (sh : Shared S F) (d : Threads S F) (i : ℕ) (e : RequestEnvelope)
      (s : IsConsistent b fs json requests responses state_path input sh d)
      → d.lock ≡ none
      → d.phase i ≡ waiting e
      → IsConsistent b fs json requests responses state_path input sh
          (record d { phase = update i (holding e) d.phase; lock = some i })
  acquired-IsConsistent sh d i e s free at_lock = record {
    atomic = s.atomic;
    sequential = s.sequential;
    settled = λ h. cc;
    answers = answers_kept d i (holding e) (sym (ap outcome at_lock)) s.answers;
    admitted = λ j.
        update_rule (Admitted b fs json requests responses state_path input j) i j (holding e)
          d.phase
          (λ q.
            subst (λ x. Admitted b fs json requests responses state_path input x (holding e)) q
              (subst (Admitted b fs json requests responses state_path input i) at_lock
                (s.admitted i)))
          (λ q. s.admitted j);
    within = λ j held.
        update_rule (λ y. Within b fs json requests responses state_path input y s.atomic d.shared)
          i j (holding e) d.phase (λ q. s.settled free) (λ q. absurd (q (some_injective i j held)));
    exclusive = λ j.
        update_rule (λ y. in_section y ≡ true → some i ≡ some j) i j (holding e) d.phase
          (λ q h. ap some q) (λ q h. absurd (none_not_some j (sym free ∙ s.exclusive j h)));
  }

  -- The thread with the lock lets it go, and its connection has an outcome.
  pub released-IsConsistent :
      (sh : Shared S F) (d : Threads S F) (i : ℕ) (out : Served)
      (s : IsConsistent b fs json requests responses state_path input sh d)
      → in_section (d.phase i) ≡ true
      → outcome (d.phase i) ≡ []
      → handle_connection b fs json requests responses state_path (input i) s.atomic
        ≡ some (out, d.shared)
      → IsConsistent b fs json requests responses state_path input sh (record d {
        phase = update i (finished out) d.phase;
        log = (i, out) ∷ d.log;
        lock = none;
      })
  released-IsConsistent sh d i out s was new done =
      let mine : d.lock ≡ some i = s.exclusive i was in
      record {
        atomic = d.shared;
        sequential = served i out s.sequential done;
        settled = λ h. refl;
        answers = answers_added d i out new s.answers;
        admitted = λ j.
            update_rule (Admitted b fs json requests responses state_path input j) i j
              (finished out) d.phase (λ q. tt) (λ q. s.admitted j);
        within = λ j held. absurd (none_not_some j held);
        exclusive = λ j.
            update_rule (λ y. in_section y ≡ true → none ≡ some j) i j (finished out) d.phase
              (λ q h. cc) (λ q h. absurd (q (some_injective i j (sym mine ∙ s.exclusive j h))));
      }
