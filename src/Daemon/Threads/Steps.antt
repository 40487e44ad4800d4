-- ===== src/Daemon/Threads/Steps.antt =====
-- services/cerynthd/src/server/listener.rs and connection.rs: every step of a thread.

use cerynth_os.Base.{
  ℕ, ◌≡◌, refl, sym, ap, ◌∙◌, ◌⊎◌, inl, inr, String, Option, none, some, List, ◌∷◌, Result, ok, err,
  arith,
}
use mathlib.Core.Path.{subst}
use cerynth_os.Ipc.Messages.{to_request, Response}
use cerynth_os.Ipc.Envelopes.{RequestEnvelope, ResponseEnvelope}
use cerynth_os.Ipc.Frames.{Codec}
use cerynth_os.Ipc.Profiles.{SchedulerStatus}
use cerynth_os.Config.Files.{Fs, TextCodec}
use cerynth_os.Config.Settings.{RuntimeState}
use cerynth_os.Daemon.State.{Backend}
use cerynth_os.Daemon.Handlers.{handle_request}
use cerynth_os.Daemon.Server.{
  Shared, Served, encode_response, persist, persisted, reply, handle_connection,
}
use cerynth_os.Daemon.Threads.{
  Phase, reading, waiting, holding, handled, reported, saved, finished, in_section, Threads,
  advance_from, goto, finish, acquire, after_request, after_status, after_read, admit, save, answer,
  served,
}
use cerynth_os.Daemon.Threads.Invariant.{
  some_injective, none_not_some, outcome, Within, Admitted, IsConsistent,
}
use cerynth_os.Daemon.Threads.Admission.{admit-closed, admit-passed}
use cerynth_os.Daemon.Threads.Moves.{
  answers_kept, answers_added, outside-IsConsistent, inside-IsConsistent, acquired-IsConsistent,
  released-IsConsistent,
}

module _ {S F : Type 0} (b : Backend S) (fs : Fs F) (json : TextCodec RuntimeState)
    (requests : Codec RequestEnvelope) (responses : Codec ResponseEnvelope) (state_path : String)
    (input : ℕ → Result (List ℕ) String) where
  read-IsConsistent :
      (sh : Shared S F) (d t : Threads S F) (i : ℕ) (r : Served ⊎ RequestEnvelope)
      → IsConsistent b fs json requests responses state_path input sh d
      → d.phase i ≡ reading
      → admit b fs json requests responses state_path input (input i) ≡ r
      → after_read b fs json requests responses state_path input i d r ≡ some t
      → IsConsistent b fs json requests responses state_path input sh t
  read-IsConsistent sh d t i (inl out) s here r h =
      subst (IsConsistent b fs json requests responses state_path input sh)
        (some_injective (finish i out d) t h)
        (outside-IsConsistent b fs json requests responses state_path input sh d i (finished out)
          ((i, out) ∷ d.log) s (ap in_section here) refl tt
          (answers_added b fs json requests responses state_path input d i out (ap outcome here)
            s.answers)
          (served i out s.sequential
            (admit-closed b fs json requests responses state_path input (input i) out s.atomic r)))
  read-IsConsistent sh d t i (inr e) s here r h =
      subst (IsConsistent b fs json requests responses state_path input sh)
        (some_injective (goto i (waiting e) d) t h)
        (outside-IsConsistent b fs json requests responses state_path input sh d i (waiting e) d.log
          s (ap in_section here) refl r
          (answers_kept b fs json requests responses state_path input d i (waiting e)
            (sym (ap outcome here)) s.answers)
          s.sequential)

  acquire-IsConsistent :
      (sh : Shared S F) (d t : Threads S F) (i : ℕ) (e : RequestEnvelope) (l : Option ℕ)
      → IsConsistent b fs json requests responses state_path input sh d
      → d.phase i ≡ waiting e
      → d.lock ≡ l
      → acquire i e l d ≡ some t
      → IsConsistent b fs json requests responses state_path input sh t
  acquire-IsConsistent sh d t i e none s here l h =
      subst (IsConsistent b fs json requests responses state_path input sh)
        (some_injective (record (goto i (holding e) d) { lock = some i }) t h)
        (acquired-IsConsistent b fs json requests responses state_path input sh d i e s l here)
  acquire-IsConsistent sh d t i e (some j) s here l h = absurd (none_not_some t h)

  request-IsConsistent :
      (sh : Shared S F) (d t : Threads S F) (i : ℕ) (e : RequestEnvelope)
      (o : Option (Response × S))
      → IsConsistent b fs json requests responses state_path input sh d
      → d.phase i ≡ holding e
      → handle_request b (to_request e.request) d.shared.backend ≡ o
      → after_request i e d o ≡ some t
      → IsConsistent b fs json requests responses state_path input sh t
  request-IsConsistent sh d t i e none s here o h = absurd (none_not_some t h)
  request-IsConsistent sh d t i e (some (r, x)) s here o h =
      let mine : d.lock ≡ some i = s.exclusive i (ap in_section here) in
      let found : d.shared ≡ s.atomic =
        subst (λ p. Within b fs json requests responses state_path input p s.atomic d.shared) here
          (s.within i mine) in
      subst (IsConsistent b fs json requests responses state_path input sh) (some_injective _ t h) (
        inside-IsConsistent b fs json requests responses state_path input sh d i (handled e r)
          (record d.shared { backend = x }) s (ap in_section here) refl
          (subst (Admitted b fs json requests responses state_path input i) here (s.admitted i))
          (sym (ap outcome here))
          (
            ap (λ (y : Shared S F). handle_request b (to_request e.request) y.backend) (sym found)
                ∙ o,
            ap (λ (y : Shared S F). y.disk) found,
          ))

  status-IsConsistent :
      (sh : Shared S F) (d t : Threads S F) (i : ℕ) (e : RequestEnvelope) (r : Response)
      (o : Option (Result SchedulerStatus String × S))
      → IsConsistent b fs json requests responses state_path input sh d
      → d.phase i ≡ handled e r
      → b.status d.shared.backend ≡ o
      → after_status i e r d o ≡ some t
      → IsConsistent b fs json requests responses state_path input sh t
  status-IsConsistent sh d t i e r none s here o h = absurd (none_not_some t h)
  status-IsConsistent sh d t i e r (some (st, x)) s here o h =
      let mine : d.lock ≡ some i = s.exclusive i (ap in_section here) in
      let found : Within b fs json requests responses state_path input (handled e r) s.atomic
          d.shared =
        subst (λ p. Within b fs json requests responses state_path input p s.atomic d.shared) here
          (s.within i mine) in
      subst (IsConsistent b fs json requests responses state_path input sh) (some_injective _ t h) (
        inside-IsConsistent b fs json requests responses state_path input sh d i (reported e r st)
          (record d.shared { backend = x }) s (ap in_section here) refl
          (subst (Admitted b fs json requests responses state_path input i) here (s.admitted i))
          (sym (ap outcome here)) (d.shared.backend, found.0, o, found.1))

  saved_state :
      (e : RequestEnvelope) (r : Response) (st : Result SchedulerStatus String) (a sh : Shared S F)
      → Within b fs json requests responses state_path input (reported e r st) a sh
      → Within b fs json requests responses state_path input
          (saved e r)
          a
          (save b fs json requests responses state_path input st sh)
  unfolding persist persisted
  saved_state e r (err m) a sh (s, h, k, l) = ground arith
  saved_state e r (ok status) a sh (s, h, k, l) = ground arith

  release-handle_connection :
      (i : ℕ) (e : RequestEnvelope) (r : Response) (a sh : Shared S F)
      → admit b fs json requests responses state_path input (input i) ≡ inr e
      → Within b fs json requests responses state_path input (saved e r) a sh
      → handle_connection b fs json requests responses state_path (input i) a
        ≡ some (answer b fs json requests responses state_path input e r, sh)
  unfolding encode_response
  release-handle_connection i e r a sh h w =
      admit-passed b fs json requests responses state_path input (input i) e a h
      ∙ ap (reply b fs json requests responses state_path e) w

  pub advance_from-IsConsistent :
      (sh : Shared S F) (d t : Threads S F) (i : ℕ) (p : Phase)
      → IsConsistent b fs json requests responses state_path input sh d
      → d.phase i ≡ p
      → advance_from b fs json requests responses state_path input i d p ≡ some t
      → IsConsistent b fs json requests responses state_path input sh t
  advance_from-IsConsistent sh d t i reading s here h =
      read-IsConsistent sh d t i (admit b fs json requests responses state_path input (input i)) s
        here refl h
  advance_from-IsConsistent sh d t i (waiting e) s here h =
      acquire-IsConsistent sh d t i e d.lock s here refl h
  advance_from-IsConsistent sh d t i (holding e) s here h =
      request-IsConsistent sh d t i e (handle_request b (to_request e.request) d.shared.backend) s
        here refl h
  advance_from-IsConsistent sh d t i (handled e r) s here h =
      status-IsConsistent sh d t i e r (b.status d.shared.backend) s here refl h
  advance_from-IsConsistent sh d t i (reported e r st) s here h =
      let found : Within b fs json requests responses state_path input (reported e r st) s.atomic
          d.shared =
        subst (λ p. Within b fs json requests responses state_path input p s.atomic d.shared) here
          (s.within i (s.exclusive i (ap in_section here))) in
      subst (IsConsistent b fs json requests responses state_path input sh) (some_injective _ t h) (
        inside-IsConsistent b fs json requests responses state_path input sh d i (saved e r)
          (save b fs json requests responses state_path input st d.shared) s (ap in_section here)
          refl
          (subst (Admitted b fs json requests responses state_path input i) here (s.admitted i))
          (sym (ap outcome here)) (saved_state e r st s.atomic d.shared found))
  advance_from-IsConsistent sh d t i (saved e r) s here h =
      let found : Within b fs json requests responses state_path input (saved e r) s.atomic
          d.shared =
        subst (λ p. Within b fs json requests responses state_path input p s.atomic d.shared) here
          (s.within i (s.exclusive i (ap in_section here))) in
      subst (IsConsistent b fs json requests responses state_path input sh) (some_injective _ t h) (
        released-IsConsistent b fs json requests responses state_path input sh d i
          (answer b fs json requests responses state_path input e r) s (ap in_section here)
          (ap outcome here)
          (release-handle_connection i e r s.atomic d.shared
            (subst (Admitted b fs json requests responses state_path input i) here (s.admitted i))
            found))
  advance_from-IsConsistent sh d t i (finished out) s here h = absurd (none_not_some t h)
