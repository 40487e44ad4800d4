-- ===== src/Daemon/Threads/Conversation.antt =====
-- services/cerynthd/src/server/listener.rs and connection.rs: what the clients of the threads are told, and
-- what is saved, over a backend that keeps the contract of the trait.
use mathlib.Core.Path.{subst}
use cerynth_os.Base.{
  ℕ, ◌≡◌, refl, sym, ap, ◌∙◌, ◌⊎◌, inl, inr, String, Option, none, some, List, [], ◌∷◌, Result, ok,
  err,
}
use cerynth_os.Ipc.Messages.{Request, to_request, Response, to_socket_response}
use cerynth_os.Ipc.Envelopes.{
  protocol_version, RequestEnvelope, ResponseEnvelope, response_for_request,
}
use cerynth_os.Ipc.Frames.{Codec, to_line}
use cerynth_os.Ipc.Profiles.{SchedulerStatus}
use cerynth_os.Config.Files.{Fs, TextCodec}
use cerynth_os.Config.Settings.{RuntimeState, save_state}
use cerynth_os.Daemon.Contract.{
  Settings, Step, told_status, no_status, told_profile, switched, not_switched, paused, resumed,
  started, stopped, restarted, Obeys, Refines,
}
use cerynth_os.Daemon.State.{Backend}
use cerynth_os.Daemon.Handlers.{with_status, respond, handle_request}
use cerynth_os.Daemon.Server.{
  Shared, Served, replied, encode_response, state_of_status, persisted, persist, persist_after,
  reply, handle_connection,
}
use cerynth_os.Daemon.Threads.{Threads, Reach, admit, answer, Sequential, idle, served}
use cerynth_os.Daemon.Threads.Invariant.{some_injective, replies_of, outcome}
use cerynth_os.Daemon.Threads.Admission.{admit-closed, admit-passed}
use cerynth_os.Daemon.Threads.Serial.{Reach-IsSerial}

-- A status has the settings that it is asked for.
abbrev pub HasSettings : Settings → SchedulerStatus → Type 0
HasSettings s report =
    (report.profile ≡ s.profile) × (report.adaptation_enabled ≡ s.adaptation_enabled)

abbrev TellsStatus : Settings → Response → Type 0
TellsStatus s (Response.status report) = HasSettings s report
TellsStatus s (Response.profile p) = Unit
TellsStatus s Response.success = Unit
TellsStatus s (Response.error e) = Unit

Step-TellsStatus :
    (Fault : String → Type 0) (s u : Settings) (q : Request) (a : Response)
    → Step Fault s q a u
    → q ≡ Request.status
    → (u ≡ s) × TellsStatus s a
Step-TellsStatus Fault s u q a (told_status p e) h = (refl, (p, e))
Step-TellsStatus Fault s u q a (no_status f) h = (refl, tt)
Step-TellsStatus Fault s u q a (told_profile p) h = absurd (cc)
Step-TellsStatus Fault s u q a switched h = absurd (cc)
Step-TellsStatus Fault s u q a (not_switched p) h = absurd (cc)
Step-TellsStatus Fault s u q a paused h = absurd (cc)
Step-TellsStatus Fault s u q a resumed h = absurd (cc)
Step-TellsStatus Fault s u q a (started p) h = absurd (cc)
Step-TellsStatus Fault s u q a (stopped p) h = absurd (cc)
Step-TellsStatus Fault s u q a (restarted p) h = absurd (cc)

module _ {S F : Type 0} (b : Backend S) (fs : Fs F) (json : TextCodec RuntimeState)
    (requests : Codec RequestEnvelope) (responses : Codec ResponseEnvelope) (state_path : String)
    (input : ℕ → Result (List ℕ) String) (Fault : String → Type 0) where
  -- The line of a response of the current version, with the correlation id of the request.
  abbrev pub current_reply : RequestEnvelope → Response → Served
  current_reply e a = replied (
      to_line responses (record {
        version = protocol_version;
        correlation_id = e.correlation_id;
        response = to_socket_response a;
      }))

  answer-current_reply :
      (e : RequestEnvelope) (a : Response)
      → answer b fs json requests responses state_path input e a ≡ current_reply e a
  unfolding encode_response response_for_request
  answer-current_reply e a = refl

  -- The state file after a request: as it was, or written from a status with these settings.
  pub data Saves (s : Settings) (f : F) : F → Type 0 where
    untouched : Saves s f f
    written :
        {g : F} (report : SchedulerStatus)
        → HasSettings s report
        → g ≡ save_state fs json (state_of_status report) state_path f
        → Saves s f g

  -- The outcomes of connections, the latest first, by the contract alone: from the settings and the
  -- files at the beginning to those in the end.
  pub data Conversation (s₀ : Settings) (f₀ : F) : List (ℕ × Served) → Settings → F → Type 0 where
    opened : Conversation s₀ f₀ [] s₀ f₀
    refused :
        {log : List (ℕ × Served)} {s : Settings} {f : F} (i : ℕ) (out : Served)
        → Conversation s₀ f₀ log s f
        → admit b fs json requests responses state_path input (input i) ≡ inl out
        → Conversation s₀ f₀ ((i, out) ∷ log) s f
    answered :
        {log : List (ℕ × Served)} {s u : Settings} {f g : F} (i : ℕ) (e : RequestEnvelope)
        (a : Response) (out : Served)
        → Conversation s₀ f₀ log s f
        → admit b fs json requests responses state_path input (input i) ≡ inr e
        → Step Fault s (to_request e.request) a u
        → Saves u f g
        → out ≡ current_reply e a
        → Conversation s₀ f₀ ((i, out) ∷ log) u g

  module _ (I : S → Type 0) (view : S → Settings) (refines : Refines Fault I view b) where
    -- The status call after a request, and what it saves.
    abbrev IsPersisted : Response → S → F → Option (Response × Shared S F) → Type 0
    IsPersisted a s f none = ⊥
    IsPersisted a s f (some (a', sh)) =
        (a' ≡ a) × (view sh.backend ≡ view s) × I sh.backend × Saves (view s) f sh.disk

    status-IsPersisted :
        (a : Response) (s : S) (f : F) (o : Option (Result SchedulerStatus String × S))
        → Obeys Fault I view (view s) Request.status (respond with_status o)
        → IsPersisted a s f (persisted b fs json requests responses state_path a f o)
    unfolding with_status persisted
    status-IsPersisted a s f none h = absurd h
    status-IsPersisted a s f (some (err e, t)) (step, k) =
        let (same, tells) = Step-TellsStatus Fault (view s) (view t) Request.status _ step refl in
        (refl, same, k, untouched)
    status-IsPersisted a s f (some (ok report, t)) (step, k) =
        let (same, tells) = Step-TellsStatus Fault (view s) (view t) Request.status _ step refl in
        (refl, same, k, written report tells refl)

    persist-IsPersisted :
        (a : Response) (s : S) (f : F)
        → I s
        → IsPersisted a s f
            (persist b fs json requests responses state_path a (record { backend = s; disk = f }))
    unfolding persist handle_request
    persist-IsPersisted a s f k =
        status-IsPersisted a s f (b.status s) (refines.obeys Request.status s k)

    -- The request of an envelope is answered as the contract says.
    abbrev IsAnswered : RequestEnvelope → Shared S F → Option (Served × Shared S F) → Type 0
    IsAnswered e sh none = ⊥
    IsAnswered e sh (some (out, t)) =
        (a : Response) × Step Fault (view sh.backend) (to_request e.request) a (view t.backend)
        × Saves (view t.backend) sh.disk t.disk
        × (out ≡ answer b fs json requests responses state_path input e a)
        × I t.backend

    reply-IsAnswered :
        (e : RequestEnvelope) (sh : Shared S F) (a : Response) (s : S)
        (o : Option (Response × Shared S F))
        → Step Fault (view sh.backend) (to_request e.request) a (view s)
        → IsPersisted a s sh.disk o
        → IsAnswered e sh (reply b fs json requests responses state_path e o)
    reply-IsAnswered e sh a s none step h = absurd h
    reply-IsAnswered e sh a s (some (a', t)) step (same, kept, k, saves) = (
      a,
      subst (λ u. Step Fault (view sh.backend) (to_request e.request) a u) (sym kept) step,
      subst (λ u. Saves u sh.disk t.disk) (sym kept) saves,
      ap (answer b fs json requests responses state_path input e) same,
      k,
    )

    request-IsAnswered :
        (e : RequestEnvelope) (sh : Shared S F) (o : Option (Response × S))
        → Obeys Fault I view (view sh.backend) (to_request e.request) o
        → IsAnswered e sh (
            reply b fs json requests responses state_path e
              (persist_after b fs json requests responses state_path sh.disk o))
    request-IsAnswered e sh none h = absurd h
    request-IsAnswered e sh (some (a, s)) (step, k) =
        reply-IsAnswered e sh a s _ step (persist-IsPersisted a s sh.disk k)

    module _ (sh : Shared S F) where
      abbrev Converses : List (ℕ × Served) → Shared S F → Type 0
      Converses log t =
          Conversation (view sh.backend) sh.disk log (view t.backend) t.disk × I t.backend

      served-Converses :
          (i : ℕ) (out : Served) (log : List (ℕ × Served)) (a t : Shared S F)
          (r : Served ⊎ RequestEnvelope)
          → admit b fs json requests responses state_path input (input i) ≡ r
          → handle_connection b fs json requests responses state_path (input i) a ≡ some (out, t)
          → Converses log a
          → Converses ((i, out) ∷ log) t
      served-Converses i out log a t (inl o) h ends (talk, k) =
          let e =
            some_injective (o, a) (out, t)
              (sym (admit-closed b fs json requests responses state_path input (input i) o a h)
                ∙ ends) in
          subst (λ (p : Served × Shared S F). Converses ((i, p.0) ∷ log) p.1) e
            (refused i o talk h, k)
      served-Converses i out log a t (inr e) h ends (talk, k) =
          let passed = admit-passed b fs json requests responses state_path input (input i) e a h in
          let (r, step, saves, same, k') =
            subst (IsAnswered e a) (sym passed ∙ ends)
              (request-IsAnswered e a _ (refines.obeys (to_request e.request) a.backend k)) in
          (answered i e r out talk h step saves (same ∙ answer-current_reply e r), k')

      Sequential-Converses :
          (log : List (ℕ × Served)) (t : Shared S F)
          → I sh.backend
          → Sequential b fs json requests responses state_path input sh log t
          → Converses log t
      Sequential-Converses _ _ k idle = (opened, k)
      Sequential-Converses _ t k (served {log} {a} i out before h) =
          served-Converses i out log a t _ refl h (Sequential-Converses log a k before)

      -- Over a backend that keeps the contract: the outcomes so far are those of a conversation,
      -- which has led to the settings and the files that are shared whenever the lock is free.
      pub Reach-Conversation :
          (d : Threads S F)
          → I sh.backend
          → Reach b fs json requests responses state_path input sh d
          → (a : Shared S F) × Conversation (view sh.backend) sh.disk d.log (view a.backend) a.disk
            × (d.lock ≡ none → d.shared ≡ a)
            × ((j : ℕ) → replies_of j d.log ≡ outcome (d.phase j))
      Reach-Conversation d k r =
          let s = Reach-IsSerial b fs json requests responses state_path input sh d r in
          (s.atomic, (Sequential-Converses d.log s.atomic k s.sequential).0, s.settled, s.answers)
