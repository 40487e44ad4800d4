-- ===== src/Daemon/Threads/Upkeep.antt =====
-- services/cerynthd/src/server/listener.rs and connection.rs: what every call of the backend preserves
-- is preserved by the threads.
use mathlib.Core.Path.{subst}
use cerynth_os.Base.{ℕ, ◌≡◌, ◌⊎◌, inl, inr, String, Option, none, some, List, Result, ok, err}
use cerynth_os.Ipc.Messages.{Request, to_request, Response}
use cerynth_os.Ipc.Envelopes.{RequestEnvelope, ResponseEnvelope}
use cerynth_os.Ipc.Frames.{Codec}
use cerynth_os.Ipc.Profiles.{SchedulerStatus}
use cerynth_os.Config.Files.{Fs, TextCodec}
use cerynth_os.Config.Settings.{RuntimeState}
use cerynth_os.Daemon.State.{Backend}
use cerynth_os.Daemon.Handlers.{handle_request}
use cerynth_os.Daemon.Server.{Shared, Served}
use cerynth_os.Daemon.Threads.{
  Phase, reading, waiting, holding, handled, reported, saved, finished, Threads, goto, finish,
  acquire, after_request, after_status, admit, after_read, save, advance_from, advance, Reach,
  begun, stepped,
}
use cerynth_os.Daemon.Threads.Invariant.{some_injective, none_not_some}

-- The call comes to an end, in a state of which `I` holds.
abbrev pub Stays : {A S : Type 0} → (S → Type 0) → Option (A × S) → Type 0
Stays I none = ⊥
Stays I (some (a, s)) = I s

module _ {S F : Type 0} (b : Backend S) (fs : Fs F) (json : TextCodec RuntimeState)
    (requests : Codec RequestEnvelope) (responses : Codec ResponseEnvelope) (state_path : String)
    (input : ℕ → Result (List ℕ) String) (I : S → Type 0)
    (answers : (r : Request) (s : S) → I s → Stays I (handle_request b r s))
    (reports : (s : S) → I s → Stays I (b.status s)) where
  abbrev Kept : Threads S F → Type 0
  Kept d = I d.shared.backend

  read-Kept :
      (i : ℕ) (d t : Threads S F) (r : Served ⊎ RequestEnvelope)
      → Kept d
      → after_read b fs json requests responses state_path input i d r ≡ some t
      → Kept t
  read-Kept i d t (inl out) k h = subst Kept (some_injective (finish i out d) t h) k
  read-Kept i d t (inr e) k h = subst Kept (some_injective (goto i (waiting e) d) t h) k

  acquire-Kept :
      (i : ℕ) (e : RequestEnvelope) (l : Option ℕ) (d t : Threads S F)
      → Kept d
      → acquire i e l d ≡ some t
      → Kept t
  acquire-Kept i e none d t k h = subst Kept (some_injective _ t h) k
  acquire-Kept i e (some j) d t k h = absurd (none_not_some t h)

  request-Kept :
      (i : ℕ) (e : RequestEnvelope) (d t : Threads S F) (o : Option (Response × S))
      → Stays I o
      → after_request i e d o ≡ some t
      → Kept t
  request-Kept i e d t none k h = absurd k
  request-Kept i e d t (some (r, s)) k h = subst Kept (some_injective _ t h) k

  status-Kept :
      (i : ℕ) (e : RequestEnvelope) (r : Response) (d t : Threads S F)
      (o : Option (Result SchedulerStatus String × S))
      → Stays I o
      → after_status i e r d o ≡ some t
      → Kept t
  status-Kept i e r d t none k h = absurd k
  status-Kept i e r d t (some (st, s)) k h = subst Kept (some_injective _ t h) k

  save-Kept :
      (st : Result SchedulerStatus String) (sh : Shared S F)
      → I sh.backend
      → I (save b fs json requests responses state_path input st sh).backend
  save-Kept (err e) sh k = k
  save-Kept (ok status) sh k = k

  advance_from-Kept :
      (i : ℕ) (d t : Threads S F) (p : Phase)
      → Kept d
      → advance_from b fs json requests responses state_path input i d p ≡ some t
      → Kept t
  advance_from-Kept i d t reading k h =
      read-Kept i d t (admit b fs json requests responses state_path input (input i)) k h
  advance_from-Kept i d t (waiting e) k h = acquire-Kept i e d.lock d t k h
  advance_from-Kept i d t (holding e) k h =
      request-Kept i e d t (handle_request b (to_request e.request) d.shared.backend)
        (answers (to_request e.request) d.shared.backend k) h
  advance_from-Kept i d t (handled e r) k h =
      status-Kept i e r d t (b.status d.shared.backend) (reports d.shared.backend k) h
  advance_from-Kept i d t (reported e r st) k h =
      subst Kept (some_injective _ t h) (save-Kept st d.shared k)
  advance_from-Kept i d t (saved e r) k h = subst Kept (some_injective _ t h) k
  advance_from-Kept i d t (finished out) k h = absurd (none_not_some t h)

  pub Reach-Kept :
      (sh : Shared S F) (d : Threads S F)
      → I sh.backend
      → Reach b fs json requests responses state_path input sh d
      → I d.shared.backend
  unfolding advance
  Reach-Kept sh _ k begun = k
  Reach-Kept sh _ k (stepped {d} {t} i r h) =
      advance_from-Kept i d t (d.phase i) (Reach-Kept sh d k r) h
