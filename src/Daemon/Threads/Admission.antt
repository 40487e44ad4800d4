-- ===== src/Daemon/Threads/Admission.antt =====
-- services/cerynthd/src/server/listener.rs and connection.rs: what a connection does before the lock.

use cerynth_os.Base.{
  ℕ, ◌≡◌, inl, inr, String, some, List, [], ◌∷◌, Result, ok, err, arith, Result-cases,
}
use cerynth_os.Ipc.Messages.{to_request}
use cerynth_os.Ipc.Envelopes.{RequestEnvelope, ResponseEnvelope}
use cerynth_os.Ipc.Frames.{Codec}
use cerynth_os.Config.Files.{Fs, TextCodec}
use cerynth_os.Config.Settings.{RuntimeState}
use cerynth_os.Daemon.State.{Backend}
use cerynth_os.Daemon.Handlers.{handle_request}
use cerynth_os.Daemon.Server.{
  Shared, Served, decode_request, persist_after, reply, serve_envelope, handle_connection,
}
use cerynth_os.Daemon.Threads.{supported, admit}

module _ {S F : Type 0} (b : Backend S) (fs : Fs F) (json : TextCodec RuntimeState)
    (requests : Codec RequestEnvelope) (responses : Codec ResponseEnvelope) (state_path : String)
    (input : ℕ → Result (List ℕ) String) where
  supported-closed :
      (e : RequestEnvelope) (out : Served) (a : Shared S F)
      → supported b fs json requests responses state_path input e ≡ inl out
      → serve_envelope b fs json requests responses state_path e a ≡ some (out, a)
  unfolding serve_envelope
  supported-closed e out a h = ground arith

  supported-passed :
      (e o : RequestEnvelope) (a : Shared S F)
      → supported b fs json requests responses state_path input e ≡ inr o
      → serve_envelope b fs json requests responses state_path e a
        ≡ reply b fs json requests responses state_path o (
            persist_after b fs json requests responses state_path a.disk
              (handle_request b (to_request o.request) a.backend))
  unfolding serve_envelope
  supported-passed e o a h = ground arith

  pub admit-closed :
      (inp : Result (List ℕ) String) (out : Served) (a : Shared S F)
      → admit b fs json requests responses state_path input inp ≡ inl out
      → handle_connection b fs json requests responses state_path inp a ≡ some (out, a)
  unfolding admit handle_connection
  admit-closed (err e) out a h = cc
  admit-closed (ok []) out a h = cc
  admit-closed (ok (x ∷ xs)) out a h =
      elim (Result-cases (decode_request b fs json requests responses state_path (x ∷ xs))) [
        | inl (e, k) ↦ ground (arith, supported-closed e out a)
        | inr (m, k) ↦ ground arith
      ]

  pub admit-passed :
      (inp : Result (List ℕ) String) (e : RequestEnvelope) (a : Shared S F)
      → admit b fs json requests responses state_path input inp ≡ inr e
      → handle_connection b fs json requests responses state_path inp a
        ≡ reply b fs json requests responses state_path e (
            persist_after b fs json requests responses state_path a.disk
              (handle_request b (to_request e.request) a.backend))
  unfolding admit handle_connection
  admit-passed (err e) o a h = cc
  admit-passed (ok []) o a h = cc
  admit-passed (ok (x ∷ xs)) o a h =
      elim (Result-cases (decode_request b fs json requests responses state_path (x ∷ xs))) [
        | inl (e, k) ↦ ground (arith, supported-passed e o a)
        | inr (m, k) ↦ ground arith
      ]
