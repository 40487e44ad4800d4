-- ===== src/Daemon/Listener/Lifetime.antt =====
-- services/cerynthd/src/server/listener.rs: the socket file, from bind to shutdown.
use cerynth_os.Base.{
  ℕ, ◌≡◌, refl, ap, String, Bool, true, false, List, [], ◌∷◌, ◌++◌, Result, ok, err, arith, map,
}
use cerynth_os.Base.Disk.{and_next}
use cerynth_os.Daemon.Listener.{
  Net, NetLaws, Event, accepted, shutdown, stopped, socket_mode, make_directory, remove_if,
  remove_stale, listen, serve,
}

module _ {N : Type 0} (net : Net N) (laws : NetLaws net) (socket : String) where
  -- The listener was bound where no file was, and its mode is set.
  pub record IsListening (n : N) : Type 0 where
    pub before : N
    pub bound : N
    pub vacant : net.path_exists socket before ≡ false
    pub binds : net.bind socket before ≡ (ok tt, bound)
    pub restricts : net.set_mode socket socket_mode bound ≡ (ok tt, n)

  remove_if-vacant :
      (there : Bool) (n m : N)
      → net.path_exists socket n ≡ there
      → remove_if net socket there n ≡ (ok tt, m)
      → net.path_exists socket m ≡ false
  remove_if-vacant true n m e h = ground (arith, laws.removed socket n)
  remove_if-vacant false n m e h = cc

  bind-IsListening :
      (n m : N) (r : Result (Unit {0}) String) (n₃ : N)
      → net.path_exists socket n ≡ false
      → net.bind socket n ≡ (r, n₃)
      → and_next (r, n₃) (λ x. net.set_mode socket socket_mode x) ≡ (ok tt, m)
      → IsListening m
  bind-IsListening n m (err e) n₃ free b h = absurd (cc)
  bind-IsListening n m (ok _) n₃ free b h = record {
    before = n;
    bound = n₃;
    vacant = free;
    binds = b;
    restricts = h;
  }

  stale-IsListening :
      (n m : N) (r : Result (Unit {0}) String) (n₂ : N)
      → remove_stale net socket n ≡ (r, n₂)
      → and_next
          (r, n₂)
          (λ x. and_next (net.bind socket x) (λ y. net.set_mode socket socket_mode y))
        ≡ (ok tt, m)
      → IsListening m
  stale-IsListening n m (err e) n₂ s h = absurd (cc)
  stale-IsListening n m (ok _) n₂ s h =
      bind-IsListening n₂ m (net.bind socket n₂).0 (net.bind socket n₂).1
        (remove_if-vacant (net.path_exists socket n) n n₂ refl s) refl h

  made-IsListening :
      (m : N) (made : Result (Unit {0}) String × N)
      → and_next made (λ x.
        and_next
          (remove_stale net socket x)
          (λ y. and_next (net.bind socket y) (λ z. net.set_mode socket socket_mode z)))
        ≡ (ok tt, m)
      → IsListening m
  made-IsListening m (err e, n₁) h = absurd (cc)
  made-IsListening m (ok _, n₁) h =
      stale-IsListening n₁ m (remove_stale net socket n₁).0 (remove_stale net socket n₁).1 refl h

  -- If the set-up of the listener succeeds, it was bound where no file was, and after that the
  -- mode of the socket file was set to 0o660.
  pub listen-IsListening : (n m : N) → listen net socket n ≡ (ok tt, m) → IsListening m
  unfolding listen
  listen-IsListening n m h = made-IsListening m (make_directory net socket (net.parent socket) n) h

  remove_if-vacated :
      (there : Bool) (n : N)
      → net.path_exists socket n ≡ there
      → (there ≡ true → (net.remove_file socket n).0 ≡ ok tt)
      → net.path_exists socket (remove_if net socket there n).1 ≡ false
  remove_if-vacated true n e h = laws.removed socket n (h refl)
  remove_if-vacated false n e h = e

  -- When connections were accepted and then the wait for the signal ended, whatever its result,
  -- exactly these connections were spawned, the server stops without an error, and the socket
  -- file is gone, if removing it works when it is there.
  pub serve_shutdown :
      (streams : List ℕ) (r : Result (Unit {0}) String) (late : List Event) (n : N)
      → (net.path_exists socket n ≡ true → (net.remove_file socket n).0 ≡ ok tt)
      → let (spawned, ended, m) =
          serve net socket (map (λ s. accepted (ok s)) streams ++ (shutdown r ∷ late)) n in
        (spawned ≡ streams) × (ended ≡ stopped (ok tt)) × (net.path_exists socket m ≡ false)
  unfolding serve
  serve_shutdown [] r late n h = (refl, refl, remove_if-vacated (net.path_exists socket n) n refl h)
  serve_shutdown (s ∷ streams) r late n h =
      let (a, b, c) = serve_shutdown streams r late n h in (ap (◌∷◌ s) a, b, c)
