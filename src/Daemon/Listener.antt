-- ===== src/Daemon/Listener.antt =====
-- services/cerynthd/src/server/listener.rs and signals.rs: the socket file and the accept loop. What is
-- printed is left out.
pub mod Lifetime
use cerynth_os.Base.{
  ℕ, String, Bool, true, false, Option, none, some, List, [], ◌∷◌, Result, ok, err, ◌≡◌,
}
use cerynth_os.Base.Disk.{and_next}

-- What the listener uses of the file system and of the kernel's sockets.
pub record Net (N : Type 0) : Type 0 where
  pub parent : String → Option String
  pub create_dir_all : String → N → Result (Unit {0}) String × N
  pub path_exists : String → N → Bool
  pub remove_file : String → N → Result (Unit {0}) String × N
  pub bind : String → N → Result (Unit {0}) String × N
  pub set_mode : String → ℕ → N → Result (Unit {0}) String × N

-- A file that was removed is not there.
pub record NetLaws {N : Type 0} (net : Net N) : Type 0 where
  pub removed :
      (path : String) (n : N)
      → (net.remove_file path n).0 ≡ ok tt
      → net.path_exists path (net.remove_file path n).1 ≡ false

-- What `select!` sees next: a connection, or the end of `wait_for_shutdown`, whatever its result.
pub data Event : Type 0 where
  accepted : Result ℕ String → Event
  shutdown : Result (Unit {0}) String → Event

-- `listening` is a loop that still waits.
pub data Ended : Type 0 where
  listening : Ended
  stopped : Result (Unit {0}) String → Ended

-- 0o660
abbrev pub socket_mode : ℕ
socket_mode = 432

module _ {N : Type 0} (net : Net N) (socket : String) where
  abbrev pub make_directory : Option String → N → Result (Unit {0}) String × N
  make_directory none n = (ok tt, n)
  make_directory (some parent) n = net.create_dir_all parent n

  abbrev pub remove_if : Bool → N → Result (Unit {0}) String × N
  remove_if true n = net.remove_file socket n
  remove_if false n = (ok tt, n)

  abbrev pub remove_stale : N → Result (Unit {0}) String × N
  remove_stale n = remove_if (net.path_exists socket n) n

  -- Up to the loop.
  unfoldable pub listen : N → Result (Unit {0}) String × N
  listen n = and_next (make_directory (net.parent socket) n) λ n₁.
      and_next (remove_stale n₁)
        λ n₂. and_next (net.bind socket n₂) λ n₃. net.set_mode socket socket_mode n₃

  -- The connections that were spawned, and how the loop has ended.
  unfoldable pub serve : List Event → N → List ℕ × Ended × N
  serve [] n = ([], listening, n)
  serve (accepted (ok stream) ∷ events) n =
      let rest = serve events n in (stream ∷ rest.0, rest.1, rest.2)
  serve (accepted (err e) ∷ events) n = ([], stopped (err e), n)
  serve (shutdown r ∷ events) n = ([], stopped (ok tt), (remove_stale n).1)

  abbrev pub served : List Event → Result (Unit {0}) String × N → List ℕ × Ended × N
  served events (err e, n) = ([], stopped (err e), n)
  served events (ok _, n) = serve events n

  unfoldable pub start_server : List Event → N → List ℕ × Ended × N
  unfolding listen serve
  start_server events n = served events (listen n)
