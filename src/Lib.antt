-- ===== src/Lib.antt =====
-- CerynthOS: a model of its daemon, its command-line client, its scheduling policy and the
-- user-space half of its scheduler, its telemetry, and what makes them correct.
--
-- The program. `cerynthctl` (cli/cerynthctl) turns a command line into a request, writes it as one
-- JSON line to a socket and prints the response. `cerynthd` (services/cerynthd) reads the request,
-- gives it to a backend under a lock, saves the state that the backend then reports and writes the
-- response. The backend is a mock or the process `cerynth-scx` (schedulers/cerynth-scx), which the
-- daemon starts, watches and stops; it counts as healthy while sched_ext is enabled and its
-- heartbeat file is fresh. `cerynth-scx` takes batches of tasks from the kernel, orders them by its
-- profile and gives them back. The policy (crates/cerynth-policy) recommends a profile from the
-- telemetry that crates/cerynth-telemetry reads from /proc.
--
-- The files. A function of the code is a definition of the same name in the module of its part,
-- with helpers for its branches and loops.
-- - Base: helpers. Numbers are natural numbers; subtraction on them stops at 0, as the code's
--   `saturating_sub` does, and 64-bit sums that may overflow are taken modulo 2 ^ 64.
-- - Ipc: crates/cerynth-ipc. Profiles and statuses, messages, envelopes, lines. `serde_json` is the
--   parameter `Codec`.
-- - Config: crates/cerynth-config. The file system is the parameter `Fs`, the encodings
--   `TextCodec`.
-- - Daemon: services/cerynthd, one connection: state, handlers, server. Exchange puts the client
--   and the daemon together; Guards is about what the daemon refuses; Contract is what the trait
--   `Backend` promises to it, and with which errors a status may fail. Listener is the socket file
--   and the accept loop of src/server/listener.rs; Threads has the connections that it spawns,
--   whose steps interleave in any order over the locked backend; its Conversation holds them
--   against the Contract.
-- - Scx: services/cerynthd/src/backends/scx.rs. `Os` is the operating system. Health and Backend
--   are the safety gate, Stop and Lifecycle the methods; Stopping, Starting, Running, Switching,
--   Gate, Serving and Interleaving are about them. Methods are operations on a `Machine`, the
--   backend and the world.
-- - Cli: cli/cerynthctl. Startup: services/cerynthd/src/main.rs and paths.rs; Main is its `main`,
--   which puts the configuration, the backends and the listener together.
-- - Sched: schedulers/cerynth-scx. Order is src/policy.rs, Ring, OpsName and Khugepaged are
--   src/bpf.rs, Dispatch and Loop are the dispatch round and the run loop of src/main.rs with the
--   counters of src/status.rs, in which `none` is a panic, Status is the status record, Reporter is
--   src/reporter.rs. Files is how the status files are written. Lifetime is the process from its
--   start to its end: the set-up of src/bpf.rs in the order of src/initialization.rs, the restarts,
--   and what goes out of scope on each way out. It keeps a log of what is done to the system, in
--   which a panic is an outcome of its own; Flags is about the shutdown flags of the runs and the
--   handler of Ctrl-C.
-- - Policy: crates/cerynth-policy/src/lib.rs. Floating-point numbers are the parameter `Float64`,
--   with the laws of comparison in `FloatLaws`. Live, Replay and Report are the binaries of
--   src/bin; Pipeline is about a replay and the report on its file. Directories are the parameter
--   `Directories`.
-- - Telemetry: crates/cerynth-telemetry. Samples parses /proc/stat and /proc/meminfo, Processes
--   scans the processes, Lifetimes knows when they were first seen, Collect is `collect`, Record
--   the recorder of src/bin. The files, the directory and the clocks are the parameter `Proc`.
-- - Examples: instances of the parameters, and the theorems at concrete inputs.
--
-- Bounds. The polling loops of `wait_until_healthy` and `stop` run on a number of rounds: one for
-- each 100 ms of the deadline, and one more. A round that does not end the loop sleeps for 100 ms,
-- so that on a clock that never runs backwards (`Clocked`) the deadline passes before the rounds
-- do. The collecting loop of the dispatch round has the limit of the code, 64. The run loop is cut
-- off after a number of turns that is an argument, as is the number of restarts; a process that is
-- cut off has an outcome of its own, `unfinished`. The loops of the reporting process and of the
-- live policy are cut off in the same way, and the report's walk below a number of levels, of which
-- enough are given where they end every chain of directories (`IsFinite`). The threads have no
-- bound.
--
-- Not modelled: the BPF program, which runs in the kernel, and most of the flags that its set-up
-- writes; the parsing of arguments by `clap`; and what is only printed, but for the client and the
-- report.
pub mod Base
pub mod Ipc
pub mod Config
pub mod Daemon
pub mod Scx
pub mod Cli
pub mod Startup
pub mod Sched
pub mod Policy
pub mod Telemetry
mod Examples
