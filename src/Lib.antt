-- ===== src/Lib.antt =====
-- Spawngate, a reverse proxy that starts backend processes on demand.
--
-- A request comes to the proxy (src/proxy.rs), which finds the hostname of its backend, has the
-- process manager (src/process.rs) start that backend if it is not running, waits until it is
-- ready, and forwards the request. The manager keeps the state of each backend, counts the requests
-- in flight for it, and stops it when it is idle, unhealthy, or taken out of the configuration
-- (src/config.rs).
--
-- - Base: texts as lists of character codes, association lists, decimal numbers, results.
-- - Config: src/config.rs. Defaults, Backend, Server and Load hold the records, their default values
--   and accessors, and the validation (`validate_backend` is `BackendConfig::validate`, `validate`
--   and `load` are those of `Config`); Validity is about what validates.
-- - Process: src/process.rs. State is the manager and its readers; Ops has each method that changes
--   one backend under its lock; Steps makes them the steps of the tasks that share the manager, so
--   that a run is a list of operations in any order. Launch and Start are the ways to start a
--   backend, Stop is `stop_backend`, Cleanup the loops over all backends, Health the checks, their
--   two loops and the restart, and Reload the change of the configuration. Invariant, Lifecycle,
--   Settings, Counters, InFlight, Starting, Startup, Draining, Idle, Cleaning, Serving, Monitoring,
--   Probing and Reloading hold the proofs. Abstract is the specification of one backend that the manager refines: its status, and
--   what each operation on it makes of that. Containers puts the Docker manager in the
--   place of what starts containers.
-- - Error: src/error.rs; Codes holds the proofs.
-- - Proxy: src/proxy.rs. Http is what the code takes from the HTTP library; Hostname, Ready, Parse,
--   Upgrade and Request are the functions behind `handle_request`; Hostnames, Headers, Refusals,
--   Forwarding, Upgrading, Counting, Leaking, Waiting, ColdStart and Polled hold the proofs, with RoundTrip below Parse
--   for a response that is read back, and Raw below Upgrade for the text of a request.
-- - Server: the accept loops, of `ProxyServer::run` in src/proxy.rs and of `AdminServer::run` in
--   src/admin.rs, as one machine over what happens next, with the service of a connection as its
--   parameter. Proxying is the proxy server with `handle_connection`, Administration the admin server
--   with `serve_admin_connection`; Loop, Redirects and Stopping hold proofs.
-- - DockerManager: src/docker.rs. Connect is `DockerManager::new`, Pull the pull policy, Container
--   `start_container`, Ending the calls that stop a container, Memory the limits, and Logs is
--   `stream_logs`. Names, Checks and
--   Units hold the proofs.
-- - Acme: src/acme.rs. Library is what the code takes from its libraries, Action the effects;
--   Challenges has the challenges and the TLS resolver, Certificate the keys and the validity, Order
--   the steps of `obtain_certificate` with its waits, and Manager the account, the cache and the
--   renewal loop of `AcmeManager`. Kept, Serving, Agreement, Renewal, Cleanup, Halting, Termination,
--   Endless, Answers and Validity hold the proofs.
-- - Pool: src/pool.rs, the requests that are sent to backends and their counts; Wire is about what a
--   backend gets.
-- - Main: src/main.rs. Tls chooses the certificates, Servers the servers, and Signals has the signal
--   loop, the cleanup loop and the PID file, and Exit the end of `main`. Connections is how the proxy
--   server (src/proxy.rs) hands a connection to the request handler. Wiring, Challenges and Shutdown hold
--   the proofs.
-- - Admin: src/admin.rs, the requests that backends and operators make; Guard holds the proofs.
-- - Tests: the theorems at concrete inputs.
--
-- Concurrency. Each method of Process/Ops holds the lock of one backend and is one step. Where an
-- async function gives way, the lists of operations in `Weather`, `Waits` and `Context` are what
-- other tasks do in the meantime; reads that follow one another without a wait are taken at one
-- moment, but for those that `stop_backend` makes before and after its mark. A stop meets one
-- `Weather` for its hostname, in each reload, in each cleanup and at the end of the program. The in-flight counter
-- of a process is shared by reference, so counters live on a heap and a process holds the address of
-- its own. The drain loop keeps that address while other tasks replace the process.
--
-- Numbers. Times are numbers of milliseconds. In-flight counters wrap at 2^64, the count of health
-- failures at 2^32. The health loops are looked at for a given list of rounds. The drain loop runs
-- on fuel: `drain_fuel` is the timeout in polls of 50 ms and 2 more, which is enough as each sleep
-- lasts at least as long as it is asked to. The three waits of `obtain_certificate` count 30 attempts
-- and run on fuel, of which 31 rounds are enough where each round counts; an outcome `unfinished`
-- is a wait that goes on. The renewal loop and the signal loop run over the list of what wakes them, and so
-- do the accept loops.
--
-- Parameters. The operating system and the Docker manager that the process manager calls are a
-- `Launcher`, the values and names of headers of the HTTP library are `HeaderValues`, its client is an
-- `HttpClient`, and the TOML parser is an argument of `load`. The Docker client library is a `Client` on
-- a daemon of any type, its connections a `Host`, and floating-point numbers are `Floats`. The ACME
-- server, the files, the clock and the TLS libraries are the `Library` of Acme, on a world of any type;
-- for the start of the program they are the `Host` of Main. The answers of a backend are values of the
-- context.
--
-- Not modelled: logging (but for the lines of `stream_logs`) with the startup banner of src/main.rs, the
-- sockets and the copying of bytes, the JSON texts that `serde_json` writes, the connections that the pool
-- keeps, and the spawning of tasks. The requests of a connection are taken one at a time; what runs beside
-- a request is part of its context, and a request is never dropped while it is forwarded, as it is when its
-- client disconnects. Of the Docker calls that the process manager makes at a stop, it is
-- told whether the first one succeeded, on which the kill depends; the code only logs the others. The
-- resolver of certificates is a plain function, without the locks that it reads.
pub mod Base
pub mod Config
pub mod Process
pub mod Error
pub mod DockerManager
pub mod Acme
pub mod Proxy
pub mod Pool
pub mod Main
pub mod Admin
pub mod Server
mod Tests
