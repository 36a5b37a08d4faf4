-- ===== src/Lib.antt =====
-- llm-conduit: a gateway in front of LLM upstreams. A caller presents one key; the gateway reads the
-- request body, picks an upstream by the model, exchanges the credentials, forwards the request and
-- streams the response back, while it meters the body and reads the token counters out of it.
--
-- Which file models which part (paths from the repository's root):
--   Prelude          options, results, lists, texts, ordered maps; no part of the program
--   Serde            the crate serde_json as src/json_model.rs and src/usage.rs call it
--   Json             JSON values, of which serde_json makes what the gateway itself answers
--   Http, Body       the crates http, hyper and http-body-util: headers, addresses, bodies
--   Errors           src/error.rs; Errors.Payload: the body of into_response, and Display
--   Config           src/config.rs: Config::validate, Upstream::from_config and target_uri,
--                    resolve_upstreams; Config.Load: the defaults and Config::load
--   Auth             src/auth.rs: authenticate, extract_key, strip_bearer
--   JsonModel        src/json_model.rs: extract_model, try_rewrite_model
--   Usage            src/usage.rs: Types (counters), Merge (merge_usage over a response), Candidates
--                    (the iterator Candidates, find and trim), Scanner (UsageScanner), Effort
--                    (extract_effort), Request (extract_request_usage)
--   Proxy            src/proxy.rs: read_body, copy_headers, build_request, forward
--   RequestId        src/observe.rs: request_id, generate_request_id
--   Observe          src/observe.rs: RequestLog, MeteredBody
--   Health           src/health.rs: HealthState, readyz, the probes; Health.Pass: a pass of probe_loop;
--                    Health.Loop: the loop over its passes; Health.Answer: healthz, readyz's response
--   Gateway          src/gateway.rs: handle behind the health endpoints, dispatch; Gateway.Probe:
--                    RequestProbe, UsageObserver;
--                    Gateway.New: Gateway::new, spawn_health_prober; Gateway.Models: models_json;
--                    Gateway.Serve: health_response and the whole of Gateway::handle
--   Tls              src/tls.rs: load_server_config, build_client, NoVerifier
--   Server           src/server.rs: run, serve and the shutdown, as a relation between states
--   Main             src/main.rs: run up to the accept loop, and what main makes of its end;
--                    Main.Process: the arguments of Cli, and the process up to its exit code
--   System           the server of src/server.rs and the probe loop of src/health.rs together
--   Tests            small instances of the crates, and the theorems at concrete inputs
--
-- Crates, files and sockets are parameters: records of operations (SerdeJson, Headers, Uris, Client,
-- Network, Pem, Crypto, Https, ConfigFiles, Host, Clap) with their documented behaviour in records of
-- laws (SerdeLaws, HeaderLaws). Bytes and texts are lists of numbers, code points for texts. Errors
-- of `Result` are values; the mutable state of the scanner and the meter is passed explicitly. A body
-- is the list of what polling it gives.
--
-- Machine integers: token counters and byte counters are u64; the sum of two counters and the count
-- of bytes wrap modulo 2^64, as in a release build. Lengths of buffers in memory are below 2^63, so
-- their sums do not wrap.
--
-- Fuel: the loop over the candidates of a frame has one round more than the frame has bytes; every
-- round takes a byte at least. Decimal printing has 20 rounds, enough for numbers below 2^64.
--
-- Concurrency: the tasks of the server and the probes of a pass run concurrently. A state of the
-- server takes any step that a task is ready for, and a pass records its probes in any order. In
-- System a step of the server, which reads the health of the upstreams, or a turn of the probe loop,
-- which writes it, may come next; both hold its lock for that step alone. Of hyper_util's
-- GracefulShutdown it is kept that it tells the watched connections to close behind the request they
-- are at, and that it waits until no watcher is left. A probe that never returns keeps its pass from
-- ending. What happens behind the end of the accept loop is bounded by a weight of the state.
--
-- Clock: where the source asks for the time, the instant is an argument, a number of nanoseconds for
-- the duration of a request, of seconds for a probe or a listing.
--
-- Not modelled: init_logging, and the log lines besides those of a request, of a start that succeeds
-- and of the probes; the timer between two passes of the probes; size_hint and is_end_stream of the
-- meter, which hand on what the body underneath says; and the bytes on a connection. How a JSON value
-- prints is a parameter (Printer). Paths of files are texts.
pub mod Prelude
pub mod Serde
pub mod Usage
pub mod JsonModel
pub mod Json
pub mod Errors
pub mod Http
pub mod Config
pub mod Auth
pub mod Body
pub mod Proxy
pub mod RequestId
pub mod Observe
pub mod Health
pub mod Gateway
pub mod Tls
pub mod Server
pub mod Main
pub mod System
pub mod Tests
