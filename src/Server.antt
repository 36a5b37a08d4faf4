-- ===== src/Server.antt =====
-- src/server.rs: the accept loop, the connections and the graceful shutdown, as a relation between
-- states. The tasks run concurrently: any of them may take the next step. Sockets, TLS handshakes
-- and the reading and writing of messages belong to the crates `tokio`, `rustls` and `hyper`; what
-- is kept of them is whether they succeed. Of `GracefulShutdown` it is kept that `shutdown` tells
-- every watched connection to close behind the request that it is at, and completes once every
-- watcher was dropped.
pub mod Invariant
pub mod Weight
pub mod Shutdown
use llm_conduit.Prelude.{
  ℕ, suc, ◌-◌, ◌≡◌, List, [], ◌∷◌, Option, Bool, true, false, map, ◌&&◌, ◌||◌,
}
use llm_conduit.Prelude.Text.{Text, Bytes}
use llm_conduit.Body.{Body}
use llm_conduit.Http.{Headers, Uris}
use llm_conduit.Serde.{SerdeJson}
use llm_conduit.Health.{HealthState}
use llm_conduit.Proxy.{Parts}
use llm_conduit.Gateway.{Gateway}
use llm_conduit.Gateway.Serve.{Served, serve}

-- The loop of `run`, the await behind it, and its end.
pub data Phase : Type 0 where
  accepting draining returned : Phase

-- The task of a connection: in its TLS handshake; in `serve`; in `serve` and told to close behind the
-- request that it is at; or over.
pub data Connection : Type 0 where
  handshaking serving closing over : Connection

-- One connection of a list moves on.
pub data Moves (a b : Connection) : List Connection → List Connection → Type 0 where
  here : (cs : List Connection) → Moves a b (a ∷ cs) (b ∷ cs)
  there : (c : Connection) {cs ds : List Connection} → Moves a b cs ds → Moves a b (c ∷ cs) (c ∷ ds)

-- `graceful_shutdown`, which the crate's `watch` calls on the connection that it watches.
unfoldable pub tell : Connection → Connection
tell handshaking = handshaking
tell serving = closing
tell closing = closing
tell over = over

-- What the end of a handshake leads to: `watch` looks for the shutdown before it serves.
unfoldable pub watched_in : Phase → Connection
watched_in accepting = serving
watched_in draining = closing
watched_in returned = closing

-- `match &tls`: a connection starts with its handshake, or in `serve`.
unfoldable pub started : Bool → Connection
started true = handshaking
started false = serving

-- What `shutdown_signal` waits for: the wait for ctrl-c, which ends with a signal and with an error
-- alike, and that for SIGTERM, which never ends if its handler cannot be installed.
pub record Signals : Type 0 where
  pub ctrl_c_ended : Bool
  pub terminate_installed : Bool
  pub terminate_received : Bool

unfoldable pub is_signalled : Signals → Bool
is_signalled signals =
    signals.ctrl_c_ended || (signals.terminate_installed && signals.terminate_received)

module _ (h : Headers) (u : Uris) (s : SerdeJson) (from_static : Text → h.HeaderValue)
    (render : Text → Bytes) (g : Gateway h u s from_static) where
  -- What `service_fn` answers, while `health` is what is known of the upstreams: what
  -- `Gateway::handle` gives for a request.
  pub data IsHandled (health : HealthState) : Served h u s from_static → Type 0 where
    handled :
        (now : ℕ) (random : Option Bytes) (nanos started_at : ℕ) (parts : Parts h u) (body : Body)
        → IsHandled health
            (serve h u s from_static health now render g random nanos started_at parts body)

  pub record State : Type 0 where
    pub phase : Phase
    pub connections : List Connection
    -- The watchers that `graceful` handed out and that were not dropped.
    pub watchers : ℕ
    -- What was answered so far, on all connections.
    pub answers : List (Served h u s from_static)

  unfoldable pub initial : State
  initial = record { phase = accepting; connections = []; watchers = 0; answers = [] }

  -- A task that ends drops its watcher.
  abbrev pub ended_with : State → List Connection → State
  ended_with st cs = record st { connections = cs; watchers = st.watchers - 1 }

  pub data Step (tls : Bool) (health : HealthState) (st st' : State) : Type 0 where
    -- The watcher is made ahead of the handshake.
    accept :
        st.phase ≡ accepting
        → st' ≡ record st { connections = started tls ∷ st.connections; watchers = suc st.watchers }
        → Step tls health st st'
    accept_failed : st.phase ≡ accepting → st' ≡ st → Step tls health st st'
    -- `break`, and the beginning of `graceful.shutdown()`, which tells the watchers.
    signal :
        (signals : Signals)
        → is_signalled signals ≡ true
        → st.phase ≡ accepting
        → st' ≡ record st { phase = draining; connections = map tell st.connections }
        → Step tls health st st'
    handshake_done :
        (cs : List Connection)
        → Moves handshaking (watched_in st.phase) st.connections cs
        → st' ≡ record st { connections = cs }
        → Step tls health st st'
    handshake_failed :
        (cs : List Connection)
        → Moves handshaking over st.connections cs
        → st' ≡ ended_with st cs
        → Step tls health st st'
    answer :
        (cs : List Connection) (a : Served h u s from_static)
        → Moves serving serving st.connections cs
        → IsHandled health a
        → st' ≡ record st { answers = a ∷ st.answers }
        → Step tls health st st'
    -- Behind `graceful_shutdown` a connection is not kept alive.
    last_answer :
        (cs : List Connection) (a : Served h u s from_static)
        → Moves closing over st.connections cs
        → IsHandled health a
        → st' ≡ record (ended_with st cs) { answers = a ∷ st.answers }
        → Step tls health st st'
    close :
        (cs : List Connection)
        → Moves serving over st.connections cs
        → st' ≡ ended_with st cs
        → Step tls health st st'
    close_told :
        (cs : List Connection)
        → Moves closing over st.connections cs
        → st' ≡ ended_with st cs
        → Step tls health st st'
    -- `graceful.shutdown()` is over when no watcher is left.
    shut_down :
        st.phase ≡ draining
        → st.watchers ≡ 0
        → st' ≡ record st { phase = returned }
        → Step tls health st st'

  pub data Reach (tls : Bool) (st : State) : State → Type 0 where
    stay : Reach tls st st
    step :
        {st' st'' : State} (health : HealthState)
        → Reach tls st st'
        → Step tls health st' st''
        → Reach tls st st''
