-- ===== src/System.antt =====
-- src/main.rs, src/server.rs and src/health.rs together: the server and the probe loop, which run
-- concurrently and share the health of the upstreams. The server reads it whenever it answers, the
-- loop writes it whenever a probe is joined.
pub mod Told
use llm_conduit.Prelude.{ℕ, ◌≡◌, List, [], ◌++◌, Option, none, some, Bool, is_some}
use llm_conduit.Prelude.Map.{Map, keys}
use llm_conduit.Prelude.Text.{Text, Bytes}
use llm_conduit.Http.{Headers, Uris}
use llm_conduit.Serde.{SerdeJson}
use llm_conduit.Config.{HealthConfig}
use llm_conduit.Health.{Joined}
use llm_conduit.Health.Loop.{Prober, new_prober, Turn, of_turn}
use llm_conduit.Gateway.{Gateway}
use llm_conduit.Gateway.New.{spawn_health_prober}
use llm_conduit.Server

module _ (h : Headers) (u : Uris) (s : SerdeJson) (from_static : Text → h.HeaderValue)
    (render : Text → Bytes) (g : Gateway h u s from_static) (tls : Bool) where
  pub record State : Type 0 where
    pub server : Server.State h u s from_static render g
    pub prober : Prober

  -- `run` of src/main.rs hands over to both.
  unfoldable pub initial : State
  initial = record {
    server = Server.initial h u s from_static render g;
    prober = new_prober (keys g.upstreams);
  }

  pub data Step (st st' : State) : Type 0 where
    serves :
        (server : Server.State h u s from_static render g)
        → Server.Step h u s from_static render g tls st.prober.health st.server server
        → st' ≡ record st { server = server }
        → Step st st'
    -- The loop runs only if it was spawned.
    probes :
        (config : HealthConfig) (prober : Prober)
        → spawn_health_prober h u s from_static g ≡ some config
        → Turn u g.upstreams config st.prober prober
        → st' ≡ record st { prober = prober }
        → Step st st'

  -- The probes that are joined in a step.
  abbrev pub of_step : {st st' : State} → Step st st' → List Joined
  of_step (serves server one e) = []
  of_step (probes config prober spawned t e) = of_turn u g.upstreams config t

  -- The states that are reached from the start, with the probes that were joined on the way.
  pub data Reach : List Joined → State → Type 0 where
    start : Reach [] initial
    step :
        {js js' : List Joined} {st st' : State}
        → Reach js st
        → (one : Step st st') → js' ≡ js ++ of_step one
        → Reach js' st'
