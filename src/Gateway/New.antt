-- ===== src/Gateway/New.antt =====
-- src/gateway.rs: how a gateway is made of its configuration, and its prober started.
use llm_conduit.Prelude.{
  any, ◌>>=◌, ◌>>◌, ℕ, Option, none, some, Bool, true, false, not, Result, ok, if◌then◌else◌,
}
use llm_conduit.Prelude.Map.{Map, keys}
use llm_conduit.Prelude.Text.{Text}
use llm_conduit.Errors.{StartupError}
use llm_conduit.Http.{Headers, Uris}
use llm_conduit.Serde.{SerdeJson}
use llm_conduit.Config.{Config, Upstream, HealthConfig, validate, resolve_upstreams}
use llm_conduit.Health.{HealthState, new_state}
use llm_conduit.Proxy.{Client}
use llm_conduit.Json.{Printer}
use llm_conduit.Gateway.{Gateway}
use llm_conduit.Gateway.Models.{models_body}

module _ (h : Headers) (u : Uris) (s : SerdeJson) (from_static : Text → h.HeaderValue)
    {Addr : Type 0} (parse_addr : Text → Option Addr) where
  -- The parts of `Gateway::new` that are taken from outside: the two clients of `tls::build_client`,
  -- how the crate prints the listing, and the time, in seconds, at which it is made.
  pub record Setup : Type 0 where
    pub build_client : Bool → Result StartupError (Client h u)
    pub print : Printer
    pub created : ℕ

  unfoldable pub insecure_for : Setup → Map (Upstream u) → Result StartupError (Option (Client h u))
  insecure_for setup upstreams =
      if any (λ e. e.1.insecure_skip_verify) upstreams
      then (do client ← setup.build_client true; ok (some client))
      else ok none

  -- `Gateway::new`
  unfoldable pub new_gateway :
      Setup → Config → Result StartupError (Gateway h u s from_static × HealthState)
  new_gateway setup config = do
    validate u parse_addr config
    upstreams ← resolve_upstreams u config
    client ← setup.build_client false
    insecure ← insecure_for setup upstreams
    ok (
      record {
        config = config;
        upstreams = upstreams;
        client = client;
        insecure_client = insecure;
        models = models_body setup.print setup.created (keys upstreams);
      },
      new_state (keys upstreams),
    )

-- `Gateway::spawn_health_prober`: what the probe loop is started with, if it is.
unfoldable pub spawn_health_prober :
    (h : Headers) (u : Uris) (s : SerdeJson) (from_static : Text → h.HeaderValue)
    → Gateway h u s from_static
    → Option HealthConfig
spawn_health_prober h u s from_static g =
    if not g.config.server.health.enabled then none else some g.config.server.health
