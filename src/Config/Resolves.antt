-- ===== src/Config/Resolves.antt =====
-- src/config.rs: upstreams that passed validation resolve, in whichever order and however often named.
use llm_conduit.Prelude.{◌≡◌, refl, [], ◌∷◌, ok, All}
use llm_conduit.Prelude.Map.{Map, insert}
use llm_conduit.Http.{Uris}
use llm_conduit.Config.{
  Config, Upstream, UpstreamConfig, validate_upstreams, resolve_from, resolve_upstreams,
}
use llm_conduit.Config.Checked.{IsValidUpstream, from_config_of_valid, validate_upstreams_iff}

module _ (u : Uris) where
  resolve_from-succeeds :
      (m : Map UpstreamConfig) (before : Map (Upstream u))
      → All (λ e. IsValidUpstream u e.0 e.1) m
      → (resolved : Map (Upstream u)) × (resolve_from u before m ≡ ok resolved)
  unfolding resolve_from
  resolve_from-succeeds [] before valid = (before, refl)
  resolve_from-succeeds ((name, cfg) ∷ m) before valid =
      let (up, made) = from_config_of_valid u name cfg valid.0 in
      let (resolved, e) = resolve_from-succeeds m (insert name up before) valid.1 in
      (resolved, rw made e)

  pub resolve_upstreams-succeeds :
      (config : Config)
      → validate_upstreams u config.upstreams ≡ ok tt
      → (resolved : Map (Upstream u)) × (resolve_upstreams u config ≡ ok resolved)
  unfolding resolve_upstreams
  resolve_upstreams-succeeds config passed =
      resolve_from-succeeds config.upstreams []
        ((validate_upstreams_iff u config.upstreams).0 passed)
