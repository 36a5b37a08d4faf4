-- ===== src/Gateway/Listing.antt =====
-- src/gateway.rs: the names that a started gateway lists, probes and routes are the same.
use mathlib.Core.Path.{subst}
use llm_conduit.Prelude.{
  ◌≡◌, refl, ◌∙◌, [], Option, some, false, ok, unwrap_or, bind-eq-ok, ok-injective,
}
use llm_conduit.Prelude.Map.{keys}
use llm_conduit.Prelude.Text.{Text, codes, text_eq}
use llm_conduit.Http.{Headers, Uris}
use llm_conduit.Serde.{SerdeJson}
use llm_conduit.Config.{Config, validate, resolve_upstreams}
use llm_conduit.Config.Order.{Ascending, resolve_upstreams-keys}
use llm_conduit.Health.{HealthState, new_state}
use llm_conduit.Gateway.{Gateway}
use llm_conduit.Json.{Json, text, at_key, member}
use llm_conduit.Gateway.Models.{models_json, models_body, listed, listed-models_json}
use llm_conduit.Gateway.New.{Setup, new_gateway, insecure_for}

module _ (h : Headers) (u : Uris) (s : SerdeJson) (from_static : Text → h.HeaderValue)
    {Addr : Type 0} (parse_addr : Text → Option Addr)
    (setup : Setup h u s from_static parse_addr) where
  pub record IsListed (config : Config) (g : Gateway h u s from_static) (state : HealthState)
      : Type 0 where
    pub routes : keys g.upstreams ≡ keys config.upstreams
    pub reports : state.names ≡ keys config.upstreams
    pub listing : Json
    pub prints : g.models ≡ unwrap_or (setup.print listing) []
    pub is_list : at_key (codes "object") listing ≡ some (text (codes "list"))
    pub lists : listed (at_key (codes "data") listing) ≡ keys config.upstreams

  -- Of a gateway that starts up from a configuration whose upstreams are in ascending order of
  -- their names, as those of a `BTreeMap` are: the names that it routes and the names that
  -- `/readyz` reports are the configured ones, in that order; and the body for `/v1/models` is a
  -- printed list, if it can be printed, in whose `data` the IDs of the entries are those names in
  -- that order.
  pub new_gateway-IsListed :
      (config : Config) (g : Gateway h u s from_static) (state : HealthState)
      → Ascending config.upstreams
      → new_gateway h u s from_static parse_addr setup config ≡ ok (g, state)
      → IsListed config g state
  unfolding new_gateway new_state models_body models_json at_key member text_eq codes
  new_gateway-IsListed config g state a e =
      let (_, _, e₁) = bind-eq-ok (validate u parse_addr config) _ e in
      let (upstreams, resolved, e₂) = bind-eq-ok (resolve_upstreams u config) _ e₁ in
      let (_, _, e₃) = bind-eq-ok (setup.build_client false) _ e₂ in
      let (_, _, made) =
        bind-eq-ok (insecure_for h u s from_static parse_addr setup upstreams) _ e₃ in
      let same = resolve_upstreams-keys u config upstreams a resolved in
      subst (λ z. IsListed config z.0 z.1) (ok-injective made)
        (record {
          routes = same;
          reports = same;
          listing = models_json setup.created (keys upstreams);
          prints = refl;
          is_list = refl;
          lists = listed-models_json setup.created (keys upstreams) ∙ same;
        })
