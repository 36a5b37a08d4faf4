-- ===== src/Gateway/Startup.antt =====
-- src/gateway.rs: what a gateway that started up can route.
use mathlib.Core.Path.{subst}
use llm_conduit.Prelude.{
  ◌≡◌, refl, ap, sym, ◌∙◌, Option, none, some, false, ok, bind-eq-ok, arith, is_none, Option-cases,
  inl, inr, ok-injective,
}
use llm_conduit.Prelude.Map.{Map, get}
use llm_conduit.Prelude.Text.{Text}
use llm_conduit.Http.{Headers, Uris}
use llm_conduit.Serde.{SerdeJson}
use llm_conduit.Config.{
  Config, Upstream, UpstreamConfig, validate, resolve_upstreams, undefined_default,
}
use llm_conduit.Config.Upstreams.{IsUnique, Resolved, resolve_upstreams-Resolved}
use llm_conduit.Config.Valid.{IsValid, validate_iff}
use llm_conduit.Health.{HealthState}
use llm_conduit.Gateway.{Gateway}
use llm_conduit.Gateway.New.{Setup, new_gateway, insecure_for}

module _ (h : Headers) (u : Uris) (s : SerdeJson) (from_static : Text → h.HeaderValue)
    {Addr : Type 0} (parse_addr : Text → Option Addr) where
  default-defined :
      (name : Text) (o : Option Text) (m : Map UpstreamConfig)
      → o ≡ some name
      → undefined_default o m ≡ false
      → (cfg : UpstreamConfig) × (get name m ≡ some cfg)
  unfolding undefined_default
  default-defined name none m e d = cc
  default-defined name (some other) m e d = elim (Option-cases (get name m)) [
    | inl missing ↦
        let same : other ≡ name = cc in
        let here : is_none (get name m) ≡ false = rw same at d in
        absurd (ground (arith, missing, here))
    | inr found ↦ found
  ]

  pub record IsStarted (config : Config) (g : Gateway h u s from_static) : Type 0 where
    pub configured : g.config ≡ config
    pub valid : IsValid u parse_addr config
    pub resolved :
        (name : Text) → Resolved u name (get name config.upstreams) (get name g.upstreams)
    pub default_routes :
        (name : Text)
        → config.server.default_upstream ≡ some name
        → (upstream : Upstream u) × (get name g.upstreams ≡ some upstream)

  -- A gateway that starts up from a configuration that has each upstream once: the configuration is
  -- valid, the gateway routes exactly the configured names, each to the upstream of its
  -- configuration, and the default upstream, if there is one, is among them.
  pub new_gateway-IsStarted :
      (setup : Setup h u s from_static parse_addr) (config : Config) (g : Gateway h u s from_static)
      (state : HealthState)
      → IsUnique config.upstreams
      → new_gateway h u s from_static parse_addr setup config ≡ ok (g, state)
      → IsStarted config g
  unfolding new_gateway
  new_gateway-IsStarted setup config g state unique e =
      let (_, validated, e₁) = bind-eq-ok (validate u parse_addr config) _ e in
      let (upstreams, resolved, e₂) = bind-eq-ok (resolve_upstreams u config) _ e₁ in
      let (client, _, e₃) = bind-eq-ok (setup.build_client false) _ e₂ in
      let (insecure, _, made) =
        bind-eq-ok (insecure_for h u s from_static parse_addr setup upstreams) _ e₃ in
      let v = (validate_iff u parse_addr config).0 validated in
      let (made_of, e₄, at_name) = resolve_upstreams-Resolved u config unique v.upstreams in
      let same : made_of ≡ upstreams = ok-injective (sym e₄ ∙ resolved) in
      let known : (name : Text) → Resolved u name (get name config.upstreams) (get name upstreams) =
        λ name. rw (← same) (at_name name) in
      subst (IsStarted config) (ap (λ z. z.0) (ok-injective made)) (record {
        configured = refl;
        valid = v;
        resolved = known;
        default_routes = λ name named.
            let (cfg, defined) =
              default-defined name config.server.default_upstream config.upstreams named
                v.default_defined in
            let (upstream, found, _) = rw defined at (known name) in (upstream, found);
      })
