-- ===== src/Config/Checked.antt =====
-- src/config.rs: the upstreams that pass validation.
use llm_conduit.Prelude.{
  ◌≡◌, refl, [], ◌∷◌, false, ok, is_empty, arith, Result-cases, inl, inr, bind-eq-ok, ◌↔◌, All,
}
use llm_conduit.Prelude.Map.{Map}
use llm_conduit.Prelude.Text.{Text, trim}
use llm_conduit.Http.{Uris}
use llm_conduit.Config.{
  UpstreamConfig, Upstream, parse_base_url, from_config, is_blank, validate_upstream,
  validate_upstreams, upstream_of,
}

module _ (u : Uris) where
  -- An upstream that passes `validate`.
  pub record IsValidUpstream (name : Text) (cfg : UpstreamConfig) : Type 0 where
    pub named : is_empty (trim name) ≡ false
    pub base : u.Uri × Text
    pub parsed : parse_base_url u name cfg.base_url ≡ ok base
    pub key : is_blank cfg.api_key ≡ false
    pub model : is_blank cfg.upstream_model ≡ false

  IsValidUpstream-of_validate :
      (name : Text) (cfg : UpstreamConfig)
      → validate_upstream u name cfg ≡ ok tt
      → IsValidUpstream name cfg
  unfolding validate_upstream
  IsValidUpstream-of_validate name cfg h =
      elim (Result-cases (parse_base_url u name cfg.base_url)) [
        | inl (base, parsed) ↦ record {
          named = ground arith;
          base = base;
          parsed = parsed;
          key = ground arith;
          model = ground arith;
        }
        | inr (e, failed) ↦ absurd (ground arith)
      ]

  validate_of_IsValidUpstream :
      (name : Text) (cfg : UpstreamConfig)
      → IsValidUpstream name cfg
      → validate_upstream u name cfg ≡ ok tt
  unfolding validate_upstream
  validate_of_IsValidUpstream name cfg v = rw (v.named, v.parsed, v.key, v.model) refl

  pub validate_upstream_iff :
      (name : Text) (cfg : UpstreamConfig)
      → (validate_upstream u name cfg ≡ ok tt) ↔ IsValidUpstream name cfg
  validate_upstream_iff name cfg =
      (IsValidUpstream-of_validate name cfg, validate_of_IsValidUpstream name cfg)

  pub validate_upstreams_iff :
      (m : Map UpstreamConfig)
      → (validate_upstreams u m ≡ ok tt) ↔ All (λ e. IsValidUpstream e.0 e.1) m
  unfolding validate_upstreams
  validate_upstreams_iff [] = (λ h. tt, λ h. refl)
  validate_upstreams_iff ((name, cfg) ∷ m) = (
    λ h.
        let (_, here, rest) =
          bind-eq-ok (validate_upstream u name cfg) (λ _. validate_upstreams u m) h in
        (IsValidUpstream-of_validate name cfg here, (validate_upstreams_iff m).0 rest),
    λ h. rw (validate_of_IsValidUpstream name cfg h.0) ((validate_upstreams_iff m).1 h.1),
  )

  pub from_config_of_valid :
      (name : Text) (cfg : UpstreamConfig)
      → IsValidUpstream name cfg
      → (up : Upstream u) × (from_config u name cfg ≡ ok up)
  unfolding from_config
  from_config_of_valid name cfg v = (upstream_of u name cfg v.base, rw v.parsed refl)
