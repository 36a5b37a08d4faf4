-- ===== src/Config/Load/Loaded.antt =====
-- src/config.rs: which files load, and that the defaults of what a file omits are never refused.
use llm_conduit.Prelude.{
  ◌≡◌, refl, ◌↔◌, is_empty, [], ◌∷◌, Option, none, some, false, ok, bind-eq-ok, map_err,
  map_err-eq-ok, arith,
}
use llm_conduit.Prelude.Map.{Map}
use llm_conduit.Prelude.Text.{Text, trim}
use llm_conduit.Http.{Uris}
use llm_conduit.Config.{Config, validate, validate_upstreams, undefined_default}
use llm_conduit.Config.Valid.{IsValid, validate_iff}
use llm_conduit.Config.Load.{
  RawConfig, RawUpstream, ConfigFiles, config_of, upstream_configs_of, server_of, auth_of,
  health_or_default, default_health, load,
}

module _ (u : Uris) {Addr : Type 0} (parse_addr : Text → Option Addr) where
  module _ (files : ConfigFiles) where
    -- A file that can be read, is a configuration in TOML, and is valid with its defaults filled in.
    pub record IsLoaded (path : Text) (config : Config) : Type 0 where
      pub text : Text
      pub raw : RawConfig
      pub reads : files.read_to_string path ≡ ok text
      pub parses : files.from_str text ≡ ok raw
      pub filled : config_of raw ≡ config
      pub valid : IsValid u parse_addr config

    -- `Config::load` gives a configuration exactly if the file can be read, is a configuration in
    -- TOML, is that configuration once the defaults of what it omits are filled in, and that
    -- configuration is valid.
    pub load_iff :
        (path : Text) (config : Config)
        → (load files u parse_addr path ≡ ok config) ↔ IsLoaded path config
    unfolding load
    load_iff path config = (
      λ e.
          let (text, read, e₁) = bind-eq-ok (map_err _ (files.read_to_string path)) _ e in
          let (raw, parsed, e₂) = bind-eq-ok (map_err _ (files.from_str text)) _ e₁ in
          let (done, passed, e₃) =
            bind-eq-ok (map_err _ (validate u parse_addr (config_of raw))) _ e₂ in
          let filled : config_of raw ≡ config = cc in
          record {
            text = text;
            raw = raw;
            reads = map_err-eq-ok _ _ read;
            parses = map_err-eq-ok _ _ parsed;
            filled = filled;
            valid =
                rw filled at
                  ((validate_iff u parse_addr (config_of raw)).0 (map_err-eq-ok _ _ passed));
          },
      λ l.
          let passed : validate u parse_addr (config_of l.raw) ≡ ok tt =
            rw l.filled ((validate_iff u parse_addr config).1 l.valid) in
          rw (l.reads, l.parses, passed, l.filled) refl,
    )

  -- A file with nothing but the address, the upstreams and a default among them.
  pub record IsMinimal (raw : RawConfig) : Type 0 where
    pub body_limit_omitted : raw.server.max_body_bytes ≡ none
    pub health_omitted : raw.server.health ≡ none
    pub auth_omitted : raw.auth ≡ none

  pub record IsPlausible (raw : RawConfig) : Type 0 where
    pub listen_named : is_empty (trim raw.server.listen) ≡ false
    pub addr : Addr
    pub listens : parse_addr raw.server.listen ≡ some addr
    pub has_upstream : is_empty raw.upstreams ≡ false
    pub upstreams : validate_upstreams u (upstream_configs_of raw.upstreams) ≡ ok tt
    pub default_defined :
        undefined_default raw.server.default_upstream (upstream_configs_of raw.upstreams) ≡ false

  is_empty-upstream_configs_of :
      (m : Map RawUpstream) → is_empty (upstream_configs_of m) ≡ is_empty m
  unfolding upstream_configs_of
  is_empty-upstream_configs_of [] = refl
  is_empty-upstream_configs_of ((name, raw) ∷ m) = refl

  -- The defaults are never what makes a configuration invalid: one that omits the body limit, the
  -- health section and the auth section is valid exactly if its address and its upstreams are.
  pub config_of-IsValid_iff :
      (raw : RawConfig) → IsMinimal raw → IsValid u parse_addr (config_of raw) ↔ IsPlausible raw
  unfolding config_of server_of auth_of health_or_default default_health
  config_of-IsValid_iff raw m = (
    λ v. record {
      listen_named = v.listen_named;
      addr = v.addr;
      listens = v.listens;
      has_upstream = rw (is_empty-upstream_configs_of raw.upstreams) at (v.has_upstream);
      upstreams = v.upstreams;
      default_defined = v.default_defined;
    },
    λ p. record {
      listen_named = p.listen_named;
      addr = p.addr;
      listens = p.listens;
      body_limit = rw m.body_limit_omitted (omega arith);
      interval = λ on. rw m.health_omitted (omega arith);
      timeout = λ on. rw m.health_omitted (omega arith);
      has_upstream = rw (is_empty-upstream_configs_of raw.upstreams) (p.has_upstream);
      has_key = rw m.auth_omitted (λ on. cc);
      upstreams = p.upstreams;
      default_defined = p.default_defined;
    },
  )
