-- ===== src/Config/Valid.antt =====
-- src/config.rs: `Config::validate` accepts exactly the configurations that it means to.
use llm_conduit.Prelude.{
  ◌≡◌, refl, Option, some, true, false, ◌&&◌, ok, ◌<◌, ◌==◌, is_empty, arith, Result-cases,
  Option-cases, inl, inr, ◌↔◌, ok_or-eq-ok,
}
use llm_conduit.Prelude.Text.{Text, trim}
use llm_conduit.Http.{Uris}
use llm_conduit.Config.{Config, validate, socket_addr, undefined_default, validate_upstreams}

module _ (u : Uris) {Addr : Type 0} (parse_addr : Text → Option Addr) where
  pub record IsValid (config : Config) : Type 0 where
    pub listen_named : is_empty (trim config.server.listen) ≡ false
    pub addr : Addr
    pub listens : parse_addr config.server.listen ≡ some addr
    pub body_limit : 0 < config.server.max_body_bytes
    pub interval : config.server.health.enabled ≡ true → 0 < config.server.health.interval_secs
    pub timeout : config.server.health.enabled ≡ true → 0 < config.server.health.timeout_secs
    pub has_upstream : is_empty config.upstreams ≡ false
    pub has_key : config.auth.enabled ≡ true → is_empty config.auth.keys ≡ false
    pub upstreams : validate_upstreams u config.upstreams ≡ ok tt
    pub default_defined : undefined_default config.server.default_upstream config.upstreams ≡ false

  IsValid-of_validate : (config : Config) → validate u parse_addr config ≡ ok tt → IsValid config
  unfolding validate socket_addr
  IsValid-of_validate config h = elim (Option-cases (parse_addr config.server.listen)) [
    | inl unparsed ↦ absurd (ground arith)
    | inr (addr, parsed) ↦ elim (Result-cases (validate_upstreams u config.upstreams)) [
      | inr (e, failed) ↦ absurd (ground arith)
      | inl (done, passed) ↦ record {
        listen_named = ground arith;
        addr = addr;
        listens = parsed;
        body_limit = ground arith;
        interval = ground arith;
        timeout = ground arith;
        has_upstream = ground arith;
        has_key = ground arith;
        upstreams = passed;
        default_defined = ground arith;
      }
    ]
  ]

  validate_of_IsValid : (config : Config) → IsValid config → validate u parse_addr config ≡ ok tt
  unfolding validate socket_addr
  validate_of_IsValid config v =
      let sized : (config.server.max_body_bytes == 0) ≡ false = ground (arith, v.body_limit) in
      let paced : (config.server.health.enabled && config.server.health.interval_secs == 0)
          ≡ false =
        ground (arith, v.interval) in
      let timed : (config.server.health.enabled && config.server.health.timeout_secs == 0) ≡ false =
        ground (arith, v.timeout) in
      let keyed : (config.auth.enabled && is_empty config.auth.keys) ≡ false =
        ground (arith, v.has_key) in
      rw
        (
          v.listen_named, v.listens, sized, paced, timed, v.has_upstream, keyed, v.upstreams,
          v.default_defined,
        )
        refl

  -- Validation passes exactly for a configuration that listens on a parsed address, limits request
  -- bodies to a positive size, probes (if it probes) at a positive interval with a positive timeout,
  -- has an upstream, has a key if it wants keys, has upstreams that each pass, and names a default
  -- upstream only if that is one of them.
  pub validate_iff : (config : Config) → (validate u parse_addr config ≡ ok tt) ↔ IsValid config
  validate_iff config = (IsValid-of_validate config, validate_of_IsValid config)

  -- The address that was parsed is the one that the configuration listens on.
  pub socket_addr-IsValid :
      (config : Config) (v : IsValid config) (addr : Addr)
      → socket_addr u parse_addr config ≡ ok addr
      → v.addr ≡ addr
  unfolding socket_addr
  socket_addr-IsValid config v addr parsed =
      let found : parse_addr config.server.listen ≡ some addr = ok_or-eq-ok _ _ parsed in
      let listens = v.listens in cc
