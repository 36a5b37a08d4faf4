-- ===== src/Main/Serves.antt =====
-- src/main.rs: what a program that got to its accept loop serves there.
use mathlib.Core.Path.{subst}
use llm_conduit.Prelude.{
  ◌≡◌, refl, sym, ap, ◌∙◌, [], ◌∷◌, ◌++◌, Bool-cases, inl, inr, Option, none, some, false, ok,
  is_some, arith, if◌then◌else◌, bind-eq-ok, ok-injective, map_err-eq-ok,
}
use llm_conduit.Prelude.Map.{keys}
use llm_conduit.Prelude.Text.{Text, codes}
use llm_conduit.Http.{Headers, Uris}
use llm_conduit.Serde.{SerdeJson}
use llm_conduit.Config.{TlsServerConfig, Config, socket_addr, validate, resolve_upstreams}
use llm_conduit.Config.Valid.{socket_addr-IsValid}
use llm_conduit.Config.Load.{load}
use llm_conduit.Config.Load.Loaded.{IsLoaded, load_iff}
use llm_conduit.Tls.{load_server_config}
use llm_conduit.Health.{HealthState, new_state}
use llm_conduit.Gateway.{Gateway}
use llm_conduit.Gateway.New.{new_gateway, insecure_for, spawn_health_prober}
use llm_conduit.Main.{
  startup_line, probing_enabled, probing_disabled, tls_notices, probing_notice, Host, Started,
  acceptor_for, http_client, setup, listen_on, start,
}

module _ (h : Headers) (u : Uris) (s : SerdeJson) (from_static : Text → h.HeaderValue)
    {Addr : Type 0} (parse_addr : Text → Option Addr)
    (host : Host h u s from_static parse_addr) where
  pub record IsServing (path : Text) (st : Started h u s from_static parse_addr host) : Type 0 where
    pub config : Config
    pub loaded : IsLoaded u parse_addr host.files path config
    pub bound : host.bind loaded.valid.addr ≡ ok st.listener
    pub encrypts : is_some st.tls_acceptor ≡ is_some config.server.tls
    pub configured : st.gateway.config ≡ config
    pub unchecked : st.health ≡ new_state (keys st.gateway.upstreams)
    pub probes :
        st.probing ≡ (if config.server.health.enabled then some config.server.health else none)
    pub noticed :
        st.notices
        ≡ tls_notices config.server.tls
          ++ (if config.server.health.enabled
              then probing_enabled config.server.health
              else probing_disabled)
            ∷ []
    pub announces :
        st.line.scheme ≡ (if is_some config.server.tls then codes "https" else codes "http")
    pub names : st.line.upstreams ≡ keys config.upstreams

  is_some-acceptor_for :
      (o : Option TlsServerConfig) (a : Option host.pem.ServerConfig)
      → acceptor_for h u s from_static parse_addr host o ≡ ok a
      → is_some a ≡ is_some o
  unfolding acceptor_for
  is_some-acceptor_for none a e = ap is_some (sym (ok-injective e))
  is_some-acceptor_for (some tls) a e =
      let (c, made, e₁) = bind-eq-ok (load_server_config host.pem tls.cert_path tls.key_path) _ e in
      ap is_some (sym (ok-injective e₁))

  spawned :
      (g : Gateway h u s from_static) (config : Config)
      → g.config ≡ config
      → spawn_health_prober h u s from_static g
        ≡ (if config.server.health.enabled then some config.server.health else none)
  unfolding spawn_health_prober
  spawned g config same = rw same (ground arith)

  noticed :
      (g : Gateway h u s from_static) (config : Config)
      → g.config ≡ config
      → probing_notice config.server.health (is_some (spawn_health_prober h u s from_static g)) ≡ (
          if config.server.health.enabled
          then probing_enabled config.server.health
          else probing_disabled)
  unfolding probing_notice
  noticed g config same =
      rw (spawned g config same) (elim (Bool-cases config.server.health.enabled) [
        | inl on ↦ rw on refl
        | inr off ↦ rw off refl
      ])

  pub record IsFresh (config : Config) (made : Gateway h u s from_static × HealthState)
      : Type 0 where
    pub configured : made.0.config ≡ config
    pub unchecked : made.1 ≡ new_state (keys made.0.upstreams)

  new_gateway-IsFresh :
      (config : Config) (made : Gateway h u s from_static × HealthState)
      → new_gateway h u s from_static parse_addr (setup h u s from_static parse_addr host) config
        ≡ ok made
      → IsFresh config made
  unfolding new_gateway
  new_gateway-IsFresh config made e =
      let (_, validated, e₁) = bind-eq-ok (validate u parse_addr config) _ e in
      let (upstreams, resolved, e₂) = bind-eq-ok (resolve_upstreams u config) _ e₁ in
      let (client, _, e₃) = bind-eq-ok (http_client h u s from_static parse_addr host false) _ e₂ in
      let (insecure, _, e₄) =
        bind-eq-ok
          (insecure_for h u s from_static parse_addr (setup h u s from_static parse_addr host)
            upstreams)
          _ e₃ in
      subst (IsFresh config) (ok-injective e₄) (record { configured = refl; unchecked = refl })

  -- A program that got to its accept loop listens on the address of the valid configuration that it
  -- loaded, with TLS exactly if the configuration has a TLS section and never in the clear instead;
  -- its gateway works by that configuration; and it probes exactly if the configuration says so, from
  -- a state in which no upstream is checked. It has logged the certificate, if there is one, and
  -- whether it probes; its last log line says `https` exactly if it serves with TLS, and names the
  -- configured upstreams.
  pub start-IsServing :
      (path : Text) (st : Started h u s from_static parse_addr host)
      → start h u s from_static parse_addr host path ≡ ok st
      → IsServing path st
  unfolding start listen_on startup_line
  start-IsServing path st e =
      let (config, read, e₁) = bind-eq-ok (load host.files u parse_addr path) _ e in
      let (addr, parsed, e₂) = bind-eq-ok (socket_addr u parse_addr config) _ e₁ in
      let (acceptor, accepted, e₃) =
        bind-eq-ok (acceptor_for h u s from_static parse_addr host config.server.tls) _ e₂ in
      let (made, started, e₄) =
        bind-eq-ok
          (new_gateway h u s from_static parse_addr (setup h u s from_static parse_addr host)
            config)
          _ e₃ in
      let (listener, bound, e₅) =
        bind-eq-ok (listen_on h u s from_static parse_addr host addr) _ e₄ in
      let loaded = (load_iff u parse_addr host.files path config).0 read in
      let same = socket_addr-IsValid u parse_addr config loaded.valid addr parsed in
      let fresh = new_gateway-IsFresh config made started in
      subst (IsServing path) (ok-injective e₅) (record {
        config = config;
        loaded = loaded;
        bound = ap host.bind same ∙ map_err-eq-ok _ _ bound;
        encrypts = is_some-acceptor_for config.server.tls acceptor accepted;
        configured = fresh.configured;
        unchecked = fresh.unchecked;
        probes = spawned made.0 config fresh.configured;
        noticed =
            ap (λ n. tls_notices config.server.tls ++ n ∷ [])
              (noticed made.0 config fresh.configured);
        announces =
            ap (λ b. if b then codes "https" else codes "http")
              (is_some-acceptor_for config.server.tls acceptor accepted);
        names = refl;
      })
