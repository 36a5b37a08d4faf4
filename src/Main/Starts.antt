-- ===== src/Main/Starts.antt =====
-- src/main.rs: when the program gets to its accept loop, and what it serves there.
use llm_conduit.Prelude.{
  ◌≡◌, refl, ◌↔◌, [], ◌∷◌, ◌++◌, is_some, Option, none, some, Bool, true, false, ok, bind-eq-ok,
  map_err-eq-ok, arith, Bool-cases, any, Result-cases, inl, inr,
}
use llm_conduit.Prelude.Text.{Text}
use llm_conduit.Http.{Headers, Uris}
use llm_conduit.Serde.{SerdeJson}
use llm_conduit.Prelude.Map.{Map, keys}
use llm_conduit.Config.{TlsServerConfig, Config, Upstream, socket_addr}
use llm_conduit.Config.Valid.{IsValid, validate_iff, socket_addr-IsValid}
use llm_conduit.Config.Resolves.{resolve_upstreams-succeeds}
use llm_conduit.Config.Load.{load}
use llm_conduit.Config.Load.Loaded.{IsLoaded, load_iff}
use llm_conduit.Tls.{load_server_config, build_client}
use llm_conduit.Tls.Loaded.{IsServerConfig, load_server_config_iff}
use llm_conduit.Health.{HealthState, new_state}
use llm_conduit.Proxy.{Client}
use llm_conduit.Gateway.{Gateway}
use llm_conduit.Gateway.Models.{models_body}
use llm_conduit.Gateway.New.{new_gateway, insecure_for, spawn_health_prober}
use llm_conduit.Main.{
  startup_line, tls_notices, probing_notice, Cli, config_path, success, Host, Started, acceptor_for,
  http_client, setup, listen_on, start, main,
}

module _ (h : Headers) (u : Uris) (s : SerdeJson) (from_static : Text → h.HeaderValue)
    {Addr : Type 0} (parse_addr : Text → Option Addr)
    (host : Host h u s from_static parse_addr) where
  abbrev pub IsTlsReady : Option TlsServerConfig → Type 0
  IsTlsReady none = Unit
  IsTlsReady (some tls) =
      (c : host.pem.ServerConfig) × IsServerConfig host.pem tls.cert_path tls.key_path c

  -- What the program needs of its surroundings.
  pub record CanStart (path : Text) : Type 0 where
    pub config : Config
    pub loaded : IsLoaded u parse_addr host.files path config
    pub tls : IsTlsReady config.server.tls
    pub listener : host.Listener
    pub binds : host.bind loaded.valid.addr ≡ ok listener

  acceptor-of_IsTlsReady :
      (o : Option TlsServerConfig)
      → IsTlsReady o
      → (a : Option host.pem.ServerConfig) × (acceptor_for h u s from_static parse_addr host o
          ≡ ok a)
  unfolding acceptor_for
  acceptor-of_IsTlsReady none r = (none, refl)
  acceptor-of_IsTlsReady (some tls) (c, made) =
      (some c, rw ((load_server_config_iff host.pem tls.cert_path tls.key_path c).1 made) refl)

  IsTlsReady-of_acceptor :
      (o : Option TlsServerConfig) (a : Option host.pem.ServerConfig)
      → acceptor_for h u s from_static parse_addr host o ≡ ok a
      → IsTlsReady o
  unfolding acceptor_for
  IsTlsReady-of_acceptor none a e = tt
  IsTlsReady-of_acceptor (some tls) a e =
      let (c, made, _) = bind-eq-ok (load_server_config host.pem tls.cert_path tls.key_path) _ e in
      (c, (load_server_config_iff host.pem tls.cert_path tls.key_path c).0 made)

  http_client-succeeds :
      (insecure : Bool)
      → (client : Client h u) × (http_client h u s from_static parse_addr host insecure ≡ ok client)
  unfolding http_client build_client
  http_client-succeeds insecure = (_, refl)

  insecure_for-succeeds :
      (m : Map (Upstream u))
      → (insecure : Option (Client h u)) × (insecure_for h u s from_static parse_addr
            (setup h u s from_static parse_addr host)
            m
          ≡ ok insecure)
  unfolding insecure_for
  insecure_for-succeeds m = elim (Bool-cases (any (λ e. e.1.insecure_skip_verify) m)) [
    | inl skips ↦
        let (client, built) = http_client-succeeds true in (some client, rw (skips, built) refl)
    | inr verifies ↦ (none, rw verifies refl)
  ]

  -- A gateway is made of every valid configuration: neither its upstreams nor its clients fail.
  new_gateway-succeeds :
      (config : Config)
      → IsValid u parse_addr config
      → (made : Gateway h u s from_static × HealthState) × (new_gateway h u s from_static parse_addr
            (setup h u s from_static parse_addr host)
            config
          ≡ ok made)
  unfolding new_gateway
  new_gateway-succeeds config valid =
      let passed = (validate_iff u parse_addr config).1 valid in
      let (upstreams, resolved) = resolve_upstreams-succeeds u config valid.upstreams in
      let (client, built) = http_client-succeeds false in
      let (insecure, chosen) = insecure_for-succeeds upstreams in
      (
        (
          record {
            config = config;
            upstreams = upstreams;
            client = client;
            insecure_client = insecure;
            models = models_body host.print host.created (keys upstreams);
          },
          new_state (keys upstreams),
        ),
        rw (passed, resolved, built, chosen) refl,
      )

  start-succeeds :
      (path : Text)
      → CanStart path
      → (st : Started h u s from_static parse_addr host) × (start h u s from_static parse_addr host
            path
          ≡ ok st)
  unfolding start socket_addr listen_on
  start-succeeds path c =
      let (acceptor, made) = acceptor-of_IsTlsReady c.config.server.tls c.tls in
      let ((g, health), started) = new_gateway-succeeds c.config c.loaded.valid in
      let read = (load_iff u parse_addr host.files path c.config).1 c.loaded in
      (
        record {
          listener = c.listener;
          tls_acceptor = acceptor;
          gateway = g;
          health = health;
          probing = spawn_health_prober h u s from_static g;
          notices =
              tls_notices c.config.server.tls
              ++ probing_notice c.config.server.health
                  (is_some (spawn_health_prober h u s from_static g))
                ∷ [];
          line = startup_line (host.show_addr c.loaded.valid.addr) acceptor c.config path;
        },
        rw (read, c.loaded.valid.listens, made, started, c.binds) refl,
      )

  CanStart-of_start :
      (path : Text) (st : Started h u s from_static parse_addr host)
      → start h u s from_static parse_addr host path ≡ ok st
      → CanStart path
  unfolding start listen_on
  CanStart-of_start path st e =
      let (config, read, e₁) = bind-eq-ok (load host.files u parse_addr path) _ e in
      let (addr, parsed, e₂) = bind-eq-ok (socket_addr u parse_addr config) _ e₁ in
      let (acceptor, made, e₃) =
        bind-eq-ok (acceptor_for h u s from_static parse_addr host config.server.tls) _ e₂ in
      let (gateway, started, e₄) =
        bind-eq-ok
          (new_gateway h u s from_static parse_addr (setup h u s from_static parse_addr host)
            config)
          _ e₃ in
      let (listener, bound, _) =
        bind-eq-ok (listen_on h u s from_static parse_addr host addr) _ e₄ in
      let loaded = (load_iff u parse_addr host.files path config).0 read in
      let same = socket_addr-IsValid u parse_addr config loaded.valid addr parsed in
      record {
        config = config;
        loaded = loaded;
        tls = IsTlsReady-of_acceptor config.server.tls acceptor made;
        listener = listener;
        binds = rw same (map_err-eq-ok _ _ bound);
      }

  -- The program gets to its accept loop, the end of which is an exit with success, exactly if the
  -- file that the flag, or else the argument, names loads as a valid configuration, the files of its
  -- TLS section, if it has one, make a server configuration, and the address that it names can be
  -- bound. In particular the upstreams and their clients never keep a valid configuration from
  -- starting, even where the system has no root certificates.
  pub main-success_iff :
      (cli : Cli)
      → (main h u s from_static parse_addr host cli ≡ success) ↔ CanStart (config_path cli)
  unfolding main
  main-success_iff cli = (
    λ e. elim (Result-cases (start h u s from_static parse_addr host (config_path cli))) [
      | inl (st, started) ↦ CanStart-of_start (config_path cli) st started
      | inr (message, refused) ↦ absurd (ground arith)
    ],
    λ c. let (st, started) = start-succeeds (config_path cli) c in rw started refl,
  )
