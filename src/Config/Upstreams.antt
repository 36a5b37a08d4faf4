-- ===== src/Config/Upstreams.antt =====
-- src/config.rs: a configuration that passed validation resolves to its upstreams, and each of them
-- can be reached.
use llm_conduit.Prelude.{
  ◌≡◌, refl, ◌∙◌, [], ◌∷◌, ◌++◌, Option, none, some, true, ◌||◌, ok, is_empty, ◌==◌, map_err,
  EndsClean, EndsClean-trim_end_by, arith, Bool-cases, Option-cases, Result-cases, inl, inr,
  bind-eq-ok, ◌⊎◌, All,
}
use llm_conduit.Prelude.Map.{Map, get, insert, get-insert}
use llm_conduit.Prelude.Text.{Text, codes, text_eq, text_eq_iff}
use llm_conduit.Errors.{internal}
use llm_conduit.Http.{Uris}
use llm_conduit.Config.{
  UpstreamConfig, Upstream, parse_base_url, from_config, prefix_of, target_uri, query_suffix,
  validate_upstreams, resolve_from, resolve_upstreams, upstream_of, Config,
}
use llm_conduit.Config.Checked.{IsValidUpstream, validate_upstreams_iff, from_config_of_valid}

-- A `BTreeMap` holds a key once.
abbrev pub IsUnique {ℓ} : {V : Type ℓ} → Map V → Type ℓ
IsUnique [] = Unit
IsUnique ((name, v) ∷ m) = (get name m ≡ none) × IsUnique m

prefix_of-ends : (path : Text) → EndsClean (λ c. c == b'/') (prefix_of path)
unfolding prefix_of
prefix_of-ends path = elim (Bool-cases (text_eq path (codes "/") || is_empty path)) [
  | inl root ↦ rw root tt
  | inr deeper ↦ rw deeper (EndsClean-trim_end_by (λ c. c == b'/') path)
]

web-cases :
    (scheme : Text)
    → (text_eq scheme (codes "http") || text_eq scheme (codes "https")) ≡ true
    → (scheme ≡ codes "http") ⊎ (scheme ≡ codes "https")
web-cases scheme h =
    ground (arith, text_eq_iff scheme (codes "http"), text_eq_iff scheme (codes "https"))

module _ (u : Uris) where
  -- What stands at a name before and after the upstreams are resolved.
  abbrev pub Resolved : Text → Option UpstreamConfig → Option (Upstream u) → Type 0
  Resolved name none o = o ≡ none
  Resolved name (some cfg) o = (up : Upstream u) × (o ≡ some up) × (from_config u name cfg ≡ ok up)

  abbrev ResolvedOr :
      Text → Option UpstreamConfig → Option (Upstream u) → Option (Upstream u) → Type 0
  ResolvedOr name none before o = o ≡ before
  ResolvedOr name (some cfg) before o = Resolved name (some cfg) o

  ResolvedOr-cons :
      (name other : Text) (cfg : UpstreamConfig) (up : Upstream u) (m : Map UpstreamConfig)
      (before resolved : Map (Upstream u))
      → from_config u name cfg ≡ ok up
      → get name m ≡ none
      → ResolvedOr other (get other m) (get other (insert name up before)) (get other resolved)
      → ResolvedOr other (get other ((name, cfg) ∷ m)) (get other before) (get other resolved)
  ResolvedOr-cons name other cfg up m before resolved made absent h =
      let inserted = get-insert name other up before in
      elim (Bool-cases (text_eq name other)) [
        | inl same ↦
            let eq : name ≡ other = (text_eq_iff name other).0 same in
            let kept : get other resolved ≡ get other (insert name up before) =
              rw (rw eq at absent) at h in
            let found : get other resolved ≡ some up = kept ∙ inserted ∙ rw same in
            unfold get in rw same (up, found, rw eq at made)
        | inr different ↦
            let missed : get other (insert name up before) ≡ get other before =
              inserted ∙ rw different in
            unfold get in rw different (rw missed at h)
      ]

  resolve_from-ResolvedOr :
      (m : Map UpstreamConfig) (before : Map (Upstream u))
      → IsUnique m
      → All (λ e. IsValidUpstream u e.0 e.1) m
      → (resolved : Map (Upstream u)) × (resolve_from u before m ≡ ok resolved)
        × ((name : Text) → ResolvedOr name (get name m) (get name before) (get name resolved))
  unfolding resolve_from
  resolve_from-ResolvedOr [] before un h = (before, refl, λ name. unfold get in refl)
  resolve_from-ResolvedOr ((name, cfg) ∷ m) before un h =
      let (up, made) = from_config_of_valid u name cfg h.0 in
      let (resolved, e, at_name) = resolve_from-ResolvedOr m (insert name up before) un.1 h.1 in
      (
        resolved,
        rw made e,
        λ other. ResolvedOr-cons name other cfg up m before resolved made un.0 (at_name other),
      )

  Resolved-of_Or :
      (name : Text) (o : Option UpstreamConfig) (r : Option (Upstream u))
      → ResolvedOr name o none r
      → Resolved name o r
  Resolved-of_Or name none r h = h
  Resolved-of_Or name (some cfg) r h = h

  -- If the upstreams of a configuration, each name of which stands there once, pass the loop of
  -- `validate`, then `resolve_upstreams` succeeds: it has an upstream made of the configuration at
  -- each configured name, and nothing at any other name.
  pub resolve_upstreams-Resolved :
      (config : Config)
      → IsUnique config.upstreams
      → validate_upstreams u config.upstreams ≡ ok tt
      → (resolved : Map (Upstream u)) × (resolve_upstreams u config ≡ ok resolved)
        × ((name : Text) → Resolved name (get name config.upstreams) (get name resolved))
  unfolding resolve_upstreams
  resolve_upstreams-Resolved config un h =
      let (resolved, e, at_name) =
        resolve_from-ResolvedOr config.upstreams [] un
          ((validate_upstreams_iff u config.upstreams).0 h) in
      (
        resolved,
        e,
        λ name.
            Resolved-of_Or name (get name config.upstreams) (get name resolved)
              (unfold get in at_name name),
      )

  -- What `parse_base_url` established about an upstream's address.
  pub record IsReachable (up : Upstream u) : Type 0 where
    pub scheme : Text
    pub host : Text
    pub scheme_is : u.scheme_str up.base ≡ some scheme
    pub is_web : (scheme ≡ codes "http") ⊎ (scheme ≡ codes "https")
    pub host_is : u.authority up.base ≡ some host
    pub no_query : u.query up.base ≡ none
    pub prefix_ends : EndsClean (λ c. c == b'/') up.path_prefix

  from_config-base :
      (name : Text) (cfg : UpstreamConfig) (up : Upstream u)
      → from_config u name cfg ≡ ok up
      → (base : u.Uri × Text) × (parse_base_url u name cfg.base_url ≡ ok base)
        × (upstream_of u name cfg base ≡ up)
  unfolding from_config
  from_config-base name cfg up h =
      let (base, parsed, made) = bind-eq-ok (parse_base_url u name cfg.base_url) _ h in
      (base, parsed, cc)

  parse_base_url-IsReachable :
      (name base_url : Text) (base : u.Uri × Text) (cfg : UpstreamConfig)
      → parse_base_url u name base_url ≡ ok base
      → IsReachable (upstream_of u name cfg base)
  unfolding parse_base_url
  parse_base_url-IsReachable name base_url base cfg h = elim (Result-cases (u.parse base_url)) [
    | inl (uri, parsed) ↦ elim (Option-cases (u.scheme_str uri)) [
      | inl schemeless ↦ absurd (ground arith)
      | inr (scheme, schemed) ↦ elim (Option-cases (u.authority uri)) [
        | inl hostless ↦ absurd (ground arith)
        | inr (host, hosted) ↦
            let is_base : base ≡ (uri, prefix_of (u.path uri)) = ground arith in
            let web : (text_eq scheme (codes "http") || text_eq scheme (codes "https")) ≡ true =
              ground arith in
            let unasked : u.query uri ≡ none = ground arith in
            rw is_base (record {
              scheme = scheme;
              host = host;
              scheme_is = schemed;
              is_web = web-cases scheme web;
              host_is = hosted;
              no_query = unasked;
              prefix_ends = prefix_of-ends (u.path uri);
            })
      ]
    ]
    | inr (e, failed) ↦ absurd (ground arith)
  ]

  -- An upstream that was made from its configuration has an `http` or `https` address with a host,
  -- no query and a path prefix with no slash at its end; and the address of a request to it is
  -- built from that scheme and host, the prefix in front of the request's path, and its query.
  pub from_config-target_uri :
      (name : Text) (cfg : UpstreamConfig) (up : Upstream u)
      → from_config u name cfg ≡ ok up
      → (r : IsReachable up) × ((req : u.Uri)
          → target_uri u up req
            ≡ map_err
                (λ e. internal (codes "failed to build upstream URL: " ++ e))
                (u.build r.scheme r.host
                  (up.path_prefix ++ (u.path req ++ query_suffix (u.query req)))))
  unfolding target_uri
  from_config-target_uri name cfg up h =
      let (base, parsed, made) = from_config-base name cfg up h in
      let r = parse_base_url-IsReachable name cfg.base_url base cfg parsed in
      rw (← made) (r, λ req. rw (r.host_is, r.scheme_is))
