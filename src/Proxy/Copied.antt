-- ===== src/Proxy/Copied.antt =====
-- src/proxy.rs: what a request to an upstream carries.
use llm_conduit.Prelude.{
  ◌≡◌, ◌≢◌, refl, sym, ap, ◌∙◌, List, [], ◌∷◌, ◌++◌, Option, none, some, Bool, true, false, ok,
  if◌then◌else◌, arith, Bool-cases, inl, inr, length, bind-eq-ok, ok-injective, map_err,
  Option-cases,
}
use llm_conduit.Prelude.Text.{
  Text, Bytes, codes, text_eq, text_eq_iff, text_eq_refl, text_ne, contains,
}
use llm_conduit.Http.{Headers, HeaderLaws, Uris}
use llm_conduit.Config.{Upstream}
use llm_conduit.Auth.{authorization}
use llm_conduit.Proxy.{
  request_strip, connection_tokens, is_stripped, content_length, Parts, Request, Client, inject_key,
  base_headers, build_request,
}
use llm_conduit.Proxy.Entries.{copy_headers-kept}

pub content_length-ne-authorization : content_length ≢ authorization
content_length-ne-authorization =
    text_ne content_length authorization (unfold text_eq codes in refl)

strips_authorization : contains request_strip authorization ≡ true
unfolding contains text_eq codes
strips_authorization = refl

strips_content_length : contains request_strip content_length ≡ true
unfolding contains text_eq codes
strips_content_length = refl

true≢false : {b : Bool} → b ≡ true → b ≡ false → ⊥
true≢false p q = cc

module _ (h : Headers) (laws : HeaderLaws h) where
  -- The values of a name in the upstream request before the key is added.
  base_headers-values :
      (source : h.HeaderMap) (body : Bytes) (key : Text)
      → h.get_all key (base_headers h source body) ≡ (
          if text_eq content_length key
          then h.from_u64 (length body) ∷ []
          else if is_stripped h (connection_tokens h source) request_strip key
          then []
          else h.get_all key source)
  unfolding base_headers
  base_headers-values source body key =
      let copied = copy_headers-kept h laws source h.empty request_strip key in
      rw (laws.get_all_insert, copied, laws.get_all_empty) refl

  abbrev Injected : Option Text → h.HeaderMap → h.HeaderMap → Type 0
  Injected none before after = after ≡ before
  Injected (some api_key) before after =
      (value : h.HeaderValue) × (h.from_str (codes "Bearer " ++ api_key) ≡ some value)
      × (after ≡ h.insert authorization value before)

  inject_key-Injected :
      (api_key : Option Text) (before after : h.HeaderMap)
      → inject_key h api_key before ≡ ok after
      → Injected api_key before after
  unfolding inject_key
  inject_key-Injected none before after e = cc
  inject_key-Injected (some api_key) before after e =
      elim (Option-cases (h.from_str (codes "Bearer " ++ api_key))) [
        | inl invalid ↦ absurd (ground arith)
        | inr (value, valid) ↦ (value, valid, ground arith)
      ]

  -- What the upstream gets as credentials: its own key, or nothing.
  abbrev pub Credentials : Option Text → List h.HeaderValue → Type 0
  Credentials none values = values ≡ []
  Credentials (some api_key) values =
      (value : h.HeaderValue) × (h.from_str (codes "Bearer " ++ api_key) ≡ some value)
      × (values ≡ value ∷ [])

  -- The headers of an upstream request, name by name.
  pub record IsMapped (api_key : Option Text) (source : h.HeaderMap) (body : Bytes)
      (sent : h.HeaderMap) : Type 0 where
    pub credentials : Credentials api_key (h.get_all authorization sent)
    pub length_is : h.get_all content_length sent ≡ h.from_u64 (length body) ∷ []
    pub withheld :
        (name : Text)
        → name ≢ authorization
        → name ≢ content_length
        → is_stripped h (connection_tokens h source) request_strip name ≡ true
        → h.get_all name sent ≡ []
    pub passed_on :
        (name : Text)
        → is_stripped h (connection_tokens h source) request_strip name ≡ false
        → h.get_all name sent ≡ h.get_all name source

  other_name : (name a : Text) → name ≢ a → text_eq a name ≡ false
  other_name name a ne = elim (Bool-cases (text_eq a name)) [
    | inl same ↦ absurd (ne (sym ((text_eq_iff a name).0 same)))
    | inr different ↦ different
  ]

  strips :
      (tokens : List Text) (name : Text)
      → contains request_strip name ≡ true
      → is_stripped h tokens request_strip name ≡ true
  unfolding is_stripped
  strips tokens name c = ground arith

  inserted :
      (before : h.HeaderMap) (value : h.HeaderValue) (a name : Text)
      → name ≢ a
      → h.get_all name (h.insert a value before) ≡ h.get_all name before
  inserted before value a name ne = rw (laws.get_all_insert, other_name name a ne) refl

  not_length :
      (tokens : List Text) (name : Text)
      → is_stripped h tokens request_strip name ≡ false
      → (name ≢ content_length) × (name ≢ authorization)
  not_length tokens name kept_here = (
    λ e. true≢false (strips tokens name (rw e strips_content_length)) kept_here,
    λ e. true≢false (strips tokens name (rw e strips_authorization)) kept_here,
  )

  Injected-other :
      (api_key : Option Text) (before after : h.HeaderMap) (name : Text)
      → Injected api_key before after
      → name ≢ authorization
      → h.get_all name after ≡ h.get_all name before
  Injected-other none before after name i ne = ap (h.get_all name) i
  Injected-other (some api_key) before after name (value, valid, i) ne =
      ap (h.get_all name) i ∙ inserted before value authorization name ne

  base-authorization :
      (source : h.HeaderMap) (body : Bytes)
      → h.get_all authorization (base_headers h source body) ≡ []
  base-authorization source body =
      base_headers-values source body authorization
      ∙ rw
          (
            other_name authorization content_length (λ e. content_length-ne-authorization (sym e)),
            strips (connection_tokens h source) authorization strips_authorization,
          )
          refl

  Injected-Credentials :
      (api_key : Option Text) (source after : h.HeaderMap) (body : Bytes)
      → Injected api_key (base_headers h source body) after
      → Credentials api_key (h.get_all authorization after)
  Injected-Credentials none source after body i =
      ap (h.get_all authorization) i ∙ base-authorization source body
  Injected-Credentials (some api_key) source after body (value, valid, i) = (
    value,
    valid,
    ap (h.get_all authorization) i ∙ rw (laws.get_all_insert, text_eq_refl authorization) refl,
  )

  Injected-IsMapped :
      (api_key : Option Text) (source after : h.HeaderMap) (body : Bytes)
      → Injected api_key (base_headers h source body) after
      → IsMapped api_key source body after
  Injected-IsMapped api_key source after body i = record {
    credentials = Injected-Credentials api_key source after body i;
    length_is =
        Injected-other api_key (base_headers h source body) after content_length i
          content_length-ne-authorization
        ∙ base_headers-values source body content_length
        ∙ rw (text_eq_refl content_length);
    withheld = λ name ne_auth ne_len stripped.
        Injected-other api_key (base_headers h source body) after name i ne_auth
        ∙ base_headers-values source body name
        ∙ rw (other_name name content_length ne_len, stripped);
    passed_on = λ name kept_here.
        let (ne_len, ne_auth) = not_length (connection_tokens h source) name kept_here in
        Injected-other api_key (base_headers h source body) after name i ne_auth
        ∙ base_headers-values source body name
        ∙ rw (other_name name content_length ne_len, kept_here);
  }

  -- The request that is sent upstream has the caller's method and the given address and body, and
  -- carries in `Authorization` the upstream's own key, or nothing if it has none; in
  -- `Content-Length` the length of the body that is sent; no value of any other hop-by-hop header,
  -- of any other header to strip (`Host`, `X-API-Key`, `X-Model`, `Expect`), or of any other header
  -- that the caller's `Connection` names; and all the caller's values of every other header.
  pub build_request-IsMapped :
      (u : Uris) (client : Client h u) (upstream : Upstream u) (parts : Parts h u) (target : u.Uri)
      (body : Bytes) (request : Request h u)
      → build_request h u client upstream parts target body ≡ ok request
      → IsMapped upstream.api_key parts.headers body request.headers
        × (request.method ≡ parts.method)
        × (request.uri ≡ target)
        × (request.body ≡ body)
  unfolding build_request
  build_request-IsMapped u client upstream parts target body request e =
      let (headers, injected, rest) = bind-eq-ok (inject_key h upstream.api_key _) _ e in
      let (_, built, made) = bind-eq-ok (map_err _ (client.builds parts.method target)) _ rest in
      let mapped =
        Injected-IsMapped upstream.api_key parts.headers headers body
          (inject_key-Injected upstream.api_key _ headers injected) in
      rw (← ok-injective made) (mapped, refl, refl, refl)
