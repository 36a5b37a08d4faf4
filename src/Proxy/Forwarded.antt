-- ===== src/Proxy/Forwarded.antt =====
-- src/proxy.rs: what `forward` answers.
use llm_conduit.Prelude.{
  ◌≡◌, refl, sym, ap, ◌∙◌, [], ◌++◌, Option, none, some, ok, err, if◌then◌else◌, inl, inr,
  bind-eq-ok, bind-eq-err, map_err, ok_or, ok-injective, map_err-eq-ok, map_err-eq-err,
  ok_or-eq-err,
}
use llm_conduit.Prelude.Text.{Text, Bytes, codes}
use llm_conduit.Errors.{GatewayError}
use llm_conduit.Http.{Headers, HeaderLaws, Uris}
use llm_conduit.Serde.{SerdeJson}
use llm_conduit.Config.{Upstream, target_uri}
use llm_conduit.Proxy.{
  connection_tokens, is_stripped, response_strip, Parts, Request, Response, Client, build_request,
  upstream_body, pass_on, forward, inject_key, base_headers,
}
use llm_conduit.Proxy.Entries.{copy_headers-kept}
use llm_conduit.Proxy.Copied.{IsMapped, build_request-IsMapped}

module _ (h : Headers) (laws : HeaderLaws h) (u : Uris) (s : SerdeJson) where
  -- A response that was forwarded: the request that went out, and the upstream's answer to it.
  pub record IsForwarded (client : Client h u) (upstream : Upstream u) (parts : Parts h u)
      (body : Bytes) (body_model : Option Text) (response : Response h u) : Type 0 where
    pub target : u.Uri
    pub target_is : target_uri u upstream parts.uri ≡ ok target
    pub sent : Request h u
    pub mapped : IsMapped h laws upstream.api_key parts.headers sent.body sent.headers
    pub method_is : sent.method ≡ parts.method
    pub uri_is : sent.uri ≡ target
    pub body_is : sent.body ≡ upstream_body s upstream.upstream_model body body_model
    pub answer : Response h u
    pub answered : client.send sent ≡ ok answer
    pub status_is : response.status ≡ answer.status
    pub body_kept : response.body ≡ answer.body
    pub headers_kept :
        (name : Text)
        → h.get_all name response.headers ≡ (
            if is_stripped h (connection_tokens h answer.headers) response_strip name
            then []
            else h.get_all name answer.headers)

  -- A response that `forward` returns is the upstream's own answer, with its status, its body and
  -- its end-to-end headers, to a request that was mapped from the caller's.
  pub forward-IsForwarded :
      (client : Client h u) (upstream : Upstream u) (parts : Parts h u) (body : Bytes)
      (body_model : Option Text) (response : Response h u)
      → forward h u s client upstream parts body body_model ≡ ok response
      → IsForwarded client upstream parts body body_model response
  unfolding forward pass_on
  forward-IsForwarded client upstream parts body body_model response e =
      let (target, targeted, e₁) = bind-eq-ok (target_uri u upstream parts.uri) _ e in
      let (request, built, e₂) =
        bind-eq-ok (build_request h u client upstream parts target _) _ e₁ in
      let (answer, answered, made) = bind-eq-ok (map_err _ (client.send request)) _ e₂ in
      let (mapped, method_is, uri_is, body_is) =
        build_request-IsMapped h laws u client upstream parts target _ request built in
      rw (← ok-injective made) (record {
        target = target;
        target_is = targeted;
        sent = request;
        mapped = rw body_is mapped;
        method_is = method_is;
        uri_is = uri_is;
        body_is = body_is;
        answer = answer;
        answered = map_err-eq-ok _ (client.send request) answered;
        status_is = refl;
        body_kept = refl;
        headers_kept = λ name.
            copy_headers-kept h laws answer.headers h.empty response_strip name
            ∙ rw (laws.get_all_empty name) refl;
      })

  target_uri-err :
      (upstream : Upstream u) (uri : u.Uri) (e : GatewayError)
      → target_uri u upstream uri ≡ err e
      → e.status ≡ 500
  unfolding target_uri
  target_uri-err upstream uri e failed =
      elim (bind-eq-err (ok_or (u.authority upstream.base) _) _ failed) [
        | inl hostless ↦ rw (← ok_or-eq-err (u.authority upstream.base) _ hostless) refl
        | inr (authority, hosted, later) ↦
            let (d, _, is) = map_err-eq-err _ (u.build _ authority _) later in rw (← is) refl
      ]

  inject_key-err :
      (api_key : Option Text) (headers : h.HeaderMap) (e : GatewayError)
      → inject_key h api_key headers ≡ err e
      → e.status ≡ 500
  unfolding inject_key
  inject_key-err none headers e failed = cc
  inject_key-err (some api_key) headers e failed =
      elim (bind-eq-err (ok_or (h.from_str (codes "Bearer " ++ api_key)) _) _ failed) [
        | inl invalid ↦ rw (← ok_or-eq-err (h.from_str (codes "Bearer " ++ api_key)) _ invalid) refl
        | inr (value, valid, later) ↦ cc
      ]

  build_request-err :
      (client : Client h u) (upstream : Upstream u) (parts : Parts h u) (target : u.Uri)
      (body : Bytes) (e : GatewayError)
      → build_request h u client upstream parts target body ≡ err e
      → e.status ≡ 500
  unfolding build_request
  build_request-err client upstream parts target body e failed =
      elim (bind-eq-err (inject_key h upstream.api_key (base_headers h parts.headers body)) _
        failed) [
          | inl unkeyed ↦ inject_key-err upstream.api_key _ e unkeyed
          | inr (headers, _, later) ↦
              elim (bind-eq-err (map_err _ (client.builds parts.method target)) _ later) [
                | inl unbuilt ↦
                    let (d, _, is) = map_err-eq-err _ (client.builds parts.method target) unbuilt in
                    rw (← is) refl
                | inr (_, _, made) ↦ cc
              ]
        ]

  -- Why a request is not forwarded, with the error that it ends with.
  pub data Unforwarded (client : Client h u) (upstream : Upstream u) (parts : Parts h u)
      (body : Bytes) (e : GatewayError) : Type 0 where
    addressless :
        target_uri u upstream parts.uri ≡ err e
        → e.status ≡ 500
        → Unforwarded client upstream parts body e
    unbuilt :
        (target : u.Uri)
        → target_uri u upstream parts.uri ≡ ok target
        → build_request h u client upstream parts target body ≡ err e
        → e.status ≡ 500
        → Unforwarded client upstream parts body e
    unanswered :
        (target : u.Uri) (request : Request h u) (why : Text)
        → target_uri u upstream parts.uri ≡ ok target
        → build_request h u client upstream parts target body ≡ ok request
        → client.send request ≡ err why
        → e.status ≡ 502
        → e.message ≡ codes "upstream '" ++ (upstream.name ++ (codes "' request failed: " ++ why))
        → Unforwarded client upstream parts body e

  -- A request that cannot be forwarded gets a 500 if its address, or with that address the request to
  -- the upstream could not be built; and where both were built it gets a 502, which names the upstream
  -- and says why, if the upstream failed to answer that request.
  pub forward-err :
      (client : Client h u) (upstream : Upstream u) (parts : Parts h u) (body : Bytes)
      (body_model : Option Text) (e : GatewayError)
      → forward h u s client upstream parts body body_model ≡ err e
      → Unforwarded client upstream parts
          (upstream_body s upstream.upstream_model body body_model)
          e
  unfolding forward
  forward-err client upstream parts body body_model e failed =
      elim (bind-eq-err (target_uri u upstream parts.uri) _ failed) [
        | inl nowhere ↦ addressless nowhere (target_uri-err upstream parts.uri e nowhere)
        | inr (target, there, later) ↦
            elim (bind-eq-err (build_request h u client upstream parts target _) _ later) [
              | inl broken ↦
                  unbuilt target there broken
                    (build_request-err client upstream parts target _ e broken)
              | inr (request, built, sent) ↦
                  elim (bind-eq-err (map_err _ (client.send request)) _ sent) [
                    | inl silent ↦
                        let (why, is_why, is) = map_err-eq-err _ (client.send request) silent in
                        unanswered target request why there built is_why
                          (sym (ap (λ x. x.status) is)) (sym (ap (λ x. x.message) is))
                    | inr (answer, _, made) ↦ cc
                  ]
            ]
      ]
