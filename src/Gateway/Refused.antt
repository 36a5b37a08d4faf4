-- ===== src/Gateway/Refused.antt =====
-- src/gateway.rs: a request that is not authenticated learns nothing of the upstreams.
use llm_conduit.Prelude.{
  ℕ, ◌≡◌, refl, sym, ap, ◌∙◌, Option, false, err, arith, Bool-cases, Option-cases, inl, inr,
}
use llm_conduit.Prelude.Text.{Text, Bytes, codes, text_eq}
use llm_conduit.Body.{Body}
use llm_conduit.Errors.{GatewayError}
use llm_conduit.Http.{Headers, HeaderLaws, Uris, get_text, get_value}
use llm_conduit.Serde.{SerdeJson}
use llm_conduit.Config.{AuthConfig}
use llm_conduit.Auth.{authenticate, extract_key, authorization, api_key_header}
use llm_conduit.Auth.Keys.{authenticate-Decided}
use llm_conduit.RequestId.{request_id, request_id_header}
use llm_conduit.Observe.{RequestLog, new_log}
use llm_conduit.Proxy.{Parts}
use llm_conduit.Gateway.Probe.{RequestProbe, no_probe}
use llm_conduit.Gateway.{Gateway, dispatch, set_request_id, respond, handle, into_response}

authorization-apart : text_eq request_id_header authorization ≡ false
unfolding text_eq codes
authorization-apart = refl

api_key-apart : text_eq request_id_header api_key_header ≡ false
unfolding text_eq codes
api_key-apart = refl

module _ (h : Headers) (u : Uris) (s : SerdeJson) (from_static : Text → h.HeaderValue)
    (laws : HeaderLaws h) where
  get_text-set_request_id :
      (id : Text) (headers : h.HeaderMap) (name : Text)
      → text_eq request_id_header name ≡ false
      → get_text h (set_request_id h u s from_static id headers) name ≡ get_text h headers name
  unfolding set_request_id get_text get_value
  get_text-set_request_id id headers name apart = elim (Option-cases (h.from_str id)) [
    | inl unfit ↦ rw (unfit, set_request_id) refl
    | inr (value, fit) ↦
        let kept : h.get_all name (h.insert request_id_header value headers)
            ≡ h.get_all name headers =
          laws.get_all_insert request_id_header name value headers ∙ rw apart in
        rw (fit, set_request_id, kept) refl
  ]

  authenticate-set_request_id :
      (auth : AuthConfig) (id : Text) (headers : h.HeaderMap)
      → authenticate h auth (set_request_id h u s from_static id headers)
        ≡ authenticate h auth headers
  unfolding authenticate extract_key
  authenticate-set_request_id auth id headers =
      rw
        (
          get_text-set_request_id id headers authorization authorization-apart,
          get_text-set_request_id id headers api_key_header api_key-apart,
        )
        refl

  authenticate-err :
      (auth : AuthConfig) (headers : h.HeaderMap) (e : GatewayError)
      → authenticate h auth headers ≡ err e
      → e.status ≡ 401
  unfolding authenticate
  authenticate-err auth headers e refused = elim (Bool-cases auth.enabled) [
    | inl on ↦ (authenticate-Decided h auth headers on).rejected e refused
    | inr off ↦ absurd (ground arith)
  ]

  dispatch-refused :
      (g : Gateway h u s from_static) (parts : Parts h u) (body : Body) (log : RequestLog)
      (probe : RequestProbe) (e : GatewayError)
      → authenticate h g.config.auth parts.headers ≡ err e
      → dispatch h u s from_static g parts body log probe
        ≡ record { log = log; probe = probe; outcome = err e }
  unfolding dispatch
  dispatch-refused g parts body log probe e refused = rw (refused, dispatch) refl

  handle-refused :
      (render : Text → Bytes) (g : Gateway h u s from_static) (random : Option Bytes)
      (nanos started : ℕ) (parts : Parts h u) (body : Body) (e : GatewayError)
      → authenticate h g.config.auth parts.headers ≡ err e
      → handle h u s from_static render g random nanos started parts body
        ≡ respond h u s from_static render (record {
          log =
              new_log
                (request_id h parts.headers random nanos)
                parts.method
                (u.path parts.uri)
                started;
          probe = no_probe;
          outcome = err e;
        })
  unfolding handle
  handle-refused render g random nanos started parts body e refused =
      let id = request_id h parts.headers random nanos in
      ap (respond h u s from_static render) (
        dispatch-refused g
          (record parts { headers = set_request_id h u s from_static id parts.headers }) body _
          no_probe e (authenticate-set_request_id g.config.auth id parts.headers ∙ refused))

  -- Two gateways with the same authentication settings answer and log a request that is not
  -- authenticated in the same way, whatever their upstreams, their clients and the body of the
  -- request are; the answer is a 401.
  pub handle-independent :
      (render : Text → Bytes) (g g' : Gateway h u s from_static) (random : Option Bytes)
      (nanos started : ℕ) (parts : Parts h u) (body body' : Body) (e : GatewayError)
      → g.config.auth ≡ g'.config.auth
      → authenticate h g.config.auth parts.headers ≡ err e
      → (handle h u s from_static render g random nanos started parts body
          ≡ handle h u s from_static render g' random nanos started parts body')
        × ((handle h u s from_static render g random nanos started parts body).status ≡ 401)
  unfolding respond into_response
  handle-independent render g g' random nanos started parts body body' e same refused =
      let first_answer = handle-refused render g random nanos started parts body e refused in
      (
        first_answer
            ∙ sym
                (handle-refused render g' random nanos started parts body' e (rw same at refused)),
        ap (λ a. a.status) first_answer ∙ authenticate-err g.config.auth parts.headers e refused,
      )
