-- ===== src/Gateway/Routed.antt =====
-- src/gateway.rs: where `dispatch` sends a request, and why it refuses one.
use llm_conduit.Prelude.{
  ◌≡◌, refl, Option, none, some, true, false, Result, ok, err, Bool-cases, Option-cases,
  Result-cases, inl, inr, length,
}
use llm_conduit.Prelude.Map.{get}
use llm_conduit.Prelude.Text.{Text, Bytes}
use llm_conduit.Body.{Body}
use llm_conduit.Errors.{GatewayError}
use llm_conduit.Http.{Headers, Uris}
use llm_conduit.Serde.{SerdeJson}
use llm_conduit.Config.{Upstream}
use llm_conduit.Auth.{authenticate}
use llm_conduit.Observe.{RequestLog}
use llm_conduit.Proxy.{Parts, Response, read_body, forward}
use llm_conduit.Gateway.Probe.{RequestProbe}
use llm_conduit.Gateway.{
  Gateway, Dispatched, header_model, body_model, resolve_model, client_for, models_response,
  dispatch_model, dispatch_body, is_listing, dispatch_caller, dispatch,
}

module _ (h : Headers) (u : Uris) (s : SerdeJson) (from_static : Text → h.HeaderValue)
    (g : Gateway h u s from_static) (parts : Parts h u) (body : Body) where
  -- The model that decides on the upstream, of a body that was read.
  abbrev pub named_in : Bytes → Option Text
  named_in bytes = body_model h u s from_static (header_model h u s from_static parts.headers) bytes

  abbrev pub model_of : Bytes → Option Text
  model_of bytes =
      resolve_model h u s from_static g (header_model h u s from_static parts.headers)
        (named_in bytes)

  abbrev pub exchange : Upstream u → Bytes → Result GatewayError (Response h u)
  exchange upstream bytes =
      forward h u s (client_for h u s from_static g upstream) upstream parts bytes (named_in bytes)

  abbrev Decision : Type 0
  Decision = Dispatched h u s from_static

  -- The ways of a request through `dispatch`, each with its end.
  pub data Way : Decision → Type 0 where
    refused :
        {d : Decision} {e : GatewayError}
        → authenticate h g.config.auth parts.headers ≡ err e
        → d.outcome ≡ err e
        → Way d
    listed :
        {d : Decision} {caller : Option Text}
        → authenticate h g.config.auth parts.headers ≡ ok caller
        → is_listing h u s from_static parts ≡ true
        → d.outcome ≡ ok (models_response h u s from_static g)
        → d.log.caller ≡ caller
        → Way d
    unread :
        {d : Decision} {caller : Option Text} {e : GatewayError}
        → authenticate h g.config.auth parts.headers ≡ ok caller
        → is_listing h u s from_static parts ≡ false
        → read_body body g.config.server.max_body_bytes ≡ err e
        → d.outcome ≡ err e
        → d.log.caller ≡ caller
        → Way d
    unnamed :
        {d : Decision} {caller : Option Text} {bytes : Bytes} {e : GatewayError}
        → authenticate h g.config.auth parts.headers ≡ ok caller
        → is_listing h u s from_static parts ≡ false
        → read_body body g.config.server.max_body_bytes ≡ ok bytes
        → model_of bytes ≡ none
        → d.outcome ≡ err e
        → e.status ≡ 400
        → d.log.caller ≡ caller
        → Way d
    unknown :
        {d : Decision} {caller : Option Text} {bytes : Bytes} {model : Text} {e : GatewayError}
        → authenticate h g.config.auth parts.headers ≡ ok caller
        → is_listing h u s from_static parts ≡ false
        → read_body body g.config.server.max_body_bytes ≡ ok bytes
        → model_of bytes ≡ some model
        → get model g.upstreams ≡ none
        → d.outcome ≡ err e
        → e.status ≡ 404
        → d.log.caller ≡ caller
        → Way d
    routed :
        {d : Decision} {caller : Option Text} {bytes : Bytes} {model : Text} {upstream : Upstream u}
        → authenticate h g.config.auth parts.headers ≡ ok caller
        → is_listing h u s from_static parts ≡ false
        → read_body body g.config.server.max_body_bytes ≡ ok bytes
        → model_of bytes ≡ some model
        → get model g.upstreams ≡ some upstream
        → d.outcome ≡ exchange upstream bytes
        → d.log.caller ≡ caller
        → d.log.model ≡ some model
        → d.log.upstream ≡ some upstream.name
        → d.log.request_bytes ≡ length bytes
        → Way d

  body-Way :
      (caller : Option Text) (bytes : Bytes) (log : RequestLog) (probe : RequestProbe)
      → authenticate h g.config.auth parts.headers ≡ ok caller
      → is_listing h u s from_static parts ≡ false
      → read_body body g.config.server.max_body_bytes ≡ ok bytes
      → log.caller ≡ caller
      → log.request_bytes ≡ length bytes
      → Way (dispatch_body h u s from_static g parts bytes log probe)
  unfolding dispatch_body dispatch_model
  body-Way caller bytes log probe passed request was_read logged counted =
      elim (Option-cases (model_of bytes)) [
        | inl nameless ↦
            rw (nameless, dispatch_model)
              (unnamed passed request was_read nameless refl refl logged)
        | inr (model, chosen) ↦ elim (Option-cases (get model g.upstreams)) [
          | inl missing ↦
              rw (chosen, dispatch_model, missing)
                (unknown passed request was_read chosen missing refl refl logged)
          | inr (upstream, found) ↦
              rw (chosen, dispatch_model, found)
                (routed passed request was_read chosen found refl logged refl refl counted)
        ]
      ]

  caller-Way :
      (caller : Option Text) (log : RequestLog) (probe : RequestProbe)
      → authenticate h g.config.auth parts.headers ≡ ok caller
      → log.caller ≡ caller
      → Way (dispatch_caller h u s from_static g parts body log probe)
  unfolding dispatch_caller
  caller-Way caller log probe passed logged =
      elim (Bool-cases (is_listing h u s from_static parts)) [
        | inl listing ↦ rw listing (listed passed listing refl logged)
        | inr request ↦ elim (Result-cases (read_body body g.config.server.max_body_bytes)) [
          | inl (bytes, was_read) ↦
              rw (request, was_read)
                (body-Way caller bytes _ probe passed request was_read logged refl)
          | inr (e, broken) ↦ rw (request, broken) (unread passed request broken refl logged)
        ]
      ]

  -- Every request takes one way through `dispatch`. One that is not authenticated ends with the
  -- refusal. Of the others, `GET /v1/models` gets the listing and takes no other way; of those that
  -- are not that, one whose body cannot be read ends with that error; one that names no model, in
  -- the header, in the body or by the default, gets a 400; one whose model is not configured gets a
  -- 404; every other one gets what forwarding it to the upstream of that name gives, and is logged
  -- under its caller, model and upstream with the size of its body.
  pub dispatch-Way :
      (log : RequestLog) (probe : RequestProbe)
      → Way (dispatch h u s from_static g parts body log probe)
  unfolding dispatch
  dispatch-Way log probe = elim (Result-cases (authenticate h g.config.auth parts.headers)) [
    | inl (caller, passed) ↦ rw (passed, dispatch) (caller-Way caller _ probe passed refl)
    | inr (e, failed) ↦ rw (failed, dispatch) (refused failed refl)
  ]
