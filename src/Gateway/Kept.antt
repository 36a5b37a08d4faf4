-- ===== src/Gateway/Kept.antt =====
-- src/gateway.rs: what `dispatch` and `handle` leave in the log as it was, and what they fill in.
use llm_conduit.Prelude.{
  ℕ, ◌≡◌, refl, ◌∙◌, Bool, Option, none, some, Bool-cases, Option-cases, Result, ok, err,
  Result-cases, inl, inr, length,
}
use llm_conduit.Prelude.Map.{get}
use llm_conduit.Prelude.Text.{Text, Bytes}
use llm_conduit.Body.{Body}
use llm_conduit.Errors.{GatewayError}
use llm_conduit.Http.{Headers, Uris}
use llm_conduit.Serde.{SerdeJson}
use llm_conduit.Auth.{authenticate}
use llm_conduit.Observe.{RequestLog}
use llm_conduit.Proxy.{Parts, Response, read_body}
use llm_conduit.Gateway.Probe.{RequestProbe, apply}
use llm_conduit.Gateway.{
  Gateway, Dispatched, dispatch_model, dispatch_body, is_listing, dispatch_caller, dispatch,
  log_error,
}

module _ (h : Headers) (u : Uris) (s : SerdeJson) (from_static : Text → h.HeaderValue) where
  -- The fields of the log that `dispatch` leaves alone.
  pub record IsKept (before after : RequestLog) : Type 0 where
    pub request_id : after.request_id ≡ before.request_id
    pub method : after.method ≡ before.method
    pub path : after.path ≡ before.path
    pub started : after.started ≡ before.started
    pub usage : after.usage ≡ before.usage
    pub error : after.error ≡ before.error

  -- What `dispatch` writes into the log is none of them.
  IsKept-filled :
      (log : RequestLog) (caller model upstream : Option Text) (request_bytes : ℕ)
      → IsKept log (record log {
        caller = caller;
        model = model;
        upstream = upstream;
        request_bytes = request_bytes;
      })
  IsKept-filled log caller model upstream request_bytes = record {
    request_id = refl;
    method = refl;
    path = refl;
    started = refl;
    usage = refl;
    error = refl;
  }

  IsKept-refl : (log : RequestLog) → IsKept log log
  IsKept-refl log = IsKept-filled log log.caller log.model log.upstream log.request_bytes

  IsKept-trans :
      (before between after : RequestLog)
      → IsKept before between
      → IsKept between after
      → IsKept before after
  IsKept-trans before between after j k = record {
    request_id = k.request_id ∙ j.request_id;
    method = k.method ∙ j.method;
    path = k.path ∙ j.path;
    started = k.started ∙ j.started;
    usage = k.usage ∙ j.usage;
    error = k.error ∙ j.error;
  }

  dispatch_model-IsKept :
      (g : Gateway h u s from_static) (parts : Parts h u) (bytes : Bytes) (named : Option Text)
      (log : RequestLog) (probe : RequestProbe) (model : Option Text)
      → IsKept log (dispatch_model h u s from_static g parts bytes named log probe model).log
  unfolding dispatch_model
  dispatch_model-IsKept g parts bytes named log probe none = IsKept-refl log
  dispatch_model-IsKept g parts bytes named log probe (some model) =
      elim (Option-cases (get model g.upstreams)) [
        | inl missing ↦ rw (missing, dispatch_model) (IsKept-refl log)
        | inr (upstream, found) ↦
            rw (found, dispatch_model)
              (IsKept-filled log log.caller (some model) (some upstream.name) log.request_bytes)
      ]

  dispatch_caller-IsKept :
      (g : Gateway h u s from_static) (parts : Parts h u) (body : Body) (log : RequestLog)
      (probe : RequestProbe)
      → IsKept log (dispatch_caller h u s from_static g parts body log probe).log
  unfolding dispatch_caller dispatch_body
  dispatch_caller-IsKept g parts body log probe =
      elim (Bool-cases (is_listing h u s from_static parts)) [
        | inl listing ↦ rw listing (IsKept-refl log)
        | inr request ↦ elim (Result-cases (read_body body g.config.server.max_body_bytes)) [
          | inl (bytes, was_read) ↦
              let k =
                dispatch_model-IsKept g parts bytes _ (record log { request_bytes = length bytes })
                  _ _ in
              rw (request, was_read)
                (IsKept-trans log _ _
                  (IsKept-filled log log.caller log.model log.upstream (length bytes)) k)
          | inr (e, broken) ↦ rw (request, broken) (IsKept-refl log)
        ]
      ]

  pub dispatch-IsKept :
      (g : Gateway h u s from_static) (parts : Parts h u) (body : Body) (log : RequestLog)
      (probe : RequestProbe)
      → IsKept log (dispatch h u s from_static g parts body log probe).log
  unfolding dispatch
  dispatch-IsKept g parts body log probe =
      elim (Result-cases (authenticate h g.config.auth parts.headers)) [
        | inl (caller, passed) ↦
            let k = dispatch_caller-IsKept g parts body (record log { caller = caller }) probe in
            rw (passed, dispatch)
              (IsKept-trans log _ _
                (IsKept-filled log caller log.model log.upstream log.request_bytes) k)
        | inr (e, refused) ↦ rw (refused, dispatch) (IsKept-refl log)
      ]

  -- What `dispatch` left in the log and in the probe is what the line tells of the request.
  pub record IsFilled (d : Dispatched h u s from_static) (log : RequestLog) : Type 0 where
    pub request_id : log.request_id ≡ d.log.request_id
    pub method : log.method ≡ d.log.method
    pub path : log.path ≡ d.log.path
    pub started : log.started ≡ d.log.started
    pub caller : log.caller ≡ d.log.caller
    pub model : log.model ≡ d.log.model
    pub upstream : log.upstream ≡ d.log.upstream
    pub request_bytes : log.request_bytes ≡ d.log.request_bytes
    pub effort : log.effort ≡ d.probe.effort
    pub max_tokens : log.max_tokens ≡ d.probe.usage.max_tokens
    pub requested_choices : log.requested_choices ≡ d.probe.usage.choices
    pub usage : log.usage ≡ d.log.usage

  IsFilled-apply :
      (d : Dispatched h u s from_static) (status : ℕ) (streaming : Bool) (error : Option Text)
      → IsFilled d (record (apply d.probe (record d.log { error = error })) {
        status = status;
        streaming = streaming;
      })
  unfolding apply
  IsFilled-apply d status streaming error = record {
    request_id = refl;
    method = refl;
    path = refl;
    started = refl;
    caller = refl;
    model = refl;
    upstream = refl;
    request_bytes = refl;
    effort = refl;
    max_tokens = refl;
    requested_choices = refl;
    usage = refl;
  }

  pub log_error-IsFilled :
      (r : Result GatewayError (Response h u)) (d : Dispatched h u s from_static) (status : ℕ)
      (streaming : Bool)
      → IsFilled d (record (apply d.probe (log_error h u s from_static r d.log)) {
        status = status;
        streaming = streaming;
      })
  log_error-IsFilled (ok response) d status streaming =
      IsFilled-apply d status streaming d.log.error
  log_error-IsFilled (err error) d status streaming =
      IsFilled-apply d status streaming (some error.message)
