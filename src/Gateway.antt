-- ===== src/Gateway.antt =====
-- src/gateway.rs: one request from its gate to its log line. The log lines of `debug!` and `warn!`
-- are left out.
pub mod Probe
pub mod New
pub mod Serve
pub mod Routed
pub mod Answers
pub mod Counted
pub mod Kept
pub mod Startup
pub mod Refused
pub mod Listing
pub mod Models
pub mod Logged
pub mod Metered
use llm_conduit.Prelude.{
  ◌>>=◌, ◌>>◌, any, ℕ, List, [], ◌∷◌, ◌++◌, Option, none, some, Bool, true, false, not, ◌&&◌, ◌||◌,
  Result, ok, err, ◌==◌, if◌then◌else◌, is_some, and_then, or_else, length,
}
use llm_conduit.Prelude.Map.{Map, keys, get}
use llm_conduit.Prelude.Text.{Text, Bytes, codes, text_eq, trim, starts_with}
use llm_conduit.Body.{Event, Body, full_body}
use llm_conduit.Errors.{StartupError, GatewayError, bad_request, not_found}
use llm_conduit.Http.{Headers, get_text, Uris}
use llm_conduit.Serde.{SerdeJson}
use llm_conduit.Config.{Config, Upstream, validate, resolve_upstreams}
use llm_conduit.Health.{HealthState, new_state, Readiness, readyz}
use llm_conduit.Auth.{authenticate, usable}
use llm_conduit.JsonModel.{extract_model}
use llm_conduit.Usage.Types.{TokenUsage}
use llm_conduit.Usage.Effort.{extract_effort, merge_effort}
use llm_conduit.Usage.Request.{RequestUsage, no_usage, extract_request_usage}
use llm_conduit.Usage.Scanner.{UsageScanner, push}
use llm_conduit.RequestId.{request_id, request_id_header}
use llm_conduit.Observe.{
  RequestLog, new_log, MeteredBody, metered, is_client_error, is_server_error,
}
use llm_conduit.Proxy.{Parts, Response, Client, read_body, forward, content_length}
use llm_conduit.Gateway.Probe.{
  RequestProbe, no_probe, apply, UsageObserver, new_observer, observe, with_usage,
}

abbrev pub x_model : Text
x_model = codes "x-model"

abbrev pub content_type : Text
content_type = codes "content-type"

abbrev pub listing_path : Text
listing_path = codes "/v1/models"

module _ (h : Headers) (u : Uris) (s : SerdeJson) (from_static : Text → h.HeaderValue) where
  unfoldable pub header_model : h.HeaderMap → Option Text
  header_model headers = and_then (get_text h headers x_model) (λ raw. usable (trim raw))

  unfoldable pub is_streaming : h.HeaderMap → Bool
  is_streaming headers = elim (get_text h headers content_type) [
    | none ↦ false
    | some value ↦ starts_with value (codes "text/event-stream")
  ]

  -- `RequestProbe::record`
  unfoldable pub record_probe : RequestProbe → Bytes → RequestProbe
  record_probe probe body = record {
    effort = merge_effort probe.effort (extract_effort s body);
    usage = extract_request_usage s body;
  }

  -- `Gateway`; the two clients are those of the TLS setup.
  pub record Gateway : Type 0 where
    pub config : Config
    pub upstreams : Map (Upstream u)
    pub client : Client h u
    pub insecure_client : Option (Client h u)
    pub models : Bytes

  unfoldable pub models_response : Gateway → Response h u
  models_response g = record {
    status = 200;
    headers = h.insert content_type (from_static (codes "application/json")) h.empty;
    body = full_body g.models;
  }

  -- `self.insecure_client.as_ref().unwrap_or(&self.client)`
  abbrev or_client : Option (Client h u) → Client h u → Client h u
  or_client none client = client
  or_client (some insecure) client = insecure

  unfoldable pub client_for : Gateway → Upstream u → Client h u
  client_for g upstream =
      if upstream.insecure_skip_verify then or_client g.insecure_client g.client else g.client

  -- What `dispatch` leaves: the log and the probe as far as it wrote them, and its result.
  pub record Dispatched : Type 0 where
    pub log : RequestLog
    pub probe : RequestProbe
    pub outcome : Result GatewayError (Response h u)

  -- Step 4: the model that the body names; the body is not parsed if the header names one.
  unfoldable pub body_model : Option Text → Bytes → Option Text
  body_model (some model) bytes = none
  body_model none bytes = extract_model s bytes

  unfoldable pub resolve_model : Gateway → Option Text → Option Text → Option Text
  resolve_model g header body = or_else header (or_else body g.config.server.default_upstream)

  -- Steps 5 and 6.
  unfoldable pub dispatch_model :
      Gateway
      → Parts h u
      → Bytes
      → Option Text
      → RequestLog
      → RequestProbe
      → Option Text
      → Dispatched
  dispatch_model g parts bytes named log probe none = record {
    log = log;
    probe = probe;
    outcome = err (
        bad_request (
          codes
            "no model specified: provide an 'X-Model' header, a top-level 'model' field in the body, or configure server.default_upstream"));
  }
  dispatch_model g parts bytes named log probe (some model) = elim (get model g.upstreams) [
    | none ↦ record {
      log = log;
      probe = probe;
      outcome = err (
          not_found (
            codes "unknown model '"
            ++ (model ++ codes "': no upstream with that name is configured")));
    }
    | some upstream ↦ record {
      log = record log { model = some model; upstream = some upstream.name };
      probe = probe;
      outcome = forward h u s (client_for g upstream) upstream parts bytes named;
    }
  ]

  -- Steps 4 to 6, on the body that was read.
  unfoldable pub dispatch_body :
      Gateway → Parts h u → Bytes → RequestLog → RequestProbe → Dispatched
  dispatch_body g parts bytes log probe =
      let header = header_model parts.headers in
      let named = body_model header bytes in
      dispatch_model g parts bytes named log
        (if is_some named then record_probe probe bytes else probe) (resolve_model g header named)

  abbrev pub is_listing : Parts h u → Bool
  is_listing parts = text_eq parts.method (codes "GET") && text_eq (u.path parts.uri) listing_path

  -- Steps 2 and 3.
  unfoldable pub dispatch_caller :
      Gateway → Parts h u → Body → RequestLog → RequestProbe → Dispatched
  dispatch_caller g parts body log probe =
      if is_listing parts
      then record { log = log; probe = probe; outcome = ok (models_response g) }
      else elim (read_body body g.config.server.max_body_bytes) [
        | err e ↦ record { log = log; probe = probe; outcome = err e }
        | ok bytes ↦ dispatch_body g parts bytes (record log { request_bytes = length bytes }) probe
      ]

  unfoldable pub dispatch : Gateway → Parts h u → Body → RequestLog → RequestProbe → Dispatched
  dispatch g parts body log probe = elim (authenticate h g.config.auth parts.headers) [
    | err e ↦ record { log = log; probe = probe; outcome = err e }
    | ok caller ↦ dispatch_caller g parts body (record log { caller = caller }) probe
  ]

  -- `GatewayError::into_response`; `render` is how the crate prints the payload of a message.
  unfoldable pub into_response : (Text → Bytes) → GatewayError → Response h u
  into_response render error = record {
    status = error.status;
    headers =
        h.append content_length (h.from_u64 (length (render error.message)))
          (h.append content_type (from_static (codes "application/json")) h.empty);
    body = full_body (render error.message);
  }

  -- `if let Ok(value) = HeaderValue::from_str(..) { headers.insert(X-Request-ID, value) }`
  unfoldable pub set_request_id : Text → h.HeaderMap → h.HeaderMap
  set_request_id id headers = elim (h.from_str id) [
    | none ↦ headers
    | some value ↦ h.insert request_id_header value headers
  ]

  abbrev pub is_scanned : ℕ → Bool
  is_scanned status =
      not (is_client_error status) && not (is_server_error status) && not (status == 204)

  abbrev pub answer_of : (Text → Bytes) → Result GatewayError (Response h u) → Response h u
  answer_of render (ok response) = response
  answer_of render (err error) = into_response render error

  abbrev pub log_error : Result GatewayError (Response h u) → RequestLog → RequestLog
  log_error (ok response) log = log
  log_error (err error) log = record log { error = some error.message }

  pub record Handled : Type 0 where
    pub status : ℕ
    pub headers : h.HeaderMap
    pub body : MeteredBody UsageObserver
    -- The log that the report of the body finishes.
    pub log : RequestLog

  -- The part of `handle` behind `dispatch`.
  unfoldable pub respond : (Text → Bytes) → Dispatched → Handled
  respond render d =
      let log = apply d.probe (log_error d.outcome d.log) in
      let response = answer_of render d.outcome in
      let headers = set_request_id log.request_id response.headers in
      record {
        status = response.status;
        headers = headers;
        body =
            metered (observe s) response.body.polls response.body.exact
              (if is_scanned response.status then some new_observer else none);
        log = record log { status = response.status; streaming = is_streaming headers };
      }

  -- The part of `handle` behind the health endpoints; `random` and `nanos` are for the
  -- generated request ID.
  unfoldable pub handle :
      (Text → Bytes) → Gateway → Option Bytes → ℕ → ℕ → Parts h u → Body → Handled
  handle render g random nanos started parts body =
      let id = request_id h parts.headers random nanos in
      let sent = record parts { headers = set_request_id id parts.headers } in
      respond render
        (dispatch g sent body (new_log id parts.method (u.path parts.uri) started) no_probe)
