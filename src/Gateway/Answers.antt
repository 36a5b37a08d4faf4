-- ===== src/Gateway/Answers.antt =====
-- src/gateway.rs: what `handle` answers and logs.
use llm_conduit.Prelude.{
  ℕ, ◌≡◌, refl, ◌∙◌, List, [], ◌∷◌, Option, none, some, Result, ok, err, arith, if◌then◌else◌, take,
}
use llm_conduit.Prelude.Text.{Text, Bytes, text_eq_refl}
use llm_conduit.Body.{Event, Body}
use llm_conduit.Errors.{GatewayError}
use llm_conduit.Http.{Headers, HeaderLaws, Uris}
use llm_conduit.Serde.{SerdeJson}
use llm_conduit.Usage.Scanner.{scan}
use llm_conduit.Usage.Scanner.Events.{idle}
use llm_conduit.RequestId.{request_id, request_id_header}
use llm_conduit.Observe.{RequestLog, new_log, metered, poll_times}
use llm_conduit.Observe.Meter.{unmetered, poll_times-IsMetered}
use llm_conduit.Proxy.{Parts, Response}
use llm_conduit.Gateway.Probe.{no_probe, UsageObserver, new_observer, observe, apply, with_usage}
use llm_conduit.Gateway.{
  Gateway, Dispatched, dispatch, set_request_id, is_streaming, is_scanned, respond, handle, Handled,
  answer_of, log_error,
}
use llm_conduit.Gateway.Counted.{chunks_of, counted}
use llm_conduit.Gateway.Kept.{IsFilled, log_error-IsFilled, dispatch-IsKept}

module _ (h : Headers) (u : Uris) (s : SerdeJson) (from_static : Text → h.HeaderValue) where
  -- The message that a result is logged with.
  abbrev pub error_of : Result GatewayError (Response h u) → Option Text
  error_of (ok response) = none
  error_of (err error) = some error.message

  -- What `handle` gives for a request with the ID `id` that `dispatch` decided on with `d`.
  pub record IsHandled (render : Text → Bytes) (id : Text) (d : Dispatched h u s from_static)
      (a : Handled h u s from_static) : Type 0 where
    pub status : a.status ≡ (answer_of h u s from_static render d.outcome).status
    pub logged_status : a.log.status ≡ a.status
    pub logged_id : a.log.request_id ≡ id
    pub logged_error : a.log.error ≡ error_of d.outcome
    -- Besides, the log holds what `dispatch` wrote into it and into the probe.
    pub filled : IsFilled h u s from_static d a.log
    pub echoed :
        (value : h.HeaderValue)
        → h.from_str id ≡ some value
        → h.get_all request_id_header a.headers ≡ value ∷ []
    pub metered_as :
        a.body
        ≡ metered
            (observe s)
            (answer_of h u s from_static render d.outcome).body.polls
            (answer_of h u s from_static render d.outcome).body.exact
            (if is_scanned h u s from_static a.status then some new_observer else none)
    pub passed_on :
        (n : ℕ)
        → (poll_times (observe s) n a.body).1
          ≡ unmetered n (answer_of h u s from_static render d.outcome).body.polls
    pub counters :
        (n : ℕ)
        → (with_usage (poll_times (observe s) n a.body).0.observer a.log).usage ≡ (
            if is_scanned h u s from_static a.status
            then (scan s idle
                (chunks_of (take n (answer_of h u s from_static render d.outcome).body.polls))
                none).1
            else none)

  module _ (laws : HeaderLaws h) where
    set_request_id-echoed :
        (id : Text) (headers : h.HeaderMap) (value : h.HeaderValue)
        → h.from_str id ≡ some value
        → h.get_all request_id_header (set_request_id h u s from_static id headers) ≡ value ∷ []
    unfolding set_request_id
    set_request_id-echoed id headers value e =
        rw (e, set_request_id) (rw (laws.get_all_insert, text_eq_refl request_id_header) refl)

    log_error-error_of :
        (r : Result GatewayError (Response h u)) (log : RequestLog)
        → log.error ≡ none
        → (log_error h u s from_static r log).error ≡ error_of r
    log_error-error_of (ok response) log e = e
    log_error-error_of (err error) log e = refl

    metered-passed_on :
        (inner : List Event) (exact : Option ℕ) (n : ℕ) (o : Option UsageObserver)
        → (poll_times (observe s) n (metered (observe s) inner exact o)).1 ≡ unmetered n inner
    unfolding metered
    metered-passed_on inner exact n o =
        (poll_times-IsMetered (observe s) n (metered (observe s) inner exact o)
          (omega arith)).passed_on

    respond-IsHandled :
        (render : Text → Bytes) (id : Text) (d : Dispatched h u s from_static)
        → d.log.request_id ≡ id
        → d.log.usage ≡ none
        → d.log.error ≡ none
        → IsHandled render id d (respond h u s from_static render d)
    unfolding respond apply
    respond-IsHandled render id d same unused clean =
        let response = answer_of h u s from_static render d.outcome in
        let filled = log_error-IsFilled h u s from_static d.outcome d response.status (
          is_streaming h u s from_static (
            set_request_id h u s from_static
              (log_error h u s from_static d.outcome d.log).request_id response.headers)) in
        record {
          status = refl;
          logged_status = refl;
          logged_id = filled.request_id ∙ same;
          logged_error = log_error-error_of d.outcome d.log clean;
          filled = filled;
          echoed = λ value e.
              rw (filled.request_id, same) (set_request_id-echoed id response.headers value e);
          metered_as = refl;
          passed_on = λ n. metered-passed_on response.body.polls response.body.exact n _;
          counters = λ n.
              counted s response.body.polls response.body.exact n
                (is_scanned h u s from_static response.status) _ (filled.usage ∙ unused);
        }

    -- The request as `handle` gives it to `dispatch`, and the decision on it.
    abbrev pub decision :
        Gateway h u s from_static
        → Option Bytes
        → ℕ
        → ℕ
        → Parts h u
        → Body
        → Dispatched h u s from_static
    decision g random nanos started parts body =
        let id = request_id h parts.headers random nanos in
        dispatch h u s from_static g
          (record parts { headers = set_request_id h u s from_static id parts.headers }) body
          (new_log id parts.method (u.path parts.uri) started) no_probe

    -- Every request that `handle` takes is answered with the status that `dispatch` decided on, or
    -- with the one of its error. The answer carries the request ID, if that can be a header, and no
    -- other value of that header; its body is the one that was decided on, unchanged. The log holds
    -- the ID, the status, the message of the error, if there is one, what `dispatch` wrote into it
    -- and what it probed in the body, and the token counters that the scanner has read in the data
    -- that the client was given, if the status is not a 204, a 4xx or a 5xx, and none otherwise.
    pub handle-IsHandled :
        (render : Text → Bytes) (g : Gateway h u s from_static) (random : Option Bytes)
        (nanos started : ℕ) (parts : Parts h u) (body : Body)
        → IsHandled render
            (request_id h parts.headers random nanos)
            (decision g random nanos started parts body)
            (handle h u s from_static render g random nanos started parts body)
    unfolding handle new_log
    handle-IsHandled render g random nanos started parts body =
        let k =
          dispatch-IsKept h u s from_static g _ body
            (new_log _ parts.method (u.path parts.uri) started) no_probe in
        respond-IsHandled render _ (decision g random nanos started parts body) k.request_id k.usage
          k.error
