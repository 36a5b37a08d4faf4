-- ===== src/Gateway/Logged.antt =====
-- src/gateway.rs and src/observe.rs: the log line of a request, from its arrival to the end of its
-- response body.
use llm_conduit.Prelude.{
  ℕ, ◌≡◌, refl, sym, ap, ◌∙◌, List, [], ◌∷◌, Option, none, some, Bool, ◌||◌, not, ltb, length, take,
  ◌%◌, if◌then◌else◌, is_some, unwrap_or, Option-cases, inl, inr,
}
use llm_conduit.Prelude.Text.{Text, Bytes, codes}
use llm_conduit.Body.{Body, data_of}
use llm_conduit.Http.{Headers, HeaderLaws, Uris}
use llm_conduit.Serde.{SerdeJson}
use llm_conduit.Usage.Types.{TokenUsage, u64_mod}
use llm_conduit.Usage.Scanner.{scan}
use llm_conduit.Usage.Scanner.Events.{idle}
use llm_conduit.RequestId.{request_id}
use llm_conduit.Observe.{
  RequestLog, new_log, LogLine, warn, info, finish, elapsed_between, optional, no_tokens,
  outcome_of, is_client_error, is_server_error, is_exactly, poll_times, drop_body,
}
use llm_conduit.Observe.Meter.{poll_times-IsReported}
use llm_conduit.Proxy.{Parts}
use llm_conduit.Gateway.Probe.{new_observer, no_probe, UsageObserver, observe, with_usage}
use llm_conduit.Gateway.{is_scanned, Gateway, Dispatched, Handled, handle, answer_of}
use llm_conduit.Gateway.Counted.{chunks_of}
use llm_conduit.Gateway.Kept.{IsKept, dispatch-IsKept}
use llm_conduit.Gateway.Answers.{IsHandled, decision, error_of, handle-IsHandled}

-- The counters as they are printed, and where they stand in a line.
abbrev pub printed : TokenUsage → List Text
printed usage =
    optional usage.prompt_tokens
    ∷ optional usage.completion_tokens
    ∷ optional usage.total_tokens
    ∷ optional usage.reasoning_tokens
    ∷ optional usage.cached_tokens
    ∷ []

abbrev pub counters_in : LogLine → List Text
counters_in line =
    line.prompt_tokens ∷ line.completion_tokens ∷ line.total_tokens ∷ line.reasoning_tokens
    ∷ line.cached_tokens ∷ []

-- What a line says of a field that may be missing.
abbrev pub said : Option Text → Text
said o = unwrap_or o (codes "-")

with_usage-same :
    (o : Option UsageObserver) (log : RequestLog)
    → with_usage o log ≡ record log { usage = (with_usage o log).usage }
unfolding with_usage
with_usage-same none log = refl
with_usage-same (some o) log = elim (Option-cases o.sink) [
  | inl unseen ↦ rw (unseen, with_usage) refl
  | inr (usage, seen) ↦ rw (seen, with_usage) refl
]

module _ (h : Headers) (u : Uris) (s : SerdeJson) (from_static : Text → h.HeaderValue) where
  -- The report that `handle` hands to the body: the line that is logged when a client drops the body
  -- after `n` polls, at the instant `now`.
  report_of : ℕ → Option (ℕ × Bool) → RequestLog → Option LogLine
  report_of now none log = none
  report_of now (some (bytes, aborted)) log = some (finish log now bytes aborted)

  unfoldable pub logged : ℕ → ℕ → Handled h u s from_static → Option LogLine
  unfolding report_of
  logged n now a =
      let (polled, given) = poll_times (observe s) n a.body in
      report_of now (drop_body polled).1 (with_usage polled.observer a.log)

  abbrev pub fails : Option Text → ℕ → Bool
  fails error status = is_some error || is_client_error status || is_server_error status

  -- The line of a request that arrived as `new` says, that `dispatch` decided on with `d`, and whose
  -- body the client polled `n` times and dropped at the instant `now`.
  pub record IsLogged (render : Text → Bytes) (new : RequestLog) (d : Dispatched h u s from_static)
      (n now : ℕ) (a : Handled h u s from_static) : Type 0 where
    pub line : LogLine
    pub is : logged n now a ≡ some line
    pub request_id : line.request_id ≡ new.request_id
    pub method : line.method ≡ new.method
    pub path : line.path ≡ new.path
    pub elapsed : line.elapsed_ms ≡ elapsed_between new.started now
    pub caller : line.caller ≡ said d.log.caller
    pub model : line.model ≡ said d.log.model
    pub upstream : line.upstream ≡ said d.log.upstream
    pub request_bytes : line.request_bytes ≡ d.log.request_bytes
    pub effort : line.effort ≡ said d.probe.effort
    pub max_tokens : line.max_tokens ≡ optional d.probe.usage.max_tokens
    pub requested_choices : line.requested_choices ≡ optional d.probe.usage.choices
    pub status : line.status ≡ (answer_of h u s from_static render d.outcome).status
    pub response_bytes :
        line.response_bytes
        ≡ length (data_of (take n (answer_of h u s from_static render d.outcome).body.polls))
          % u64_mod
    pub aborted :
        line.aborted
        ≡ not (
            ltb (length (answer_of h u s from_static render d.outcome).body.polls) n
            || is_exactly
                (answer_of h u s from_static render d.outcome).body.exact
                line.response_bytes)
    pub outcome : line.outcome ≡ outcome_of (error_of h u s from_static d.outcome) line.aborted
    pub error : line.error ≡ said (error_of h u s from_static d.outcome)
    pub level :
        line.level
        ≡ (if fails (error_of h u s from_static d.outcome) line.status then warn else info)
    pub counters :
        counters_in line
        ≡ printed (
            unwrap_or
              (if is_scanned h u s from_static line.status
                then (scan s idle
                    (chunks_of (take n (answer_of h u s from_static render d.outcome).body.polls))
                    none).1
                else none)
              no_tokens)

  finish-IsLogged :
      (render : Text → Bytes) (new : RequestLog) (d : Dispatched h u s from_static) (n now : ℕ)
      (a : Handled h u s from_static)
      → IsKept h u s from_static new d.log
      → IsHandled h u s from_static render new.request_id d a
      → IsLogged render new d n now a
  unfolding logged report_of finish
  finish-IsLogged render new d n now a kept k =
      let answer = answer_of h u s from_static render d.outcome in
      let r =
        poll_times-IsReported (observe s) n answer.body.polls answer.body.exact
          (if is_scanned h u s from_static a.status then some new_observer else none) in
      let polled_is : (poll_times (observe s) n a.body).0 ≡ r.polled =
        ap (λ b. (poll_times (observe s) n b).0) k.metered_as ∙ ap (λ z. z.0) r.polls in
      let log = with_usage r.polled.observer a.log in
      let same : log ≡ record a.log { usage = log.usage } =
        with_usage-same r.polled.observer a.log in
      let status_is : log.status ≡ a.status = ap (λ l. l.status) same ∙ k.logged_status in
      let error_is = ap (λ l. l.error) same ∙ k.logged_error in
      let cut = not (ltb (length answer.body.polls) n || is_exactly answer.body.exact r.bytes) in
      record {
        line = finish log now r.bytes cut;
        is = rw (polled_is, r.reported) refl;
        request_id = ap (λ l. l.request_id) same ∙ k.logged_id;
        method = ap (λ l. l.method) same ∙ k.filled.method ∙ kept.method;
        path = ap (λ l. l.path) same ∙ k.filled.path ∙ kept.path;
        elapsed =
            ap (λ l. elapsed_between l.started now) same
            ∙ ap (λ t. elapsed_between t now) (k.filled.started ∙ kept.started);
        caller = ap (λ l. said l.caller) same ∙ ap said k.filled.caller;
        model = ap (λ l. said l.model) same ∙ ap said k.filled.model;
        upstream = ap (λ l. said l.upstream) same ∙ ap said k.filled.upstream;
        request_bytes = ap (λ l. l.request_bytes) same ∙ k.filled.request_bytes;
        effort = ap (λ l. said l.effort) same ∙ ap said k.filled.effort;
        max_tokens = ap (λ l. optional l.max_tokens) same ∙ ap optional k.filled.max_tokens;
        requested_choices =
            ap (λ l. optional l.requested_choices) same ∙ ap optional k.filled.requested_choices;
        status = status_is ∙ k.status;
        response_bytes = r.counted;
        aborted = refl;
        outcome = ap (λ e. outcome_of e cut) error_is;
        error = ap said error_is;
        level = ap (λ e. if fails e log.status then warn else info) error_is;
        counters =
            ap (λ o. printed (unwrap_or o no_tokens))
              (ap (λ p. (with_usage p.observer a.log).usage) (sym polled_is)
                ∙ k.counters n
                ∙ ap
                    (λ st.
                      if is_scanned h u s from_static st
                      then (scan s idle (chunks_of (take n answer.body.polls)) none).1
                      else none)
                    (sym status_is));
      }

  pub handle-IsLogged :
      (laws : HeaderLaws h) (render : Text → Bytes) (g : Gateway h u s from_static)
      (random : Option Bytes) (nanos started : ℕ) (parts : Parts h u) (body : Body) (n now : ℕ)
      → IsLogged render
          (new_log
            (request_id h parts.headers random nanos)
            parts.method
            (u.path parts.uri)
            started)
          (decision h u s from_static laws g random nanos started parts body)
          n
          now
          (handle h u s from_static render g random nanos started parts body)
  unfolding new_log
  handle-IsLogged laws render g random nanos started parts body n now =
      finish-IsLogged render _ (decision h u s from_static laws g random nanos started parts body) n
        now _ (dispatch-IsKept h u s from_static g _ body _ no_probe)
        (handle-IsHandled h u s from_static laws render g random nanos started parts body)
