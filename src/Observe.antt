-- ===== src/Observe.antt =====
-- src/observe.rs: the log record of a request and the meter of a response body.
pub mod Meter
use Prim.Native.Nat.{bit_and, bit_or}
use llm_conduit.Prelude.{
  ℕ, zero, suc, ◌+◌, ◌-◌, ◌/◌, ◌%◌, ◌^◌, List, [], ◌∷◌, ◌++◌, Option, none, some, Bool, true, false,
  not, ◌&&◌, ◌||◌, ltb, leb, ◌==◌, if◌then◌else◌, is_empty, is_some, and_then, unwrap_or, any,
  length,
}
use llm_conduit.Prelude.Text.{Text, Bytes, codes, trim, utf8_len, decimal}
use llm_conduit.Body.{Event, chunk, trailers, failed, pending}
use llm_conduit.Http.{Headers, get_text}
use llm_conduit.Usage.Types.{TokenUsage, u64_mod}

-- `RequestLog`; an `Instant` is a number of nanoseconds.
pub record RequestLog : Type 0 where
  pub request_id : Text
  pub method : Text
  pub path : Text
  pub started : ℕ
  pub caller : Option Text
  pub model : Option Text
  pub upstream : Option Text
  pub status : ℕ
  pub streaming : Bool
  pub request_bytes : ℕ
  pub effort : Option Text
  pub max_tokens : Option ℕ
  pub requested_choices : Option ℕ
  pub usage : Option TokenUsage
  pub error : Option Text

-- `RequestLog::new`
unfoldable pub new_log : Text → Text → Text → ℕ → RequestLog
new_log id method path started = record {
  request_id = id;
  method = method;
  path = path;
  started = started;
  caller = none;
  model = none;
  upstream = none;
  status = 200;
  streaming = false;
  request_bytes = 0;
  effort = none;
  max_tokens = none;
  requested_choices = none;
  usage = none;
  error = none;
}

-- `StatusCode::is_client_error` and `is_server_error`.
abbrev pub is_client_error : ℕ → Bool
is_client_error status = leb 400 status && ltb status 500

abbrev pub is_server_error : ℕ → Bool
is_server_error status = leb 500 status && ltb status 600

pub data Level : Type 0 where
  warn info : Level

pub data Outcome : Type 0 where
  request_failed request_aborted request_completed : Outcome

abbrev pub outcome_of : Option Text → Bool → Outcome
outcome_of (some e) aborted = request_failed
outcome_of none true = request_aborted
outcome_of none false = request_completed

-- `optional`
unfoldable pub optional : Option ℕ → Text
optional none = codes "-"
optional (some n) = decimal n

abbrev pub no_tokens : TokenUsage
no_tokens = record {
  prompt_tokens = none;
  completion_tokens = none;
  total_tokens = none;
  reasoning_tokens = none;
  cached_tokens = none;
}

-- The line that `finish` emits.
pub record LogLine : Type 0 where
  pub level : Level
  pub outcome : Outcome
  pub request_id : Text
  pub caller : Text
  pub model : Text
  pub upstream : Text
  pub status : ℕ
  pub request_bytes : ℕ
  pub response_bytes : ℕ
  pub elapsed_ms : ℕ
  pub stream : Bool
  pub aborted : Bool
  pub effort : Text
  pub max_tokens : Text
  pub requested_choices : Text
  pub prompt_tokens : Text
  pub completion_tokens : Text
  pub total_tokens : Text
  pub reasoning_tokens : Text
  pub cached_tokens : Text
  pub method : Text
  pub path : Text
  pub error : Text

abbrev dash : Option Text → Text
dash o = unwrap_or o (codes "-")

-- `started.elapsed().as_millis() as u64`; the crate's `elapsed` stops at 0.
abbrev pub elapsed_between : ℕ → ℕ → ℕ
elapsed_between started now = ((now - started) / 1000000) % u64_mod

-- `finish`, called at the instant `now`.
unfoldable pub finish : RequestLog → ℕ → ℕ → Bool → LogLine
finish log now response_bytes aborted =
    let usage = unwrap_or log.usage no_tokens in
    record {
      level =
          if is_some log.error || is_client_error log.status || is_server_error log.status
          then warn
          else info;
      outcome = outcome_of log.error aborted;
      request_id = log.request_id;
      caller = dash log.caller;
      model = dash log.model;
      upstream = dash log.upstream;
      status = log.status;
      request_bytes = log.request_bytes;
      response_bytes = response_bytes;
      elapsed_ms = elapsed_between log.started now;
      stream = log.streaming;
      aborted = aborted;
      effort = dash log.effort;
      max_tokens = optional log.max_tokens;
      requested_choices = optional log.requested_choices;
      prompt_tokens = optional usage.prompt_tokens;
      completion_tokens = optional usage.completion_tokens;
      total_tokens = optional usage.total_tokens;
      reasoning_tokens = optional usage.reasoning_tokens;
      cached_tokens = optional usage.cached_tokens;
      method = log.method;
      path = log.path;
      error = dash log.error;
    }

-- `MeteredBody`: the polls that the inner body has left, and whether the report is still due.
-- `O` is the state of the observer.
pub record MeteredBody (O : Type 0) : Type 0 where
  pub inner : List Event
  pub expected : Option ℕ
  pub bytes : ℕ
  pub finished : Bool
  pub observer : Option O
  pub report_due : Bool

module _ {O : Type 0} (observe : O → Bytes → O) where
  -- `MeteredBody::new`, and `with_observer` if there is one.
  unfoldable pub metered : List Event → Option ℕ → Option O → MeteredBody O
  metered inner exact observer = record {
    inner = inner;
    expected = exact;
    bytes = 0;
    finished = false;
    observer = observer;
    report_due = true;
  }

  abbrev pub observed : Option O → Bytes → Option O
  observed none frame = none
  observed (some o) frame = some (observe o frame)

  -- `poll_frame`, at the inner body's polls; `none` is the end of the stream.
  unfoldable pub poll_inner : MeteredBody O → List Event → MeteredBody O × Option Event
  poll_inner m [] = (record m { finished = true }, none)
  poll_inner m (chunk c ∷ es) = (
    record m {
      inner = es;
      bytes = (m.bytes + length c) % u64_mod;
      observer = observed m.observer c;
    },
    some (chunk c),
  )
  poll_inner m (trailers ∷ es) = (record m { inner = es }, some trailers)
  poll_inner m (failed e ∷ es) = (record m { inner = es }, some (failed e))
  poll_inner m (pending ∷ es) = (record m { inner = es }, some pending)

  abbrev pub poll_frame : MeteredBody O → MeteredBody O × Option Event
  poll_frame m = poll_inner m m.inner

  -- A client that polls `n` times, and what it is given.
  unfoldable pub poll_times : ℕ → MeteredBody O → MeteredBody O × List (Option Event)
  poll_times zero m = (m, [])
  poll_times (suc n) m =
      let (m', given) = poll_frame m in let (last, more) = poll_times n m' in (last, given ∷ more)

abbrev pub is_exactly : Option ℕ → ℕ → Bool
is_exactly none bytes = false
is_exactly (some n) bytes = n == bytes

unfoldable pub is_complete : {O : Type 0} → MeteredBody O → Bool
is_complete m = m.finished || is_exactly m.expected m.bytes

-- `Drop`: the report, bytes and `aborted`, if it is still due.
unfoldable pub drop_body : {O : Type 0} → MeteredBody O → MeteredBody O × Option (ℕ × Bool)
drop_body m =
    if m.report_due
    then (record m { report_due = false }, some (m.bytes, not (is_complete m)))
    else (m, none)
