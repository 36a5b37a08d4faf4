-- ===== src/Gateway/Metered.antt =====
-- src/gateway.rs, src/observe.rs and src/usage.rs together: the counters in the log line of a request
-- whose response is a stream of server-sent events.
use llm_conduit.Prelude.{
  ℕ, ◌≡◌, refl, ap, ◌∙◌, List, [], Option, none, some, true, ok, if◌then◌else◌, map, take,
  unwrap_or,
}
use llm_conduit.Prelude.Text.{Text, Bytes}
use llm_conduit.Body.{Body}
use llm_conduit.Http.{Headers, HeaderLaws, Uris}
use llm_conduit.Serde.{SerdeJson}
use llm_conduit.Usage.Types.{TokenUsage}
use llm_conduit.Usage.Merge.{Chosen}
use llm_conduit.Usage.Scanner.{scan}
use llm_conduit.Usage.Scanner.Events.{idle}
use llm_conduit.Usage.Scanner.Stream.{Frame, bytes_of, all_reports, IsStream, scan-Chosen}
use llm_conduit.Observe.{LogLine, no_tokens}
use llm_conduit.Proxy.{Parts, Response}
use llm_conduit.Gateway.{Gateway, Handled, is_scanned, handle, answer_of}
use llm_conduit.Gateway.Counted.{chunks_of}
use llm_conduit.Gateway.Answers.{decision}
use llm_conduit.Gateway.Logged.{printed, counters_in, logged, handle-IsLogged}

module _ (h : Headers) (u : Uris) (s : SerdeJson) (from_static : Text → h.HeaderValue) where
  -- The line of a response with the status `status` whose events reported `fs`.
  pub record IsMetered (fs : List Frame) (status n now : ℕ) (a : Handled h u s from_static)
      : Type 0 where
    pub line : LogLine
    pub is : logged h u s from_static n now a ≡ some line
    pub answered : line.status ≡ status
    pub usage : Option TokenUsage
    pub chosen : Chosen (all_reports fs) usage
    pub counters : counters_in line ≡ printed (unwrap_or usage no_tokens)

  -- A request whose response has a status other than 204, 4xx and 5xx, and of whose body the client
  -- was given, when it stops, frames of a stream of server-sent events: each holds whole events
  -- with the line feeds behind them, or cuts one within its payload; a whole payload is one line
  -- within the scanner's bound that the parser reads or refuses for good, as it does the closing
  -- mark of a stream; and where a payload is cut, no piece is empty, the first would lose nothing
  -- to trimming, no later one holds a marker, and before its end the payload is within the bound
  -- and the parser calls it cut off. Then the log line has the counters of the last of the most
  -- complete reports among the events that ended in these frames, and dashes if there is none.
  pub handle-IsMetered :
      (laws : HeaderLaws h) (render : Text → Bytes) (g : Gateway h u s from_static)
      (random : Option Bytes) (nanos started : ℕ) (parts : Parts h u) (body : Body) (n now : ℕ)
      (response : Response h u) (fs : List Frame)
      → (decision h u s from_static laws g random nanos started parts body).outcome ≡ ok response
      → is_scanned h u s from_static response.status ≡ true
      → chunks_of (take n response.body.polls) ≡ map bytes_of fs
      → IsStream s [] fs
      → IsMetered fs response.status n now
          (handle h u s from_static render g random nanos started parts body)
  handle-IsMetered laws render g random nanos started parts body n now response fs e scanned cut
        streams =
      let l =
        handle-IsLogged h u s from_static laws render g random nanos started parts body n now in
      let status_is : l.line.status ≡ response.status =
        l.status ∙ ap (λ o. (answer_of h u s from_static render o).status) e in
      record {
        line = l.line;
        is = l.is;
        answered = status_is;
        usage = (scan s idle (map bytes_of fs) none).1;
        chosen = (scan-Chosen s fs streams).1;
        counters =
            l.counters
            ∙ ap
                (λ o. printed (
                  unwrap_or
                    (if is_scanned h u s from_static l.line.status
                      then (scan s idle
                          (chunks_of (take n (answer_of h u s from_static render o).body.polls))
                          none).1
                      else none)
                    no_tokens))
                e
            ∙ rw (status_is, scanned, cut) refl;
      }
