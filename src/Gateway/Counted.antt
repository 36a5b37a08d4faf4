-- ===== src/Gateway/Counted.antt =====
-- src/gateway.rs and src/observe.rs: the counters that the observer has published when a body was
-- polled some times are those that the scanner reads in the data.
use llm_conduit.Prelude.{
  ℕ, ◌≡◌, refl, ap, ◌∙◌, List, [], ◌∷◌, Option, none, some, Bool, true, false, arith, Option-cases,
  inl, inr, if◌then◌else◌, take,
}
use llm_conduit.Prelude.Text.{Bytes}
use llm_conduit.Body.{Event, chunk, trailers, failed, pending}
use llm_conduit.Serde.{SerdeJson}
use llm_conduit.Usage.Types.{TokenUsage}
use llm_conduit.Usage.Scanner.{scan}
use llm_conduit.Usage.Scanner.Events.{idle}
use llm_conduit.Observe.{RequestLog, metered, poll_times}
use llm_conduit.Observe.Meter.{observed_all, poll_times-IsMetered}
use llm_conduit.Gateway.Probe.{UsageObserver, new_observer, observe, with_usage}

-- The data frames among the polls of a body.
unfoldable pub chunks_of : List Event → List Bytes
chunks_of [] = []
chunks_of (chunk c ∷ es) = c ∷ chunks_of es
chunks_of (trailers ∷ es) = chunks_of es
chunks_of (failed e ∷ es) = chunks_of es
chunks_of (pending ∷ es) = chunks_of es

abbrev sink_of : Option UsageObserver → Option TokenUsage
sink_of none = none
sink_of (some o) = o.sink

module _ (s : SerdeJson) where
  -- The observer publishes what the scanner has read so far.
  observed_all-scan :
      (es : List Event) (o : UsageObserver)
      → o.sink ≡ o.usage
      → sink_of (observed_all (observe s) (some o) es) ≡ (scan s o.scanner (chunks_of es) o.usage).1
  unfolding scan observe chunks_of
  observed_all-scan [] o e = e
  observed_all-scan (chunk c ∷ es) o e = observed_all-scan es (observe s o c) refl
  observed_all-scan (trailers ∷ es) o e = observed_all-scan es o e
  observed_all-scan (failed x ∷ es) o e = observed_all-scan es o e
  observed_all-scan (pending ∷ es) o e = observed_all-scan es o e

observed_all-none :
    {O : Type 0} (f : O → Bytes → O) (es : List Event) → observed_all f none es ≡ none
observed_all-none f [] = refl
observed_all-none f (chunk c ∷ es) = observed_all-none f es
observed_all-none f (trailers ∷ es) = observed_all-none f es
observed_all-none f (failed x ∷ es) = observed_all-none f es
observed_all-none f (pending ∷ es) = observed_all-none f es

with_usage-sink :
    (o : Option UsageObserver) (log : RequestLog)
    → log.usage ≡ none
    → (with_usage o log).usage ≡ sink_of o
unfolding with_usage
with_usage-sink none log e = e
with_usage-sink (some o) log e = elim (Option-cases o.sink) [
  | inl unseen ↦ rw unseen e
  | inr (usage, seen) ↦ rw seen refl
]

module _ (s : SerdeJson) where
  metered-seen :
      (inner : List Event) (exact : Option ℕ) (n : ℕ) (o : Option UsageObserver)
      → (poll_times (observe s) n (metered (observe s) inner exact o)).0.observer
        ≡ observed_all (observe s) o (take n inner)
  unfolding metered
  metered-seen inner exact n o =
      (poll_times-IsMetered (observe s) n (metered (observe s) inner exact o) (omega arith)).seen

  sink-scan :
      (es : List Event) (scanned : Bool)
      → sink_of (observed_all (observe s) (if scanned then some new_observer else none) es)
        ≡ (if scanned then (scan s idle (chunks_of es) none).1 else none)
  unfolding new_observer
  sink-scan es true = observed_all-scan s es new_observer refl
  sink-scan es false = ap sink_of (observed_all-none (observe s) es)

  pub counted :
      (inner : List Event) (exact : Option ℕ) (n : ℕ) (scanned : Bool) (log : RequestLog)
      → log.usage ≡ none
      → (with_usage
          (poll_times (observe s) n (
            metered
              (observe s)
              inner
              exact
              (if scanned then some new_observer else none))).0.observer
          log).usage
        ≡ (if scanned then (scan s idle (chunks_of (take n inner)) none).1 else none)
  counted inner exact n scanned log e =
      with_usage-sink _ log e
      ∙ ap sink_of (metered-seen inner exact n (if scanned then some new_observer else none))
      ∙ sink-scan (take n inner) scanned
