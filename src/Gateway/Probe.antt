-- ===== src/Gateway/Probe.antt =====
-- src/gateway.rs: what is read beside the proxying, the probe of the request body and the observer
-- of the response body.
use llm_conduit.Prelude.{[], Option, none, some}
use llm_conduit.Prelude.Text.{Text, Bytes}
use llm_conduit.Serde.{SerdeJson}
use llm_conduit.Usage.Types.{TokenUsage}
use llm_conduit.Usage.Request.{RequestUsage, no_usage}
use llm_conduit.Usage.Scanner.{UsageScanner, push}
use llm_conduit.Observe.{RequestLog}

-- `RequestProbe`
pub record RequestProbe : Type 0 where
  pub effort : Option Text
  pub usage : RequestUsage

abbrev pub no_probe : RequestProbe
no_probe = record { effort = none; usage = no_usage }

-- `RequestProbe::apply`
unfoldable pub apply : RequestProbe → RequestLog → RequestLog
apply probe log = record log {
  effort = probe.effort;
  max_tokens = probe.usage.max_tokens;
  requested_choices = probe.usage.choices;
}

-- `UsageObserver`: the scanner, the counters, and the copy of them that the report reads.
pub record UsageObserver : Type 0 where
  pub scanner : UsageScanner
  pub usage : Option TokenUsage
  pub sink : Option TokenUsage

unfoldable pub new_observer : UsageObserver
new_observer = record { scanner = record { pending = [] }; usage = none; sink = none }

-- `UsageObserver::observe`
unfoldable pub observe : SerdeJson → UsageObserver → Bytes → UsageObserver
observe s o frame =
    let (scanner, usage) = push s o.scanner frame o.usage in
    record { scanner = scanner; usage = usage; sink = usage }

-- The report of the body: the counters that the observer published go into the log.
unfoldable pub with_usage : Option UsageObserver → RequestLog → RequestLog
with_usage none log = log
with_usage (some o) log = elim o.sink [
  | none ↦ log
  | some usage ↦ record log { usage = some usage }
]
