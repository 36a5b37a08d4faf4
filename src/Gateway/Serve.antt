-- ===== src/Gateway/Serve.antt =====
-- src/gateway.rs: `Gateway::handle` as a whole, with the health endpoints in front of the gate.
pub mod Fronted
use llm_conduit.Prelude.{ℕ, Option, none, some, Bool, not, ◌||◌, if◌then◌else◌}
use llm_conduit.Prelude.Text.{Text, Bytes, codes, text_eq}
use llm_conduit.Body.{Body}
use llm_conduit.Http.{Headers, Uris}
use llm_conduit.Serde.{SerdeJson}
use llm_conduit.Health.{HealthState, Readiness, readyz}
use llm_conduit.Health.Answer.{healthz, readyz_response}
use llm_conduit.Json.{Printer}
use llm_conduit.Proxy.{Parts, Response}
use llm_conduit.Gateway.{Gateway, Handled, handle}

-- `/healthz` and `/readyz`.
pub data HealthAnswer : Type 0 where
  alive : HealthAnswer
  readiness : Readiness → HealthAnswer

abbrev is_get_or_head : Text → Bool
is_get_or_head method = text_eq method (codes "GET") || text_eq method (codes "HEAD")

-- `Gateway::health_response`
unfoldable pub health_response : HealthState → ℕ → Bool → Text → Text → Option HealthAnswer
health_response state now probing method path =
    if not (is_get_or_head method)
    then none
    else if text_eq path (codes "/healthz")
    then some alive
    else if text_eq path (codes "/readyz")
    then some (readiness (readyz state now probing))
    else none

module _ (h : Headers) (u : Uris) (s : SerdeJson) (from_static : Text → h.HeaderValue) where
  pub data Served : Type 0 where
    answered : HealthAnswer → Served
    proxied : Handled h u s from_static → Served

  -- The responses of src/health.rs to them.
  unfoldable pub answer_response : Printer → HealthAnswer → Response h u
  answer_response print alive = healthz h u from_static print
  answer_response print (readiness r) = readyz_response h u from_static print r

  -- The whole of `Gateway::handle`: the health endpoints come first, ahead of the gate and the log.
  unfoldable pub serve :
      HealthState
      → ℕ
      → (Text → Bytes)
      → Gateway h u s from_static
      → Option Bytes
      → ℕ
      → ℕ
      → Parts h u
      → Body
      → Served
  serve state now render g random nanos started parts body =
      elim (health_response state now g.config.server.health.enabled parts.method
        (u.path parts.uri)) [
          | some answer ↦ answered answer
          | none ↦ proxied (handle h u s from_static render g random nanos started parts body)
        ]
