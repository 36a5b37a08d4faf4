-- ===== src/Gateway/Serve/Fronted.antt =====
-- src/gateway.rs: the health endpoints stand in front of the gate.
use llm_conduit.Prelude.{ℕ, ◌≡◌, refl, Option, none, some, Bool, true, false, inl, inr, ◌⊎◌, ◌||◌}
use llm_conduit.Prelude.Text.{Text, Bytes, codes, text_eq, text_eq-cases}
use llm_conduit.Body.{Body}
use llm_conduit.Http.{Headers, Uris}
use llm_conduit.Serde.{SerdeJson}
use llm_conduit.Health.{HealthState, readyz}
use llm_conduit.Proxy.{Parts}
use llm_conduit.Gateway.{Gateway, handle}
use llm_conduit.Gateway.Serve.{
  HealthAnswer, alive, readiness, health_response, Served, answered, proxied, serve,
}

-- A method that the health endpoints answer.
abbrev pub Asks : Text → Type 0
Asks method = (method ≡ codes "GET") ⊎ (method ≡ codes "HEAD")

abbrev pub healthz_path : Text
healthz_path = codes "/healthz"

abbrev pub readyz_path : Text
readyz_path = codes "/readyz"

-- What is answered to a method and a path.
pub data Fronts (health : HealthState) (now : ℕ) (probing : Bool) (method path : Text)
    : Option HealthAnswer → Type 0 where
  is_healthz :
      {o : Option HealthAnswer}
      → Asks method
      → path ≡ healthz_path
      → o ≡ some alive
      → Fronts health now probing method path o
  is_readyz :
      {o : Option HealthAnswer}
      → Asks method
      → path ≡ readyz_path
      → o ≡ some (readiness (readyz health now probing))
      → Fronts health now probing method path o
  is_other :
      {o : Option HealthAnswer}
      → ¬ (Asks method × ((path ≡ healthz_path) ⊎ (path ≡ readyz_path)))
      → o ≡ none
      → Fronts health now probing method path o

abbrev asks : Text → Bool
asks method = text_eq method (codes "GET") || text_eq method (codes "HEAD")

asks-cases :
    (method : Text)
    → ((asks method ≡ true) × Asks method) ⊎ ((asks method ≡ false) × ¬ (Asks method))
asks-cases method = elim (text_eq-cases method (codes "GET")) [
  | inl (get, is) ↦ inl (rw get refl, inl is)
  | inr (no_get, is_not) ↦ elim (text_eq-cases method (codes "HEAD")) [
    | inl (head, is) ↦ inl (rw (no_get, head) refl, inr is)
    | inr (no_head, nor) ↦
        inr (rw (no_get, no_head) refl, λ a. elim a [ inl e ↦ is_not e | inr e ↦ nor e ])
  ]
]

health_response-Fronts :
    (health : HealthState) (now : ℕ) (probing : Bool) (method path : Text)
    → Fronts health now probing method path (health_response health now probing method path)
unfolding health_response
health_response-Fronts health now probing method path = elim (asks-cases method) [
  | inr (posts, nobody) ↦ is_other (λ a. nobody a.0) (rw posts refl)
  | inl (gets, asked) ↦ elim (text_eq-cases path healthz_path) [
    | inl (at, is) ↦ is_healthz asked is (rw (gets, at) refl)
    | inr (off, is_not) ↦ elim (text_eq-cases path readyz_path) [
      | inl (at, is) ↦ is_readyz asked is (rw (gets, off, at) refl)
      | inr (nor, is_neither) ↦
          is_other (λ a. elim a.1 [ inl e ↦ is_not e | inr e ↦ is_neither e ])
            (rw (gets, off, nor) refl)
    ]
  ]
]

module _ (h : Headers) (u : Uris) (s : SerdeJson) (from_static : Text → h.HeaderValue) where
  abbrev or_handled : Option HealthAnswer → Served h u s from_static → Served h u s from_static
  or_handled none a = a
  or_handled (some answer) a = answered answer

  serve-health_response :
      (health : HealthState) (now : ℕ) (render : Text → Bytes) (g : Gateway h u s from_static)
      (random : Option Bytes) (nanos started : ℕ) (parts : Parts h u) (body : Body)
      (o : Option HealthAnswer)
      → health_response health now g.config.server.health.enabled parts.method (u.path parts.uri)
        ≡ o
      → serve h u s from_static health now render g random nanos started parts body
        ≡ or_handled o (proxied (handle h u s from_static render g random nanos started parts body))
  unfolding serve
  serve-health_response health now render g random nanos started parts body none e = rw (e, serve)
  serve-health_response health now render g random nanos started parts body (some answer) e =
      rw (e, serve)

  -- How a request is served.
  pub data IsServed (health : HealthState) (now : ℕ) (render : Text → Bytes)
      (g : Gateway h u s from_static) (random : Option Bytes) (nanos started : ℕ)
      (parts : Parts h u) (body : Body) (a : Served h u s from_static) : Type 0 where
    lives :
        Asks parts.method
        → u.path parts.uri ≡ healthz_path
        → a ≡ answered alive
        → IsServed health now render g random nanos started parts body a
    reports :
        Asks parts.method
        → u.path parts.uri ≡ readyz_path
        → a ≡ answered (readiness (readyz health now g.config.server.health.enabled))
        → IsServed health now render g random nanos started parts body a
    handles :
        ¬ (
          Asks parts.method
          × ((u.path parts.uri ≡ healthz_path) ⊎ (u.path parts.uri ≡ readyz_path)))
        → a ≡ proxied (handle h u s from_static render g random nanos started parts body)
        → IsServed health now render g random nanos started parts body a

  -- A `GET` or `HEAD` of `/healthz` is answered that the process is alive, and one of `/readyz` what
  -- is known of the upstreams, whatever credentials and body the request has, without a log line and
  -- without asking an upstream; every other request goes through `handle`, and so through the gate.
  pub serve-IsServed :
      (health : HealthState) (now : ℕ) (render : Text → Bytes) (g : Gateway h u s from_static)
      (random : Option Bytes) (nanos started : ℕ) (parts : Parts h u) (body : Body)
      → IsServed health now render g random nanos started parts body
          (serve h u s from_static health now render g random nanos started parts body)
  serve-IsServed health now render g random nanos started parts body =
      let probing = g.config.server.health.enabled in
      let served = λ (o : Option HealthAnswer).
        serve-health_response health now render g random nanos started parts body o in
      elim (health_response-Fronts health now probing parts.method (u.path parts.uri)) [
        | is_healthz asked at e ↦ lives asked at (served (some alive) e)
        | is_readyz asked at e ↦
            reports asked at (served (some (readiness (readyz health now probing))) e)
        | is_other other e ↦ handles other (served none e)
      ]
