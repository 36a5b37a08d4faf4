-- ===== src/Health.antt =====
-- src/health.rs: the health of the upstreams, the answer to `/readyz`, and the probes.
pub mod Ready
pub mod Probes
pub mod Pass
pub mod Loop
pub mod Answer
use llm_conduit.Prelude.{
  ℕ, ◌-◌, List, [], ◌∷◌, ◌++◌, Option, none, some, Bool, true, false, Result, ok, err, ◌>>=◌, ◌>>◌,
  ok_or, map_err, if◌then◌else◌, leb, ltb, ◌&&◌, unwrap_or,
}
use llm_conduit.Prelude.Map.{Map, get, insert}
use llm_conduit.Prelude.Text.{Text, codes, decimal}
use llm_conduit.Errors.{GatewayError}
use llm_conduit.Http.{Uris}
use llm_conduit.Config.{Upstream, HealthConfig, HealthMode, models, tcp, target_uri, uses_tls}

-- `latency` in milliseconds, `checked_at` in seconds of the clock.
pub record UpstreamHealth : Type 0 where
  pub healthy : Bool
  pub latency : ℕ
  pub checked_at : ℕ
  pub error : Option Text

-- The lock is taken for a single insertion or copy, so the map stands for itself.
pub record HealthState : Type 0 where
  pub names : List Text
  pub upstreams : Map UpstreamHealth

-- `HealthState::new`
unfoldable pub new_state : List Text → HealthState
new_state names = record { names = names; upstreams = [] }

-- `HealthState::record`
unfoldable pub record_health : HealthState → Text → UpstreamHealth → HealthState
record_health state name health = record state { upstreams = insert name health state.upstreams }

-- `HealthState::snapshot`
abbrev pub snapshot : HealthState → Map UpstreamHealth
snapshot state = state.upstreams

-- The entry of one upstream in the answer to `/readyz`.
pub data Entry : Type 0 where
  up : ℕ → ℕ → Entry
  down : Text → ℕ → Entry
  unchecked : Entry

unfoldable pub entry_of : ℕ → Option UpstreamHealth → Entry
entry_of now none = unchecked
entry_of now (some health) =
    if health.healthy
    then up health.latency (now - health.checked_at)
    else down (unwrap_or health.error (codes "unknown error")) (now - health.checked_at)

abbrev pub keeps_ready : Entry → Bool
keeps_ready (up latency ago) = true
keeps_ready (down error ago) = false
keeps_ready unchecked = true

-- The loop of `readyz` over the names: the flag `ready` and the map `upstreams`.
unfoldable pub readyz_from :
    ℕ → Map UpstreamHealth → List Text → Bool × Map Entry → Bool × Map Entry
readyz_from now known [] st = st
readyz_from now known (name ∷ names) st =
    let entry = entry_of now (get name known) in
    readyz_from now known names (if keeps_ready entry then st.0 else false, insert name entry st.1)

-- The answer to `/readyz`, before it is printed as JSON.
pub record Readiness : Type 0 where
  pub status : ℕ
  pub summary : Text
  pub probing : Text
  pub entries : Map Entry

unfoldable pub readyz : HealthState → ℕ → Bool → Readiness
readyz state now probing =
    let (ready, entries) = readyz_from now (snapshot state) state.names (true, []) in
    record {
      status = if ready then 200 else 503;
      summary = if ready then codes "ok" else codes "degraded";
      probing = if probing then codes "enabled" else codes "disabled";
      entries = entries;
    }

-- What a probe's outcome is recorded as, at the time `now`.
unfoldable pub health_of : ℕ → Result Text ℕ → UpstreamHealth
health_of now (ok latency) = record {
  healthy = true;
  latency = latency;
  checked_at = now;
  error = none;
}
health_of now (err error) = record {
  healthy = false;
  latency = 0;
  checked_at = now;
  error = some error;
}

-- A probe that was joined; the probes of a pass arrive in any order.
pub record Joined : Type 0 where
  pub name : Text
  pub outcome : Result Text ℕ
  pub at : ℕ

-- The loop of `probe_loop` over the joined probes.
unfoldable pub record_all : HealthState → List Joined → HealthState
record_all state [] = state
record_all state (j ∷ js) = record_all (record_health state j.name (health_of j.at j.outcome)) js

-- What a connection or a request comes to under `tokio::time::timeout`.
pub data Timed (A : Type 0) : Type 0 where
  elapsed : Timed A
  failed : Text → Timed A
  finished : A → Timed A

-- `.map_err(..)?.map_err(..)?`
abbrev pub timed : {A : Type 0} → Text → Text → Timed A → Result Text A
timed late broken elapsed = err late
timed late broken (failed e) = err (broken ++ e)
timed late broken (finished a) = ok a

abbrev pub models_path : Text
models_path = codes "/v1/models"

-- `StatusCode::is_success`
abbrev pub is_success : ℕ → Bool
is_success status = leb 200 status && ltb status 300

module _ (u : Uris) where
  -- The network, as the probes see it, and how `Duration` and `StatusCode` print.
  pub record Network : Type 0 where
    pub host : Text → Text
    pub port_u16 : Text → Option ℕ
    pub connect : Text → ℕ → Timed (Unit {0})
    pub static_uri : Text → u.Uri
    -- Builds a `GET` with the credentials, if there are any.
    pub builds : u.Uri → Option Text → Result Text (Unit {0})
    pub get_status : u.Uri → Option Text → ℕ → Timed ℕ
    -- Whether the body of that answer comes to an end, or fails, at any time at all.
    pub body_ends : u.Uri → Option Text → Bool
    pub show_duration : ℕ → Text
    pub show_status : ℕ → Text

  -- What a probe gives, once it returns; `returns` is false of one that waits for ever.
  pub record Probed : Type 0 where
    pub outcome : Result Text (Unit {0})
    pub returns : Bool

  module _ (net : Network) where
    unfoldable pub address_of : Upstream u → Text → Text
    address_of upstream authority =
        net.host authority
        ++ (b':'
            ∷ decimal
                (unwrap_or (net.port_u16 authority) (if uses_tls u upstream then 443 else 80)))

    unfoldable pub tcp_probe : Upstream u → ℕ → Result Text (Unit {0})
    tcp_probe upstream timeout = do
      authority ← ok_or (u.authority upstream.base) (codes "upstream base_url has no host")
      timed
          (codes "tcp connect to "
            ++ (address_of upstream authority
                ++ (codes " timed out after " ++ net.show_duration timeout)))
          (codes "tcp connect to " ++ (address_of upstream authority ++ codes " failed: "))
          (net.connect (address_of upstream authority) timeout)

    -- `Bearer {api_key}`
    abbrev pub bearer : Option Text → Option Text
    bearer none = none
    bearer (some api_key) = some (codes "Bearer " ++ api_key)

    -- `models_probe` up to the status, with the address that was asked.
    unfoldable pub models_status : Upstream u → ℕ → Result Text (u.Uri × ℕ)
    models_status upstream timeout = do
      target ← map_err (λ e. e.message) (target_uri u upstream (net.static_uri models_path))
      map_err (λ e. codes "could not build the probe request: " ++ e)
          (net.builds target (bearer upstream.api_key))
      status ←
          timed
            (codes "GET "
              ++ (models_path ++ (codes " timed out after " ++ net.show_duration timeout)))
            (codes "GET " ++ (models_path ++ codes " failed: "))
            (net.get_status target (bearer upstream.api_key) timeout)
      ok (target, status)

    unfoldable pub checked : ℕ → Result Text (Unit {0})
    checked status =
        if is_success status
        then ok tt
        else err (codes "GET " ++ (models_path ++ (codes " returned " ++ net.show_status status)))

    -- The body is drained outside of the timeout, so a probe with an answer returns only if it ends.
    unfoldable pub models_probe : Upstream u → ℕ → Probed
    models_probe upstream timeout = elim (models_status upstream timeout) [
      | err e ↦ record { outcome = err e; returns = true }
      | ok (target, status) ↦ record {
        outcome = checked status;
        returns = net.body_ends target (bearer upstream.api_key);
      }
    ]

    -- `probe`, without the measured time.
    unfoldable pub probe : Upstream u → HealthConfig → Probed
    probe upstream config = elim config.mode [
      | models ↦ models_probe upstream config.timeout_secs
      | tcp ↦ record { outcome = tcp_probe upstream config.timeout_secs; returns = true }
    ]
