-- ===== src/Tests/Hops.antt =====
-- src/observe.rs, src/auth.rs, src/health.rs and the rest of src/gateway.rs at concrete requests.
use mathlib.Core.List.{Permᴰ}
use llm_conduit.Prelude.{◌≡◌, refl, List, [], ◌∷◌, none, some, true, false, err}
use llm_conduit.Prelude.Map.{Map, get}
use llm_conduit.Prelude.Text.{Text, codes, text_eq, is_whitespace}
use llm_conduit.Errors.{GatewayError, unauthorized}
use llm_conduit.Http.{get_text, get_value, first, values_of}
use llm_conduit.Config.{Upstream}
use llm_conduit.Config.Upstreams.{IsUnique}
use llm_conduit.Auth.{authenticate, extract_key}
use llm_conduit.Auth.Bearer.{IsKey}
use llm_conduit.RequestId.{request_id, generate_request_id, is_usable_id, request_id_header}
use llm_conduit.RequestId.Shape.{fits, uuid_v4, generate_request_id-fits}
use llm_conduit.RequestId.Stable.{request_id-stable}
use llm_conduit.Proxy.NextHop.{build_request-extract_key}
use llm_conduit.Health.{Joined, HealthState, new_state, record_all}
use llm_conduit.Health.Pass.{Conditions, Pass, pass, hangs, is_stuck, tasks, joined_for}
use llm_conduit.Health.{probe}
use llm_conduit.Health.Pass.Order.{Pass-after_pass, after_pass}
use llm_conduit.Gateway.{Gateway, handle}
use llm_conduit.Gateway.Listing.{IsListed, new_gateway-IsListed}
use llm_conduit.Gateway.Refused.{handle-independent}
use llm_conduit.Tests.Toys.{json}
use llm_conduit.Tests.Wire.{wire, wire_laws, addresses, client}
use llm_conduit.Tests.Settings.{config, upstream}
use llm_conduit.Tests.Requests.{headers, chunked, parts, target, three, sent, is_sent}
use llm_conduit.Tests.Gates.{static, gateway, net, setup, is_up}

generate_request_id-fits_example : fits uuid_v4 (generate_request_id none 7) ≡ true
generate_request_id-fits_example = generate_request_id-fits none 7 tt

abbrev behind : wire.HeaderMap
behind = (codes "x-request-id", request_id wire headers none 7) ∷ []

is_carried : get_text wire behind request_id_header ≡ some (request_id wire headers none 7)
unfolding get_text get_value first values_of text_eq codes
is_carried = refl

request_id-stable_example :
    (is_usable_id (request_id wire headers none 7) ≡ true)
    × (request_id wire behind none 8 ≡ request_id wire headers none 7)
request_id-stable_example = request_id-stable wire headers behind none none 7 8 tt is_carried

is_key : IsKey (codes "k")
unfolding codes is_whitespace
is_key = record { named = refl; starts = refl; ends = refl }

build_request-extract_key_example : extract_key wire (sent three).headers ≡ some (codes "k")
unfolding codes
build_request-extract_key_example =
    build_request-extract_key wire wire_laws addresses client upstream parts target three
      (sent three) (codes "k") is_sent refl is_key (refl, tt)

abbrev pub conditions : Conditions addresses
conditions = record {
  secure = net;
  insecure = none;
  latency = λ name. 5;
  at = λ name. 3;
  panics = λ name. false;
}

abbrev pair : Map (Upstream addresses)
pair = (codes "m", upstream) ∷ (codes "n", record upstream { api_key = none }) ∷ []

abbrev unchecked : HealthState
unchecked = new_state (codes "m" ∷ codes "n" ∷ [])

-- The probe of the second upstream ends first.
abbrev joined : List Joined
joined =
    joined_for addresses conditions config.server.health (codes "n")
      (record upstream { api_key = none })
    ∷ joined_for addresses conditions config.server.health (codes "m") upstream
    ∷ []

is_Pass :
    Pass addresses conditions config.server.health pair unchecked (record_all unchecked joined)
unfolding tasks hangs probe is_stuck
is_Pass = pass joined (Permᴰ.swap refl refl) refl refl

IsUnique-pair : IsUnique pair
unfolding get text_eq codes
IsUnique-pair = (refl, (refl, tt))

Pass-after_pass_example :
    ((name : Text)
      → get name (record_all unchecked joined).upstreams
        ≡ after_pass addresses conditions config.server.health name
            (get name pair)
            (get name unchecked.upstreams))
    × ((record_all unchecked joined).names ≡ unchecked.names)
Pass-after_pass_example =
    Pass-after_pass addresses conditions config.server.health pair unchecked
      (record_all unchecked joined) IsUnique-pair is_Pass

abbrev closed_gateway : Gateway wire addresses json static
closed_gateway = record gateway { upstreams = [] }

abbrev stranger : wire.HeaderMap
stranger = (codes "accept", codes "2") ∷ []

abbrev missing : GatewayError
missing =
    unauthorized (codes "missing credentials: provide 'Authorization: Bearer <key>' or 'X-API-Key'")

is_refused : authenticate wire config.auth stranger ≡ err missing
unfolding authenticate extract_key get_text get_value first values_of text_eq codes
is_refused = refl

handle-independent_example :
    (handle wire addresses json static
        (λ t. t)
        gateway
        none
        7
        5
        (record parts { headers = stranger })
        chunked
      ≡ handle wire addresses json static
          (λ t. t)
          closed_gateway
          none
          7
          5
          (record parts { headers = stranger })
          (record { polls = []; exact = none }))
    × ((handle wire addresses json static
          (λ t. t)
          gateway
          none
          7
          5
          (record parts { headers = stranger })
          chunked).status
        ≡ 401)
handle-independent_example =
    handle-independent wire addresses json static wire_laws (λ t. t) gateway closed_gateway none 7 5
      (record parts { headers = stranger }) chunked (record { polls = []; exact = none }) missing
      refl is_refused

new_gateway-IsListed_example :
    IsListed wire addresses json static
      (λ t. some t)
      setup
      config
      gateway
      (new_state (codes "m" ∷ []))
new_gateway-IsListed_example =
    new_gateway-IsListed wire addresses json static (λ t. some t) setup config gateway
      (new_state (codes "m" ∷ [])) (tt, tt) is_up
