-- ===== src/Tests/Gates.antt =====
-- src/gateway.rs and src/health.rs at concrete requests and probes.
use llm_conduit.Prelude.{
  refl, some, trim_start_by, trim_end_by, ◌↔◌, ◌≡◌, List, [], ◌∷◌, ◌++◌, none, true, ok, err,
}
use llm_conduit.Prelude.Text.{text_eq, trim, is_whitespace, Text, codes}
use llm_conduit.RequestId.{request_id}
use llm_conduit.Observe.{new_log}
use llm_conduit.Gateway.Probe.{no_probe}
use llm_conduit.Gateway.{Gateway, dispatch, handle}
use llm_conduit.Gateway.Routed.{Way, dispatch-Way}
use llm_conduit.Gateway.Answers.{IsHandled, decision, handle-IsHandled}
use llm_conduit.Health.Probes.{IsServing, Succeeds, models_probe_iff}
use llm_conduit.Health.{Network, finished, models_probe, Joined, new_state, record_all, readyz}
use llm_conduit.Health.Ready.{IsAnswer, readyz-record_all}
use llm_conduit.Prelude.Map.{get, insert, keys}
use llm_conduit.Gateway.Startup.{IsStarted, new_gateway-IsStarted}
use llm_conduit.Json.{Printer, at_key, member}
use llm_conduit.Gateway.Models.{models_body, models_json, model_entry, listed}
use llm_conduit.Gateway.New.{Setup, new_gateway, insecure_for}
use llm_conduit.Config.{
  validate, socket_addr, validate_upstreams, validate_upstream, parse_base_url, is_blank, prefix_of,
  undefined_default, resolve_upstreams, resolve_from, from_config,
}
use llm_conduit.Tests.Toys.{json}
use llm_conduit.Tests.Wire.{read_address, wire, wire_laws, addresses, client}
use llm_conduit.Tests.Settings.{IsUnique-upstreams, config, upstream}
use llm_conduit.Tests.Requests.{chunked, parts}

abbrev pub static : Text → wire.HeaderValue
static t = t

abbrev pub gateway : Gateway wire addresses json static
gateway = record {
  config = config;
  upstreams = (codes "m", upstream) ∷ [];
  client = client;
  insecure_client = none;
  models = codes "m";
}

dispatch-Way_example :
    Way wire addresses json static gateway parts chunked
      (dispatch wire addresses json static gateway parts chunked (new_log [] [] [] 5) no_probe)
dispatch-Way_example =
    dispatch-Way wire addresses json static gateway parts chunked (new_log [] [] [] 5) no_probe

handle-IsHandled_example :
    IsHandled wire addresses json static
      (λ t. t)
      (request_id wire parts.headers none 7)
      (decision wire addresses json static wire_laws gateway none 7 5 parts chunked)
      (handle wire addresses json static (λ t. t) gateway none 7 5 parts chunked)
handle-IsHandled_example =
    handle-IsHandled wire addresses json static wire_laws (λ t. t) gateway none 7 5 parts chunked

abbrev probes : List Joined
probes =
    record { name = codes "m"; outcome = err (codes "closed"); at = 3 }
    ∷ record { name = codes "m"; outcome = ok 12; at = 9 }
    ∷ []

readyz-record_all_example :
    IsAnswer
      (codes "m" ∷ codes "n" ∷ [])
      probes
      11
      (readyz (record_all (new_state (codes "m" ∷ codes "n" ∷ [])) probes) 11 true)
readyz-record_all_example = readyz-record_all (codes "m" ∷ codes "n" ∷ []) probes 11 true

abbrev pub net : Network addresses
net = record {
  host = λ authority. authority;
  port_u16 = λ authority. none;
  connect = λ address timeout. finished tt;
  static_uri = λ path. record { scheme = []; host = []; path = path };
  builds = λ target credentials. ok tt;
  get_status = λ target credentials timeout. finished 204;
  body_ends = λ target credentials. true;
  show_duration = λ d. [];
  show_status = λ status. [];
}

models_probe_iff_example :
    Succeeds addresses net (models_probe addresses net upstream 2)
    ↔ IsServing addresses net upstream 2
models_probe_iff_example = models_probe_iff addresses net upstream 2

-- It prints the IDs that a listing holds, one after the other.
abbrev all_of : List Text → Text
all_of [] = []
all_of (t ∷ ts) = t ++ all_of ts

abbrev print_names : Printer
print_names j = some (all_of (listed (at_key (codes "data") j)))

abbrev pub setup : Setup wire addresses json static (λ t. some t)
setup = record { build_client = λ insecure. ok client; print = print_names; created = 7 }

pub is_up :
    new_gateway wire addresses json static (λ t. some t) setup config
    ≡ ok (gateway, new_state (codes "m" ∷ []))
unfolding new_gateway validate socket_addr validate_upstreams validate_upstream parse_base_url
    read_address is_blank codes text_eq trim trim_start_by trim_end_by is_whitespace prefix_of
    undefined_default get resolve_upstreams resolve_from from_config insert insecure_for keys
    models_body models_json model_entry at_key member
is_up = refl

new_gateway-IsStarted_example : IsStarted wire addresses json static (λ t. some t) config gateway
new_gateway-IsStarted_example =
    new_gateway-IsStarted wire addresses json static (λ t. some t) setup config gateway
      (new_state (codes "m" ∷ [])) IsUnique-upstreams is_up
