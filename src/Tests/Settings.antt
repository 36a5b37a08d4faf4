-- ===== src/Tests/Settings.antt =====
-- src/config.rs at a concrete configuration.
use llm_conduit.Prelude.{
  ◌≡◌, refl, [], ◌∷◌, ◌++◌, none, some, true, false, ok, ◌↔◌, map_err, trim_start_by, trim_end_by,
}
use llm_conduit.Prelude.Map.{Map, get}
use llm_conduit.Prelude.Text.{Text, codes, text_eq, trim, is_whitespace}
use llm_conduit.Errors.{internal}
use llm_conduit.Config.{
  Config, UpstreamConfig, tcp, Upstream, validate, validate_upstream, validate_upstreams,
  parse_base_url, is_blank, resolve_upstreams, from_config, target_uri, query_suffix, prefix_of,
}
use llm_conduit.Config.Upstreams.{
  IsUnique, Resolved, resolve_upstreams-Resolved, IsReachable, from_config-target_uri,
}
use llm_conduit.Config.Valid.{IsValid, validate_iff}
use llm_conduit.Tests.Wire.{Address, addresses, read_address}

abbrev pub local : UpstreamConfig
local = record {
  base_url = codes "host";
  api_key = some (codes "k");
  upstream_model = none;
  insecure_skip_verify = false;
}

abbrev pub config : Config
config = record {
  server = record {
    listen = codes "a:1";
    default_upstream = some (codes "m");
    max_body_bytes = 9;
    tls = none;
    health = record { enabled = true; interval_secs = 5; timeout_secs = 1; mode = tcp };
  };
  auth = record { enabled = true; keys = (codes "key", codes "me") ∷ [] };
  upstreams = (codes "m", local) ∷ [];
}

validate_example :
    (validate addresses (λ t. some t) config ≡ ok tt) ↔ IsValid addresses (λ t. some t) config
validate_example = validate_iff addresses (λ t. some t) config

local_passes : validate_upstreams addresses config.upstreams ≡ ok tt
unfolding validate_upstreams validate_upstream parse_base_url read_address is_blank codes text_eq
    trim trim_start_by trim_end_by is_whitespace prefix_of
local_passes = refl

pub IsUnique-upstreams : IsUnique config.upstreams
unfolding get
IsUnique-upstreams = (refl, tt)

resolve_upstreams-Resolved_example :
    (resolved : Map (Upstream addresses)) × (resolve_upstreams addresses config ≡ ok resolved)
    × ((name : Text) → Resolved addresses name (get name config.upstreams) (get name resolved))
resolve_upstreams-Resolved_example =
    resolve_upstreams-Resolved addresses config IsUnique-upstreams local_passes

abbrev pub upstream : Upstream addresses
upstream = record {
  name = codes "m";
  base = record { scheme = codes "http"; host = codes "host"; path = codes "/v1/" };
  path_prefix = codes "/v1";
  api_key = some (codes "k");
  upstream_model = none;
  insecure_skip_verify = false;
}

local_is_upstream : from_config addresses (codes "m") local ≡ ok upstream
unfolding from_config parse_base_url read_address codes text_eq prefix_of trim_end_by
local_is_upstream = refl

from_config-target_uri_example :
    (r : IsReachable addresses upstream) × ((req : Address)
      → target_uri addresses upstream req
        ≡ map_err
            (λ e. internal (codes "failed to build upstream URL: " ++ e))
            (addresses.build r.scheme r.host
              (upstream.path_prefix ++ (req.path ++ query_suffix none))))
from_config-target_uri_example =
    from_config-target_uri addresses (codes "m") local upstream local_is_upstream
