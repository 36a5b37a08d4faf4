-- ===== src/Tests/Metered.antt =====
-- src/gateway.rs: the log line of a concrete stream of events.
use llm_conduit.Prelude.{◌≡◌, refl, List, [], ◌∷◌, none, ok, map, take, trim_start_by, trim_end_by}
use llm_conduit.Prelude.Text.{
  codes, text_eq, trim, is_whitespace, contains, split_at, eq_ignore_ascii_case,
}
use llm_conduit.Prelude.Map.{get}
use llm_conduit.Body.{Event, chunk, pending}
use llm_conduit.Http.{values_of, get_text}
use llm_conduit.JsonModel.{extract_model}
use llm_conduit.Serde.{from_slice_map}
use llm_conduit.Auth.{authenticate, extract_key, strip_bearer, strip_prefix}
use llm_conduit.Config.{target_uri, query_suffix}
use llm_conduit.Proxy.{
  Response, Client, build_request, inject_key, base_headers, copy_headers, copy_entries,
  is_stripped, connection_tokens, value_tokens, token_names, split_on, upstream_body, pass_on,
  forward, read_body, read_frames,
}
use llm_conduit.Gateway.{
  Gateway, handle, dispatch, dispatch_caller, dispatch_body, dispatch_model, header_model,
  body_model, resolve_model, client_for, set_request_id,
}
use llm_conduit.Gateway.Counted.{chunks_of}
use llm_conduit.Gateway.Answers.{decision}
use llm_conduit.Gateway.Metered.{IsMetered, handle-IsMetered}
use llm_conduit.Usage.Scanner.Stream.{bytes_of}
use llm_conduit.Tests.Toys.{json, open_map}
use llm_conduit.Tests.Wire.{wire, wire_laws, addresses, remove}
use llm_conduit.Tests.Requests.{chunked, parts}
use llm_conduit.Tests.Gates.{static, gateway}
use llm_conduit.Tests.Responses.{stream, IsStream-stream}

-- The frames, as a body gives them.
abbrev frames : List Event
frames = map (λ f. chunk (bytes_of f)) stream

abbrev response : Response wire addresses
response = record {
  status = 200;
  headers = (codes "content-type", codes "text/event-stream") ∷ [];
  body = record { polls = pending ∷ frames; exact = none };
}

abbrev streaming : Client wire addresses
streaming = record { builds = λ method target. ok tt; send = λ request. ok response }

abbrev streaming_gateway : Gateway wire addresses json static
streaming_gateway = record gateway { client = streaming }

is_routed :
    (decision wire addresses json static wire_laws streaming_gateway none 7 5 parts chunked).outcome
    ≡ ok response
unfolding dispatch dispatch_caller dispatch_body dispatch_model authenticate read_body read_frames
    header_model body_model resolve_model client_for set_request_id get contains codes text_eq
    forward pass_on upstream_body target_uri query_suffix build_request inject_key base_headers
    copy_headers copy_entries is_stripped connection_tokens value_tokens token_names split_on
    values_of remove trim trim_start_by trim_end_by is_whitespace extract_key get_text strip_bearer
    strip_prefix split_at eq_ignore_ascii_case extract_model from_slice_map open_map
is_routed = refl

are_frames : chunks_of (take 5 response.body.polls) ≡ map bytes_of stream
unfolding chunks_of
are_frames = refl

handle-IsMetered_example :
    IsMetered wire addresses json static stream 200 5 4000005
      (handle wire addresses json static (λ t. t) streaming_gateway none 7 5 parts chunked)
handle-IsMetered_example =
    handle-IsMetered wire addresses json static wire_laws (λ t. t) streaming_gateway none 7 5 parts
      chunked 5 4000005 response stream is_routed refl are_frames IsStream-stream
