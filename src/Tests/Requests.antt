-- ===== src/Tests/Requests.antt =====
-- src/json_model.rs, src/usage.rs, src/auth.rs, src/proxy.rs and src/observe.rs at concrete requests.
use llm_conduit.Prelude.{
  ◌≡◌, refl, List, [], ◌∷◌, ◌++◌, none, some, ok, err, ◌↔◌, length, trim_start_by, trim_end_by,
}
use llm_conduit.Prelude.Text.{
  Text, Bytes, codes, text_eq, trim, is_whitespace, contains, decimal, position, utf8_len,
}
use llm_conduit.Serde.{visit_map, from_slice_map}
use llm_conduit.Body.{chunk, trailers, pending, Body, full_body}
use llm_conduit.Errors.{GatewayError, bad_gateway}
use llm_conduit.Http.{values_of}
use llm_conduit.Usage.Effort.{
  EffortState, no_effort, visit_effort, effort_candidate, take_effort, non_empty, extract_effort,
}
use llm_conduit.Usage.Effort.Preferred.{Kept, extract_effort-Kept}
use llm_conduit.Usage.Request.{
  RequestUsage, no_usage, visit_request, take_usage, extract_request_usage,
}
use llm_conduit.Usage.Request.Fields.{first_budget, last_choices, extract_request_usage-Collected}
use llm_conduit.JsonModel.{extract_model, try_rewrite_model, rewrite_view, rewrite_object, is_model}
use llm_conduit.JsonModel.Rewrite.{
  IsRewrite, try_rewrite_model_iff, extract_model-try_rewrite_model,
}
use llm_conduit.Auth.Keys.{Decided, authenticate-Decided}
use llm_conduit.Config.{target_uri, query_suffix}
use llm_conduit.Proxy.{
  Parts, Request, Response, build_request, inject_key, base_headers, copy_headers, copy_entries,
  is_stripped, connection_tokens, value_tokens, token_names, split_on, upstream_body, pass_on,
  forward, read_body, read_frames, over_limit,
}
use llm_conduit.Proxy.ReadBody
use llm_conduit.Proxy.Copied.{IsMapped, build_request-IsMapped}
use llm_conduit.Proxy.Forwarded.{IsForwarded, forward-IsForwarded, Unforwarded, forward-err}
use llm_conduit.Observe.Meter.{IsReported, poll_times-IsReported}
use llm_conduit.Tests.Toys.{
  Value, text, number, json, json_laws, open_map, decode, blank, body_of, from_slice, of_entries,
  view, lookup, put, to_vec, as_u64,
}
use llm_conduit.Tests.Wire.{wire, wire_laws, remove, Address, addresses, client, answer}
use llm_conduit.Tests.Settings.{config, upstream}

abbrev body : Bytes
body = body_of (codes "model") (codes "a")

abbrev rewritten : Bytes
rewritten = body_of (codes "model") (codes "b")

try_rewrite_model_example :
    (try_rewrite_model json body (codes "b") ≡ some rewritten)
    ↔ IsRewrite json body (codes "b") rewritten
try_rewrite_model_example = try_rewrite_model_iff json body (codes "b") rewritten

is_rewritten : try_rewrite_model json body (codes "b") ≡ some rewritten
unfolding try_rewrite_model from_slice open_map decode blank of_entries view rewrite_view
    rewrite_object lookup is_model put to_vec text_eq codes
is_rewritten = refl

extract_model-try_rewrite_model_example : extract_model json rewritten ≡ some (codes "b")
unfolding codes
extract_model-try_rewrite_model_example =
    extract_model-try_rewrite_model json json_laws (codes "b") refl body rewritten refl is_rewritten

abbrev effort_body : Bytes
effort_body =
    b'{'
    ∷ b','
    ∷ 9
    ∷ (codes "reasoning"
        ++ (1
            ∷ 3
            ∷ (codes "low"
                ++ (b','
                    ∷ 16
                    ∷ (codes "reasoning_effort"
                        ++ (1 ∷ 4 ∷ (codes "high" ++ (b',' ∷ 1 ∷ b'n' ∷ 0 ∷ 2 ∷ b'}' ∷ []))))))))

abbrev effort_entries : List (Text × Value)
effort_entries =
    (codes "reasoning", text (codes "low"))
    ∷ (codes "reasoning_effort", text (codes "high"))
    ∷ (codes "n", number 2)
    ∷ []

effort_opens : open_map effort_body ≡ ok (effort_entries, none)
unfolding open_map decode blank codes
effort_opens = refl

abbrev high : EffortState
high = record { effort = some (codes "high"); rank = 0 }

effort_parsed : from_slice_map json (visit_effort json) no_effort effort_body ≡ ok high
unfolding from_slice_map visit_map visit_effort effort_candidate take_effort non_empty open_map
    decode blank codes text_eq trim trim_start_by trim_end_by is_whitespace position utf8_len view
effort_parsed = refl

extract_effort-Kept_example :
    (extract_effort json effort_body ≡ some (codes "high"))
    × Kept json effort_entries 0 (some (codes "high"))
extract_effort-Kept_example =
    extract_effort-Kept json effort_body effort_entries high refl effort_opens effort_parsed

abbrev two_choices : RequestUsage
two_choices = record { max_tokens = none; choices = some 2 }

usage_parsed : from_slice_map json (visit_request json) no_usage effort_body ≡ ok two_choices
unfolding from_slice_map visit_map visit_request take_usage open_map decode blank codes text_eq
    contains as_u64
usage_parsed = refl

extract_request_usage-Collected_example :
    ((extract_request_usage json effort_body).max_tokens ≡ first_budget json effort_entries)
    × ((extract_request_usage json effort_body).choices ≡ last_choices json none effort_entries)
extract_request_usage-Collected_example =
    extract_request_usage-Collected json effort_body effort_entries two_choices refl effort_opens
      usage_parsed

abbrev pub headers : wire.HeaderMap
headers =
    (codes "authorization", codes "Bearer key")
    ∷ (codes "connection", codes "x-a, close")
    ∷ (codes "x-a", codes "1")
    ∷ (codes "accept", codes "2")
    ∷ []

authenticate-Decided_example : Decided wire config.auth headers
authenticate-Decided_example = authenticate-Decided wire config.auth headers refl

abbrev pub chunked : Body
chunked = record {
  polls = chunk (1 ∷ 2 ∷ []) ∷ pending ∷ chunk (3 ∷ []) ∷ trailers ∷ [];
  exact = none;
}

abbrev pub three : Bytes
three = 1 ∷ 2 ∷ 3 ∷ []

read_body-Decided_example : ReadBody.Decided chunked 3
read_body-Decided_example = ReadBody.read_body-Decided chunked 3 (λ len e. cc)

fits_three : read_body chunked 3 ≡ ok three
unfolding read_body read_frames
fits_three = refl

too_long : read_body chunked 2 ≡ err (over_limit 2)
unfolding read_body read_frames
too_long = refl

abbrev pub target : Address
target = record { scheme = codes "http"; host = codes "host"; path = codes "/v1/chat" }

abbrev pub parts : Parts wire addresses
parts = record {
  method = codes "POST";
  uri = record { scheme = []; host = []; path = codes "/chat" };
  headers = headers;
}

abbrev pub sent : Bytes → Request wire addresses
sent bytes = record {
  method = codes "POST";
  uri = target;
  headers =
      (codes "authorization", codes "Bearer k")
      ∷ (codes "content-length", decimal (length bytes))
      ∷ (codes "accept", codes "2")
      ∷ [];
  body = bytes;
}

pub is_sent : build_request wire addresses client upstream parts target three ≡ ok (sent three)
unfolding build_request inject_key base_headers copy_headers copy_entries is_stripped
    connection_tokens value_tokens token_names split_on contains codes text_eq values_of remove trim
    trim_start_by trim_end_by is_whitespace
is_sent = refl

build_request-IsMapped_example :
    IsMapped wire wire_laws upstream.api_key headers three (sent three).headers
    × (codes "POST" ≡ codes "POST")
    × (target ≡ target)
    × (three ≡ three)
build_request-IsMapped_example =
    build_request-IsMapped wire wire_laws addresses client upstream parts target three (sent three)
      is_sent

abbrev response : Response wire addresses
response = record { status = 201; headers = (codes "etag", codes "y") ∷ []; body = full_body three }

is_answered : forward wire addresses json client upstream parts three none ≡ ok response
unfolding forward pass_on upstream_body target_uri query_suffix answer build_request inject_key
    base_headers copy_headers copy_entries is_stripped connection_tokens value_tokens token_names
    split_on contains codes text_eq values_of remove trim trim_start_by trim_end_by is_whitespace
is_answered = refl

forward-IsForwarded_example :
    IsForwarded wire wire_laws addresses json client upstream parts three none response
forward-IsForwarded_example =
    forward-IsForwarded wire wire_laws addresses json client upstream parts three none response
      is_answered

abbrev closed : GatewayError
closed = bad_gateway (codes "upstream 'm' request failed: closed")

is_closed : forward wire addresses json client upstream parts [] none ≡ err closed
unfolding forward upstream_body target_uri query_suffix answer build_request inject_key base_headers
    copy_headers copy_entries is_stripped connection_tokens value_tokens token_names split_on
    contains codes text_eq values_of remove trim trim_start_by trim_end_by is_whitespace
is_closed = refl

forward-err_example : Unforwarded wire wire_laws addresses json client upstream parts [] closed
unfolding upstream_body
forward-err_example =
    forward-err wire wire_laws addresses json client upstream parts [] none closed is_closed

-- An observer that keeps what it is given.
abbrev keep : Bytes → Bytes → Bytes
keep seen frame = seen ++ frame

poll_times-IsReported_example : IsReported keep 3 chunked.polls (some 3) (some [])
poll_times-IsReported_example = poll_times-IsReported keep 3 chunked.polls (some 3) (some [])
