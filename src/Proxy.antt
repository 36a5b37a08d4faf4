-- ===== src/Proxy.antt =====
-- src/proxy.rs: reading the request body, filtering headers, building the upstream request, and
-- passing the upstream's response on.
pub mod ReadBody
pub mod Entries
pub mod Copied
pub mod Forwarded
pub mod NextHop
use llm_conduit.Prelude.{
  ℕ, ◌+◌, List, [], ◌∷◌, ◌++◌, Option, none, some, Bool, true, false, ◌||◌, Result, ok, err, ◌>>=◌,
  ◌>>◌, ltb, ◌==◌, if◌then◌else◌, is_empty, and_then, ok_or, map_err, unwrap_or, length,
}
use llm_conduit.Prelude.Text.{Text, Bytes, codes, trim, contains, decimal, text_eq}
use llm_conduit.Body.{Event, chunk, trailers, failed, pending, Body}
use llm_conduit.Errors.{GatewayError, payload_too_large, bad_request, internal, bad_gateway}
use llm_conduit.Http.{Headers, Uris}
use llm_conduit.Serde.{SerdeJson}
use llm_conduit.JsonModel.{try_rewrite_model}
use llm_conduit.Config.{Upstream, target_uri}
use llm_conduit.Auth.{authorization}

abbrev pub hop_by_hop : List Text
hop_by_hop =
    codes "connection"
    ∷ codes "proxy-connection"
    ∷ codes "keep-alive"
    ∷ codes "proxy-authenticate"
    ∷ codes "proxy-authorization"
    ∷ codes "te"
    ∷ codes "trailer"
    ∷ codes "transfer-encoding"
    ∷ codes "upgrade"
    ∷ []

abbrev pub request_strip : List Text
request_strip =
    codes "host"
    ∷ codes "content-length"
    ∷ codes "authorization"
    ∷ codes "x-api-key"
    ∷ codes "x-model"
    ∷ codes "expect"
    ∷ []

abbrev pub response_strip : List Text
response_strip = []

abbrev pub content_length : Text
content_length = codes "content-length"

-- `payload_too_large(max_body_bytes)`
abbrev pub over_limit : ℕ → GatewayError
over_limit max =
    payload_too_large (codes "request body exceeds the " ++ (decimal max ++ codes "-byte limit"))

-- The loop of `read_body`. Both lengths fit 63 bits, so their sum fits 64.
unfoldable pub read_frames : ℕ → Bytes → List Event → Result GatewayError Bytes
read_frames max buffer [] = ok buffer
read_frames max buffer (failed e ∷ es) =
    err (bad_request (codes "failed to read request body: " ++ e))
read_frames max buffer (trailers ∷ es) = read_frames max buffer es
read_frames max buffer (pending ∷ es) = read_frames max buffer es
read_frames max buffer (chunk c ∷ es) =
    let rest = read_frames max (buffer ++ c) es in
    if ltb max (length buffer + length c) then err (over_limit max) else rest

abbrev pub declares_more : Option ℕ → ℕ → Bool
declares_more none max = false
declares_more (some len) max = ltb max len

unfoldable pub read_body : Body → ℕ → Result GatewayError Bytes
read_body body max =
    if declares_more body.exact max then err (over_limit max) else read_frames max [] body.polls

-- `text.split(separator)`
unfoldable pub split_on : ℕ → Text → List Text
split_on separator [] = [] ∷ []
split_on separator (c ∷ t) =
    let rest = split_on separator t in
    if c == separator
    then [] ∷ rest
    else elim rest [ [] ↦ (c ∷ []) ∷ [] | part ∷ parts ↦ (c ∷ part) ∷ parts ]

module _ (h : Headers) where
  -- The loops of `connection_tokens`: over the parts of a value, and over the values.
  unfoldable pub token_names : List Text → List Text
  token_names [] = []
  token_names (part ∷ parts) =
      let more = token_names parts in
      if is_empty (trim part)
      then more
      else elim (h.name_of (trim part)) [ none ↦ more | some name ↦ name ∷ more ]

  unfoldable pub value_tokens : List h.HeaderValue → List Text
  value_tokens [] = []
  value_tokens (value ∷ values) =
      let more = value_tokens values in
      elim (h.to_str value) [ none ↦ more | some text ↦ token_names (split_on b',' text) ++ more ]

  unfoldable pub connection_tokens : h.HeaderMap → List Text
  connection_tokens headers = value_tokens (h.get_all (codes "connection") headers)

  unfoldable pub is_stripped : List Text → List Text → Text → Bool
  is_stripped tokens extra_strip name =
      contains hop_by_hop name || contains extra_strip name || contains tokens name

  -- The loop of `copy_headers`.
  unfoldable pub copy_entries :
      List Text → List Text → List (Text × h.HeaderValue) → h.HeaderMap → h.HeaderMap
  copy_entries tokens extra_strip [] target = target
  copy_entries tokens extra_strip ((name, value) ∷ es) target =
      copy_entries tokens extra_strip es
        (if is_stripped tokens extra_strip name then target else h.append name value target)

  unfoldable pub copy_headers : h.HeaderMap → h.HeaderMap → List Text → h.HeaderMap
  copy_headers source target extra_strip =
      copy_entries (connection_tokens source) extra_strip (h.iter source) target

  -- The key mapping: `Authorization` carries the upstream's key, if it has one.
  unfoldable pub inject_key : Option Text → h.HeaderMap → Result GatewayError h.HeaderMap
  inject_key none headers = ok headers
  inject_key (some api_key) headers = do
    value ←
        ok_or (h.from_str (codes "Bearer " ++ api_key))
          (internal (codes "upstream api_key contains invalid characters"))
    ok (h.insert authorization value headers)

  -- The headers of the upstream request, before the key is added.
  unfoldable pub base_headers : h.HeaderMap → Bytes → h.HeaderMap
  base_headers source body =
      h.insert content_length (h.from_u64 (length body)) (copy_headers source h.empty request_strip)

-- The body that is sent: rewritten only if the upstream knows the model by another name.
abbrev is_target : Option Text → Text → Bool
is_target none target = false
is_target (some model) target = text_eq model target

unfoldable pub upstream_body : SerdeJson → Option Text → Bytes → Option Text → Bytes
upstream_body s none body body_model = body
upstream_body s (some target) body body_model =
    if is_target body_model target then body else unwrap_or (try_rewrite_model s body target) body

module _ (h : Headers) (u : Uris) where
  -- The parts of a request; the method is the text of `Method::as_str`.
  pub record Parts : Type 0 where
    pub method : Text
    pub uri : u.Uri
    pub headers : h.HeaderMap

  pub record Request : Type 0 where
    pub method : Text
    pub uri : u.Uri
    pub headers : h.HeaderMap
    pub body : Bytes

  pub record Response : Type 0 where
    pub status : ℕ
    pub headers : h.HeaderMap
    pub body : Body

  -- The HTTP client and the request builder; failures are texts, as the program prints them.
  pub record Client : Type 0 where
    pub builds : Text → u.Uri → Result Text (Unit {0})
    pub send : Request → Result Text Response

  unfoldable pub build_request :
      Client → Upstream u → Parts → u.Uri → Bytes → Result GatewayError Request
  build_request client upstream parts target body = do
    headers ← inject_key h upstream.api_key (base_headers h parts.headers body)
    map_err (λ e. internal (codes "failed to build upstream request: " ++ e))
        (client.builds parts.method target)
    ok (record { method = parts.method; uri = target; headers = headers; body = body })

  -- The response that is passed on: the upstream's status and body, its end-to-end headers.
  unfoldable pub pass_on : Response → Response
  pass_on response = record {
    status = response.status;
    headers = copy_headers h response.headers h.empty response_strip;
    body = response.body;
  }

  module _ (s : SerdeJson) where
    unfoldable pub forward :
        Client → Upstream u → Parts → Bytes → Option Text → Result GatewayError Response
    forward client upstream parts body body_model = do
      target ← target_uri u upstream parts.uri
      request ←
          build_request client upstream parts target
            (upstream_body s upstream.upstream_model body body_model)
      response ←
          map_err
            (λ e.
              bad_gateway
                (codes "upstream '" ++ (upstream.name ++ (codes "' request failed: " ++ e))))
            (client.send request)
      ok (pass_on response)
