-- ===== src/Auth.antt =====
-- src/auth.rs: caller authentication by the unified key.
pub mod Keys
pub mod Bearer
use llm_conduit.Prelude.{
  ℕ, List, [], ◌∷◌, Option, none, some, Bool, Result, ok, err, ◌>>=◌, if◌then◌else◌, is_empty,
  and_then, or_else, ok_or, not,
}
use llm_conduit.Prelude.Map.{get}
use llm_conduit.Prelude.Text.{Text, codes, trim, split_at, eq_ignore_ascii_case}
use llm_conduit.Errors.{GatewayError, unauthorized}
use llm_conduit.Http.{Headers, get_text}
use llm_conduit.Config.{AuthConfig}

abbrev pub authorization : Text
authorization = codes "authorization"

abbrev pub api_key_header : Text
api_key_header = codes "x-api-key"

-- `strip_bearer`, at the trimmed text and its first seven bytes.
unfoldable pub strip_prefix : Text → Option (Text × Text) → Text
strip_prefix trimmed none = trimmed
strip_prefix trimmed (some (prefix, rest)) =
    if eq_ignore_ascii_case prefix (codes "bearer ") then trim rest else trimmed

unfoldable pub strip_bearer : Text → Text
strip_bearer raw = strip_prefix (trim raw) (split_at 7 (trim raw))

-- `if !key.is_empty() { return Some(key); }`
abbrev pub usable : Text → Option Text
usable key = if is_empty key then none else some key

module _ (h : Headers) where
  unfoldable pub extract_key : h.HeaderMap → Option Text
  extract_key headers =
      or_else (and_then (get_text h headers authorization) (λ raw. usable (strip_bearer raw)))
        (and_then (get_text h headers api_key_header) (λ raw. usable (trim raw)))

  unfoldable pub authenticate : AuthConfig → h.HeaderMap → Result GatewayError (Option Text)
  authenticate auth headers = if not auth.enabled then ok none else (do
    key ← ok_or (extract_key headers) (
        unauthorized
          (codes "missing credentials: provide 'Authorization: Bearer <key>' or 'X-API-Key'"))
    desc ← ok_or (get key auth.keys) (unauthorized (codes "invalid API key"))
    ok (some desc))
