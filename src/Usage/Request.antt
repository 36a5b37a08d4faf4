-- ===== src/Usage/Request.antt =====
-- src/usage.rs: the token budget and the choice count of a request body.
pub mod Fields
use llm_conduit.Prelude.{
  ℕ, List, [], ◌∷◌, Option, none, some, Bool, Result, ok, err, ◌>>=◌, ◌>>◌, if◌then◌else◌, is_empty,
  is_none, unwrap_or, to_option,
}
use llm_conduit.Prelude.Text.{Text, Bytes, codes, text_eq, contains}
use llm_conduit.Serde.{SerdeJson, Visit, from_slice_map}

-- `REQUEST_USAGE_KEYS`
abbrev pub request_usage_keys : List Text
request_usage_keys =
    codes "max_tokens" ∷ codes "max_completion_tokens" ∷ codes "max_output_tokens" ∷ codes "n" ∷ []

pub record RequestUsage : Type 0 where
  pub max_tokens : Option ℕ
  pub choices : Option ℕ

abbrev pub no_usage : RequestUsage
no_usage = record { max_tokens = none; choices = none }

module _ (s : SerdeJson) where
  unfoldable pub take_usage : RequestUsage → Text → Option ℕ → RequestUsage
  take_usage usage key value =
      if text_eq key (codes "n")
      then record usage { choices = value }
      else if is_none usage.max_tokens
      then record usage { max_tokens = value }
      else usage

  -- The body of the loop in `RequestUsageVisitor::visit_map`.
  unfoldable pub visit_request : Visit s RequestUsage
  visit_request usage key raw =
      if contains request_usage_keys key
      then (do v ← s.read raw; ok (take_usage usage key (s.as_u64 v)))
      else (do s.skip raw; ok usage)

  unfoldable pub extract_request_usage : Bytes → RequestUsage
  extract_request_usage body =
      if is_empty body
      then no_usage
      else unwrap_or (to_option (from_slice_map s visit_request no_usage body)) no_usage
