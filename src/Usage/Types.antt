-- ===== src/Usage/Types.antt =====
-- src/usage.rs and src/observe.rs: the token counters of a response, the `usage` object that the
-- upstream sends, and the rule by which a later report replaces an earlier one.
use llm_conduit.Prelude.{ℕ, ◌+◌, ◌%◌, ◌^◌, Option, none, some, ltb, if◌then◌else◌, or_else}

pub record TokenUsage : Type 0 where
  pub prompt_tokens : Option ℕ
  pub completion_tokens : Option ℕ
  pub total_tokens : Option ℕ
  pub reasoning_tokens : Option ℕ
  pub cached_tokens : Option ℕ

pub record TokenDetails : Type 0 where
  pub cached_tokens : Option ℕ
  pub reasoning_tokens : Option ℕ

pub record UsageBody : Type 0 where
  pub prompt_tokens : Option ℕ
  pub completion_tokens : Option ℕ
  pub total_tokens : Option ℕ
  pub prompt_tokens_details : TokenDetails
  pub completion_tokens_details : TokenDetails

abbrev pub u64_mod : ℕ
u64_mod = 2 ^ 64

-- `prompt + completion` on `u64`, as a release build computes it: it wraps.
unfoldable pub sum_u64 : Option ℕ → Option ℕ → Option ℕ
sum_u64 (some prompt) (some completion) = some ((prompt + completion) % u64_mod)
sum_u64 (some prompt) none = none
sum_u64 none completion = none

-- `impl From<UsageBody> for TokenUsage`.
unfoldable pub from_body : UsageBody → TokenUsage
from_body body = record {
  prompt_tokens = body.prompt_tokens;
  completion_tokens = body.completion_tokens;
  total_tokens = or_else body.total_tokens (sum_u64 body.prompt_tokens body.completion_tokens);
  reasoning_tokens = body.completion_tokens_details.reasoning_tokens;
  cached_tokens = body.prompt_tokens_details.cached_tokens;
}

abbrev pub present : Option ℕ → ℕ
present none = 0
present (some n) = 1

unfoldable pub completeness : TokenUsage → ℕ
completeness usage =
    present usage.prompt_tokens
    + present usage.completion_tokens
    + present usage.total_tokens
    + present usage.reasoning_tokens
    + present usage.cached_tokens

-- `merge_usage`: the value that `*current` holds afterwards.
unfoldable pub merge_usage : Option TokenUsage → Option TokenUsage → Option TokenUsage
merge_usage current none = current
merge_usage none (some seen) = some seen
merge_usage (some existing) (some seen) =
    if ltb (completeness seen) (completeness existing) then some existing else some seen
