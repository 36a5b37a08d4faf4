-- ===== src/Health/Pass.antt =====
-- src/health.rs: one pass of `probe_loop` over the upstreams. The probes run concurrently and are
-- joined in any order, so the pass is a relation: a permutation of the joined probes is recorded.
pub mod Order
use mathlib.Core.List.{Permᴰ}
use llm_conduit.Prelude.{
  ℕ, List, [], ◌∷◌, Option, none, some, Bool, true, false, Result, ok, err, ◌>>=◌, ◌>>◌,
  if◌then◌else◌, ◌≡◌, not, ◌&&◌, ◌||◌,
}
use llm_conduit.Prelude.Map.{Map, get}
use llm_conduit.Prelude.Text.{Text}
use llm_conduit.Http.{Uris}
use llm_conduit.Config.{Upstream, HealthConfig}
use llm_conduit.Health.{HealthState, Joined, record_all, Network, probe}

module _ (u : Uris) where
  -- What the environment decides in a pass: the network behind each client, how long a probe takes,
  -- when it is joined, and whether its task panics.
  pub record Conditions : Type 0 where
    pub secure : Network u
    pub insecure : Option (Network u)
    pub latency : Text → ℕ
    pub at : Text → ℕ
    pub panics : Text → Bool

  module _ (c : Conditions) (config : HealthConfig) where
    abbrev or_secure : Option (Network u) → Network u
    or_secure none = c.secure
    or_secure (some net) = net

    -- `insecure.clone().unwrap_or_else(|| secure.clone())`, for an upstream that skips verification.
    unfoldable pub network_for : Upstream u → Network u
    network_for upstream = if upstream.insecure_skip_verify then or_secure c.insecure else c.secure

    unfoldable pub outcome_for : Text → Upstream u → Result Text ℕ
    outcome_for name upstream = do
      (probe u (network_for upstream) upstream config).outcome
      ok (c.latency name)

    unfoldable pub joined_for : Text → Upstream u → Joined
    joined_for name upstream = record {
      name = name;
      outcome = outcome_for name upstream;
      at = c.at name;
    }

    -- A task that waits for ever.
    unfoldable pub hangs : Text → Upstream u → Bool
    hangs name upstream =
        not (c.panics name) && not (probe u (network_for upstream) upstream config).returns

    -- A task that is joined with no outcome, or never.
    abbrev pub is_lost : Text → Upstream u → Bool
    is_lost name upstream = c.panics name || hangs name upstream

    -- With such a task `join_next` waits for ever behind the others.
    unfoldable pub is_stuck : Map (Upstream u) → Bool
    is_stuck [] = false
    is_stuck ((name, upstream) ∷ m) = let more = is_stuck m in hangs name upstream || more

    -- The tasks of a pass that end with an outcome; one that panics is skipped.
    unfoldable pub tasks : Map (Upstream u) → List Joined
    tasks [] = []
    tasks ((name, upstream) ∷ m) =
        let more = tasks m in
        if is_lost name upstream then more else joined_for name upstream ∷ more

    -- A pass that comes to its end.
    pub data Pass (m : Map (Upstream u)) (before after : HealthState) : Type 0 where
      pass :
          (js : List Joined)
          → Permᴰ js (tasks m)
          → is_stuck m ≡ false
          → after ≡ record_all before js
          → Pass m before after
