-- ===== src/Usage/Scanner.antt =====
-- src/usage.rs: the probe for the `usage` field and `UsageScanner`, which reads it out of the frames
-- of a response.
pub mod Bound
pub mod Stream
pub mod Events
pub mod Buffered
use llm_conduit.Prelude.{
  ℕ, List, [], ◌∷◌, ◌++◌, Option, none, some, Bool, not, Result, ok, err, ◌>>=◌, ◌>>◌, ltb, length,
  if◌then◌else◌, is_empty,
}
use llm_conduit.Prelude.Text.{Text, Bytes, text_eq, codes}
use llm_conduit.Serde.{Failure, eof, other, SerdeJson, Visit, visit_map, from_slice_map}
use llm_conduit.Usage.Types.{TokenUsage, UsageBody, from_body, merge_usage}
use llm_conduit.Usage.Candidates.{candidates}

-- 16 KiB
abbrev pub max_pending : ℕ
max_pending = 16384

pub record UsageScanner : Type 0 where
  pub pending : Bytes

-- `map(TokenUsage::from)`
abbrev pub to_usage : Option UsageBody → Option TokenUsage
to_usage none = none
to_usage (some body) = some (from_body body)

abbrev pub key_usage : Text
key_usage = codes "usage"

module _ (s : SerdeJson) where
  -- The body of the loop in `UsageVisitor::visit_map`.
  unfoldable pub visit_usage : Visit s (Option TokenUsage)
  visit_usage usage key raw =
      if text_eq key key_usage
      then (do body ← s.read_usage raw; ok (to_usage body))
      else (do s.skip raw; ok usage)

  -- `serde_json::from_slice::<UsageProbe>`
  unfoldable pub usage_probe : Bytes → Result Failure (Option TokenUsage)
  usage_probe = from_slice_map s visit_usage none

  -- `UsageScanner::consume`: the buffer and the counters afterwards.
  unfoldable pub consume : Bytes → Option TokenUsage → Bytes × Option TokenUsage
  consume pending usage =
      if ltb max_pending (length pending) then ([], usage) else elim (usage_probe pending) [
        | ok probe ↦ ([], merge_usage usage probe)
        | err eof ↦ (pending, usage)
        | err other ↦ ([], usage)
      ]

  -- The loop of `push` over the candidates.
  unfoldable pub feed : List Bytes → Bytes × Option TokenUsage → Bytes × Option TokenUsage
  feed [] st = st
  feed (candidate ∷ more) st = feed more (consume (st.0 ++ candidate) st.1)

  -- `UsageScanner::push`.
  unfoldable pub push : UsageScanner → Bytes → Option TokenUsage → UsageScanner × Option TokenUsage
  push scanner frame usage =
      let (pending, usage') =
        feed (candidates frame (not (is_empty scanner.pending))) (scanner.pending, usage) in
      (record { pending = pending }, usage')

  -- A whole response, frame by frame.
  unfoldable pub scan :
      UsageScanner → List Bytes → Option TokenUsage → UsageScanner × Option TokenUsage
  scan scanner [] usage = (scanner, usage)
  scan scanner (frame ∷ frames) usage =
      let (scanner', usage') = push scanner frame usage in scan scanner' frames usage'
