-- ===== src/Usage/Scanner/Bound.antt =====
-- src/usage.rs: the buffer of `UsageScanner` never grows past `MAX_PENDING` between frames.
use llm_conduit.Prelude.{◌≤◌, List, [], ◌∷◌, ◌++◌, Option, not, arith, length, is_empty}
use llm_conduit.Prelude.Text.{Bytes}
use llm_conduit.Serde.{SerdeJson}
use llm_conduit.Usage.Types.{TokenUsage}
use llm_conduit.Usage.Candidates.{candidates}
use llm_conduit.Usage.Scanner.{UsageScanner, max_pending, consume, feed, push, scan}

module _ (s : SerdeJson) where
  consume-le :
      (pending : Bytes) (usage : Option TokenUsage)
      → length (consume s pending usage).0 ≤ max_pending
  unfolding consume
  consume-le pending usage = ground arith

  feed-le :
      (cs : List Bytes) (st : Bytes × Option TokenUsage)
      → length st.0 ≤ max_pending
      → length (feed s cs st).0 ≤ max_pending
  unfolding feed
  feed-le [] st h = h
  feed-le (c ∷ cs) st h = feed-le cs (consume s (st.0 ++ c) st.1) (consume-le (st.0 ++ c) st.1)

  push-le :
      (scanner : UsageScanner) (frame : Bytes) (usage : Option TokenUsage)
      → length scanner.pending ≤ max_pending
      → length (push s scanner frame usage).0.pending ≤ max_pending
  unfolding push
  push-le scanner frame usage h =
      feed-le (candidates frame (not (is_empty scanner.pending))) (scanner.pending, usage) h

  -- Whatever the upstream sends, in whatever frames, the scanner that starts with an empty buffer
  -- holds at most 16 KiB of it after each of them.
  pub scan-le :
      (scanner : UsageScanner) (frames : List Bytes) (usage : Option TokenUsage)
      → length scanner.pending ≤ max_pending
      → length (scan s scanner frames usage).0.pending ≤ max_pending
  unfolding scan
  scan-le scanner [] usage h = h
  scan-le scanner (frame ∷ frames) usage h =
      scan-le (push s scanner frame usage).0 frames (push s scanner frame usage).1
        (push-le scanner frame usage h)
