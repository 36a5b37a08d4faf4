-- ===== src/Usage/Scanner/Events.antt =====
-- src/usage.rs: what `UsageScanner` reads out of a stream of server-sent events, whole or cut in
-- the middle of a payload.
use llm_conduit.Prelude.{
  ◌≤◌, ◌≡◌, ◌≢◌, refl, none, List, [], ◌∷◌, ◌++◌, Option, arith, length, ok, err, All, map, ◌⊎◌,
  inl, inr,
}
use llm_conduit.Prelude.Text.{Bytes}
use llm_conduit.Serde.{SerdeJson, eof, other}
use llm_conduit.Usage.Types.{TokenUsage, merge_usage}
use llm_conduit.Usage.Merge.{merge_all}
use llm_conduit.Usage.Candidates.{sse_data}
use llm_conduit.Usage.Candidates.Find.{first_match}
use llm_conduit.Usage.Candidates.Events.{IsPayload, events, handed, candidates-events}
use llm_conduit.Usage.Candidates.Resume.{UnmarkedTail, ending, candidates-resume}
use llm_conduit.Usage.Candidates.Unmarked.{candidates-unmarked_open}
use llm_conduit.Usage.Scanner.{UsageScanner, max_pending, usage_probe, consume, feed, push}

-- An event, and the counters that its payload reports.
pub record Event : Type 0 where
  pub payload : Bytes
  pub report : Option TokenUsage

-- The frame of some events, and of the start of one more.
abbrev pub frame_of : List Event → Bytes → Bytes
frame_of es part = events (map (λ e. e.payload) es) part

abbrev pub reports : List Event → List (Option TokenUsage)
reports es = map (λ e. e.report) es

abbrev pub idle : UsageScanner
idle = record { pending = [] }

module _ (s : SerdeJson) where
  -- What the parser makes of a payload: the report that it reads, or nothing where it refuses the
  -- payload for another reason than that it is cut off, as it does the closing mark of a stream.
  abbrev pub Reads : Bytes → Option TokenUsage → Type 0
  Reads bytes report =
      (usage_probe s bytes ≡ ok report) ⊎ ((usage_probe s bytes ≡ err other) × (report ≡ none))

  -- The payload is one line, within the bound, that reports what it says, or nothing.
  pub record Parses (e : Event) : Type 0 where
    pub line : IsPayload e.payload
    pub bounded : length e.payload ≤ max_pending
    pub parsed : Reads e.payload e.report

  pub consume-parsed :
      (pending : Bytes) (usage report : Option TokenUsage)
      → length pending ≤ max_pending
      → Reads pending report
      → consume s pending usage ≡ ([], merge_usage usage report)
  unfolding consume merge_usage
  consume-parsed pending usage report b (inl h) = ground arith
  consume-parsed pending usage report b (inr (h, nothing)) = rw nothing (ground (arith, h, b))

  pub consume-cut :
      (pending : Bytes) (usage : Option TokenUsage)
      → length pending ≤ max_pending
      → usage_probe s pending ≡ err eof
      → consume s pending usage ≡ (pending, usage)
  unfolding consume
  consume-cut pending usage b h = ground arith

  -- The start of an event that a frame boundary cuts in its payload: it would lose nothing to
  -- trimming, and the parser calls it cut off. The empty part stands for no event.
  pub record IsOpened (part : Bytes) : Type 0 where
    pub line : IsPayload part
    pub bounded : length part ≤ max_pending
    pub cut : usage_probe s part ≡ err eof

  -- Candidates that parse are merged; the last one is kept.
  feed-parts :
      (es : List Event) (part : Bytes) (usage : Option TokenUsage)
      → All Parses es
      → IsOpened part
      → feed s (map (λ e. e.payload) es ++ part ∷ []) ([], usage)
        ≡ (part, merge_all usage (reports es))
  unfolding feed merge_all
  feed-parts [] part usage h o = consume-cut part usage o.bounded o.cut
  feed-parts (e ∷ es) part usage h o =
      rw (consume-parsed e.payload usage e.report h.0.bounded h.0.parsed, feed)
        (feed-parts es part (merge_usage usage e.report) h.1 o)

  feed-handed :
      (es : List Event) (part : Bytes) (usage : Option TokenUsage)
      → All Parses es
      → IsOpened part
      → feed s (handed (map (λ e. e.payload) es) part) ([], usage)
        ≡ (part, merge_all usage (reports es))
  unfolding feed merge_all
  feed-handed [] [] usage h o = refl
  feed-handed [] (c ∷ part) usage h o = consume-cut (c ∷ part) usage o.bounded o.cut
  feed-handed (e ∷ es) part usage h o = feed-parts (e ∷ es) part usage h o

  pub payloads-IsPayload :
      (es : List Event) → All Parses es → All IsPayload (map (λ e. e.payload) es)
  payloads-IsPayload [] h = tt
  payloads-IsPayload (e ∷ es) h = (h.0.line, payloads-IsPayload es h.1)

  -- A frame of whole events and the start of one more.
  pub push-frame_of :
      (es : List Event) (part : Bytes) (usage : Option TokenUsage)
      → All Parses es
      → IsOpened part
      → push s idle (frame_of es part) usage
        ≡ (record { pending = part }, merge_all usage (reports es))
  unfolding push
  push-frame_of es part usage h o = rw (
    candidates-events (map (λ e. e.payload) es) part (payloads-IsPayload es h) o.line,
    feed-handed es part usage h o,
  )

  -- A frame that goes on with the payload of an earlier one, and does not end it.
  pub push-going :
      (part b : Bytes) (usage : Option TokenUsage)
      → part ≢ []
      → b ≢ []
      → first_match b sse_data ≡ none
      → length (part ++ b) ≤ max_pending
      → usage_probe s (part ++ b) ≡ err eof
      → push s (record { pending = part }) b usage ≡ (record { pending = part ++ b }, usage)
  unfolding push feed
  push-going [] b usage begun filled unmarked bound cut = absurd (begun refl)
  push-going (c ∷ part) b usage begun filled unmarked bound cut = rw (
    candidates-unmarked_open b filled unmarked,
    feed,
    consume-cut (c ∷ (part ++ b)) usage bound cut,
  )

  -- A frame that ends the payload of an earlier one, and then holds events.
  pub push-ended :
      (part b : Bytes) (report usage : Option TokenUsage) (es : List Event) (part' : Bytes)
      → part ≢ []
      → UnmarkedTail b
      → length (part ++ ending b) ≤ max_pending
      → Reads (part ++ ending b) report
      → All Parses es
      → IsOpened part'
      → push s (record { pending = part }) (b ++ (b'\n' ∷ b'\n' ∷ frame_of es part')) usage
        ≡ (record { pending = part' }, merge_all (merge_usage usage report) (reports es))
  unfolding push feed
  push-ended [] b report usage es part' begun unmarked bound parsed h o = absurd (begun refl)
  push-ended (c ∷ part) b report usage es part' begun unmarked bound parsed h o = rw (
    candidates-resume b (map (λ e. e.payload) es) part' unmarked,
    feed,
    consume-parsed (c ∷ (part ++ ending b)) usage report bound parsed,
    candidates-events (map (λ e. e.payload) es) part' (payloads-IsPayload es h) o.line,
    feed-handed es part' (merge_usage usage report) h o,
  )
