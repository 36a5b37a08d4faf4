-- ===== src/Usage/Scanner/Buffered.antt =====
-- src/usage.rs: what `UsageScanner` reads out of a response that is one JSON document, in one frame
-- or in several.
use llm_conduit.Prelude.{
  ℕ, ◌≤◌, ◌≡◌, ◌≢◌, refl, List, [], ◌∷◌, ◌++◌, Option, none, ok, err, arith, length, ltb,
  if◌then◌else◌, StartsClean, EndsClean,
}
use llm_conduit.Prelude.Text.{Bytes}
use llm_conduit.Serde.{SerdeJson, eof}
use llm_conduit.Usage.Types.{TokenUsage, merge_usage}
use llm_conduit.Usage.Candidates.{sse_data, is_ascii_whitespace}
use llm_conduit.Usage.Candidates.Find.{first_match}
use llm_conduit.Usage.Candidates.Unmarked.{candidates-unmarked, candidates-unmarked_open}
use llm_conduit.Usage.Scanner.{max_pending, usage_probe, consume, feed, push, scan}
use llm_conduit.Usage.Scanner.Events.{idle, consume-cut}

-- The marker of an event does not stand in the frame.
abbrev pub IsUnmarked : Bytes → Type 0
IsUnmarked frame = first_match frame sse_data ≡ none

-- The first frame is taken as it is: it is not empty, and has no blanks at its ends.
pub record IsOpening (frame : Bytes) : Type 0 where
  pub filled : frame ≢ []
  pub unmarked : IsUnmarked frame
  pub starts : StartsClean is_ascii_whitespace frame
  pub ends : EndsClean is_ascii_whitespace frame

abbrev pub document_of : Bytes → List Bytes → Bytes
document_of read [] = read
document_of read (frame ∷ frames) = document_of (read ++ frame) frames

module _ (s : SerdeJson) where
  -- What was read is the start of a document that the frames complete: until the last of them, it is
  -- within the bound and the parser calls it cut off; and the whole reports `report`.
  abbrev pub IsCut : Bytes → List Bytes → Option TokenUsage → Type 0
  IsCut read [] report = usage_probe s read ≡ ok report
  IsCut read (frame ∷ frames) report =
      (usage_probe s read ≡ err eof)
      × (length read ≤ max_pending)
      × (frame ≢ [])
      × IsUnmarked frame
      × IsCut (read ++ frame) frames report

  -- The counters behind a document of some length.
  abbrev pub counted : Bytes → Option TokenUsage → Option TokenUsage → Option TokenUsage
  counted document usage report =
      if ltb max_pending (length document) then usage else merge_usage usage report

  consume-whole :
      (document : Bytes) (usage report : Option TokenUsage)
      → usage_probe s document ≡ ok report
      → consume s document usage ≡ ([], counted document usage report)
  unfolding consume
  consume-whole document usage report h = ground (arith, h)

  push-open :
      (c : ℕ) (read frame : Bytes) (usage : Option TokenUsage)
      → frame ≢ []
      → IsUnmarked frame
      → push s (record { pending = c ∷ read }) frame usage ≡ (
        record { pending = (consume s (c ∷ (read ++ frame)) usage).0 },
        (consume s (c ∷ (read ++ frame)) usage).1,
      )
  unfolding push feed
  push-open c read frame usage filled unmarked =
      rw (candidates-unmarked_open frame filled unmarked, feed) refl

  scan-IsCut :
      (c : ℕ) (read frame : Bytes) (frames : List Bytes) (usage report : Option TokenUsage)
      → IsCut (c ∷ read) (frame ∷ frames) report
      → scan s (record { pending = c ∷ read }) (frame ∷ frames) usage
        ≡ (idle, counted (document_of (c ∷ read) (frame ∷ frames)) usage report)
  unfolding scan
  scan-IsCut c read frame [] usage report (cut, short, filled, unmarked, rest) =
      rw
        (
          push-open c read frame usage filled unmarked,
          consume-whole (c ∷ (read ++ frame)) usage report rest,
        )
        refl
  scan-IsCut c read frame (next ∷ frames) usage report (cut, short, filled, unmarked, rest) =
      rw
        (
          push-open c read frame usage filled unmarked,
          consume-cut s (c ∷ (read ++ frame)) usage rest.1 rest.0,
          scan,
        )
        (scan-IsCut c (read ++ frame) next frames usage report rest)

  push-IsOpening :
      (frame : Bytes) (usage : Option TokenUsage)
      → IsOpening frame
      → push s idle frame usage
        ≡ (record { pending = (consume s frame usage).0 }, (consume s frame usage).1)
  unfolding push feed
  push-IsOpening frame usage o =
      rw (candidates-unmarked frame o.filled o.unmarked o.starts o.ends, feed) refl

  -- A response that is one JSON document in any number of frames, none of them empty or with the
  -- marker of an event in it, the first without blanks at its ends, and such that the parser calls
  -- every part of it but the whole cut off and these parts are within the bound: the scanner ends with
  -- an empty buffer, and merges what the document reports exactly if that is within the bound, too.
  pub scan-buffered :
      (frame : Bytes) (frames : List Bytes) (usage report : Option TokenUsage)
      → IsOpening frame
      → IsCut frame frames report
      → scan s idle (frame ∷ frames) usage ≡ (
        idle,
        (if ltb max_pending (length (document_of frame frames))
            then usage
            else merge_usage usage report),
      )
  unfolding scan
  scan-buffered frame [] usage report o cut =
      rw (push-IsOpening frame usage o, consume-whole frame usage report cut) refl
  scan-buffered [] (next ∷ frames) usage report o cut = absurd (o.filled refl)
  scan-buffered (c ∷ read) (next ∷ frames) usage report o cut =
      rw (push-IsOpening (c ∷ read) usage o, consume-cut s (c ∷ read) usage cut.1 cut.0, scan)
        (scan-IsCut c read next frames usage report cut)
