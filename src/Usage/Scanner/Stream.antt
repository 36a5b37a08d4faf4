-- ===== src/Usage/Scanner/Stream.antt =====
-- src/usage.rs: the counters that `UsageScanner` has read at the end of a stream of server-sent
-- events whose frames hold whole events or cut them within their payloads.
use mathlib.Core.List.{append-nil}
use llm_conduit.Prelude.{
  ◌≤◌, ◌≡◌, ◌≢◌, refl, ap, ◌∙◌, List, [], ◌∷◌, ◌++◌, Option, none, length, err, All, map,
}
use llm_conduit.Prelude.Text.{Bytes}
use llm_conduit.Serde.{SerdeJson, eof}
use llm_conduit.Usage.Types.{TokenUsage}
use llm_conduit.Usage.Merge.{merge_all, merge_all-append, Chosen, merge_all-Chosen}
use llm_conduit.Usage.Candidates.{sse_data}
use llm_conduit.Usage.Candidates.Find.{first_match}
use llm_conduit.Usage.Candidates.Resume.{UnmarkedTail, ending}
use llm_conduit.Usage.Scanner.{max_pending, usage_probe, push, scan}
use llm_conduit.Usage.Scanner.Events.{
  Event, Reads, Parses, IsOpened, frame_of, reports, idle, push-frame_of, push-going, push-ended,
}

-- A frame of a stream: events and the start of one more; a piece out of the middle of a payload; or
-- the end of a payload that reports something, and then events and the start of one more.
pub data Frame : Type 0 where
  whole : List Event → Bytes → Frame
  going : Bytes → Frame
  ended : Bytes → Option TokenUsage → List Event → Bytes → Frame

abbrev pub bytes_of : Frame → Bytes
bytes_of (whole es part) = frame_of es part
bytes_of (going b) = b
bytes_of (ended b report es part) = b ++ (b'\n' ∷ b'\n' ∷ frame_of es part)

abbrev pub reports_of : Frame → List (Option TokenUsage)
reports_of (whole es part) = reports es
reports_of (going b) = []
reports_of (ended b report es part) = report ∷ reports es

abbrev pub all_reports : List Frame → List (Option TokenUsage)
all_reports [] = []
all_reports (f ∷ fs) = reports_of f ++ all_reports fs

-- What of a payload is open behind a frame.
abbrev pub open_behind : Bytes → Frame → Bytes
open_behind part (whole es next) = next
open_behind part (going b) = part ++ b
open_behind part (ended b report es next) = next

abbrev pub left_open : Bytes → List Frame → Bytes
left_open part [] = part
left_open part (f ∷ fs) = left_open (open_behind part f) fs

module _ (s : SerdeJson) where
  -- A frame that may come where `part` of a payload is open. Whole events are read or refused within
  -- the bound, and so is the payload that the frame ends, with its two line feeds; what is open is within the bound,
  -- and the parser calls it cut off; and no marker stands in a piece of a payload behind its first.
  abbrev pub Follows : Bytes → Frame → Type 0
  Follows part (whole es next) = (part ≡ []) × All (Parses s) es × IsOpened s next
  Follows part (going b) =
      (part ≢ [])
      × (b ≢ [])
      × (first_match b sse_data ≡ none)
      × (length (part ++ b) ≤ max_pending)
      × (usage_probe s (part ++ b) ≡ err eof)
  Follows part (ended b report es next) =
      (part ≢ [])
      × UnmarkedTail b
      × (length (part ++ ending b) ≤ max_pending)
      × Reads s (part ++ ending b) report
      × All (Parses s) es
      × IsOpened s next

  abbrev pub IsStream : Bytes → List Frame → Type 0
  IsStream part [] = Unit
  IsStream part (f ∷ fs) = Follows part f × IsStream (open_behind part f) fs

  push-Follows :
      (part : Bytes) (f : Frame) (usage : Option TokenUsage)
      → Follows part f
      → push s (record { pending = part }) (bytes_of f) usage
        ≡ (record { pending = open_behind part f }, merge_all usage (reports_of f))
  push-Follows part (whole es next) usage (closed, h, o) =
      ap (λ p. push s (record { pending = p }) (frame_of es next) usage) closed
      ∙ push-frame_of s es next usage h o
  push-Follows part (going b) usage (begun, filled, unmarked, bound, cut) =
      push-going s part b usage begun filled unmarked bound cut ∙ unfold merge_all in refl
  push-Follows part (ended b report es next) usage (begun, unmarked, bound, parsed, h, o) =
      push-ended s part b report usage es next begun unmarked bound parsed h o
      ∙ unfold merge_all in refl

  scan-from :
      (part : Bytes) (fs : List Frame) (usage : Option TokenUsage)
      → IsStream part fs
      → scan s (record { pending = part }) (map bytes_of fs) usage
        ≡ (record { pending = left_open part fs }, merge_all usage (all_reports fs))
  unfolding scan
  scan-from part [] usage h = unfold merge_all in refl
  scan-from part (f ∷ fs) usage h =
      rw
        (
          push-Follows part f usage h.0,
          scan,
          merge_all-append (reports_of f) (all_reports fs) usage,
        )
        (scan-from (open_behind part f) fs (merge_all usage (reports_of f)) h.1)

  -- Each frame of a stream holds whole server-sent events, with the two line feeds behind each of
  -- them, and perhaps the marker and the start of one more; or a piece of a payload; or the end of
  -- one with its line feeds, and then events and the start of one more. A whole payload is one line
  -- within the bound that the parser reads to a report or refuses for good, as it does the closing
  -- mark of a stream. A payload that is cut has no empty piece, its first piece would lose nothing
  -- to trimming, no marker stands in a later one, and before its end it is within the bound and the
  -- parser calls it cut off. So no frame ends within a marker or directly behind it, or between the
  -- line feeds of an event. Of such a stream the scanner keeps what is open behind the last frame
  -- and nothing else, and the counters that it has read are the last of the most complete reports.
  pub scan-Chosen :
      (fs : List Frame)
      → IsStream [] fs
      → ((scan s idle (map bytes_of fs) none).0.pending ≡ left_open [] fs)
        × Chosen (all_reports fs) (scan s idle (map bytes_of fs) none).1
  scan-Chosen fs h = rw (scan-from [] fs none h) (refl, merge_all-Chosen (all_reports fs))

  -- An event that a frame boundary cuts in two, at a point where the first part is not a document
  -- yet and would lose nothing to trimming, and where no marker stands in the second part: the two
  -- frames report what the whole event reports, merged before the events that the second frame
  -- holds behind it, if the parser reads the whole with its two line feeds.
  pub scan-cut :
      (part b : Bytes) (report usage : Option TokenUsage) (es : List Event)
      → part ≢ []
      → IsOpened s part
      → UnmarkedTail b
      → length (part ++ ending b) ≤ max_pending
      → Reads s (part ++ ending b) report
      → IsOpened s []
      → All (Parses s) es
      → scan s idle (frame_of [] part ∷ (b ++ (b'\n' ∷ b'\n' ∷ frame_of es [])) ∷ []) usage
        ≡ (idle, merge_all usage (report ∷ reports es))
  scan-cut part b report usage es begun o unmarked bound parsed blank h =
      scan-from [] (whole [] part ∷ ended b report es [] ∷ []) usage
        ((refl, tt, o), ((begun, unmarked, bound, parsed, h, blank), tt))
      ∙ ap (λ rs. (idle, merge_all usage (report ∷ rs))) (append-nil (reports es))
