-- ===== src/Tests/Responses.antt =====
-- src/usage.rs and src/observe.rs at concrete responses.
use llm_conduit.Prelude.{
  inl, inr, ℕ, ◌+◌, ◌-◌, ◌≤◌, ◌≡◌, refl, List, [], ◌∷◌, ◌++◌, none, some, false, ltb, if◌then◌else◌,
  arith, length, ok, err, take, map,
}
use llm_conduit.Prelude.Text.{Bytes, codes, text_eq}
use llm_conduit.Prelude.Text.{starts_with}
use llm_conduit.Serde.{eof, visit_map, from_slice_map}
use llm_conduit.Usage.Types.{TokenUsage, UsageBody, from_body, u64_mod, sum_u64, merge_usage}
use llm_conduit.Usage.Merge.{Chosen}
use llm_conduit.Usage.Candidates.{find, candidates, is_ascii_whitespace}
use llm_conduit.Usage.Candidates.Find.{first_match, find-first_match}
use llm_conduit.Usage.Candidates.Rounds.{Yields, candidates-Yields}
use llm_conduit.Usage.Candidates.Events.{IsPayload}
use llm_conduit.Usage.Candidates.Resume.{ending}
use llm_conduit.Usage.Scanner.{usage_probe, scan, max_pending, visit_usage}
use llm_conduit.Usage.Scanner.Bound.{scan-le}
use llm_conduit.Usage.Scanner.Events.{Event, Parses, IsOpened, frame_of, idle}
use llm_conduit.Usage.Scanner.Stream.{
  Frame, whole, going, ended, bytes_of, all_reports, left_open, IsStream, scan-Chosen,
}
use llm_conduit.Usage.Scanner.Buffered.{IsOpening, IsCut, document_of, scan-buffered}
use llm_conduit.Tests.Toys.{json, open_map, decode, read_usage, blank}

-- A document that reports `p` prompt and `c` completion tokens.
abbrev pub document : ℕ → ℕ → Bytes
document p c = b'{' ∷ b',' ∷ 5 ∷ b'u' ∷ b's' ∷ b'a' ∷ b'g' ∷ b'e' ∷ 2 ∷ p ∷ c ∷ b'}' ∷ []

abbrev pub report : ℕ → ℕ → TokenUsage
report p c = record {
  prompt_tokens = some p;
  completion_tokens = some c;
  total_tokens = some (p + c);
  reasoning_tokens = none;
  cached_tokens = none;
}

abbrev pub event : ℕ → ℕ → Event
event p c = record { payload = document p c; report = some (report p c) }

document_7_8 : usage_probe json (document 7 8) ≡ ok (some (report 7 8))
unfolding usage_probe from_slice_map open_map decode blank visit_map visit_usage text_eq read_usage
    from_body sum_u64 codes
document_7_8 = refl

IsPayload-7_8 : IsPayload (document 7 8)
unfolding is_ascii_whitespace
IsPayload-7_8 = record { one_line = omega arith; starts = refl; ends = refl }

Parses-7_8 : Parses json (event 7 8)
Parses-7_8 = record { line = IsPayload-7_8; bounded = omega arith; parsed = inl document_7_8 }

-- The end of a stream, which the parser refuses.
abbrev done : Event
done = record { payload = codes "[DONE]"; report = none }

Parses-done : Parses json done
unfolding codes is_ascii_whitespace usage_probe from_slice_map open_map
Parses-done = record {
  line = record { one_line = omega arith; starts = refl; ends = refl };
  bounded = omega arith;
  parsed = inr (refl, refl);
}

blank_is_short : usage_probe json [] ≡ err eof
unfolding usage_probe from_slice_map open_map
blank_is_short = refl

IsOpened-none : IsOpened json []
unfolding is_ascii_whitespace
IsOpened-none = record {
  line = record { one_line = omega arith; starts = tt; ends = tt };
  bounded = omega arith;
  cut = blank_is_short;
}

abbrev part : Bytes
part = take 6 (document 7 8)

abbrev rest_of_it : Bytes
rest_of_it = b'g' ∷ b'e' ∷ 2 ∷ 7 ∷ 8 ∷ b'}' ∷ []

part_is_short : usage_probe json part ≡ err eof
unfolding usage_probe from_slice_map open_map decode visit_map
part_is_short = refl

middle : usage_probe json (part ++ (b'g' ∷ b'e' ∷ [])) ≡ err eof
unfolding usage_probe from_slice_map open_map decode visit_map
middle = refl

is_whole :
    usage_probe json (part ++ ending (b'g' ∷ b'e' ∷ 2 ∷ 7 ∷ 9 ∷ b'}' ∷ [])) ≡ ok (some (report 7 9))
unfolding usage_probe from_slice_map open_map decode blank visit_map visit_usage text_eq read_usage
    from_body sum_u64 codes
is_whole = refl

IsPayload-part : IsPayload part
unfolding is_ascii_whitespace
IsPayload-part = record { one_line = omega arith; starts = refl; ends = refl }

IsOpened-part : IsOpened json part
IsOpened-part = record { line = IsPayload-part; bounded = omega arith; cut = part_is_short }

-- Three frames: an event and the start of a second one, a piece of that, and its end with a third
-- event and the end of the stream.
abbrev pub stream : List Frame
stream =
    whole (event 7 8 ∷ []) part
    ∷ going (b'g' ∷ b'e' ∷ [])
    ∷ ended (2 ∷ 7 ∷ 9 ∷ b'}' ∷ []) (some (report 7 9)) (event 7 8 ∷ done ∷ []) []
    ∷ []

pub IsStream-stream : IsStream json [] stream
unfolding first_match starts_with
IsStream-stream = (
  (refl, (Parses-7_8, tt), IsOpened-part),
  (
    ((cc), (cc), refl, (omega arith), middle),
    (((cc), refl, (omega arith), inl is_whole, (Parses-7_8, (Parses-done, tt)), IsOpened-none), tt),
  ),
)

scan-Chosen_example :
    ((scan json idle (map bytes_of stream) none).0.pending ≡ left_open [] stream)
    × Chosen (all_reports stream) (scan json idle (map bytes_of stream) none).1
scan-Chosen_example = scan-Chosen json stream IsStream-stream

IsOpening-part : IsOpening part
unfolding first_match starts_with is_ascii_whitespace
IsOpening-part = record { filled = cc; unmarked = refl; starts = refl; ends = refl }

whole_7_8 : IsCut json part (rest_of_it ∷ []) (some (report 7 8))
unfolding first_match starts_with
whole_7_8 = (part_is_short, (omega arith), (cc), refl, document_7_8)

scan-buffered_example : scan json idle (part ∷ rest_of_it ∷ []) none ≡ (
  idle,
  (if ltb max_pending (length (document_of part (rest_of_it ∷ [])))
      then none
      else merge_usage none (some (report 7 8))),
)
scan-buffered_example =
    scan-buffered json part (rest_of_it ∷ []) none (some (report 7 8)) IsOpening-part whole_7_8

scan-le_example : length (scan json idle (part ∷ document 1 2 ∷ []) none).0.pending ≤ max_pending
scan-le_example = scan-le json idle (part ∷ document 1 2 ∷ []) none (omega arith)

abbrev huge : UsageBody
huge = record {
  prompt_tokens = some (u64_mod - 1);
  completion_tokens = some 3;
  total_tokens = none;
  prompt_tokens_details = record { cached_tokens = none; reasoning_tokens = none };
  completion_tokens_details = record { cached_tokens = none; reasoning_tokens = none };
}

candidates-Yields_example :
    Yields
      (record { rest = frame_of (event 7 8 ∷ []) []; is_open = false })
      (candidates (frame_of (event 7 8 ∷ []) []) false)
candidates-Yields_example = candidates-Yields (frame_of (event 7 8 ∷ []) []) false

find-first_match_example :
    find (b'a' ∷ b'a' ∷ b'b' ∷ []) (b'a' ∷ b'b' ∷ [])
    ≡ first_match (b'a' ∷ b'a' ∷ b'b' ∷ []) (b'a' ∷ b'b' ∷ [])
find-first_match_example = find-first_match (b'a' ∷ b'a' ∷ b'b' ∷ []) (b'a' ∷ b'b' ∷ []) (cc)
