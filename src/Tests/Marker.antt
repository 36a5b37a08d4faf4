-- ===== src/Tests/Marker.antt =====
-- src/usage.rs: what the scanner reads where a frame ends within a marker or directly behind one, and
-- where a marker stands in a text.
use llm_conduit.Prelude.{
  ◌≡◌, refl, ◌++◌, [], ◌∷◌, none, some, ok, take, drop, trim_start_by, trim_end_by,
}
use llm_conduit.Prelude.Text.{Bytes, codes, text_eq, starts_with}
use llm_conduit.Serde.{visit_map, from_slice_map}
use llm_conduit.Usage.Types.{from_body, sum_u64, merge_usage, completeness}
use llm_conduit.Usage.Candidates.{
  find, find_index, found_at, candidates, collect, next, next_open, next_closed, payload,
  split_point, skip_space, trim, is_ascii_whitespace,
}
use llm_conduit.Usage.Scanner.{scan, push, feed, consume, usage_probe, visit_usage}
use llm_conduit.Usage.Scanner.Events.{frame_of, idle}
use llm_conduit.Tests.Toys.{json, open_map, decode, read_usage, blank}
use llm_conduit.Tests.Responses.{event, report}

abbrev frame : Bytes
frame = frame_of (event 7 8 ∷ []) []

whole_read : (scan json idle (frame ∷ []) none).1 ≡ some (report 7 8)
unfolding scan push feed candidates collect next next_closed next_open find find_index found_at
    text_eq payload split_point skip_space consume trim usage_probe trim_end_by trim_start_by codes
    from_slice_map visit_map is_ascii_whitespace visit_usage from_body merge_usage completeness
    sum_u64 open_map decode blank read_usage starts_with
whole_read = refl

-- The same bytes, cut behind the third one.
cut_lost : (scan json idle (take 3 frame ∷ drop 3 frame ∷ []) none).1 ≡ none
unfolding scan push feed candidates collect next next_closed next_open find find_index found_at
    text_eq payload split_point skip_space consume trim usage_probe trim_end_by trim_start_by codes
    from_slice_map visit_map is_ascii_whitespace visit_usage from_body merge_usage completeness
    sum_u64 open_map decode blank read_usage starts_with
cut_lost = refl

-- A document with a text that holds the marker, in one frame.
abbrev body : Bytes
body =
    b'{' ∷ b',' ∷ 1 ∷ b't' ∷ 1 ∷ 5 ∷ b'd' ∷ b'a' ∷ b't' ∷ b'a' ∷ b':' ∷ b',' ∷ 5 ∷ b'u' ∷ b's'
    ∷ b'a' ∷ b'g' ∷ b'e' ∷ 2 ∷ 7 ∷ 8 ∷ b'}' ∷ []

body_parsed : usage_probe json body ≡ ok (some (report 7 8))
unfolding usage_probe from_slice_map open_map decode blank visit_map visit_usage text_eq read_usage
    from_body sum_u64 codes
body_parsed = refl

body_lost : (scan json idle (body ∷ []) none).1 ≡ none
unfolding scan push feed candidates collect next next_closed next_open find find_index found_at
    text_eq payload split_point skip_space consume trim usage_probe trim_end_by trim_start_by codes
    from_slice_map visit_map is_ascii_whitespace visit_usage from_body merge_usage completeness
    sum_u64 open_map decode blank read_usage starts_with
body_lost = refl

-- The last event of a stream and its end, cut behind the marker of the event.
abbrev last_frame : Bytes
last_frame = frame_of (event 7 8 ∷ []) (codes "[DONE]") ++ codes "\n\n"

last_read : (scan json idle (last_frame ∷ []) none).1 ≡ some (report 7 8)
unfolding scan push feed candidates collect next next_closed next_open find find_index found_at
    text_eq payload split_point skip_space consume trim usage_probe trim_end_by trim_start_by codes
    from_slice_map visit_map is_ascii_whitespace visit_usage from_body merge_usage completeness
    sum_u64 open_map decode blank read_usage starts_with
last_read = refl

last_lost : (scan json idle (take 6 last_frame ∷ drop 6 last_frame ∷ []) none).1 ≡ none
unfolding scan push feed candidates collect next next_closed next_open find find_index found_at
    text_eq payload split_point skip_space consume trim usage_probe trim_end_by trim_start_by codes
    from_slice_map visit_map is_ascii_whitespace visit_usage from_body merge_usage completeness
    sum_u64 open_map decode blank read_usage starts_with
last_lost = refl

-- Within the payload, a cut does no harm.
last_kept :
    (scan json idle (take 12 last_frame ∷ drop 12 last_frame ∷ []) none).1 ≡ some (report 7 8)
unfolding scan push feed candidates collect next next_closed next_open find find_index found_at
    text_eq payload split_point skip_space consume trim usage_probe trim_end_by trim_start_by codes
    from_slice_map visit_map is_ascii_whitespace visit_usage from_body merge_usage completeness
    sum_u64 open_map decode blank read_usage starts_with
last_kept = refl
