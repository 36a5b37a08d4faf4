-- ===== src/Usage/Candidates/Unmarked.antt =====
-- src/usage.rs: what `Candidates` cuts out of a frame in which no marker of an event stands.
use llm_conduit.Prelude.{
  ◌≡◌, ◌≢◌, refl, ap, ◌∙◌, [], ◌∷◌, none, some, true, false, length, StartsClean, EndsClean,
}
use llm_conduit.Prelude.Text.{Bytes}
use llm_conduit.Usage.Candidates.{sse_data, next_open, candidates, is_ascii_whitespace}
use llm_conduit.Usage.Candidates.Find.{first_match}
use llm_conduit.Usage.Candidates.Rounds.{done, more, Yields-unique, candidates-Yields}
use llm_conduit.Usage.Candidates.Events.{
  closed, trim-id, next-closed, next_closed-unmarked, next-nil, split_point-none, take_self,
  drop_self, sse_data-ne-nil,
}
use llm_conduit.Usage.Candidates.Resume.{next-open}

-- A frame without a marker is one candidate: trimmed, or as it is where it goes on with a payload.
pub candidates-unmarked :
    (frame : Bytes)
    → frame ≢ []
    → first_match frame sse_data ≡ none
    → StartsClean is_ascii_whitespace frame
    → EndsClean is_ascii_whitespace frame
    → candidates frame false ≡ frame ∷ []
candidates-unmarked [] ne h starts ends = absurd (ne refl)
candidates-unmarked (c ∷ cs) ne h starts ends = Yields-unique (candidates-Yields (c ∷ cs) false) (
    more
      (next-closed c cs
        ∙ next_closed-unmarked (c ∷ cs) h
        ∙ ap (λ t. some (t, closed [])) (trim-id (c ∷ cs) starts ends))
      (done (next-nil false)))

pub candidates-unmarked_open :
    (frame : Bytes)
    → frame ≢ []
    → first_match frame sse_data ≡ none
    → candidates frame true ≡ frame ∷ []
unfolding next_open
candidates-unmarked_open [] ne h = absurd (ne refl)
candidates-unmarked_open (c ∷ cs) ne h = Yields-unique (candidates-Yields (c ∷ cs) true) (
    more
      (next-open (c ∷ cs) (length (c ∷ cs)) refl
          (split_point-none (c ∷ cs) sse_data sse_data-ne-nil h)
        ∙ rw (take_self (c ∷ cs), drop_self (c ∷ cs)) refl)
      (done (next-nil false)))
