-- ===== src/Usage/Candidates/Resume.antt =====
-- src/usage.rs: what `Candidates` cuts out of a frame that goes on with the payload of an earlier one.
use llm_conduit.Prelude.{
  ℕ, suc, ◌+◌, ◌≡◌, ◌≢◌, refl, ap, ◌∙◌, List, [], ◌∷◌, ◌++◌, none, some, true, false, ◌&&◌, ◌==◌,
  length, take, drop, arith, is_empty, All,
}
use llm_conduit.Prelude.Text.{Bytes, starts_with}
use llm_conduit.Usage.Candidates.{sse_data, next_open, next, candidates, split_point}
use llm_conduit.Usage.Candidates.Find.{first_match}
use llm_conduit.Usage.Candidates.Rounds.{more, Yields-unique, candidates-Yields}
use llm_conduit.Usage.Candidates.Events.{
  closed, events, split_point-some, split_point-none, take_self, drop_self, sse_data-ne-nil,
}

-- A marker does not reach across a line feed.
starts_with-line :
    (b r r' needle : Bytes)
    → All (λ c. c ≢ b'\n') needle
    → starts_with (b ++ (b'\n' ∷ r)) needle ≡ starts_with (b ++ (b'\n' ∷ r')) needle
unfolding starts_with
starts_with-line b r r' [] h = refl
starts_with-line [] r r' (n ∷ ns) h = ground arith
starts_with-line (c ∷ b) r r' (n ∷ ns) h = ap (λ t. (c == n) && t) (starts_with-line b r r' ns h.1)

abbrev pub UnmarkedTail : Bytes → Type 0
UnmarkedTail b = first_match (b ++ (b'\n' ∷ b'\n' ∷ [])) sse_data ≡ none

sse_data-one_line : All (λ c. c ≢ b'\n') sse_data
sse_data-one_line = omega arith

first_match-tail :
    (c : ℕ) (t needle : Bytes)
    → first_match (c ∷ t) needle ≡ none
    → (starts_with (c ∷ t) needle ≡ false) × (first_match t needle ≡ none)
unfolding first_match
first_match-tail c t needle h = ground arith

first_match-skip :
    (c : ℕ) (t needle : Bytes) (k : ℕ)
    → starts_with (c ∷ t) needle ≡ false
    → first_match t needle ≡ some k
    → first_match (c ∷ t) needle ≡ some (suc k)
unfolding first_match
first_match-skip c t needle k h e = ground arith

first_match-after :
    (b r : Bytes)
    → UnmarkedTail b
    → first_match (b ++ (b'\n' ∷ b'\n' ∷ (sse_data ++ r))) sse_data ≡ some (length b + 2)
first_match-after [] r h = unfold first_match starts_with in refl
first_match-after (c ∷ b) r h =
    let (unmarked, rest) = first_match-tail c (b ++ (b'\n' ∷ b'\n' ∷ [])) sse_data h in
    first_match-skip c (b ++ (b'\n' ∷ b'\n' ∷ (sse_data ++ r))) sse_data (length b + 2)
      (starts_with-line (c ∷ b) (b'\n' ∷ (sse_data ++ r)) (b'\n' ∷ []) sse_data sse_data-one_line
        ∙ unmarked)
      (first_match-after b r rest)
    ∙ ap some (omega arith)

-- The rest of a payload that an earlier frame began, with its blank line.
abbrev pub ending : Bytes → Bytes
ending b = b ++ (b'\n' ∷ b'\n' ∷ [])

next_open-ending : (b rest : Bytes) → next_open (ending b) rest ≡ some (ending b, closed rest)
unfolding next_open
next_open-ending [] rest = refl
next_open-ending (c ∷ b) rest = refl

take_past : (b r : Bytes) → take (length b + 2) (b ++ (b'\n' ∷ b'\n' ∷ r)) ≡ ending b
take_past [] r = refl
take_past (c ∷ b) r =
    let e : suc (length b) + 2 ≡ suc (length b + 2) = omega arith in
    rw e (ap (◌∷◌ c) (take_past b r))

drop_past : (b r : Bytes) → drop (length b + 2) (b ++ (b'\n' ∷ b'\n' ∷ r)) ≡ r
drop_past [] r = refl
drop_past (c ∷ b) r =
    let e : suc (length b) + 2 ≡ suc (length b + 2) = omega arith in rw e (drop_past b r)

pub next-open :
    (rest : Bytes) (n : ℕ)
    → is_empty rest ≡ false
    → split_point rest sse_data ≡ n
    → next (record { rest = rest; is_open = true }) ≡ next_open (take n rest) (drop n rest)
unfolding next
next-open rest n h e = rw (h, e)

is_empty-ending : (b r : Bytes) → is_empty (b ++ (b'\n' ∷ r)) ≡ false
is_empty-ending [] r = refl
is_empty-ending (c ∷ b) r = refl

next-ending_last :
    (b : Bytes)
    → UnmarkedTail b
    → next (record { rest = ending b; is_open = true }) ≡ some (ending b, closed [])
next-ending_last b h =
    let last = ending b in
    next-open last (length last) (is_empty-ending b _)
      (split_point-none last sse_data sse_data-ne-nil h)
    ∙ rw (take_self last, drop_self last) (next_open-ending b [])

next-ending_marked :
    (b r : Bytes)
    → UnmarkedTail b
    → next (record { rest = b ++ (b'\n' ∷ b'\n' ∷ (sse_data ++ r)); is_open = true })
      ≡ some (ending b, closed (sse_data ++ r))
next-ending_marked b r h =
    next-open _ (length b + 2) (is_empty-ending b _)
      (split_point-some _ sse_data (length b + 2) sse_data-ne-nil (first_match-after b r h))
    ∙ rw (take_past b (sse_data ++ r), drop_past b (sse_data ++ r))
        (next_open-ending b (sse_data ++ r))

next-ending :
    (b : Bytes) (ps : List Bytes) (part : Bytes)
    → UnmarkedTail b
    → next (record { rest = b ++ (b'\n' ∷ b'\n' ∷ events ps part); is_open = true })
      ≡ some (ending b, closed (events ps part))
next-ending b [] [] h = next-ending_last b h
next-ending b [] (c ∷ part) h = next-ending_marked b (b' ' ∷ c ∷ part) h
next-ending b (p ∷ ps) part h =
    next-ending_marked b (b' ' ∷ (p ++ (b'\n' ∷ b'\n' ∷ events ps part))) h

-- A frame that goes on with an open payload to its end, and then holds events.
pub candidates-resume :
    (b : Bytes) (ps : List Bytes) (part : Bytes)
    → UnmarkedTail b
    → candidates (b ++ (b'\n' ∷ b'\n' ∷ events ps part)) true
      ≡ ending b ∷ candidates (events ps part) false
candidates-resume b ps part h =
    Yields-unique (candidates-Yields (b ++ (b'\n' ∷ b'\n' ∷ events ps part)) true)
      (more (next-ending b ps part h) (candidates-Yields (events ps part) false))
