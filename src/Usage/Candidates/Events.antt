-- ===== src/Usage/Candidates/Events.antt =====
-- src/usage.rs: what `Candidates` cuts out of a frame that holds server-sent events.
use llm_conduit.Prelude.{
  ℕ, ◌+◌, ◌≡◌, ◌≢◌, refl, ap, ◌∙◌, List, [], ◌∷◌, ◌++◌, none, some, Bool, false, length, take, drop,
  arith, All, StartsClean, EndsClean, trim_by-id, trim_start_by, trim_end_by,
}
use llm_conduit.Prelude.Text.{Bytes, starts_with}
use llm_conduit.Usage.Candidates.{
  Candidates, sse_data, newline, payload, next_closed, next, candidates, split_point, skip_space,
  trim, is_ascii_whitespace,
}
use llm_conduit.Usage.Candidates.Find.{first_match, find-first_match}
use llm_conduit.Usage.Candidates.Rounds.{Yields, done, more, Yields-unique, candidates-Yields}

-- One line of payload: no line feed in it, and nothing at its ends that would be trimmed.
pub record IsPayload (p : Bytes) : Type 0 where
  pub one_line : All (λ c. c ≢ b'\n') p
  pub starts : StartsClean is_ascii_whitespace p
  pub ends : EndsClean is_ascii_whitespace p

-- The start of an event, up to some part of its payload; nothing, if the part is empty.
abbrev pub opening : Bytes → Bytes
opening [] = []
opening (c ∷ part) = sse_data ++ (b' ' ∷ c ∷ part)

-- The events of a frame, each `data: ` and a payload and an empty line, and the start of one more.
abbrev pub events : List Bytes → Bytes → Bytes
events [] part = opening part
events (p ∷ ps) part = sse_data ++ (b' ' ∷ (p ++ (b'\n' ∷ b'\n' ∷ events ps part)))

abbrev pub closed : Bytes → Candidates
closed rest = record { rest = rest; is_open = false }

pub trim-id :
    (p : Bytes) → StartsClean is_ascii_whitespace p → EndsClean is_ascii_whitespace p → trim p ≡ p
unfolding trim
trim-id = trim_by-id is_ascii_whitespace

first_match-line :
    (p r : Bytes)
    → All (λ c. c ≢ b'\n') p
    → first_match (p ++ (b'\n' ∷ r)) newline ≡ some (length p)
unfolding first_match starts_with
first_match-line [] r h = refl
first_match-line (c ∷ p) r h = ground (arith, first_match-line p r h.1)

first_match-unended : (p : Bytes) → All (λ c. c ≢ b'\n') p → first_match p newline ≡ none
unfolding first_match starts_with
first_match-unended [] h = refl
first_match-unended (c ∷ p) h = ground (arith, first_match-unended p h.1)

take-length : (p r : Bytes) → take (length p) (p ++ r) ≡ p
take-length [] r = refl
take-length (c ∷ p) r = ap (◌∷◌ c) (take-length p r)

drop-length : (p r : Bytes) → drop (length p) (p ++ r) ≡ r
drop-length [] r = refl
drop-length (c ∷ p) r = drop-length p r

pub take_self : (p : Bytes) → take (length p) p ≡ p
take_self [] = refl
take_self (c ∷ p) = ap (◌∷◌ c) (take_self p)

pub drop_self : (p : Bytes) → drop (length p) p ≡ []
drop_self [] = refl
drop_self (c ∷ p) = drop_self p

pub split_point-some :
    (t needle : Bytes) (k : ℕ)
    → needle ≢ []
    → first_match t needle ≡ some k
    → split_point t needle ≡ k
unfolding split_point
split_point-some t needle k ne h = rw (find-first_match t needle ne, h)

pub split_point-none :
    (t needle : Bytes) → needle ≢ [] → first_match t needle ≡ none → split_point t needle ≡ length t
unfolding split_point
split_point-none t needle ne h = rw (find-first_match t needle ne, h)

pub sse_data-ne-nil : sse_data ≢ []
sse_data-ne-nil = cc

newline-ne-nil : newline ≢ []
newline-ne-nil = cc

payload-event :
    (p r : Bytes) → IsPayload p → payload (b' ' ∷ (p ++ (b'\n' ∷ r))) ≡ some (p, closed (b'\n' ∷ r))
unfolding payload skip_space
payload-event p r h =
    rw
      (split_point-some (p ++ (b'\n' ∷ r)) newline (length p) newline-ne-nil
        (first_match-line p r h.one_line))
      (rw (take-length p (b'\n' ∷ r), drop-length p (b'\n' ∷ r), trim-id p h.starts h.ends))

-- The payload of an event that the frame cuts off.
payload-cut : (p : Bytes) → IsPayload p → payload (b' ' ∷ p) ≡ some (p, closed [])
unfolding payload skip_space
payload-cut p h =
    rw (split_point-none p newline newline-ne-nil (first_match-unended p h.one_line))
      (rw (take_self p, drop_self p, trim-id p h.starts h.ends))

next_closed-marked :
    (rest r : Bytes) (k : ℕ)
    → first_match rest sse_data ≡ some k
    → drop (k + 5) rest ≡ r
    → next_closed rest ≡ payload r
unfolding next_closed
next_closed-marked rest r k h e =
    rw (find-first_match rest sse_data sse_data-ne-nil ∙ h, next_closed) (ap payload e)

pub next_closed-unmarked :
    (rest : Bytes)
    → first_match rest sse_data ≡ none
    → next_closed rest ≡ some (trim rest, closed [])
unfolding next_closed
next_closed-unmarked rest h =
    rw (find-first_match rest sse_data sse_data-ne-nil ∙ h, next_closed) refl

pub next-closed : (c : ℕ) (cs : Bytes) → next (closed (c ∷ cs)) ≡ next_closed (c ∷ cs)
unfolding next
next-closed c cs = refl

pub next-nil : (is_open : Bool) → next (record { rest = []; is_open = is_open }) ≡ none
unfolding next
next-nil is_open = refl

next-event :
    (p : Bytes) (ps : List Bytes) (part : Bytes)
    → IsPayload p
    → next (closed (events (p ∷ ps) part)) ≡ some (p, closed (b'\n' ∷ b'\n' ∷ events ps part))
next-event p ps part h =
    next-closed _ _
    ∙ next_closed-marked (events (p ∷ ps) part) _ 0 (unfold first_match starts_with in refl) refl
    ∙ payload-event p (b'\n' ∷ events ps part) h

next-blank :
    (p : Bytes) (ps : List Bytes) (part : Bytes)
    → IsPayload p
    → next (closed (b'\n' ∷ b'\n' ∷ events (p ∷ ps) part))
      ≡ some (p, closed (b'\n' ∷ b'\n' ∷ events ps part))
next-blank p ps part h =
    next-closed _ _
    ∙ next_closed-marked (b'\n' ∷ b'\n' ∷ events (p ∷ ps) part) _ 2
        (unfold first_match starts_with in refl) refl
    ∙ payload-event p (b'\n' ∷ events ps part) h

-- The last candidate of a frame: the part of the event that breaks off, or the empty line behind the
-- last event.
next-opening :
    (part : Bytes)
    → IsPayload part
    → next (closed (b'\n' ∷ b'\n' ∷ opening part)) ≡ some (part, closed [])
unfolding trim trim_start_by trim_end_by is_ascii_whitespace first_match starts_with
next-opening [] h = next-closed _ _ ∙ next_closed-unmarked _ refl
next-opening (c ∷ part) h =
    next-closed _ _
    ∙ next_closed-marked (b'\n' ∷ b'\n' ∷ opening (c ∷ part)) _ 2 refl refl
    ∙ payload-cut (c ∷ part) h

next-cut :
    (c : ℕ) (part : Bytes)
    → IsPayload (c ∷ part)
    → next (closed (opening (c ∷ part))) ≡ some (c ∷ part, closed [])
next-cut c part h =
    next-closed _ _
    ∙ next_closed-marked (opening (c ∷ part)) _ 0 (unfold first_match starts_with in refl) refl
    ∙ payload-cut (c ∷ part) h

Yields-blank :
    (ps : List Bytes) (part : Bytes)
    → All IsPayload ps
    → IsPayload part
    → Yields (closed (b'\n' ∷ b'\n' ∷ events ps part)) (ps ++ part ∷ [])
Yields-blank [] part h last = more (next-opening part last) (done (next-nil false))
Yields-blank (p ∷ ps) part h last = more (next-blank p ps part h.0) (Yields-blank ps part h.1 last)

-- The candidates of a frame: the payloads, and the last one, if the frame is not empty.
abbrev pub handed : List Bytes → Bytes → List Bytes
handed [] [] = []
handed [] (c ∷ part) = (c ∷ part) ∷ []
handed (p ∷ ps) part = p ∷ (ps ++ part ∷ [])

Yields-events :
    (ps : List Bytes) (part : Bytes)
    → All IsPayload ps
    → IsPayload part
    → Yields (closed (events ps part)) (handed ps part)
Yields-events [] [] h last = done (next-nil false)
Yields-events [] (c ∷ part) h last = more (next-cut c part last) (done (next-nil false))
Yields-events (p ∷ ps) part h last = more (next-event p ps part h.0) (Yields-blank ps part h.1 last)

pub candidates-events :
    (ps : List Bytes) (part : Bytes)
    → All IsPayload ps
    → IsPayload part
    → candidates (events ps part) false ≡ handed ps part
candidates-events ps part h last =
    Yields-unique (candidates-Yields (events ps part) false) (Yields-events ps part h last)
