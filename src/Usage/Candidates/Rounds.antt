-- ===== src/Usage/Candidates/Rounds.antt =====
-- src/usage.rs: the iterator `Candidates` ends, and the fuel of `candidates` is enough.
use mathlib.Core.Path.{subst}
use llm_conduit.Prelude.{
  ℕ, zero, suc, ◌+◌, ◌≤◌, ◌<◌, ◌≡◌, refl, ap, sym, ◌∙◌, List, [], ◌∷◌, none, some, Bool, length,
  take, drop, arith, length-append, length-drop, take-append-drop, Option-cases, inl, inr,
}
use llm_conduit.Prelude.Text.{Bytes}
use llm_conduit.Usage.Candidates.{
  Candidates, find, sse_data, newline, payload, next_closed, next_open, next, collect, candidates,
  split_point, skip_space,
}

-- The candidates that the iterator hands out before it ends.
pub data Yields : Candidates → List Bytes → Type 0 where
  done : {c : Candidates} → next c ≡ none → Yields c []
  more :
      {c c' : Candidates} {x : Bytes} {xs : List Bytes}
      → next c ≡ some (x, c')
      → Yields c' xs
      → Yields c (x ∷ xs)

Yields-done : {c : Candidates} {xs : List Bytes} → Yields c xs → next c ≡ none → xs ≡ []
Yields-done (done e) h = refl
Yields-done (more e y) h = cc

abbrev Tail : Candidates → Bytes → List Bytes → Type 0
Tail c x xs = (ys : List Bytes) × (xs ≡ x ∷ ys) × Yields c ys

Yields-more :
    {c c' : Candidates} {x : Bytes} {xs : List Bytes}
    → Yields c xs
    → next c ≡ some (x, c')
    → Tail c' x xs
Yields-more (done e) h = cc
Yields-more {c' = d} {x = z} (more {c'} {x} {xs} e y) h =
    (xs, ap (λ w. w ∷ xs) (cc), subst (λ w. Yields w xs) (cc) y)

pub Yields-unique : {c : Candidates} {xs ys : List Bytes} → Yields c xs → Yields c ys → xs ≡ ys
Yields-unique (done e) y = sym (Yields-done y e)
Yields-unique (more {x} e y) y' =
    let (ys, eq, rest) = Yields-more y' e in ap (◌∷◌ x) (Yields-unique y rest) ∙ sym eq

take-drop-length : (n : ℕ) (xs : Bytes) → length (take n xs) + length (drop n xs) ≡ length xs
take-drop-length n xs =
    sym (length-append (take n xs) (drop n xs)) ∙ ap length (take-append-drop n xs)

skip_space-le : (line : Bytes) → length (skip_space line) ≤ length line
unfolding skip_space
skip_space-le [] = omega arith
skip_space-le (c ∷ cs) = ground arith

payload-le :
    (marked x : Bytes) (c' : Candidates)
    → payload marked ≡ some (x, c')
    → length c'.rest ≤ length marked
unfolding payload
payload-le marked x c' e =
    let line = skip_space marked in
    ground (arith, skip_space-le marked, length-drop (split_point line newline) line)

next_closed-shrinks :
    (rest x : Bytes) (c' : Candidates)
    → 0 < length rest
    → next_closed rest ≡ some (x, c')
    → length c'.rest < length rest
unfolding next_closed
next_closed-shrinks rest x c' h e = elim (Option-cases (find rest sse_data)) [
  | inl unmarked ↦ ground arith
  | inr (start, marked) ↦
      ground (arith, payload-le (drop (start + 5) rest) x c', length-drop (start + 5) rest)
]

next_open-shrinks :
    (head rest x : Bytes) (c' : Candidates)
    → 0 < length head + length rest
    → next_open head rest ≡ some (x, c')
    → length c'.rest < length head + length rest
unfolding next_open
next_open-shrinks [] rest x c' h e = ground (arith, next_closed-shrinks rest x c')
next_open-shrinks (c ∷ cs) rest x c' h e = ground arith

-- A round takes at least a byte off the frame.
pub next-shrinks :
    (c : Candidates) (x : Bytes) (c' : Candidates)
    → next c ≡ some (x, c')
    → length c'.rest < length c.rest
unfolding next
next-shrinks c x c' e =
    let n = split_point c.rest sse_data in
    ground (
      arith,
      take-drop-length n c.rest,
      next_open-shrinks (take n c.rest) (drop n c.rest) x c',
      next_closed-shrinks c.rest x c',
    )

collect-Yields : (fuel : ℕ) (c : Candidates) → length c.rest < fuel → Yields c (collect fuel c)
unfolding collect
collect-Yields zero c h = absurd (omega arith)
collect-Yields (suc fuel) c h = elim (Option-cases (next c)) [
  | inl e ↦ rw (e, collect) (done e)
  | inr ((x, c'), e) ↦
      rw (e, collect) (more e (collect-Yields fuel c' (omega (arith, next-shrinks c x c' e))))
]

-- The loop over the candidates of a frame runs to the iterator's end.
pub candidates-Yields :
    (frame : Bytes) (is_open : Bool)
    → Yields (record { rest = frame; is_open = is_open }) (candidates frame is_open)
unfolding candidates
candidates-Yields frame is_open = collect-Yields (suc (length frame)) _ (omega arith)
