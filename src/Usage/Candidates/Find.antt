-- ===== src/Usage/Candidates/Find.antt =====
-- src/usage.rs: `find` is a search for the first occurrence.
use llm_conduit.Prelude.{
  ℕ, zero, suc, ◌+◌, ◌-◌, ◌≤◌, ◌<◌, ◌≡◌, ◌≢◌, refl, ap, sym, [], ◌∷◌, Option, none, some, Bool,
  false, ◌&&◌, ltb, ◌==◌, if◌then◌else◌, length, take, arith, Bool-cases, inl, inr, ltb→lt,
}
use llm_conduit.Prelude.Text.{Bytes, text_eq, starts_with}
use llm_conduit.Usage.Candidates.{find_index, found_at, find}

abbrev pub shift : Option ℕ → Option ℕ
shift none = none
shift (some n) = some (suc n)

-- The reference: the first suffix that begins with the needle.
unfoldable pub first_match : Bytes → Bytes → Option ℕ
unfolding starts_with
first_match [] needle = none
first_match (c ∷ cs) needle =
    if starts_with (c ∷ cs) needle then some 0 else shift (first_match cs needle)

text_eq-take : (t needle : Bytes) → text_eq (take (length needle) t) needle ≡ starts_with t needle
unfolding text_eq starts_with
text_eq-take t [] = refl
text_eq-take [] (n ∷ ns) = refl
text_eq-take (c ∷ t) (n ∷ ns) = ap (λ b. (c == n) && b) (text_eq-take t ns)

starts_with-short : (t needle : Bytes) → length t < length needle → starts_with t needle ≡ false
unfolding starts_with
starts_with-short t [] h = absurd (omega arith)
starts_with-short [] (n ∷ ns) h = refl
starts_with-short (c ∷ t) (n ∷ ns) h = ground (arith, starts_with-short t ns)

first_match-short : (t needle : Bytes) → length t < length needle → first_match t needle ≡ none
unfolding first_match
first_match-short [] needle h = refl
first_match-short (c ∷ t) needle h =
    rw (starts_with-short (c ∷ t) needle h, first_match-short t needle (omega arith))

succ : (n i : ℕ) (test : ℕ → Bool) → find_index n (suc i + 1) test ≡ find_index n (suc (i + 1)) test
succ n i test = ap (λ k. find_index n k test) (omega arith)

find_index-suc :
    (n i : ℕ) (test : ℕ → Bool)
    → find_index n (suc i) test ≡ shift (find_index n i (λ j. test (suc j)))
unfolding find_index
find_index-suc zero i test = refl
find_index-suc (suc n) i test = ground (arith, find_index-suc n (i + 1) test, succ n i test)

find_index-cons :
    (c : ℕ) (t needle : Bytes) (k : ℕ)
    → find_index k 0 (found_at t needle) ≡ first_match t needle
    → find_index (suc k) 0 (found_at (c ∷ t) needle) ≡ first_match (c ∷ t) needle
unfolding find_index found_at first_match
find_index-cons c t needle k h =
    ground (arith, text_eq-take (c ∷ t) needle, find_index-suc k 0 (found_at (c ∷ t) needle), h)

find_index-first_match :
    (t needle : Bytes)
    → needle ≢ []
    → length needle ≤ length t
    → find_index (length t - length needle + 1) 0 (found_at t needle) ≡ first_match t needle
unfolding find_index
find_index-first_match [] [] ne h = absurd (ne refl)
find_index-first_match [] (n ∷ ns) ne h = absurd (omega arith)
find_index-first_match (c ∷ t) needle ne h = elim (Bool-cases (ltb (length t) (length needle))) [
  | inl short ↦
      let one : suc (length t) - length needle + 1 ≡ 1 = omega (arith, ltb→lt _ _ short) in
      rw one (find_index-cons c t needle 0 (sym (first_match-short t needle (ltb→lt _ _ short))))
  | inr fits ↦
      let le : length needle ≤ length t = ground arith in
      let more : suc (length t) - length needle + 1 ≡ suc (length t - length needle + 1) =
        omega arith in
      rw more (
        find_index-cons c t needle (length t - length needle + 1)
          (find_index-first_match t needle ne le))
]

-- `find` returns the first position at which the needle stands, and nothing if there is none.
pub find-first_match : (t needle : Bytes) → needle ≢ [] → find t needle ≡ first_match t needle
unfolding find
find-first_match t [] ne = absurd (ne refl)
find-first_match t (n ∷ ns) ne = elim (Bool-cases (ltb (length t) (length (n ∷ ns)))) [
  | inl short ↦ rw short (sym (first_match-short t (n ∷ ns) (ltb→lt _ _ short)))
  | inr fits ↦ rw fits (find_index-first_match t (n ∷ ns) ne (ground arith))
]
