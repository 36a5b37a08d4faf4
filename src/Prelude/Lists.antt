-- ===== src/Prelude/Lists.antt =====
-- Lists measured by native numbers, predicates on all elements, and trimming at both ends.
use Prim.Native.Nat.{ℕ, zero, suc, ◌+◌, ◌-◌}
use mathlib.Core.Path.{◌≡◌, refl, ap}
use mathlib.Core.Bool.{Bool, true, false, ◌||◌}
use mathlib.Core.List.{List, [], ◌∷◌, ◌++◌}
use native.Mathlib.Omega.{arith}
use llm_conduit.Prelude.Tests.{if◌then◌else◌, Bool-cases}
use mathlib.Core.Logic.{inl, inr}

module _ {ℓ} {A : Type ℓ} where
  abbrev pub length : List A → ℕ
  length [] = 0
  length (x ∷ xs) = suc (length xs)

  abbrev pub take : ℕ → List A → List A
  take zero xs = []
  take (suc n) [] = []
  take (suc n) (x ∷ xs) = x ∷ take n xs

  abbrev pub drop : ℕ → List A → List A
  drop zero xs = xs
  drop (suc n) [] = []
  drop (suc n) (x ∷ xs) = drop n xs

  abbrev pub is_empty : List A → Bool
  is_empty [] = true
  is_empty (x ∷ xs) = false

  abbrev pub any : (A → Bool) → List A → Bool
  any p [] = false
  any p (x ∷ xs) = p x || any p xs

  abbrev pub All {κ} : (A → Type κ) → List A → Type κ
  All P [] = Unit
  All P (x ∷ xs) = P x × All P xs

  -- `trim_start_matches` and `trim_end_matches`.
  unfoldable pub trim_start_by : (A → Bool) → List A → List A
  trim_start_by p [] = []
  trim_start_by p (x ∷ xs) = if p x then trim_start_by p xs else x ∷ xs

  abbrev pub keep_end : (A → Bool) → A → List A → List A
  keep_end p x [] = if p x then [] else x ∷ []
  keep_end p x (y ∷ ys) = x ∷ y ∷ ys

  unfoldable pub trim_end_by : (A → Bool) → List A → List A
  trim_end_by p [] = []
  trim_end_by p (x ∷ xs) = keep_end p x (trim_end_by p xs)

  -- The first, the last element is not of the kind that is trimmed.
  abbrev pub StartsClean : (A → Bool) → List A → Type 0
  StartsClean p [] = Unit
  StartsClean p (x ∷ xs) = p x ≡ false

  abbrev pub EndsClean : (A → Bool) → List A → Type 0
  EndsClean p [] = Unit
  EndsClean p (x ∷ []) = p x ≡ false
  EndsClean p (x ∷ y ∷ ys) = EndsClean p (y ∷ ys)

module _ {ℓ} {A : Type ℓ} where
  pub length-append : (xs ys : List A) → length (xs ++ ys) ≡ length xs + length ys
  length-append [] ys = omega arith
  length-append (x ∷ xs) ys = omega (arith, length-append xs ys)

  pub take-append-drop : (n : ℕ) (xs : List A) → take n xs ++ drop n xs ≡ xs
  take-append-drop zero xs = refl
  take-append-drop (suc n) [] = refl
  take-append-drop (suc n) (x ∷ xs) = ap (◌∷◌ x) (take-append-drop n xs)

  pub length-drop : (n : ℕ) (xs : List A) → length (drop n xs) ≡ length xs - n
  length-drop zero xs = omega arith
  length-drop (suc n) [] = omega arith
  length-drop (suc n) (x ∷ xs) = omega (arith, length-drop n xs)

  pub All-append {κ} : (P : A → Type κ) (xs ys : List A) → All P xs → All P ys → All P (xs ++ ys)
  All-append P [] ys h k = k
  All-append P (x ∷ xs) ys h k = (h.0, All-append P xs ys h.1 k)

  pub All-weaken {κ μ} :
      (P : A → Type κ) (Q : A → Type μ)
      → ((x : A) → P x → Q x)
      → (xs : List A) → All P xs
      → All Q xs
  All-weaken P Q f [] h = tt
  All-weaken P Q f (x ∷ xs) h = (f x h.0, All-weaken P Q f xs h.1)

  module _ (p : A → Bool) where
    pub StartsClean-trim_start_by : (xs : List A) → StartsClean p (trim_start_by p xs)
    unfolding trim_start_by
    StartsClean-trim_start_by [] = tt
    StartsClean-trim_start_by (x ∷ xs) = ground (arith, StartsClean-trim_start_by xs)

    EndsClean-keep_end : (x : A) (ys : List A) → EndsClean p ys → EndsClean p (keep_end p x ys)
    EndsClean-keep_end x [] h = ground arith
    EndsClean-keep_end x (y ∷ ys) h = h

    pub EndsClean-trim_end_by : (xs : List A) → EndsClean p (trim_end_by p xs)
    unfolding trim_end_by
    EndsClean-trim_end_by [] = tt
    EndsClean-trim_end_by (x ∷ xs) =
        EndsClean-keep_end x (trim_end_by p xs) (EndsClean-trim_end_by xs)

    StartsClean-keep_end : (x : A) (ys : List A) → p x ≡ false → StartsClean p (keep_end p x ys)
    StartsClean-keep_end x [] h = ground arith
    StartsClean-keep_end x (y ∷ ys) h = h

    pub StartsClean-trim_end_by :
        (xs : List A) → StartsClean p xs → StartsClean p (trim_end_by p xs)
    unfolding trim_end_by
    StartsClean-trim_end_by [] h = tt
    StartsClean-trim_end_by (x ∷ xs) h = StartsClean-keep_end x (trim_end_by p xs) h

    -- What a trim takes away is of the kind that is trimmed.
    pub trim_start_by-split :
        (xs : List A)
        → (pre : List A) × (xs ≡ pre ++ trim_start_by p xs) × All (λ x. p x ≡ true) pre
    unfolding trim_start_by
    trim_start_by-split [] = ([], refl, tt)
    trim_start_by-split (x ∷ xs) = elim (Bool-cases (p x)) [
      | inl taken ↦
          let (pre, split, all) = trim_start_by-split xs in
          (x ∷ pre, rw taken (ap (◌∷◌ x) split), (taken, all))
      | inr kept ↦ ([], rw kept refl, tt)
    ]

    keep_end-split :
        (x : A) (xs kept post : List A)
        → xs ≡ kept ++ post
        → All (λ y. p y ≡ true) post
        → (post' : List A) × (x ∷ xs ≡ keep_end p x kept ++ post') × All (λ y. p y ≡ true) post'
    keep_end-split x xs [] post e all = elim (Bool-cases (p x)) [
      | inl taken ↦ (x ∷ post, rw taken (ap (◌∷◌ x) e), (taken, all))
      | inr stays ↦ (post, rw stays (ap (◌∷◌ x) e), all)
    ]
    keep_end-split x xs (y ∷ ys) post e all = (post, ap (◌∷◌ x) e, all)

    pub trim_end_by-split :
        (xs : List A)
        → (post : List A) × (xs ≡ trim_end_by p xs ++ post) × All (λ x. p x ≡ true) post
    unfolding trim_end_by
    trim_end_by-split [] = ([], refl, tt)
    trim_end_by-split (x ∷ xs) =
        let (post, split, all) = trim_end_by-split xs in
        keep_end-split x xs (trim_end_by p xs) post split all

    trim_end_by-id : (xs : List A) → EndsClean p xs → trim_end_by p xs ≡ xs
    unfolding trim_end_by
    trim_end_by-id [] e = refl
    trim_end_by-id (x ∷ []) e = rw e
    trim_end_by-id (x ∷ y ∷ ys) e = ap (keep_end p x) (trim_end_by-id (y ∷ ys) e)

    -- Nothing is trimmed off a list that is clean at both ends.
    pub trim_by-id :
        (xs : List A) → StartsClean p xs → EndsClean p xs → trim_end_by p (trim_start_by p xs) ≡ xs
    unfolding trim_start_by trim_end_by
    trim_by-id [] s e = refl
    trim_by-id (x ∷ xs) s e = rw s (trim_end_by-id (x ∷ xs) e)
