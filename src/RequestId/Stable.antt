-- ===== src/RequestId/Stable.antt =====
-- src/observe.rs: whatever a request brings, its ID is usable, and stays the same from hop to hop.
use llm_conduit.Prelude.{
  ℕ, zero, suc, ◌≤◌, ◌≡◌, refl, ap, ◌∙◌, List, [], ◌∷◌, Option, none, some, Bool, true, false, ◌&&◌,
  leb, length, All, any, is_empty, arith, Bool-cases, inl, inr, StartsClean, EndsClean,
}
use llm_conduit.Prelude.Text.{Text, Bytes, trim, trim-id, trim-trim, is_whitespace, utf8_len}
use llm_conduit.Http.{Headers, get_text}
use llm_conduit.RequestId.{
  request_id_header, is_control, not_ascii, is_usable_id, choose_id, request_id,
  generate_request_id,
}
use llm_conduit.RequestId.Shape.{
  is_dash, is_four, is_variant, hexes, uuid_v4, fits, Filled, generate_request_id-fits,
}

-- A visible ASCII character.
abbrev is_plain : ℕ → Bool
is_plain c = leb 33 c && leb c 126

abbrev Plain : Text → Type 0
Plain t = All (λ c. is_plain c ≡ true) t

utf8_len-Plain : (t : Text) → Plain t → utf8_len t ≡ length t
unfolding utf8_len
utf8_len-Plain [] p = refl
utf8_len-Plain (c ∷ t) p = ground (arith, utf8_len-Plain t p.1)

any-not_ascii : (t : Text) → Plain t → any not_ascii t ≡ false
any-not_ascii [] p = refl
any-not_ascii (c ∷ t) p = ground (arith, any-not_ascii t p.1)

any-is_control : (t : Text) → Plain t → any is_control t ≡ false
any-is_control [] p = refl
any-is_control (c ∷ t) p = ground (arith, any-is_control t p.1)

is_usable_id-Plain :
    (t : Text) → Plain t → is_empty t ≡ false → length t ≤ 128 → is_usable_id t ≡ true
unfolding is_usable_id
is_usable_id-Plain t p full short =
    rw (full, any-not_ascii t p, any-is_control t p) (ground (arith, utf8_len-Plain t p))

is_whitespace-plain : (c : ℕ) → is_plain c ≡ true → is_whitespace c ≡ false
unfolding is_whitespace
is_whitespace-plain c h = ground arith

StartsClean-Plain : (t : Text) → Plain t → StartsClean is_whitespace t
StartsClean-Plain [] p = tt
StartsClean-Plain (c ∷ t) p = is_whitespace-plain c p.0

EndsClean-Plain : (t : Text) → Plain t → EndsClean is_whitespace t
EndsClean-Plain [] p = tt
EndsClean-Plain (c ∷ []) p = is_whitespace-plain c p.0
EndsClean-Plain (c ∷ d ∷ t) p = EndsClean-Plain (d ∷ t) p.1

-- Only plain characters have a class in the pattern.
abbrev IsPlainClass : (ℕ → Bool) → Type 0
IsPlainClass p = (c : ℕ) → p c ≡ true → is_plain c ≡ true

fits-Plain :
    (ps : List (ℕ → Bool)) (t : Text)
    → All IsPlainClass ps
    → fits ps t ≡ true
    → Plain t × (length t ≡ length ps)
unfolding fits
fits-Plain [] [] h f = (tt, refl)
fits-Plain [] (c ∷ t) h f = cc
fits-Plain (p ∷ ps) [] h f = cc
fits-Plain (p ∷ ps) (c ∷ t) h f =
    let (rest, same) = fits-Plain ps t h.1 (ground arith) in
    ((h.0 c (ground arith), rest), ap suc same)

IsPlainClass-hexes :
    (n : ℕ) (ps : List (ℕ → Bool)) → All IsPlainClass ps → All IsPlainClass (hexes n ps)
unfolding hexes
IsPlainClass-hexes zero ps h = h
IsPlainClass-hexes (suc n) ps h = (λ c e. ground arith, IsPlainClass-hexes n ps h)

IsPlainClass-uuid_v4 : All IsPlainClass uuid_v4
unfolding uuid_v4 hexes
IsPlainClass-uuid_v4 =
    let dash : IsPlainClass is_dash = λ c e. ground arith in
    let four : IsPlainClass is_four = λ c e. ground arith in
    let variant : IsPlainClass is_variant = λ c e. ground arith in
    let node = hexes 12 [] in
    let clock = is_dash ∷ is_variant ∷ hexes 3 (is_dash ∷ node) in
    let high = is_dash ∷ is_four ∷ hexes 3 clock in
    IsPlainClass-hexes 8 (is_dash ∷ hexes 4 high) (
      dash,
      IsPlainClass-hexes 4 high (
        dash,
        (
          four,
          IsPlainClass-hexes 3 clock (
            dash,
            (variant, IsPlainClass-hexes 3 (is_dash ∷ node) (dash, IsPlainClass-hexes 12 [] tt)),
          ),
        ),
      ),
    )

not_empty : (t : Text) → length t ≡ 36 → is_empty t ≡ false
not_empty [] h = absurd (omega arith)
not_empty (c ∷ t) h = refl

-- A generated ID is not trimmed, and is usable as it is.
generated :
    (random : Option Bytes) (nanos : ℕ)
    → Filled random
    → (trim (generate_request_id random nanos) ≡ generate_request_id random nanos)
      × (is_usable_id (generate_request_id random nanos) ≡ true)
generated random nanos filled =
    let id = generate_request_id random nanos in
    let (plain, sized) =
      fits-Plain uuid_v4 id IsPlainClass-uuid_v4 (generate_request_id-fits random nanos filled) in
    let long : length id ≡ 36 = sized ∙ unfold uuid_v4 hexes in refl in
    (
      trim-id id (StartsClean-Plain id plain) (EndsClean-Plain id plain),
      is_usable_id-Plain id plain (not_empty id long) (omega (arith, long)),
    )

choose_id-trim :
    (o : Option Text) (g : Text)
    → trim g ≡ g
    → is_usable_id g ≡ true
    → (trim (choose_id o g) ≡ choose_id o g) × (is_usable_id (choose_id o g) ≡ true)
unfolding choose_id
choose_id-trim none g e u = (e, u)
choose_id-trim (some raw) g e u = elim (Bool-cases (is_usable_id (trim raw))) [
  | inl good ↦ rw good (trim-trim raw, good)
  | inr bad ↦ rw bad (e, u)
]

choose_id-usable :
    (id g : Text) → trim id ≡ id → is_usable_id id ≡ true → choose_id (some id) g ≡ id
unfolding choose_id
choose_id-usable id g e u = rw (e, u) refl

-- The ID of a request is usable: not empty, of at most 128 bytes, ASCII, and without control
-- characters. A hop behind this one, whose request carries that ID as its text, keeps it, whatever
-- it would have generated.
pub request_id-stable :
    (h : Headers) (headers behind : h.HeaderMap) (random random' : Option Bytes) (nanos nanos' : ℕ)
    → Filled random
    → get_text h behind request_id_header ≡ some (request_id h headers random nanos)
    → (is_usable_id (request_id h headers random nanos) ≡ true)
      × (request_id h behind random' nanos' ≡ request_id h headers random nanos)
unfolding request_id
request_id-stable h headers behind random random' nanos nanos' filled carried =
    let (trimmed, good) = generated random nanos filled in
    let (clean, usable) =
      choose_id-trim (get_text h headers request_id_header) (generate_request_id random nanos)
        trimmed good in
    (usable, rw carried (choose_id-usable _ (generate_request_id random' nanos') clean usable))
