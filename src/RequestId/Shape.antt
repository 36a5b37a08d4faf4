-- ===== src/RequestId/Shape.antt =====
-- src/observe.rs: a generated request ID has the shape of a version 4 UUID.
use llm_conduit.Prelude.{
  ℕ, zero, suc, ◌+◌, ◌/◌, ◌%◌, ◌<◌, ◌≡◌, refl, ap, ◌∙◌, List, [], ◌∷◌, Option, none, some, Bool,
  true, false, ◌&&◌, ◌||◌, ltb, leb, ◌==◌, if◌then◌else◌, length, All, arith, Bool-cases, inl, inr,
  ==_iff, unwrap_or,
}
use llm_conduit.Prelude.Text.{Text, Bytes}
use llm_conduit.RequestId.{
  le_bytes, update_at, set_version, set_variant, hex_digit, dash_before, print_bytes,
  generate_request_id,
}

-- The reference: classes of characters, one for each position of the text.
abbrev pub is_hex : ℕ → Bool
is_hex c = (leb b'0' c && leb c b'9') || (leb b'a' c && leb c b'f')

abbrev pub is_dash : ℕ → Bool
is_dash c = c == b'-'

abbrev pub is_four : ℕ → Bool
is_four c = c == b'4'

abbrev pub is_variant : ℕ → Bool
is_variant c = c == b'8' || c == b'9' || c == b'a' || c == b'b'

unfoldable pub hexes : ℕ → List (ℕ → Bool) → List (ℕ → Bool)
hexes zero more = more
hexes (suc n) more = is_hex ∷ hexes n more

-- xxxxxxxx-xxxx-4xxx-Vxxx-xxxxxxxxxxxx
unfoldable pub uuid_v4 : List (ℕ → Bool)
unfolding hexes
uuid_v4 = hexes 8 (
    is_dash
    ∷ hexes 4
        (is_dash ∷ is_four ∷ hexes 3 (is_dash ∷ is_variant ∷ hexes 3 (is_dash ∷ hexes 12 []))))

unfoldable pub fits : List (ℕ → Bool) → Text → Bool
fits [] [] = true
fits [] (c ∷ t) = false
fits (p ∷ ps) [] = false
fits (p ∷ ps) (c ∷ t) = p c && fits ps t

-- What holds of each number below a bound, by trying them all.
unfoldable all_below : ℕ → (ℕ → Bool) → Bool
all_below zero p = true
all_below (suc n) p = let before = all_below n p in p n && before

all_below-lt : (n : ℕ) (p : ℕ → Bool) (b : ℕ) → all_below n p ≡ true → b < n → p b ≡ true
unfolding all_below
all_below-lt zero p b h lt = absurd (omega arith)
all_below-lt (suc n) p b h lt = elim (Bool-cases (b == n)) [
  | inl same ↦ rw ((==_iff b n).0 same) (ground arith)
  | inr other ↦ all_below-lt n p b (ground arith) (ground arith)
]

-- The class of the first digit of a byte.
abbrev first_class : ℕ → ℕ → Bool
first_class index = if index == 6 then is_four else if index == 8 then is_variant else is_hex

version_check : ℕ → Bool
version_check b = is_four (hex_digit (set_version b / 16)) && ltb (set_version b) 256

variant_check : ℕ → Bool
variant_check b = is_variant (hex_digit (set_variant b / 16)) && ltb (set_variant b) 256

hex_check : ℕ → Bool
hex_check b = is_hex (hex_digit (b / 16)) && is_hex (hex_digit (b % 16))

versions : all_below 256 version_check ≡ true
unfolding all_below version_check
versions = refl

variants : all_below 256 variant_check ≡ true
unfolding all_below variant_check
variants = refl

hexes_all : all_below 256 hex_check ≡ true
unfolding all_below hex_check
hexes_all = refl

abbrev Prints : ℕ → ℕ → Type 0
Prints index b = (b < 256) × (first_class index (hex_digit (b / 16)) ≡ true)

-- Every byte prints by the classes of its place.
abbrev AllPrint : ℕ → Bytes → Type 0
AllPrint index [] = Unit
AllPrint index (b ∷ bs) = Prints index b × AllPrint (index + 1) bs

unfoldable pattern_from : ℕ → ℕ → List (ℕ → Bool)
pattern_from index zero = []
pattern_from index (suc n) =
    let digits = first_class index ∷ is_hex ∷ pattern_from (index + 1) n in
    if dash_before index then is_dash ∷ digits else digits

is_uuid_v4 : pattern_from 0 16 ≡ uuid_v4
unfolding pattern_from uuid_v4 hexes
is_uuid_v4 = refl

Prints-plain :
    (index b : ℕ) → (index == 6) ≡ false → (index == 8) ≡ false → b < 256 → Prints index b
unfolding hex_check
Prints-plain index b six eight h =
    let digits = all_below-lt 256 hex_check b hexes_all h in (h, rw (six, eight) (ground arith))

Prints-version : (b : ℕ) → b < 256 → Prints 6 (set_version b)
unfolding version_check
Prints-version b h =
    let checked = all_below-lt 256 version_check b versions h in (ground arith, ground arith)

Prints-variant : (b : ℕ) → b < 256 → Prints 8 (set_variant b)
unfolding variant_check
Prints-variant b h =
    let checked = all_below-lt 256 variant_check b variants h in (ground arith, ground arith)

abbrev Bytewise : Bytes → Type 0
Bytewise bs = All (λ b. b < 256) bs

AllPrint-past : (index : ℕ) (bs : Bytes) → 8 < index → Bytewise bs → AllPrint index bs
AllPrint-past index [] past h = tt
AllPrint-past index (b ∷ bs) past h = (
  Prints-plain index b (ground arith) (ground arith) h.0,
  AllPrint-past (index + 1) bs (omega arith) h.1,
)

AllPrint-variant : (bs : Bytes) → Bytewise bs → AllPrint 7 (update_at 1 set_variant bs)
unfolding update_at
AllPrint-variant [] h = tt
AllPrint-variant (b ∷ []) h = (Prints-plain 7 b refl refl h.0, tt)
AllPrint-variant (b ∷ c ∷ bs) h = (
  Prints-plain 7 b refl refl h.0,
  (Prints-variant c h.1.0, AllPrint-past 9 bs (omega arith) h.1.1),
)

-- The two masked bytes, `ahead` places ahead of the index.
AllPrint-masked :
    (ahead index : ℕ) (bs : Bytes)
    → index + ahead ≡ 6
    → Bytewise bs
    → AllPrint index (update_at (suc (suc ahead)) set_variant (update_at ahead set_version bs))
unfolding update_at
AllPrint-masked zero index [] e h = tt
AllPrint-masked (suc ahead) index [] e h = tt
AllPrint-masked zero index (b ∷ bs) e h =
    let six : index ≡ 6 = omega arith in rw six (Prints-version b h.0, AllPrint-variant bs h.1)
AllPrint-masked (suc ahead) index (b ∷ bs) e h = (
  Prints-plain index b (ground arith) (ground arith) h.0,
  AllPrint-masked ahead (index + 1) bs (omega arith) h.1,
)

fits-print_bytes :
    (index : ℕ) (bs : Bytes)
    → AllPrint index bs
    → fits (pattern_from index (length bs)) (print_bytes index bs) ≡ true
unfolding fits pattern_from print_bytes hex_check
fits-print_bytes index [] h = refl
fits-print_bytes index (b ∷ bs) h =
    let digits = all_below-lt 256 hex_check b hexes_all h.0.0 in
    let later = fits-print_bytes (index + 1) bs h.1 in
    elim (Bool-cases (dash_before index)) [
      | inl dashed ↦ rw dashed (ground (arith, h.0.1))
      | inr plain ↦ rw plain (ground (arith, h.0.1))
    ]

length-update_at : (i : ℕ) (f : ℕ → ℕ) (bs : Bytes) → length (update_at i f bs) ≡ length bs
unfolding update_at
length-update_at i f [] = refl
length-update_at zero f (b ∷ bs) = refl
length-update_at (suc i) f (b ∷ bs) = ap suc (length-update_at i f bs)

Bytewise-le_bytes : (k n : ℕ) → Bytewise (le_bytes k n)
unfolding le_bytes
Bytewise-le_bytes zero n = tt
Bytewise-le_bytes (suc k) n = (omega arith, Bytewise-le_bytes k (n / 256))

length-le_bytes : (k n : ℕ) → length (le_bytes k n) ≡ k
unfolding le_bytes
length-le_bytes zero n = refl
length-le_bytes (suc k) n = ap suc (length-le_bytes k (n / 256))

-- What `getrandom` fills the array of 16 bytes with, if it succeeds.
abbrev pub Filled : Option Bytes → Type 0
Filled none = Unit
Filled (some bs) = (length bs ≡ 16) × All (λ b. b < 256) bs

Filled-bytes :
    (random : Option Bytes) (nanos : ℕ)
    → Filled random
    → (length (unwrap_or random (le_bytes 16 nanos)) ≡ 16)
      × Bytewise (unwrap_or random (le_bytes 16 nanos))
Filled-bytes none nanos h = (length-le_bytes 16 nanos, Bytewise-le_bytes 16 nanos)
Filled-bytes (some bs) nanos h = h

-- A generated ID is a version 4 UUID in its usual form, whether it was made of 16 random bytes or,
-- where none could be had, of the time.
pub generate_request_id-fits :
    (random : Option Bytes) (nanos : ℕ)
    → Filled random
    → fits uuid_v4 (generate_request_id random nanos) ≡ true
unfolding generate_request_id
generate_request_id-fits random nanos filled =
    let (sized, bytewise) = Filled-bytes random nanos filled in
    let bs = unwrap_or random (le_bytes 16 nanos) in
    let masked = update_at 8 set_variant (update_at 6 set_version bs) in
    let sixteen : length masked ≡ 16 =
      length-update_at 8 set_variant (update_at 6 set_version bs)
      ∙ length-update_at 6 set_version bs
      ∙ sized in
    let printed : fits (pattern_from 0 (length masked)) (print_bytes 0 masked) ≡ true =
      fits-print_bytes 0 masked (AllPrint-masked 6 0 bs refl bytewise) in
    rw (sixteen, is_uuid_v4) at printed
