-- ===== src/Prelude/Text.antt =====
-- Text as code points (Rust `str` and `String`), bytes as numbers below 256, and what the program
-- uses of `str`: equality, `trim`, `len`, `get(..n)`, `starts_with`, ASCII case, decimal printing.
use Prim.Native.Nat.{ℕ, zero, suc, ◌+◌, ◌-◌, ◌/◌, ◌%◌}
use Prim.Native.Char.{code}
use Prim.Native.String.{String}
use mathlib.Core.Path.{◌≡◌, refl}
use mathlib.Core.Logic.{◌↔◌, ◌≢◌, ◌⊎◌, inl, inr}
use mathlib.Core.Bool.{Bool, true, false, ◌&&◌, ◌||◌}
use mathlib.Core.List.{List, [], ◌∷◌, map}
use mathlib.Core.Option.{Option, none, some}
use native.Mathlib.Omega.{arith}
use llm_conduit.Prelude.Tests.{ltb, leb, ◌==◌, if◌then◌else◌, and_then, Bool-cases}
use llm_conduit.Prelude.Lists.{
  trim_start_by, trim_end_by, trim_by-id, StartsClean, EndsClean, StartsClean-trim_start_by,
  StartsClean-trim_end_by, EndsClean-trim_end_by,
}

abbrev pub Text : Type 0
Text = List ℕ

abbrev pub Bytes : Type 0
Bytes = List ℕ

-- The code points of a literal.
unfoldable pub codes : String → Text
codes String.[] = []
codes (String.◌∷◌ c s) = code c ∷ codes s

unfoldable pub text_eq : Text → Text → Bool
text_eq [] [] = true
text_eq (x ∷ xs) (y ∷ ys) = x == y && text_eq xs ys
text_eq _ _ = false

-- `char::is_whitespace`: the Unicode property White_Space.
unfoldable pub is_whitespace : ℕ → Bool
is_whitespace c =
    (leb 9 c && leb c 13)
    || c == 32
    || c == 0x85
    || c == 0xa0
    || c == 0x1680
    || (leb 0x2000 c && leb c 0x200a)
    || c == 0x2028
    || c == 0x2029
    || c == 0x202f
    || c == 0x205f
    || c == 0x3000

-- `str::trim`.
unfoldable pub trim : Text → Text
unfolding trim_start_by trim_end_by is_whitespace
trim t = trim_end_by is_whitespace (trim_start_by is_whitespace t)

-- `char::len_utf8` and `str::len`.
abbrev pub char_len : ℕ → ℕ
char_len c = if ltb c 0x80 then 1 else if ltb c 0x800 then 2 else if ltb c 0x10000 then 3 else 4

unfoldable pub utf8_len : Text → ℕ
utf8_len [] = 0
utf8_len (c ∷ t) = char_len c + utf8_len t

-- `str::get(..n)` with the rest behind it: `none` past the end or inside a character.
unfoldable pub split_at : ℕ → Text → Option (Text × Text)
split_at zero t = some ([], t)
split_at (suc n) [] = none
split_at (suc n) (c ∷ t) =
    if ltb (suc n) (char_len c)
    then none
    else and_then (split_at (suc n - char_len c) t) (λ p. some (c ∷ p.0, p.1))

unfoldable pub to_ascii_lower : ℕ → ℕ
to_ascii_lower c = if leb b'A' c && leb c b'Z' then c + 32 else c

unfoldable pub eq_ignore_ascii_case : Text → Text → Bool
unfolding to_ascii_lower text_eq
eq_ignore_ascii_case s t = text_eq (map to_ascii_lower s) (map to_ascii_lower t)

unfoldable pub starts_with : Text → Text → Bool
starts_with t [] = true
starts_with [] (p ∷ ps) = false
starts_with (c ∷ t) (p ∷ ps) = c == p && starts_with t ps

-- `contains` of a slice of texts.
unfoldable pub contains : List Text → Text → Bool
unfolding text_eq
contains [] t = false
contains (s ∷ ss) t = text_eq s t || contains ss t

-- The decimal digits of a number, as `Display` of an unsigned integer prints them. Each round
-- takes a digit off, so a number below 2 ^ 64 needs at most 20 rounds.
decimal_from : ℕ → ℕ → Text → Text
decimal_from zero n out = out
decimal_from (suc f) n out =
    let out' = (b'0' + n % 10) ∷ out in
    elim (n / 10 == 0) [ true ↦ out' | false ↦ decimal_from f (n / 10) out' ]

unfoldable pub decimal : ℕ → Text
unfolding decimal_from
decimal n = decimal_from 20 n []

pub text_eq_iff : (s t : Text) → (text_eq s t ≡ true) ↔ (s ≡ t)
unfolding text_eq
text_eq_iff [] [] = ground arith
text_eq_iff (x ∷ s) [] = ground arith
text_eq_iff [] (y ∷ t) = ground arith
text_eq_iff (x ∷ s) (y ∷ t) = ground (arith, text_eq_iff s t)

pub text_eq_refl : (s : Text) → text_eq s s ≡ true
text_eq_refl s = (text_eq_iff s s).1 refl

-- `iter().position(|candidate| *candidate == key)`
unfoldable pub position : List Text → Text → Option ℕ
position [] key = none
position (t ∷ ts) key =
    let later = position ts key in
    if text_eq t key then some 0 else and_then later (λ i. some (suc i))

pub text_ne : (s t : Text) → text_eq s t ≡ false → s ≢ t
text_ne s t h e = let same : text_eq s t ≡ true = (text_eq_iff s t).1 e in ground arith

-- To split on a comparison and keep what it says.
pub text_eq-cases :
    (s t : Text) → ((text_eq s t ≡ true) × (s ≡ t)) ⊎ ((text_eq s t ≡ false) × ¬ (s ≡ t))
text_eq-cases s t = elim (Bool-cases (text_eq s t)) [
  | inl same ↦ inl (same, (text_eq_iff s t).0 same)
  | inr different ↦ inr (different, λ e. text_ne s t different e)
]

pub trim-id : (t : Text) → StartsClean is_whitespace t → EndsClean is_whitespace t → trim t ≡ t
unfolding trim
trim-id = trim_by-id is_whitespace

pub trim-StartsClean : (t : Text) → StartsClean is_whitespace (trim t)
unfolding trim
trim-StartsClean t =
    StartsClean-trim_end_by is_whitespace (trim_start_by is_whitespace t)
      (StartsClean-trim_start_by is_whitespace t)

pub trim-EndsClean : (t : Text) → EndsClean is_whitespace (trim t)
unfolding trim
trim-EndsClean t = EndsClean-trim_end_by is_whitespace (trim_start_by is_whitespace t)

pub trim-trim : (t : Text) → trim (trim t) ≡ trim t
trim-trim t = trim-id (trim t) (trim-StartsClean t) (trim-EndsClean t)
