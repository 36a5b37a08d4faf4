-- ===== src/Auth/Bearer.antt =====
-- src/auth.rs and src/proxy.rs: the key that one gateway sends is the key that the next one reads.
use llm_conduit.Prelude.{
  ℕ, ◌≡◌, refl, [], ◌∷◌, ◌++◌, some, true, false, is_empty, arith, suc, ◌+◌, ◌-◌, ◌<◌, ◌≤◌, ◌⊎◌,
  inl, inr, ltb, StartsClean, EndsClean, map,
}
use llm_conduit.Prelude.Text.{
  Text, codes, trim, trim-id, is_whitespace, split_at, eq_ignore_ascii_case, to_ascii_lower,
  text_eq, char_len,
}
use llm_conduit.Http.{Headers, get_text}
use llm_conduit.Auth.{authorization, strip_bearer, strip_prefix, extract_key}

-- A small letter, or its capital.
abbrev pub IsLetter : ℕ → ℕ → Type 0
IsLetter small c = (c ≡ small) ⊎ (c + 32 ≡ small)

-- The word `bearer` in letters of either case, and a space.
pub record Word : Type 0 where
  pub b : ℕ
  pub e : ℕ
  pub a : ℕ
  pub r : ℕ
  pub e' : ℕ
  pub r' : ℕ
  pub is_b : IsLetter b'b' b
  pub is_e : IsLetter b'e' e
  pub is_a : IsLetter b'a' a
  pub is_r : IsLetter b'r' r
  pub is_e' : IsLetter b'e' e'
  pub is_r' : IsLetter b'r' r'

abbrev pub bearer_of : Word → Text
bearer_of w = w.b ∷ w.e ∷ w.a ∷ w.r ∷ w.e' ∷ w.r' ∷ 32 ∷ []

-- A key off which nothing would be trimmed.
pub record IsKey (key : Text) : Type 0 where
  pub named : is_empty key ≡ false
  pub starts : StartsClean is_whitespace key
  pub ends : EndsClean is_whitespace key

is_ascii : (small c : ℕ) → small < 128 → IsLetter small c → c < 128
is_ascii small c h (inl e) = omega arith
is_ascii small c h (inr e) = omega arith

lower : (small c : ℕ) → 97 ≤ small → small ≤ 122 → IsLetter small c → to_ascii_lower c ≡ small
unfolding to_ascii_lower
lower small c l u (inl e) = ground arith
lower small c l u (inr e) = ground arith

split_at-ascii :
    (n c : ℕ) (t rest : Text) (prefix : Text)
    → c < 128
    → split_at n t ≡ some (prefix, rest)
    → split_at (suc n) (c ∷ t) ≡ some (c ∷ prefix, rest)
unfolding split_at
split_at-ascii n c t rest prefix h e =
    let one : char_len c ≡ 1 = ground arith in
    let fits : ltb (suc n) 1 ≡ false = ground arith in
    let left : suc n - 1 ≡ n = omega arith in rw (one, fits, left, e) refl

split_at-bearer_of :
    (w : Word) (key : Text) → split_at 7 (bearer_of w ++ key) ≡ some (bearer_of w, key)
split_at-bearer_of w key =
    let letter : (small c : ℕ) (n : ℕ) (t prefix : Text)
        → small < 128
        → IsLetter small c
        → split_at n t ≡ some (prefix, key)
        → split_at (suc n) (c ∷ t) ≡ some (c ∷ prefix, key) =
      λ small c n t prefix h is e. split_at-ascii n c t key prefix (is_ascii small c h is) e in
    letter _ w.b 6 _ _ (omega arith) w.is_b (
      letter _ w.e 5 _ _ (omega arith) w.is_e (
        letter _ w.a 4 _ _ (omega arith) w.is_a (
          letter _ w.r 3 _ _ (omega arith) w.is_r (
            letter _ w.e' 2 _ _ (omega arith) w.is_e' (
              letter _ w.r' 1 _ _ (omega arith) w.is_r'
                (split_at-ascii 0 32 key key [] (omega arith) (unfold split_at in refl)))))))

bearer_of-lower : (w : Word) → map to_ascii_lower (bearer_of w) ≡ codes "bearer "
unfolding codes to_ascii_lower
bearer_of-lower w =
    rw
      (
        lower b'b' w.b (omega arith) (omega arith) w.is_b,
        lower b'e' w.e (omega arith) (omega arith) w.is_e,
        lower b'a' w.a (omega arith) (omega arith) w.is_a,
        lower b'r' w.r (omega arith) (omega arith) w.is_r,
        lower b'e' w.e' (omega arith) (omega arith) w.is_e',
        lower b'r' w.r' (omega arith) (omega arith) w.is_r',
      )
      refl

EndsClean-bearer_of :
    (w : Word) (key : Text) → IsKey key → EndsClean is_whitespace (bearer_of w ++ key)
EndsClean-bearer_of w [] k = absurd (ground (arith, k.named))
EndsClean-bearer_of w (c ∷ key) k = k.ends

StartsClean-bearer_of : (w : Word) (key : Text) → StartsClean is_whitespace (bearer_of w ++ key)
unfolding is_whitespace
StartsClean-bearer_of w key = ground (arith, w.is_b)

bearer_lower : text_eq (codes "bearer ") (map to_ascii_lower (codes "bearer ")) ≡ true
unfolding text_eq codes to_ascii_lower
bearer_lower = refl

is_bearer : (w : Word) → eq_ignore_ascii_case (bearer_of w) (codes "bearer ") ≡ true
unfolding eq_ignore_ascii_case
is_bearer w = rw (bearer_of-lower w) bearer_lower

strip_bearer-bearer_of :
    (w : Word) (key : Text) → IsKey key → strip_bearer (bearer_of w ++ key) ≡ key
unfolding strip_bearer strip_prefix
strip_bearer-bearer_of w key k =
    let whole : trim (bearer_of w ++ key) ≡ bearer_of w ++ key =
      trim-id _ (StartsClean-bearer_of w key) (EndsClean-bearer_of w key k) in
    rw (whole, split_at-bearer_of w key, strip_prefix, is_bearer w) (trim-id key k.starts k.ends)

module _ (h : Headers) where
  -- A request whose `Authorization` is the word `bearer`, in letters of either case, a space and a
  -- key, off which nothing would be trimmed: that key is what the gateway reads.
  pub extract_key-bearer_of :
      (headers : h.HeaderMap) (w : Word) (key : Text)
      → IsKey key
      → get_text h headers authorization ≡ some (bearer_of w ++ key)
      → extract_key h headers ≡ some key
  unfolding extract_key
  extract_key-bearer_of headers w key k e = rw (e, strip_bearer-bearer_of w key k, k.named) refl
