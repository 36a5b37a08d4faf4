-- ===== src/Usage/Candidates.antt =====
-- src/usage.rs: `find`, `trim` and the iterator `Candidates`, which cuts a response frame into the
-- byte sequences that may start or continue a JSON object.
pub mod Find
pub mod Rounds
pub mod Events
pub mod Unmarked
pub mod Resume
use llm_conduit.Prelude.{
  ℕ, zero, suc, ◌+◌, ◌-◌, ◌≤◌, ◌<◌, ◌≡◌, List, [], ◌∷◌, Option, none, some, Bool, true, false, ◌&&◌,
  ◌||◌, ltb, ◌==◌, leb, if◌then◌else◌, length, take, drop, is_empty, trim_start_by, trim_end_by,
  is_some, unwrap_or,
}
use llm_conduit.Prelude.Text.{Bytes, text_eq, codes}

-- `u8::is_ascii_whitespace`: space, tab, line feed, form feed and carriage return.
unfoldable pub is_ascii_whitespace : ℕ → Bool
is_ascii_whitespace c = c == 32 || c == 9 || c == 10 || c == 12 || c == 13

unfoldable pub trim : Bytes → Bytes
unfolding trim_start_by trim_end_by is_ascii_whitespace
trim bytes = trim_end_by is_ascii_whitespace (trim_start_by is_ascii_whitespace bytes)

-- `(i..i + n).find(test)`.
unfoldable pub find_index : ℕ → ℕ → (ℕ → Bool) → Option ℕ
find_index zero i test = none
find_index (suc n) i test = let rest = find_index n (i + 1) test in if test i then some i else rest

-- `&haystack[index..index + needle.len()] == needle`.
unfoldable pub found_at : Bytes → Bytes → ℕ → Bool
found_at haystack needle index = text_eq (take (length needle) (drop index haystack)) needle

unfoldable pub find : Bytes → Bytes → Option ℕ
find haystack needle =
    if is_empty needle || ltb (length haystack) (length needle)
    then none
    else find_index (length haystack - length needle + 1) 0 (found_at haystack needle)

-- b"data:"
abbrev pub sse_data : Bytes
sse_data = b'd' ∷ b'a' ∷ b't' ∷ b'a' ∷ b':' ∷ []

abbrev pub newline : Bytes
newline = b'\n' ∷ []

pub record Candidates : Type 0 where
  pub rest : Bytes
  pub is_open : Bool

-- Where a split falls if the needle is not found: at the end.
unfoldable pub split_point : Bytes → Bytes → ℕ
split_point rest needle = unwrap_or (find rest needle) (length rest)

-- `if self.rest.first() == Some(&b' ') { self.take(1); }`
unfoldable pub skip_space : Bytes → Bytes
skip_space [] = []
skip_space (c ∷ cs) = if c == 32 then cs else c ∷ cs

-- The payload behind a marker: its line, and what follows the line.
unfoldable pub payload : Bytes → Option (Bytes × Candidates)
payload marked =
    let line = skip_space marked in
    let stop = split_point line newline in
    some (trim (take stop line), record { rest = drop stop line; is_open = false })

-- The part of `next` behind the `if self.open` block.
unfoldable pub next_closed : Bytes → Option (Bytes × Candidates)
next_closed rest = elim (find rest sse_data) [
  | some start ↦ payload (drop (start + length sse_data) rest)
  | none ↦ some (trim rest, record { rest = []; is_open = false })
]

-- The `if self.open` block, at the bytes before the first marker and the bytes from it on.
unfoldable pub next_open : Bytes → Bytes → Option (Bytes × Candidates)
next_open [] rest = next_closed rest
next_open (c ∷ cs) rest = some (c ∷ cs, record { rest = rest; is_open = false })

-- `Candidates::next`.
unfoldable pub next : Candidates → Option (Bytes × Candidates)
next c =
    if is_empty c.rest
    then none
    else if c.is_open
    then next_open (take (split_point c.rest sse_data) c.rest)
        (drop (split_point c.rest sse_data) c.rest)
    else next_closed c.rest

-- The loop `for candidate in Candidates::new(..)`, with fuel.
unfoldable pub collect : ℕ → Candidates → List Bytes
collect zero c = []
collect (suc fuel) c = elim (next c) [ none ↦ [] | some (x, c') ↦ x ∷ collect fuel c' ]

-- Every round takes a byte at least, so one round more than there are bytes is enough.
unfoldable pub candidates : Bytes → Bool → List Bytes
candidates frame is_open = collect (suc (length frame)) (record { rest = frame; is_open = is_open })
