-- ===== src/RequestId.antt =====
-- src/observe.rs: the ID of a request, taken from the caller or generated.
pub mod Shape
pub mod Stable
use Prim.Native.Nat.{bit_and, bit_or}
use llm_conduit.Prelude.{
  ℕ, zero, suc, ◌+◌, ◌-◌, ◌/◌, ◌%◌, List, [], ◌∷◌, Option, none, some, Bool, not, ◌&&◌, ◌||◌, ltb,
  leb, ◌==◌, if◌then◌else◌, is_empty, unwrap_or, any,
}
use llm_conduit.Prelude.Text.{Text, Bytes, codes, trim, utf8_len}
use llm_conduit.Http.{Headers, get_text}

abbrev pub request_id_header : Text
request_id_header = codes "x-request-id"

abbrev pub max_request_id_len : ℕ
max_request_id_len = 128

-- `char::is_control` on ASCII, where it is asked.
abbrev pub is_control : ℕ → Bool
is_control c = ltb c 32 || (leb 127 c && ltb c 160)

abbrev pub not_ascii : ℕ → Bool
not_ascii c = leb 128 c

unfoldable pub is_usable_id : Text → Bool
is_usable_id trimmed =
    not (is_empty trimmed)
    && leb (utf8_len trimmed) max_request_id_len
    && not (any not_ascii trimmed)
    && not (any is_control trimmed)

-- `u128::to_le_bytes`, in `k` bytes.
unfoldable pub le_bytes : ℕ → ℕ → Bytes
le_bytes zero n = []
le_bytes (suc k) n = (n % 256) ∷ le_bytes k (n / 256)

-- `bytes[index] = f(bytes[index])`
unfoldable pub update_at : ℕ → (ℕ → ℕ) → Bytes → Bytes
update_at i f [] = []
update_at zero f (b ∷ bs) = f b ∷ bs
update_at (suc i) f (b ∷ bs) = b ∷ update_at i f bs

abbrev pub set_version : ℕ → ℕ
set_version b = bit_or (bit_and b 0x0f) 0x40

abbrev pub set_variant : ℕ → ℕ
set_variant b = bit_or (bit_and b 0x3f) 0x80

abbrev pub hex_digit : ℕ → ℕ
hex_digit d = if ltb d 10 then b'0' + d else b'a' + (d - 10)

abbrev pub dash_before : ℕ → Bool
dash_before index = index == 4 || index == 6 || index == 8 || index == 10

-- The loop that prints the bytes, from the index on.
unfoldable pub print_bytes : ℕ → Bytes → Text
print_bytes index [] = []
print_bytes index (b ∷ bs) =
    let digits = hex_digit (b / 16) ∷ hex_digit (b % 16) ∷ print_bytes (index + 1) bs in
    if dash_before index then b'-' ∷ digits else digits

-- `generate_request_id`: `random` is what `getrandom` filled the array with, if it succeeded, and
-- `nanos` the time.
unfoldable pub generate_request_id : Option Bytes → ℕ → Text
generate_request_id random nanos =
    print_bytes 0
      (update_at 8 set_variant (update_at 6 set_version (unwrap_or random (le_bytes 16 nanos))))

-- `request_id`, at the text of the header.
unfoldable pub choose_id : Option Text → Text → Text
choose_id none generated = generated
choose_id (some raw) generated = if is_usable_id (trim raw) then trim raw else generated

unfoldable pub request_id : (h : Headers) → h.HeaderMap → Option Bytes → ℕ → Text
request_id h headers random nanos =
    choose_id (get_text h headers request_id_header) (generate_request_id random nanos)
