-- ===== src/Tests/Toys.antt =====
-- Small instances of the crates that the development takes as parameters.
use mathlib.Core.List.{Memᴰ}
use llm_conduit.Prelude.{
  ℕ, zero, suc, ◌≡◌, refl, ap, sym, List, [], ◌∷◌, ◌++◌, Option, none, some, Bool, true, false,
  Result, ok, err, ◌==◌, if◌then◌else◌, take, drop, length, arith, Bool-cases, inl, inr,
}
use llm_conduit.Prelude.Text.{Text, Bytes, text_eq, text_eq_iff, text_eq_refl}
use llm_conduit.Serde.{SerdeJson, Failure, eof, other, View, string, object, neither}
use llm_conduit.Serde.Read.{SerdeLaws, Written}
use llm_conduit.Usage.Types.{UsageBody}

mutual
  pub data Value : Type 0 where
    text : Text → Value
    number : ℕ → Value
    counters : ℕ → ℕ → Value
    fields : Object → Value

  pub data Object : Type 0 where
    end : Object
    field : Text → Value → Object → Object

unfoldable pub view : Value → View Object
view (text t) = string t
view (number n) = neither
view (counters p c) = neither
view (fields o) = object o

unfoldable pub as_u64 : Value → Option ℕ
as_u64 (number n) = some n
as_u64 (text t) = none
as_u64 (counters p c) = none
as_u64 (fields o) = none

unfoldable pub lookup : Object → Text → Option Value
lookup end key = none
lookup (field k v o) key = let later = lookup o key in if text_eq k key then some v else later

-- Documents: an opening brace, fields, a closing brace and line feeds. A field is a comma, the
-- length of its key, the key and a value; a value is `0 n`, `1 len text` or `2 prompt completion`.
unfoldable pub blank : Bytes → Bool
blank [] = true
blank (c ∷ cs) = let later = blank cs in if c == b'\n' then later else false

abbrev pub Entries : Type 0
Entries = List (Text × Value) × Option Failure

abbrev with_entry : Text → Value → Entries → Entries
with_entry key v (es, failure) = ((key, v) ∷ es, failure)

unfoldable pub decode : ℕ → Bytes → Entries
decode zero body = ([], some eof)
decode (suc fuel) [] = ([], some eof)
decode (suc fuel) (c ∷ rest) =
    if c == b'}' then ([], if blank rest then none else some other) else elim rest [
      | [] ↦ ([], some eof)
      | n ∷ named ↦ elim (drop n named) [
        | [] ↦ ([], some eof)
        | tag ∷ [] ↦ ([], some eof)
        | tag ∷ x ∷ more ↦
            let as_text =
              with_entry (take n named) (text (take x more)) (decode fuel (drop x more)) in
            let as_number = with_entry (take n named) (number x) (decode fuel more) in
            let as_counters : Entries = elim more [
              | [] ↦ ([], some eof)
              | y ∷ past ↦ with_entry (take n named) (counters x y) (decode fuel past)
            ] in
            if tag == 0 then as_number else if tag == 1 then as_text else as_counters
      ]
    ]

unfoldable pub open_map : Bytes → Result Failure Entries
open_map [] = err eof
open_map (c ∷ rest) = if c == b'{' then ok (decode (suc (suc (length rest))) rest) else err other

unfoldable pub read_usage : Value → Result Failure (Option UsageBody)
read_usage (counters p c) = ok (
    some (record {
      prompt_tokens = some p;
      completion_tokens = some c;
      total_tokens = none;
      prompt_tokens_details = record { cached_tokens = none; reasoning_tokens = none };
      completion_tokens_details = record { cached_tokens = none; reasoning_tokens = none };
    }))
read_usage (text t) = err other
read_usage (number n) = ok none
read_usage (fields o) = err other

unfoldable pub of_entries : List (Text × Value) → Object
of_entries [] = end
of_entries ((k, v) ∷ es) = field k v (of_entries es)

unfoldable pub from_slice : Bytes → Result Failure Value
from_slice body = elim (open_map body) [
  | ok (es, none) ↦ ok (fields (of_entries es))
  | ok (es, some f) ↦ err f
  | err f ↦ err f
]

unfoldable pub put : Object → Text → Value → Object
put end key v = field key v end
put (field k w o) key v =
    let later = put o key v in if text_eq k key then field k v o else field k w later

abbrev pub body_of : Text → Text → Bytes
body_of key t = b'{' ∷ b',' ∷ length key ∷ (key ++ (1 ∷ length t ∷ (t ++ b'}' ∷ [])))

-- It writes the objects that have one field, a text.
unfoldable pub to_vec : Value → Option Bytes
to_vec (fields (field k (text t) end)) = some (body_of k t)
to_vec _ = none

abbrev pub json : SerdeJson
json = record {
  Value = Value;
  Object = Object;
  RawValue = Value;
  view = view;
  as_u64 = as_u64;
  of_string = text;
  of_object = fields;
  lookup = lookup;
  put = put;
  open_map = open_map;
  skip = λ v. ok tt;
  read = ok;
  read_usage = read_usage;
  from_slice = from_slice;
  to_vec = to_vec;
}

lookup-put :
    (o : Object) (key k : Text) (v : Value)
    → lookup (put o key v) k ≡ (if text_eq key k then some v else lookup o k)
unfolding lookup put
lookup-put end key k v = refl
lookup-put (field j w o) key k v =
    ground (arith, lookup-put o key k v, text_eq_iff j key, text_eq_iff j k, text_eq_iff key k)

take-length : (p r : Bytes) → take (length p) (p ++ r) ≡ p
take-length [] r = refl
take-length (c ∷ p) r = ap (◌∷◌ c) (take-length p r)

drop-length : (p r : Bytes) → drop (length p) (p ++ r) ≡ r
drop-length [] r = refl
drop-length (c ∷ p) r = drop-length p r

open_map-body_of : (k t : Text) → open_map (body_of k t) ≡ ok ((k, text t) ∷ [], none)
unfolding open_map decode blank
open_map-body_of k t = rw (drop-length k _, take-length k _, drop-length t _, take-length t _) refl

same_key :
    (k key : Text) (w v : Value)
    → lookup (field k w end) key ≡ some v
    → ◌≡◌ {A = Text × Value} (key, w) (k, w)
unfolding lookup
same_key k key w v h = elim (Bool-cases (text_eq k key)) [
  | inl same ↦ ap (λ j. (j, w)) (sym ((text_eq_iff k key).0 same))
  | inr different ↦ absurd (ground arith)
]

Written-of : (k t : Text) → Written json (field k (text t) end) (body_of k t)
unfolding lookup
Written-of k t = record {
  entries = (k, text t) ∷ [];
  opens = open_map-body_of k t;
  reads = ((refl, (text t, refl, rw (text_eq_refl k) refl)), tt);
  complete = λ key v found. (text t, Memᴰ.head (same_key k key (text t) v found));
}

some-injective : {x y : Bytes} → some x ≡ some y → x ≡ y
some-injective h = cc

written : (o : Object) (body : Bytes) → to_vec (fields o) ≡ some body → Written json o body
unfolding to_vec
written end body h = cc
written (field k (text t) end) body h = rw (← some-injective h) (Written-of k t)
written (field k (text t) (field j w o)) body h = cc
written (field k (number n) o) body h = cc
written (field k (counters p c) o) body h = cc
written (field k (fields p) o) body h = cc

pub json_laws : SerdeLaws json
unfolding view
json_laws = record { view_of_string = λ t. refl; lookup_put = lookup-put; written = written }
