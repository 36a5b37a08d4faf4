-- ===== src/Serde.antt =====
-- The `serde_json` crate as `json_model.rs` and `usage.rs` call it. The crate is not part of the
-- repository, so it is a parameter: a record of its operations, and a record of the documented
-- behaviour that some theorems rely on. `visit_map` is the loop that the visitors share,
-- `while let Some(key) = map.next_key()? { .. }`, over the entries that the crate hands out.
pub mod Read
use llm_conduit.Prelude.{
  ℕ, ◌≡◌, List, [], ◌∷◌, Option, none, some, Bool, true, false, Result, ok, err, ◌>>=◌, ◌≢◌,
  if◌then◌else◌, All,
}
use llm_conduit.Prelude.Text.{Text, Bytes, text_eq}
use llm_conduit.Usage.Types.{UsageBody}

-- `Error::is_eof`, or any other failure.
pub data Failure : Type 0 where
  eof other : Failure

-- The variants of `serde_json::Value` that the program looks at.
pub data View (Object : Type 0) : Type 0 where
  string : Text → View Object
  object : Object → View Object
  neither : View Object

pub record SerdeJson : Type 1 where
  pub Value : Type 0
  pub Object : Type 0
  -- A value of the document that has not been read yet.
  pub RawValue : Type 0
  pub view : Value → View Object
  pub as_u64 : Value → Option ℕ
  pub of_string : Text → Value
  pub of_object : Object → Value
  pub lookup : Object → Text → Option Value
  pub put : Object → Text → Value → Object
  -- `deserialize_map`: the entries in order, and the failure that follows the last one, if any
  -- (a document that breaks off or is malformed, or characters behind it).
  pub open_map : Bytes → Result Failure (List (Text × RawValue) × Option Failure)
  -- `next_value` at `IgnoredAny`, at `Value` and at `Option<UsageBody>`.
  pub skip : RawValue → Result Failure (Unit {0})
  pub read : RawValue → Result Failure Value
  pub read_usage : RawValue → Result Failure (Option UsageBody)
  pub from_slice : Bytes → Result Failure Value
  pub to_vec : Value → Option Bytes

-- One round of a visitor's loop, on the state that it keeps.
abbrev pub Visit : SerdeJson → Type 0 → Type 0
Visit s S = S → Text → s.RawValue → Result Failure S

module _ (s : SerdeJson) {S : Type 0} where
  unfoldable pub visit_map :
      Visit s S → S → List (Text × s.RawValue) → Option Failure → Result Failure S
  visit_map step st [] none = ok st
  visit_map step st [] (some f) = err f
  visit_map step st ((key, raw) ∷ rest) end = do st' ← step st key raw; visit_map step st' rest end

  -- `serde_json::from_slice` at a type whose `Deserialize` is `deserialize_map(visitor)`.
  unfoldable pub from_slice_map : Visit s S → S → Bytes → Result Failure S
  from_slice_map step st body = do access ← s.open_map body; visit_map step st access.0 access.1
