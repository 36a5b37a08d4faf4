-- ===== src/JsonModel.antt =====
-- src/json_model.rs: extraction and rewriting of the top-level `model` field of a JSON body.
pub mod Rewrite
use llm_conduit.Prelude.{
  Option, none, some, Bool, false, Result, ok, err, ◌>>=◌, ◌>>◌, if◌then◌else◌, is_empty, to_option,
  and_then,
}
use llm_conduit.Prelude.Text.{Text, Bytes, codes, text_eq}
use llm_conduit.Serde.{SerdeJson, Visit, View, string, object, neither, from_slice_map}

abbrev pub key_model : Text
key_model = codes "model"

module _ (s : SerdeJson) where
  -- `if let Value::String(value) = .. && !value.is_empty() { model = Some(value) }`
  unfoldable pub take_model : Option Text → View s.Object → Option Text
  take_model model (string value) = if is_empty value then model else some value
  take_model model (object o) = model
  take_model model neither = model

  -- The body of the loop in `ModelVisitor::visit_map`.
  unfoldable pub visit_model : Visit s (Option Text)
  visit_model model key raw =
      if text_eq key key_model
      then (do v ← s.read raw; ok (take_model model (s.view v)))
      else (do s.skip raw; ok model)

  unfoldable pub extract_model : Bytes → Option Text
  extract_model body =
      if is_empty body
      then none
      else and_then (to_option (from_slice_map s visit_model none body)) (λ model. model)

  -- `Some(Value::String(current)) if current == new_model`
  unfoldable pub is_model : View s.Object → Text → Bool
  is_model (string current) new_model = text_eq current new_model
  is_model (object o) new_model = false
  is_model neither new_model = false

  -- The part of `try_rewrite_model` behind `as_object_mut`.
  unfoldable pub rewrite_object : s.Object → Text → Option Bytes
  rewrite_object o new_model = elim (s.lookup o key_model) [
    | none ↦ none
    | some v ↦
        if is_model (s.view v) new_model
        then none
        else s.to_vec (s.of_object (s.put o key_model (s.of_string new_model)))
  ]

  unfoldable pub rewrite_view : View s.Object → Text → Option Bytes
  rewrite_view (object o) new_model = rewrite_object o new_model
  rewrite_view (string t) new_model = none
  rewrite_view neither new_model = none

  unfoldable pub try_rewrite_model : Bytes → Text → Option Bytes
  try_rewrite_model body new_model =
      and_then (to_option (s.from_slice body)) (λ v. rewrite_view (s.view v) new_model)
