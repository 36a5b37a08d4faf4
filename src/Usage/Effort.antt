-- ===== src/Usage/Effort.antt =====
-- src/usage.rs: the thinking effort of a request body.
pub mod Preferred
use llm_conduit.Prelude.{
  ℕ, ◌-◌, List, [], ◌∷◌, Option, none, some, Bool, ◌&&◌, Result, ok, err, ◌>>=◌, ◌>>◌, ltb, ◌==◌,
  if◌then◌else◌, is_empty, is_some, or_else, and_then, to_option,
}
use llm_conduit.Prelude.Text.{Text, Bytes, codes, trim, utf8_len, position}
use llm_conduit.Serde.{SerdeJson, Visit, View, string, object, neither, from_slice_map}
use llm_conduit.Usage.Types.{u64_mod}

-- `EFFORT_KEYS`, in the order of precedence.
abbrev pub effort_keys : List Text
effort_keys =
    codes "reasoning_effort" ∷ codes "thinking" ∷ codes "reasoning" ∷ codes "thinking_effort" ∷ []

unfoldable pub non_empty : Text → Option Text
non_empty text =
    let trimmed = trim text in
    if is_empty trimmed
    then none
    else if utf8_len trimmed == utf8_len text
    then some text
    else some trimmed

-- `merge_effort`: the value that `*current` holds afterwards.
unfoldable pub merge_effort : Option Text → Option Text → Option Text
merge_effort current none = current
merge_effort none (some value) = some value
merge_effort (some old) (some value) = some old

pub record EffortState : Type 0 where
  pub effort : Option Text
  pub rank : ℕ

-- `rank` starts at `usize::MAX`.
abbrev pub no_effort : EffortState
no_effort = record { effort = none; rank = u64_mod - 1 }

module _ (s : SerdeJson) where
  -- `Value::as_str`
  unfoldable pub as_str : s.Value → Option Text
  as_str v = elim (s.view v) [ string t ↦ some t | _ ↦ none ]

  -- `EffortCandidate`: a string, or the `type` or `effort` of an object.
  unfoldable pub effort_candidate : s.Value → Option Text
  effort_candidate v = elim (s.view v) [
    | string text ↦ non_empty text
    | object o ↦
        and_then
          (and_then (or_else (s.lookup o (codes "type")) (s.lookup o (codes "effort"))) as_str)
          non_empty
    | neither ↦ none
  ]

  -- What a usable value of rank `index` does to the state.
  unfoldable pub take_effort : EffortState → ℕ → Option Text → EffortState
  take_effort st index value =
      if is_some value && ltb index st.rank then record { effort = value; rank = index } else st

  -- The body of the loop in `EffortVisitor::visit_map`.
  unfoldable pub visit_effort : Visit s EffortState
  visit_effort st key raw = elim (position effort_keys key) [
    | some index ↦ (do v ← s.read raw; ok (take_effort st index (effort_candidate v)))
    | none ↦ (do s.skip raw; ok st)
  ]

  unfoldable pub extract_effort : Bytes → Option Text
  extract_effort body =
      if is_empty body
      then none
      else and_then (to_option (from_slice_map s visit_effort no_effort body)) (λ st. st.effort)
