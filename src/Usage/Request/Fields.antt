-- ===== src/Usage/Request/Fields.antt =====
-- src/usage.rs: which fields of a request body `RequestUsageVisitor` keeps.
use llm_conduit.Prelude.{
  ℕ, ◌≡◌, refl, List, [], ◌∷◌, ◌++◌, Option, none, Bool, false, ok, if◌then◌else◌, is_empty,
  and_then, to_option, or_else, arith,
}
use llm_conduit.Prelude.Text.{Text, Bytes, codes, text_eq, contains}
use llm_conduit.Serde.{SerdeJson, from_slice_map}
use llm_conduit.Serde.Read.{visit_map-invariant}
use llm_conduit.Usage.Request.{
  request_usage_keys, RequestUsage, no_usage, take_usage, visit_request, extract_request_usage,
}

module _ (s : SerdeJson) where
  -- The number at an entry, if it is one that `u64` holds.
  abbrev pub number : s.RawValue → Option ℕ
  number raw = and_then (to_option (s.read raw)) s.as_u64

  abbrev pub is_n : Text → Bool
  is_n key = text_eq key (codes "n")

  -- The first readable number under one of the three names of the token budget.
  unfoldable pub first_budget : List (Text × s.RawValue) → Option ℕ
  first_budget [] = none
  first_budget ((key, raw) ∷ es) =
      let later = first_budget es in
      if contains request_usage_keys key
      then (if is_n key then later else or_else (number raw) later)
      else later

  -- What the last entry `n` says; `start` if there is no such entry.
  unfoldable pub last_choices : Option ℕ → List (Text × s.RawValue) → Option ℕ
  last_choices start [] = start
  last_choices start ((key, raw) ∷ es) =
      last_choices
        (if contains request_usage_keys key
          then (if is_n key then number raw else start)
          else start)
        es

  first_budget-concat :
      (es : List (Text × s.RawValue)) (key : Text) (raw : s.RawValue)
      → first_budget (es ++ (key, raw) ∷ [])
        ≡ or_else (first_budget es) (first_budget ((key, raw) ∷ []))
  unfolding first_budget
  first_budget-concat [] key raw = refl
  first_budget-concat ((k, r) ∷ es) key raw = ground (arith, first_budget-concat es key raw)

  last_choices-concat :
      (es : List (Text × s.RawValue)) (start : Option ℕ) (key : Text) (raw : s.RawValue)
      → last_choices start (es ++ (key, raw) ∷ [])
        ≡ last_choices (last_choices start es) ((key, raw) ∷ [])
  unfolding last_choices
  last_choices-concat [] start key raw = refl
  last_choices-concat ((k, r) ∷ es) start key raw = last_choices-concat es _ key raw

  abbrev Collected : List (Text × s.RawValue) → RequestUsage → Type 0
  Collected es usage = (usage.max_tokens ≡ first_budget es) × (usage.choices ≡ last_choices none es)

  visit_request-Collected :
      (done : List (Text × s.RawValue)) (usage : RequestUsage) (key : Text) (raw : s.RawValue)
      (usage' : RequestUsage)
      → Collected done usage
      → visit_request s usage key raw ≡ ok usage'
      → Collected (done ++ (key, raw) ∷ []) usage'
  unfolding visit_request take_usage
  visit_request-Collected done usage key raw usage' c h =
      rw (first_budget-concat done key raw, last_choices-concat done none key raw)
        (unfold first_budget last_choices in ground arith)

  -- A body with the entries `es` that parses to its end: the token budget is the first readable
  -- number under one of its three names, and the choice count is what the last `n` says.
  pub extract_request_usage-Collected :
      (body : Bytes) (es : List (Text × s.RawValue)) (usage : RequestUsage)
      → is_empty body ≡ false
      → s.open_map body ≡ ok (es, none)
      → from_slice_map s (visit_request s) no_usage body ≡ ok usage
      → ((extract_request_usage s body).max_tokens ≡ first_budget es)
        × ((extract_request_usage s body).choices ≡ last_choices none es)
  unfolding extract_request_usage
  extract_request_usage-Collected body es usage full opened parsed =
      rw (full, parsed)
        (visit_map-invariant s Collected (visit_request s) visit_request-Collected [] es no_usage
          none usage (unfold first_budget last_choices in (refl, refl))
          (unfold from_slice_map in ground arith))
