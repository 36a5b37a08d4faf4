-- ===== src/JsonModel/Rewrite.antt =====
-- src/json_model.rs: what a rewritten body holds.
use mathlib.Core.List.{Memᴰ}
use llm_conduit.Prelude.{
  ◌≡◌, ◌≢◌, refl, List, [], ◌∷◌, Option, none, some, Bool, true, false, ok, if◌then◌else◌, is_empty,
  any, to_option, arith, Bool-cases, Option-cases, and_then-eq-some, to_option-eq-some, ap, ◌↔◌,
  inl, inr, All,
}
use llm_conduit.Prelude.Text.{Text, Bytes, text_eq, text_eq_iff, text_eq_refl}
use llm_conduit.Serde.{SerdeJson, View, string, object, neither, from_slice_map, visit_map}
use llm_conduit.Serde.Read.{SerdeLaws}
use llm_conduit.JsonModel.{
  key_model, take_model, visit_model, extract_model, is_model, rewrite_object, rewrite_view,
  try_rewrite_model,
}

module _ (s : SerdeJson) where
  -- The body was a JSON object `before` with another model, and `rewritten` is how the crate
  -- writes the same object with the new model.
  pub record IsRewrite (body : Bytes) (new_model : Text) (rewritten : Bytes) : Type 0 where
    pub value : s.Value
    pub before : s.Object
    pub old : s.Value
    pub parsed : s.from_slice body ≡ ok value
    pub is_object : s.view value ≡ object before
    pub had_model : s.lookup before key_model ≡ some old
    pub differs : s.view old ≢ string new_model
    pub wrote :
        s.to_vec (s.of_object (s.put before key_model (s.of_string new_model))) ≡ some rewritten

  is_model_self : (v : View s.Object) (t : Text) → is_model s v t ≡ false → v ≢ string t
  unfolding is_model
  is_model_self (string u) t h e = ground (arith, text_eq_iff u t)
  is_model_self (object o) t h e = cc
  is_model_self neither t h e = cc

  Rewritten : s.Object → Text → Bytes → Type 0
  Rewritten o new_model rewritten =
      (old : s.Value) × (s.lookup o key_model ≡ some old)
      × (s.view old ≢ string new_model)
      × (s.to_vec (s.of_object (s.put o key_model (s.of_string new_model))) ≡ some rewritten)

  rewrite_object-Rewritten :
      (o : s.Object) (new_model : Text) (rewritten : Bytes)
      → rewrite_object s o new_model ≡ some rewritten
      → Rewritten o new_model rewritten
  unfolding rewrite_object Rewritten
  rewrite_object-Rewritten o new_model rewritten h = elim (Option-cases (s.lookup o key_model)) [
    | inl absent ↦ ground arith
    | inr (old, found) ↦ elim (Bool-cases (is_model s (s.view old) new_model)) [
      | inl same ↦ ground arith
      | inr other ↦ (old, found, is_model_self (s.view old) new_model other, ground arith)
    ]
  ]

  rewrite_view-object :
      (v : View s.Object) (new_model : Text) (rewritten : Bytes)
      → rewrite_view s v new_model ≡ some rewritten
      → (o : s.Object) × (v ≡ object o) × (rewrite_object s o new_model ≡ some rewritten)
  unfolding rewrite_view
  rewrite_view-object (object o) new_model rewritten h = (o, refl, h)
  rewrite_view-object (string t) new_model rewritten h = cc
  rewrite_view-object neither new_model rewritten h = cc

  IsRewrite-of_try :
      (body : Bytes) (new_model : Text) (rewritten : Bytes)
      → try_rewrite_model s body new_model ≡ some rewritten
      → IsRewrite body new_model rewritten
  unfolding try_rewrite_model Rewritten
  IsRewrite-of_try body new_model rewritten h =
      let (value, parsed, viewed) = and_then-eq-some (to_option (s.from_slice body)) _ h in
      let (o, is_object, r) = rewrite_view-object (s.view value) new_model rewritten viewed in
      let (old, had, differs, wrote) = rewrite_object-Rewritten o new_model rewritten r in
      record {
        value = value;
        before = o;
        old = old;
        parsed = to_option-eq-some (s.from_slice body) parsed;
        is_object = is_object;
        had_model = had;
        differs = differs;
        wrote = wrote;
      }

  is_model-other : (v : View s.Object) (t : Text) → v ≢ string t → is_model s v t ≡ false
  unfolding is_model
  is_model-other (string u) t h = elim (Bool-cases (text_eq u t)) [
    | inl same ↦ absurd (h (ap string ((text_eq_iff u t).0 same)))
    | inr other ↦ other
  ]
  is_model-other (object o) t h = refl
  is_model-other neither t h = refl

  try_of_IsRewrite :
      (body : Bytes) (new_model : Text) (rewritten : Bytes)
      → IsRewrite body new_model rewritten
      → try_rewrite_model s body new_model ≡ some rewritten
  unfolding try_rewrite_model rewrite_view rewrite_object
  try_of_IsRewrite body new_model rewritten r =
      rw (r.parsed, r.is_object, rewrite_view, rewrite_object, r.had_model)
        (rw (is_model-other (s.view r.old) new_model r.differs) r.wrote)

  -- A body is rewritten exactly if it is an object that has a model, and another one than the new
  -- one; what is sent instead is the same object with the new model.
  pub try_rewrite_model_iff :
      (body : Bytes) (new_model : Text) (rewritten : Bytes)
      → (try_rewrite_model s body new_model ≡ some rewritten) ↔ IsRewrite body new_model rewritten
  try_rewrite_model_iff body new_model rewritten =
      (IsRewrite-of_try body new_model rewritten, try_of_IsRewrite body new_model rewritten)

  module _ (laws : SerdeLaws s) (new_model : Text) (named : is_empty new_model ≡ false) where
    abbrev Reads : s.Object → Text × s.RawValue → Type 0
    Reads o e =
        (s.skip e.1 ≡ ok tt) × ((v : s.Value) × (s.read e.1 ≡ ok v) × (s.lookup o e.0 ≡ some v))

    abbrev names_model : List (Text × s.RawValue) → Bool
    names_model = any (λ e. text_eq e.0 key_model)

    take_new : (model : Option Text) → take_model s model (string new_model) ≡ some new_model
    unfolding take_model
    take_new model = rw named

    read_new :
        (o : s.Object) (key : Text) (v : s.Value) (model : Option Text)
        → s.lookup o key_model ≡ some (s.of_string new_model)
        → text_eq key key_model ≡ true
        → s.lookup o key ≡ some v
        → take_model s model (s.view v) ≡ some new_model
    read_new o key v model h same found =
        let here : s.lookup o key_model ≡ some v =
          rw ((text_eq_iff key key_model).0 same) at found in
        let is_new : v ≡ s.of_string new_model = cc in
        rw (is_new, laws.view_of_string new_model) (take_new model)

    visit_entry :
        (o : s.Object) (key : Text) (raw : s.RawValue) (model : Option Text)
        → s.lookup o key_model ≡ some (s.of_string new_model)
        → Reads o (key, raw)
        → visit_model s model key raw ≡ ok (if text_eq key key_model then some new_model else model)
    unfolding visit_model
    visit_entry o key raw model h (skipped, (v, read, found)) =
        elim (Bool-cases (text_eq key key_model)) [
          | inl same ↦ rw (same, read) (ap ok (read_new o key v model h same found))
          | inr other ↦ rw (other, skipped)
        ]

    -- The loop over the entries of an object whose model is the new one.
    visit_new :
        (o : s.Object) (es : List (Text × s.RawValue)) (model : Option Text)
        → s.lookup o key_model ≡ some (s.of_string new_model)
        → All (Reads o) es
        → visit_map s (visit_model s) model es none
          ≡ ok (if names_model es then some new_model else model)
    unfolding visit_map
    visit_new o [] model h reads = refl
    visit_new o ((key, raw) ∷ es) model h reads = rw (visit_entry o key raw model h reads.0) (
        rw (visit_new o es (if text_eq key key_model then some new_model else model) h reads.1)
          (ground arith))

    names_model_of_mem :
        {raw : s.RawValue} {es : List (Text × s.RawValue)}
        → Memᴰ (key_model, raw) es
        → names_model es ≡ true
    names_model_of_mem (Memᴰ.head {x} {xs} e) =
        let same : key_model ≡ x.0 = ap (λ z. z.0) e in rw (← same, text_eq_refl key_model) refl
    names_model_of_mem (Memᴰ.tail {x} {xs} m) = ground (arith, names_model_of_mem m)

    -- A rewritten body that is not empty names the new model, as `extract_model` reads it, if the
    -- new model is not the empty text.
    pub extract_model-try_rewrite_model :
        (body rewritten : Bytes)
        → is_empty rewritten ≡ false
        → try_rewrite_model s body new_model ≡ some rewritten
        → extract_model s rewritten ≡ some new_model
    unfolding extract_model from_slice_map
    extract_model-try_rewrite_model body rewritten full h =
        let r = IsRewrite-of_try body new_model rewritten h in
        let after = s.put r.before key_model (s.of_string new_model) in
        let w = laws.written after rewritten r.wrote in
        let new : s.lookup after key_model ≡ some (s.of_string new_model) =
          rw (laws.lookup_put, text_eq_refl key_model) refl in
        let (raw, m) = w.complete key_model (s.of_string new_model) new in
        rw (full, w.opens, visit_new after w.entries none new w.reads, names_model_of_mem m)
