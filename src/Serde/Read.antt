-- ===== src/Serde/Read.antt =====
-- The invariant rule of the visitors' loop, and the documented behaviour of `serde_json` that the
-- theorems on rewritten bodies rely on.
use mathlib.Core.List.{append-nil, append_assoc, Memᴰ}
use mathlib.Core.Path.{subst}
use llm_conduit.Prelude.{
  ◌≡◌, List, [], ◌∷◌, ◌++◌, Option, none, some, ok, All, bind-eq-ok, if◌then◌else◌,
}
use llm_conduit.Prelude.Text.{Text, Bytes, text_eq}
use llm_conduit.Serde.{SerdeJson, Visit, visit_map, Failure, string}

module _ (s : SerdeJson) {S : Type 0} where
  -- What every round keeps, of the entries read so far, holds at the end of the document.
  pub visit_map-invariant {ℓ} :
      (P : List (Text × s.RawValue) → S → Type ℓ) (step : Visit s S)
      → ((read : List (Text × s.RawValue)) (st : S) (key : Text) (raw : s.RawValue) (st' : S)
          → P read st
          → step st key raw ≡ ok st'
          → P (read ++ (key, raw) ∷ []) st')
      → (read es : List (Text × s.RawValue)) (st : S) (end : Option Failure) (st' : S) → P read st
      → visit_map s step st es end ≡ ok st'
      → P (read ++ es) st'
  unfolding visit_map
  visit_map-invariant P step keep read [] st none st' h e = rw append-nil (subst (P read) (cc) h)
  visit_map-invariant P step keep read [] st (some f) st' h e = cc
  visit_map-invariant P step keep read ((key, raw) ∷ es) st end st' h e =
      let (mid, stepped, rest) = bind-eq-ok (step st key raw) (λ m. visit_map s step m es end) e in
      rw append_assoc at (
        visit_map-invariant P step keep (read ++ (key, raw) ∷ []) es mid end st'
          (keep read st key raw mid h stepped) rest)

-- A document that was written from an object: it opens, each of its entries reads back as the
-- object's value at that key, and each key of the object is among them.
pub record Written (s : SerdeJson) (o : s.Object) (body : Bytes) : Type 0 where
  pub entries : List (Text × s.RawValue)
  pub opens : s.open_map body ≡ ok (entries, none)
  pub reads :
      All
        (λ e.
          (s.skip e.1 ≡ ok tt) × ((v : s.Value) × (s.read e.1 ≡ ok v) × (s.lookup o e.0 ≡ some v)))
        entries
  pub complete :
      (key : Text) (v : s.Value)
      → s.lookup o key ≡ some v
      → (raw : s.RawValue) × Memᴰ (key, raw) entries

-- Documented behaviour of `Value`, `Map` and `to_vec`.
pub record SerdeLaws (s : SerdeJson) : Type 0 where
  pub view_of_string : (t : Text) → s.view (s.of_string t) ≡ string t
  pub lookup_put :
      (o : s.Object) (key other : Text) (v : s.Value)
      → s.lookup (s.put o key v) other ≡ (if text_eq key other then some v else s.lookup o other)
  pub written :
      (o : s.Object) (body : Bytes) → s.to_vec (s.of_object o) ≡ some body → Written s o body
