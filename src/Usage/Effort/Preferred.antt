-- ===== src/Usage/Effort/Preferred.antt =====
-- src/usage.rs: the effort that `EffortVisitor` keeps, among all that the body offers.
use mathlib.Core.List.{append_assoc}
use llm_conduit.Prelude.{
  ℕ, ◌-◌, ◌≤◌, ◌<◌, ◌≡◌, refl, List, [], ◌∷◌, ◌++◌, Option, none, some, true, false, ok, ltb,
  if◌then◌else◌, is_empty, and_then, to_option, All, All-append, All-weaken, arith, length,
  Bool-cases, Option-cases, Result-cases, inl, inr, ltb→lt,
}
use llm_conduit.Prelude.Text.{Text, Bytes, position}
use llm_conduit.Serde.{SerdeJson, from_slice_map}
use llm_conduit.Serde.Read.{visit_map-invariant}
use llm_conduit.Usage.Types.{u64_mod}
use llm_conduit.Usage.Effort.{
  effort_keys, EffortState, no_effort, effort_candidate, take_effort, visit_effort, extract_effort,
}

pub position-lt : (ts : List Text) (key : Text) (i : ℕ) → position ts key ≡ some i → i < length ts
unfolding position
position-lt [] key i h = cc
position-lt (t ∷ ts) key i h = elim (Option-cases (position ts key)) [
  | inl absent ↦ ground arith
  | inr (j, found) ↦ ground (arith, position-lt ts key j found)
]

module _ (s : SerdeJson) where
  -- What an entry offers: the rank of its key and its usable effort.
  abbrev pub offer : Text × s.RawValue → Option (ℕ × Text)
  offer (key, raw) =
      and_then (position effort_keys key)
        λ i. and_then (to_option (s.read raw)) λ v. and_then (effort_candidate s v) λ t. some (i, t)

  abbrev pub LessPreferred : ℕ → Option (ℕ × Text) → Type 0
  LessPreferred rank none = Unit
  LessPreferred rank (some (i, t)) = rank < i

  abbrev pub NotPreferred : ℕ → Option (ℕ × Text) → Type 0
  NotPreferred rank none = Unit
  NotPreferred rank (some (i, t)) = rank ≤ i

  -- Among the entries the first of the most authoritative key: what stands before it is less
  -- authoritative, what stands behind it is not more so.
  pub record IsPreferred (entries : List (Text × s.RawValue)) (rank : ℕ) (effort : Text)
      : Type 0 where
    pub before : List (Text × s.RawValue)
    pub entry : Text × s.RawValue
    pub after : List (Text × s.RawValue)
    pub splits : entries ≡ before ++ entry ∷ after
    pub offers : offer entry ≡ some (rank, effort)
    pub earlier : All (λ e. LessPreferred rank (offer e)) before
    pub later : All (λ e. NotPreferred rank (offer e)) after

  abbrev pub Kept : List (Text × s.RawValue) → ℕ → Option Text → Type 0
  Kept entries rank none = All (λ e. offer e ≡ none) entries × (rank ≡ u64_mod - 1)
  Kept entries rank (some effort) = IsPreferred entries rank effort

  LessPreferred-of_NotPreferred :
      (a b : ℕ) (o : Option (ℕ × Text)) → b < a → NotPreferred a o → LessPreferred b o
  LessPreferred-of_NotPreferred a b none h p = tt
  LessPreferred-of_NotPreferred a b (some (i, t)) h p = omega arith

  LessPreferred-mono :
      (a b : ℕ) (o : Option (ℕ × Text)) → b < a → LessPreferred a o → LessPreferred b o
  LessPreferred-mono a b none h p = tt
  LessPreferred-mono a b (some (i, t)) h p = omega arith

  abbrev apply : Option (ℕ × Text) → EffortState → EffortState
  apply none st = st
  apply (some (i, t)) st = if ltb i st.rank then record { effort = some t; rank = i } else st

  visit_effort-apply :
      (st st' : EffortState) (key : Text) (raw : s.RawValue)
      → visit_effort s st key raw ≡ ok st'
      → st' ≡ apply (offer (key, raw)) st
  unfolding visit_effort take_effort
  visit_effort-apply st st' key raw h = elim (Option-cases (position effort_keys key)) [
    | inl absent ↦ ground arith
    | inr (i, found) ↦ elim (Result-cases (s.read raw)) [
      | inl (v, read) ↦ elim (Option-cases (effort_candidate s v)) [
        | inl unusable ↦ ground arith
        | inr (t, usable) ↦ ground arith
      ]
      | inr (f, failed) ↦ ground arith
    ]
  ]

  offer-lt : (e : Text × s.RawValue) (i : ℕ) (t : Text) → offer e ≡ some (i, t) → i < 4
  offer-lt (key, raw) i t h = elim (Option-cases (position effort_keys key)) [
    | inl absent ↦ ground arith
    | inr (j, found) ↦ elim (Result-cases (s.read raw)) [
      | inl (v, read) ↦ elim (Option-cases (effort_candidate s v)) [
        | inl unusable ↦ ground arith
        | inr (u, usable) ↦ ground (arith, position-lt effort_keys key j found)
      ]
      | inr (f, failed) ↦ ground arith
    ]
  ]

  Kept-keep :
      (done : List (Text × s.RawValue)) (e : Text × s.RawValue) (rank : ℕ) (effort : Text)
      → NotPreferred rank (offer e)
      → IsPreferred done rank effort
      → IsPreferred (done ++ e ∷ []) rank effort
  Kept-keep done e rank effort h k = record {
    before = k.before;
    entry = k.entry;
    after = k.after ++ e ∷ [];
    splits = rw k.splits (append_assoc k.before (k.entry ∷ k.after) (e ∷ []));
    offers = k.offers;
    earlier = k.earlier;
    later = All-append (λ e. NotPreferred rank (offer e)) k.after (e ∷ []) k.later (h, tt);
  }

  IsPreferred-new :
      (done : List (Text × s.RawValue)) (e : Text × s.RawValue) (i : ℕ) (t : Text)
      → offer e ≡ some (i, t)
      → All (λ e. LessPreferred i (offer e)) done
      → IsPreferred (done ++ e ∷ []) i t
  IsPreferred-new done e i t h all = record {
    before = done;
    entry = e;
    after = [];
    splits = refl;
    offers = h;
    earlier = all;
    later = tt;
  }

  LessPreferred-done :
      (done : List (Text × s.RawValue)) (rank i : ℕ) (effort : Text)
      → i < rank
      → IsPreferred done rank effort
      → All (λ e. LessPreferred i (offer e)) done
  LessPreferred-done done rank i effort lt k = rw k.splits (
      All-append (λ e. LessPreferred i (offer e)) k.before (k.entry ∷ k.after)
        (All-weaken _ _ (λ e. LessPreferred-mono rank i (offer e) lt) k.before k.earlier)
        (
          rw k.offers lt,
          All-weaken _ _ (λ e. LessPreferred-of_NotPreferred rank i (offer e) lt) k.after k.later,
        ))

  Kept-apply :
      (done : List (Text × s.RawValue)) (e : Text × s.RawValue) (rank : ℕ) (effort : Option Text)
      (o : Option (ℕ × Text))
      → offer e ≡ o
      → Kept done rank effort
      → (let st = apply o (record { effort = effort; rank = rank }) in
          Kept (done ++ e ∷ []) st.rank st.effort)
  Kept-apply done e rank none none oe k =
      (All-append (λ e. offer e ≡ none) done (e ∷ []) k.0 (oe, tt), k.1)
  Kept-apply done e rank (some t) none oe k = Kept-keep done e rank t (rw oe tt) k
  Kept-apply done e rank none (some (i, t)) oe k =
      let first : ltb i rank ≡ true = ground (arith, offer-lt e i t oe, k.1) in
      rw first
        (IsPreferred-new done e i t oe (All-weaken _ _ (λ e none_here. rw none_here tt) done k.0))
  Kept-apply done e rank (some u) (some (i, t)) oe k = elim (Bool-cases (ltb i rank)) [
    | inl better ↦
        rw better
          (IsPreferred-new done e i t oe (LessPreferred-done done rank i u (ltb→lt _ _ better) k))
    | inr not_better ↦ rw not_better (Kept-keep done e rank u (rw oe (ground arith)) k)
  ]

  Kept-step :
      (done : List (Text × s.RawValue)) (st : EffortState) (key : Text) (raw : s.RawValue)
      (st' : EffortState)
      → Kept done st.rank st.effort
      → visit_effort s st key raw ≡ ok st'
      → Kept (done ++ (key, raw) ∷ []) st'.rank st'.effort
  Kept-step done st key raw st' k h =
      rw (visit_effort-apply st st' key raw h)
        (Kept-apply done (key, raw) st.rank st.effort (offer (key, raw)) refl k)

  -- A body with the entries `es` that parses to its end: the effort that is read out of it is the
  -- first usable one of the most authoritative key that has one, whatever the order of the keys;
  -- it is absent only if no entry offers a usable effort. A value is usable if it is a string that is
  -- not blank, or an object in which `type`, or `effort` where there is no `type`, is one; any other
  -- value of a more authoritative key is passed over.
  pub extract_effort-Kept :
      (body : Bytes) (es : List (Text × s.RawValue)) (st : EffortState)
      → is_empty body ≡ false
      → s.open_map body ≡ ok (es, none)
      → from_slice_map s (visit_effort s) no_effort body ≡ ok st
      → (extract_effort s body ≡ st.effort) × Kept es st.rank st.effort
  unfolding extract_effort
  extract_effort-Kept body es st full opened parsed = (
    rw (full, parsed),
    visit_map-invariant s (λ done st. Kept done st.rank st.effort) (visit_effort s) Kept-step [] es
        no_effort none st (tt, refl) (unfold from_slice_map in ground arith),
  )
