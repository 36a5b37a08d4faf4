-- ===== src/Config/Order.antt =====
-- src/config.rs: `resolve_upstreams` keeps the names of the configuration, in their order.
use mathlib.Core.List.{append-nil, append_assoc}
use llm_conduit.Prelude.{
  ◌≡◌, refl, sym, ap, ◌∙◌, [], ◌∷◌, ◌++◌, none, true, false, ok, All, All-append, arith, Bool-cases,
  inl, inr, bind-eq-ok, ok-injective,
}
use llm_conduit.Prelude.Map.{Map, get, insert, keys, text_lt}
use llm_conduit.Prelude.Text.{Text, text_eq, text_eq_iff}
use llm_conduit.Http.{Uris}
use llm_conduit.Config.{
  Config, UpstreamConfig, Upstream, from_config, resolve_from, resolve_upstreams,
}
use llm_conduit.Config.Upstreams.{IsUnique}

-- A `BTreeMap` holds its keys in ascending order.
abbrev pub Ascending {ℓ} : {V : Type ℓ} → Map V → Type 0
Ascending [] = Unit
Ascending ((k, v) ∷ m) = All (λ e. text_lt k e.0 ≡ true) m × Ascending m

text_lt_irrefl : (s : Text) → text_lt s s ≡ false
unfolding text_lt
text_lt_irrefl [] = refl
text_lt_irrefl (c ∷ s) = ground (arith, text_lt_irrefl s)

text_lt-asym : (s t : Text) → text_lt s t ≡ true → text_lt t s ≡ false
unfolding text_lt
text_lt-asym [] [] h = refl
text_lt-asym [] (c ∷ t) h = refl
text_lt-asym (c ∷ s) [] h = cc
text_lt-asym (c ∷ s) (d ∷ t) h = ground (arith, text_lt-asym s t)

text_lt-ne : (s t : Text) → text_lt s t ≡ true → text_eq s t ≡ false
text_lt-ne s t h = elim (Bool-cases (text_eq s t)) [
  | inl same ↦
      let eq : s ≡ t = (text_eq_iff s t).0 same in
      let loop : text_lt s s ≡ true = rw (← eq) at h in absurd (ground (arith, text_lt_irrefl s))
  | inr different ↦ different
]

module _ {ℓ} {V : Type ℓ} where
  -- A key behind all others is inserted at the end.
  insert-last :
      (k : Text) (v : V) (m : Map V)
      → All (λ e. text_lt e.0 k ≡ true) m
      → insert k v m ≡ m ++ (k, v) ∷ []
  unfolding insert
  insert-last k v [] h = refl
  insert-last k v ((j, w) ∷ m) h =
      rw (text_lt-ne j k h.0, text_lt-asym j k h.0) (ap (◌∷◌ (j, w)) (insert-last k v m h.1))

  keys-append : (m n : Map V) → keys (m ++ n) ≡ keys m ++ keys n
  unfolding keys
  keys-append [] n = refl
  keys-append ((k, v) ∷ m) n = ap (◌∷◌ k) (keys-append m n)

  get-behind : (k : Text) (m : Map V) → All (λ e. text_lt k e.0 ≡ true) m → get k m ≡ none
  unfolding get
  get-behind k [] h = refl
  get-behind k ((j, v) ∷ m) h =
      let different : text_eq j k ≡ false =
        ground (arith, text_lt-ne k j h.0, text_eq_iff j k, text_eq_iff k j) in
      rw different (get-behind k m h.1)

  pub Ascending-IsUnique : (m : Map V) → Ascending m → IsUnique m
  Ascending-IsUnique [] a = tt
  Ascending-IsUnique ((k, v) ∷ m) a = (get-behind k m a.0, Ascending-IsUnique m a.1)

module _ (u : Uris) where
  -- Every name that was resolved stands in front of all that are left.
  abbrev Front : Map (Upstream u) → Map UpstreamConfig → Type 0
  Front before m = All (λ e. All (λ b. text_lt b.0 e.0 ≡ true) before) m

  Front-snoc :
      (name : Text) (up : Upstream u) (before : Map (Upstream u)) (m : Map UpstreamConfig)
      → Front before m
      → All (λ e. text_lt name e.0 ≡ true) m
      → Front (before ++ (name, up) ∷ []) m
  Front-snoc name up before [] f a = tt
  Front-snoc name up before (e ∷ m) f a = (
    All-append (λ b. text_lt b.0 e.0 ≡ true) before ((name, up) ∷ []) f.0 (a.0, tt),
    Front-snoc name up before m f.1 a.1,
  )

  Front-nil : (m : Map UpstreamConfig) → Front [] m
  Front-nil [] = tt
  Front-nil (e ∷ m) = (tt, Front-nil m)

  resolve_from-keys :
      (m : Map UpstreamConfig) (before resolved : Map (Upstream u))
      → Ascending m
      → Front before m
      → resolve_from u before m ≡ ok resolved
      → keys resolved ≡ keys before ++ keys m
  unfolding resolve_from
  resolve_from-keys [] before resolved a f e =
      ap keys (sym (ok-injective e)) ∙ sym (append-nil (keys before)) ∙ unfold keys in refl
  resolve_from-keys ((name, cfg) ∷ m) before resolved a f e =
      let (up, made, rest) = bind-eq-ok (from_config u name cfg) _ e in
      let at_end : insert name up before ≡ before ++ (name, up) ∷ [] =
        insert-last name up before f.0 in
      resolve_from-keys m (before ++ (name, up) ∷ []) resolved a.1
        (Front-snoc name up before m f.1 a.0) (rw at_end at rest)
      ∙ ap (λ ks. ks ++ keys m) (keys-append before ((name, up) ∷ []))
      ∙ unfold keys in append_assoc (keys before) (name ∷ []) (keys m)

  -- The names of the resolved upstreams are those of the configuration, in the same order, if that
  -- is ascending, as it is in a `BTreeMap`.
  pub resolve_upstreams-keys :
      (config : Config) (resolved : Map (Upstream u))
      → Ascending config.upstreams
      → resolve_upstreams u config ≡ ok resolved
      → keys resolved ≡ keys config.upstreams
  unfolding resolve_upstreams
  resolve_upstreams-keys config resolved a e =
      resolve_from-keys config.upstreams [] resolved a (Front-nil config.upstreams) e
      ∙ unfold keys in refl
