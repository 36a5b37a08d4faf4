-- ===== src/Proxy/Entries.antt =====
-- src/proxy.rs: which headers `copy_headers` copies.
use mathlib.Core.List.{append-nil, append_assoc}
use llm_conduit.Prelude.{
  ◌≡◌, refl, sym, ◌∙◌, List, [], ◌∷◌, ◌++◌, if◌then◌else◌, Bool-cases, inl, inr,
}
use llm_conduit.Prelude.Text.{Text, text_eq, text_eq_iff, text_eq_refl}
use llm_conduit.Http.{Headers, HeaderLaws, values_of}
use llm_conduit.Proxy.{connection_tokens, is_stripped, copy_entries, copy_headers}

module _ (h : Headers) (laws : HeaderLaws h) where
  -- The values of a name that the copy adds.
  abbrev kept : List Text → List Text → Text → List h.HeaderValue → List h.HeaderValue
  kept tokens extra key values = if is_stripped h tokens extra key then [] else values

  -- One entry of the loop, at the values of a name.
  kept-cons :
      (tokens extra : List Text) (name : Text) (value : h.HeaderValue) (values : List h.HeaderValue)
      (target : h.HeaderMap) (key : Text)
      → h.get_all key
            (if is_stripped h tokens extra name then target else h.append name value target)
          ++ kept tokens extra key values
        ≡ h.get_all key target
          ++ kept tokens extra key (if text_eq name key then value ∷ values else values)
  kept-cons tokens extra name value values target key = elim (Bool-cases (text_eq name key)) [
    | inl same ↦
        let eq : name ≡ key = (text_eq_iff name key).0 same in
        elim (Bool-cases (is_stripped h tokens extra key)) [
          | inl stripped ↦ rw (eq, stripped) refl
          | inr stays ↦
              let added = laws.get_all_append key key value target in
              rw (eq, stays)
                (rw (added, text_eq_refl key)
                  (append_assoc (h.get_all key target) (value ∷ []) values))
        ]
    | inr different ↦ elim (Bool-cases (is_stripped h tokens extra name)) [
      | inl stripped ↦ rw (stripped, different)
      | inr stays ↦
          let added = laws.get_all_append name key value target in rw (stays, added, different)
    ]
  ]

  copy_entries-kept :
      (tokens extra : List Text) (es : List (Text × h.HeaderValue)) (target : h.HeaderMap)
      (key : Text)
      → h.get_all key (copy_entries h tokens extra es target)
        ≡ h.get_all key target ++ kept tokens extra key (values_of key es)
  unfolding copy_entries values_of
  copy_entries-kept tokens extra [] target key =
      elim (Bool-cases (is_stripped h tokens extra key)) [
        | inl stripped ↦ rw stripped (sym (append-nil _))
        | inr kept_here ↦ rw kept_here (sym (append-nil _))
      ]
  copy_entries-kept tokens extra ((name, value) ∷ es) target key =
      copy_entries-kept tokens extra es
        (if is_stripped h tokens extra name then target else h.append name value target) key
      ∙ kept-cons tokens extra name value (values_of key es) target key

  -- What `copy_headers` adds to the values of a name: nothing, if the name is one of the hop-by-hop
  -- headers, of those to strip, or of those that `Connection` names, and all of the source's values
  -- in their order otherwise.
  pub copy_headers-kept :
      (source target : h.HeaderMap) (extra : List Text) (key : Text)
      → h.get_all key (copy_headers h source target extra)
        ≡ h.get_all key target
          ++ (if is_stripped h (connection_tokens h source) extra key
              then []
              else h.get_all key source)
  unfolding copy_headers
  copy_headers-kept source target extra key =
      copy_entries-kept (connection_tokens h source) extra (h.iter source) target key
      ∙ rw (laws.values_of_iter key source)
