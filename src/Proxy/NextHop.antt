-- ===== src/Proxy/NextHop.antt =====
-- src/proxy.rs and src/auth.rs: a gateway in front of a gateway.
use llm_conduit.Prelude.{
  ◌≡◌, refl, ap, sym, ◌∙◌, [], ◌∷◌, ◌++◌, some, ok, inl, inr, arith, true, All,
}
use llm_conduit.Prelude.Text.{Text, Bytes, codes}
use llm_conduit.Http.{Headers, HeaderLaws, Uris, get_text, get_value, first, is_visible}
use llm_conduit.Config.{Upstream}
use llm_conduit.Auth.{authorization, extract_key}
use llm_conduit.Auth.Bearer.{Word, bearer_of, IsKey, extract_key-bearer_of}
use llm_conduit.Proxy.{Parts, Request, Client, build_request}
use llm_conduit.Proxy.Copied.{Credentials, build_request-IsMapped}

abbrev capital : Word
capital = record {
  b = b'B';
  e = b'e';
  a = b'a';
  r = b'r';
  e' = b'e';
  r' = b'r';
  is_b = inr (omega arith);
  is_e = inl refl;
  is_a = inl refl;
  is_r = inl refl;
  is_e' = inl refl;
  is_r' = inl refl;
}

is_capital : bearer_of capital ≡ codes "Bearer "
unfolding codes
is_capital = refl

All-bearer :
    (key : Text)
    → All (λ c. is_visible c ≡ true) key
    → All (λ c. is_visible c ≡ true) (codes "Bearer " ++ key)
unfolding codes
All-bearer key visible = (refl, (refl, (refl, (refl, (refl, (refl, (refl, visible)))))))

module _ (h : Headers) (laws : HeaderLaws h) where
  text_is :
      (headers : h.HeaderMap) (key : Text) (value : h.HeaderValue)
      → All (λ c. is_visible c ≡ true) key
      → h.from_str (codes "Bearer " ++ key) ≡ some value
      → h.get_all authorization headers ≡ value ∷ []
      → get_text h headers authorization ≡ some (codes "Bearer " ++ key)
  unfolding get_text get_value first
  text_is headers key value visible made is =
      rw is (laws.to_str_from_str (codes "Bearer " ++ key) value (All-bearer key visible) made)

  Credentials-key :
      (headers : h.HeaderMap) (key : Text)
      → IsKey key
      → All (λ c. is_visible c ≡ true) key
      → Credentials h laws (some key) (h.get_all authorization headers)
      → extract_key h headers ≡ some key
  Credentials-key headers key k visible (value, made, is) =
      extract_key-bearer_of h headers capital key k
        (text_is headers key value visible made is ∙ ap (λ t. some (t ++ key)) (sym is_capital))

  -- The key that a gateway puts into the request to an upstream, off which nothing would be trimmed
  -- and which is visible ASCII, is the key that a gateway at the upstream reads out of it, whatever key the caller had presented.
  pub build_request-extract_key :
      (u : Uris) (client : Client h u) (upstream : Upstream u) (parts : Parts h u) (target : u.Uri)
      (body : Bytes) (request : Request h u) (key : Text)
      → build_request h u client upstream parts target body ≡ ok request
      → upstream.api_key ≡ some key
      → IsKey key
      → All (λ c. is_visible c ≡ true) key
      → extract_key h request.headers ≡ some key
  build_request-extract_key u client upstream parts target body request key built keyed k visible =
      let mapped =
        (build_request-IsMapped h laws u client upstream parts target body request built).0 in
      Credentials-key request.headers key k visible (rw keyed at mapped.credentials)
