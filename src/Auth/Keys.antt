-- ===== src/Auth/Keys.antt =====
-- src/auth.rs: who is let through.
use llm_conduit.Prelude.{
  ◌≡◌, ◌≢◌, refl, none, some, true, ok, err, arith, ◌↔◌, inl, inr, Option-cases,
}
use llm_conduit.Prelude.Map.{get}
use llm_conduit.Prelude.Text.{Text}
use llm_conduit.Errors.{GatewayError}
use llm_conduit.Http.{Headers}
use llm_conduit.Config.{AuthConfig}
use llm_conduit.Auth.{extract_key, authenticate}

module _ (h : Headers) where
  -- With authentication enabled, a request is let through exactly if it presents a key that is
  -- configured; it is logged under that key's description. Any other request gets a 401.
  pub record Decided (auth : AuthConfig) (headers : h.HeaderMap) : Type 0 where
    pub accepted :
        (caller : Text)
        → (authenticate h auth headers ≡ ok (some caller))
          ↔ ((key : Text) × (extract_key h headers ≡ some key) × (get key auth.keys ≡ some caller))
    pub rejected : (e : GatewayError) → authenticate h auth headers ≡ err e → e.status ≡ 401
    pub never_anonymous : authenticate h auth headers ≢ ok none

  accepted_of :
      (auth : AuthConfig) (headers : h.HeaderMap) (caller : Text)
      → auth.enabled ≡ true
      → authenticate h auth headers ≡ ok (some caller)
      → (key : Text) × (extract_key h headers ≡ some key) × (get key auth.keys ≡ some caller)
  unfolding authenticate
  accepted_of auth headers caller on e = elim (Option-cases (extract_key h headers)) [
    | inl missing ↦ absurd (ground arith)
    | inr (key, found) ↦ (key, found, ground arith)
  ]

  -- With authentication enabled a request is let through exactly if it presents a configured key,
  -- under the description of that key; every other request is refused with a 401.
  pub authenticate-Decided :
      (auth : AuthConfig) (headers : h.HeaderMap) → auth.enabled ≡ true → Decided auth headers
  unfolding authenticate
  authenticate-Decided auth headers on = record {
    accepted =
        λ caller. (accepted_of auth headers caller on, λ found. rw (on, found.1, found.2) refl);
    rejected = λ e refused. ground arith;
    never_anonymous = λ e. ground arith;
  }
