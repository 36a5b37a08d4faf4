-- ===== src/Health/Probes.antt =====
-- src/health.rs: when the functional probe of an upstream succeeds.
use llm_conduit.Prelude.{
  ℕ, ◌≡◌, refl, sym, ap, ◌∙◌, true, ok, arith, Bool-cases, Result-cases, inl, inr, ◌↔◌, bind-eq-ok,
  ok-injective, map_err, map_err-eq-ok,
}
use llm_conduit.Prelude.Text.{Text}
use llm_conduit.Http.{Uris}
use llm_conduit.Config.{Upstream, target_uri}
use llm_conduit.Health.{
  Network, Timed, elapsed, failed, finished, timed, models_path, is_success, bearer, Probed,
  checked, models_status, models_probe,
}

timed-finished :
    {A : Type 0} (late broken : Text) (t : Timed A) (a : A)
    → timed late broken t ≡ ok a
    → t ≡ finished a
timed-finished late broken elapsed a h = cc
timed-finished late broken (failed e) a h = cc
timed-finished late broken (finished b) a h = cc

module _ (u : Uris) (net : Network u) where
  -- The upstream answers `GET /v1/models`, with its own key, by a 2xx status within the timeout, and
  -- the body of the answer ends.
  pub record IsServing (upstream : Upstream u) (timeout : ℕ) : Type 0 where
    pub target : u.Uri
    pub target_is : target_uri u upstream (net.static_uri models_path) ≡ ok target
    pub built : net.builds target (bearer u net upstream.api_key) ≡ ok tt
    pub status : ℕ
    pub answered : net.get_status target (bearer u net upstream.api_key) timeout ≡ finished status
    pub success : is_success status ≡ true
    pub drained : net.body_ends target (bearer u net upstream.api_key) ≡ true

  -- The probe returns, with success.
  abbrev pub Succeeds : Probed u → Type 0
  Succeeds p = (p.returns ≡ true) × (p.outcome ≡ ok tt)

  success-of_checked : (status : ℕ) → checked u net status ≡ ok tt → is_success status ≡ true
  unfolding checked
  success-of_checked status e = elim (Bool-cases (is_success status)) [
    | inl good ↦ good
    | inr bad ↦ absurd (ground arith)
  ]

  IsServing-of_status :
      (upstream : Upstream u) (timeout : ℕ) (target : u.Uri) (status : ℕ)
      → models_status u net upstream timeout ≡ ok (target, status)
      → is_success status ≡ true
      → net.body_ends target (bearer u net upstream.api_key) ≡ true
      → IsServing upstream timeout
  unfolding models_status
  IsServing-of_status upstream timeout target status h good ends =
      let (there, targeted, e₁) =
        bind-eq-ok (map_err _ (target_uri u upstream (net.static_uri models_path))) _ h in
      let (_, built, e₂) = bind-eq-ok (map_err _ (net.builds there _)) _ e₁ in
      let (code, answered, e₃) = bind-eq-ok (timed _ _ (net.get_status there _ timeout)) _ e₂ in
      let same : (there, code) ≡ (target, status) = ok-injective e₃ in
      let same_target : target ≡ there = ap (λ z. z.0) (sym same) in
      record {
        target = there;
        target_is = map_err-eq-ok _ _ targeted;
        built = map_err-eq-ok _ _ built;
        status = code;
        answered = timed-finished _ _ _ code answered;
        success = ap (λ z. is_success z.1) same ∙ good;
        drained = ap (λ z. net.body_ends z.0 (bearer u net upstream.api_key)) same ∙ ends;
      }

  IsServing-of_probe :
      (upstream : Upstream u) (timeout : ℕ)
      → Succeeds (models_probe u net upstream timeout)
      → IsServing upstream timeout
  unfolding models_probe
  IsServing-of_probe upstream timeout h =
      elim (Result-cases (models_status u net upstream timeout)) [
        | inl ((target, status), answered) ↦
            let (returned, good) = rw (answered, models_probe) at h in
            IsServing-of_status upstream timeout target status answered
              (success-of_checked status good) returned
        | inr (e, broken) ↦ let (returned, good) = rw (broken, models_probe) at h in cc
      ]

  models_status-of_IsServing :
      (upstream : Upstream u) (timeout : ℕ) (r : IsServing upstream timeout)
      → models_status u net upstream timeout ≡ ok (r.target, r.status)
  unfolding models_status
  models_status-of_IsServing upstream timeout r = rw (r.target_is, r.built, r.answered) refl

  probe-of_IsServing :
      (upstream : Upstream u) (timeout : ℕ)
      → IsServing upstream timeout
      → Succeeds (models_probe u net upstream timeout)
  unfolding models_probe checked
  probe-of_IsServing upstream timeout r =
      rw (models_status-of_IsServing upstream timeout r, models_probe)
        (r.drained, rw r.success refl)

  -- The functional probe of an upstream returns with success exactly if its address and the request
  -- can be built, the upstream answers `GET /v1/models`, which carries its own key, with a 2xx status
  -- within the timeout, and the body of that answer ends, however long it takes.
  pub models_probe_iff :
      (upstream : Upstream u) (timeout : ℕ)
      → Succeeds (models_probe u net upstream timeout) ↔ IsServing upstream timeout
  models_probe_iff upstream timeout =
      (IsServing-of_probe upstream timeout, probe-of_IsServing upstream timeout)
