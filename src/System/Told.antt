-- ===== src/System/Told.antt =====
-- src/server.rs and src/health.rs: what `/readyz` told its callers, whenever they asked.
use mathlib.Core.Path.{subst}
use mathlib.Core.List.{append-nil}
use llm_conduit.Prelude.{ℕ, ◌≡◌, refl, sym, ap, ◌∙◌, List, [], ◌∷◌, ◌++◌, Option, Bool, All, map}
use llm_conduit.Prelude.Map.{keys}
use llm_conduit.Prelude.Text.{Text, Bytes}
use llm_conduit.Body.{Body}
use llm_conduit.Http.{Headers, Uris}
use llm_conduit.Serde.{SerdeJson}
use llm_conduit.Health.{Joined, HealthState, new_state, record_all, readyz}
use llm_conduit.Health.Ready.{IsAnswer, readyz-record_all}
use llm_conduit.Health.Loop.{new_prober, of_turn}
use llm_conduit.Health.Loop.Recorded.{health-Turn, record_all-append}
use llm_conduit.Proxy.{Parts}
use llm_conduit.Gateway.{Gateway, handle}
use llm_conduit.Gateway.Serve.{alive, readiness, Served, answered, proxied, serve}
use llm_conduit.Gateway.Serve.Fronted.{lives, reports, handles, serve-IsServed}
use llm_conduit.Server
use llm_conduit.Server.{
  handled, accept, accept_failed, signal, handshake_done, handshake_failed, answer, last_answer,
  close, close_told, shut_down,
}
use llm_conduit.System.{State, initial, Step, serves, probes, of_step, Reach, start, step}

module _ (h : Headers) (u : Uris) (s : SerdeJson) (from_static : Text → h.HeaderValue) where
  -- A readiness that is answered when the probes `js` were joined is what they found.
  abbrev pub IsTold : List Text → List Joined → Served h u s from_static → Type 0
  IsTold names js (answered alive) = Unit
  IsTold names js (answered (readiness r)) = (now : ℕ) × IsAnswer names js now r
  IsTold names js (proxied a) = Unit

  serve-IsTold :
      (names : List Text) (js : List Joined) (health : HealthState) (now : ℕ)
      (render : Text → Bytes) (g : Gateway h u s from_static) (random : Option Bytes)
      (nanos started : ℕ) (parts : Parts h u) (body : Body)
      → health ≡ record_all (new_state names) js
      → IsTold names js
          (serve h u s from_static health now render g random nanos started parts body)
  serve-IsTold names js health now render g random nanos started parts body known =
      let told =
        λ (a : Served h u s from_static)
            (e : serve h u s from_static health now render g random nanos started parts body ≡ a)
            (t : IsTold names js a).
          subst (IsTold names js) (sym e) t in
      elim (serve-IsServed h u s from_static health now render g random nanos started parts body) [
        | lives asked at e ↦ told (answered alive) e tt
        | reports asked at e ↦
            told (answered (readiness (readyz health now g.config.server.health.enabled))) e
              (now, rw known (readyz-record_all names js now g.config.server.health.enabled))
        | handles other e ↦
            told (proxied (handle h u s from_static render g random nanos started parts body)) e tt
      ]

  -- An answer, with the probes that were joined when it was given.
  abbrev pub Asked : Type 0
  Asked = List Joined × Served h u s from_static

  asked_with : List Joined → List (Served h u s from_static) → List Asked
  asked_with js [] = []
  asked_with js (a ∷ answers) = (js, a) ∷ asked_with js answers

  answers_with :
      (js : List Joined) (answers : List (Served h u s from_static)) (rest : List Asked)
      → map (λ x. x.1) (asked_with js answers ++ rest) ≡ answers ++ map (λ x. x.1) rest
  unfolding asked_with
  answers_with js [] rest = refl
  answers_with js (a ∷ answers) rest = ap (◌∷◌ a) (answers_with js answers rest)

  IsTold-with :
      (names : List Text) (js : List Joined) (answers : List (Served h u s from_static))
      (rest : List Asked)
      → All (IsTold names js) answers
      → All (λ x. IsTold names x.0 x.1) rest
      → All (λ x. IsTold names x.0 x.1) (asked_with js answers ++ rest)
  unfolding asked_with
  IsTold-with names js [] rest t k = k
  IsTold-with names js (a ∷ answers) rest t k = (t.0, IsTold-with names js answers rest t.1 k)

  module _ (render : Text → Bytes) (g : Gateway h u s from_static) (tls : Bool) where
    abbrev St : Type 0
    St = State h u s from_static render g tls

    abbrev Serves :
        HealthState
        → Server.State h u s from_static render g
        → Server.State h u s from_static render g
        → Type 0
    Serves health st st' = Server.Step h u s from_static render g tls health st st'

    abbrev names : List Text
    names = keys g.upstreams

    -- What is answered in a step.
    abbrev answers_of :
        {health : HealthState} {st st' : Server.State h u s from_static render g}
        → Serves health st st'
        → List (Served h u s from_static)
    answers_of (accept on e) = []
    answers_of (accept_failed on e) = []
    answers_of (signal signals came on e) = []
    answers_of (handshake_done cs m e) = []
    answers_of (handshake_failed cs m e) = []
    answers_of (answer cs a m own e) = a ∷ []
    answers_of (last_answer cs a m own e) = a ∷ []
    answers_of (close cs m e) = []
    answers_of (close_told cs m e) = []
    answers_of (shut_down on empty e) = []

    answers-Step :
        (health : HealthState) (st st' : Server.State h u s from_static render g)
        (one : Serves health st st')
        → st'.answers ≡ answers_of one ++ st.answers
    answers-Step health st st' (accept on e) = ap (λ t. t.answers) e
    answers-Step health st st' (accept_failed on e) = ap (λ t. t.answers) e
    answers-Step health st st' (signal signals came on e) = ap (λ t. t.answers) e
    answers-Step health st st' (handshake_done cs m e) = ap (λ t. t.answers) e
    answers-Step health st st' (handshake_failed cs m e) = ap (λ t. t.answers) e
    answers-Step health st st' (answer cs a m own e) = ap (λ t. t.answers) e
    answers-Step health st st' (last_answer cs a m own e) = ap (λ t. t.answers) e
    answers-Step health st st' (close cs m e) = ap (λ t. t.answers) e
    answers-Step health st st' (close_told cs m e) = ap (λ t. t.answers) e
    answers-Step health st st' (shut_down on empty e) = ap (λ t. t.answers) e

    IsTold-Step :
        (js : List Joined) (health : HealthState) (st st' : Server.State h u s from_static render g)
        → health ≡ record_all (new_state names) js
        → (one : Serves health st st') → All (IsTold names js) (answers_of one)
    IsTold-Step js health st st' known (accept on e) = tt
    IsTold-Step js health st st' known (accept_failed on e) = tt
    IsTold-Step js health st st' known (signal signals came on e) = tt
    IsTold-Step js health st st' known (handshake_done cs m e) = tt
    IsTold-Step js health st st' known (handshake_failed cs m e) = tt
    IsTold-Step js health st st' known
          (answer cs a m (handled now random nanos started parts body) e) =
        (serve-IsTold names js health now render g random nanos started parts body known, tt)
    IsTold-Step js health st st' known
          (last_answer cs a m (handled now random nanos started parts body) e) =
        (serve-IsTold names js health now render g random nanos started parts body known, tt)
    IsTold-Step js health st st' known (close cs m e) = tt
    IsTold-Step js health st st' known (close_told cs m e) = tt
    IsTold-Step js health st st' known (shut_down on empty e) = tt

    abbrev answered_in :
        {st st' : St} → Step h u s from_static render g tls st st' → List (Served h u s from_static)
    answered_in (serves server one e) = answers_of one
    answered_in (probes config prober spawned t e) = []

    -- The answers of a run, the newest first, each with the probes that were joined when it was given.
    pub asked :
        {js : List Joined} {st : St} → Reach h u s from_static render g tls js st → List Asked
    asked start = []
    asked (step {js} r one e) = asked_with js (answered_in one) ++ asked r

    -- What is known of the upstreams is what was found by the probes that were joined; and of the
    -- answers, which are those of the run, each readiness is what was found by the probes that were
    -- joined when it was given.
    pub record IsTrue (js : List Joined) (st : St) (answers : List Asked) : Type 0 where
      pub known : st.prober.health ≡ record_all (new_state names) js
      pub all : st.server.answers ≡ map (λ x. x.1) answers
      pub told : All (λ x. IsTold names x.0 x.1) answers

    IsTrue-step :
        (js : List Joined) (st st' : St) (answers : List Asked)
        (one : Step h u s from_static render g tls st st')
        → IsTrue js st answers
        → IsTrue
            (js ++ of_step h u s from_static render g tls one)
            st'
            (asked_with js (answered_in one) ++ answers)
    unfolding asked_with
    IsTrue-step js st st' answers (serves server one e) i = rw (append-nil js) (
        subst (λ x. IsTrue js x (asked_with js (answers_of one) ++ answers)) (sym e)
          (record {
            known = i.known;
            all =
                answers-Step st.prober.health st.server server one
                ∙ ap (λ xs. answers_of one ++ xs) i.all
                ∙ sym (answers_with js (answers_of one) answers);
            told =
                IsTold-with names js (answers_of one) answers
                  (IsTold-Step js st.prober.health st.server server i.known one) i.told;
          }))
    IsTrue-step js st st' answers (probes config prober spawned t e) i =
        let ks = of_turn u g.upstreams config t in
        subst (λ x. IsTrue (js ++ ks) x answers) (sym e)
          (record {
            known =
                health-Turn u g.upstreams config st.prober prober t
                ∙ ap (λ state. record_all state ks) i.known
                ∙ sym (record_all-append js ks (new_state names));
            all = i.all;
            told = i.told;
          })

    -- However the connections, the accept loop and the probe loop interleave: what is known of the
    -- upstreams is at any time what the probes that were joined up to then found, and every readiness
    -- that any caller of `/readyz` was told is true of all those that were joined when it was given: a
    -- 200 exactly if no upstream had failed its last probe then, with an entry for each.
    pub Reach-IsTrue :
        (js : List Joined) (st : St) (r : Reach h u s from_static render g tls js st)
        → IsTrue js st (asked r)
    unfolding asked initial Server.initial new_prober record_all
    Reach-IsTrue js st start = record { known = refl; all = refl; told = tt }
    Reach-IsTrue ks last (step {js} {st} r one e) =
        subst (λ xs. IsTrue xs last (asked_with js (answered_in one) ++ asked r)) (sym e)
          (IsTrue-step js st last (asked r) one (Reach-IsTrue js st r))
