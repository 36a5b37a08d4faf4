-- ===== src/Server/Shutdown.antt =====
-- src/server.rs: after the signal no connection is accepted any more, and every run of the server is
-- bounded and can only end in its return.
use mathlib.Core.Path.{subst}
use llm_conduit.Prelude.{
  ℕ, suc, ◌+◌, ◌≤◌, ◌<◌, ◌≡◌, refl, sym, ap, ◌∙◌, List, ◌∷◌, ◌⊎◌, inl, inr, Bool, All, arith,
  length,
}
use llm_conduit.Prelude.Text.{Text, Bytes}
use llm_conduit.Http.{Headers, Uris}
use llm_conduit.Serde.{SerdeJson}
use llm_conduit.Health.{HealthState}
use llm_conduit.Gateway.{Gateway}
use llm_conduit.Gateway.Serve.{Served}
use llm_conduit.Server.{
  Phase, accepting, draining, returned, Connection, handshaking, serving, closing, over, Moves,
  here, there, watched_in, State, initial, Step, accept, accept_failed, signal, handshake_done,
  handshake_failed, answer, last_answer, close, close_told, shut_down, Reach, stay, step,
}
use llm_conduit.Server.Invariant.{IsSound, Reach-IsSound, initial-reaches-IsSound, length-Moves}
use llm_conduit.Server.Weight.{
  weight, weight_all, phase_weight, weight_all-Moves, live-cases, IsTold, IsOver, All-IsOver,
}

weight-watched_in : (p : Phase) → weight (watched_in p) ≡ 1
unfolding watched_in
weight-watched_in accepting = refl
weight-watched_in draining = refl
weight-watched_in returned = refl

Phase-cases : (p : Phase) → (p ≡ accepting) ⊎ ((p ≡ draining) ⊎ (p ≡ returned))
Phase-cases accepting = inl refl
Phase-cases draining = inr (inl refl)
Phase-cases returned = inr (inr refl)

no_serving : {b : Connection} {cs ds : List Connection} → Moves serving b cs ds → All IsTold cs → ⊥
no_serving (here cs) t = t.0
no_serving (there c m) t = no_serving m t.1

module _ (h : Headers) (u : Uris) (s : SerdeJson) (from_static : Text → h.HeaderValue)
    (render : Text → Bytes) (g : Gateway h u s from_static) (tls : Bool) where
  abbrev St : Type 0
  St = State h u s from_static render g

  abbrev Leads : HealthState → St → St → Type 0
  Leads health st st' = Step h u s from_static render g tls health st st'

  abbrev pub measure : St → ℕ
  measure st = phase_weight st.phase + weight_all st.connections

  -- A step behind the signal: it takes the server closer to its end, or is an answer.
  pub record IsWinding (st st' : St) : Type 0 where
    pub closed : length st'.connections ≡ length st.connections
    pub no_return : ¬ (st'.phase ≡ accepting)
    pub progress : measure st' + suc (length st.answers) ≤ measure st + length st'.answers

  moved-IsWinding :
      (st : St) (cs : List Connection) (a b : Connection) (watchers : ℕ)
      (answers : List (Served h u s from_static))
      → ¬ (st.phase ≡ accepting)
      → weight b < weight a
      → length st.answers ≤ length answers
      → Moves a b st.connections cs
      → IsWinding st (record st { connections = cs; watchers = watchers; answers = answers })
  moved-IsWinding st cs a b watchers answers on less more m = record {
    closed = length-Moves m;
    no_return = on;
    progress = omega (arith, weight_all-Moves m);
  }

  step-IsWinding :
      (health : HealthState) (st st' : St)
      → ¬ (st.phase ≡ accepting)
      → Leads health st st'
      → IsWinding st st'
  step-IsWinding health st st' on (accept off e) = absurd (on off)
  step-IsWinding health st st' on (accept_failed off e) = absurd (on off)
  step-IsWinding health st st' on (signal signals came off e) = absurd (on off)
  step-IsWinding health st st' on (handshake_done cs m e) = subst (IsWinding st) (sym e) (
      moved-IsWinding st cs handshaking (watched_in st.phase) st.watchers st.answers on
        (omega (arith, weight-watched_in st.phase)) (omega arith) m)
  step-IsWinding health st st' on (handshake_failed cs m e) =
      subst (IsWinding st) (sym e)
        (moved-IsWinding st cs handshaking over _ st.answers on (omega arith) (omega arith) m)
  step-IsWinding health st st' on (answer cs a m own e) =
      subst (IsWinding st) (sym e)
        (record { closed = refl; no_return = on; progress = omega arith })
  step-IsWinding health st st' on (last_answer cs a m own e) =
      subst (IsWinding st) (sym e)
        (moved-IsWinding st cs closing over _ (a ∷ st.answers) on (omega arith) (omega arith) m)
  step-IsWinding health st st' on (close cs m e) =
      subst (IsWinding st) (sym e)
        (moved-IsWinding st cs serving over _ st.answers on (omega arith) (omega arith) m)
  step-IsWinding health st st' on (close_told cs m e) =
      subst (IsWinding st) (sym e)
        (moved-IsWinding st cs closing over _ st.answers on (omega arith) (omega arith) m)
  step-IsWinding health st st' on (shut_down off empty e) =
      subst (IsWinding st) (sym e) (record {
        closed = refl;
        no_return = λ r. cc;
        progress = omega (arith, ap phase_weight off);
      })

  abbrev Runs : St → St → Type 0
  Runs st st' = Reach h u s from_static render g tls st st'

  -- The steps of a run.
  pub count : {st st' : St} → Runs st st' → ℕ
  count stay = 0
  count (step health r one) = suc (count r)

  -- A run behind the signal.
  pub record IsBounded (st st' : St) (steps : ℕ) : Type 0 where
    pub closed : length st'.connections ≡ length st.connections
    pub no_return : ¬ (st'.phase ≡ accepting)
    pub bound : steps + measure st' + length st.answers ≤ measure st + length st'.answers

  IsBounded-step :
      (st st' st'' : St) (steps : ℕ)
      → IsBounded st st' steps
      → IsWinding st' st''
      → IsBounded st st'' (suc steps)
  IsBounded-step st st' st'' steps b w = record {
    closed = w.closed ∙ b.closed;
    no_return = w.no_return;
    bound = omega (arith, b.bound, w.progress);
  }

  -- Once the signal has come, no connection is accepted any more and the loop is not entered again;
  -- and however the tasks are scheduled, a run has at most as many steps as its answers and the
  -- weight of the state that it began in, which is at most 2 for each connection, and 1.
  pub Reach-IsBounded :
      (st st' : St) (r : Runs st st') → ¬ (st.phase ≡ accepting) → IsBounded st st' (count r)
  unfolding count
  Reach-IsBounded st st' stay on = record { closed = refl; no_return = on; bound = omega arith }
  Reach-IsBounded st last (step {st'} health r one) on =
      let b = Reach-IsBounded st st' r on in
      IsBounded-step st st' last (count r) b (step-IsWinding health st' last b.no_return one)

  -- A step that is no answer of a connection that is kept alive takes the server closer to its end.
  step-lt :
      (health : HealthState) (st st' : St)
      → ¬ (st.phase ≡ accepting)
      → All IsTold st.connections
      → Leads health st st'
      → measure st' < measure st
  step-lt health st st' on told (accept off e) = absurd (on off)
  step-lt health st st' on told (accept_failed off e) = absurd (on off)
  step-lt health st st' on told (signal signals came off e) = absurd (on off)
  step-lt health st st' on told (handshake_done cs m e) =
      rw e (omega (arith, weight_all-Moves m, weight-watched_in st.phase))
  step-lt health st st' on told (handshake_failed cs m e) = rw e (omega (arith, weight_all-Moves m))
  step-lt health st st' on told (answer cs a m own e) = absurd (no_serving m told)
  step-lt health st st' on told (last_answer cs a m own e) =
      rw e (omega (arith, weight_all-Moves m))
  step-lt health st st' on told (close cs m e) = rw e (omega (arith, weight_all-Moves m))
  step-lt health st st' on told (close_told cs m e) = rw e (omega (arith, weight_all-Moves m))
  step-lt health st st' on told (shut_down off empty e) = rw e (omega (arith, ap phase_weight off))

  Reach-le :
      (st st' : St) (r : Runs st st')
      → ¬ (st.phase ≡ accepting)
      → IsSound h u s from_static render g tls st
      → count r + measure st' ≤ measure st
  unfolding count
  Reach-le st st' stay on i = omega arith
  Reach-le st last (step {st'} health r one) on i =
      let back = (Reach-IsBounded st st' r on).no_return in
      let sound = Reach-IsSound h u s from_static render g tls st st' r i in
      omega (arith, Reach-le st st' r on i, step-lt health st' last back (sound.told back) one)

  goes_on :
      (st : St)
      → ¬ (st.phase ≡ accepting)
      → IsSound h u s from_static render g tls st
      → (st.phase ≡ returned) ⊎ ((health : HealthState) → (st' : St) × Leads health st st')
  goes_on st on i = elim (Phase-cases st.phase) [
    | inl off ↦ absurd (on off)
    | inr (inr off) ↦ inl off
    | inr (inl off) ↦ elim (live-cases st.connections (i.told on)) [
      | inl empty ↦ inr (λ health. (_, shut_down off (i.watched ∙ empty) refl))
      | inr (ds, inl m) ↦ inr (λ health. (_, handshake_failed ds m refl))
      | inr (ds, inr m) ↦ inr (λ health. (_, close_told ds m refl))
    ]
  ]

  -- What a run behind the signal has come to.
  pub record IsReturning (st st' : St) (steps : ℕ) : Type 0 where
    pub bound : steps + measure st' ≤ measure st
    pub returns :
        ((st'.phase ≡ returned) × All IsOver st'.connections)
        ⊎ ((health : HealthState) → (st'' : St) × Leads health st' st'')

  -- A server that was started and then signalled: however its tasks are scheduled from there, and
  -- whatever is known of the upstreams, a run has at most 2 steps for each connection, answers
  -- included, and 1, so there is no endless run; and a run that cannot go on has returned, with every
  -- connection over.
  pub Reach-IsReturning :
      (st st' : St)
      → Runs (initial h u s from_static render g) st
      → ¬ (st.phase ≡ accepting)
      → (r : Runs st st') → IsReturning st st' (count r)
  Reach-IsReturning st st' before on r =
      let (i, _) = initial-reaches-IsSound h u s from_static render g tls st before in
      let sound = Reach-IsSound h u s from_static render g tls st st' r i in
      let back = (Reach-IsBounded st st' r on).no_return in
      record {
        bound = Reach-le st st' r on i;
        returns = elim (goes_on st' back sound) [
          | inl off ↦ inl (off, All-IsOver st'.connections (sound.ended off))
          | inr next ↦ inr next
        ];
      }
