-- ===== src/Server/Invariant.antt =====
-- src/server.rs: what holds in every state of the server.
use mathlib.Core.Path.{subst}
use llm_conduit.Prelude.{
  ℕ, ◌+◌, ◌-◌, ◌≡◌, refl, sym, ◌∙◌, List, [], ◌∷◌, Bool, true, false, All, arith, length, map,
}
use llm_conduit.Prelude.Text.{Text, Bytes}
use llm_conduit.Http.{Headers, Uris}
use llm_conduit.Serde.{SerdeJson}
use llm_conduit.Health.{HealthState}
use llm_conduit.Gateway.{Gateway}
use llm_conduit.Gateway.Serve.{Served}
use llm_conduit.Server.{
  Phase, accepting, draining, returned, Connection, handshaking, serving, closing, over, Moves,
  here, there, tell, watched_in, started, State, initial, Step, accept, accept_failed, signal,
  handshake_done, handshake_failed, answer, last_answer, close, close_told, shut_down, Reach, stay,
  step,
}
use llm_conduit.Server.Weight.{
  alive, live, live-Moves, alive-Moves, live-tell, IsOver, All-IsOver, IsTold, All-IsTold-tell,
}

-- A connection without TLS has no handshake.
abbrev pub IsPlain : Connection → Type 0
IsPlain handshaking = ⊥
IsPlain serving = Unit
IsPlain closing = Unit
IsPlain over = Unit

IsPlain-tell : (cs : List Connection) → All IsPlain cs → All IsPlain (map tell cs)
unfolding tell
IsPlain-tell [] h = tt
IsPlain-tell (handshaking ∷ cs) h = absurd h.0
IsPlain-tell (serving ∷ cs) h = (tt, IsPlain-tell cs h.1)
IsPlain-tell (closing ∷ cs) h = (tt, IsPlain-tell cs h.1)
IsPlain-tell (over ∷ cs) h = (tt, IsPlain-tell cs h.1)

All-Moves :
    (P : Connection → Type 0) {a b : Connection} {cs ds : List Connection}
    → P b
    → Moves a b cs ds
    → All P cs
    → All P ds
All-Moves P p (here cs) h = (p, h.1)
All-Moves P p (there c m) h = (h.0, All-Moves P p m h.1)

pub length-Moves :
    {a b : Connection} {cs ds : List Connection} → Moves a b cs ds → length ds ≡ length cs
length-Moves (here cs) = refl
length-Moves (there c m) = omega (arith, length-Moves m)

pub length-tell : (cs : List Connection) → length (map tell cs) ≡ length cs
length-tell [] = refl
length-tell (c ∷ cs) = omega (arith, length-tell cs)

alive-started : (tls : Bool) → alive (started tls) ≡ 1
unfolding started
alive-started true = refl
alive-started false = refl

IsPlain-started : (tls : Bool) → tls ≡ false → IsPlain (started tls)
unfolding started
IsPlain-started true e = cc
IsPlain-started false e = tt

alive-watched_in : (p : Phase) → alive (watched_in p) ≡ 1
unfolding watched_in
alive-watched_in accepting = refl
alive-watched_in draining = refl
alive-watched_in returned = refl

IsTold-watched_in : (p : Phase) → ¬ (p ≡ accepting) → IsTold (watched_in p)
unfolding watched_in
IsTold-watched_in accepting on = absurd (on refl)
IsTold-watched_in draining on = tt
IsTold-watched_in returned on = tt

IsPlain-watched_in : (p : Phase) → IsPlain (watched_in p)
unfolding watched_in
IsPlain-watched_in accepting = tt
IsPlain-watched_in draining = tt
IsPlain-watched_in returned = tt

module _ (h : Headers) (u : Uris) (s : SerdeJson) (from_static : Text → h.HeaderValue)
    (render : Text → Bytes) (g : Gateway h u s from_static) (tls : Bool) where
  abbrev St : Type 0
  St = State h u s from_static render g

  abbrev Leads : HealthState → St → St → Type 0
  Leads health st st' = Step h u s from_static render g tls health st st'

  -- There are as many watchers as tasks that live; behind the signal no connection is kept alive; a
  -- server that has returned left no task; and without TLS there is no handshake.
  pub record IsSound (st : St) : Type 0 where
    pub watched : st.watchers ≡ live st.connections
    pub told : ¬ (st.phase ≡ accepting) → All IsTold st.connections
    pub ended : st.phase ≡ returned → live st.connections ≡ 0
    pub plain : tls ≡ false → All IsPlain st.connections

  initial-IsSound : IsSound (initial h u s from_static render g)
  unfolding initial
  initial-IsSound = record { watched = refl; told = λ on. tt; ended = λ e. refl; plain = λ e. tt }

  -- One task moves on.
  moved-IsSound :
      (st : St) (cs : List Connection) (a b : Connection) (watchers : ℕ)
      (answers : List (Served h u s from_static))
      → IsSound st
      → Moves a b st.connections cs
      → alive a ≡ 1
      → watchers + alive a ≡ st.watchers + alive b
      → (¬ (st.phase ≡ accepting) → IsTold b)
      → IsPlain b
      → IsSound (record st { connections = cs; watchers = watchers; answers = answers })
  moved-IsSound st cs a b watchers answers i m lives counts told plain = record {
    watched = omega (arith, live-Moves m, i.watched);
    told = λ on. All-Moves IsTold (told on) m (i.told on);
    ended = λ e. absurd (omega (arith, alive-Moves m, i.ended e));
    plain = λ off. All-Moves IsPlain plain m (i.plain off);
  }

  -- A task that ends drops its watcher, of which there is one.
  dropped :
      (st : St) (cs : List Connection) (a : Connection)
      → IsSound st
      → Moves a over st.connections cs
      → alive a ≡ 1
      → st.watchers - 1 + alive a ≡ st.watchers + alive over
  dropped st cs a i m lives = omega (arith, alive-Moves m, i.watched)

  IsSound-step :
      (health : HealthState) (st st' : St) → Leads health st st' → IsSound st → IsSound st'
  IsSound-step health st st' (accept on e) i = subst IsSound (sym e) (record {
    watched = omega (arith, alive-started tls, i.watched);
    told = λ off. absurd (off on);
    ended = λ r. cc;
    plain = λ off. (IsPlain-started tls off, i.plain off);
  })
  IsSound-step health st st' (accept_failed on e) i = subst IsSound (sym e) i
  IsSound-step health st st' (signal signals came on e) i = subst IsSound (sym e) (record {
    watched = i.watched ∙ sym (live-tell st.connections);
    told = λ off. All-IsTold-tell st.connections;
    ended = λ r. cc;
    plain = λ off. IsPlain-tell st.connections (i.plain off);
  })
  IsSound-step health st st' (handshake_done cs m e) i = subst IsSound (sym e) (
      moved-IsSound st cs handshaking (watched_in st.phase) st.watchers st.answers i m refl
        (omega (arith, alive-watched_in st.phase)) (IsTold-watched_in st.phase)
        (IsPlain-watched_in st.phase))
  IsSound-step health st st' (handshake_failed cs m e) i = subst IsSound (sym e) (
      moved-IsSound st cs handshaking over (st.watchers - 1) st.answers i m refl
        (dropped st cs handshaking i m refl) (λ on. tt) tt)
  IsSound-step health st st' (answer cs a m own e) i =
      subst IsSound (sym e)
        (record { watched = i.watched; told = i.told; ended = i.ended; plain = i.plain })
  IsSound-step health st st' (last_answer cs a m own e) i = subst IsSound (sym e) (
      moved-IsSound st cs closing over (st.watchers - 1) (a ∷ st.answers) i m refl
        (dropped st cs closing i m refl) (λ on. tt) tt)
  IsSound-step health st st' (close cs m e) i = subst IsSound (sym e) (
      moved-IsSound st cs serving over (st.watchers - 1) st.answers i m refl
        (dropped st cs serving i m refl) (λ on. tt) tt)
  IsSound-step health st st' (close_told cs m e) i = subst IsSound (sym e) (
      moved-IsSound st cs closing over (st.watchers - 1) st.answers i m refl
        (dropped st cs closing i m refl) (λ on. tt) tt)
  IsSound-step health st st' (shut_down off empty e) i = subst IsSound (sym e) (record {
    watched = i.watched;
    told = λ on. i.told (λ p. cc);
    ended = λ r. sym i.watched ∙ empty;
    plain = i.plain;
  })

  pub Reach-IsSound :
      (st st' : St) → Reach h u s from_static render g tls st st' → IsSound st → IsSound st'
  Reach-IsSound st st' stay i = i
  Reach-IsSound st last (step {st'} health r one) i =
      IsSound-step health st' last one (Reach-IsSound st st' r i)

  -- A state in which no task lives and the loop is over: nothing happens any more.
  abbrev pub IsFinal : St → Type 0
  IsFinal st =
      All IsOver st.connections × ((health : HealthState) (st' : St) → ¬ (Leads health st st'))

  IsFinal-returned : (st : St) → IsSound st → st.phase ≡ returned → IsFinal st
  IsFinal-returned st i r =
      (All-IsOver st.connections (i.ended r), λ health st' one. still health st' one)
    where
      stuck :
          {a b : Connection} {cs : List Connection} → Moves a b st.connections cs → alive a ≡ 1 → ⊥
      stuck m lives = omega (arith, alive-Moves m, i.ended r)

      still : (health : HealthState) (st' : St) → Leads health st st' → ⊥
      still health st' (accept on e) = cc
      still health st' (accept_failed on e) = cc
      still health st' (signal signals came on e) = cc
      still health st' (handshake_done cs m e) = stuck m refl
      still health st' (handshake_failed cs m e) = stuck m refl
      still health st' (answer cs a m own e) = stuck m refl
      still health st' (last_answer cs a m own e) = stuck m refl
      still health st' (close cs m e) = stuck m refl
      still health st' (close_told cs m e) = stuck m refl
      still health st' (shut_down off empty e) = cc

  -- In every state that the server reaches from its start: there are as many watchers as connections
  -- that are not over, in their handshake or served; behind the signal no connection is kept alive;
  -- and without TLS no connection is in a handshake. Once the server has returned, every connection
  -- is over, and no request is answered any more: no step of any task is left.
  pub initial-reaches-IsSound :
      (st : St)
      → Reach h u s from_static render g tls (initial h u s from_static render g) st
      → IsSound st × (st.phase ≡ returned → IsFinal st)
  initial-reaches-IsSound st r =
      let i = Reach-IsSound _ st r initial-IsSound in (i, IsFinal-returned st i)
