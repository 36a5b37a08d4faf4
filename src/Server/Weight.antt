-- ===== src/Server/Weight.antt =====
-- src/server.rs: how many tasks of a state live, and how many steps they can still take.
use llm_conduit.Prelude.{ℕ, ◌+◌, ◌≤◌, ◌≡◌, refl, List, [], ◌∷◌, ◌⊎◌, inl, inr, All, arith, map}
use llm_conduit.Server.{
  Phase, accepting, draining, returned, Connection, handshaking, serving, closing, over, Moves,
  here, there, tell,
}

-- How many more steps of its own a connection can take, other than answers of one that is kept alive.
abbrev pub weight : Connection → ℕ
weight handshaking = 2
weight serving = 1
weight closing = 1
weight over = 0

abbrev pub weight_all : List Connection → ℕ
weight_all [] = 0
weight_all (c ∷ cs) = weight c + weight_all cs

abbrev pub phase_weight : Phase → ℕ
phase_weight accepting = 2
phase_weight draining = 1
phase_weight returned = 0

pub weight_all-Moves :
    {a b : Connection} {cs ds : List Connection}
    → Moves a b cs ds
    → weight_all ds + weight a ≡ weight_all cs + weight b
weight_all-Moves (here cs) = omega arith
weight_all-Moves (there c m) = omega (arith, weight_all-Moves m)

-- Whether the task of a connection goes on.
abbrev pub alive : Connection → ℕ
alive handshaking = 1
alive serving = 1
alive closing = 1
alive over = 0

abbrev pub live : List Connection → ℕ
live [] = 0
live (c ∷ cs) = alive c + live cs

pub live-Moves :
    {a b : Connection} {cs ds : List Connection}
    → Moves a b cs ds
    → live ds + alive a ≡ live cs + alive b
live-Moves (here cs) = omega arith
live-Moves (there c m) = omega (arith, live-Moves m)

-- One that moves is among those that live, or begins to.
pub alive-Moves : {a b : Connection} {cs ds : List Connection} → Moves a b cs ds → alive a ≤ live cs
alive-Moves (here cs) = omega arith
alive-Moves (there c m) = omega (arith, alive-Moves m)

pub live-tell : (cs : List Connection) → live (map tell cs) ≡ live cs
unfolding tell
live-tell [] = refl
live-tell (handshaking ∷ cs) = omega (arith, live-tell cs)
live-tell (serving ∷ cs) = omega (arith, live-tell cs)
live-tell (closing ∷ cs) = omega (arith, live-tell cs)
live-tell (over ∷ cs) = omega (arith, live-tell cs)

abbrev pub IsOver : Connection → Type 0
IsOver handshaking = ⊥
IsOver serving = ⊥
IsOver closing = ⊥
IsOver over = Unit

pub All-IsOver : (cs : List Connection) → live cs ≡ 0 → All IsOver cs
All-IsOver [] e = tt
All-IsOver (handshaking ∷ cs) e = absurd (omega arith)
All-IsOver (serving ∷ cs) e = absurd (omega arith)
All-IsOver (closing ∷ cs) e = absurd (omega arith)
All-IsOver (over ∷ cs) e = (tt, All-IsOver cs (omega arith))

-- A connection that is not kept alive.
abbrev pub IsTold : Connection → Type 0
IsTold handshaking = Unit
IsTold serving = ⊥
IsTold closing = Unit
IsTold over = Unit

pub All-IsTold-tell : (cs : List Connection) → All IsTold (map tell cs)
unfolding tell
All-IsTold-tell [] = tt
All-IsTold-tell (handshaking ∷ cs) = (tt, All-IsTold-tell cs)
All-IsTold-tell (serving ∷ cs) = (tt, All-IsTold-tell cs)
All-IsTold-tell (closing ∷ cs) = (tt, All-IsTold-tell cs)
All-IsTold-tell (over ∷ cs) = (tt, All-IsTold-tell cs)

-- Among such connections none lives, or there is one whose task may end.
pub live-cases :
    (cs : List Connection)
    → All IsTold cs
    → (live cs ≡ 0)
      ⊎ ((ds : List Connection) × (Moves handshaking over cs ds ⊎ Moves closing over cs ds))
live-cases [] t = inl refl
live-cases (serving ∷ cs) t = absurd t.0
live-cases (closing ∷ cs) t = inr (over ∷ cs, inr (here cs))
live-cases (handshaking ∷ cs) t = inr (over ∷ cs, inl (here cs))
live-cases (over ∷ cs) t = elim (live-cases cs t.1) [
  | inl none_left ↦ inl (omega arith)
  | inr (ds, inl m) ↦ inr (over ∷ ds, inl (there over m))
  | inr (ds, inr m) ↦ inr (over ∷ ds, inr (there over m))
]
