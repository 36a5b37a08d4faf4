-- ===== src/Health/Loop/Quiet.antt =====
-- src/health.rs: the lines of `probe_loop` above the level `debug` are those of changes.
use mathlib.Core.Path.{subst}
use llm_conduit.Prelude.{
  ◌≡◌, refl, sym, ap, List, [], ◌∷◌, ◌++◌, Option, none, some, Bool, true, false, not, Bool-cases,
  inl, inr, if◌then◌else◌,
}
use llm_conduit.Prelude.Map.{Map, get, get-insert}
use llm_conduit.Prelude.Text.{Text, text_eq, text_eq_iff}
use llm_conduit.Http.{Uris}
use llm_conduit.Config.{Upstream, HealthConfig}
use llm_conduit.Health.{Joined, new_state, record_health, health_of}
use llm_conduit.Health.Loop.{
  ProbeLevel, debug, info, warn, was_healthy, level_of, ProbeLine, line_of, Prober, new_prober,
  join, Turn, begin, joined, Turns, none_yet, turn,
}

-- What a line adds to the lines above `debug`.
abbrev pub louder : ProbeLevel → Bool → List Bool → List Bool
louder debug healthy bs = bs
louder info healthy bs = healthy ∷ bs
louder warn healthy bs = healthy ∷ bs

-- The lines on an upstream above `debug`, the newest first: whether each calls it healthy.
unfoldable pub loud : Text → List ProbeLine → List Bool
loud name [] = []
loud name (l ∷ ls) =
    let rest = loud name ls in
    if text_eq l.upstream name then louder l.level l.healthy rest else rest

abbrev pub Alternates : Bool → List Bool → Type 0
Alternates b [] = Unit
Alternates b (c ∷ cs) = (c ≡ not b) × Alternates c cs

-- The lines above `debug` say each change once, the newest what is known now.
abbrev pub Changes : Option Bool → List Bool → Type 0
Changes none bs = bs ≡ []
Changes (some b) bs = (cs : List Bool) × (bs ≡ b ∷ cs) × Alternates b cs

Changes-level_of :
    (a : Bool) (known : Option Bool) (bs : List Bool)
    → Changes known bs
    → Changes (some a) (louder (level_of a known) a bs)
unfolding level_of
Changes-level_of true none bs h = ([], ap (◌∷◌ true) h, tt)
Changes-level_of false none bs h = ([], ap (◌∷◌ false) h, tt)
Changes-level_of true (some true) bs h = h
Changes-level_of false (some false) bs h = h
Changes-level_of true (some false) bs (cs, e, alt) = (false ∷ cs, ap (◌∷◌ true) e, (refl, alt))
Changes-level_of false (some true) bs (cs, e, alt) = (true ∷ cs, ap (◌∷◌ false) e, (refl, alt))

abbrev pub IsQuiet : Text → Prober → Type 0
IsQuiet name p = Changes (was_healthy (get name p.health.upstreams)) (loud name p.lines)

new_prober-IsQuiet : (names : List Text) (name : Text) → IsQuiet name (new_prober names)
unfolding new_prober new_state was_healthy loud get
new_prober-IsQuiet names name = refl

join-IsQuiet :
    (p : Prober) (j : Joined) (rest : List Joined) (name : Text)
    → IsQuiet name p
    → IsQuiet name (join p j rest)
unfolding join record_health loud line_of was_healthy
join-IsQuiet p j rest name q =
    let health = health_of j.at j.outcome in
    let found = get-insert j.name name health p.health.upstreams in
    elim (Bool-cases (text_eq j.name name)) [
      | inl same ↦
          let eq : j.name ≡ name = (text_eq_iff j.name name).0 same in
          rw (found, same, eq)
            (Changes-level_of health.healthy (was_healthy (get name p.health.upstreams))
              (loud name p.lines) q)
      | inr different ↦ rw (found, different) q
    ]

module _ (u : Uris) (m : Map (Upstream u)) (config : HealthConfig) where
  Turn-IsQuiet :
      (p p' : Prober) (name : Text) → Turn u m config p p' → IsQuiet name p → IsQuiet name p'
  Turn-IsQuiet p p' name (begin c idle free e) q = subst (IsQuiet name) (sym e) q
  Turn-IsQuiet p p' name (joined earlier later j one e) q =
      subst (IsQuiet name) (sym e) (join-IsQuiet p j (earlier ++ later) name q)

  -- From its start, and however its turns interleave with requests, the loop logs above `debug` each
  -- change of an upstream once: the lines on it call it healthy and unhealthy by turns, the newest of
  -- them says what is known now, and there is none before its first probe.
  pub Turns-IsQuiet :
      (names : List Text) (p : Prober) (js : List Joined) (name : Text)
      → Turns u m config (new_prober names) js p
      → IsQuiet name p
  Turns-IsQuiet names p js name none_yet = new_prober-IsQuiet names name
  Turns-IsQuiet names last ks name (turn {js} {p' = mid} ts t e) =
      Turn-IsQuiet mid last name t (Turns-IsQuiet names mid js name ts)
