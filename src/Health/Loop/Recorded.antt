-- ===== src/Health/Loop/Recorded.antt =====
-- src/health.rs: what the shared state holds while probes are being joined.
use llm_conduit.Prelude.{◌≡◌, refl, sym, ap, ◌∙◌, List, [], ◌∷◌, ◌++◌}
use llm_conduit.Prelude.Map.{Map}
use llm_conduit.Http.{Uris}
use llm_conduit.Config.{Upstream, HealthConfig}
use llm_conduit.Health.{HealthState, Joined, record_all}
use llm_conduit.Health.Loop.{Prober, join, Turn, begin, joined, of_turn, Turns, none_yet, turn}

pub record_all-append :
    (js ks : List Joined) (state : HealthState)
    → record_all state (js ++ ks) ≡ record_all (record_all state js) ks
unfolding record_all
record_all-append [] ks state = refl
record_all-append (j ∷ js) ks state = record_all-append js ks _

module _ (u : Uris) (m : Map (Upstream u)) (config : HealthConfig) where
  pub health-Turn :
      (p p' : Prober) (t : Turn u m config p p')
      → p'.health ≡ record_all p.health (of_turn u m config t)
  unfolding record_all join
  health-Turn p p' (begin c idle free e) = ap (λ q. q.health) e
  health-Turn p p' (joined earlier later j one e) = ap (λ q. q.health) e

  -- However the turns of the loop interleave with reads: at any time the shared state is the one in
  -- which the probes that were joined up to then were recorded, one after the other.
  pub health-Turns :
      (p p' : Prober) (js : List Joined)
      → Turns u m config p js p'
      → p'.health ≡ record_all p.health js
  unfolding record_all
  health-Turns p p' js none_yet = refl
  health-Turns p last ks (turn {js} {p' = mid} ts t e) =
      health-Turn mid last t
      ∙ ap (λ state. record_all state (of_turn u m config t)) (health-Turns p mid js ts)
      ∙ sym (record_all-append js (of_turn u m config t) p.health)
      ∙ ap (record_all p.health) (sym e)
