-- ===== src/Health/Loop.antt =====
-- src/health.rs: `probe_loop` over its passes, beside the requests that read what it records: a
-- relation between states, since the probes of a pass are joined in any order, and `/readyz` reads
-- between any two of them. The log lines of a pass are kept with their level.
pub mod Recorded
pub mod Quiet
use llm_conduit.Prelude.{
  ℕ, List, [], ◌∷◌, ◌++◌, Option, none, some, Bool, true, false, ◌≡◌, Result, ok, err,
}
use llm_conduit.Prelude.Map.{Map, keys, get}
use llm_conduit.Prelude.Text.{Text}
use llm_conduit.Http.{Uris}
use llm_conduit.Config.{Upstream, HealthConfig}
use llm_conduit.Health.{
  UpstreamHealth, HealthState, new_state, record_health, health_of, snapshot, Joined,
}
use llm_conduit.Health.Pass.{Conditions, tasks, is_stuck}

pub data ProbeLevel : Type 0 where
  debug info warn : ProbeLevel

-- `state.snapshot().get(&name).map(|known| known.healthy)`
unfoldable pub was_healthy : Option UpstreamHealth → Option Bool
was_healthy none = none
was_healthy (some known) = some known.healthy

-- The `match` over the new and the known health.
unfoldable pub level_of : Bool → Option Bool → ProbeLevel
level_of true (some true) = debug
level_of true (some false) = info
level_of true none = info
level_of false (some false) = debug
level_of false (some true) = warn
level_of false none = warn

-- A line on the health of an upstream.
pub record ProbeLine : Type 0 where
  pub upstream : Text
  pub healthy : Bool
  pub level : ProbeLevel

-- The state that is shared with the requests, the probes of the pass that were not joined yet, and
-- the lines that were logged, the newest first.
pub record Prober : Type 0 where
  pub health : HealthState
  pub running : List Joined
  -- Whether the pass has a probe that never returns.
  pub is_stuck : Bool
  pub lines : List ProbeLine

-- `HealthState::new`, ahead of the first pass.
unfoldable pub new_prober : List Text → Prober
new_prober names = record { health = new_state names; running = []; is_stuck = false; lines = [] }

unfoldable pub line_of : HealthState → Joined → ProbeLine
line_of health j = record {
  upstream = j.name;
  healthy = (health_of j.at j.outcome).healthy;
  level = level_of (health_of j.at j.outcome).healthy (was_healthy (get j.name (snapshot health)));
}

-- The body of the loop over the joined probes, with `rest` still running.
unfoldable pub join : Prober → Joined → List Joined → Prober
join p j rest = record {
  health = record_health p.health j.name (health_of j.at j.outcome);
  running = rest;
  is_stuck = p.is_stuck;
  lines = line_of p.health j ∷ p.lines;
}

module _ (u : Uris) (m : Map (Upstream u)) (config : HealthConfig) where
  pub data Turn (p p' : Prober) : Type 0 where
    -- A pass begins when the one before it is over, under whatever conditions hold then.
    begin :
        (c : Conditions u)
        → p.running ≡ []
        → p.is_stuck ≡ false
        → p' ≡ record p { running = tasks u c config m; is_stuck = is_stuck u c config m }
        → Turn p p'
    joined :
        (earlier later : List Joined) (j : Joined)
        → p.running ≡ earlier ++ j ∷ later
        → p' ≡ join p j (earlier ++ later)
        → Turn p p'

  -- The joined probes of a turn.
  abbrev pub of_turn : {p p' : Prober} → Turn p p' → List Joined
  of_turn (begin c idle free e) = []
  of_turn (joined earlier later j one e) = j ∷ []

  -- The turns from a state on, with the probes that were joined in them.
  pub data Turns (p : Prober) : List Joined → Prober → Type 0 where
    none_yet : Turns p [] p
    turn :
        {js js' : List Joined} {p' p'' : Prober}
        → Turns p js p'
        → (t : Turn p' p'') → js' ≡ js ++ of_turn t
        → Turns p js' p''
