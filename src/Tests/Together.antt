-- ===== src/Tests/Together.antt =====
-- src/server.rs, src/health.rs and src/gateway.rs together, at a concrete run.
use llm_conduit.Prelude.{◌≡◌, refl, [], ◌∷◌, none, some, false}
use llm_conduit.Prelude.Map.{keys}
use llm_conduit.Prelude.Text.{codes}
use llm_conduit.Config.{HealthConfig}
use llm_conduit.Health.{Joined, probe}
use llm_conduit.Health.Pass.{hangs, is_stuck, tasks, joined_for}
use llm_conduit.Health.Loop.{Prober, new_prober, join, Turn, begin, joined, Turns, none_yet, turn}
use llm_conduit.Health.Loop.Quiet.{IsQuiet, Turns-IsQuiet}
use llm_conduit.Proxy.{Parts}
use llm_conduit.Gateway.New.{spawn_health_prober}
use llm_conduit.Gateway.Serve.{Served, serve}
use llm_conduit.Gateway.Serve.Fronted.{IsServed, serve-IsServed}
use llm_conduit.Server
use llm_conduit.Server.{serving, here, accept, answer, handled, started}
use llm_conduit.System.{State, initial, serves, probes, Reach, start, step}
use llm_conduit.System.Told.{IsTrue, asked, Reach-IsTrue}
use llm_conduit.Tests.Toys.{json}
use llm_conduit.Tests.Wire.{wire, addresses}
use llm_conduit.Tests.Settings.{config, upstream}
use llm_conduit.Tests.Requests.{chunked, parts}
use llm_conduit.Tests.Gates.{static, gateway}
use llm_conduit.Tests.Hops.{conditions}

abbrev settings : HealthConfig
settings = config.server.health

-- The only upstream of the gateway, probed.
abbrev first_probe : Joined
first_probe = joined_for addresses conditions settings (codes "m") upstream

abbrev idle : Prober
idle = new_prober (keys gateway.upstreams)

abbrev busy : Prober
busy = record idle {
  running = tasks addresses conditions settings gateway.upstreams;
  is_stuck = is_stuck addresses conditions settings gateway.upstreams;
}

abbrev done : Prober
done = join busy first_probe []

begins : Turn addresses gateway.upstreams settings idle busy
unfolding new_prober
begins = begin conditions refl refl refl

joins : Turn addresses gateway.upstreams settings busy done
unfolding tasks hangs probe
joins = joined [] [] first_probe refl refl

turns : Turns addresses gateway.upstreams settings idle (first_probe ∷ []) done
unfolding begins joins
turns = turn (turn none_yet begins refl) joins refl

Turns-IsQuiet_example : IsQuiet (codes "m") done
Turns-IsQuiet_example =
    Turns-IsQuiet addresses gateway.upstreams settings (keys gateway.upstreams) done
      (first_probe ∷ []) (codes "m") turns

abbrev asking : Parts wire addresses
asking = record parts {
  method = codes "GET";
  uri = record { scheme = []; host = []; path = codes "/readyz" };
}

serve-IsServed_example :
    IsServed wire addresses json static done.health 20
      (λ t. t)
      gateway
      none
      7
      5
      asking
      chunked
      (serve wire addresses json static done.health 20 (λ t. t) gateway none 7 5 asking chunked)
serve-IsServed_example =
    serve-IsServed wire addresses json static done.health 20 (λ t. t) gateway none 7 5 asking
      chunked

abbrev reply : Served wire addresses json static
reply = serve wire addresses json static done.health 20 (λ t. t) gateway none 7 5 asking chunked

abbrev before : Server.State wire addresses json static (λ t. t) gateway
before = Server.initial wire addresses json static (λ t. t) gateway

abbrev after : Server.State wire addresses json static (λ t. t) gateway
after = record before { connections = serving ∷ []; watchers = 1 }

abbrev St : Type 0
St = State wire addresses json static (λ t. t) gateway false

-- The probe is joined, a connection accepted, and a request to `/readyz` answered.
abbrev answering : St
answering = record { server = record after { answers = reply ∷ [] }; prober = done }

is_spawned : spawn_health_prober wire addresses json static gateway ≡ some settings
unfolding spawn_health_prober
is_spawned = refl

reaches : Reach wire addresses json static (λ t. t) gateway false (first_probe ∷ []) answering
unfolding initial Server.initial started begins joins
reaches =
    step
      (step
        (step (step start (probes settings busy is_spawned begins refl) refl)
          (probes settings done is_spawned joins refl) refl)
        (serves after (accept refl refl) refl) refl)
      (serves (record after { answers = reply ∷ [] })
        (answer (serving ∷ []) reply (here []) (handled 20 none 7 5 asking chunked) refl) refl)
      refl

Reach-IsTrue_example :
    IsTrue wire addresses json static
      (λ t. t)
      gateway
      false
      (first_probe ∷ [])
      answering
      (asked wire addresses json static (λ t. t) gateway false reaches)
Reach-IsTrue_example =
    Reach-IsTrue wire addresses json static (λ t. t) gateway false (first_probe ∷ []) answering
      reaches
