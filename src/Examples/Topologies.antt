-- ===== src/Examples/Topologies.antt =====
-- A topology of civitas/cli/topology.py with two agents under a nested supervisor.
use python_civitas.Base.{◌+◌, ◌≤◌, ◌≡◌, refl, ◌⊎◌, true, false, none, some, String}
use python_civitas.Topology.{
  number, supervisor, agent, plain, nil, cons, Config, or_default, is_strategy, is_backoff,
  is_empty, is_transport, validate_topology, is_passed, count_agents, count_supervisors,
}
use python_civitas.Topology.Names.{is_name, all_agents_called, all_supervisors_called}
use python_civitas.Topology.Shape.{AreWellFormed}
use python_civitas.Topology.Soundness.{accepted_topology}

abbrev pub team : Config
team = record {
  name = none;
  strategy = some "REST_FOR_ONE";
  backoff = none;
  children =
      cons
        (supervisor (some "workers") none (some "LINEAR") (number 5)
          (cons (agent (some "a") (some "mod.A")) (cons (agent (some "b") (some "mod.B")) nil)))
        (cons (plain (some "topology_server") (some "topology") false) nil);
  transport = some (some "nats");
}

abbrev twins : Config
twins = record team {
  children = cons (agent (some "a") (some "mod.A")) (cons (agent (some "a") (some "mod.B")) nil);
}

twins_refused : is_passed (validate_topology twins) ≡ false
unfolding validate_topology is_passed
twins_refused = refl

agents_counted : count_agents team.children ≡ 2
unfolding count_agents
agents_counted = refl

supervisors_counted : count_supervisors team.children ≡ 2
unfolding count_supervisors
supervisors_counted = refl

team_passed : is_passed (validate_topology team) ≡ true
unfolding validate_topology is_passed
team_passed = refl

accepted_topology_example :
    AreWellFormed team.children
    × (is_strategy team.strategy ≡ true)
    × (is_backoff team.backoff ≡ true)
    × (is_empty team.children ≡ false)
    × (is_transport team.transport ≡ true)
    × ((x : String)
        → (all_agents_called x team.children ≤ 1)
          × ((all_agents_called x team.children ≡ 0)
              ⊎ (is_name x (or_default "root" team.name) + all_supervisors_called x team.children
                  ≡ 0)))
accepted_topology_example = accepted_topology team team_passed
