-- ===== src/CoreDaemon/Intervals.antt =====
-- The default intervals of pkg/config/config.go: the agent's heartbeats and the core's timeout.
use router_ui.Base.{ℕ, ◌+◌, Bool, true, false, List, Option, some, String, ◌≡◌, refl, arith}
use router_ui.Base.Dict.{lookup}
use router_ui.Config.{CoreConfig, AgentConfig}
use router_ui.Config.Load.{
  Value, valid, text, Viper, load_core_config, load_agent_config, health_heartbeat_timeout,
  heartbeat_interval,
}
use router_ui.Config.Documented.{IsViper, read_as, core_loaded, agent_loaded}
use router_ui.Config.Defaults.{duration_inj}
use router_ui.Registry.{Node, Env}
use router_ui.Registry.Store.{is_down}
use router_ui.Registry.Invariant.{Inv}
use router_ui.CoreDaemon.{Logged}
use router_ui.CoreDaemon.Timely.{run, is_kept}
use router_ui.CoreDaemon.Paced.{Moment, events_of, is_paced, paced-up}

-- A core whose file leaves the heartbeat timeout out and an agent whose file leaves the heartbeat
-- interval out, with viper and time.ParseDuration as documented, and a registry that satisfies the
-- invariant: a node of that agent that is registered and up, whose heartbeats come one interval
-- after the other from its last one on, with at most two lost in a row, is up after any such
-- history in which it is not deleted.
pub default-up :
    {V : Type 0} (v : Viper V) (get : V → String → Option Value) (path_of : V → String)
    (fresh : V → Bool) (file : String → String → Bool) (parse : String → Option ℕ)
    (core_path agent_path : String) (core : CoreConfig) (agent : AgentConfig) (env : Env)
    (ms : List Moment) (s : Logged) (n : Node)
    → IsViper v get path_of fresh file parse
    → parse "90s" ≡ some 90_000_000_000
    → parse "30s" ≡ some 30_000_000_000
    → load_core_config v core_path ≡ valid core
    → load_agent_config v agent_path ≡ valid agent
    → file core_path "health.heartbeat_timeout" ≡ false
    → file agent_path "heartbeat_interval" ≡ false
    → Inv s.0
    → is_kept env core.health.heartbeat_timeout core.health.check_interval agent.node_id
        (events_of ms)
      ≡ true
    → lookup agent.node_id s.0.nodes ≡ some n
    → is_down n.state ≡ false
    → is_paced agent.node_id agent.heartbeat_interval 2
        (n.last_heartbeat + agent.heartbeat_interval)
        2
        ms
      ≡ true
    → (m : Node) × (lookup agent.node_id
          (run env core.health.heartbeat_timeout core.health.check_interval
            (events_of ms)
            s).0.nodes
        ≡ some m)
      × (is_down m.state ≡ false)
default-up v get path_of fresh file parse core_path agent_path core agent env ms s n viper ninety
      thirty core_made agent_made core_out agent_out inv kept at up paced =
    let (_, core_fields) =
      core_loaded v get path_of fresh file parse viper core_path core core_made in
    let (_, agent_fields) =
      agent_loaded v get path_of fresh file parse viper agent_path agent agent_made in
    let timeout : core.health.heartbeat_timeout ≡ 90_000_000_000 = duration_inj _ _ (
      core_fields health_heartbeat_timeout (text "90s") _ _ core_out refl refl
        (rw (read_as, ninety) refl)) in
    let interval : agent.heartbeat_interval ≡ 30_000_000_000 = duration_inj _ _ (
      agent_fields heartbeat_interval (text "30s") _ _ agent_out refl refl
        (rw (read_as, thirty) refl)) in
    paced-up env core.health.heartbeat_timeout core.health.check_interval agent.heartbeat_interval 2
      (omega (arith, timeout, interval)) ms s agent.node_id n inv kept at up paced
