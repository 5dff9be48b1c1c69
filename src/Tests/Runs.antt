-- ===== src/Tests/Runs.antt =====
-- Whole runs of the two programs, the ticks of their tickers, and a sweep in two orders.
use mathlib.Core.List.Perm
use mathlib.Core.List.{Perm}
use router_ui.Base.{
  ℕ, ◌+◌, ◌*◌, ◌≤◌, ◌<◌, ◌≡◌, ◌↔◌, refl, arith, List, [], ◌∷◌, map, String, some, none, ok, true,
  false, All, ltb, if◌then◌else◌,
}
use router_ui.Base.Dict.{lookup, insert}
use router_ui.Config.{CoreConfig, AgentConfig}
use router_ui.Config.Load.{valid, load_core_config, load_agent_config}
use router_ui.Api.{RegisterResponse}
use router_ui.Health
use router_ui.Health.{sweep_from}
use router_ui.Registry.{Node, Registry}
use router_ui.Registry.Store.{is_down}
use router_ui.Registry.States.{downed}
use router_ui.CoreDaemon.{Logged, snapshot, core_checker}
use router_ui.CoreDaemon.Start.{start}
use router_ui.CoreDaemon.Ordered.{is_ordered}
use router_ui.CoreDaemon.Timely
use router_ui.CoreDaemon.Timely.{Event, beats, sweeps}
use router_ui.CoreDaemon.Running.{bgp_ended, run}
use router_ui.CoreDaemon.Ended.{has_web_ui, run-ok_iff, run-ordered}
use router_ui.CoreDaemon.Detection.{regular_ticks, detected}
use router_ui.CoreDaemon.Paced.{Moment, happens, beat_lost, events_of}
use router_ui.CoreDaemon.Intervals.{default-up}
use router_ui.CoreDaemon.Parted.{Part, looks, marks, joins, hears, part_run, punctual-up}
use router_ui.CoreDaemon.Shuffled.{sweep_from-Perm}
use router_ui.Agent.{registered, register_with_retry}
use router_ui.Agent.{do_register, retry_from}
use router_ui.Agent.Start
use router_ui.Agent.Start.{private_key, set_up_tunnel, join_fabric, leave_fabric}
use router_ui.Config.{validate_agent_config}
use router_ui.Registry.Serve.{serve, dispatch, route}
use router_ui.Registry.Views.{handle_heartbeat}
use router_ui.Registry.Store.{record_heartbeat, heartbeat_node, list_nodes, mark_down}
use router_ui.CoreDaemon.{adapter_list_nodes}
use router_ui.Base.Text.{trim_prefix, strip_prefix, has_prefix, has_suffix, trim_suffix}
use router_ui.Agent.Announcing.{key_call, interface_calls, run_calls}
use router_ui.Agent.Running
use router_ui.Agent.Running.{run-calls_all}
use router_ui.Agent.Heartbeat.{Tools}
use router_ui.Agent.Beating.{
  Tick, heartbeat, check, heartbeats, events, heartbeat_loop, core_run, IsAnswered,
  heartbeat_loop-run,
}
use router_ui.Tests.{texts, env, body_of}
use router_ui.Tests.Nodes.{one_node, first, second, one_node-Inv}
use router_ui.Tests.Devices.{all_ok}
use router_ui.Tests.Starts.{at_once, agent_ok}
use router_ui.Tests.Files.{viper, get, path_of, fresh, file, parse}
use router_ui.Tests.Loads.{documented, core_read, agent_read, core_loads, agent_loads}

abbrev logged : Logged
logged = (one_node, [])

run-ok_iff_example :
    ((run 5 viper texts (bgp_ended (some "no session")) "core.yaml" all_ok []).0 ≡ ok true) ↔ (
      (cfg : CoreConfig) × (load_core_config viper "core.yaml" ≡ valid cfg)
      × (r : Registry) × ((start 5 texts cfg all_ok []).0 ≡ ok r)
      × (has_web_ui all_ok (start 5 texts cfg all_ok []).1 cfg ≡ true))
run-ok_iff_example = run-ok_iff 5 viper texts (bgp_ended (some "no session")) "core.yaml" all_ok

run-ordered_example :
    is_ordered all_ok (run 5 viper texts (bgp_ended none) "core.yaml" all_ok []).1 ≡ true
run-ordered_example = run-ordered 5 viper texts (bgp_ended none) "core.yaml" all_ok

ran :
    (Running.run texts
      (λ port. "8080")
      (λ c. at_once)
      (λ n. false)
      viper
      "agent.yaml"
      agent_ok
      []).0
    ≡ ok true
unfolding Running.run load_agent_config insert lookup validate_agent_config Start.run private_key
    set_up_tunnel join_fabric leave_fabric register_with_retry retry_from do_register
ran = refl

run-calls_all_example :
    (cfg : AgentConfig) × (load_agent_config viper "agent.yaml" ≡ valid cfg)
    × (resp : RegisterResponse) × (key : String) × (core_key : String) × ((register_with_retry
          at_once
          (λ n. false)).0
        ≡ registered resp)
    × (agent_ok [] (key_call cfg) ≡ ok key)
    × (agent_ok (interface_calls cfg resp key) (Start.parse_key resp.core_wg_public_key)
        ≡ ok core_key)
    × ((Running.run texts
          (λ port. "8080")
          (λ c. at_once)
          (λ n. false)
          viper
          "agent.yaml"
          agent_ok
          []).1
        ≡ run_calls texts (λ port. "8080") cfg resp key core_key)
run-calls_all_example =
    run-calls_all texts (λ port. "8080") (λ c. at_once) (λ n. false) viper "agent.yaml" agent_ok
      true ran

-- The node's last sign of life was at 7, the checker starts at 50 and sweeps every 15.
detected_example :
    (k : ℕ) × (7 + 90 < 50 + k * 15)
    × (50 + k * 15 ≤ 7 + 90 + 15)
    × ((m : ℕ)
        → lookup "a"
            (Health.run (core_checker texts 90 15) (regular_ticks 50 15 m) logged).0.0.nodes
          ≡ some (if ltb m k then first else downed first))
unfolding lookup
detected_example =
    detected env 90 15 50 logged "a" first one_node-Inv refl refl (omega arith) (omega arith)

abbrev day : List Moment
day =
    happens (sweeps 20_000_000_000)
    ∷ beat_lost
    ∷ beat_lost
    ∷ happens (sweeps 90_000_000_000)
    ∷ happens (beats 90_000_000_007 "a" true)
    ∷ happens (sweeps 105_000_000_000)
    ∷ []

default-up_example :
    let timeout = core_read.health.heartbeat_timeout in
    (m : Node) × (lookup "a"
        (Timely.run env timeout core_read.health.check_interval (events_of day) logged).0.nodes
      ≡ some m)
    × (is_down m.state ≡ false)
unfolding lookup insert
default-up_example =
    default-up viper get path_of fresh file parse "core.yaml" "agent.yaml" core_read agent_read env
      day logged first documented refl refl core_loads agent_loads refl refl one_node-Inv refl refl
      refl refl

-- Each heartbeat is answered as by a registry that knows the node.
abbrev answering : ℕ → Tools
answering now = record {
  encode = λ hb. hb.node_id;
  new_request = λ url. none;
  send = λ post. ok 200;
}

abbrev short_day : List Tick
short_day = heartbeat 20 ∷ check 50 ∷ heartbeat 60 ∷ []

abbrev url : String
url = "http://10.100.0.1:8080/api/v1/nodes/a/heartbeat"

answered : IsAnswered answering url agent_read env (ok []) 90 15 short_day logged
unfolding serve dispatch route handle_heartbeat record_heartbeat heartbeat_node lookup insert
    Health.sweep sweep_from adapter_list_nodes list_nodes mark_down trim_prefix strip_prefix
    has_prefix has_suffix trim_suffix
answered = (refl, refl, (refl, refl, tt))

heartbeat_loop-run_example :
    All (λ r. r ≡ ok 200) (heartbeat_loop answering url agent_read (heartbeats short_day))
    × (core_run answering url agent_read env (ok []) 90 15 short_day logged
        ≡ Timely.run env 90 15 (events "a" short_day) logged)
unfolding lookup insert
heartbeat_loop-run_example =
    heartbeat_loop-run answering url agent_read env (ok []) 90 15 (λ now. refl) short_day logged
      first one_node-Inv refl refl answered

-- "a" and "b" in two orders.
sweep_from-Perm_example :
    let checker = core_checker texts 90 15 in
    ((j : String)
      → lookup j (sweep_from checker 100 (map snapshot (first ∷ second ∷ [])) logged).0.0.nodes
        ≡ lookup j (sweep_from checker 100 (map snapshot (second ∷ first ∷ [])) logged).0.0.nodes)
    × Perm
        (sweep_from checker 100 (map snapshot (first ∷ second ∷ [])) logged).1
        (sweep_from checker 100 (map snapshot (second ∷ first ∷ [])) logged).1
sweep_from-Perm_example =
    sweep_from-Perm texts 90 15 100 (first ∷ second ∷ []) (second ∷ first ∷ []) logged
      (Perm.swap _ _ _)

-- A sweep that is still to mark "b"; "a" beats while the next one is on its way.
abbrev parts : List Part
parts =
    joins 20 (body_of "b") "other key"
    ∷ looks 90
    ∷ hears 95 "a" true
    ∷ marks
    ∷ looks 185
    ∷ marks
    ∷ []

punctual-up_example :
    (m : Node) × (lookup "a" (part_run env 90 15 parts (logged, "b" ∷ [])).0.0.nodes ≡ some m)
    × (is_down m.state ≡ false)
unfolding lookup
punctual-up_example =
    punctual-up env 90 15 parts logged ("b" ∷ []) "a" first one_node-Inv refl refl refl refl
