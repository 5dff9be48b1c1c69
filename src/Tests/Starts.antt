-- ===== src/Tests/Starts.antt =====
-- Runs of the two programs, the tunnel, and histories of one node.
use router_ui.Base.{
  ℕ, ◌≤◌, ◌≡◌, ◌≢◌, refl, List, [], ◌∷◌, some, ok, err, arith, if◌then◌else◌, true, false, none,
}
use router_ui.Base.Calls.{World}
use router_ui.Base.Dict.{lookup}
use router_ui.Config.{AgentConfig}
use router_ui.Registry.{Node}
use router_ui.Registry.Store.{is_down}
use router_ui.CoreDaemon.{Logged}
use router_ui.CoreDaemon.Start.{Call, start}
use router_ui.CoreDaemon.Started.{is_upstream, start_indifferent}
use router_ui.CoreDaemon.Timely.{Event, beats, sweeps, registers, run, node_run, run-lookup}
use router_ui.CoreDaemon.Silence.{silent-down}
use router_ui.Agent.{Reply, replied}
use router_ui.Health.{sweep_from}
use router_ui.CoreDaemon.{core_checker, adapter_list_nodes}
use router_ui.CoreDaemon.Stale.{stale_sweep}
use router_ui.Registry.States.{downed}
use router_ui.Agent.Heartbeat.{Tools, status_code}
use router_ui.Registry.Serve.{serve}
use router_ui.Registry.Routing.{heartbeat_path}
use router_ui.Registry.Store.{beaten}
use router_ui.Agent.Start
use router_ui.Agent.Start.{
  out_of_fuel, wait_for_wg_tunnel, private_key, set_up_tunnel, join_fabric, leave_fabric,
}
use router_ui.Agent.Waiting.{wait_for_wg_tunnel-ends}
use router_ui.Tests.{texts, env, body_of}
use router_ui.Tests.Nodes.{one_node, first, one_node-Inv}
use router_ui.Tests.Daemons.{answered}
use router_ui.Tests.Devices.{small_core, all_ok}

-- GoBGP refuses whatever is about an upstream.
abbrev no_upstreams : World Call
no_upstreams calls c = if is_upstream c then err "refused" else ok "key"

alike_but_upstreams :
    (calls : List Call) (c : Call) → is_upstream c ≡ false → all_ok calls c ≡ no_upstreams calls c
alike_but_upstreams calls c other = ground (arith, other)

start_indifferent_example :
    start 5 texts small_core all_ok [] ≡ start 5 texts small_core no_upstreams []
start_indifferent_example =
    start_indifferent 5 texts small_core all_ok no_upstreams [] alike_but_upstreams

abbrev logged : Logged
logged = (one_node, [])

-- "a" beats at 20, "b" joins, and a sweep comes at 100.
abbrev busy_day : List Event
busy_day = beats 20 "a" true ∷ registers 30 (body_of "b") "other key" ∷ sweeps 100 ∷ []

run-lookup_example :
    lookup "a" (run env 90 15 busy_day logged).0.nodes
    ≡ some (node_run env 90 15 "a" busy_day first)
unfolding lookup
run-lookup_example = run-lookup env 90 15 busy_day logged "a" first one_node-Inv refl refl

-- Two sweeps, the second of them 93 after the node's registration.
abbrev quiet_day : List Event
quiet_day = sweeps 90 ∷ beats 95 "b" true ∷ sweeps 100 ∷ []

silent-down_example :
    (m : Node) × (lookup "a" (run env 90 15 quiet_day logged).0.nodes ≡ some m)
    × (is_down m.state ≡ true)
unfolding lookup
silent-down_example =
    silent-down env 90 15 quiet_day logged "a" first one_node-Inv refl refl refl refl

abbrev pub agent_config : AgentConfig
agent_config = record {
  node_id = "edge-1";
  core = record { public_ip = "198.51.100.1"; api_port = 8080; api_key = "secret" };
  wireguard = record {
    interface = "wg0";
    private_key = "";
    listen_port = 51820;
    public_ip = "192.0.2.9";
    mtu = 1420;
  };
  bgp = record { hold_time = 90; keepalive = 30 };
  heartbeat_interval = 10;
  log_level = "info";
}

abbrev pub at_once : ℕ → Reply
at_once attempt = replied 200 (ok answered) ""

abbrev pub agent_ok : World Start.Call
agent_ok calls c = ok "key"

-- A minute; each dial takes its two seconds and fails, and the timers are on time.
wait_for_wg_tunnel-ends_example :
    let waited =
      wait_for_wg_tunnel 21 100 60_000_000_000
        (λ i. 0)
        (λ i. 2_000_000_000)
        (λ i. false)
        (λ i. false) in
    (waited.0 ≢ out_of_fuel) × (waited.1 ≤ 20)
wait_for_wg_tunnel-ends_example =
    wait_for_wg_tunnel-ends 100 60_000_000_000 20 (λ i. 0) (λ i. 2_000_000_000) (λ i. false)
      (λ i. false) (omega arith)

-- "a" beats at 100, while a sweep works with what it read before.
stale_sweep_example :
    let beat = run env 90 15 (beats 100 "a" true ∷ []) logged in
    (lookup "a" beat.0.nodes ≡ some (beaten 100 true first))
    × (lookup "a"
          (sweep_from (core_checker texts 90 15) 100 (adapter_list_nodes logged) beat).0.0.nodes
        ≡ some (downed (beaten 100 true first)))
unfolding lookup
stale_sweep_example = stale_sweep env 90 15 100 true logged "a" first one_node-Inv refl refl

-- The registry reads a heartbeat from the name of the node, and answers whatever is sent.
abbrev post_tools : Tools
post_tools = record {
  encode = λ hb. hb.node_id;
  new_request = λ url. none;
  send = λ post. ok (
      status_code
        (serve env 20 (ok [])
          (record {
            method = "POST";
            path = heartbeat_path "a";
            api_key = post.api_key;
            body = post.body;
          })
          one_node).response);
}

abbrev agent_a : AgentConfig
agent_a = record agent_config { node_id = "a" }
