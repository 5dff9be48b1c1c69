-- ===== src/Agent/Start.antt =====
-- run of cmd/agent/main.go, from the loaded configuration on: the calls of the other components in their order, and waitForWGTunnel.
-- A method of another component is one call here. What is started in a goroutine is a call of which
-- nothing is read. The run ends with a signal or with the end of the BGP server.
use router_ui.Base.{ℕ, zero, suc, ◌+◌, Bool, String, ◌==◌, if◌then◌else◌, ltb}
use router_ui.Base.Text.{◌+++◌}
use router_ui.Base.Calls.{Act, pure, fail, perform, attempt, ◌>>=◌, ◌>>◌}
use router_ui.Net.{Texts}
use router_ui.Api.{RegisterResponse}
use router_ui.Config.{AgentConfig}
use router_ui.WireGuard.{InterfaceConfig, PeerConfig}
use router_ui.Speaker.{SpeakerConfig}
use router_ui.Registry.Routing.{heartbeat_path}
use router_ui.Agent.{Reply, Ending, registered, cancelled, gave_up, register_with_retry, core_peer}

pub data Call : Type 0 where
  generate_key : Call
  parse_key new_manager : String → Call
  wg_setup : InterfaceConfig → Call
  wg_add_peer : PeerConfig → Call
  start_speaker : SpeakerConfig → Call
  add_peer : String → ℕ → Call
  wait_for_tunnel : String → Call
  announce_route : String → String → Call
  start_heartbeats : String → Call
  withdraw_route : String → Call

pub data Error : Type 0 where
  no_key bad_key no_manager no_interface bad_core_key no_core_peer no_bgp_peer not_announced
        not_loaded :
      String → Error
  registration_cancelled registration_gave_up : Error

-- The key of the configuration, or a new one.
unfoldable pub private_key : AgentConfig → Act Call Error String
private_key cfg =
    if cfg.wireguard.private_key == ""
    then perform no_key generate_key
    else perform bad_key (parse_key cfg.wireguard.private_key)

abbrev pub registration : Ending → Act Call Error RegisterResponse
registration (registered resp) = pure resp
registration cancelled = fail registration_cancelled
registration gave_up = fail registration_gave_up

abbrev pub agent_interface : AgentConfig → String → RegisterResponse → InterfaceConfig
agent_interface cfg key resp = record {
  name = cfg.wireguard.interface;
  private_key = key;
  listen_port = cfg.wireguard.listen_port;
  address = resp.wg_ip +++ "/24";
  mtu = cfg.wireguard.mtu;
}

-- A leaf installs no routes: it has no interface for them.
abbrev pub agent_speaker : AgentConfig → RegisterResponse → SpeakerConfig
agent_speaker cfg resp = record {
  asn = resp.bgp_peer_asn;
  router_id = resp.wg_ip;
  listen_addr = resp.wg_ip;
  listen_port = 179;
  hold_time = cfg.bgp.hold_time;
  keepalive = cfg.bgp.keepalive;
  wg_interface = "";
  wg_peer_range = "";
}

-- `port_text` writes a number in decimal digits.
abbrev pub heartbeat_url : (ℕ → String) → AgentConfig → RegisterResponse → String
heartbeat_url port_text cfg resp =
    "http://"
    +++ (resp.core_wg_ip +++ (":" +++ (port_text cfg.core.api_port +++ heartbeat_path cfg.node_id)))

-- The tunnel to the core.
unfoldable pub set_up_tunnel :
    Texts → AgentConfig → String → RegisterResponse → Act Call Error String
set_up_tunnel t cfg key resp = do
  perform no_manager (new_manager cfg.wireguard.interface)
  perform no_interface (wg_setup (agent_interface cfg key resp))
  core_key ← perform bad_core_key (parse_key resp.core_wg_public_key)
  perform no_core_peer (wg_add_peer (core_peer t resp core_key))

-- The BGP session with the core and the node's own block. That the tunnel does not come up is only
-- logged.
unfoldable pub join_fabric : (ℕ → String) → AgentConfig → RegisterResponse → Act Call Error String
join_fabric port_text cfg resp = do
  attempt (start_speaker (agent_speaker cfg resp))
  perform no_bgp_peer (add_peer resp.bgp_peer_ip resp.bgp_peer_asn)
  attempt (wait_for_tunnel resp.core_wg_ip)
  perform not_announced (announce_route resp.assigned_subnet resp.wg_ip)

-- The heartbeats start before the signal, the withdrawal comes after it.
unfoldable pub leave_fabric : (ℕ → String) → AgentConfig → RegisterResponse → Act Call Error Bool
leave_fabric port_text cfg resp = do
  attempt (start_heartbeats (heartbeat_url port_text cfg resp))
  attempt (withdraw_route resp.assigned_subnet)

unfoldable pub run :
    Texts → (ℕ → String) → AgentConfig → (ℕ → Reply) → (ℕ → Bool) → Act Call Error Bool
run t port_text cfg replies stops = do
  key ← private_key cfg
  resp ← registration (register_with_retry replies stops).0
  set_up_tunnel t cfg key resp
  join_fabric port_text cfg resp
  leave_fabric port_text cfg resp

pub data Waited : Type 0 where
  is_up stopped timed_out out_of_fuel : Waited

-- The loop of waitForWGTunnel from its `i`-th round on, in nanoseconds: how it ends, and how many
-- dials it makes. `now` is the time when the round begins, `late` how much later its test reads the
-- clock, and `takes` how long its dial is; a timer that fires late counts to the next `late`. `dials`
-- has whether each dial succeeds, `stops` whether the context ends in the pause after it.
module _ (deadline : ℕ) (late takes : ℕ → ℕ) (dials stops : ℕ → Bool) where
  unfoldable pub wait_from : ℕ → ℕ → ℕ → Waited × ℕ
  wait_from now i zero = (out_of_fuel, 0)
  wait_from now i (suc fuel) =
      let tested = now + late i in
      let rest = wait_from (tested + takes i + 3_000_000_000) (i + 1) fuel in
      if ltb tested deadline
      then if dials i then (is_up, 1) else if stops i then (stopped, 1) else (rest.0, rest.1 + 1)
      else (timed_out, 0)

-- `started` is the time at the call.
unfoldable pub wait_for_wg_tunnel :
    ℕ → ℕ → ℕ → (ℕ → ℕ) → (ℕ → ℕ) → (ℕ → Bool) → (ℕ → Bool) → Waited × ℕ
wait_for_wg_tunnel fuel started timeout late takes dials stops =
    wait_from (started + timeout) late takes dials stops started 0 fuel
