-- ===== src/CoreDaemon.antt =====
-- cmd/core/main.go: how the core daemon joins the registry, the BGP speaker and the health checker.
-- The calls that the registry makes are kept in a log beside it.
pub mod Sweep
pub mod Recovery
pub mod Bootstrap
pub mod Tunnels
pub mod Peers
pub mod Wiring
pub mod Network
pub mod SharedKey
pub mod Start
pub mod Started
pub mod Ordered
pub mod Range
pub mod Delivery
pub mod Timely
pub mod Silence
pub mod Stale
pub mod Detection
pub mod Paced
pub mod Intervals
pub mod Running
pub mod Ended
pub mod Unstarted
pub mod Shuffled
pub mod Parted
pub mod Mux
use router_ui.Base.{ℕ, List, [], ◌∷◌, ◌++◌, map, Option, none, some, String, ◌==◌, if◌then◌else◌}
use router_ui.Net.{Texts}
use router_ui.Api.{state_text}
use router_ui.Health
use router_ui.Health.{NodeSnapshot, NodeLister, Checker, new_checker}
use router_ui.Config.{CoreConfig}
use router_ui.Registry.{Core, Node, Registry, Effect, bgp_remove_peer, Callbacks}
use router_ui.Registry.Store.{list_nodes, mark_down}

-- OnNodeUp only logs; OnNodeDown logs and removes the BGP peer.
abbrev pub core_callbacks : Callbacks
core_callbacks = record {
  on_node_up = some (λ node_id peer_addr peer_asn. []);
  on_node_down = some (λ node_id peer_addr. bgp_remove_peer peer_addr ∷ []);
}

-- The registry and the calls that it has made so far.
abbrev pub Logged : Type 0
Logged = Registry × List Effect

abbrev pub snapshot : Node → NodeSnapshot
snapshot n = record { id = n.id; state = state_text n.state; last_heartbeat = n.last_heartbeat }

-- registryAdapter.ListNodes and registryAdapter.MarkDown.
unfoldable pub adapter_list_nodes : Logged → List NodeSnapshot
adapter_list_nodes s = map snapshot (list_nodes s.0)

unfoldable pub adapter_mark_down : Texts → String → Logged → Logged
adapter_mark_down t id s = let done = mark_down t id s.0 in (done.0, s.1 ++ done.1)

abbrev pub registry_adapter : Texts → NodeLister Logged
registry_adapter t = record { list_nodes = adapter_list_nodes; mark_down = adapter_mark_down t }

abbrev pub core_checker : Texts → ℕ → ℕ → Checker Logged
core_checker t timeout interval = new_checker (registry_adapter t) timeout interval

-- The address that the BGP speaker listens on.
unfoldable pub listen_addr : String → String → String
listen_addr configured wg_core_ip = if configured == "" then wg_core_ip else configured

-- What the registry is given of the core: its own public address is the empty text.
abbrev pub core_identity : CoreConfig → String → Core
core_identity cfg wg_public_key = record {
  wg_ip = cfg.network.wg_core_ip;
  wg_public_key = wg_public_key;
  public_ip = "";
  wg_port = cfg.wireguard.listen_port;
  asn = cfg.bgp.asn;
  api_key = cfg.api.api_key;
}
