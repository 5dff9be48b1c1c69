-- ===== src/Api.antt =====
-- pkg/api/types.go: the JSON types of the HTTP control plane.
use router_ui.Base.{ℕ, Bool, String}

pub record RegisterRequest : Type 0 where
  pub node_id : String
  pub public_ip : String
  pub wg_port : ℕ
  pub wg_public_key : String

-- The field Error is left empty by the core.
pub record RegisterResponse : Type 0 where
  pub wg_ip : String
  pub assigned_subnet : String
  pub core_wg_ip : String
  pub core_wg_public_key : String
  pub core_public_ip : String
  pub core_wg_port : ℕ
  pub bgp_peer_ip : String
  pub bgp_peer_asn : ℕ

pub record HeartbeatRequest : Type 0 where
  pub node_id : String
  pub timestamp_unix : ℕ
  pub bgp_session_up : Bool
  pub status : String

pub data NodeState : Type 0 where
  pending active down : NodeState

pub record NodeInfo : Type 0 where
  pub node_id : String
  pub asn : ℕ
  pub state : NodeState
  pub wg_ip : String
  pub assigned_subnet : String
  pub public_ip : String
  pub last_heartbeat : ℕ
  pub bgp_session_up : Bool

pub data RouteSource : Type 0 where
  static bgp_node bgp_upstream : RouteSource

pub record RouteEntry : Type 0 where
  pub prefix : String
  pub next_hop : String
  pub source : RouteSource
  pub active : Bool

-- AggregatePrefix and BGPUpstreams are left at their zero values by the core.
pub record StatusResponse : Type 0 where
  pub is_ok : Bool
  pub version : String
  pub aggregate_prefix : String
  pub bgp_upstreams : ℕ
  pub nodes_total : ℕ
  pub nodes_active : ℕ
  pub nodes_down : ℕ

-- The text of a state, as the source declares the constants.
abbrev pub state_text : NodeState → String
state_text pending = "pending"
state_text active = "active"
state_text down = "down"
