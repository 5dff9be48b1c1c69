-- ===== src/Registry.antt =====
-- internal/registry/registry.go: the node store of the core and its HTTP API.
-- Here are the state, the requests, the answers and the calls that leave the registry. What a
-- handler does to other components (wireguard.Manager, bgp.Speaker) is a list of such calls in the
-- order in which they are made; their errors are only logged, so no result comes back. What a
-- handler starts in a goroutine stands in a list of its own. Time is an argument, in nanoseconds.
pub mod Store
pub mod Register
pub mod Delete
pub mod Views
pub mod Serve
pub mod Invariant
pub mod Preserve
pub mod History
pub mod Race
pub mod Pending
pub mod Reserve
pub mod Alone
pub mod Interleaved
pub mod Doubled
pub mod States
pub mod Lifecycle
pub mod Access
pub mod Routing
pub mod Status
use router_ui.Base.{ℕ, Bool, List, Option, String, Result}
use router_ui.Base.Dict.{Dict}
use router_ui.Net.{Ip, IpNet, Texts}
use router_ui.Subnet
use router_ui.WgPool
use router_ui.WireGuard.{PeerConfig}
use router_ui.Api.{
  RegisterRequest, RegisterResponse, HeartbeatRequest, NodeState, NodeInfo, RouteEntry,
  StatusResponse,
}

-- A call of another component.
pub data Effect : Type 0 where
  wg_add_peer : PeerConfig → Effect
  wg_remove_peer : String → Effect
  bgp_add_peer : String → ℕ → Effect
  bgp_remove_peer : String → Effect
  bgp_list_rib : Effect

-- `none` is a nil callback; else the calls that it makes.
pub record Callbacks : Type 0 where
  pub on_node_up : Option (String → String → ℕ → List Effect)
  pub on_node_down : Option (String → String → List Effect)

pub record Node : Type 0 where
  pub id : String
  pub asn : ℕ
  pub public_ip : Ip
  pub wg_port : ℕ
  pub wg_public_key : String
  pub wg_ip : Ip
  pub subnet : IpNet
  pub state : NodeState
  pub last_heartbeat : ℕ
  pub bgp_session_up : Bool

-- The core's identity, fixed when the registry is made.
pub record Core : Type 0 where
  pub wg_ip : String
  pub wg_public_key : String
  pub public_ip : String
  pub wg_port : ℕ
  pub asn : ℕ
  pub api_key : String

pub record Registry : Type 0 where
  pub nodes : Dict Node
  pub callbacks : Callbacks
  pub allocator : Subnet.Allocator
  pub core : Core
  pub wg_ip_pool : WgPool.WgIpAllocator

-- What the handlers use of other packages: net's texts, encoding/json at the two request types, and
-- wgtypes.ParseKey. An error is its text.
pub record Env : Type 0 where
  pub texts : Texts
  pub decode_register : String → Result String RegisterRequest
  pub decode_heartbeat : String → Result String HeartbeatRequest
  pub parse_key : String → Result String String

pub record Request : Type 0 where
  pub method : String
  pub path : String
  pub api_key : String
  pub body : String

pub data Payload : Type 0 where
  registered : RegisterResponse → Payload
  acknowledged : Payload
  node_list : List NodeInfo → Payload
  route_list : List RouteEntry → Payload
  summary : StatusResponse → Payload

-- The text of an error answer, by its cause.
pub data Message : Type 0 where
  invalid_body : String → Message
  malformed_body missing_fields : Message
  invalid_key : String → Message
  wg_pool_exhausted : WgPool.Error → Message
  subnet_pool_exhausted : Subnet.Error → Message
  not_registered node_not_found : String → Message
  rib_failed : String → Message

pub data Response : Type 0 where
  json_ok : Payload → Response
  json_error : Message → ℕ → Response
  unauthorized no_content not_found : Response

pub record Outcome : Type 0 where
  pub registry : Registry
  pub response : Response
  pub effects : List Effect
  pub spawned : List Effect
