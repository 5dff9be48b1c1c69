-- ===== src/Registry/Store.antt =====
-- NewRegistry, GetNode, ListNodes, MarkDown, RecordHeartbeat and checkAPIKey. Each holds the
-- registry's mutex for the whole of its access to the nodes.
use router_ui.Base.{
  ℕ, Bool, true, false, List, [], Option, none, some, String, ◌==◌, if◌then◌else◌, Result, ok,
  ◌>>=◌,
}
use router_ui.Base.Dict.{lookup, insert, values}
use router_ui.Net.{Texts}
use router_ui.Subnet
use router_ui.WgPool
use router_ui.Api.{NodeState, active, down}
use router_ui.Registry.{Effect, Callbacks, Node, Core, Registry, Request, Response, Outcome}

unfoldable pub new_registry :
    ℕ → Texts → Subnet.Allocator → Core → String → Callbacks → Result WgPool.Error Registry
new_registry fuel t allocator core wg_peer_range callbacks = do
  pool ← WgPool.new_wg_ip_allocator fuel t wg_peer_range core.wg_ip
  ok (record {
    nodes = [];
    callbacks = callbacks;
    allocator = allocator;
    core = core;
    wg_ip_pool = pool;
  })

unfoldable pub get_node : String → Registry → Option Node
get_node id r = lookup id r.nodes

-- Copies of all nodes, in the order in which the map is met.
unfoldable pub list_nodes : Registry → List Node
list_nodes r = values r.nodes

abbrev pub is_down : NodeState → Bool
is_down down = true
is_down _ = false

abbrev pub run_node_down : Callbacks → String → String → List Effect
run_node_down c id addr = elim c.on_node_down [ none ↦ [] | some f ↦ f id addr ]

abbrev pub run_node_up : Callbacks → String → String → ℕ → List Effect
run_node_up c id addr asn = elim c.on_node_up [ none ↦ [] | some f ↦ f id addr asn ]

unfoldable pub mark_node_down : Texts → String → Registry → Node → Registry × List Effect
mark_node_down t id r n = if is_down n.state then (r, []) else (
  record r { nodes = insert id (record n { state = down }) r.nodes },
  run_node_down r.callbacks id (t.ip_string n.wg_ip),
)

-- The registry afterwards, and the calls made.
unfoldable pub mark_down : Texts → String → Registry → Registry × List Effect
mark_down t id r = elim (lookup id r.nodes) [ none ↦ (r, []) | some n ↦ mark_node_down t id r n ]

-- What RecordHeartbeat writes into a node.
abbrev pub beaten : ℕ → Bool → Node → Node
beaten now bgp_up n = record n { state = active; last_heartbeat = now; bgp_session_up = bgp_up }

unfoldable pub heartbeat_node :
    Texts → ℕ → String → Bool → Registry → Node → Bool × Registry × List Effect
heartbeat_node t now id bgp_up r n = (
  true,
  record r { nodes = insert id (beaten now bgp_up n) r.nodes },
  if is_down n.state then run_node_up r.callbacks id (t.ip_string n.wg_ip) n.asn else [],
)

-- Whether the node is known, the registry afterwards, and the calls of the goroutine.
unfoldable pub record_heartbeat :
    Texts → ℕ → String → Bool → Registry → Bool × Registry × List Effect
record_heartbeat t now id bgp_up r = elim (lookup id r.nodes) [
  | none ↦ (false, r, [])
  | some n ↦ heartbeat_node t now id bgp_up r n
]

abbrev pub has_api_key : Registry → Request → Bool
has_api_key r req = req.api_key == r.core.api_key

-- An answer that leaves the registry as it is and calls nothing.
abbrev pub answer : Registry → Response → Outcome
answer r response = record { registry = r; response = response; effects = []; spawned = [] }
