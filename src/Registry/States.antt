-- ===== src/Registry/States.antt =====
-- MarkDown, RecordHeartbeat and DELETE: what is stored for each node afterwards.
use router_ui.Base.{
  eq_refl, ℕ, Bool, true, false, [], Option, none, some, String, ◌==◌, eq_iff, ◌≡◌, refl, sym,
  arith, if◌then◌else◌, Option-cases, inl, inr,
}
use router_ui.Base.Dict.{lookup, insert, lookup-insert, lookup-delete}
use router_ui.Subnet
use router_ui.Subnet.Methods
use router_ui.WgPool
use router_ui.WgPool.Lease
use router_ui.Registry.Delete.{delete_entry, release_resources, delete_node}
use router_ui.Registry.Invariant.{Inv}
use router_ui.Net.{Texts}
use router_ui.Api.{NodeState, pending, active, down}
use router_ui.Registry.{Node, Registry}
use router_ui.Registry.Store.{
  mark_down, mark_node_down, record_heartbeat, heartbeat_node, is_down, beaten, run_node_down,
  run_node_up,
}

abbrev pub downed : Node → Node
downed n = record n { state = down }

abbrev pub on_some : (Node → Node) → Option Node → Option Node
on_some f none = none
on_some f (some n) = some (f n)

state_down : (s : NodeState) → is_down s ≡ true → s ≡ down
state_down pending h = cc
state_down active h = cc
state_down down h = refl

-- A node that is down already stays as it is.
pub downed_self : (n : Node) → is_down n.state ≡ true → downed n ≡ n
downed_self n h = λ i. record n { state = sym (state_down n.state h) i }

-- MarkDown of a node that is up.
pub mark_down_up :
    (t : Texts) (id : String) (r : Registry) (n : Node)
    → lookup id r.nodes ≡ some n
    → is_down n.state ≡ false
    → mark_down t id r ≡ (
      record r { nodes = insert id (downed n) r.nodes },
      run_node_down r.callbacks id (t.ip_string n.wg_ip),
    )
unfolding mark_down mark_node_down
mark_down_up t id r n at up = rw (at, mark_down) (rw up)

-- RecordHeartbeat of a known node.
pub record_heartbeat_known :
    (t : Texts) (now : ℕ) (id : String) (bgp_up : Bool) (r : Registry) (n : Node)
    → lookup id r.nodes ≡ some n
    → record_heartbeat t now id bgp_up r ≡ (
      true,
      record r { nodes = insert id (beaten now bgp_up n) r.nodes },
      if is_down n.state then run_node_up r.callbacks id (t.ip_string n.wg_ip) n.asn else [],
    )
unfolding record_heartbeat heartbeat_node
record_heartbeat_known t now id bgp_up r n at = rw (at, record_heartbeat)

-- MarkDown sets the state of the named node, if it is there, and leaves every other node.
pub mark_down-lookup :
    (t : Texts) (id j : String) (r : Registry)
    → lookup j (mark_down t id r).0.nodes
      ≡ (if id == j then on_some downed (lookup j r.nodes) else lookup j r.nodes)
unfolding mark_down mark_node_down
mark_down-lookup t id j r = elim (Option-cases (lookup id r.nodes)) [
  | inl new ↦ rw (new, mark_down) (ground (arith, eq_iff id j))
  | inr (n, at) ↦
      rw (at, mark_down)
        (ground (arith, eq_iff id j, lookup-insert id j (downed n) r.nodes, downed_self n))
]

-- RecordHeartbeat makes the named node active with the time and the session state of the heartbeat,
-- reports whether there is such a node, and leaves every other node.
pub record_heartbeat-lookup :
    (t : Texts) (now : ℕ) (id j : String) (bgp_up : Bool) (r : Registry)
    → let done = record_heartbeat t now id bgp_up r in
      (done.0 ≡ (elim (lookup id r.nodes) [ none ↦ false | some _ ↦ true ]))
      × (lookup j done.1.nodes
          ≡ (if id == j then on_some (beaten now bgp_up) (lookup j r.nodes) else lookup j r.nodes))
unfolding record_heartbeat heartbeat_node
record_heartbeat-lookup t now id j bgp_up r = elim (Option-cases (lookup id r.nodes)) [
  | inl new ↦ rw (new, record_heartbeat) (refl, ground (arith, eq_iff id j))
  | inr (n, at) ↦
      rw (at, record_heartbeat)
        (refl, ground (arith, eq_iff id j, lookup-insert id j (beaten now bgp_up n) r.nodes))
]

-- In a registry that satisfies the invariant, deleting a registered node takes it out of the store
-- and leaves the others; it is then unknown to both allocators.
pub delete_node-lookup :
    (t : Texts) (id j : String) (r : Registry) (n : Node)
    → Inv r
    → lookup id r.nodes ≡ some n
    → let s = (delete_node t id r).registry in
      (lookup j s.nodes ≡ (if id == j then none else lookup j r.nodes))
      × (Subnet.subnet_for_node id s.allocator ≡ none)
      × (lookup id s.wg_ip_pool.assigned ≡ none)
unfolding delete_node delete_entry release_resources
delete_node-lookup t id j r n v at =
    rw (at, delete_node)
      (
        lookup-delete id j r.nodes,
        ground (arith, Subnet.Methods.release-holder id id r.allocator v.allocator, eq_refl id),
        ground (arith, WgPool.Lease.release-holder id id r.wg_ip_pool, eq_refl id),
      )
