-- ===== src/Registry/Delete.antt =====
-- handleDeleteNode, in the two parts between which it lets go of the mutex.
use router_ui.Base.{List, [], ◌∷◌, none, some, String, if◌then◌else◌}
use router_ui.Base.Dict.{lookup, delete}
use router_ui.Net.{Texts}
use router_ui.Subnet
use router_ui.WgPool
use router_ui.Registry.{
  Effect, wg_remove_peer, bgp_remove_peer, Node, Registry, Request, node_not_found, json_error,
  unauthorized, no_content, Outcome,
}
use router_ui.Registry.Store.{run_node_down, has_api_key, answer}

-- Under the lock: the entry goes.
unfoldable pub delete_entry : String → Registry → Registry
delete_entry id r = record r { nodes = delete id r.nodes }

-- After the lock: the block and the address go back, then the peers are removed.
unfoldable pub release_resources : String → Registry → Registry
release_resources id r = record r {
  allocator = (Subnet.release id r.allocator).1;
  wg_ip_pool = WgPool.release id r.wg_ip_pool;
}

abbrev pub removals : Texts → String → Node → Registry → List Effect
removals t id n r =
    wg_remove_peer n.wg_public_key
    ∷ bgp_remove_peer (t.ip_string n.wg_ip)
    ∷ run_node_down r.callbacks id (t.ip_string n.wg_ip)

unfoldable pub delete_node : Texts → String → Registry → Outcome
delete_node t id r = elim (lookup id r.nodes) [
  | none ↦ answer r (json_error (node_not_found id) 404)
  | some n ↦ record {
    registry = release_resources id (delete_entry id r);
    response = no_content;
    effects = removals t id n r;
    spawned = [];
  }
]

unfoldable pub handle_delete_node : Texts → String → Request → Registry → Outcome
handle_delete_node t id req r =
    if has_api_key r req then delete_node t id r else answer r unauthorized
