-- ===== src/Registry/Views.antt =====
-- handleHeartbeat, handleListNodes, handleListRoutes and handleStatus.
use router_ui.Base.{
  ℕ, ◌+◌, Bool, List, [], ◌∷◌, map, String, if◌then◌else◌, Result, ok, err, length, nat_eq,
}
use router_ui.Net.{Texts}
use router_ui.Api.{pending, active, down, NodeInfo, RouteEntry, bgp_node, StatusResponse}
use router_ui.Registry.{
  Node, Registry, Env, Request, acknowledged, node_list, route_list, summary, malformed_body,
  not_registered, rib_failed, json_ok, json_error, unauthorized, Outcome, bgp_list_rib,
}
use router_ui.Registry.Store.{list_nodes, record_heartbeat, has_api_key, answer}

-- bgp.RIBEntry.
pub record RibEntry : Type 0 where
  pub prefix : String
  pub next_hop : String
  pub best : Bool

unfoldable pub handle_heartbeat : Env → ℕ → String → Request → Registry → Outcome
handle_heartbeat env now id req r =
    if has_api_key r req
    then elim (env.decode_heartbeat req.body) [
      | err e ↦ answer r (json_error malformed_body 400)
      | ok hb ↦
          let done = record_heartbeat env.texts now id hb.bgp_session_up r in
          if done.0
          then record {
            registry = done.1;
            response = json_ok acknowledged;
            effects = [];
            spawned = done.2;
          }
          else answer r (json_error (not_registered id) 404)
    ]
    else answer r unauthorized

abbrev pub node_info : Texts → Node → NodeInfo
node_info t n = record {
  node_id = n.id;
  asn = n.asn;
  state = n.state;
  wg_ip = t.ip_string n.wg_ip;
  assigned_subnet = t.cidr_string n.subnet;
  public_ip = t.ip_string n.public_ip;
  last_heartbeat = n.last_heartbeat;
  bgp_session_up = n.bgp_session_up;
}

unfoldable pub handle_list_nodes : Texts → Request → Registry → Outcome
handle_list_nodes t req r =
    if has_api_key r req
    then answer r (json_ok (node_list (map (node_info t) (list_nodes r))))
    else answer r unauthorized

abbrev pub route_entry : RibEntry → RouteEntry
route_entry e = record {
  prefix = e.prefix;
  next_hop = e.next_hop;
  source = bgp_node;
  active = e.best;
}

-- `rib` is what Speaker.ListRIB answers where it is called.
unfoldable pub handle_list_routes : Result String (List RibEntry) → Request → Registry → Outcome
handle_list_routes rib req r =
    if has_api_key r req
    then record {
      registry = r;
      response = elim rib [
        | err e ↦ json_error (rib_failed e) 500
        | ok entries ↦ json_ok (route_list (map route_entry entries))
      ];
      effects = bgp_list_rib ∷ [];
      spawned = [];
    }
    else answer r unauthorized

-- The loop of handleStatus, over (active, down).
unfoldable pub count_states : ℕ → ℕ → List Node → ℕ × ℕ
count_states actives downs [] = (actives, downs)
count_states actives downs (n ∷ ns) = elim n.state [
  | active ↦ count_states (actives + 1) downs ns
  | down ↦ count_states actives (downs + 1) ns
  | pending ↦ count_states actives downs ns
]

abbrev pub status_of : List Node → StatusResponse
status_of nodes =
    let counts = count_states 0 0 nodes in
    record {
      is_ok = nat_eq counts.1 0;
      version = "1.0.0";
      aggregate_prefix = "";
      bgp_upstreams = 0;
      nodes_total = length nodes;
      nodes_active = counts.0;
      nodes_down = counts.1;
    }

-- No key is asked for.
unfoldable pub handle_status : Registry → Outcome
handle_status r = answer r (json_ok (summary (status_of (list_nodes r))))
