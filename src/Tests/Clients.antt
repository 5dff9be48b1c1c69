-- ===== src/Tests/Clients.antt =====
-- The commands of bgpctl against a registry with one node.
use router_ui.Api.{bgp_node}
use router_ui.Base.{
  List, [], ◌∷◌, map, String, ◌==◌, ◌≡◌, refl, ok, none, if◌then◌else◌, true, false, Result,
}
use router_ui.Base.Dict.{lookup}
use router_ui.Registry.Store.{list_nodes}
use router_ui.Registry.Views.{
  RibEntry, handle_list_nodes, handle_list_routes, node_info, route_entry, status_of,
}
use router_ui.Registry.Serve.{route, dispatch, serve}
use router_ui.Base.Text.{trim_prefix, has_suffix, has_prefix}
use router_ui.Registry.Routing.{node_path}
use router_ui.Speaker.Rib.{collect, last_next_hop, Destination, list_rib, rib_entries}
use router_ui.Bgpctl.Commands
use router_ui.Bgpctl.Commands.{node_show, node_delete, status}
use router_ui.Bgpctl.{Tools, Settings}
use router_ui.Bgpctl.Served.{
  Bodies, reply_of, IsServed, request_to, node_delete-verdict, node_show-verdict,
}
use router_ui.Bgpctl.Routes.{route_list-rib}
use router_ui.Tests.{env, texts}
use router_ui.Tests.Nodes.{one_node, one_node-Inv}

abbrev settings : Settings
settings = record { api_url = "http://10.100.0.1:8080/"; api_key = "secret" }

abbrev bodies : Bodies
bodies = record {
  payload = λ p. "payload";
  message = λ m. "message";
  unauthorized_body = "unauthorized";
  not_found_body = "not found";
}

-- One destination over two paths.
abbrev listed : List Destination
listed =
    record {
      prefix = "203.0.113.0/26";
      paths =
          record { best = true; next_hops = "10.100.0.3" ∷ "10.100.0.2" ∷ [] }
          ∷ record { best = false; next_hops = [] }
          ∷ [];
    }
    ∷ []

abbrev listing : Result String (List RibEntry)
listing = list_rib listed (ok "")

-- Requests for one path, which the registry answers.
abbrev tools : String → Tools
tools path = record {
  new_request = λ method url. none;
  send = λ req. ok (
      reply_of bodies
        (serve env 9 listing
          (record { method = req.method; path = path; api_key = req.api_key; body = "" })
          one_node).response);
  decode_nodes = λ body. ok (map (node_info texts) (list_nodes one_node));
  decode_routes = λ body. ok (map route_entry (rib_entries listed));
  decode_status = λ body. ok (status_of (list_nodes one_node));
  decode_error = λ body. body;
  age = λ now beat. "2s";
  format_time = λ instant. "2026-01-01T00:00:00Z";
}

served :
    (method path : String)
    → IsServed (tools path) bodies settings env 9 listing one_node method path
served method path = record { accepts = refl; answers = refl }

node_delete-verdict_example :
    let path = node_path "a" in
    (node_delete (tools path) settings 9 "a" ≡ ok "OK")
    × ((j : String)
        → lookup j
            (serve env 9 listing
              (request_to (tools path) bodies settings "DELETE" path)
              one_node).registry.nodes
          ≡ (if "a" == j then none else lookup j one_node.nodes))
unfolding lookup
node_delete-verdict_example =
    node_delete-verdict (tools (node_path "a")) bodies settings env 9 listing one_node "a"
      (served "DELETE" (node_path "a"))

node_show-verdict_example :
    node_show (tools "/api/v1/nodes") settings 9 "a"
    ≡ ok (record {
      row = record {
        node_id = "a";
        asn = 65000;
        state = "\u{1b}[33mpending\u{1b}[0m";
        wg_ip = "10.100.0.2";
        subnet = "203.0.113.0/26";
        age = "2s";
        bgp_up = false;
      };
      public_ip = "10.100.0.3";
      last_heartbeat = "2026-01-01T00:00:00Z";
    })
unfolding lookup serve dispatch route handle_list_nodes trim_prefix has_suffix has_prefix list_nodes
node_show-verdict_example =
    node_show-verdict (tools "/api/v1/nodes") bodies settings env 9 listing one_node "a"
      (served "GET" "/api/v1/nodes") (λ infos answered. cc answered) one_node-Inv refl

route_list-rib_example :
    Commands.route_list (tools "/api/v1/routes") settings 9
    ≡ ok (
        record {
          prefix = "203.0.113.0/26";
          next_hop = "10.100.0.2";
          source = bgp_node;
          active = "yes";
        }
        ∷ record { prefix = "203.0.113.0/26"; next_hop = ""; source = bgp_node; active = "no" }
        ∷ [])
unfolding serve dispatch route handle_list_routes trim_prefix has_suffix has_prefix list_rib collect
    last_next_hop
route_list-rib_example =
    route_list-rib (tools "/api/v1/routes") bodies settings env 9 listed "" one_node
      (served "GET" "/api/v1/routes") (λ routes answered. cc answered) refl
