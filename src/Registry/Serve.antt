-- ===== src/Registry/Serve.antt =====
-- ServeHTTP: the routing of a request by its method and path.
use router_ui.Base.{ℕ, ◌&&◌, List, String, ◌==◌, if◌then◌else◌, Result}
use router_ui.Base.Text.{trim_prefix, trim_suffix, has_prefix, has_suffix}
use router_ui.Registry.{Registry, Env, Request, not_found, Outcome}
use router_ui.Registry.Store.{answer}
use router_ui.Registry.Register.{handle_register}
use router_ui.Registry.Delete.{handle_delete_node}
use router_ui.Registry.Views.{
  RibEntry, handle_heartbeat, handle_list_nodes, handle_list_routes, handle_status,
}

-- The cases of the switch.
pub data Route : Type 0 where
  to_register to_list_nodes to_list_routes to_status to_not_found : Route
  to_heartbeat to_delete : String → Route

unfoldable pub route : String → String → Route
route method url_path =
    let path = trim_prefix url_path "/api/v1" in
    if method == "POST" && path == "/nodes/register"
    then to_register
    else if method == "POST" && has_suffix path "/heartbeat"
    then to_heartbeat (trim_suffix (trim_prefix path "/nodes/") "/heartbeat")
    else if method == "GET" && path == "/nodes"
    then to_list_nodes
    else if method == "DELETE" && has_prefix path "/nodes/"
    then to_delete (trim_prefix path "/nodes/")
    else if method == "GET" && path == "/routes"
    then to_list_routes
    else if method == "GET" && path == "/status"
    then to_status
    else to_not_found

unfoldable pub dispatch :
    Env → ℕ → Result String (List RibEntry) → Request → Registry → Route → Outcome
dispatch env now rib req r to_register = handle_register env now req r
dispatch env now rib req r (to_heartbeat id) = handle_heartbeat env now id req r
dispatch env now rib req r to_list_nodes = handle_list_nodes env.texts req r
dispatch env now rib req r (to_delete id) = handle_delete_node env.texts id req r
dispatch env now rib req r to_list_routes = handle_list_routes rib req r
dispatch env now rib req r to_status = handle_status r
dispatch env now rib req r to_not_found = answer r not_found

unfoldable pub serve : Env → ℕ → Result String (List RibEntry) → Request → Registry → Outcome
serve env now rib req r = dispatch env now rib req r (route req.method req.path)
