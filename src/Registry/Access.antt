-- ===== src/Registry/Access.antt =====
-- checkAPIKey: what a request without the shared key can do.
use router_ui.Base.{ℕ, false, List, [], String, ◌≡◌, refl, arith, Result}
use router_ui.Registry.{Registry, Env, Request, Response, json_ok, summary, unauthorized, not_found}
use router_ui.Registry.Store.{has_api_key, list_nodes}
use router_ui.Registry.Register.{handle_register}
use router_ui.Registry.Delete.{handle_delete_node}
use router_ui.Registry.Views.{
  RibEntry, handle_heartbeat, handle_list_nodes, handle_list_routes, handle_status, status_of,
}
use router_ui.Registry.Serve.{
  Route, to_register, to_heartbeat, to_delete, to_list_nodes, to_list_routes, to_status,
  to_not_found, route, dispatch, serve,
}

-- What is said without the key: the summary is open, and so is that there is no such route.
abbrev pub refusal : Registry → Route → Response
refusal r to_register = unauthorized
refusal r (to_heartbeat id) = unauthorized
refusal r to_list_nodes = unauthorized
refusal r (to_delete id) = unauthorized
refusal r to_list_routes = unauthorized
refusal r to_status = json_ok (summary (status_of (list_nodes r)))
refusal r to_not_found = not_found

dispatch_refused :
    (env : Env) (now : ℕ) (rib : Result String (List RibEntry)) (req : Request) (r : Registry)
    (to : Route)
    → has_api_key r req ≡ false
    → ((dispatch env now rib req r to).registry ≡ r)
      × ((dispatch env now rib req r to).effects ≡ [])
      × ((dispatch env now rib req r to).spawned ≡ [])
      × ((dispatch env now rib req r to).response ≡ refusal r to)
unfolding dispatch handle_register handle_heartbeat handle_delete_node handle_list_nodes
    handle_list_routes handle_status
dispatch_refused env now rib req r to_register h =
    (ground arith, ground arith, ground arith, ground arith)
dispatch_refused env now rib req r (to_heartbeat id) h =
    (ground arith, ground arith, ground arith, ground arith)
dispatch_refused env now rib req r (to_delete id) h =
    (ground arith, ground arith, ground arith, ground arith)
dispatch_refused env now rib req r to_list_nodes h =
    (ground arith, ground arith, ground arith, ground arith)
dispatch_refused env now rib req r to_list_routes h =
    (ground arith, ground arith, ground arith, ground arith)
dispatch_refused env now rib req r to_status h = (refl, refl, refl, refl)
dispatch_refused env now rib req r to_not_found h = (refl, refl, refl, refl)

-- A request without the key changes nothing, starts nothing and makes no call of the WireGuard
-- manager or the speaker, whatever its route, and is answered 401, except that the summary is given
-- without the key and that a path without a route is not found.
pub serve_refused :
    (env : Env) (now : ℕ) (rib : Result String (List RibEntry)) (req : Request) (r : Registry)
    → has_api_key r req ≡ false
    → ((serve env now rib req r).registry ≡ r)
      × ((serve env now rib req r).effects ≡ [])
      × ((serve env now rib req r).spawned ≡ [])
      × ((serve env now rib req r).response ≡ refusal r (route req.method req.path))
unfolding serve
serve_refused env now rib req r h = dispatch_refused env now rib req r (route req.method req.path) h
