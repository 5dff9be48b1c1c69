-- ===== src/Bgpctl/Routes.antt =====
-- `bgpctl route list` against internal/registry/registry.go and internal/bgp/speaker.go.
use router_ui.Base.{
  ℕ, List, [], ◌∷◌, ◌++◌, map, String, eq_iff, ◌≡◌, refl, arith, ok, ap, ◌∙◌, if◌then◌else◌,
}
use router_ui.Base.Text.{trim_prefix, has_suffix, has_prefix}
use router_ui.Registry.{Registry, Env, json_ok, route_list}
use router_ui.Registry.Views.{route_entry, handle_list_routes}
use router_ui.Registry.Serve.{route, dispatch, serve}
use mathlib.Core.List.{map-append}
use router_ui.Api.{RouteEntry, bgp_node}
use router_ui.Speaker.Rib.{
  RibPath, Destination, list_rib, rib_entry, rib_entries, collect_lem, last_next_hop,
}
use router_ui.Bgpctl.Commands
use router_ui.Bgpctl.{Tools, Settings, RouteRow, route_row}
use router_ui.Bgpctl.Served.{Bodies, IsServed, request_to, api_get-served}

listed_routes :
    (t : Tools) (b : Bodies) (settings : Settings) (env : Env) (now : ℕ) (listed : List Destination)
    (text : String) (r : Registry)
    → settings.api_key ≡ r.core.api_key
    → (serve env now
        (list_rib listed (ok text))
        (request_to t b settings "GET" "/api/v1/routes")
        r).response
      ≡ json_ok (route_list (map route_entry (rib_entries listed)))
unfolding serve dispatch route handle_list_routes trim_prefix has_suffix has_prefix list_rib
listed_routes t b settings env now listed text r key =
    ground (arith, eq_iff settings.api_key r.core.api_key, key, collect_lem [] listed)

-- The last text, or none.
abbrev pub last_text : List String → String
last_text [] = ""
last_text (h ∷ []) = h
last_text (h ∷ k ∷ hs) = last_text (k ∷ hs)

-- What is to be printed for GoBGP's answer: one row for each path of each destination.
abbrev pub path_rows : String → List RibPath → List RouteRow
path_rows prefix [] = []
path_rows prefix (p ∷ ps) =
    record {
      prefix = prefix;
      next_hop = last_text p.next_hops;
      source = bgp_node;
      active = if p.best then "yes" else "no";
    }
    ∷ path_rows prefix ps

abbrev pub rib_rows : List Destination → List RouteRow
rib_rows [] = []
rib_rows (d ∷ ds) = path_rows d.prefix d.paths ++ rib_rows ds

last_next_hop_lem : (h : String) (hs : List String) → last_next_hop h hs ≡ last_text (h ∷ hs)
unfolding last_next_hop
last_next_hop_lem h [] = refl
last_next_hop_lem h (k ∷ hs) = last_next_hop_lem k hs

last_hop : (hs : List String) → last_next_hop "" hs ≡ last_text hs
unfolding last_next_hop
last_hop [] = refl
last_hop (h ∷ hs) = last_next_hop_lem h hs

path_rows_lem :
    (prefix : String) (ps : List RibPath)
    → map route_row (map route_entry (map (rib_entry prefix) ps)) ≡ path_rows prefix ps
path_rows_lem prefix [] = refl
path_rows_lem prefix (p ∷ ps) = rw (last_hop p.next_hops, path_rows_lem prefix ps) refl

rib_rows_lem :
    (ds : List Destination) → map route_row (map route_entry (rib_entries ds)) ≡ rib_rows ds
rib_rows_lem [] = refl
rib_rows_lem (d ∷ ds) =
    ap (map route_row) (map-append route_entry (map (rib_entry d.prefix) d.paths) (rib_entries ds))
    ∙ map-append route_row (map route_entry (map (rib_entry d.prefix) d.paths))
        (map route_entry (rib_entries ds))
    ∙ rw (path_rows_lem d.prefix d.paths, rib_rows_lem ds) refl

-- With the right key, when GoBGP lists its paths to the end, and if the list of routes that the
-- registry answers with is decoded as it was encoded, `route list` prints one row for each path of
-- each destination, in GoBGP's order: its prefix, the last next hop among its attributes or none,
-- and whether it is the best. The source of every row is "bgp-node", also of the core's own
-- aggregate.
pub route_list-rib :
    (t : Tools) (b : Bodies) (settings : Settings) (env : Env) (now : ℕ) (listed : List Destination)
    (text : String) (r : Registry)
    → IsServed t b settings env now (list_rib listed (ok text)) r "GET" "/api/v1/routes"
    → ((routes : List RouteEntry)
        → (serve env now
            (list_rib listed (ok text))
            (request_to t b settings "GET" "/api/v1/routes")
            r).response
          ≡ json_ok (route_list routes)
        → t.decode_routes (b.payload (route_list routes)) ≡ ok routes)
    → settings.api_key ≡ r.core.api_key
    → Commands.route_list t settings now ≡ ok (rib_rows listed)
unfolding Commands.route_list
route_list-rib t b settings env now listed text r h read key =
    let entries = map route_entry (rib_entries listed) in
    let answered = listed_routes t b settings env now listed text r key in
    rw
      (api_get-served t b settings env now (list_rib listed (ok text)) r t.decode_routes "/routes"
        (route_list entries) entries h answered (read entries answered))
      (ap ok (rib_rows_lem listed))
