-- ===== src/Tests/Traffic.antt =====
-- Requests as they come in: their key, their paths, and what the status request counts.
use router_ui.Base.{◌≡◌, refl, List, [], ◌∷◌, ok}
use router_ui.Base.Text.{trim_prefix, has_suffix, has_prefix}
use router_ui.Registry.{Request, Node, unauthorized}
use router_ui.Registry.Serve.{route, serve}
use router_ui.Registry.Access.{serve_refused}
use router_ui.Registry.States.{downed}
use router_ui.Tests.{env}
use router_ui.Tests.Nodes.{one_node, first, second}

-- A wrong key, at a route that asks for one.
abbrev foreign : Request
foreign = record { method = "GET"; path = "/api/v1/routes"; api_key = "guess"; body = "" }

serve_refused_example :
    ((serve env 9 (ok []) foreign one_node).registry ≡ one_node)
    × ((serve env 9 (ok []) foreign one_node).effects ≡ [])
    × ((serve env 9 (ok []) foreign one_node).spawned ≡ [])
    × ((serve env 9 (ok []) foreign one_node).response ≡ unauthorized)
unfolding route trim_prefix has_suffix has_prefix
serve_refused_example = serve_refused env 9 (ok []) foreign one_node refl

abbrev mixed : List Node
mixed = first ∷ downed second ∷ []
