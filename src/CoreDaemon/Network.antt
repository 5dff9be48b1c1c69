-- ===== src/CoreDaemon/Network.antt =====
-- internal/registry/registry.go with the core's WireGuard device, over a history of operations.
use router_ui.Base.{ℕ, Bool, List, Option, none, String, ◌≡◌}
use router_ui.Base.Dict.{lookup}
use router_ui.Net.{IpNet}
use router_ui.WireGuard.{DeviceConfig}
use router_ui.Api.{RegisterRequest}
use router_ui.Registry.{Registry, Env}
use router_ui.Registry.Store.{mark_down, record_heartbeat}
use router_ui.Registry.Register.{register_node}
use router_ui.Registry.Delete.{delete_node}
use router_ui.CoreDaemon.Peers.{IsUnused}
use router_ui.CoreDaemon.Wiring.{told, told_by}

module _ {D : Type 0} (configure : DeviceConfig → D → D)
    (allowed_ips : String → D → Option (List IpNet)) (bits : ℕ) (name : String) where
  -- The registration of a node with a key that no other node has, the removal of a node, a mark by
  -- the health checker, a heartbeat.
  pub data Step (env : Env) : Registry → D → Registry → D → Type 0 where
    registers :
        (now : ℕ) (req : RegisterRequest) (key : String) (r : Registry) (d : D)
        → (lookup req.node_id r.nodes ≡ none → IsUnused allowed_ips bits key r)
        → Step env r d
            (register_node env now req key r).registry
            (told_by configure allowed_ips bits name (register_node env now req key r) d)
    deletes :
        (id : String) (r : Registry) (d : D)
        → Step env r d
            (delete_node env.texts id r).registry
            (told_by configure allowed_ips bits name (delete_node env.texts id r) d)
    marks :
        (id : String) (r : Registry) (d : D)
        → Step env r d
            (mark_down env.texts id r).0
            (told configure allowed_ips bits name (mark_down env.texts id r).1 d)
    beats :
        (now : ℕ) (id : String) (bgp_up : Bool) (r : Registry) (d : D)
        → Step env r d
            (record_heartbeat env.texts now id bgp_up r).1
            (told configure allowed_ips bits name (record_heartbeat env.texts now id bgp_up r).2 d)

  pub data Reach (env : Env) (r : Registry) (d : D) : Registry → D → Type 0 where
    here : Reach env r d r d
    next : {s u : Registry} {e f : D} → Reach env r d s e → Step env s e u f → Reach env r d u f
