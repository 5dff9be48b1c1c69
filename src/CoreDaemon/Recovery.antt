-- ===== src/CoreDaemon/Recovery.antt =====
-- A node that was marked down and then sends a heartbeat, with the core's own callbacks.
use router_ui.Base.{ℕ, Bool, false, [], ◌∷◌, some, String, eq_refl, ◌≡◌, ap, arith}
use router_ui.Base.Dict.{lookup, insert, lookup-insert}
use router_ui.Net.{Texts}
use router_ui.Registry.{Node, Registry, bgp_remove_peer}
use router_ui.Registry.Store.{
  mark_down, record_heartbeat, is_down, beaten, run_node_down, run_node_up,
}
use router_ui.Registry.States.{downed, mark_down_up, record_heartbeat_known}
use router_ui.CoreDaemon.{core_callbacks}

-- With the core's callbacks, marking a registered node down that is not down yet removes its BGP
-- peer. A heartbeat then makes it active again, and no call is made: the peer is not added back.
pub recovered_peer :
    (t : Texts) (now : ℕ) (id : String) (bgp_up : Bool) (r : Registry) (n : Node)
    → r.callbacks ≡ core_callbacks
    → lookup id r.nodes ≡ some n
    → is_down n.state ≡ false
    → let marked = mark_down t id r in
      let beat = record_heartbeat t now id bgp_up marked.0 in
      (marked.1 ≡ bgp_remove_peer (t.ip_string n.wg_ip) ∷ [])
      × (lookup id beat.1.nodes ≡ some (beaten now bgp_up n))
      × (beat.2 ≡ [])
recovered_peer t now id bgp_up r n core at up = rw (mark_down_up t id r n at up) (
    rw (record_heartbeat_known t now id bgp_up marked (downed n) stored)
      (peer, again, ap (λ c. run_node_up c id (t.ip_string n.wg_ip) n.asn) core))
  where
    marked : Registry
    marked = record r { nodes = insert id (downed n) r.nodes }

    stored : lookup id marked.nodes ≡ some (downed n)
    stored = ground (arith, lookup-insert id id (downed n) r.nodes, eq_refl id)

    peer :
        run_node_down r.callbacks id (t.ip_string n.wg_ip)
        ≡ bgp_remove_peer (t.ip_string n.wg_ip) ∷ []
    peer = ap (λ c. run_node_down c id (t.ip_string n.wg_ip)) core

    again :
        lookup id (insert id (beaten now bgp_up (downed n)) marked.nodes)
        ≡ some (beaten now bgp_up n)
    again = ground (arith, lookup-insert id id (beaten now bgp_up n) marked.nodes, eq_refl id)
