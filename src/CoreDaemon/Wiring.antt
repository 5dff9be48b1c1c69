-- ===== src/CoreDaemon/Wiring.antt =====
-- internal/registry/registry.go with the core's WireGuard device: what each operation does to both.
use router_ui.Base.{
  ℕ, ◌≤◌, Bool, true, false, List, [], ◌∷◌, ◌++◌, Option, none, some, String, ◌≡◌, refl, ap, sym,
  if◌then◌else◌, subst, inl, inr, Bool-cases, Option-cases, ok, Result-cases,
}
use router_ui.Base.Dict.{lookup, insert}
use router_ui.Net.{Ip, IpNet}
use router_ui.Subnet
use router_ui.WgPool
use router_ui.Subnet.Shape.{allocate-HasShape}
use router_ui.WireGuard.{DeviceConfig, PeerConfig, one_peer, removed}
use router_ui.WireGuard.Device.{IsWgDevice}
use router_ui.Api.{RegisterRequest, down}
use router_ui.Registry.{
  Node, Registry, Env, Effect, wg_add_peer, wg_remove_peer, bgp_add_peer, bgp_remove_peer, Outcome,
}
use router_ui.Registry.Store.{
  mark_down, mark_node_down, record_heartbeat, heartbeat_node, beaten, is_down, run_node_up,
  run_node_down,
}
use router_ui.Registry.Register.{register_node, new_node, install, allocate_wg_ip, allocate_subnet}
use router_ui.Registry.Delete.{delete_node}
use router_ui.Registry.Alone.{subnet_failed-Inv, pool_failed-Inv}
use router_ui.CoreDaemon.Tunnels.{after_effects, networks}
use router_ui.CoreDaemon.Peers.{
  Connected, IsUnused, rewrite-Connected, remove-Connected, insert-Connected,
}

module _ {D : Type 0} (configure : DeviceConfig → D → D)
    (allowed_ips : String → D → Option (List IpNet)) (bits : ℕ) (name : String) where
  -- What a call of the registry leaves: the registry, and the device after its calls.
  abbrev pub told : List Effect → D → D
  told es d = after_effects configure name es d

  abbrev pub told_by : Outcome → D → D
  told_by out d = told (out.effects ++ out.spawned) d

  module _ (wg : IsWgDevice configure allowed_ips) (short : bits ≤ 30) (env : Env) where
    install-Connected :
        (now : ℕ) (req : RegisterRequest) (key : String) (ip : Ip) (net : IpNet) (r : Registry)
        (d : D)
        → Connected allowed_ips bits r d
        → lookup req.node_id r.nodes ≡ none
        → (WgPool.allocate req.node_id r.wg_ip_pool).0 ≡ ok ip
        → (Subnet.allocate req.node_id r.allocator).0 ≡ ok net
        → IsUnused allowed_ips bits key r
        → let out = install env now req key ip net (record r {
          allocator = (Subnet.allocate req.node_id r.allocator).1;
          wg_ip_pool = (WgPool.allocate req.node_id r.wg_ip_pool).1;
        }) in
          Connected allowed_ips bits out.registry (told_by out d)
    unfolding install after_effects
    install-Connected now req key ip net r d c new got found unused =
        let node : Node = new_node env now r req key ip net in
        let peer : PeerConfig = record {
          public_key = key;
          endpoint = some (record { ip = env.texts.parse_ip req.public_ip; port = req.wg_port });
          allowed_ips = networks node;
          persistent_keepalive = 0;
        } in
        let told_all =
          ap
            (λ cb.
              after_effects configure name
                (wg_add_peer peer
                  ∷ bgp_add_peer (env.texts.ip_string ip) r.core.asn
                  ∷ run_node_up cb req.node_id (env.texts.ip_string ip) r.core.asn)
                d)
            c.callbacks in
        let s : Registry = record r {
          nodes = insert req.node_id node r.nodes;
          allocator = (Subnet.allocate req.node_id r.allocator).1;
          wg_ip_pool = (WgPool.allocate req.node_id r.wg_ip_pool).1;
        } in
        subst (λ e. Connected allowed_ips bits s e) (sym told_all)
          (insert-Connected allowed_ips bits configure wg short env node peer r d c new got found
            unused refl refl)

    pub register_node-Connected :
        (now : ℕ) (req : RegisterRequest) (key : String) (r : Registry) (d : D)
        → Connected allowed_ips bits r d
        → (lookup req.node_id r.nodes ≡ none → IsUnused allowed_ips bits key r)
        → Connected allowed_ips bits
            (register_node env now req key r).registry
            (told_by (register_node env now req key r) d)
    unfolding register_node allocate_wg_ip allocate_subnet after_effects
    register_node-Connected now req key r d c unused =
        elim (Option-cases (lookup req.node_id r.nodes)) [
          | inr (n, at) ↦ rw (at, register_node) c
          | inl new ↦
              rw (new, register_node)
                (elim (Result-cases (WgPool.allocate req.node_id r.wg_ip_pool).0) [
                  | inl (e, failed) ↦
                      rw (failed, allocate_wg_ip)
                        (record {
                          inv = pool_failed-Inv req.node_id e r c.inv new failed;
                          shape = record { blocks = c.shape.blocks };
                          callbacks = c.callbacks;
                          keys = c.keys;
                          peers = c.peers;
                        })
                  | inr (ip, got) ↦
                      rw (got, allocate_wg_ip)
                        (elim (Result-cases (Subnet.allocate req.node_id r.allocator).0) [
                          | inl (e, failed) ↦
                              rw (failed, allocate_subnet)
                                (record {
                                  inv = subnet_failed-Inv req.node_id e r c.inv new failed;
                                  shape = allocate-HasShape bits req.node_id r.allocator c.shape;
                                  callbacks = c.callbacks;
                                  keys = c.keys;
                                  peers = c.peers;
                                })
                          | inr (net, found) ↦
                              rw (found, allocate_subnet)
                                (install-Connected now req key ip net r d c new got found
                                  (unused new))
                        ])
                ])
        ]

    -- The core's callbacks do not touch the device.
    told_down :
        (r : Registry) (id addr : String) (d : D)
        → Connected allowed_ips bits r d
        → told (run_node_down r.callbacks id addr) d ≡ d
    unfolding after_effects
    told_down r id addr d c = ap (λ cb. told (run_node_down cb id addr) d) c.callbacks

    told_up :
        (r : Registry) (id addr : String) (asn : ℕ) (recovers : Bool) (d : D)
        → Connected allowed_ips bits r d
        → told (if recovers then run_node_up r.callbacks id addr asn else []) d ≡ d
    unfolding after_effects
    told_up r id addr asn true d c = ap (λ cb. told (run_node_up cb id addr asn) d) c.callbacks
    told_up r id addr asn false d c = refl

    pub delete_node-Connected :
        (id : String) (r : Registry) (d : D)
        → Connected allowed_ips bits r d
        → Connected allowed_ips bits
            (delete_node env.texts id r).registry
            (told_by (delete_node env.texts id r) d)
    unfolding delete_node after_effects
    delete_node-Connected id r d c = elim (Option-cases (lookup id r.nodes)) [
      | inl new ↦ rw (new, delete_node) c
      | inr (n, at) ↦
          let gone : told_by (delete_node env.texts id r) d
              ≡ configure (one_peer (removed n.wg_public_key)) d =
            rw (at, delete_node)
              (ap
                (λ cb.
                  told
                    (wg_remove_peer n.wg_public_key
                      ∷ bgp_remove_peer (env.texts.ip_string n.wg_ip)
                      ∷ (run_node_down cb id (env.texts.ip_string n.wg_ip) ++ []))
                    d)
                c.callbacks) in
          subst (λ e. Connected allowed_ips bits (delete_node env.texts id r).registry e) (sym gone)
            (remove-Connected allowed_ips bits configure env.texts id n r d wg c at)
    ]

    pub mark_down-Connected :
        (id : String) (r : Registry) (d : D)
        → Connected allowed_ips bits r d
        → Connected allowed_ips bits
            (mark_down env.texts id r).0
            (told (mark_down env.texts id r).1 d)
    unfolding mark_down mark_node_down after_effects
    mark_down-Connected id r d c = elim (Option-cases (lookup id r.nodes)) [
      | inl new ↦ rw (new, mark_down) c
      | inr (n, at) ↦
          rw (at, mark_down)
            (elim (Bool-cases (is_down n.state)) [
              | inl gone ↦ rw gone c
              | inr up ↦ rw up (
                  subst
                    (λ e.
                      Connected allowed_ips bits
                        (record r { nodes = insert id (record n { state = down }) r.nodes }) e)
                    (sym (told_down r id (env.texts.ip_string n.wg_ip) d c))
                    (rewrite-Connected allowed_ips bits id n (record n { state = down }) r d c at
                      refl refl refl refl))
            ])
    ]

    pub record_heartbeat-Connected :
        (now : ℕ) (id : String) (bgp_up : Bool) (r : Registry) (d : D)
        → Connected allowed_ips bits r d
        → Connected allowed_ips bits
            (record_heartbeat env.texts now id bgp_up r).1
            (told (record_heartbeat env.texts now id bgp_up r).2 d)
    unfolding record_heartbeat heartbeat_node after_effects
    record_heartbeat-Connected now id bgp_up r d c = elim (Option-cases (lookup id r.nodes)) [
      | inl new ↦ rw (new, record_heartbeat) c
      | inr (n, at) ↦
          rw (at, record_heartbeat)
            (subst
              (λ e.
                Connected allowed_ips bits
                  (record r { nodes = insert id (beaten now bgp_up n) r.nodes }) e)
              (sym (told_up r id (env.texts.ip_string n.wg_ip) n.asn (is_down n.state) d c))
              (rewrite-Connected allowed_ips bits id n (beaten now bgp_up n) r d c at refl refl refl
                refl))
    ]
