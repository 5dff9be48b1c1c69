-- ===== src/Registry/Lifecycle.antt =====
-- Registering, registering again and deleting, one after the other.
use router_ui.Base.{
  ℕ, Bool, true, false, [], none, some, String, eq_refl, ◌≡◌, refl, ◌≢◌, ◌↔◌, ◌∙◌, ap, arith, ok,
  err, Result-cases, Option-cases, inl, inr,
}
use router_ui.Base.Dict.{lookup, lookup-insert}
use router_ui.Net.{Ip, IpNet}
use router_ui.Subnet
use router_ui.Subnet.Methods
use router_ui.Subnet.Owners
use router_ui.WgPool
use router_ui.WgPool.Lease
use router_ui.Api.{RegisterRequest}
use router_ui.Registry.{Node, Registry, Env, Outcome, Response, json_ok, registered}
use router_ui.Registry.Store.{answer}
use router_ui.Registry.Register.{
  install, allocate_subnet, allocate_wg_ip, register_node, new_node, build_register_response,
}
use router_ui.Registry.Invariant.{Inv, subnet_of, wg_ip_of}

abbrev pub is_json_ok : Response → Bool
is_json_ok (json_ok p) = true
is_json_ok _ = false

module _ (env : Env) (now : ℕ) (req : RegisterRequest) (key : String) (r : Registry) where
  abbrev after : Outcome
  after = register_node env now req key r

  -- A new node with the two allocations that it needs.
  pub register_stored :
      (ip : Ip) (net : IpNet)
      → lookup req.node_id r.nodes ≡ none
      → (WgPool.allocate req.node_id r.wg_ip_pool).0 ≡ ok ip
      → (Subnet.allocate req.node_id r.allocator).0 ≡ ok net
      → after
        ≡ install env now req key ip net (record r {
          allocator = (Subnet.allocate req.node_id r.allocator).1;
          wg_ip_pool = (WgPool.allocate req.node_id r.wg_ip_pool).1;
        })
  unfolding register_node allocate_wg_ip allocate_subnet install
  register_stored ip net new got found =
      rw (new, register_node) (rw (got, allocate_wg_ip) (rw (found, allocate_subnet)))

  register_no_ip :
      (e : WgPool.Error)
      → lookup req.node_id r.nodes ≡ none
      → (WgPool.allocate req.node_id r.wg_ip_pool).0 ≡ err e
      → (is_json_ok after.response ≡ false)
        × (after.registry.nodes ≡ r.nodes)
        × (after.effects ≡ [])
        × (after.spawned ≡ [])
  unfolding register_node allocate_wg_ip
  register_no_ip e new failed =
      rw (new, register_node) (rw (failed, allocate_wg_ip) (refl, refl, refl, refl))

  register_no_subnet :
      (ip : Ip) (e : Subnet.Error)
      → lookup req.node_id r.nodes ≡ none
      → (WgPool.allocate req.node_id r.wg_ip_pool).0 ≡ ok ip
      → (Subnet.allocate req.node_id r.allocator).0 ≡ err e
      → (is_json_ok after.response ≡ false)
        × (after.registry.nodes ≡ r.nodes)
        × (after.effects ≡ [])
        × (after.spawned ≡ [])
  unfolding register_node allocate_wg_ip allocate_subnet
  register_no_subnet ip e new got failed =
      rw (new, register_node)
        (rw (got, allocate_wg_ip) (rw (failed, allocate_subnet) (refl, refl, refl, refl)))

  -- The answers of the two allocators to a node that they do not know.
  ip_answer :
      Inv r
      → lookup req.node_id r.nodes ≡ none
      → (WgPool.allocate req.node_id r.wg_ip_pool).0 ≡ WgPool.Lease.answer none r.wg_ip_pool.pool
  ip_answer v new =
      WgPool.Lease.allocate-result req.node_id r.wg_ip_pool
      ∙ ap (λ o. WgPool.Lease.answer o r.wg_ip_pool.pool)
          (v.addresses req.node_id ∙ ap wg_ip_of new)

  subnet_answer :
      Inv r
      → lookup req.node_id r.nodes ≡ none
      → (Subnet.allocate req.node_id r.allocator).0
        ≡ Subnet.or_fail (Subnet.Owners.first_free r.allocator.subnets) Subnet.no_free
  subnet_answer v new =
      let unheld = v.subnets req.node_id ∙ ap subnet_of new in
      ground (arith, Subnet.Methods.allocate-result req.node_id r.allocator, unheld)

  -- In a registry that satisfies the invariant, a node that is not registered gets a success
  -- exactly when a tunnel address is left and a block is free.
  pub register_node-ok_iff :
      Inv r
      → lookup req.node_id r.nodes ≡ none
      → (is_json_ok (register_node env now req key r).response ≡ true)
        ↔ ((r.wg_ip_pool.pool ≢ []) × (Subnet.Owners.first_free r.allocator.subnets ≢ none))
  unfolding WgPool.Lease.answer install
  register_node-ok_iff v new =
      let ips = ip_answer v new in
      let blocks = subnet_answer v new in
      elim (Result-cases (WgPool.allocate req.node_id r.wg_ip_pool).0) [
        | inl (e, failed) ↦
            let (refused, _, _, _) = register_no_ip e new failed in
            ground (arith, ips, failed, refused)
        | inr (ip, got) ↦ elim (Result-cases (Subnet.allocate req.node_id r.allocator).0) [
          | inl (e, failed) ↦
              let (refused, _, _, _) = register_no_subnet ip e new got failed in
              ground (arith, blocks, failed, refused)
          | inr (net, found) ↦
              let stored : is_json_ok after.response ≡ true =
                ap (λ o. is_json_ok o.response) (register_stored ip net new got found) in
              ground (arith, ips, got, blocks, found, stored)
        ]
      ]

  -- A registration that does not succeed stores no node and calls no other component.
  pub register_node_refused :
      is_json_ok (register_node env now req key r).response ≡ false
      → ((register_node env now req key r).registry.nodes ≡ r.nodes)
        × ((register_node env now req key r).effects ≡ [])
        × ((register_node env now req key r).spawned ≡ [])
  unfolding register_node install
  register_node_refused refused = elim (Option-cases (lookup req.node_id r.nodes)) [
    | inr (n, at) ↦ rw (at, register_node) (refl, refl, refl)
    | inl new ↦ elim (Result-cases (WgPool.allocate req.node_id r.wg_ip_pool).0) [
      | inl (e, failed) ↦
          let (_, nodes, effects, spawned) = register_no_ip e new failed in
          (nodes, effects, spawned)
      | inr (ip, got) ↦ elim (Result-cases (Subnet.allocate req.node_id r.allocator).0) [
        | inl (e, failed) ↦
            let (_, nodes, effects, spawned) = register_no_subnet ip e new got failed in
            (nodes, effects, spawned)
        | inr (net, found) ↦
            let stored : is_json_ok after.response ≡ true =
              ap (λ o. is_json_ok o.response) (register_stored ip net new got found) in
            absurd (cc (stored, refused))
      ]
    ]
  ]

-- A registered node is answered with its record, whatever key and address it sends, and nothing
-- changes and no other component is called.
register_known :
    (env : Env) (now : ℕ) (req : RegisterRequest) (key : String) (r : Registry) (n : Node)
    → lookup req.node_id r.nodes ≡ some n
    → register_node env now req key r
      ≡ answer r (json_ok (registered (build_register_response env.texts r n)))
unfolding register_node
register_known env now req key r n at = rw (at, register_node)

-- What is looked up after a node was installed.
install-lookup :
    (env : Env) (now : ℕ) (req : RegisterRequest) (key : String) (ip : Ip) (net : IpNet)
    (r : Registry)
    → lookup req.node_id (install env now req key ip net r).registry.nodes
      ≡ some (new_node env now r req key ip net)
unfolding install
install-lookup env now req key ip net r = ground (
  arith,
  lookup-insert req.node_id req.node_id (new_node env now r req key ip net) r.nodes,
  eq_refl req.node_id,
)

-- A second registration of a name that was just installed.
install_again :
    (env : Env) (now later : ℕ) (req again : RegisterRequest) (key key' : String) (ip : Ip)
    (net : IpNet) (r : Registry)
    → again.node_id ≡ req.node_id
    → let first = install env now req key ip net r in
      register_node env later again key' first.registry ≡ answer first.registry first.response
unfolding install build_register_response
install_again env now later req again key key' ip net r same =
    register_known env later again key' (install env now req key ip net r).registry
      (new_node env now r req key ip net)
      (ap (λ id. lookup id (install env now req key ip net r).registry.nodes) same
        ∙ install-lookup env now req key ip net r)

-- After a successful registration of a name that was not registered, a second one of the same
-- name, with whatever key and address it sends, has the same answer, changes nothing and calls no
-- other component.
pub register_again :
    (env : Env) (now later : ℕ) (req again : RegisterRequest) (key key' : String) (r : Registry)
    → lookup req.node_id r.nodes ≡ none
    → again.node_id ≡ req.node_id
    → is_json_ok (register_node env now req key r).response ≡ true
    → let first = register_node env now req key r in
      let second = register_node env later again key' first.registry in
      (second.response ≡ first.response)
      × (second.registry ≡ first.registry)
      × (second.effects ≡ [])
      × (second.spawned ≡ [])
register_again env now later req again key key' r new same success =
    elim (Result-cases (WgPool.allocate req.node_id r.wg_ip_pool).0) [
      | inl (e, failed) ↦
          let (refused, _, _, _) = register_no_ip env now req key r e new failed in
          absurd (cc (refused, success))
      | inr (ip, got) ↦ elim (Result-cases (Subnet.allocate req.node_id r.allocator).0) [
        | inl (e, failed) ↦
            let (refused, _, _, _) = register_no_subnet env now req key r ip e new got failed in
            absurd (cc (refused, success))
        | inr (net, found) ↦ rw (register_stored env now req key r ip net new got found) (
            rw (install_again env now later req again key key' ip net _ same)
              (refl, refl, refl, refl))
      ]
    ]
