-- ===== src/Registry/Doubled.antt =====
-- A registration after the one that came between the two parts of a DELETE.
use router_ui.Base.{
  ℕ, [], ◌∷◌, ◌++◌, none, some, String, ok, ◌≡◌, ◌≢◌, ◌∙◌, refl, ap, arith, eq_iff, eq_refl,
}
use router_ui.Base.Dict.{lookup, delete, lookup-insert, lookup-delete}
use router_ui.Subnet
use router_ui.WgPool
use router_ui.WgPool.Lease
use router_ui.Net.{IpNet}
use router_ui.Api.{RegisterRequest}
use router_ui.Registry.{Node, Registry, Env}
use router_ui.Registry.Register.{new_node, register_node, install}
use router_ui.Registry.Delete.{delete_entry, release_resources}
use router_ui.Registry.Invariant.{Inv, wg_ip_of}
use router_ui.Registry.Race.{raced, register_between, raced-IsUnowned}
use router_ui.Registry.Lifecycle.{register_stored}

module _ (env : Env) (now : ℕ) (req : RegisterRequest) (key : String) (r : Registry) (n : Node)
    (v : Inv r) (at : lookup req.node_id r.nodes ≡ some n) where
  raced_pool : (raced env now req key r).wg_ip_pool ≡ WgPool.release req.node_id r.wg_ip_pool
  unfolding release_resources install delete_entry
  raced_pool =
      ap (λ s. (release_resources req.node_id s).wg_ip_pool)
        (register_between env now req key r n v at)

  raced_nodes :
      (j : String) → req.node_id ≢ j → lookup j (raced env now req key r).nodes ≡ lookup j r.nodes
  unfolding release_resources install delete_entry
  raced_nodes j other =
      ap (λ s. lookup j (release_resources req.node_id s).nodes)
        (register_between env now req key r n v at)
      ∙ ground (
        arith,
        eq_iff req.node_id j,
        other,
        lookup-delete req.node_id j r.nodes,
        lookup-insert req.node_id j
            (new_node env now (delete_entry req.node_id r) req key n.wg_ip n.subnet)
            (delete req.node_id r.nodes),
      )

  freed : r.wg_ip_pool.pool ≡ [] → (WgPool.release req.node_id r.wg_ip_pool).pool ≡ n.wg_ip ∷ []
  unfolding WgPool.release
  freed full =
      let held = v.addresses req.node_id ∙ ap wg_ip_of at in
      rw (held, WgPool.release) (ap (λ ips. ips ++ n.wg_ip ∷ []) full)

  free_again :
      r.wg_ip_pool.pool ≡ []
      → (late : String) → req.node_id ≢ late
      → lookup late r.nodes ≡ none
      → (WgPool.allocate late (raced env now req key r).wg_ip_pool).0 ≡ ok n.wg_ip
  unfolding WgPool.Lease.answer
  free_again full late other new =
      let pool = WgPool.release req.node_id r.wg_ip_pool in
      let back = freed full in
      let unheld : lookup late pool.assigned ≡ none = ground (
        arith,
        WgPool.Lease.release-holder req.node_id late r.wg_ip_pool,
        eq_iff req.node_id late,
        other,
        v.addresses late ∙ ap wg_ip_of new,
      ) in
      ap (λ a. (WgPool.allocate late a).0) raced_pool
      ∙ WgPool.Lease.allocate-result late pool
      ∙ rw (unheld, back) refl

-- The node that registers in the middle of the DELETE keeps an address that is free. If all
-- addresses had been given away, the next new node that finds a block is given the same address,
-- and the two nodes are stored with it side by side.
pub raced_doubled :
    (env : Env) (now later : ℕ) (req late : RegisterRequest) (key key' : String) (r : Registry)
    (n : Node) (net : IpNet)
    → Inv r
    → lookup req.node_id r.nodes ≡ some n
    → r.wg_ip_pool.pool ≡ []
    → lookup late.node_id r.nodes ≡ none
    → (Subnet.allocate late.node_id (raced env now req key r).allocator).0 ≡ ok net
    → let s = (register_node env later late key' (raced env now req key r)).registry in
      (req.node_id ≢ late.node_id)
      × (wg_ip_of (lookup req.node_id s.nodes) ≡ some n.wg_ip)
      × (wg_ip_of (lookup late.node_id s.nodes) ≡ some n.wg_ip)
unfolding install
raced_doubled env now later req late key key' r n net v at full new found =
    let mid = raced env now req key r in
    let other : req.node_id ≢ late.node_id = λ same. cc (same, at, new) in
    let unknown = raced_nodes env now req key r n v at late.node_id other ∙ new in
    let got = free_again env now req key r n v at full late.node_id other new in
    let stored = register_stored env later late key' mid n.wg_ip net unknown got found in
    let (lost, _) = raced-IsUnowned env now req key r n v at in
    let node : Node =
      new_node env later
        (record mid {
          allocator = (Subnet.allocate late.node_id mid.allocator).1;
          wg_ip_pool = (WgPool.allocate late.node_id mid.wg_ip_pool).1;
        })
        late key' n.wg_ip net in
    rw stored (
      other,
      ground (
        arith,
        lookup-insert late.node_id req.node_id node mid.nodes,
        eq_iff late.node_id req.node_id,
        other,
        lost.1,
      ),
      ground (arith, lookup-insert late.node_id late.node_id node mid.nodes, eq_refl late.node_id),
    )
