-- ===== src/Registry/Race.antt =====
-- A node that registers while a DELETE of its name stands between its two parts.
use router_ui.Base.{ℕ, none, some, String, ◌≡◌, ◌∙◌, sym, ap, arith, subst, eq_refl}
use router_ui.Base.Dict.{lookup, insert, delete, lookup-insert, lookup-delete}
use router_ui.Subnet
use router_ui.Subnet.Methods
use router_ui.WgPool
use router_ui.WgPool.Lease
use router_ui.Api.{RegisterRequest}
use router_ui.Registry.{Node, Registry, Env}
use router_ui.Registry.Register.{new_node, register_node, allocate_wg_ip, allocate_subnet, install}
use router_ui.Registry.Delete.{delete_entry, release_resources}
use router_ui.Registry.Invariant.{Inv, subnet_of, wg_ip_of}

-- The interleaving: the entry goes, the node registers again, then the first handler releases.
abbrev pub raced : Env → ℕ → RegisterRequest → String → Registry → Registry
raced env now req key r =
    release_resources req.node_id
      (register_node env now req key (delete_entry req.node_id r)).registry

-- The registration in the middle, of a node whose entry has just gone: it is stored anew with the
-- block and the address that it had, and neither allocator changes.
pub register_between :
    (env : Env) (now : ℕ) (req : RegisterRequest) (key : String) (r : Registry) (n : Node)
    → Inv r
    → lookup req.node_id r.nodes ≡ some n
    → (register_node env now req key (delete_entry req.node_id r)).registry
      ≡ (install env now req key n.wg_ip n.subnet (delete_entry req.node_id r)).registry
unfolding register_node delete_entry allocate_wg_ip allocate_subnet
register_between env now req key r n v at =
    let gone : lookup req.node_id (delete req.node_id r.nodes) ≡ none =
      ground (arith, lookup-delete req.node_id req.node_id r.nodes, eq_refl req.node_id) in
    let ip =
      WgPool.Lease.allocate_held_lem req.node_id r.wg_ip_pool n.wg_ip
        (v.addresses req.node_id ∙ ap wg_ip_of at) in
    let block =
      Subnet.Methods.allocate_held_lem req.node_id r.allocator n.subnet
        (v.subnets req.node_id ∙ ap subnet_of at) in
    rw (gone, register_node) (rw (ip, allocate_wg_ip) (rw (block, allocate_subnet)))

-- The node `id` is stored with the block and the address of `n`, and neither allocator knows it.
abbrev pub IsUnowned : String → Node → Registry → Type 0
IsUnowned id n s =
    (subnet_of (lookup id s.nodes) ≡ some n.subnet)
    × (wg_ip_of (lookup id s.nodes) ≡ some n.wg_ip)
    × (Subnet.subnet_for_node id s.allocator ≡ none)
    × (lookup id s.wg_ip_pool.assigned ≡ none)

install_release :
    (env : Env) (now : ℕ) (req : RegisterRequest) (key : String) (r : Registry) (n : Node)
    → Inv r
    → IsUnowned req.node_id n (
        release_resources req.node_id
          (install env now req key n.wg_ip n.subnet (delete_entry req.node_id r)).registry)
unfolding release_resources install delete_entry
install_release env now req key r n v =
    let id : String = req.node_id in
    let node : Node =
      new_node env now (record r { nodes = delete id r.nodes }) req key n.wg_ip n.subnet in
    let stored : lookup id (insert id node (delete id r.nodes)) ≡ some node =
      ground (arith, lookup-insert id id node (delete id r.nodes), eq_refl id) in
    (
      ap subnet_of stored,
      ap wg_ip_of stored,
      ground (arith, Subnet.Methods.release-holder id id r.allocator v.allocator, eq_refl id),
      ground (arith, WgPool.Lease.release-holder id id r.wg_ip_pool, eq_refl id),
    )

-- In a registry that satisfies the invariant, let a registered node register again between the two
-- parts of a DELETE of its name, past the checks of the request. Afterwards it is registered with
-- the block and the address that it had, while both allocators have them as free, so the invariant
-- is broken.
pub raced-IsUnowned :
    (env : Env) (now : ℕ) (req : RegisterRequest) (key : String) (r : Registry) (n : Node)
    → Inv r
    → lookup req.node_id r.nodes ≡ some n
    → IsUnowned req.node_id n (raced env now req key r) × ¬ Inv (raced env now req key r)
raced-IsUnowned env now req key r n v at =
    let lost : IsUnowned req.node_id n (raced env now req key r) =
      subst (λ s. IsUnowned req.node_id n (release_resources req.node_id s))
        (sym (register_between env now req key r n v at)) (install_release env now req key r n v) in
    (lost, λ w. some-none (sym lost.0 ∙ sym (w.subnets req.node_id) ∙ lost.2))
  where
    some-none : some n.subnet ≡ none → ⊥
    some-none e = cc e
