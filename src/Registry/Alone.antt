-- ===== src/Registry/Alone.antt =====
-- The changes of the registry with no DELETE between its parts: each keeps the invariant.
use router_ui.Base.{none, some, String, eq_refl, [], ◌∷◌, ◌≡◌, refl, arith, ok, err, true}
use router_ui.Base.Dict.{lookup, insert, delete}
use router_ui.Subnet
use router_ui.WgPool
use router_ui.Registry.{Node, Registry}
use router_ui.Registry.Delete.{delete_entry}
use router_ui.Registry.Invariant.{Inv}
use router_ui.Registry.Pending.{
  settled, settled-Inv, unsettled-Inv, begun-Inv, block_freed-Inv, address_freed-Inv, is_listed,
  without,
}
use router_ui.Registry.Reserve.{rewritten-Inv, pool_failed, subnet_failed, inserted}

-- Writing a node again, with its name, block and address as they were.
pub rewrite-Inv :
    (id : String) (n m : Node) (r : Registry)
    → Inv r
    → lookup id r.nodes ≡ some n
    → m.id ≡ n.id
    → m.subnet ≡ n.subnet
    → m.wg_ip ≡ n.wg_ip
    → Inv (record r { nodes = insert id m r.nodes })
rewrite-Inv id n m r v at same_id same_subnet same_ip =
    settled-Inv _
      (rewritten-Inv id n m (settled r) (unsettled-Inv r v) at same_id same_subnet same_ip) refl
      refl

-- A new node with the block and the address that were allocated for it.
pub insert-Inv :
    (id : String) (n : Node) (r : Registry)
    → Inv r
    → lookup id r.nodes ≡ none
    → n.id ≡ id
    → (WgPool.allocate id r.wg_ip_pool).0 ≡ ok n.wg_ip
    → (Subnet.allocate id r.allocator).0 ≡ ok n.subnet
    → Inv (record r {
      nodes = insert id n r.nodes;
      allocator = (Subnet.allocate id r.allocator).1;
      wg_ip_pool = (WgPool.allocate id r.wg_ip_pool).1;
    })
insert-Inv id n r v new named got_ip got_subnet =
    settled-Inv _
      (inserted id (settled r) (unsettled-Inv r v) new refl refl n named got_ip got_subnet) refl
      refl

-- A node goes with its block and its address.
pub remove-Inv :
    (id : String) (r : Registry)
    → Inv r
    → Inv (record r {
      nodes = delete id r.nodes;
      allocator = (Subnet.release id r.allocator).1;
      wg_ip_pool = WgPool.release id r.wg_ip_pool;
    })
unfolding delete_entry
remove-Inv id r v =
    let start = begun-Inv id (settled r) (unsettled-Inv r v) in
    let listed : is_listed id (id ∷ []) ≡ true = ground (arith, eq_refl id) in
    let done : without id (id ∷ []) ≡ [] = ground (arith, eq_refl id) in
    settled-Inv _ (address_freed-Inv id _ listed (block_freed-Inv id _ listed start)) done done

-- The call of WgPool.Allocate failed: the pool is what it was.
pub pool_failed-Inv :
    (id : String) (e : WgPool.Error) (r : Registry)
    → Inv r
    → lookup id r.nodes ≡ none
    → (WgPool.allocate id r.wg_ip_pool).0 ≡ err e
    → Inv (record r { wg_ip_pool = (WgPool.allocate id r.wg_ip_pool).1 })
pool_failed-Inv id e r v new failed =
    settled-Inv _ (pool_failed id (settled r) (unsettled-Inv r v) new refl refl e failed) refl refl

-- The call of Subnet.Allocate failed: its allocator is kept, and the address goes back.
pub subnet_failed-Inv :
    (id : String) (e : Subnet.Error) (r : Registry)
    → Inv r
    → lookup id r.nodes ≡ none
    → (Subnet.allocate id r.allocator).0 ≡ err e
    → Inv (record r {
      allocator = (Subnet.allocate id r.allocator).1;
      wg_ip_pool = WgPool.release id (WgPool.allocate id r.wg_ip_pool).1;
    })
subnet_failed-Inv id e r v new failed =
    settled-Inv _ (subnet_failed id (settled r) (unsettled-Inv r v) new refl refl e failed) refl
      refl
