-- ===== src/Registry/Invariant.antt =====
-- internal/registry/registry.go: the predicate that ties the nodes, the allocator of blocks and the
-- pool of addresses together, and what each change of the store does to it.
use router_ui.Base.{Option, none, some, String, eq_iff, eq_refl, ◌∷◌, ◌≡◌, arith}
use router_ui.Base.Dict.{Dict, lookup, HasDistinctKeys}
use router_ui.Net.{Ip, IpNet}
use router_ui.Subnet
use router_ui.Subnet.Methods
use router_ui.Subnet.Create
use router_ui.WgPool
use router_ui.WgPool.Lease
use router_ui.Registry.{Node, Registry}

abbrev pub subnet_of : Option Node → Option IpNet
subnet_of none = none
subnet_of (some n) = some n.subnet

abbrev pub wg_ip_of : Option Node → Option Ip
wg_ip_of none = none
wg_ip_of (some n) = some n.wg_ip

pub record Inv (r : Registry) : Type 0 where
  -- A node stands under its own name, and no name stands twice.
  pub names : (id : String) (n : Node) → lookup id r.nodes ≡ some n → n.id ≡ id
  pub keys : HasDistinctKeys r.nodes
  -- The allocators know exactly the registered nodes, with the values in their records.
  pub subnets :
      (id : String) → Subnet.subnet_for_node id r.allocator ≡ subnet_of (lookup id r.nodes)
  pub addresses : (id : String) → lookup id r.wg_ip_pool.assigned ≡ wg_ip_of (lookup id r.nodes)
  pub allocator : Subnet.Methods.IsValid r.allocator
  pub tiling : Subnet.Create.IsTiling r.allocator
  pub pool : WgPool.Lease.IsValid r.wg_ip_pool

-- The names of the nodes of a list of entries are those of its head and of its tail.
pub first_name :
    (k : String) (n : Node) (m : Dict Node)
    → ((id : String) (x : Node) → lookup id ((k, n) ∷ m) ≡ some x → x.id ≡ id)
    → n.id ≡ k
unfolding lookup
first_name k n m names = names k n (ground (arith, eq_refl k))

pub tail_names :
    (k : String) (n : Node) (m : Dict Node)
    → lookup k m ≡ none
    → ((id : String) (x : Node) → lookup id ((k, n) ∷ m) ≡ some x → x.id ≡ id)
    → (id : String) (x : Node) → lookup id m ≡ some x
    → x.id ≡ id
unfolding lookup
tail_names k n m fresh names id x at = names id x (ground (arith, eq_iff k id))
