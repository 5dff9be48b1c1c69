-- ===== src/Registry/Pending.antt =====
-- The registry while DELETEs stand between their parts: handleDeleteNode takes the entry away under
-- the mutex of the registry, and gives the block and the address back after it has let go of it.
use router_ui.Base.{
  Bool, true, false, not, ◌||◌, ◌&&◌, List, [], ◌∷◌, none, some, String, ◌==◌, eq_iff, ◌≡◌, ap,
  arith, if◌then◌else◌,
}
use router_ui.Base.Dict.{lookup, lookup-delete, HasDistinctKeys, delete-HasDistinctKeys}
use router_ui.Subnet
use router_ui.Subnet.Methods
use router_ui.Subnet.Create
use router_ui.Subnet.History
use router_ui.WgPool
use router_ui.WgPool.Lease
use router_ui.Registry.{Node, Registry}
use router_ui.Registry.Delete.{delete_entry}
use router_ui.Registry.Invariant.{Inv, subnet_of, wg_ip_of}

abbrev pub is_listed : String → List String → Bool
is_listed id [] = false
is_listed id (j ∷ ids) = j == id || is_listed id ids

abbrev pub without : String → List String → List String
without id [] = []
without id (j ∷ ids) = if j == id then without id ids else j ∷ without id ids

pub is_listed-without :
    (id j : String) (ids : List String)
    → is_listed j (without id ids) ≡ (not (id == j) && is_listed j ids)
is_listed-without id j [] = ground arith
is_listed-without id j (k ∷ ids) =
    ground (arith, eq_iff k id, eq_iff k j, eq_iff id j, is_listed-without id j ids)

-- The registry, and the names whose blocks and whose addresses are still to be given back.
pub record Pending : Type 0 where
  pub registry : Registry
  pub blocks : List String
  pub addresses : List String

-- The allocators agree with the nodes except for what is still to be given back, whose names are
-- not registered.
pub record PendingInv (c : Pending) : Type 0 where
  pub names : (id : String) (n : Node) → lookup id c.registry.nodes ≡ some n → n.id ≡ id
  pub keys : HasDistinctKeys c.registry.nodes
  pub gone_blocks : (id : String) → is_listed id c.blocks ≡ true → lookup id c.registry.nodes ≡ none
  pub gone_addresses :
      (id : String) → is_listed id c.addresses ≡ true → lookup id c.registry.nodes ≡ none
  pub subnets :
      (id : String)
      → is_listed id c.blocks ≡ false
      → Subnet.subnet_for_node id c.registry.allocator ≡ subnet_of (lookup id c.registry.nodes)
  pub held :
      (id : String)
      → is_listed id c.addresses ≡ false
      → lookup id c.registry.wg_ip_pool.assigned ≡ wg_ip_of (lookup id c.registry.nodes)
  pub allocator : Subnet.Methods.IsValid c.registry.allocator
  pub tiling : Subnet.Create.IsTiling c.registry.allocator
  pub pool : WgPool.Lease.IsValid c.registry.wg_ip_pool

-- With no DELETE between its parts it is the invariant.
pub settled-Inv : (c : Pending) → PendingInv c → c.blocks ≡ [] → c.addresses ≡ [] → Inv c.registry
settled-Inv c v no_blocks no_addresses = record {
  names = v.names;
  keys = v.keys;
  subnets = λ id. v.subnets id (ap (is_listed id) no_blocks);
  addresses = λ id. v.held id (ap (is_listed id) no_addresses);
  allocator = v.allocator;
  tiling = v.tiling;
  pool = v.pool;
}

-- No DELETE stands between its parts.
abbrev pub settled : Registry → Pending
settled r = record { registry = r; blocks = []; addresses = [] }

pub unsettled-Inv : (r : Registry) → Inv r → PendingInv (settled r)
unsettled-Inv r v = record {
  names = v.names;
  keys = v.keys;
  gone_blocks = λ id e. absurd (cc e);
  gone_addresses = λ id e. absurd (cc e);
  subnets = λ id e. v.subnets id;
  held = λ id e. v.addresses id;
  allocator = v.allocator;
  tiling = v.tiling;
  pool = v.pool;
}

-- The first part of a DELETE.
pub begun-Inv :
    (id : String) (c : Pending)
    → PendingInv c
    → PendingInv (record {
      registry = delete_entry id c.registry;
      blocks = id ∷ c.blocks;
      addresses = id ∷ c.addresses;
    })
unfolding delete_entry
begun-Inv id c v = record {
  names = λ j k e. ground (arith, eq_iff id j, lookup-delete id j c.registry.nodes, v.names j k);
  keys = delete-HasDistinctKeys id c.registry.nodes v.keys;
  gone_blocks =
      λ j e. ground (arith, eq_iff id j, lookup-delete id j c.registry.nodes, v.gone_blocks j);
  gone_addresses =
      λ j e. ground (arith, eq_iff id j, lookup-delete id j c.registry.nodes, v.gone_addresses j);
  subnets = λ j e. ground (arith, eq_iff id j, lookup-delete id j c.registry.nodes, v.subnets j, e);
  held = λ j e. ground (arith, eq_iff id j, lookup-delete id j c.registry.nodes, v.held j, e);
  allocator = v.allocator;
  tiling = v.tiling;
  pool = v.pool;
}

abbrev pub block_freed : String → Pending → Pending
block_freed id c = record {
  registry = record c.registry { allocator = (Subnet.release id c.registry.allocator).1 };
  blocks = without id c.blocks;
  addresses = c.addresses;
}

abbrev pub address_freed : String → Pending → Pending
address_freed id c = record {
  registry = record c.registry { wg_ip_pool = WgPool.release id c.registry.wg_ip_pool };
  blocks = c.blocks;
  addresses = without id c.addresses;
}

-- The block of a DELETE is given back.
pub block_freed-Inv :
    (id : String) (c : Pending)
    → is_listed id c.blocks ≡ true
    → PendingInv c
    → PendingInv (block_freed id c)
block_freed-Inv id c listed v = record {
  names = v.names;
  keys = v.keys;
  gone_blocks = λ j e. ground (arith, is_listed-without id j c.blocks, v.gone_blocks j, e);
  gone_addresses = v.gone_addresses;
  subnets = λ j e. ground (
    arith,
    eq_iff id j,
    is_listed-without id j c.blocks,
    v.gone_blocks id listed,
    v.subnets j,
    Subnet.Methods.release-holder id j c.registry.allocator v.allocator,
    e,
  );
  held = v.held;
  allocator = Subnet.Methods.release-IsValid id c.registry.allocator v.allocator;
  tiling = Subnet.History.release-IsTiling id c.registry.allocator v.tiling;
  pool = v.pool;
}

pub address_freed-Inv :
    (id : String) (c : Pending)
    → is_listed id c.addresses ≡ true
    → PendingInv c
    → PendingInv (address_freed id c)
address_freed-Inv id c listed v = record {
  names = v.names;
  keys = v.keys;
  gone_blocks = v.gone_blocks;
  gone_addresses = λ j e. ground (arith, is_listed-without id j c.addresses, v.gone_addresses j, e);
  subnets = v.subnets;
  held = λ j e. ground (
    arith,
    eq_iff id j,
    is_listed-without id j c.addresses,
    v.gone_addresses id listed,
    v.held j,
    WgPool.Lease.release-holder id j c.registry.wg_ip_pool,
    e,
  );
  allocator = v.allocator;
  tiling = v.tiling;
  pool = WgPool.Lease.release-IsValid id c.registry.wg_ip_pool v.pool;
}
