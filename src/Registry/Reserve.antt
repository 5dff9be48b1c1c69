-- ===== src/Registry/Reserve.antt =====
-- The single changes of the registry that a handler or a health-checker call makes, while DELETEs
-- stand between their parts.
use router_ui.Base.{false, none, some, String, eq_iff, ◌≡◌, arith, ok, err}
use router_ui.Base.Dict.{lookup, insert, lookup-insert, insert-HasDistinctKeys}
use router_ui.Subnet
use router_ui.Subnet.Methods
use router_ui.Subnet.History
use router_ui.WgPool
use router_ui.WgPool.Lease
use router_ui.Registry.{Node, Registry}
use router_ui.Registry.Pending.{is_listed, Pending, PendingInv}

abbrev pub at_registry : Registry → Pending → Pending
at_registry r c = record c { registry = r }

-- A node's record is written again, with its name, block and address as they were.
pub rewritten-Inv :
    (id : String) (n m : Node) (c : Pending)
    → PendingInv c
    → lookup id c.registry.nodes ≡ some n
    → m.id ≡ n.id
    → m.subnet ≡ n.subnet
    → m.wg_ip ≡ n.wg_ip
    → PendingInv (at_registry (record c.registry { nodes = insert id m c.registry.nodes }) c)
rewritten-Inv id n m c v at same_id same_subnet same_ip = record {
  names = λ j k e.
      ground
        (arith, eq_iff id j, lookup-insert id j m c.registry.nodes, v.names j k, v.names id n at);
  keys = insert-HasDistinctKeys id m c.registry.nodes v.keys;
  gone_blocks = λ j e.
      ground (arith, eq_iff id j, lookup-insert id j m c.registry.nodes, v.gone_blocks j e, at);
  gone_addresses = λ j e.
      ground (arith, eq_iff id j, lookup-insert id j m c.registry.nodes, v.gone_addresses j e, at);
  subnets =
      λ j e. ground (arith, eq_iff id j, lookup-insert id j m c.registry.nodes, v.subnets j e, at);
  held = λ j e. ground (arith, eq_iff id j, lookup-insert id j m c.registry.nodes, v.held j e, at);
  allocator = v.allocator;
  tiling = v.tiling;
  pool = v.pool;
}

-- A registration of a name that is not registered and waits for nothing to be given back.
module _ (id : String) (c : Pending) (v : PendingInv c) (new : lookup id c.registry.nodes ≡ none)
    (block_back : is_listed id c.blocks ≡ false)
    (address_back : is_listed id c.addresses ≡ false) where
  pub pool_failed :
      (e : WgPool.Error)
      → (WgPool.allocate id c.registry.wg_ip_pool).0 ≡ err e
      → PendingInv (
          at_registry
            (record c.registry { wg_ip_pool = (WgPool.allocate id c.registry.wg_ip_pool).1 })
            c)
  pool_failed e failed = record {
    names = v.names;
    keys = v.keys;
    gone_blocks = v.gone_blocks;
    gone_addresses = v.gone_addresses;
    subnets = v.subnets;
    held = λ j back. ground (
      arith,
      eq_iff id j,
      v.held j back,
      WgPool.Lease.allocate-holder id j c.registry.wg_ip_pool,
    );
    allocator = v.allocator;
    tiling = v.tiling;
    pool = WgPool.Lease.allocate-IsValid id c.registry.wg_ip_pool v.pool;
  }

  pub subnet_failed :
      (e : Subnet.Error)
      → (Subnet.allocate id c.registry.allocator).0 ≡ err e
      → PendingInv (
          at_registry
            (record c.registry {
              allocator = (Subnet.allocate id c.registry.allocator).1;
              wg_ip_pool = WgPool.release id (WgPool.allocate id c.registry.wg_ip_pool).1;
            })
            c)
  subnet_failed e failed = record {
    names = v.names;
    keys = v.keys;
    gone_blocks = v.gone_blocks;
    gone_addresses = v.gone_addresses;
    subnets = λ j back. ground (
      arith,
      eq_iff id j,
      v.subnets j back,
      Subnet.Methods.allocate-holder id j c.registry.allocator,
    );
    held = λ j back. ground (
      arith,
      eq_iff id j,
      v.held j back,
      WgPool.Lease.allocate-holder id j c.registry.wg_ip_pool,
      WgPool.Lease.release-holder id j (WgPool.allocate id c.registry.wg_ip_pool).1,
    );
    allocator = Subnet.Methods.allocate-IsValid id c.registry.allocator v.allocator;
    tiling = Subnet.History.allocate-IsTiling id c.registry.allocator v.tiling;
    pool =
        WgPool.Lease.release-IsValid id (WgPool.allocate id c.registry.wg_ip_pool).1
          (WgPool.Lease.allocate-IsValid id c.registry.wg_ip_pool v.pool);
  }

  pub inserted :
      (n : Node)
      → n.id ≡ id
      → (WgPool.allocate id c.registry.wg_ip_pool).0 ≡ ok n.wg_ip
      → (Subnet.allocate id c.registry.allocator).0 ≡ ok n.subnet
      → PendingInv (
          at_registry
            (record c.registry {
              nodes = insert id n c.registry.nodes;
              allocator = (Subnet.allocate id c.registry.allocator).1;
              wg_ip_pool = (WgPool.allocate id c.registry.wg_ip_pool).1;
            })
            c)
  inserted n named got_ip got_subnet = record {
    names =
        λ j k e. ground (arith, eq_iff id j, lookup-insert id j n c.registry.nodes, v.names j k);
    keys = insert-HasDistinctKeys id n c.registry.nodes v.keys;
    gone_blocks = λ j e. ground (
      arith,
      eq_iff id j,
      lookup-insert id j n c.registry.nodes,
      v.gone_blocks j e,
      block_back,
      e,
    );
    gone_addresses = λ j e. ground (
      arith,
      eq_iff id j,
      lookup-insert id j n c.registry.nodes,
      v.gone_addresses j e,
      address_back,
      e,
    );
    subnets = λ j back. ground (
      arith,
      eq_iff id j,
      lookup-insert id j n c.registry.nodes,
      v.subnets j back,
      Subnet.Methods.allocate-holder id j c.registry.allocator,
    );
    held = λ j back. ground (
      arith,
      eq_iff id j,
      lookup-insert id j n c.registry.nodes,
      v.held j back,
      WgPool.Lease.allocate-holder id j c.registry.wg_ip_pool,
    );
    allocator = Subnet.Methods.allocate-IsValid id c.registry.allocator v.allocator;
    tiling = Subnet.History.allocate-IsTiling id c.registry.allocator v.tiling;
    pool = WgPool.Lease.allocate-IsValid id c.registry.wg_ip_pool v.pool;
  }
