-- ===== src/CoreDaemon/Peers.antt =====
-- internal/registry/registry.go with the core's WireGuard device: the peers and the nodes.
use router_ui.Base.{
  ℕ, ◌≤◌, List, Option, none, some, String, ◌==◌, eq_iff, eq_refl, ◌≡◌, refl, ◌≢◌, ◌∙◌, sym, arith,
  subst, inl, inr, Bool-cases, ok,
}
use router_ui.Base.Dict.{lookup, insert, lookup-insert, lookup-delete}
use router_ui.Net.{IpNet, Texts}
use router_ui.Subnet
use router_ui.WgPool
use router_ui.Subnet.Shape.{HasShape, allocate-HasShape, release-HasShape}
use router_ui.WireGuard.{DeviceConfig, PeerConfig, one_peer, added, removed}
use router_ui.WireGuard.Device.{Apart, IsWgDevice}
use router_ui.Registry.{Node, Registry, Env}
use router_ui.Registry.Delete.{delete_node, delete_entry, release_resources}
use router_ui.Registry.Invariant.{Inv}
use router_ui.Registry.Alone.{rewrite-Inv, insert-Inv, remove-Inv}
use router_ui.CoreDaemon.{core_callbacks}
use router_ui.CoreDaemon.Tunnels.{networks, Inv-Apart}

module _ {D : Type 0} (allowed_ips : String → D → Option (List IpNet)) (bits : ℕ) where
  -- The registry satisfies its invariant, its blocks have one length, its callbacks are the core's,
  -- no two nodes have one key, and the device has for each node a peer with the node's networks.
  pub record Connected (r : Registry) (d : D) : Type 0 where
    pub inv : Inv r
    pub shape : HasShape bits r.allocator
    pub callbacks : r.callbacks ≡ core_callbacks
    pub keys :
        (i j : String) (n m : Node)
        → lookup i r.nodes ≡ some n
        → lookup j r.nodes ≡ some m
        → n.wg_public_key ≡ m.wg_public_key
        → i ≡ j
    pub peers :
        (id : String) (n : Node)
        → lookup id r.nodes ≡ some n
        → allowed_ips n.wg_public_key d ≡ some (networks n)

  -- Writing a node again, with its identity as it was.
  pub rewrite-Connected :
      (id : String) (n m : Node) (r : Registry) (d : D)
      → Connected r d
      → lookup id r.nodes ≡ some n
      → m.id ≡ n.id
      → m.subnet ≡ n.subnet
      → m.wg_ip ≡ n.wg_ip
      → m.wg_public_key ≡ n.wg_public_key
      → Connected (record r { nodes = insert id m r.nodes }) d
  rewrite-Connected id n m r d c at same_id same_subnet same_ip same_key = record {
    inv = rewrite-Inv id n m r c.inv at same_id same_subnet same_ip;
    shape = record { blocks = c.shape.blocks };
    callbacks = c.callbacks;
    keys = λ i j x y at_i at_j same. ground (
      arith,
      eq_iff id i,
      eq_iff id j,
      lookup-insert id i m r.nodes,
      lookup-insert id j m r.nodes,
      c.keys i j x y,
      c.keys id j n y,
      c.keys i id x n,
    );
    peers = λ i x at_i.
        ground (arith, eq_iff id i, lookup-insert id i m r.nodes, c.peers i x, c.peers id n);
  }

  -- Deleting a node takes its peer away.
  pub remove-Connected :
      (configure : DeviceConfig → D → D) (t : Texts) (id : String) (n : Node) (r : Registry) (d : D)
      → IsWgDevice configure allowed_ips
      → Connected r d
      → lookup id r.nodes ≡ some n
      → Connected (delete_node t id r).registry (configure (one_peer (removed n.wg_public_key)) d)
  unfolding delete_node delete_entry release_resources
  remove-Connected configure t id n r d wg c at =
      rw (at, delete_node)
        (record {
          inv = remove-Inv id r c.inv;
          shape = release-HasShape bits id r.allocator c.shape;
          callbacks = c.callbacks;
          keys = λ i j x y at_i at_j. ground (
            arith,
            eq_iff id i,
            eq_iff id j,
            lookup-delete id i r.nodes,
            lookup-delete id j r.nodes,
            c.keys i j x y,
          );
          peers = λ i x at_i. ground (
            arith,
            eq_iff id i,
            eq_iff n.wg_public_key x.wg_public_key,
            lookup-delete id i r.nodes,
            c.peers i x,
            c.keys id i n x,
            wg.removes n.wg_public_key x.wg_public_key d,
          );
        })

  -- The key of no registered node.
  abbrev pub IsUnused : String → Registry → Type 0
  IsUnused key r = (j : String) (m : Node) → lookup j r.nodes ≡ some m → m.wg_public_key ≢ key

  -- A new node with a key of its own, its allocations and its peer.
  module _ (configure : DeviceConfig → D → D) (wg : IsWgDevice configure allowed_ips)
      (short : bits ≤ 30) (env : Env) (node : Node) (peer : PeerConfig) (r : Registry) (d : D)
      (c : Connected r d) where
    abbrev with_node : Registry
    with_node = record r {
      nodes = insert node.id node r.nodes;
      allocator = (Subnet.allocate node.id r.allocator).1;
      wg_ip_pool = (WgPool.allocate node.id r.wg_ip_pool).1;
    }

    insert-peers :
        Inv with_node
        → HasShape bits with_node.allocator
        → IsUnused node.wg_public_key r
        → peer.public_key ≡ node.wg_public_key
        → peer.allowed_ips ≡ networks node
        → (i : String) (x : Node) → lookup i with_node.nodes ≡ some x
        → allowed_ips x.wg_public_key (configure (one_peer (added peer)) d) ≡ some (networks x)
    insert-peers v shape unused key nets i x at = elim (Bool-cases (node.id == i)) [
      | inl same ↦
          let it : x ≡ node = ground (arith, lookup-insert node.id i node r.nodes, at) in
          rw it (ground (arith, wg.adds peer d))
      | inr other ↦
          let old : lookup i r.nodes ≡ some x =
            ground (arith, lookup-insert node.id i node r.nodes, at) in
          let stored : lookup node.id with_node.nodes ≡ some node =
            ground (arith, lookup-insert node.id node.id node r.nodes, eq_refl node.id) in
          let differs : node.id ≢ i = λ e. cc ((eq_iff node.id i).1 e, other) in
          let apart : Apart peer.allowed_ips (networks x) =
            subst (λ ns. Apart ns (networks x)) (sym nets)
              (Inv-Apart env bits with_node node.id i node x v shape short differs stored at) in
          wg.keeps peer x.wg_public_key (networks x) d (λ e. unused i x old (sym e ∙ key))
            (c.peers i x old) apart
    ]

    pub insert-Connected :
        lookup node.id r.nodes ≡ none
        → (WgPool.allocate node.id r.wg_ip_pool).0 ≡ ok node.wg_ip
        → (Subnet.allocate node.id r.allocator).0 ≡ ok node.subnet
        → IsUnused node.wg_public_key r
        → peer.public_key ≡ node.wg_public_key
        → peer.allowed_ips ≡ networks node
        → Connected with_node (configure (one_peer (added peer)) d)
    insert-Connected new got found unused key nets =
        let v = insert-Inv node.id node r c.inv new refl got found in
        let shape = allocate-HasShape bits node.id r.allocator c.shape in
        record {
          inv = v;
          shape = shape;
          callbacks = c.callbacks;
          keys = λ i j x y at_i at_j same. ground (
            arith,
            eq_iff node.id i,
            eq_iff node.id j,
            lookup-insert node.id i node r.nodes,
            lookup-insert node.id j node r.nodes,
            c.keys i j x y,
            unused i x,
            unused j y,
          );
          peers = insert-peers v shape unused key nets;
        }
