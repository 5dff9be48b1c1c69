-- ===== src/Registry/Interleaved.antt =====
-- Handlers and health-checker calls whose critical sections interleave with the parts of DELETEs.
use router_ui.Base.{
  ℕ, Bool, true, false, ◌&&◌, [], ◌∷◌, none, some, String, ◌≡◌, ◌≢◌, ◌∙◌, ap, refl, arith, ok,
  length, Result-cases, Option-cases, Bool-cases, inl, inr,
}
use router_ui.Base.Dict.{lookup}
use router_ui.Net.{Ip, Texts, contains}
use router_ui.Subnet
use router_ui.Subnet.History
use router_ui.WgPool
use router_ui.WgPool.Lease
use router_ui.Api.{RegisterRequest, down}
use router_ui.Registry.{Node, Registry, Env}
use router_ui.Registry.Store.{
  mark_down, mark_node_down, record_heartbeat, heartbeat_node, beaten, is_down,
}
use router_ui.Registry.Register.{install, allocate_subnet, allocate_wg_ip, register_node, new_node}
use router_ui.Registry.Delete.{delete_entry}
use router_ui.Registry.Invariant.{Inv, subnet_of, wg_ip_of}
use router_ui.Registry.Pending.{
  is_listed, Pending, PendingInv, block_freed, address_freed, begun-Inv, block_freed-Inv,
  address_freed-Inv, settled, settled-Inv, unsettled-Inv,
}
use router_ui.Registry.Reserve.{at_registry, rewritten-Inv, pool_failed, subnet_failed, inserted}

pub marked-Inv :
    (t : Texts) (id : String) (c : Pending)
    → PendingInv c
    → PendingInv (at_registry (mark_down t id c.registry).0 c)
unfolding mark_down mark_node_down
marked-Inv t id c v = elim (Option-cases (lookup id c.registry.nodes)) [
  | inl new ↦ rw (new, mark_down) v
  | inr (n, at) ↦
      rw (at, mark_down)
        (elim (Bool-cases (is_down n.state)) [
          | inl gone ↦ rw gone v
          | inr up ↦ rw up (rewritten-Inv id n (record n { state = down }) c v at refl refl refl)
        ])
]

pub beaten-Inv :
    (t : Texts) (now : ℕ) (id : String) (bgp_up : Bool) (c : Pending)
    → PendingInv c
    → PendingInv (at_registry (record_heartbeat t now id bgp_up c.registry).1 c)
unfolding record_heartbeat heartbeat_node
beaten-Inv t now id bgp_up c v = elim (Option-cases (lookup id c.registry.nodes)) [
  | inl new ↦ rw (new, record_heartbeat) v
  | inr (n, at) ↦
      rw (at, record_heartbeat) (rewritten-Inv id n (beaten now bgp_up n) c v at refl refl refl)
]

module _ (env : Env) (now : ℕ) (req : RegisterRequest) (key : String) (c : Pending)
    (v : PendingInv c) (block_back : is_listed req.node_id c.blocks ≡ false)
    (address_back : is_listed req.node_id c.addresses ≡ false) where
  with_ip :
      (ip : Ip)
      → lookup req.node_id c.registry.nodes ≡ none
      → (WgPool.allocate req.node_id c.registry.wg_ip_pool).0 ≡ ok ip
      → PendingInv (
          at_registry
            (allocate_subnet env now req key ip
              (Subnet.allocate req.node_id c.registry.allocator)
              (record c.registry {
                wg_ip_pool = (WgPool.allocate req.node_id c.registry.wg_ip_pool).1;
              })).registry
            c)
  unfolding allocate_subnet install
  with_ip ip new got = elim (Result-cases (Subnet.allocate req.node_id c.registry.allocator).0) [
    | inl (e, failed) ↦
        rw (failed, allocate_subnet)
          (subnet_failed req.node_id c v new block_back address_back e failed)
    | inr (net, found) ↦
        rw (found, allocate_subnet)
          (inserted req.node_id c v new block_back address_back
            (new_node env now c.registry req key ip net) refl got found)
  ]

  pub registered-Inv :
      PendingInv (at_registry (register_node env now req key c.registry).registry c)
  unfolding register_node allocate_wg_ip
  registered-Inv = elim (Option-cases (lookup req.node_id c.registry.nodes)) [
    | inl new ↦
        rw (new, register_node)
          (elim (Result-cases (WgPool.allocate req.node_id c.registry.wg_ip_pool).0) [
            | inl (e, failed) ↦
                rw (failed, allocate_wg_ip)
                  (pool_failed req.node_id c v new block_back address_back e failed)
            | inr (ip, got) ↦ rw (got, allocate_wg_ip) (with_ip ip new got)
          ])
    | inr (n, at) ↦ rw (at, register_node) v
  ]

-- One critical section. A registration is one, and the two releases of a DELETE are one each, in
-- any order with whatever else happens; a sweep is its calls of MarkDown. No name is registered
-- while a DELETE of it has still to give its block or its address back.
pub data Section (env : Env) : Pending → Pending → Type 0 where
  registers :
      (now : ℕ) (req : RegisterRequest) (key : String) (c : Pending)
      → is_listed req.node_id c.blocks ≡ false
      → is_listed req.node_id c.addresses ≡ false
      → Section env c (at_registry (register_node env now req key c.registry).registry c)
  marks :
      (id : String) (c : Pending)
      → Section env c (at_registry (mark_down env.texts id c.registry).0 c)
  beats :
      (now : ℕ) (id : String) (up : Bool) (c : Pending)
      → Section env c (at_registry (record_heartbeat env.texts now id up c.registry).1 c)
  begins :
      (id : String) (n : Node) (c : Pending)
      → lookup id c.registry.nodes ≡ some n
      → Section env c (record {
        registry = delete_entry id c.registry;
        blocks = id ∷ c.blocks;
        addresses = id ∷ c.addresses;
      })
  frees_block :
      (id : String) (c : Pending) → is_listed id c.blocks ≡ true → Section env c (block_freed id c)
  frees_address :
      (id : String) (c : Pending)
      → is_listed id c.addresses ≡ true
      → Section env c (address_freed id c)

pub data Interleaving (env : Env) (c : Pending) : Pending → Type 0 where
  no_section : Interleaving env c c
  one_more : {d e : Pending} → Interleaving env c d → Section env d e → Interleaving env c e

Section-Inv : {env : Env} {c d : Pending} → Section env c d → PendingInv c → PendingInv d
Section-Inv {env} (registers now req key c b a) v = registered-Inv env now req key c v b a
Section-Inv {env} (marks id c) v = marked-Inv env.texts id c v
Section-Inv {env} (beats now id up c) v = beaten-Inv env.texts now id up c v
Section-Inv (begins id n c at) v = begun-Inv id c v
Section-Inv (frees_block id c listed) v = block_freed-Inv id c listed v
Section-Inv (frees_address id c listed) v = address_freed-Inv id c listed v

pub Interleaving-Inv :
    {env : Env} {c d : Pending} → Interleaving env c d → PendingInv c → PendingInv d
Interleaving-Inv no_section v = v
Interleaving-Inv (one_more path step) v = Section-Inv step (Interleaving-Inv path v)

registered_unlisted :
    (id : String) (n : Node) (c : Pending)
    → PendingInv c
    → lookup id c.registry.nodes ≡ some n
    → (is_listed id c.blocks ≡ false) × (is_listed id c.addresses ≡ false)
registered_unlisted id n c v at =
    (ground (arith, v.gone_blocks id, at), ground (arith, v.gone_addresses id, at))

-- From a registry that satisfies the invariant, with the critical sections of registrations,
-- heartbeats, calls of MarkDown and the parts of DELETEs in any order, but with no registration of
-- a name whose DELETE has still to give something back: two registered nodes have two tunnel
-- addresses, and no IPv4 address lies in the blocks of both; and whenever no DELETE has anything
-- to give back, the registry satisfies the invariant.
pub Interleaving-separate :
    (env : Env) (r : Registry) (c : Pending)
    → Inv r
    → Interleaving env (settled r) c
    → ((i j : String) (n m : Node) (ip : Ip)
        → i ≢ j
        → lookup i c.registry.nodes ≡ some n
        → lookup j c.registry.nodes ≡ some m
        → length ip ≡ 4
        → (n.wg_ip ≢ m.wg_ip) × (contains n.subnet ip && contains m.subnet ip ≡ false))
      × (c.blocks ≡ [] → c.addresses ≡ [] → Inv c.registry)
Interleaving-separate env r c v path =
    let w = Interleaving-Inv path (unsettled-Inv r v) in
    (
      λ i j n m ip ne at_i at_j four.
          let (block_i, address_i) = registered_unlisted i n c w at_i in
          let (block_j, address_j) = registered_unlisted j m c w at_j in
          let in_i = w.subnets i block_i ∙ ap subnet_of at_i in
          let in_j = w.subnets j block_j ∙ ap subnet_of at_j in
          (
            WgPool.Lease.holders_distinct c.registry.wg_ip_pool i j n.wg_ip m.wg_ip w.pool ne
                (w.held i address_i ∙ ap wg_ip_of at_i) (w.held j address_j ∙ ap wg_ip_of at_j),
            ground (
              arith,
              Subnet.History.holders_disjoint c.registry.allocator i j n.subnet m.subnet ip w.tiling
                  ne in_i in_j four,
            ),
          ),
      λ no_blocks no_addresses. settled-Inv c w no_blocks no_addresses,
    )
