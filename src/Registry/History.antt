-- ===== src/Registry/History.antt =====
-- A registry through any sequence of requests and of health-checker calls, each run on its own.
use router_ui.Base.{
  ◌&&◌, ℕ, false, List, [], none, some, String, ◌≡◌, refl, ◌≢◌, ◌∙◌, ap, arith, Result, ok, length,
  ◌-◌, ◌^◌, ◌<◌, ◌≤◌,
}
use router_ui.Base.Dict.{lookup, HasDistinctKeys}
use router_ui.Net.{Ip, IpNet, IsIp4Net, Texts, contains}
use router_ui.Subnet
use router_ui.Subnet.Methods
use router_ui.Subnet.Create
use router_ui.Subnet.History
use router_ui.WgPool
use router_ui.WgPool.Lease
use router_ui.WgPool.Fresh
use router_ui.Registry.{Node, Registry, Env, Request, Core, Callbacks}
use router_ui.Registry.Store.{new_registry, mark_down}
use router_ui.Registry.Views.{RibEntry}
use router_ui.Registry.Serve.{serve}
use router_ui.Registry.Invariant.{Inv, subnet_of, wg_ip_of}
use router_ui.Registry.Preserve.{serve-Inv, mark_down-Inv}

-- One request, or one call of MarkDown by the health checker.
pub data Step (env : Env) : Registry → Registry → Type 0 where
  serves :
      (now : ℕ) (rib : Result String (List RibEntry)) (req : Request) (r : Registry)
      → Step env r (serve env now rib req r).registry
  marks : (id : String) (r : Registry) → Step env r (mark_down env.texts id r).0

pub data Reach (env : Env) (r : Registry) : Registry → Type 0 where
  here : Reach env r r
  next : {s u : Registry} → Reach env r s → Step env s u → Reach env r u

Step-Inv : {env : Env} {r s : Registry} → Step env r s → Inv r → Inv s
Step-Inv {env} (serves now rib req r) v = serve-Inv env now rib req r v
Step-Inv {env} (marks id r) v = mark_down-Inv env.texts id r v

pub Reach-Inv : {env : Env} {r s : Registry} → Reach env r s → Inv r → Inv s
Reach-Inv here v = v
Reach-Inv (next path step) v = Step-Inv step (Reach-Inv path v)

-- NewRegistry over a well-formed allocator whose blocks tile its base and are held by no node,
-- with an IPv4 range of prefix length at least 1 for the tunnels and fuel for more rounds than it
-- has addresses, succeeds: the registry has no node and satisfies the invariant.
pub new_registry-Inv :
    (fuel : ℕ) (t : Texts) (allocator : Subnet.Allocator) (core : Core) (range : String)
    (callbacks : Callbacks) (net : IpNet)
    → Subnet.Methods.IsValid allocator
    → Subnet.Create.IsTiling allocator
    → ((id : String) → Subnet.subnet_for_node id allocator ≡ none)
    → t.parse_cidr range ≡ some net
    → IsIp4Net net
    → 1 ≤ net.ones
    → 2 ^ (32 - net.ones) < fuel
    → (r : Registry) × (new_registry fuel t allocator core range callbacks ≡ ok r)
      × Inv r
      × (r.nodes ≡ [])
unfolding new_registry lookup HasDistinctKeys
new_registry-Inv fuel t allocator core range callbacks net valid tiling unheld parsed v h enough =
    let (pool, made, pool_valid, unassigned, _) =
      WgPool.Fresh.new_wg_ip_allocator-IsValid fuel t range core.wg_ip net parsed v h enough in
    (
      record {
        nodes = [];
        callbacks = callbacks;
        allocator = allocator;
        core = core;
        wg_ip_pool = pool;
      },
      rw (made, new_registry),
      record {
        names = λ id n e. absurd (cc e);
        keys = tt;
        subnets = unheld;
        addresses = λ id. rw unassigned;
        allocator = valid;
        tiling = tiling;
        pool = pool_valid;
      },
      refl,
    )

-- What a new registry is made of.
pub new_registry_parts :
    (fuel : ℕ) (t : Texts) (allocator : Subnet.Allocator) (core : Core) (range : String)
    (callbacks : Callbacks) (r : Registry)
    → new_registry fuel t allocator core range callbacks ≡ ok r
    → (r.allocator ≡ allocator)
      × (r.callbacks ≡ callbacks)
      × (r.core ≡ core)
      × (WgPool.new_wg_ip_allocator fuel t range core.wg_ip ≡ ok r.wg_ip_pool)
unfolding new_registry
new_registry_parts fuel t allocator core range callbacks r e = ground (arith, e)

-- In every registry that is reached, by whole requests and whole calls of MarkDown, from one that
-- satisfies the invariant, two registered nodes have two tunnel addresses, and no IPv4 address
-- lies in the blocks of both.
pub Reach-separate :
    (env : Env) (r s : Registry) (i j : String) (n m : Node) (ip : Ip)
    → Inv r
    → Reach env r s
    → i ≢ j
    → lookup i s.nodes ≡ some n
    → lookup j s.nodes ≡ some m
    → length ip ≡ 4
    → (n.wg_ip ≢ m.wg_ip) × (contains n.subnet ip && contains m.subnet ip ≡ false)
Reach-separate env r s i j n m ip v path ne at_i at_j four =
    let w = Reach-Inv path v in
    let in_i = w.subnets i ∙ ap subnet_of at_i in
    let in_j = w.subnets j ∙ ap subnet_of at_j in
    (
      WgPool.Lease.holders_distinct s.wg_ip_pool i j n.wg_ip m.wg_ip w.pool ne
          (w.addresses i ∙ ap wg_ip_of at_i) (w.addresses j ∙ ap wg_ip_of at_j),
      ground (
        arith,
        Subnet.History.holders_disjoint s.allocator i j n.subnet m.subnet ip w.tiling ne in_i in_j
            four,
      ),
    )
