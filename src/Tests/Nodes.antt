-- ===== src/Tests/Nodes.antt =====
-- The registry with one and with two nodes, reached through requests.
use router_ui.Base.{
  some, ◌&&◌, ◌≡◌, ◌≢◌, ◌↔◌, refl, [], ◌∷◌, false, true, none, ok, subst, String, length,
}
use router_ui.Base.Dict.{lookup, insert, delete, HasDistinctKeys}
use router_ui.Net.{Ip, IpNet, contains}
use router_ui.Subnet
use router_ui.Subnet.Owners
use router_ui.WgPool
use router_ui.Registry.Pending.{Pending, settled, block_freed}
use router_ui.Registry.Reserve.{at_registry}
use router_ui.Registry.Interleaved.{
  Interleaving, no_section, one_more, begins, registers, frees_block, Interleaving-separate,
}
use router_ui.Registry.{Registry, Node}
use router_ui.Base.Text.{trim_prefix}
use router_ui.Api.{pending}
use router_ui.Registry.Register.{
  handle_register, register_checked, register_node, allocate_wg_ip, allocate_subnet, install,
}
use router_ui.Registry.Serve.{serve, route, dispatch}
use router_ui.Registry.Invariant.{Inv, wg_ip_of}
use router_ui.Registry.Preserve.{serve-Inv}
use router_ui.Registry.History.{serves, Reach, here, next, Reach-separate}
use router_ui.Registry.Lifecycle.{is_json_ok, register_node-ok_iff, register_again}
use router_ui.Registry.Doubled.{raced_doubled}
use router_ui.Registry.Delete.{delete_entry, release_resources}
use router_ui.Registry.Race.{raced}
use router_ui.Tests.{env, core, block, new_core, new_blocks, body_of, register_of}
use router_ui.CoreDaemon.{core_callbacks}
use router_ui.Tests.Nets.{node_a, node_b, a-b}
use router_ui.Tests.Pool.{new_pool-IsValid}
use router_ui.Tests.Blocks.{new_blocks-IsTiling, new_blocks-IsValid, new_blocks_unheld}

pub new_core-Inv : Inv new_core
unfolding lookup HasDistinctKeys
new_core-Inv = record {
  names = λ id n e. absurd (cc e);
  keys = tt;
  subnets = new_blocks_unheld;
  addresses = λ id. refl;
  allocator = new_blocks-IsValid;
  tiling = new_blocks-IsTiling;
  pool = new_pool-IsValid;
}

-- The registry after the registration of a node named `id`.
abbrev pub joined : String → Registry → Registry
joined id r = (serve env 7 (ok []) (register_of id) r).registry

abbrev pub node_of : String → Ip → IpNet → Node
node_of id wg_ip subnet = record {
  id = id;
  asn = 65000;
  public_ip = 192 ∷ 0 ∷ 2 ∷ 9 ∷ [];
  wg_port = 51820;
  wg_public_key = "node key";
  wg_ip = wg_ip;
  subnet = subnet;
  state = pending;
  last_heartbeat = 7;
  bgp_session_up = false;
}

abbrev pub first : Node
first = node_of "a" (10 ∷ 100 ∷ 0 ∷ 2 ∷ []) (block 0 true "a").cidr

abbrev pub second : Node
second = node_of "b" (10 ∷ 100 ∷ 0 ∷ 3 ∷ []) (block 64 true "b").cidr

-- What the two registrations give.
abbrev pub one_node : Registry
one_node = record {
  nodes = ("a", first) ∷ [];
  callbacks = core_callbacks;
  allocator = record {
    base = new_blocks.base;
    subnets = block 0 true "a" ∷ block 64 false "" ∷ block 128 false "" ∷ block 192 false "" ∷ [];
  };
  core = core;
  wg_ip_pool = record {
    pool = (10 ∷ 100 ∷ 0 ∷ 3 ∷ []) ∷ [];
    assigned = ("a", 10 ∷ 100 ∷ 0 ∷ 2 ∷ []) ∷ [];
  };
}

joined_once : joined "a" new_core ≡ one_node
unfolding serve route dispatch handle_register register_checked register_node allocate_wg_ip
    allocate_subnet install lookup insert Subnet.allocate Subnet.find_held Subnet.take_free
    WgPool.allocate trim_prefix
joined_once = refl

pub one_node-Inv : Inv one_node
one_node-Inv =
    subst Inv joined_once (serve-Inv env 7 (ok []) (register_of "a") new_core new_core-Inv)

abbrev pub two_nodes : Registry
two_nodes = joined "b" one_node

two_paths : Reach env one_node two_nodes
two_paths = next here (serves 7 (ok []) (register_of "b") one_node)

abbrev ip_70 : Ip
ip_70 = 203 ∷ 0 ∷ 113 ∷ 70 ∷ []

Reach-separate_example :
    (first.wg_ip ≢ second.wg_ip)
    × (contains first.subnet ip_70 && contains second.subnet ip_70 ≡ false)
unfolding serve route dispatch handle_register register_checked register_node allocate_wg_ip
    allocate_subnet install lookup insert Subnet.allocate Subnet.find_held Subnet.take_free
    WgPool.allocate trim_prefix
Reach-separate_example =
    Reach-separate env one_node two_nodes node_a node_b first second ip_70 one_node-Inv two_paths
      a-b refl refl refl

-- "b" registers while the DELETE of "a" stands between its parts; then the block of "a" is freed.
abbrev parting : Pending
parting = record { registry = delete_entry "a" one_node; blocks = "a" ∷ []; addresses = "a" ∷ [] }

abbrev met : Pending
met =
    block_freed "a"
      (at_registry (register_node env 9 (body_of "b") "node key" parting.registry).registry parting)

meeting : Interleaving env (settled one_node) met
unfolding lookup
meeting =
    one_more
      (one_more (one_more no_section (begins "a" first (settled one_node) refl))
        (registers 9 (body_of "b") "node key" parting refl refl))
      (frees_block "a" _ refl)

Interleaving-separate_example :
    ((i j : String) (n m : Node) (ip : Ip)
      → i ≢ j
      → lookup i met.registry.nodes ≡ some n
      → lookup j met.registry.nodes ≡ some m
      → length ip ≡ 4
      → (n.wg_ip ≢ m.wg_ip) × (contains n.subnet ip && contains m.subnet ip ≡ false))
    × (met.blocks ≡ [] → met.addresses ≡ [] → Inv met.registry)
Interleaving-separate_example = Interleaving-separate env one_node met one_node-Inv meeting

serve-Inv_example : Inv (serve env 9 (ok []) (register_of "b") one_node).registry
serve-Inv_example = serve-Inv env 9 (ok []) (register_of "b") one_node one_node-Inv

register_node-ok_iff_example :
    (is_json_ok (register_node env 9 (body_of "b") "node key" one_node).response ≡ true) ↔ (
      (one_node.wg_ip_pool.pool ≢ [])
      × (Subnet.Owners.first_free one_node.allocator.subnets ≢ none))
unfolding lookup
register_node-ok_iff_example =
    register_node-ok_iff env 9 (body_of "b") "node key" one_node one_node-Inv refl

-- With no address left in the pool.
abbrev full : Registry
full = record new_core { wg_ip_pool = record { pool = []; assigned = [] } }

register_again_example :
    let made = register_node env 9 (body_of "b") "node key" one_node in
    let again = register_node env 10 (body_of "b") "other key" made.registry in
    (again.response ≡ made.response)
    × (again.registry ≡ made.registry)
    × (again.effects ≡ [])
    × (again.spawned ≡ [])
unfolding register_node allocate_wg_ip allocate_subnet install lookup Subnet.allocate
    Subnet.find_held Subnet.take_free WgPool.allocate
register_again_example =
    register_again env 9 10 (body_of "b") (body_of "b") "node key" "other key" one_node refl refl
      refl

two_nodes-Inv : Inv two_nodes
two_nodes-Inv = serve-Inv env 7 (ok []) (register_of "b") one_node one_node-Inv

-- All addresses are given away; "a" registers during its own DELETE, and then "c" comes.
raced_doubled_example :
    let s =
      (register_node env 10
        (body_of "c")
        "c key"
        (raced env 9 (body_of "a") "other key" two_nodes)).registry in
    (node_a ≢ "c")
    × (wg_ip_of (lookup "a" s.nodes) ≡ some first.wg_ip)
    × (wg_ip_of (lookup "c" s.nodes) ≡ some first.wg_ip)
unfolding serve route dispatch handle_register register_checked register_node allocate_wg_ip
    allocate_subnet install lookup insert Subnet.allocate Subnet.find_held Subnet.take_free
    WgPool.allocate trim_prefix delete_entry release_resources Subnet.release Subnet.release_in
    delete
raced_doubled_example =
    raced_doubled env 9 10 (body_of "a") (body_of "c") "other key" "c key" two_nodes first
      first.subnet two_nodes-Inv refl refl refl refl
