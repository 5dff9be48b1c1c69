-- ===== src/Registry/Register.antt =====
-- handleRegister and buildRegisterResponse.
use router_ui.Base.{
  ℕ, false, ◌||◌, [], ◌∷◌, none, some, String, ◌==◌, if◌then◌else◌, Result, ok, err,
}
use router_ui.Base.Dict.{lookup, insert}
use router_ui.Net.{Ip, IpNet, Texts}
use router_ui.Subnet
use router_ui.WgPool
use router_ui.Api.{RegisterRequest, RegisterResponse, pending}
use router_ui.Registry.{
  wg_add_peer, bgp_add_peer, Node, Registry, Env, Request, registered, invalid_body, missing_fields,
  invalid_key, wg_pool_exhausted, subnet_pool_exhausted, json_ok, json_error, unauthorized, Outcome,
}
use router_ui.Registry.Store.{run_node_up, has_api_key, answer}

unfoldable pub build_register_response : Texts → Registry → Node → RegisterResponse
build_register_response t r n = record {
  wg_ip = t.ip_string n.wg_ip;
  assigned_subnet = t.cidr_string n.subnet;
  core_wg_ip = r.core.wg_ip;
  core_wg_public_key = r.core.wg_public_key;
  core_public_ip = r.core.public_ip;
  core_wg_port = r.core.wg_port;
  bgp_peer_ip = r.core.wg_ip;
  bgp_peer_asn = r.core.asn;
}

-- net.CIDRMask(32, 32) over one address.
abbrev pub host_net : Ip → IpNet
host_net ip = record { ip = ip; ones = 32; bits = 32 }

abbrev pub new_node : Env → ℕ → Registry → RegisterRequest → String → Ip → IpNet → Node
new_node env now r req key wg_ip subnet = record {
  id = req.node_id;
  asn = r.core.asn;
  public_ip = env.texts.parse_ip req.public_ip;
  wg_port = req.wg_port;
  wg_public_key = key;
  wg_ip = wg_ip;
  subnet = subnet;
  state = pending;
  last_heartbeat = now;
  bgp_session_up = false;
}

-- The node is stored, the WireGuard peer is added, and a goroutine adds the BGP peer.
unfoldable pub install : Env → ℕ → RegisterRequest → String → Ip → IpNet → Registry → Outcome
install env now req key wg_ip subnet r =
    let node = new_node env now r req key wg_ip subnet in
    let addr = env.texts.ip_string wg_ip in
    record {
      registry = record r { nodes = insert req.node_id node r.nodes };
      response = json_ok (registered (build_register_response env.texts r node));
      effects =
          wg_add_peer (record {
            public_key = key;
            endpoint = some (record { ip = env.texts.parse_ip req.public_ip; port = req.wg_port });
            allowed_ips = host_net wg_ip ∷ subnet ∷ [];
            persistent_keepalive = 0;
          })
          ∷ [];
      spawned = bgp_add_peer addr r.core.asn ∷ run_node_up r.callbacks req.node_id addr r.core.asn;
    }

-- The second allocation, after the address `wg_ip` was allocated.
unfoldable pub allocate_subnet :
    Env
    → ℕ
    → RegisterRequest
    → String
    → Ip
    → Result Subnet.Error IpNet × Subnet.Allocator
    → Registry
    → Outcome
allocate_subnet env now req key wg_ip (err e, allocator) r =
    answer
      (record r { allocator = allocator; wg_ip_pool = WgPool.release req.node_id r.wg_ip_pool })
      (json_error (subnet_pool_exhausted e) 503)
allocate_subnet env now req key wg_ip (ok subnet, allocator) r =
    install env now req key wg_ip subnet (record r { allocator = allocator })

unfoldable pub allocate_wg_ip :
    Env
    → ℕ
    → RegisterRequest
    → String
    → Result WgPool.Error Ip × WgPool.WgIpAllocator
    → Registry
    → Outcome
allocate_wg_ip env now req key (err e, pool) r =
    answer (record r { wg_ip_pool = pool }) (json_error (wg_pool_exhausted e) 503)
allocate_wg_ip env now req key (ok wg_ip, pool) r =
    allocate_subnet env now req key wg_ip (Subnet.allocate req.node_id r.allocator)
      (record r { wg_ip_pool = pool })

-- The part under the lock and what follows it.
unfoldable pub register_node : Env → ℕ → RegisterRequest → String → Registry → Outcome
register_node env now req key r = elim (lookup req.node_id r.nodes) [
  | some existing ↦ answer r (json_ok (registered (build_register_response env.texts r existing)))
  | none ↦ allocate_wg_ip env now req key (WgPool.allocate req.node_id r.wg_ip_pool) r
]

unfoldable pub register_checked : Env → ℕ → RegisterRequest → Registry → Outcome
register_checked env now req r =
    if req.node_id == "" || req.public_ip == "" || req.wg_public_key == ""
    then answer r (json_error missing_fields 400)
    else elim (env.parse_key req.wg_public_key) [
      | err e ↦ answer r (json_error (invalid_key e) 400)
      | ok key ↦ register_node env now req key r
    ]

unfoldable pub handle_register : Env → ℕ → Request → Registry → Outcome
handle_register env now req r =
    if has_api_key r req
    then elim (env.decode_register req.body) [
      | err e ↦ answer r (json_error (invalid_body e) 400)
      | ok reg_req ↦ register_checked env now reg_req r
    ]
    else answer r unauthorized
