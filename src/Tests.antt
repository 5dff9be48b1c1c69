-- ===== src/Tests.antt =====
-- The theorems at concrete values: one small network, its texts, and a registry over it.
pub mod Nets
pub mod Pool
pub mod Blocks
pub mod Nodes
pub mod Traffic
pub mod Daemons
pub mod Devices
pub mod Starts
pub mod Clients
pub mod Refusals
pub mod Files
pub mod Loads
pub mod Runs
pub mod Kernels
use router_ui.Base.{
  ℕ, Bool, true, false, List, [], ◌∷◌, Option, none, some, String, ◌==◌, nat_eq, if◌then◌else◌,
  get_or, Result, ok, err,
}
use router_ui.Net.{Ip, IpNet, Texts}
use router_ui.Subnet
use router_ui.WgPool
use router_ui.Api.{RegisterRequest, HeartbeatRequest}
use router_ui.Registry.{Registry, Env, Request, Core}
use router_ui.CoreDaemon.{core_callbacks}

-- 203.0.113.0/24, 10.100.0.0/30 and 0.0.0.0/0.
abbrev pub aggregate : IpNet
aggregate = record { ip = 203 ∷ 0 ∷ 113 ∷ 0 ∷ []; ones = 24; bits = 32 }

abbrev pub wg_range : IpNet
wg_range = record { ip = 10 ∷ 100 ∷ 0 ∷ 0 ∷ []; ones = 30; bits = 32 }

abbrev pub everything : IpNet
everything = record { ip = 0 ∷ 0 ∷ 0 ∷ 0 ∷ []; ones = 0; bits = 32 }

-- Enough of net's texts for the tests.
abbrev pub texts : Texts
texts = record {
  parse_cidr = λ s.
      if s == "203.0.113.0/24"
      then some aggregate
      else if s == "10.100.0.0/30"
      then some wg_range
      else if s == "0.0.0.0/0"
      then some everything
      else if s == "203.0.113.0/26"
      then some (record { ip = 203 ∷ 0 ∷ 113 ∷ 0 ∷ []; ones = 26; bits = 32 })
      else if s == "203.0.113.64/26"
      then some (record { ip = 203 ∷ 0 ∷ 113 ∷ 64 ∷ []; ones = 26; bits = 32 })
      else none;
  parse_ip = λ s.
      if s == "10.100.0.1"
      then 10 ∷ 100 ∷ 0 ∷ 1 ∷ []
      else if s == "192.0.2.9"
      then 192 ∷ 0 ∷ 2 ∷ 9 ∷ []
      else if s == "10.100.0.2"
      then 10 ∷ 100 ∷ 0 ∷ 2 ∷ []
      else if s == "10.100.0.3"
      then 10 ∷ 100 ∷ 0 ∷ 3 ∷ []
      else [];
  ip_string = λ ip. if nat_eq (get_or ip 3 0) 2 then "10.100.0.2" else "10.100.0.3";
  cidr_string =
      λ net. if nat_eq (get_or net.ip 3 0) 64 then "203.0.113.64/26" else "203.0.113.0/26";
}

abbrev pub block : ℕ → Bool → String → Subnet.Subnet
block last in_use node_id = record {
  cidr = record { ip = 203 ∷ 0 ∷ 113 ∷ last ∷ []; ones = 26; bits = 32 };
  in_use = in_use;
  node_id = node_id;
}

abbrev pub new_blocks : Subnet.Allocator
new_blocks = record {
  base = aggregate;
  subnets = block 0 false "" ∷ block 64 false "" ∷ block 128 false "" ∷ block 192 false "" ∷ [];
}

abbrev pub new_pool : WgPool.WgIpAllocator
new_pool = record { pool = (10 ∷ 100 ∷ 0 ∷ 2 ∷ []) ∷ (10 ∷ 100 ∷ 0 ∷ 3 ∷ []) ∷ []; assigned = [] }

abbrev pub core : Core
core = record {
  wg_ip = "10.100.0.1";
  wg_public_key = "core key";
  public_ip = "198.51.100.1";
  wg_port = 51820;
  asn = 65000;
  api_key = "secret";
}

abbrev pub new_core : Registry
new_core = record {
  nodes = [];
  callbacks = core_callbacks;
  allocator = new_blocks;
  core = core;
  wg_ip_pool = new_pool;
}

abbrev pub body_of : String → RegisterRequest
body_of id = record {
  node_id = id;
  public_ip = "192.0.2.9";
  wg_port = 51820;
  wg_public_key = "node key";
}

abbrev pub env : Env
env = record {
  texts = texts;
  decode_register = λ body. ok (body_of body);
  decode_heartbeat = λ body.
      ok (record { node_id = body; timestamp_unix = 0; bgp_session_up = true; status = "healthy" });
  parse_key = λ key. ok key;
}

abbrev pub register_of : String → Request
register_of id = record {
  method = "POST";
  path = "/api/v1/nodes/register";
  api_key = "secret";
  body = id;
}
