-- ===== src/WireGuard.antt =====
-- internal/wireguard/manager.go: one WireGuard interface of the kernel. netlink and wgctrl are other
-- packages: each call of theirs is a value, and `World` answers it. Keys are their base64 texts; a
-- duration is in seconds.
pub mod Setup
pub mod Device
use router_ui.Base.{
  ℕ, Bool, true, false, List, [], ◌∷◌, map, String, Option, none, some, Result, ok, err,
  if◌then◌else◌, ltb,
}
use router_ui.Base.Calls.{Act, pure, fail, perform, attempt, ◌>>=◌, ◌>>◌}
use router_ui.Net.{Ip, IpNet, Texts}

pub record InterfaceConfig : Type 0 where
  pub name : String
  pub private_key : String
  pub listen_port : ℕ
  pub address : String
  pub mtu : ℕ

-- net.UDPAddr.
pub record Endpoint : Type 0 where
  pub ip : Ip
  pub port : ℕ

-- A keepalive of 0 stands for the default.
pub record PeerConfig : Type 0 where
  pub public_key : String
  pub endpoint : Option Endpoint
  pub allowed_ips : List IpNet
  pub persistent_keepalive : ℕ

-- wgtypes.PeerConfig and wgtypes.Config, the fields that the manager sets.
pub record PeerEntry : Type 0 where
  pub public_key : String
  pub remove : Bool
  pub endpoint : Option Endpoint
  pub replace_allowed_ips : Bool
  pub allowed_ips : List IpNet
  pub keepalive : Option ℕ

pub record DeviceConfig : Type 0 where
  pub private_key : Option String
  pub listen_port : Option ℕ
  pub replace_peers : Bool
  pub peers : List PeerEntry

pub data Call : Type 0 where
  link_by_name : String → Call
  -- The MTU, if one is set.
  link_add : String → Option ℕ → Call
  configure_device : String → DeviceConfig → Call
  parse_addr : String → Call
  addr_replace : String → String → Call
  link_set_up link_del device : String → Call
  -- Interface, destination and gateway.
  route_replace : String → IpNet → Ip → Call
  blackhole_replace route_del : IpNet → Call

pub data Error : Type 0 where
  create_interface configure parse_address find_link assign_address set_up : String → Error
  peer_failed no_device delete_link route_failed : String → Error

abbrev pub default_keepalive : ℕ
default_keepalive = 25

abbrev pub mtu_of : ℕ → Option ℕ
mtu_of mtu = if ltb 0 mtu then some mtu else none

-- What follows the lookup of the interface.
abbrev pub ensure_found : String → ℕ → Bool → Act Call Error String
ensure_found name mtu true = pure ""
ensure_found name mtu false = perform create_interface (link_add name (mtu_of mtu))

unfoldable pub ensure_interface : String → ℕ → Act Call Error String
ensure_interface name mtu = attempt (link_by_name name) >>= ensure_found name mtu

abbrev pub device_config : InterfaceConfig → DeviceConfig
device_config cfg = record {
  private_key = some cfg.private_key;
  listen_port = some cfg.listen_port;
  replace_peers = false;
  peers = [];
}

unfoldable pub setup : InterfaceConfig → Act Call Error String
unfolding ensure_interface
setup cfg = do
  ensure_interface cfg.name cfg.mtu
  perform configure (configure_device cfg.name (device_config cfg))
  perform parse_address (parse_addr cfg.address)
  perform find_link (link_by_name cfg.name)
  perform assign_address (addr_replace cfg.name cfg.address)
  perform set_up (link_set_up cfg.name)

-- The configuration that changes one peer and nothing else.
abbrev pub one_peer : PeerEntry → DeviceConfig
one_peer entry = record {
  private_key = none;
  listen_port = none;
  replace_peers = false;
  peers = entry ∷ [];
}

abbrev pub added : PeerConfig → PeerEntry
added peer = record {
  public_key = peer.public_key;
  remove = false;
  endpoint = peer.endpoint;
  replace_allowed_ips = true;
  allowed_ips = peer.allowed_ips;
  keepalive =
      some
        (if ltb 0 peer.persistent_keepalive then peer.persistent_keepalive else default_keepalive);
}

abbrev pub removed : String → PeerEntry
removed public_key = record {
  public_key = public_key;
  remove = true;
  endpoint = none;
  replace_allowed_ips = false;
  allowed_ips = [];
  keepalive = none;
}

unfoldable pub add_peer : String → PeerConfig → Act Call Error String
add_peer name peer = perform peer_failed (configure_device name (one_peer (added peer)))

unfoldable pub remove_peer : String → String → Act Call Error String
remove_peer name public_key =
    perform peer_failed (configure_device name (one_peer (removed public_key)))

-- `World` answers with the key of the device.
unfoldable pub public_key : String → Act Call Error String
public_key name = perform no_device (device name)

-- What follows the lookup: an interface that is gone is no error.
abbrev pub teardown_found : String → Bool → Act Call Error String
teardown_found name true = perform delete_link (link_del name)
teardown_found name false = pure ""

unfoldable pub teardown : String → Act Call Error String
teardown name = attempt (link_by_name name) >>= teardown_found name

unfoldable pub install_route : String → IpNet → Ip → Act Call Error String
install_route name dst next_hop = do
  perform find_link (link_by_name name)
  perform route_failed (route_replace name dst next_hop)

unfoldable pub remove_route : IpNet → Act Call Error String
remove_route dst = perform route_failed (route_del dst)

unfoldable pub add_blackhole_route : IpNet → Act Call Error String
add_blackhole_route dst = perform route_failed (blackhole_replace dst)

unfoldable pub remove_blackhole_route : IpNet → Act Call Error String
unfolding remove_route
remove_blackhole_route dst = remove_route dst

abbrev pub allowed_ip_strings : Texts → List IpNet → List String
allowed_ip_strings t ips = map t.cidr_string ips
