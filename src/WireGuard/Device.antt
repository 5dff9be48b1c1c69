-- ===== src/WireGuard/Device.antt =====
-- wgctrl's ConfigureDevice, as far as the peers of internal/wireguard/manager.go go: what the code
-- relies on, and the device after a list of calls.
use router_ui.Base.{
  List, [], ◌∷◌, String, ◌==◌, Option, none, some, ◌≡◌, ◌≢◌, All, if◌then◌else◌, ok,
}
use router_ui.Base.Calls.{World}
use router_ui.Net.{IpNet}
use router_ui.WireGuard.{
  PeerConfig, DeviceConfig, one_peer, added, removed, Call, link_by_name, link_add,
  configure_device, parse_addr, addr_replace, link_set_up, link_del, device, route_replace,
  blackhole_replace, route_del,
}

-- Of two lists no item is in both.
abbrev pub Apart : List IpNet → List IpNet → Type 0
Apart ns ms = All (λ n. All (λ m. n ≢ m) ns) ms

-- The documented behaviour: `allowed_ips` has the networks of a peer, if it is there. A network
-- belongs to one peer, so another peer keeps its own only if none of them is given away.
pub record IsWgDevice {D : Type 0} (configure : DeviceConfig → D → D)
    (allowed_ips : String → D → Option (List IpNet)) : Type 0 where
  pub removes :
      (key other : String) (d : D)
      → allowed_ips other (configure (one_peer (removed key)) d)
        ≡ (if key == other then none else allowed_ips other d)
  pub adds :
      (peer : PeerConfig) (d : D)
      → allowed_ips peer.public_key (configure (one_peer (added peer)) d) ≡ some peer.allowed_ips
  pub keeps :
      (peer : PeerConfig) (other : String) (nets : List IpNet) (d : D)
      → peer.public_key ≢ other
      → allowed_ips other d ≡ some nets
      → Apart peer.allowed_ips nets
      → allowed_ips other (configure (one_peer (added peer)) d) ≡ some nets

-- Every call succeeds.
abbrev pub all_succeed : World Call
all_succeed before c = ok ""

module _ {D : Type 0} (configure : DeviceConfig → D → D) where
  abbrev pub configured : Call → D → D
  configured (configure_device name cfg) d = configure cfg d
  configured (link_by_name name) d = d
  configured (link_add name mtu) d = d
  configured (parse_addr address) d = d
  configured (addr_replace name address) d = d
  configured (link_set_up name) d = d
  configured (link_del name) d = d
  configured (device name) d = d
  configured (route_replace name dst gw) d = d
  configured (blackhole_replace dst) d = d
  configured (route_del dst) d = d

  -- The newest call stands first.
  abbrev pub after_calls : List Call → D → D
  after_calls [] d = d
  after_calls (c ∷ calls) d = configured c (after_calls calls d)
