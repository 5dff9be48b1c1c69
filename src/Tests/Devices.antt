-- ===== src/Tests/Devices.antt =====
-- A WireGuard device as a map from keys to networks, the core from its start, and its nodes.
use router_ui.Base.{◌≤◌, List, [], ◌∷◌, String, Option, ok, arith, if◌then◌else◌, Result}
use router_ui.Base.Dict.{Dict, lookup, insert, delete}
use router_ui.Net.{IpNet}
use router_ui.Subnet
use router_ui.WgPool
use router_ui.WireGuard.{DeviceConfig, PeerEntry}
use router_ui.Config.{CoreConfig}
use router_ui.Registry.{Registry}
use router_ui.Registry.Register.{register_node}
use router_ui.CoreDaemon.{core_identity}
use router_ui.CoreDaemon.Start.{Call}
use router_ui.CoreDaemon.Wiring.{told_by}
use router_ui.Tests.{env, new_core, body_of}
use router_ui.Tests.Daemons.{core_config}

abbrev Device : Type 0
Device = Dict (List IpNet)

abbrev configured_peers : List PeerEntry → Device → Device
configured_peers [] d = d
configured_peers (p ∷ ps) d =
    configured_peers ps
      (if p.remove then delete p.public_key d else insert p.public_key p.allowed_ips d)

abbrev pub configure : DeviceConfig → Device → Device
configure cfg d = configured_peers cfg.peers d

abbrev pub allowed_ips : String → Device → Option (List IpNet)
allowed_ips key d = lookup key d

abbrev pub small_core : CoreConfig
small_core = record core_config {
  network = record core_config.network { wg_peer_range = "10.100.0.0/30" };
}

abbrev pub all_ok : List Call → Call → Result String String
all_ok calls c = ok "key"

abbrev pub started_core : Registry
started_core = record new_core { core = core_identity small_core "key" }

abbrev joined_core : Registry
joined_core = (register_node env 7 (body_of "a") "node key" started_core).registry

abbrev joined_device : Device
joined_device =
    told_by configure allowed_ips 26 "wg-core"
      (register_node env 7 (body_of "a") "node key" started_core) []

abbrev shorter : 26 ≤ 30
shorter = omega arith
