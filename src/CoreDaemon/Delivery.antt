-- ===== src/CoreDaemon/Delivery.antt =====
-- cmd/core/main.go and cmd/agent/main.go: how the traffic for a node's block gets to the node.
use mathlib.Core.Logic.Or
use router_ui.Base.{false, List, [], ◌∷◌, some, String, ◌≡◌}
use router_ui.Net.{IpNet, Texts, to4}
use router_ui.Speaker.{BestPath}
use router_ui.Registry.{Node, Registry}

-- The path that GoBGP reports for a network that was announced with a next hop.
abbrev pub path_to : Texts → IpNet → String → BestPath
path_to t c next_hop = record {
  nlri = some (t.cidr_string c);
  is_withdraw = false;
  next_hops = next_hop ∷ [];
}

-- The texts of a node's block and address are read as they were written.
pub record IsReadable (t : Texts) (n : Node) : Type 0 where
  pub block : t.parse_cidr (t.cidr_string n.subnet) ≡ some n.subnet
  pub address : to4 (t.parse_ip (t.ip_string n.wg_ip)) ≡ n.wg_ip
