-- ===== src/Speaker.antt =====
-- internal/bgp/speaker.go: the table of announced paths and the kernel routes. GoBGP's server and
-- netlink are other packages: what GoBGP answers is an argument, and a call of either is a value in
-- a list. The mutex guards the table alone.
pub mod Fib
pub mod Paths
pub mod Rib
pub mod Kernel
pub mod Routes
pub mod Server
use router_ui.Base.{
  ℕ, Bool, true, false, not, ◌&&◌, List, [], ◌∷◌, Option, none, some, String, ◌==◌, if◌then◌else◌,
  nat_eq, Result, ok, err, length, ◌++◌,
}
use router_ui.Base.Dict.{Dict, lookup, insert, delete}
use router_ui.Net.{Ip, IpNet, to4, contains, Texts}

pub record SpeakerConfig : Type 0 where
  pub asn : ℕ
  pub router_id : String
  pub listen_addr : String
  pub listen_port : ℕ
  pub hold_time : ℕ
  pub keepalive : ℕ
  pub wg_interface : String
  pub wg_peer_range : String

-- `path_uuids` is from the text of a prefix to GoBGP's identifier of the path.
pub record Speaker : Type 0 where
  pub cfg : SpeakerConfig
  pub path_uuids : Dict String

-- Family_AFI_IP with Family_SAFI_UNICAST.
pub data Family : Type 0 where
  ip_unicast : Family

-- The path that AnnounceRoute hands to GoBGP; the prefix is handed over as its text.
pub record Path4 : Type 0 where
  pub family : Family
  pub prefix : Ip
  pub prefix_len : ℕ
  pub origin : ℕ
  pub next_hop : String
  pub segment_type : ℕ
  pub as_path : List ℕ
  pub local_pref : ℕ

-- A call of GoBGP or of netlink.
pub data Call : Type 0 where
  add_path : Path4 → Call
  delete_path : String → Call
  route_replace : String → IpNet → Ip → Call
  route_del : IpNet → Call

pub data Error : Type 0 where
  parse_prefix : Error
  announce_failed withdraw_failed : String → Error

pub record Outcome : Type 0 where
  pub speaker : Speaker
  pub result : Result Error (Unit {0})
  pub calls : List Call

unfoldable pub new_speaker : SpeakerConfig → Speaker
new_speaker cfg = record { cfg = cfg; path_uuids = [] }

abbrev pub announced : SpeakerConfig → IpNet → String → Path4
announced cfg cidr next_hop = record {
  family = ip_unicast;
  prefix = cidr.ip;
  prefix_len = cidr.ones;
  origin = 0;
  next_hop = next_hop;
  segment_type = 2;
  as_path = cfg.asn ∷ [];
  local_pref = 100;
}

-- What follows AddPath, which answers with an identifier.
unfoldable pub announce_cidr : Texts → Result String String → IpNet → String → Speaker → Outcome
announce_cidr t (err e) cidr next_hop s = record {
  speaker = s;
  result = err (announce_failed e);
  calls = add_path (announced s.cfg cidr next_hop) ∷ [];
}
announce_cidr t (ok uuid) cidr next_hop s = record {
  speaker = record s { path_uuids = insert (t.cidr_string cidr) uuid s.path_uuids };
  result = ok tt;
  calls = add_path (announced s.cfg cidr next_hop) ∷ [];
}

unfoldable pub announce_route : Texts → Result String String → String → String → Speaker → Outcome
announce_route t added prefix next_hop s = elim (t.parse_cidr prefix) [
  | none ↦ record { speaker = s; result = err parse_prefix; calls = [] }
  | some cidr ↦ announce_cidr t added cidr next_hop s
]

-- What follows DeletePath.
unfoldable pub withdraw_uuid : Result String (Unit {0}) → String → String → Speaker → Outcome
withdraw_uuid (err e) key uuid s = record {
  speaker = s;
  result = err (withdraw_failed e);
  calls = delete_path uuid ∷ [];
}
withdraw_uuid (ok _) key uuid s = record {
  speaker = record s { path_uuids = delete key s.path_uuids };
  result = ok tt;
  calls = delete_path uuid ∷ [];
}

-- A prefix that is not in the table is only logged.
unfoldable pub withdraw_key : Result String (Unit {0}) → String → Speaker → Outcome
withdraw_key deleted key s = elim (lookup key s.path_uuids) [
  | none ↦ record { speaker = s; result = ok tt; calls = [] }
  | some uuid ↦ withdraw_uuid deleted key uuid s
]

unfoldable pub withdraw_route : Texts → Result String (Unit {0}) → String → Speaker → Outcome
withdraw_route t deleted prefix s = elim (t.parse_cidr prefix) [
  | none ↦ record { speaker = s; result = err parse_prefix; calls = [] }
  | some cidr ↦ withdraw_key deleted (t.cidr_string cidr) s
]

-- A best path as handleBestPath reads it: `none` where the NLRI does not decode, the text
-- "prefix/length", and the next hops of the attributes that decode as one, in order.
pub record BestPath : Type 0 where
  pub nlri : Option String
  pub is_withdraw : Bool
  pub next_hops : List String

-- The first next hop, in its four-byte form; nil if there is none.
abbrev pub first_next_hop : Texts → List String → Ip
first_next_hop t [] = []
first_next_hop t (h ∷ hs) = to4 (t.parse_ip h)

-- The test against the peer range: no range, or one that does not parse, lets every next hop pass.
unfoldable pub in_peer_range : Texts → String → Ip → Bool
in_peer_range t range next_hop =
    if range == ""
    then true
    else elim (t.parse_cidr range) [ none ↦ true | some net ↦ contains net next_hop ]

-- installKernelRoute and removeKernelRoute make one call of netlink each.
unfoldable pub handle_cidr : Texts → SpeakerConfig → BestPath → IpNet → List Call
handle_cidr t cfg p cidr =
    let next_hop = first_next_hop t p.next_hops in
    if p.is_withdraw
    then route_del cidr ∷ []
    else if nat_eq (length next_hop) 0
    then []
    else if not (in_peer_range t cfg.wg_peer_range next_hop)
    then []
    else route_replace cfg.wg_interface cidr next_hop ∷ []

abbrev pub nlri_cidr : Texts → Option String → Option IpNet
nlri_cidr t none = none
nlri_cidr t (some text) = t.parse_cidr text

unfoldable pub handle_best_path : Texts → SpeakerConfig → BestPath → List Call
handle_best_path t cfg p =
    if cfg.wg_interface == ""
    then []
    else elim (nlri_cidr t p.nlri) [ none ↦ [] | some cidr ↦ handle_cidr t cfg p cidr ]

-- The watcher's callback: the paths of each event, in order.
unfoldable pub watch_best_paths : Texts → SpeakerConfig → List BestPath → List Call
watch_best_paths t cfg [] = []
watch_best_paths t cfg (p ∷ ps) = handle_best_path t cfg p ++ watch_best_paths t cfg ps
