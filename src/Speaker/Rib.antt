-- ===== src/Speaker/Rib.antt =====
-- ListRIB, AddPeer and RemovePeer of internal/bgp/speaker.go: what GoBGP is given, and what is made
-- of its answers.
use router_ui.Base.{
  ℕ, Bool, true, false, List, [], ◌∷◌, ◌++◌, map, String, Result, ok, err, ◌≡◌, sym, ◌∙◌,
  append-nil, append_assoc,
}
use router_ui.Base.Calls.{Act, perform}
use router_ui.Speaker.{SpeakerConfig}
use router_ui.Registry.Views.{RibEntry}

-- One path of a destination: whether it is the best, and the next hops of the attributes that
-- decode as one, in order.
pub record RibPath : Type 0 where
  pub best : Bool
  pub next_hops : List String

pub record Destination : Type 0 where
  pub prefix : String
  pub paths : List RibPath

-- The loop over the attributes, which leaves the last next hop.
unfoldable pub last_next_hop : String → List String → String
last_next_hop held [] = held
last_next_hop held (h ∷ hs) = last_next_hop h hs

abbrev pub rib_entry : String → RibPath → RibEntry
rib_entry prefix p = record {
  prefix = prefix;
  next_hop = last_next_hop "" p.next_hops;
  best = p.best;
}

-- The callback appends to `entries`.
unfoldable pub collect : List RibEntry → List Destination → List RibEntry
collect entries [] = entries
collect entries (d ∷ ds) = collect (entries ++ map (rib_entry d.prefix) d.paths) ds

-- `listed` is what ListPath reports before it ends, with its end. The entries that are returned
-- beside an error are left out; the registry does not read them.
unfoldable pub list_rib : List Destination → Result String String → Result String (List RibEntry)
list_rib listed (ok text) = ok (collect [] listed)
list_rib listed (err e) = err e

-- The neighbour that AddPeer hands to GoBGP, over IPv4 unicast; the last four are graceful restart.
pub record PeerRequest : Type 0 where
  pub neighbor_address : String
  pub peer_asn : ℕ
  pub hold_time : ℕ
  pub keepalive_interval : ℕ
  pub connect_retry : ℕ
  pub restart_enabled : Bool
  pub restart_time : ℕ
  pub longlived_enabled : Bool
  pub notification_enabled : Bool

pub data PeerCall : Type 0 where
  add_peer : PeerRequest → PeerCall
  delete_peer : String → PeerCall

pub data PeerError : Type 0 where
  add_failed : String → ℕ → String → PeerError
  remove_failed : String → String → PeerError

abbrev pub peer_request : SpeakerConfig → String → ℕ → PeerRequest
peer_request cfg peer_addr peer_asn = record {
  neighbor_address = peer_addr;
  peer_asn = peer_asn;
  hold_time = cfg.hold_time;
  keepalive_interval = cfg.keepalive;
  connect_retry = 30;
  restart_enabled = true;
  restart_time = 120;
  longlived_enabled = false;
  notification_enabled = true;
}

unfoldable pub add_bgp_peer : SpeakerConfig → String → ℕ → Act PeerCall PeerError String
add_bgp_peer cfg peer_addr peer_asn =
    perform (add_failed peer_addr peer_asn) (add_peer (peer_request cfg peer_addr peer_asn))

unfoldable pub remove_bgp_peer : String → Act PeerCall PeerError String
remove_bgp_peer peer_addr = perform (remove_failed peer_addr) (delete_peer peer_addr)

-- The entries of all paths, by destination and path.
abbrev pub rib_entries : List Destination → List RibEntry
rib_entries [] = []
rib_entries (d ∷ ds) = map (rib_entry d.prefix) d.paths ++ rib_entries ds

pub collect_lem :
    (entries : List RibEntry) (ds : List Destination)
    → collect entries ds ≡ entries ++ rib_entries ds
unfolding collect
collect_lem entries [] = sym (append-nil entries)
collect_lem entries (d ∷ ds) =
    collect_lem (entries ++ map (rib_entry d.prefix) d.paths) ds ∙ append_assoc entries _ _
