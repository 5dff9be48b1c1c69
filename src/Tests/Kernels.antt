-- ===== src/Tests/Kernels.antt =====
-- The watcher over a kernel that has at most one route to each network.
use router_ui.Base.{
  Bool, false, ◌&&◌, [], ◌∷◌, Option, none, some, ok, err, ◌≡◌, refl, ap, sym, nat_eq,
  if◌then◌else◌, ◌==◌,
}
use router_ui.Net.{Ip, IpNet, ip_equal, contains}
use router_ui.Speaker.{SpeakerConfig, BestPath, first_next_hop}
use router_ui.Speaker.Kernel.{Route, Netlink, watched}
use router_ui.Speaker.Routes.{IsNetlink, is_usable, last_path-route}
use router_ui.Tests.{texts}

-- The links are fixed; a kernel is what it has for each network.
abbrev Kernel : Type 0
Kernel = IpNet → Option Route

abbrev same : IpNet → IpNet → Bool
same a b = nat_eq a.ones b.ones && ip_equal a.ip b.ip

-- Gateways in 10.100.0.0/24.
abbrev reachable : Ip → Bool
reachable gw = contains (record { ip = 10 ∷ 100 ∷ 0 ∷ 0 ∷ []; ones = 24; bits = 32 }) gw

abbrev netlink : Netlink Kernel
netlink = record {
  link_by_name = λ name k. if name == "wg-core" then ok 4 else err "no such link";
  route_replace = λ r k.
      if reachable r.gw
      then ok (λ d. if same r.dst d then some r else k d)
      else err "network is unreachable";
  route_del = λ dst k. ok (λ d. if same dst d then none else k d);
}

abbrev route_of : IpNet → Kernel → Option Route
route_of d k = k d

documented : IsNetlink netlink same route_of reachable "wg-core" 4
documented = record {
  replaced = λ r k link near. (
    (λ d. if same r.dst d then some (record r { link_index = 4 }) else k d),
    rw near refl,
    refl,
    λ d. refl,
  );
  not_replaced = λ r k link far. ("network is unreachable", rw far refl);
  removed = λ dst k after done.
      let gone : Kernel = λ d. if same dst d then none else k d in
      let is_gone : gone ≡ after = cc done in (refl, λ d. ap (λ (f : Kernel). f d) (sym is_gone));
  not_removed = λ dst d k e failed there. absurd (cc failed);
}

abbrev speaker_cfg : SpeakerConfig
speaker_cfg = record {
  asn = 65000;
  router_id = "10.100.0.1";
  listen_addr = "10.100.0.1";
  listen_port = 179;
  hold_time = 90;
  keepalive = 30;
  wg_interface = "wg-core";
  wg_peer_range = "10.100.0.0/30";
}

-- To 203.0.113.0/26 by a node, and then by another network's router.
abbrev by_node : BestPath
by_node = record {
  nlri = some "203.0.113.0/26";
  is_withdraw = false;
  next_hops = "10.100.0.2" ∷ [];
}

abbrev by_upstream : BestPath
by_upstream = record by_node { next_hops = "192.0.2.9" ∷ [] }

abbrev block : IpNet
block = record { ip = 203 ∷ 0 ∷ 113 ∷ 0 ∷ []; ones = 26; bits = 32 }

abbrev empty : Kernel
empty d = none

last_path-route_example :
    route_of block (watched netlink texts speaker_cfg (by_node ∷ by_upstream ∷ []) empty) ≡ (
      if is_usable texts speaker_cfg by_upstream
        && reachable (first_next_hop texts by_upstream.next_hops)
      then some (record {
        link_index = 4;
        dst = block;
        gw = first_next_hop texts by_upstream.next_hops;
        protocol = 186;
      })
      else route_of block (watched netlink texts speaker_cfg (by_node ∷ []) empty))
unfolding ip_equal
last_path-route_example =
    last_path-route netlink same route_of reachable 4 texts speaker_cfg documented refl
      (by_node ∷ []) [] by_upstream block block empty refl refl refl tt
