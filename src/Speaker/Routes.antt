-- ===== src/Speaker/Routes.antt =====
-- Which route the kernel has to a network after the best paths that the watcher has met.
use router_ui.Base.{
  ℕ, Bool, true, false, not, ◌&&◌, List, [], ◌∷◌, ◌++◌, Option, none, some, String, ok, err, ◌≡◌,
  refl, arith, All, ◌==◌, nat_eq, length, if◌then◌else◌, Option-cases, Bool-cases, inl, inr,
  Result-cases, ◌∙◌, ap,
}
use router_ui.Net.{Ip, IpNet, Texts}
use router_ui.Speaker.{
  SpeakerConfig, Call, add_path, delete_path, route_replace, route_del, BestPath, first_next_hop,
  in_peer_range, handle_cidr, nlri_cidr, handle_best_path, watch_best_paths,
}
use router_ui.Speaker.Kernel.{
  Route, Netlink, install_kernel_route, remove_kernel_route, carried_out, watched,
}

-- What the code relies on of the kernel: `route_of` is the route to a network, `same` whether two
-- networks are one destination, and `reachable` whether a gateway can be reached over the link. A
-- route over a link that is there can be set exactly where its gateway can be reached, a route can
-- be removed unless there is none, and neither changes the links.
pub record IsNetlink {K : Type 0} (n : Netlink K) (same : IpNet → IpNet → Bool)
    (route_of : IpNet → K → Option Route) (reachable : Ip → Bool) (interface : String) (index : ℕ)
    : Type 0 where
  pub replaced :
      (r : Route) (k : K)
      → n.link_by_name interface k ≡ ok index
      → reachable r.gw ≡ true
      → (after : K) × (n.route_replace (record r { link_index = index }) k ≡ ok after)
        × (n.link_by_name interface after ≡ ok index)
        × ((d : IpNet)
            → route_of d after
              ≡ (if same r.dst d then some (record r { link_index = index }) else route_of d k))
  pub not_replaced :
      (r : Route) (k : K)
      → n.link_by_name interface k ≡ ok index
      → reachable r.gw ≡ false
      → (e : String) × (n.route_replace (record r { link_index = index }) k ≡ err e)
  pub removed :
      (dst : IpNet) (k after : K)
      → n.route_del dst k ≡ ok after
      → (n.link_by_name interface after ≡ n.link_by_name interface k)
        × ((d : IpNet) → route_of d after ≡ (if same dst d then none else route_of d k))
  pub not_removed :
      (dst d : IpNet) (k : K) (e : String)
      → n.route_del dst k ≡ err e
      → same dst d ≡ true
      → route_of d k ≡ none

-- A next hop that lets the watcher install a route.
abbrev pub is_usable : Texts → SpeakerConfig → BestPath → Bool
is_usable t cfg p =
    let next_hop = first_next_hop t p.next_hops in
    not (nat_eq (length next_hop) 0) && in_peer_range t cfg.wg_peer_range next_hop

abbrev pub is_about : Texts → (IpNet → IpNet → Bool) → IpNet → BestPath → Bool
is_about t same d p = elim (nlri_cidr t p.nlri) [ none ↦ false | some cidr ↦ same cidr d ]

module _ {K : Type 0} (n : Netlink K) (same : IpNet → IpNet → Bool)
    (route_of : IpNet → K → Option Route) (reachable : Ip → Bool) (index : ℕ) (t : Texts)
    (cfg : SpeakerConfig) (kernel : IsNetlink n same route_of reachable cfg.wg_interface index)
    (named : (cfg.wg_interface == "") ≡ false) where
  carried_out-append :
      (xs ys : List Call) (k : K)
      → carried_out n (xs ++ ys) k ≡ carried_out n ys (carried_out n xs k)
  carried_out-append [] ys k = refl
  carried_out-append (route_replace interface dst gw ∷ xs) ys k = carried_out-append xs ys _
  carried_out-append (route_del dst ∷ xs) ys k = carried_out-append xs ys _
  carried_out-append (add_path p ∷ xs) ys k = carried_out-append xs ys k
  carried_out-append (delete_path uuid ∷ xs) ys k = carried_out-append xs ys k

  HasLink : K → Type 0
  HasLink k = n.link_by_name cfg.wg_interface k ≡ ok index

  abbrev the_route : IpNet → Ip → Route
  the_route dst gw = record { link_index = index; dst = dst; gw = gw; protocol = 186 }

  installed :
      (dst d : IpNet) (gw : Ip) (k : K)
      → HasLink k
      → let after = (install_kernel_route n cfg.wg_interface dst gw k).1 in
        HasLink after
        × (route_of d after
            ≡ (if same dst d && reachable gw then some (the_route dst gw) else route_of d k))
  unfolding install_kernel_route HasLink
  installed dst d gw k link = elim (Bool-cases (reachable gw)) [
    | inl near ↦
        let (after, done, still, routes) = kernel.replaced (the_route dst gw) k link near in
        rw (link, done) (still, ground (arith, near, routes d))
    | inr far ↦
        let (e, failed) = kernel.not_replaced (the_route dst gw) k link far in
        rw (link, failed) (link, ground (arith, far))
  ]

  uninstalled :
      (dst d : IpNet) (k : K)
      → HasLink k
      → let after = (remove_kernel_route n dst k).1 in
        HasLink after × (route_of d after ≡ (if same dst d then none else route_of d k))
  unfolding remove_kernel_route HasLink
  uninstalled dst d k link = elim (Result-cases (n.route_del dst k)) [
    | inr (after, done) ↦
        let (still, routes) = kernel.removed dst k after done in rw done (still ∙ link, routes d)
    | inl (e, failed) ↦ rw failed (link, ground (arith, kernel.not_removed dst d k e failed))
  ]

  -- The route to `d` after a path about `cidr`, where there was `held` before.
  abbrev pub outcome : IpNet → BestPath → IpNet → Option Route → Option Route
  outcome d p cidr held =
      if not (same cidr d)
      then held
      else if p.is_withdraw
      then none
      else if is_usable t cfg p && reachable (first_next_hop t p.next_hops)
      then some (the_route cidr (first_next_hop t p.next_hops))
      else held

  cidr_handled :
      (d : IpNet) (p : BestPath) (cidr : IpNet) (k : K)
      → HasLink k
      → let after = carried_out n (handle_cidr t cfg p cidr) k in
        HasLink after × (route_of d after ≡ outcome d p cidr (route_of d k))
  unfolding handle_cidr
  cidr_handled d p cidr k link = ground (
    arith,
    installed cidr d (first_next_hop t p.next_hops) k link,
    uninstalled cidr d k link,
    link,
  )

  abbrev effect : IpNet → BestPath → Option Route → Option Route
  effect d p held = elim (nlri_cidr t p.nlri) [ none ↦ held | some cidr ↦ outcome d p cidr held ]

  path_handled :
      (d : IpNet) (p : BestPath) (k : K)
      → HasLink k
      → let after = carried_out n (handle_best_path t cfg p) k in
        HasLink after × (route_of d after ≡ effect d p (route_of d k))
  unfolding handle_best_path
  path_handled d p k link = elim (Option-cases (nlri_cidr t p.nlri)) [
    | inl bad ↦ rw (named, bad, effect) (link, refl)
    | inr (cidr, read) ↦ rw (named, read, effect) (cidr_handled d p cidr k link)
  ]

  watched-cons :
      (p : BestPath) (ps : List BestPath) (k : K)
      → watched n t cfg (p ∷ ps) k ≡ watched n t cfg ps (carried_out n (handle_best_path t cfg p) k)
  unfolding watched watch_best_paths
  watched-cons p ps k = carried_out-append (handle_best_path t cfg p) (watch_best_paths t cfg ps) k

  watched-link :
      (d : IpNet) (ps : List BestPath) (k : K) → HasLink k → HasLink (watched n t cfg ps k)
  unfolding watched watch_best_paths
  watched-link d [] k link = link
  watched-link d (p ∷ ps) k link =
      rw (watched-cons p ps k)
        (watched-link d ps (carried_out n (handle_best_path t cfg p) k) (path_handled d p k link).0)

  watched-append :
      (ps qs : List BestPath) (k : K)
      → watched n t cfg (ps ++ qs) k ≡ watched n t cfg qs (watched n t cfg ps k)
  unfolding watched watch_best_paths
  watched-append [] qs k = refl
  watched-append (p ∷ ps) qs k =
      rw (watched-cons p ps k, watched-cons p (ps ++ qs) k)
        (watched-append ps qs (carried_out n (handle_best_path t cfg p) k))

  unaffected :
      (d : IpNet) (p : BestPath) (held : Option Route)
      → is_about t same d p ≡ false
      → effect d p held ≡ held
  unaffected d p held = elim (Option-cases (nlri_cidr t p.nlri)) [
    | inl bad ↦ rw (bad, effect) (λ _. refl)
    | inr (cidr, read) ↦ rw (read, effect, is_about) (λ other. rw other refl)
  ]

  others_keep :
      (d : IpNet) (ps : List BestPath) (k : K)
      → HasLink k
      → All (λ p. is_about t same d p ≡ false) ps
      → route_of d (watched n t cfg ps k) ≡ route_of d k
  unfolding watched watch_best_paths
  others_keep d [] k link others = refl
  others_keep d (p ∷ ps) k link others =
      let after = carried_out n (handle_best_path t cfg p) k in
      let (still, route) = path_handled d p k link in
      ap (route_of d) (watched-cons p ps k)
      ∙ others_keep d ps after still others.1
      ∙ route
      ∙ unaffected d p (route_of d k) others.0

  -- Whatever best paths the watcher meets, the last one whose prefix is read as the destination's
  -- network decides on the kernel's route to it: none after a withdrawal; the path's next hop over
  -- the interface where it is an IPv4 address that passes the test against the peer range and the
  -- kernel can reach; and otherwise the route that there was before the path stays. The interface has a name and is
  -- there, and the kernel's operations are as documented.
  pub last_path-route :
      (before after : List BestPath) (p : BestPath) (cidr d : IpNet) (k : K)
      → n.link_by_name cfg.wg_interface k ≡ ok index
      → nlri_cidr t p.nlri ≡ some cidr
      → same cidr d ≡ true
      → All (λ q. is_about t same d q ≡ false) after
      → route_of d (watched n t cfg (before ++ p ∷ after) k) ≡ (
          if p.is_withdraw
          then none
          else if is_usable t cfg p && reachable (first_next_hop t p.next_hops)
          then some (the_route cidr (first_next_hop t p.next_hops))
          else route_of d (watched n t cfg before k))
  unfolding HasLink
  last_path-route before after p cidr d k link read about others =
      let first = watched n t cfg before k in
      let at_path = carried_out n (handle_best_path t cfg p) first in
      let (still, route) = path_handled d p first (watched-link d before k link) in
      ap (route_of d) (watched-append before (p ∷ after) k ∙ watched-cons p after first)
      ∙ others_keep d after at_path still others
      ∙ route
      ∙ rw (read, about, effect) refl
