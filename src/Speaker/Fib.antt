-- ===== src/Speaker/Fib.antt =====
-- Which kernel routes the best-path watcher installs and removes.
use router_ui.Base.{
  true, false, List, [], ◌∷◌, some, ◌==◌, eq_iff, ◌≡◌, refl, ◌≢◌, arith, All, All-append,
  Bool-cases, inl, inr, Option-cases,
}
use router_ui.Net.{Ip, IpNet, contains, Texts}
use router_ui.Speaker.{
  SpeakerConfig, Call, add_path, delete_path, route_replace, route_del, BestPath, first_next_hop,
  in_peer_range, handle_cidr, nlri_cidr, handle_best_path, watch_best_paths,
}

-- A call of netlink over the configured interface, whose gateway lies in `net`.
abbrev pub IsInside : SpeakerConfig → IpNet → Call → Type 0
IsInside cfg net (route_replace interface dst gw) =
    (interface ≡ cfg.wg_interface) × (contains net gw ≡ true)
IsInside cfg net (route_del dst) = Unit
IsInside cfg net (add_path p) = ⊥
IsInside cfg net (delete_path uuid) = ⊥

module _ (t : Texts) (cfg : SpeakerConfig) (net : IpNet) (set : cfg.wg_peer_range ≢ "")
    (parsed : t.parse_cidr cfg.wg_peer_range ≡ some net) where
  in_peer_range_lem : (gw : Ip) → in_peer_range t cfg.wg_peer_range gw ≡ contains net gw
  unfolding in_peer_range
  in_peer_range_lem gw = ground (arith, parsed, eq_iff cfg.wg_peer_range "")

  handle_cidr-IsInside :
      (p : BestPath) (cidr : IpNet) → All (IsInside cfg net) (handle_cidr t cfg p cidr)
  unfolding handle_cidr
  handle_cidr-IsInside p cidr = ground (arith, in_peer_range_lem (first_next_hop t p.next_hops))

  handle_best_path-IsInside : (p : BestPath) → All (IsInside cfg net) (handle_best_path t cfg p)
  unfolding handle_best_path
  handle_best_path-IsInside p = elim (Bool-cases (cfg.wg_interface == "")) [
    | inl off ↦ rw (off, handle_best_path) tt
    | inr on ↦
        rw (on, handle_best_path)
          (elim (Option-cases (nlri_cidr t p.nlri)) [
            | inl bad ↦ rw bad tt
            | inr (cidr, e) ↦ rw e (handle_cidr-IsInside p cidr)
          ])
  ]

  -- With a peer range that is set and parses, whatever best paths come in, the watcher makes no
  -- call but those of netlink, and each route that it installs is over the configured interface
  -- with a gateway inside the range.
  pub watch_best_paths-IsInside :
      (ps : List BestPath) → All (IsInside cfg net) (watch_best_paths t cfg ps)
  unfolding watch_best_paths
  watch_best_paths-IsInside [] = tt
  watch_best_paths-IsInside (p ∷ ps) =
      All-append (IsInside cfg net) (handle_best_path t cfg p) (watch_best_paths t cfg ps)
        (handle_best_path-IsInside p) (watch_best_paths-IsInside ps)

-- Without an interface, as on the nodes, the watcher makes no call.
pub watch_best_paths_off :
    (t : Texts) (cfg : SpeakerConfig) (ps : List BestPath)
    → cfg.wg_interface ≡ ""
    → watch_best_paths t cfg ps ≡ []
unfolding watch_best_paths handle_best_path
watch_best_paths_off t cfg [] off = refl
watch_best_paths_off t cfg (p ∷ ps) off =
    ground (arith, eq_iff cfg.wg_interface "", watch_best_paths_off t cfg ps off)

abbrev pub withdrawal : BestPath → BestPath
withdrawal p = record p { is_withdraw = true }

-- With an interface and a peer range that parses, a path whose prefix parses and whose next hop is
-- outside the range is not installed, and its withdrawal still makes the kernel delete the route
-- to its prefix.
pub foreign_withdrawal :
    (t : Texts) (cfg : SpeakerConfig) (p : BestPath) (net cidr : IpNet)
    → cfg.wg_interface ≢ ""
    → cfg.wg_peer_range ≢ ""
    → t.parse_cidr cfg.wg_peer_range ≡ some net
    → nlri_cidr t p.nlri ≡ some cidr
    → p.is_withdraw ≡ false
    → contains net (first_next_hop t p.next_hops) ≡ false
    → watch_best_paths t cfg (p ∷ withdrawal p ∷ []) ≡ route_del cidr ∷ []
unfolding watch_best_paths handle_best_path handle_cidr
foreign_withdrawal t cfg p net cidr on set parsed decoded up outside = ground (
  arith,
  decoded,
  in_peer_range_lem t cfg net set parsed (first_next_hop t p.next_hops),
  eq_iff cfg.wg_interface "",
)
