-- ===== src/CoreDaemon/Ordered.antt =====
-- run of cmd/core/main.go: the policies come before the peers and the aggregate.
use router_ui.Base.{
  ℕ, Bool, true, false, not, ◌&&◌, ◌||◌, List, [], ◌∷◌, String, Result-cases, inl, inr, ◌≡◌, refl,
  arith, ok, subst, sym, ap, ◌∙◌,
}
use router_ui.Base.Calls.{World, succeeded, and_then_keeps, and_then_ok, ◌>>◌}
use router_ui.Net.{Texts}
use router_ui.Config.{CoreConfig, BgpUpstream}
use router_ui.CoreDaemon.Start.{
  Call, start_speaker, core_speaker, apply_policies, add_peer, add_upstream_export_policy,
  announce_route, listen_and_serve, listen_and_serve_tls, start_wireguard, start_bgp,
  start_registry, start,
}
use router_ui.Registry.{Registry}
use router_ui.CoreDaemon.Started.{upstream_calls, start_upstreams_lem}

abbrev is_apply : Call → Bool
is_apply (apply_policies prefix bits) = true
is_apply _ = false

-- A peer is added, a route announced, or the HTTP server opened.
abbrev pub opens : Call → Bool
opens (add_peer addr asn) = true
opens (announce_route prefix next_hop) = true
opens (listen_and_serve server) = true
opens (listen_and_serve_tls server cert key) = true
opens _ = false

-- Apply has been called, and went through.
abbrev pub is_filtered : World Call → List Call → Bool
is_filtered w [] = false
is_filtered w (c ∷ rest) = (is_apply c && succeeded (w rest c)) || is_filtered w rest

-- Whatever opens the speaker comes after that.
abbrev pub is_ordered : World Call → List Call → Bool
is_ordered w [] = true
is_ordered w (c ∷ rest) = (not (opens c) || is_filtered w rest) && is_ordered w rest

upstreams_ordered :
    (ups : List BgpUpstream) (w : World Call) (done : List Call)
    → is_filtered w done ≡ true
    → is_ordered w done ≡ true
    → (is_filtered w (upstream_calls ups done) ≡ true)
      × (is_ordered w (upstream_calls ups done) ≡ true)
upstreams_ordered [] w done f o = (f, o)
upstreams_ordered (up ∷ ups) w done f o =
    upstreams_ordered ups w
      (add_upstream_export_policy up.address ∷ add_peer up.address up.asn ∷ done) (ground arith)
      (ground arith)

upstreams_filtered :
    (ups : List BgpUpstream) (w : World Call) (done : List Call)
    → is_filtered w done ≡ true
    → is_filtered w (upstream_calls ups done) ≡ true
upstreams_filtered [] w done f = f
upstreams_filtered (up ∷ ups) w done f =
    upstreams_filtered ups w
      (add_upstream_export_policy up.address ∷ add_peer up.address up.asn ∷ done) (ground arith)

wireguard_ordered :
    (cfg : CoreConfig) (w : World Call) (done : List Call)
    → is_ordered w done ≡ true
    → is_ordered w (start_wireguard cfg w done).1 ≡ true
unfolding start_wireguard
wireguard_ordered cfg w done o = ground arith

bgp_ordered :
    (cfg : CoreConfig) (w : World Call) (done : List Call)
    → is_ordered w done ≡ true
    → is_ordered w (start_bgp cfg w done).1 ≡ true
unfolding start_bgp
bgp_ordered cfg w done o =
    let before = start_speaker (core_speaker cfg) ∷ done in
    let policies = apply_policies cfg.network.aggregate_prefix cfg.network.subnet_bits in
    elim (Result-cases (w before policies)) [
      | inl (e, failed) ↦ rw failed (ground (arith, failed))
      | inr (text, applied) ↦
          let (f, kept) =
            upstreams_ordered cfg.bgp.upstreams w (policies ∷ before) (ground (arith, applied))
              (ground arith) in
          rw (applied, start_upstreams_lem cfg.bgp.upstreams w (policies ∷ before))
            (ground (arith, f, kept))
    ]

bgp_filtered :
    (cfg : CoreConfig) (w : World Call) (done : List Call) (text : String)
    → (start_bgp cfg w done).0 ≡ ok text
    → is_filtered w (start_bgp cfg w done).1 ≡ true
unfolding start_bgp
bgp_filtered cfg w done text =
    let before = start_speaker (core_speaker cfg) ∷ done in
    let policies = apply_policies cfg.network.aggregate_prefix cfg.network.subnet_bits in
    elim (Result-cases (w before policies)) [
      | inl (e, failed) ↦ rw failed (λ started. absurd (cc started))
      | inr (applied, went) ↦
          let filtered =
            upstreams_filtered cfg.bgp.upstreams w (policies ∷ before) (ground (arith, went)) in
          rw (went, start_upstreams_lem cfg.bgp.upstreams w (policies ∷ before))
            (λ _. ground (arith, filtered))
    ]

registry_ordered :
    (fuel : ℕ) (t : Texts) (cfg : CoreConfig) (key : String) (w : World Call) (done : List Call)
    → (start_registry fuel t cfg key w done).1 ≡ done
unfolding start_registry
registry_ordered fuel t cfg key w done = ground arith

-- In whatever way a start of the core goes, no peer was added and no route announced before the
-- policies had been applied with success.
pub start-ordered :
    (fuel : ℕ) (t : Texts) (cfg : CoreConfig) (w : World Call)
    → is_ordered w (start fuel t cfg w []).1 ≡ true
unfolding start
start-ordered fuel t cfg w =
    and_then_keeps (λ calls. is_ordered w calls ≡ true) (start_wireguard cfg w [])
      (λ key. start_bgp cfg >> start_registry fuel t cfg key) w (wireguard_ordered cfg w [] refl)
      λ key done o.
        and_then_keeps (λ calls. is_ordered w calls ≡ true) (start_bgp cfg w done)
          (λ _. start_registry fuel t cfg key) w (bgp_ordered cfg w done o)
          λ _ after kept. rw (registry_ordered fuel t cfg key w after) kept

pub start_filtered :
    (fuel : ℕ) (t : Texts) (cfg : CoreConfig) (w : World Call) (r : Registry)
    → (start fuel t cfg w []).0 ≡ ok r
    → is_filtered w (start fuel t cfg w []).1 ≡ true
unfolding start
start_filtered fuel t cfg w r started =
    let (key, _, after_key, whole) =
      and_then_ok (start_wireguard cfg w []) (λ key. start_bgp cfg >> start_registry fuel t cfg key)
        w r started in
    let done = (start_wireguard cfg w []).1 in
    let (text, bgp, _, rest) =
      and_then_ok (start_bgp cfg w done) (λ _. start_registry fuel t cfg key) w r after_key in
    let last = registry_ordered fuel t cfg key w (start_bgp cfg w done).1 in
    subst (λ calls. is_filtered w calls ≡ true) (sym (ap (λ x. x.1) (whole ∙ rest) ∙ last))
      (bgp_filtered cfg w done text bgp)
