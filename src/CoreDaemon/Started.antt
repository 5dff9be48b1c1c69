-- ===== src/CoreDaemon/Started.antt =====
-- run of cmd/core/main.go: what holds of every start of the core.
use router_ui.Base.{
  ℕ, ◌≤◌, ◌<◌, ◌-◌, ◌^◌, Bool, true, false, List, [], ◌∷◌, some, String, Result, ok, err, ◌≡◌, refl,
  sym, ◌∙◌, ap, Result-cases, inl, inr, Option, subst,
}
use router_ui.Base.Calls.{
  World, Act, ◌>>=◌, ◌>>◌, perform, and_then_ok, RunsAlike, bind-RunsAlike, perform-RunsAlike,
}
use router_ui.Base.Dict.{lookup}
use router_ui.Net.{Texts, IpNet, IsIp4Net}
use router_ui.Config.{CoreConfig, BgpUpstream}
use router_ui.Subnet
use router_ui.WgPool
use router_ui.Subnet.Create
use router_ui.Subnet.Shape.{HasShape, new_allocator-HasShape}
use router_ui.Registry.{Node, Registry}
use router_ui.Registry.Store.{new_registry}
use router_ui.Registry.History.{new_registry-Inv, new_registry_parts}
use router_ui.Registry.Invariant.{Inv}
use router_ui.CoreDaemon.{core_callbacks, core_identity}
use router_ui.CoreDaemon.Peers.{Connected}
use router_ui.CoreDaemon.Start.{
  Call, parse_key, new_manager, wg_setup, wg_public_key, start_speaker, apply_policies, add_peer,
  add_upstream_export_policy, announce_route, Error, core_interface, core_speaker, made_by,
  start_upstreams, start_wireguard, start_bgp, start_registry, start, bad_private_key, no_manager,
  no_interface, no_public_key, policies_failed, announce_failed, no_allocator, no_registry,
}

-- The calls of the loop over the upstreams, before which `done` were made.
abbrev pub upstream_calls : List BgpUpstream → List Call → List Call
upstream_calls [] done = done
upstream_calls (up ∷ ups) done =
    upstream_calls ups (add_upstream_export_policy up.address ∷ add_peer up.address up.asn ∷ done)

pub start_upstreams_lem :
    (ups : List BgpUpstream) (w : World Call) (done : List Call)
    → start_upstreams ups w done ≡ (ok true, upstream_calls ups done)
unfolding start_upstreams
start_upstreams_lem [] w done = refl
start_upstreams_lem (up ∷ ups) w done = start_upstreams_lem ups w _

-- A call about the upstreams.
abbrev pub is_upstream : Call → Bool
is_upstream (add_peer addr asn) = true
is_upstream (add_upstream_export_policy addr) = true
is_upstream _ = false

module _ (w v : World Call)
    (same : (calls : List Call) (c : Call) → is_upstream c ≡ false → w calls c ≡ v calls c) where
  abbrev setup_and_key : CoreConfig → String → Act Call Error String
  setup_and_key cfg key =
      perform no_interface (wg_setup (core_interface cfg key))
      >> perform no_public_key wg_public_key

  performs :
      (wrap : String → Error) (c : Call) → is_upstream c ≡ false → RunsAlike w v (perform wrap c)
  performs wrap c other = perform-RunsAlike w v wrap c (λ calls. same calls c other)

  performs_then :
      {A : Type 0} (wrap : String → Error) (c : Call) (f : String → Act Call Error A)
      → is_upstream c ≡ false
      → ((text : String) → RunsAlike w v (f text))
      → RunsAlike w v (perform wrap c >>= f)
  performs_then wrap c f other = bind-RunsAlike w v (perform wrap c) f (performs wrap c other)

  start_wireguard-RunsAlike : (cfg : CoreConfig) → RunsAlike w v (start_wireguard cfg)
  unfolding start_wireguard
  start_wireguard-RunsAlike cfg =
      performs_then bad_private_key (parse_key cfg.wireguard.private_key)
        (λ key. perform no_manager (new_manager cfg.wireguard.interface) >> setup_and_key cfg key)
        refl
        λ key.
          performs_then no_manager (new_manager cfg.wireguard.interface)
            (λ _. setup_and_key cfg key) refl
            λ _.
              performs_then no_interface (wg_setup (core_interface cfg key))
                (λ _. perform no_public_key wg_public_key) refl
                λ _. performs no_public_key wg_public_key refl

  start_upstreams-RunsAlike : (ups : List BgpUpstream) → RunsAlike w v (start_upstreams ups)
  start_upstreams-RunsAlike ups done =
      start_upstreams_lem ups w done ∙ sym (start_upstreams_lem ups v done)

  start_bgp-RunsAlike : (cfg : CoreConfig) → RunsAlike w v (start_bgp cfg)
  unfolding start_bgp
  start_bgp-RunsAlike cfg done =
      let last = announce_route cfg.network.aggregate_prefix cfg.network.wg_core_ip in
      performs_then policies_failed
        (apply_policies cfg.network.aggregate_prefix cfg.network.subnet_bits)
        (λ _. start_upstreams cfg.bgp.upstreams >> perform announce_failed last) refl
        (λ _.
          bind-RunsAlike w v (start_upstreams cfg.bgp.upstreams) (λ _. perform announce_failed last)
            (start_upstreams-RunsAlike cfg.bgp.upstreams) λ _. performs announce_failed last refl)
        (start_speaker (core_speaker cfg) ∷ done)

  made_by-alike : (made : Result WgPool.Error Registry) → RunsAlike w v (made_by no_registry made)
  made_by-alike (ok r) done = refl
  made_by-alike (err e) done = refl

  start_registry-RunsAlike :
      (fuel : ℕ) (t : Texts) (cfg : CoreConfig) (key : String)
      → RunsAlike w v (start_registry fuel t cfg key)
  unfolding start_registry
  start_registry-RunsAlike fuel t cfg key done =
      elim (Result-cases
        (Subnet.new_allocator t cfg.network.aggregate_prefix cfg.network.subnet_bits)) [
          | inl (e, failed) ↦ rw failed refl
          | inr (a, made) ↦ rw made (
              made_by-alike
                (new_registry fuel t a (core_identity cfg key) cfg.network.wg_peer_range
                  core_callbacks)
                done)
        ]

-- What becomes of the calls about the upstreams, their export policies among them, does not
-- matter: the core makes the same calls and starts alike.
pub start_indifferent :
    (fuel : ℕ) (t : Texts) (cfg : CoreConfig) (w v : World Call) (done : List Call)
    → ((calls : List Call) (c : Call) → is_upstream c ≡ false → w calls c ≡ v calls c)
    → start fuel t cfg w done ≡ start fuel t cfg v done
unfolding start
start_indifferent fuel t cfg w v done same =
    bind-RunsAlike w v (start_wireguard cfg) (λ key. start_bgp cfg >> start_registry fuel t cfg key)
      (start_wireguard-RunsAlike w v same cfg)
      (λ key.
        bind-RunsAlike w v (start_bgp cfg) (λ _. start_registry fuel t cfg key)
          (start_bgp-RunsAlike w v same cfg) λ _. start_registry-RunsAlike w v same fuel t cfg key)
      done

made_by_ok :
    {E A : Type 0} (wrap : E → Error) (made : Result E A) (w : World Call) (done : List Call)
    (a : A)
    → (made_by wrap made w done).0 ≡ ok a
    → made ≡ ok a
made_by_ok wrap (ok b) w done a e = cc e
made_by_ok wrap (err x) w done a e = absurd (cc e)

-- A core that starts has an allocator and a registry from the constructors.
pub start_made :
    (fuel : ℕ) (t : Texts) (cfg : CoreConfig) (w : World Call) (done : List Call) (r : Registry)
    → (start fuel t cfg w done).0 ≡ ok r
    → (key : String) × (alloc : Subnet.Allocator) × (Subnet.new_allocator t
          cfg.network.aggregate_prefix cfg.network.subnet_bits
        ≡ ok alloc)
      × (new_registry fuel t alloc (core_identity cfg key) cfg.network.wg_peer_range core_callbacks
          ≡ ok r)
unfolding start start_registry
start_made fuel t cfg w done r e =
    let (key, _, after_key, _) =
      and_then_ok (start_wireguard cfg w done)
        (λ key. start_bgp cfg >> start_registry fuel t cfg key) w r e in
    let (_, _, after_bgp, _) =
      and_then_ok (start_bgp cfg w (start_wireguard cfg w done).1)
        (λ _. start_registry fuel t cfg key) w r after_key in
    let made = Subnet.new_allocator t cfg.network.aggregate_prefix cfg.network.subnet_bits in
    let calls = (start_bgp cfg w (start_wireguard cfg w done).1).1 in
    let rest : Subnet.Allocator → Act Call Error Registry = λ alloc. made_by no_registry (
      new_registry fuel t alloc (core_identity cfg key) cfg.network.wg_peer_range core_callbacks) in
    let (alloc, allocated, after_alloc, _) =
      and_then_ok (made_by no_allocator made w calls) rest w r after_bgp in
    (
      key,
      alloc,
      made_by_ok no_allocator made w calls alloc allocated,
      made_by_ok no_registry _ w _ r after_alloc,
    )

-- A core that starts, over an IPv4 aggregate and an IPv4 range of tunnels of prefix length at
-- least 1 and with fuel for more rounds than the range has addresses, has a registry that is
-- connected to any device, as it has no nodes, and a block length of at most 30.
pub start-Connected :
    {D : Type 0} (allowed_ips : String → D → Option (List IpNet)) (d : D) (fuel : ℕ) (t : Texts)
    (cfg : CoreConfig) (w : World Call) (r : Registry) (base net : IpNet)
    → t.parse_cidr cfg.network.aggregate_prefix ≡ some base
    → IsIp4Net base
    → t.parse_cidr cfg.network.wg_peer_range ≡ some net
    → IsIp4Net net
    → 1 ≤ net.ones
    → 2 ^ (32 - net.ones) < fuel
    → (start fuel t cfg w []).0 ≡ ok r
    → Connected allowed_ips cfg.network.subnet_bits r d
      × (cfg.network.subnet_bits ≤ 30)
      × (r.nodes ≡ [])
unfolding new_registry lookup
start-Connected allowed_ips d fuel t cfg w r base net aggregate v range u h enough started =
    let (key, alloc, allocated, made) = start_made fuel t cfg w [] r started in
    let (shape, _, short) =
      new_allocator-HasShape t cfg.network.aggregate_prefix base cfg.network.subnet_bits alloc
        aggregate v allocated in
    let (tiling, valid, _, _, unheld) =
      Subnet.Create.new_allocator-IsTiling t cfg.network.aggregate_prefix base
        cfg.network.subnet_bits alloc aggregate v allocated in
    let (s, stored, inv, empty) =
      new_registry-Inv fuel t alloc (core_identity cfg key) cfg.network.wg_peer_range core_callbacks
        net valid tiling unheld range u h enough in
    let same : s ≡ r = cc (stored, made) in
    let (allocator, callbacks, _, _) =
      new_registry_parts fuel t alloc (core_identity cfg key) cfg.network.wg_peer_range
        core_callbacks r made in
    let none_stored : r.nodes ≡ [] = cc (same, empty) in
    let unknown : (i : String) (n : Node) → lookup i r.nodes ≡ some n → ⊥ =
      λ i n at. absurd (cc (ap (lookup i) none_stored, at)) in
    (
      record {
        inv = subst Inv same inv;
        shape = subst (HasShape cfg.network.subnet_bits) (sym allocator) shape;
        callbacks = callbacks;
        keys = λ i j n m at_i at_j key_same. absurd (unknown i n at_i);
        peers = λ i n at_i. absurd (unknown i n at_i);
      },
      short,
      none_stored,
    )
