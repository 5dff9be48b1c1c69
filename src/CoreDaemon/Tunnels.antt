-- ===== src/CoreDaemon/Tunnels.antt =====
-- The registry with the core's WireGuard interface: which peers the device has.
use router_ui.Base.{
  ℕ, ◌≤◌, true, false, ◌&&◌, List, [], ◌∷◌, some, String, ◌≡◌, ◌≢◌, ap, ◌∙◌, sym, arith, subst,
}
use router_ui.Base.Dict.{lookup}
use router_ui.Net.{IpNet, contains}
use router_ui.Subnet.Shape.{HasShape, holder-IsBlock, contains_self}
use router_ui.WireGuard.{DeviceConfig, add_peer, remove_peer}
use router_ui.WireGuard.Device.{Apart, all_succeed, after_calls}
use router_ui.Registry.{
  Node, Registry, Env, Effect, wg_add_peer, wg_remove_peer, bgp_add_peer, bgp_remove_peer,
  bgp_list_rib,
}
use router_ui.Registry.Register.{host_net}
use router_ui.Registry.Invariant.{Inv, subnet_of}
use router_ui.Registry.History.{here, Reach-separate}

-- What a call of the registry does to the device, where the manager's own calls succeed.
module _ {D : Type 0} (configure : DeviceConfig → D → D) (name : String) where
  unfoldable pub after_effect : Effect → D → D
  unfolding add_peer remove_peer
  after_effect (wg_add_peer peer) d = after_calls configure (add_peer name peer all_succeed []).1 d
  after_effect (wg_remove_peer key) d =
      after_calls configure (remove_peer name key all_succeed []).1 d
  after_effect (bgp_add_peer addr asn) d = d
  after_effect (bgp_remove_peer addr) d = d
  after_effect bgp_list_rib d = d

  unfoldable pub after_effects : List Effect → D → D
  unfolding after_effect
  after_effects [] d = d
  after_effects (e ∷ es) d = after_effects es (after_effect e d)

-- What a node may send from: its tunnel address and its block.
abbrev pub networks : Node → List IpNet
networks n = host_net n.wg_ip ∷ n.subnet ∷ []

-- Two nodes have no network in common.
pub Inv-Apart :
    (env : Env) (bits : ℕ) (r : Registry) (i j : String) (n m : Node)
    → Inv r
    → HasShape bits r.allocator
    → bits ≤ 30
    → i ≢ j
    → lookup i r.nodes ≡ some n
    → lookup j r.nodes ≡ some m
    → Apart (networks n) (networks m)
Inv-Apart env bits r i j n m v shape short ne at_i at_j =
    let (four, ones_n) =
      holder-IsBlock bits i r.allocator n.subnet shape (v.subnets i ∙ ap subnet_of at_i) in
    let (_, ones_m) =
      holder-IsBlock bits j r.allocator m.subnet shape (v.subnets j ∙ ap subnet_of at_j) in
    let (ips, blocks) = Reach-separate env r r i j n m n.subnet.ip v here ne at_i at_j four in
    (
      (
        λ same. ips (sym (ap (λ net. net.ip) same)),
        ((λ same. long ones_n (sym (ap (λ net. net.ones) same))), tt),
      ),
      (
        ((λ same. long ones_m (ap (λ net. net.ones) same)), ((λ same. both blocks (sym same)), tt)),
        tt,
      ),
    )
  where
    long : {k : ℕ} → k ≡ bits → k ≡ 32 → ⊥
    long a b = absurd (omega (arith, short, a, b))

    both :
        (contains n.subnet n.subnet.ip && contains m.subnet n.subnet.ip ≡ false)
        → n.subnet ≡ m.subnet
        → ⊥
    both blocks same =
        let own = contains_self n.subnet in
        let other : contains m.subnet n.subnet.ip ≡ true =
          subst (λ net. contains net n.subnet.ip ≡ true) same own in
        cc (blocks, own, other)
