-- ===== src/CoreDaemon/Range.antt =====
-- internal/registry/registry.go over a history of operations: the addresses that the pool deals with.
use mathlib.Core.List.{Mem, mem-append_right}
use mathlib.Core.List.Perm
use router_ui.Base.{
  ℕ, Bool, true, List, Option, some, String, ◌≡◌, arith, inl, inr, Option-cases, Result-cases,
}
use router_ui.Base.Dict.{lookup, lookup-Mem}
use router_ui.Net.{Ip, IpNet, contains}
use router_ui.Subnet
use router_ui.WgPool
use router_ui.WgPool.{WgIpAllocator}
use router_ui.WgPool.Lease.{
  IsValid, owned, owned-allocate, owned-release, allocate-IsValid, release-IsValid,
}
use router_ui.WireGuard.{DeviceConfig}
use router_ui.Api.{RegisterRequest}
use router_ui.Registry.{Registry, Env}
use router_ui.Registry.Store.{mark_down, mark_node_down, record_heartbeat, heartbeat_node}
use router_ui.Registry.Register.{register_node, install, allocate_wg_ip, allocate_subnet}
use router_ui.Registry.Delete.{delete_node, delete_entry, release_resources}
use router_ui.CoreDaemon.Network.{Step, registers, deletes, marks, beats, Reach, here, next}

-- A property of allocators that Allocate and Release keep is one of the registry's.
module _ (Keeps : WgIpAllocator → Type 0)
    (grants : (id : String) (a : WgIpAllocator) → Keeps a → Keeps (WgPool.allocate id a).1)
    (frees : (id : String) (a : WgIpAllocator) → Keeps a → Keeps (WgPool.release id a)) where
  register_node-keeps :
      (env : Env) (now : ℕ) (req : RegisterRequest) (key : String) (r : Registry)
      → Keeps r.wg_ip_pool
      → Keeps (register_node env now req key r).registry.wg_ip_pool
  unfolding register_node allocate_wg_ip allocate_subnet install
  register_node-keeps env now req key r h = elim (Option-cases (lookup req.node_id r.nodes)) [
    | inr (n, at) ↦ rw (at, register_node) h
    | inl new ↦
        let later = grants req.node_id r.wg_ip_pool h in
        rw (new, register_node)
          (elim (Result-cases (WgPool.allocate req.node_id r.wg_ip_pool).0) [
            | inl (e, failed) ↦ rw (failed, allocate_wg_ip) later
            | inr (ip, got) ↦
                rw (got, allocate_wg_ip)
                  (elim (Result-cases (Subnet.allocate req.node_id r.allocator).0) [
                    | inl (e, none_left) ↦
                        rw (none_left, allocate_subnet) (frees req.node_id _ later)
                    | inr (net, found) ↦ rw (found, allocate_subnet) later
                  ])
          ])
  ]

  delete_node-keeps :
      (env : Env) (id : String) (r : Registry)
      → Keeps r.wg_ip_pool
      → Keeps (delete_node env.texts id r).registry.wg_ip_pool
  unfolding delete_node delete_entry release_resources
  delete_node-keeps env id r h = elim (Option-cases (lookup id r.nodes)) [
    | inl new ↦ rw (new, delete_node) h
    | inr (n, at) ↦ rw (at, delete_node) (frees id r.wg_ip_pool h)
  ]

  same_pool-mark :
      (env : Env) (id : String) (r : Registry)
      → (mark_down env.texts id r).0.wg_ip_pool ≡ r.wg_ip_pool
  unfolding mark_down mark_node_down
  same_pool-mark env id r = ground arith

  same_pool-beat :
      (env : Env) (now : ℕ) (id : String) (up : Bool) (r : Registry)
      → (record_heartbeat env.texts now id up r).1.wg_ip_pool ≡ r.wg_ip_pool
  unfolding record_heartbeat heartbeat_node
  same_pool-beat env now id up r = ground arith

  module _ {D : Type 0} (configure : DeviceConfig → D → D)
      (allowed_ips : String → D → Option (List IpNet)) (bits : ℕ) (name : String) (env : Env) where
    Step-keeps :
        {r s : Registry} {d e : D}
        → Step configure allowed_ips bits name env r d s e
        → Keeps r.wg_ip_pool
        → Keeps s.wg_ip_pool
    Step-keeps (registers now req key r d unused) h = register_node-keeps env now req key r h
    Step-keeps (deletes id r d) h = delete_node-keeps env id r h
    Step-keeps (marks id r d) h = rw (same_pool-mark env id r) h
    Step-keeps (beats now id up r d) h = rw (same_pool-beat env now id up r) h

    pub Reach-keeps :
        {r : Registry} {d : D} {s : Registry} {e : D}
        → Reach configure allowed_ips bits name env r d s e
        → Keeps r.wg_ip_pool
        → Keeps s.wg_ip_pool
    Reach-keeps here h = h
    Reach-keeps (next path step) h = Step-keeps step (Reach-keeps path h)

-- All addresses of the pool, given away or not, lie in one range.
pub record IsWithin (range : IpNet) (a : WgIpAllocator) : Type 0 where
  pub valid : IsValid a
  pub inside : (ip : Ip) → Mem ip (owned a) → contains range ip ≡ true

pub allocate-IsWithin :
    (range : IpNet) (id : String) (a : WgIpAllocator)
    → IsWithin range a
    → IsWithin range (WgPool.allocate id a).1
allocate-IsWithin range id a h = record {
  valid = allocate-IsValid id a h.valid;
  inside = λ ip m. h.inside ip ((Perm.mem_iff (owned-allocate id a)).0 m);
}

pub release-IsWithin :
    (range : IpNet) (id : String) (a : WgIpAllocator)
    → IsWithin range a
    → IsWithin range (WgPool.release id a)
release-IsWithin range id a h = record {
  valid = release-IsValid id a h.valid;
  inside = λ ip m. h.inside ip ((Perm.mem_iff (owned-release id a h.valid.keys)).0 m);
}

pub holder-IsWithin :
    (range : IpNet) (id : String) (ip : Ip) (a : WgIpAllocator)
    → IsWithin range a
    → lookup id a.assigned ≡ some ip
    → contains range ip ≡ true
holder-IsWithin range id ip a h at =
    h.inside ip (mem-append_right a.pool (lookup-Mem id ip a.assigned at))
