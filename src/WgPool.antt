-- ===== src/WgPool.antt =====
-- internal/registry/registry.go, type wgIPAllocator: the pool of WireGuard tunnel addresses.
-- `Fill` has the loop that builds the pool, `Lease` the assignment of addresses to nodes.
-- The loop runs on fuel: `no_end` says that it has not ended within the fuel.
pub mod Increment
pub mod Fill
pub mod Lease
pub mod Fresh
pub mod Leases
use router_ui.Base.{
  ℕ, zero, suc, ◌+◌, ◌%◌, ◌≡◌, refl, Bool, true, false, ◌||◌, List, [], ◌∷◌, ◌++◌, Option, none,
  some, String, nat_eq, if◌then◌else◌, get_or, Result, ok, err,
}
use router_ui.Base.Dict.{Dict, lookup, insert, delete}
use router_ui.Net.{Ip, IpNet, to4, ip_equal, contains, Texts}

-- The loop of incrementIP, from the last byte up to the first that does not wrap: whether every
-- byte wrapped, and the bytes.
unfoldable pub increment_bytes : Ip → Bool × Ip
increment_bytes [] = (true, [])
increment_bytes (b ∷ ip) =
    let rest = increment_bytes ip in
    if rest.0 then (nat_eq ((b + 1) % 256) 0, ((b + 1) % 256) ∷ rest.1) else (false, b ∷ rest.1)

unfoldable pub increment_ip : Ip → Ip
unfolding increment_bytes
increment_ip ip = (increment_bytes ip).1

pub record WgIpAllocator : Type 0 where
  pub pool : List Ip
  pub assigned : Dict Ip

pub data Error : Type 0 where
  parse_range pool_exhausted no_end : Error

-- The two `continue` tests: last byte 0 or 255, and the core's own address.
unfoldable pub is_skipped : Ip → Ip → Bool
is_skipped core ip = nat_eq (get_or ip 3 0) 0 || nat_eq (get_or ip 3 0) 255 || ip_equal ip core

abbrev pub also : Ip → Option (List Ip) → Option (List Ip)
also ip none = none
also ip (some pool) = some (ip ∷ pool)

-- The loop of newWGIPAllocator, from `ip` on.
unfoldable pub fill : ℕ → IpNet → Ip → Ip → Option (List Ip)
fill zero net core ip = none
fill (suc fuel) net core ip =
    let rest = fill fuel net core (increment_ip ip) in
    if contains net ip then (if is_skipped core ip then rest else also ip rest) else some []

unfoldable pub filled : Option (List Ip) → Result Error WgIpAllocator
filled none = err no_end
filled (some pool) = ok (record { pool = pool; assigned = [] })

unfoldable pub new_wg_ip_allocator : ℕ → Texts → String → String → Result Error WgIpAllocator
new_wg_ip_allocator fuel t cidr core_ip = elim (t.parse_cidr cidr) [
  | none ↦ err parse_range
  | some net ↦ filled (fill fuel net (to4 (t.parse_ip core_ip)) (to4 net.ip))
]

allocate_from : String → WgIpAllocator → List Ip → Result Error Ip × WgIpAllocator
allocate_from node_id a [] = (err pool_exhausted, a)
allocate_from node_id a (ip ∷ pool) =
    (ok ip, record { pool = pool; assigned = insert node_id ip a.assigned })

unfoldable pub allocate : String → WgIpAllocator → Result Error Ip × WgIpAllocator
unfolding allocate_from
allocate node_id a = elim (lookup node_id a.assigned) [
  | some ip ↦ (ok ip, a)
  | none ↦ allocate_from node_id a a.pool
]

unfoldable pub release : String → WgIpAllocator → WgIpAllocator
release node_id a = elim (lookup node_id a.assigned) [
  | some ip ↦ record { pool = a.pool ++ ip ∷ []; assigned = delete node_id a.assigned }
  | none ↦ a
]
