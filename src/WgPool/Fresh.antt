-- ===== src/WgPool/Fresh.antt =====
-- newWGIPAllocator of internal/registry/registry.go: the pool that it starts with.
use mathlib.Core.List.{Mem, Nodup, Nodup-cons, Nodup-nil, not-mem-nil, mem-cons}
use mathlib.Core.Logic.Or
use native.Mathlib.Bridge.{le_prop}
use native.Mathlib.Nat.{mod-eq_of_lt}
use router_ui.Base.{
  ℕ, zero, suc, ◌+◌, ◌-◌, ◌≤◌, ◌<◌, ◌^◌, ◌≡◌, refl, true, false, List, [], append-nil, some, String,
  arith, All, ok, ap, Bool-cases, inl, inr,
}
use router_ui.Base.Dict.{HasDistinctKeys}
use router_ui.Net.{
  Ip, IpNet, IsIp4Net, be_value, be_value-put_uint32, put_uint32, block_fits, contains_inside,
  contains, to4, Texts,
}
use router_ui.WgPool.{WgIpAllocator, is_skipped, filled, new_wg_ip_allocator}
use router_ui.WgPool.Fill.{addresses, usable, fill-usable}
use router_ui.WgPool.Lease.{IsValid}

-- The addresses from `n` on are at least `n`.
usable-le :
    (core ip : Ip) (n count : ℕ)
    → n + count ≤ 2 ^ 32
    → Mem ip (usable core (addresses n count))
    → n ≤ be_value ip
usable-le core ip n zero h m = absurd (not-mem-nil m)
usable-le core ip n (suc count) h m =
    let later : Mem ip (usable core (addresses (n + 1) count)) → n ≤ be_value ip =
      λ k. omega (arith, usable-le core ip (n + 1) count (omega arith) k) in
    elim (Bool-cases (is_skipped core (put_uint32 n))) [
      | inl out ↦ later (rw out at m)
      | inr taken ↦ Or.elim le_prop (mem-cons.0 (rw taken at m)) here later
    ]
  where
    here : ip ≡ put_uint32 n → n ≤ be_value ip
    here e =
        let small : n < 2 ^ 32 = omega arith in
        rw e (omega (arith, be_value-put_uint32 n, mod-eq_of_lt small))

usable-Nodup :
    (core : Ip) (n count : ℕ) → n + count ≤ 2 ^ 32 → Nodup (usable core (addresses n count))
usable-Nodup core n zero h = Nodup-nil
usable-Nodup core n (suc count) h =
    let rest : Nodup (usable core (addresses (n + 1) count)) =
      usable-Nodup core (n + 1) count (omega arith) in
    elim (Bool-cases (is_skipped core (put_uint32 n))) [
      | inl out ↦ rw out rest
      | inr taken ↦ rw taken (Nodup-cons.1 (new, rest))
    ]
  where
    new : ¬ Mem (put_uint32 n) (usable core (addresses (n + 1) count))
    new m =
        let small : n < 2 ^ 32 = omega arith in
        omega (
          arith,
          usable-le core (put_uint32 n) (n + 1) count (omega arith) m,
          be_value-put_uint32 n,
          mod-eq_of_lt small,
        )

-- Each address of the pool is in the range and passes the two tests of the loop.
usable-All :
    (net : IpNet) (core : Ip) (n count : ℕ)
    → IsIp4Net net
    → be_value net.ip ≤ n
    → n + count ≤ be_value net.ip + 2 ^ (32 - net.ones)
    → All
        (λ ip. (contains net ip ≡ true) × (is_skipped core ip ≡ false))
        (usable core (addresses n count))
usable-All net core n zero v lo hi = tt
usable-All net core n (suc count) v lo hi =
    let rest = usable-All net core (n + 1) count v (omega arith) (omega arith) in
    elim (Bool-cases (is_skipped core (put_uint32 n))) [
      | inl out ↦ rw out rest
      | inr taken ↦ rw taken ((contains_inside net v n lo (omega arith), taken), rest)
    ]

pub new_wg_ip_allocator-IsValid :
    (fuel : ℕ) (t : Texts) (cidr core_ip : String) (net : IpNet)
    → t.parse_cidr cidr ≡ some net
    → IsIp4Net net
    → 1 ≤ net.ones
    → 2 ^ (32 - net.ones) < fuel
    → (a : WgIpAllocator) × (new_wg_ip_allocator fuel t cidr core_ip ≡ ok a)
      × IsValid a
      × (a.assigned ≡ [])
      × All
          (λ ip. (contains net ip ≡ true) × (is_skipped (to4 (t.parse_ip core_ip)) ip ≡ false))
          a.pool
unfolding new_wg_ip_allocator filled HasDistinctKeys
new_wg_ip_allocator-IsValid fuel t cidr core_ip net parsed v h enough =
    let core : Ip = to4 (t.parse_ip core_ip) in
    let pool : List Ip = usable core (addresses (be_value net.ip) (2 ^ (32 - net.ones))) in
    (
      record { pool = pool; assigned = [] },
      rw (parsed, new_wg_ip_allocator) (ap filled (fill-usable net core fuel v h enough)),
      record {
        distinct =
            rw append-nil
              (usable-Nodup core (be_value net.ip) (2 ^ (32 - net.ones)) (block_fits net v));
        keys = tt;
      },
      refl,
      usable-All net core (be_value net.ip) (2 ^ (32 - net.ones)) v (omega arith) (omega arith),
    )
