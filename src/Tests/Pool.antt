-- ===== src/Tests/Pool.antt =====
-- The pool of tunnel addresses over 10.100.0.0/30.
use router_ui.Base.{◌≡◌, refl, [], ◌∷◌, arith, none, ok, subst}
use router_ui.Base.Dict.{lookup, insert, HasDistinctKeys}
use router_ui.Net.{Ip, be_value, to4, contains, ip_equal}
use mathlib.Core.List.{Mem}
use mathlib.Core.List.Perm
use router_ui.Base.{List}
use router_ui.Base.Dict.{insert, delete}
use router_ui.WgPool.Leases.{
  Call, allocates, releases, Follows, grants, refuses, returns, holders, run, run-Follows,
}
use router_ui.WgPool.{
  WgIpAllocator, increment_ip, fill, is_skipped, new_wg_ip_allocator, filled, allocate, release,
}
use router_ui.WgPool.Fill.{fill-endless}
use router_ui.WgPool.Fresh.{new_wg_ip_allocator-IsValid}
use router_ui.WgPool.Lease.{IsValid, allocate-IsValid}
use router_ui.Tests.{texts, wg_range, everything, new_pool}
use router_ui.Tests.Nets.{wg_range-IsIp4Net, everything-IsIp4Net}

abbrev core_ip : Ip
core_ip = 10 ∷ 100 ∷ 0 ∷ 1 ∷ []

-- The pool as the loop makes it, and after two nodes have taken an address.
made : new_wg_ip_allocator 5 texts "10.100.0.0/30" "10.100.0.1" ≡ ok new_pool
unfolding new_wg_ip_allocator filled fill contains to4 is_skipped increment_ip be_value ip_equal
made = refl

pub new_pool-IsValid : IsValid new_pool
unfolding HasDistinctKeys
new_pool-IsValid =
    let (a, e, v, _, _) =
      new_wg_ip_allocator-IsValid 5 texts "10.100.0.0/30" "10.100.0.1" wg_range refl
        wg_range-IsIp4Net (omega arith) (omega arith) in
    subst IsValid (cc (e, made)) v

abbrev two_leases : WgIpAllocator
two_leases = record {
  pool = [];
  assigned = ("a", 10 ∷ 100 ∷ 0 ∷ 2 ∷ []) ∷ ("b", 10 ∷ 100 ∷ 0 ∷ 3 ∷ []) ∷ [];
}

two_leases-IsValid : IsValid two_leases
unfolding allocate lookup insert
two_leases-IsValid =
    allocate-IsValid "b" (allocate "a" new_pool).1 (allocate-IsValid "a" new_pool new_pool-IsValid)

fill-endless_example : fill 1000 everything core_ip (to4 everything.ip) ≡ none
fill-endless_example = fill-endless everything core_ip 1000 everything-IsIp4Net refl

-- Two nodes take the two addresses, a third is refused, and gets the first one's when that is back.
abbrev calls : List Call
calls = allocates "a" ∷ allocates "b" ∷ allocates "c" ∷ releases "a" ∷ allocates "c" ∷ []

run-Follows_example :
    Follows
      (λ ip. Mem ip new_pool.pool)
      (holders new_pool)
      calls
      (run calls new_pool).0
      (holders (run calls new_pool).1)
run-Follows_example = run-Follows new_pool.pool calls new_pool new_pool-IsValid Perm.rfl

answers :
    (run calls new_pool).0
    ≡ grants (10 ∷ 100 ∷ 0 ∷ 2 ∷ [])
      ∷ grants (10 ∷ 100 ∷ 0 ∷ 3 ∷ [])
      ∷ refuses
      ∷ returns
      ∷ grants (10 ∷ 100 ∷ 0 ∷ 2 ∷ [])
      ∷ []
unfolding allocate release lookup insert delete
answers = refl
