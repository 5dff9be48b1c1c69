-- ===== src/WgPool/Fill.antt =====
-- The loop that builds the pool: what it holds, and when it ends.
use router_ui.Base.{
  ℕ, zero, suc, ◌+◌, ◌-◌, ◌^◌, ◌≤◌, ◌<◌, ◌≡◌, refl, true, not, List, [], ◌∷◌, arith, keep, ap, sym,
  ◌∙◌, none, some,
}
use router_ui.Net.{
  Ip, IpNet, IsIp4Net, be_value, be_value-put_uint32, put_uint32, put_uint32_four, four_bytes-lt,
  contains_inside, contains_past, contains, contains_block, to4, to4_four,
}
use router_ui.WgPool.{is_skipped, fill}
use router_ui.WgPool.Increment.{put_uint32-suc}

-- The addresses of `count` numbers from `n` on.
abbrev pub addresses : ℕ → ℕ → List Ip
addresses n zero = []
addresses n (suc count) = put_uint32 n ∷ addresses (n + 1) count

-- Those that the loop takes.
abbrev pub usable : Ip → List Ip → List Ip
usable core ips = keep (λ ip. not (is_skipped core ip)) ips

module _ (net : IpNet) (core : Ip) (v : IsIp4Net net) where
  abbrev last : ℕ
  last = be_value net.ip + 2 ^ (32 - net.ones)

  -- With `count` addresses to go and more fuel than that, the loop ends.
  fill_rest :
      (fuel count n : ℕ)
      → 1 ≤ net.ones
      → be_value net.ip ≤ n
      → n + count ≡ last
      → count < fuel
      → fill fuel net core (put_uint32 n) ≡ some (usable core (addresses n count))
  unfolding fill
  fill_rest zero count n h lo e more = absurd (omega arith)
  fill_rest (suc fuel) zero n h lo e more =
      let at_end : n ≡ last = omega arith in rw at_end (rw (contains_past net v h))
  fill_rest (suc fuel) (suc count) n h lo e more = ground (
    arith,
    contains_inside net v n lo (omega arith),
    put_uint32-suc n,
    fill_rest fuel count (n + 1) h (omega arith) (omega arith) (omega arith),
  )

-- The loop over an IPv4 range of prefix length at least 1 ends within 2 ^ (32 - length) + 1
-- rounds, and the pool holds the addresses of the range that are not skipped, in order.
pub fill-usable :
    (net : IpNet) (core : Ip) (fuel : ℕ)
    → IsIp4Net net
    → 1 ≤ net.ones
    → 2 ^ (32 - net.ones) < fuel
    → fill fuel net core (to4 net.ip)
      ≡ some (usable core (addresses (be_value net.ip) (2 ^ (32 - net.ones))))
fill-usable net core fuel v h enough =
    ap (fill fuel net core) (to4_four net.ip v.four ∙ sym (put_uint32_four net.ip v.four v.bytes))
    ∙ fill_rest net core v fuel (2 ^ (32 - net.ones)) (be_value net.ip) h (omega arith) refl enough

-- A block of all addresses contains every address.
contains_all :
    (net : IpNet) (n : ℕ) → IsIp4Net net → net.ones ≡ 0 → contains net (put_uint32 n) ≡ true
unfolding put_uint32
contains_all net n v h =
    contains_block net (put_uint32 n) v refl
    ∙ rw h (ground (arith, four_bytes-lt net.ip v.four v.bytes, be_value-put_uint32 n))

fill_forever :
    (fuel : ℕ) (net : IpNet) (core : Ip) (n : ℕ)
    → IsIp4Net net
    → net.ones ≡ 0
    → fill fuel net core (put_uint32 n) ≡ none
unfolding fill
fill_forever zero net core n v h = refl
fill_forever (suc fuel) net core n v h =
    ground (arith, contains_all net n v h, put_uint32-suc n, fill_forever fuel net core (n + 1) v h)

-- Over an IPv4 range of prefix length 0 the loop does not end within any fuel.
pub fill-endless :
    (net : IpNet) (core : Ip) (fuel : ℕ)
    → IsIp4Net net
    → net.ones ≡ 0
    → fill fuel net core (to4 net.ip) ≡ none
fill-endless net core fuel v h =
    ap (fill fuel net core) (to4_four net.ip v.four ∙ sym (put_uint32_four net.ip v.four v.bytes))
    ∙ fill_forever fuel net core (be_value net.ip) v h
