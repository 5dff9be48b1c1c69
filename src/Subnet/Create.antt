-- ===== src/Subnet/Create.antt =====
-- NewAllocator: when it succeeds, and what a fresh allocator is like.
use router_ui.Base.{
  ap, ℕ, zero, suc, ◌+◌, ◌-◌, ◌≤◌, ◌<◌, ◌^◌, ◌≡◌, refl, ◌↔◌, ◌⊎◌, none, some, String, arith,
  if◌then◌else◌, length, ok, inl, inr, ◌∙◌, sym, ◌≢◌,
}
use router_ui.Net.{Ip, IpNet, IsIp4Net, IsIp6Net, contains, to4_four, to4_six, be_value, Texts}
use router_ui.Subnet.{Allocator, find_held, subnet_for_node, carve_from, new_checked, new_allocator}
use router_ui.Subnet.Carve.{covering, carve_lem, covering-carve, length-carve_from}
use router_ui.Subnet.Owners.{HasUniqueOwners, HasBlankFree}
use router_ui.Subnet.Methods.{IsValid}

carve_from-HasUniqueOwners :
    (base_int bits i n : ℕ) → HasUniqueOwners (carve_from base_int bits i n)
unfolding carve_from HasUniqueOwners
carve_from-HasUniqueOwners base_int bits i zero = tt
carve_from-HasUniqueOwners base_int bits i (suc n) =
    (refl, carve_from-HasUniqueOwners base_int bits (i + 1) n)

carve_from-HasBlankFree : (base_int bits i n : ℕ) → HasBlankFree (carve_from base_int bits i n)
unfolding carve_from HasBlankFree
carve_from-HasBlankFree base_int bits i zero = tt
carve_from-HasBlankFree base_int bits i (suc n) =
    (refl, carve_from-HasBlankFree base_int bits (i + 1) n)

find_held-carve_from :
    (id : String) (base_int bits i n : ℕ) → find_held id (carve_from base_int bits i n) ≡ none
unfolding carve_from find_held
find_held-carve_from id base_int bits i zero = refl
find_held-carve_from id base_int bits i (suc n) = find_held-carve_from id base_int bits (i + 1) n

-- What net.ParseCIDR may return.
abbrev pub IsNet : IpNet → Type 0
IsNet net = IsIp4Net net ⊎ IsIp6Net net

abbrev fresh : IpNet → ℕ → Allocator
fresh base bits = record {
  base = base;
  subnets = carve_from (be_value base.ip) bits 0 (2 ^ (bits - base.ones));
}

new_checked_lem :
    (base : IpNet) (bits : ℕ)
    → IsIp4Net base
    → base.ones < bits
    → bits ≤ 30
    → new_checked base bits ≡ ok (fresh base bits)
unfolding new_checked
new_checked_lem base bits net longer short =
    ground (arith, to4_four base.ip net.four, carve_lem base bits net)

new_checked-six :
    (base : IpNet) (bits : ℕ) (a : Allocator) → IsIp6Net base → new_checked base bits ≢ ok a
unfolding new_checked
new_checked-six base bits a six e = ground (arith, to4_six base six)

new_checked_bounds :
    (base : IpNet) (bits : ℕ) (a : Allocator)
    → new_checked base bits ≡ ok a
    → (base.ones < bits) × (bits ≤ 30)
unfolding new_checked
new_checked_bounds base bits a e = ground arith

-- Each address of the base lies in one block of the allocator, any other in none.
pub record IsTiling (a : Allocator) : Type 0 where
  pub tiles :
      (ip : Ip) → length ip ≡ 4 → covering ip a.subnets ≡ (if contains a.base ip then 1 else 0)

fresh-IsTiling :
    (base : IpNet) (bits : ℕ)
    → IsIp4Net base
    → base.ones < bits
    → bits ≤ 30
    → IsTiling (fresh base bits)
fresh-IsTiling base bits net longer short = record {
  tiles = λ ip four. covering-carve base bits ip net (omega arith) (omega arith) four;
}

new_allocator_parsed :
    (t : Texts) (prefix : String) (base : IpNet) (bits : ℕ)
    → t.parse_cidr prefix ≡ some base
    → new_allocator t prefix bits ≡ new_checked base bits
unfolding new_allocator
new_allocator_parsed t prefix base bits parsed = rw (parsed, new_allocator)

-- For a text that parses as a network, NewAllocator succeeds exactly when the network is an IPv4
-- one and its length is below `subnet_bits`, which is at most 30.
pub new_allocator-ok_iff :
    (t : Texts) (prefix : String) (base : IpNet) (bits : ℕ)
    → t.parse_cidr prefix ≡ some base
    → IsNet base
    → ((a : Allocator) × (new_allocator t prefix bits ≡ ok a))
      ↔ (IsIp4Net base × (base.ones < bits) × (bits ≤ 30))
new_allocator-ok_iff t prefix base bits parsed (inl net) = (
  λ (a, e). let bounds = new_checked_bounds base bits a (sym step ∙ e) in (net, bounds.0, bounds.1),
  λ (_, longer, short). (fresh base bits, step ∙ new_checked_lem base bits net longer short),
)
  where
    step : new_allocator t prefix bits ≡ new_checked base bits
    step = new_allocator_parsed t prefix base bits parsed
new_allocator-ok_iff t prefix base bits parsed (inr six) = (
  λ (a, e).
      absurd (
        new_checked-six base bits a six (sym (new_allocator_parsed t prefix base bits parsed) ∙ e)),
  λ (net, _, _). absurd (omega (arith, net.word, six.word)),
)

-- For a text that parses as an IPv4 network, an allocator that NewAllocator returns has 2 ^
-- (subnet_bits - length) blocks that tile the network, is well formed, and no node holds a block
-- of it.
pub new_allocator-IsTiling :
    (t : Texts) (prefix : String) (base : IpNet) (bits : ℕ) (a : Allocator)
    → t.parse_cidr prefix ≡ some base
    → IsIp4Net base
    → new_allocator t prefix bits ≡ ok a
    → IsTiling a
      × IsValid a
      × (a.base ≡ base)
      × (length a.subnets ≡ 2 ^ (bits - base.ones))
      × ((id : String) → subnet_for_node id a ≡ none)
unfolding subnet_for_node
new_allocator-IsTiling t prefix base bits a parsed net e =
    let made : new_checked base bits ≡ ok a =
      sym (new_allocator_parsed t prefix base bits parsed) ∙ e in
    let (longer, short) = new_checked_bounds base bits a made in
    let same : fresh base bits ≡ a = cc (new_checked_lem base bits net longer short, made) in
    rw (← same) (
      fresh-IsTiling base bits net longer short,
      record {
        unique = carve_from-HasUniqueOwners (be_value base.ip) bits 0 (2 ^ (bits - base.ones));
        blank = carve_from-HasBlankFree (be_value base.ip) bits 0 (2 ^ (bits - base.ones));
      },
      refl,
      length-carve_from (be_value base.ip) bits 0 (2 ^ (bits - base.ones)),
      λ id. find_held-carve_from id (be_value base.ip) bits 0 (2 ^ (bits - base.ones)),
    )

-- The blocks of an allocator that NewAllocator returns, and the bounds that were checked.
pub new_allocator_carved :
    (t : Texts) (prefix : String) (base : IpNet) (bits : ℕ) (a : Allocator)
    → t.parse_cidr prefix ≡ some base
    → IsIp4Net base
    → new_allocator t prefix bits ≡ ok a
    → (a.subnets ≡ carve_from (be_value base.ip) bits 0 (2 ^ (bits - base.ones)))
      × (base.ones < bits)
      × (bits ≤ 30)
new_allocator_carved t prefix base bits a parsed net e =
    let made : new_checked base bits ≡ ok a =
      sym (new_allocator_parsed t prefix base bits parsed) ∙ e in
    let (longer, short) = new_checked_bounds base bits a made in
    let same : fresh base bits ≡ a = cc (new_checked_lem base bits net longer short, made) in
    (ap (λ b. b.subnets) (sym same), longer, short)
