-- ===== src/Subnet/Carve.antt =====
-- internal/subnet/allocator.go, carve: its blocks against the aggregate block.
use native.Mathlib.Nat.{
  mod-eq_of_lt, div-add-mod', mul-mod_left, mul_assoc, mul_comm, mul-div_cancel, div-div-eq-div-mul,
  add-mul-mod_self_right, add-mul-div_right,
}
use router_ui.Base.{
  ℕ, zero, suc, ◌+◌, ◌-◌, ◌*◌, ◌/◌, ◌%◌, ◌^◌, ◌≤◌, ◌<◌, ◌≡◌, refl, sym, ap, ◌∙◌, ◌≡⟨◌⟩◌, ◌∎, List,
  arith, nat_eq, keep, leb, ltb, ◌&&◌, length, ok, if◌then◌else◌,
}
use router_ui.Base.Powers.{pow2-add, pow2-pos, div-eq_range}
use router_ui.Net.{
  Ip, IpNet, IsIp4Net, be_value, be_value-put_uint32, put_uint32, mask_ip4, contains, contains_four,
  contains_block, block_fits, to4_four,
}
use router_ui.Subnet.{Subnet, carved, carve_from, carve}

-- An address with no bit beyond the mask is left as it is.
mask_ip4_self :
    (bits n : ℕ)
    → n < 2 ^ 32
    → n % 2 ^ (32 - bits) ≡ 0
    → mask_ip4 bits (put_uint32 n) ≡ put_uint32 n
unfolding mask_ip4
mask_ip4_self bits n h e =
    rw (be_value-put_uint32 n, mod-eq_of_lt h, e) (ap put_uint32 (omega arith))

mul-pos-le : (i s : ℕ) → 0 < s → i ≤ i * s
mul-pos-le i s h = grind arith

-- Below 2 ^ 32 no step of the loop wraps, and the final mask changes nothing.
pub carved_ip :
    (base_int bits i : ℕ)
    → base_int % 2 ^ (32 - bits) ≡ 0
    → base_int + i * 2 ^ (32 - bits) < 2 ^ 32
    → (carved base_int bits i).cidr.ip ≡ put_uint32 (base_int + i * 2 ^ (32 - bits))
carved_ip base_int bits i aligned below =
    let small : i < 2 ^ 32 = omega (arith, mul-pos-le i (2 ^ (32 - bits)) (pow2-pos (32 - bits))) in
    let product : i * 2 ^ (32 - bits) < 2 ^ 32 = omega arith in
    rw (mod-eq_of_lt small, mod-eq_of_lt product, mod-eq_of_lt below)
      (mask_ip4_self bits (base_int + i * 2 ^ (32 - bits)) below
        (add-mul-mod_self_right base_int i (2 ^ (32 - bits)) ∙ aligned))

-- A carved block contains an address exactly when the address has the block's quotient.
contains-carved :
    (base_int bits i : ℕ) (ip : Ip)
    → base_int % 2 ^ (32 - bits) ≡ 0
    → base_int + i * 2 ^ (32 - bits) < 2 ^ 32
    → length ip ≡ 4
    → contains (carved base_int bits i).cidr ip
      ≡ nat_eq (base_int / 2 ^ (32 - bits) + i) (be_value ip / 2 ^ (32 - bits))
unfolding put_uint32
contains-carved base_int bits i ip aligned below four =
    let at : (carved base_int bits i).cidr.ip ≡ put_uint32 (base_int + i * 2 ^ (32 - bits)) =
      carved_ip base_int bits i aligned below in
    contains_four (carved base_int bits i).cidr ip (ap length at) four
    ∙ rw (
      at,
      be_value-put_uint32 (base_int + i * 2 ^ (32 - bits)),
      mod-eq_of_lt below,
      add-mul-div_right base_int i (pow2-pos (32 - bits)),
    )

-- How many of the blocks contain an address.
abbrev pub covering : Ip → List Subnet → ℕ
covering ip ss = length (keep (λ s. contains s.cidr ip) ss)

suc_mul : (i n s : ℕ) → i * s + (suc n * s) ≡ (i + 1) * s + n * s
suc_mul i n s = grind arith

covering-carve_from :
    (base_int bits : ℕ) (ip : Ip) (i n : ℕ)
    → base_int % 2 ^ (32 - bits) ≡ 0
    → base_int + (i * 2 ^ (32 - bits) + n * 2 ^ (32 - bits)) ≤ 2 ^ 32
    → length ip ≡ 4
    → let first : ℕ = base_int / 2 ^ (32 - bits) + i in
      let q : ℕ = be_value ip / 2 ^ (32 - bits) in
      covering ip (carve_from base_int bits i n)
      ≡ (if leb first q && ltb q (first + n) then 1 else 0)
unfolding carve_from
covering-carve_from base_int bits ip i zero aligned below four = ground arith
covering-carve_from base_int bits ip i (suc n) aligned below four =
    let size_pos = pow2-pos (32 - bits) in
    let regroup = suc_mul i n (2 ^ (32 - bits)) in
    let here : base_int + i * 2 ^ (32 - bits) < 2 ^ 32 =
      omega (arith, mul-pos-le (suc n) (2 ^ (32 - bits)) size_pos) in
    let rest = covering-carve_from base_int bits ip (i + 1) n aligned (omega arith) four in
    ground (arith, rest, contains-carved base_int bits i ip aligned here four)

pub length-carve_from : (base_int bits i n : ℕ) → length (carve_from base_int bits i n) ≡ n
unfolding carve_from
length-carve_from base_int bits i zero = refl
length-carve_from base_int bits i (suc n) = ap suc (length-carve_from base_int bits (i + 1) n)

-- The arithmetic of an aligned block that is cut into `count` parts of `size`.
record Cut (base_int whole count size : ℕ) : Type 0 where
  parts : whole ≡ count * size
  exact : base_int ≡ base_int / whole * count * size
  aligned : base_int % size ≡ 0
  first : base_int / size ≡ base_int / whole * count
  fits : base_int + count * size ≤ 2 ^ 32

cut :
    (base : IpNet) (bits : ℕ)
    → IsIp4Net base
    → base.ones ≤ bits
    → bits ≤ 32
    → Cut (be_value base.ip) (2 ^ (32 - base.ones)) (2 ^ (bits - base.ones)) (2 ^ (32 - bits))
cut base bits net longer word = record {
  parts = parts;
  exact = exact;
  aligned = aligned;
  first = first;
  fits = fits;
}
  where
    parts : 2 ^ (32 - base.ones) ≡ 2 ^ (bits - base.ones) * 2 ^ (32 - bits)
    parts =
        let e : 32 - base.ones ≡ (bits - base.ones) + (32 - bits) = omega arith in
        rw e (pow2-add (bits - base.ones) (32 - bits))

    exact :
        be_value base.ip
        ≡ be_value base.ip / 2 ^ (32 - base.ones) * 2 ^ (bits - base.ones) * 2 ^ (32 - bits)
    exact =
        be_value base.ip
        ≡⟨ (omega (arith, div-add-mod' (be_value base.ip) (2 ^ (32 - base.ones)), net.masked)) ⟩
          be_value base.ip / 2 ^ (32 - base.ones) * 2 ^ (32 - base.ones)
        ≡⟨ ap (◌*◌ (be_value base.ip / 2 ^ (32 - base.ones))) parts ⟩
          be_value base.ip / 2 ^ (32 - base.ones) * (2 ^ (bits - base.ones) * 2 ^ (32 - bits))
        ≡⟨ sym (mul_assoc _ _ _) ⟩
          be_value base.ip / 2 ^ (32 - base.ones) * 2 ^ (bits - base.ones) * 2 ^ (32 - bits) ∎

    aligned : be_value base.ip % 2 ^ (32 - bits) ≡ 0
    aligned = ap (λ (n : ℕ). n % 2 ^ (32 - bits)) exact ∙ mul-mod_left _ (2 ^ (32 - bits))

    first :
        be_value base.ip / 2 ^ (32 - bits)
        ≡ be_value base.ip / 2 ^ (32 - base.ones) * 2 ^ (bits - base.ones)
    first = ap (λ (n : ℕ). n / 2 ^ (32 - bits)) exact ∙ mul-div_cancel _ (pow2-pos (32 - bits))

    fits : be_value base.ip + 2 ^ (bits - base.ones) * 2 ^ (32 - bits) ≤ 2 ^ 32
    fits = omega (arith, parts, block_fits base net)

pub carve_lem :
    (base : IpNet) (bits : ℕ)
    → IsIp4Net base
    → carve base bits ≡ ok (carve_from (be_value base.ip) bits 0 (2 ^ (bits - base.ones)))
unfolding carve
carve_lem base bits net = rw (to4_four base.ip net.four) (rw net.four refl)

pub covering-carve :
    (base : IpNet) (bits : ℕ) (ip : Ip)
    → IsIp4Net base
    → base.ones ≤ bits
    → bits ≤ 32
    → length ip ≡ 4
    → covering ip (carve_from (be_value base.ip) bits 0 (2 ^ (bits - base.ones)))
      ≡ (if contains base ip then 1 else 0)
covering-carve base bits ip net longer word four =
    let c = cut base bits net longer word in
    let count : ℕ = 2 ^ (bits - base.ones) in
    let size : ℕ = 2 ^ (32 - bits) in
    let quotient : be_value ip / 2 ^ (32 - base.ones) ≡ be_value ip / size / count =
      rw (c.parts, mul_comm count size) (sym (div-div-eq-div-mul (be_value ip) size count)) in
    let counted =
      covering-carve_from (be_value base.ip) bits ip 0 (2 ^ (bits - base.ones)) c.aligned
        (omega (arith, c.fits)) four in
    ground (
      arith,
      counted,
      c.first,
      quotient,
      contains_block base ip net four,
      div-eq_range (be_value ip / size) count (be_value base.ip / 2 ^ (32 - base.ones))
          (pow2-pos (bits - base.ones)),
    )

-- For an IPv4 block as net.ParseCIDR returns it and a length from the block's own up to 32,
-- `carve` gives 2 ^ (subnet_bits - ones) sub-prefixes, and they tile the block: an address of the
-- block lies in exactly one of them, and any other IPv4 address in none.
pub carve-tiles :
    (base : IpNet) (bits : ℕ) (ip : Ip)
    → IsIp4Net base
    → base.ones ≤ bits
    → bits ≤ 32
    → length ip ≡ 4
    → (ss : List Subnet) × (carve base bits ≡ ok ss)
      × (length ss ≡ 2 ^ (bits - base.ones))
      × (covering ip ss ≡ (if contains base ip then 1 else 0))
carve-tiles base bits ip net longer word four = (
  carve_from (be_value base.ip) bits 0 (2 ^ (bits - base.ones)),
  carve_lem base bits net,
  length-carve_from (be_value base.ip) bits 0 (2 ^ (bits - base.ones)),
  covering-carve base bits ip net longer word four,
)
