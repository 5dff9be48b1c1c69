-- ===== src/Net/Range.antt =====
-- The range of addresses of an IPv4 block.
use native.Mathlib.Nat.{mod-eq_of_lt, div-add-mod', div-lt_iff_lt-mul, zero-div}
use router_ui.Base.{
  ℕ, zero, suc, ◌+◌, ◌-◌, ◌*◌, ◌%◌, ◌/◌, ◌^◌, ◌≤◌, ◌<◌, ◌≡◌, refl, true, false, [], ◌∷◌, arith,
  nat_eq, length, ap, ◌∙◌, Bool-cases, inl, inr, ltb,
}
use router_ui.Base.Powers.{pow2-add, pow2-pos, mul_next, div-eq_range}
use router_ui.Net.Bytes.{
  Ip, IsBytes, be_value, be_value-lt, be_value-put_uint32, put_uint32, put_uint32-be_value,
}
use router_ui.Net.Blocks.{IpNet, IsIp4Net, contains, contains_four}

-- Four bytes are those of their number.
pub put_uint32_four : (ip : Ip) → length ip ≡ 4 → IsBytes ip → put_uint32 (be_value ip) ≡ ip
put_uint32_four [] h b = absurd (omega arith)
put_uint32_four (a ∷ []) h b = absurd (omega arith)
put_uint32_four (a ∷ c ∷ []) h b = absurd (omega arith)
put_uint32_four (a ∷ c ∷ d ∷ []) h b = absurd (omega arith)
put_uint32_four (a ∷ c ∷ d ∷ e ∷ []) h b = put_uint32-be_value a c d e b
put_uint32_four (a ∷ c ∷ d ∷ e ∷ f ∷ r) h b = absurd (omega arith)

pub four_bytes-lt : (ip : Ip) → length ip ≡ 4 → IsBytes ip → be_value ip < 2 ^ 32
four_bytes-lt ip h b =
    let e : 256 ^ length ip ≡ 2 ^ 32 = ap (λ (n : ℕ). 256 ^ n) h in rw (← e) (be_value-lt ip b)

pub contains_block :
    (base : IpNet) (ip : Ip)
    → IsIp4Net base
    → length ip ≡ 4
    → contains base ip
      ≡ nat_eq (be_value base.ip / 2 ^ (32 - base.ones)) (be_value ip / 2 ^ (32 - base.ones))
contains_block base ip net four =
    contains_four base ip net.four four
    ∙ ap
        (λ (n : ℕ).
          nat_eq (be_value base.ip / 2 ^ (n - base.ones)) (be_value ip / 2 ^ (n - base.ones)))
        net.word

factor_pos : (q p b : ℕ) → b ≡ q * p → 0 < b → 0 < q
factor_pos zero p b e h = omega arith
factor_pos (suc q) p b e h = omega arith

module _ (net : IpNet) (v : IsIp4Net net) where
  whole : 2 ^ 32 ≡ 2 ^ net.ones * 2 ^ (32 - net.ones)
  whole =
      let e : 32 ≡ net.ones + (32 - net.ones) = omega (arith, v.short) in
      ap (λ (n : ℕ). 2 ^ n) e ∙ pow2-add net.ones (32 - net.ones)

  -- The first address is a multiple of the size.
  pub block_exact : be_value net.ip ≡ be_value net.ip / 2 ^ (32 - net.ones) * 2 ^ (32 - net.ones)
  block_exact = omega (arith, div-add-mod' (be_value net.ip) (2 ^ (32 - net.ones)), v.masked)

  -- The block ends at or below 2 ^ 32.
  pub block_fits : be_value net.ip + 2 ^ (32 - net.ones) ≤ 2 ^ 32
  block_fits =
      let below : be_value net.ip < 2 ^ net.ones * 2 ^ (32 - net.ones) =
        rw (← whole) (four_bytes-lt net.ip v.four v.bytes) in
      omega (
        arith,
        whole,
        block_exact,
        mul_next (be_value net.ip / 2 ^ (32 - net.ones)) (2 ^ net.ones) (2 ^ (32 - net.ones))
            ((div-lt_iff_lt-mul (pow2-pos (32 - net.ones))).1 below),
      )

  -- A block with a positive prefix length is at most half of the addresses.
  block_half : 1 ≤ net.ones → 2 ^ (32 - net.ones) + 2 ^ (32 - net.ones) ≤ 2 ^ 32
  block_half h =
      let e : net.ones ≡ 1 + (net.ones - 1) = omega arith in
      let two : 1 < 2 ^ net.ones =
        omega
          (arith, ap (λ (n : ℕ). 2 ^ n) e, pow2-add 1 (net.ones - 1), pow2-pos (net.ones - 1)) in
      omega (arith, whole, mul_next 1 (2 ^ net.ones) (2 ^ (32 - net.ones)) two)

  contains_put :
      (n : ℕ)
      → contains net (put_uint32 n)
        ≡ nat_eq (be_value net.ip / 2 ^ (32 - net.ones)) (n % 2 ^ 32 / 2 ^ (32 - net.ones))
  unfolding put_uint32
  contains_put n = contains_block net (put_uint32 n) v refl ∙ rw (be_value-put_uint32 n)

  pub contains_inside :
      (n : ℕ)
      → be_value net.ip ≤ n
      → n < be_value net.ip + 2 ^ (32 - net.ones)
      → contains net (put_uint32 n) ≡ true
  contains_inside n lo hi =
      let below : n < 2 ^ 32 = omega (arith, block_fits) in
      contains_put n
      ∙ rw (mod-eq_of_lt below) (
          ground (
            arith,
            block_exact,
            div-eq_range n (2 ^ (32 - net.ones)) (be_value net.ip / 2 ^ (32 - net.ones))
                (pow2-pos (32 - net.ones)),
          ))

  -- The address after the last one is outside, also where it wraps to 0.
  pub contains_past :
      1 ≤ net.ones → contains net (put_uint32 (be_value net.ip + 2 ^ (32 - net.ones))) ≡ false
  contains_past h = contains_put (be_value net.ip + 2 ^ (32 - net.ones)) ∙ next
    where
      end : ℕ
      end = be_value net.ip + 2 ^ (32 - net.ones)

      first_pos : end ≡ 2 ^ 32 → 0 < be_value net.ip / 2 ^ (32 - net.ones)
      first_pos e =
          factor_pos (be_value net.ip / 2 ^ (32 - net.ones)) (2 ^ (32 - net.ones)) (be_value net.ip)
            block_exact (omega (arith, e, block_half h, pow2-pos (32 - net.ones)))

      next :
          nat_eq (be_value net.ip / 2 ^ (32 - net.ones)) (end % 2 ^ 32 / 2 ^ (32 - net.ones))
          ≡ false
      next = elim (Bool-cases (ltb end (2 ^ 32))) [
        | inl below ↦
            let small : end < 2 ^ 32 = ground arith in
            rw (mod-eq_of_lt small) (
              ground (
                arith,
                block_exact,
                div-eq_range end (2 ^ (32 - net.ones)) (be_value net.ip / 2 ^ (32 - net.ones))
                    (pow2-pos (32 - net.ones)),
              ))
        | inr wrapped ↦
            let e : end ≡ 2 ^ 32 = ground (arith, block_fits) in
            rw e (rw (zero-div (2 ^ (32 - net.ones))) (ground (arith, first_pos e)))
      ]
