-- ===== src/Net/Blocks.antt =====
-- net.IPNet with its mask, IP.Mask and IPNet.Contains.
use router_ui.Base.{
  ℕ, ◌+◌, ◌-◌, ◌*◌, ◌/◌, ◌%◌, ◌^◌, ◌≤◌, ◌<◌, ◌≡◌, Bool, ◌&&◌, arith, nat_eq, if◌then◌else◌, length,
}
use native.Mathlib.Nat.{mul_assoc, div-add-mod'}
use router_ui.Base.{◌≢◌, sym, ap, ◌∙◌}
use router_ui.Base.Powers.{pow2-add}
use router_ui.Net.Bytes.{Ip, IsBytes, be_value, to4, put_uint32}

-- net.IPNet whose mask has its `ones` one bits first, out of `bits`: `Mask.Size()` gives both.
pub record IpNet : Type 0 where
  pub ip : Ip
  pub ones : ℕ
  pub bits : ℕ

-- IP.Mask with net.CIDRMask(ones, 32), at a four-byte address: the low bits are cleared.
unfoldable pub mask_ip4 : ℕ → Ip → Ip
mask_ip4 ones ip = put_uint32 (be_value ip - be_value ip % 2 ^ (32 - ones))

-- `x` if it is an IPv4 address, in either form, else `ip`.
abbrev to4_or : Ip → Ip
to4_or ip = if nat_eq (length (to4 ip)) 4 then to4 ip else ip

-- IPNet.Contains: equal lengths, and equal bits under the mask. A mask of 128 bits over an IPv4
-- address is used by its last 32 bits, so the number of zero bits is the same.
unfoldable pub contains : IpNet → Ip → Bool
contains net ip =
    nat_eq (length (to4_or ip)) (length (to4_or net.ip))
    && nat_eq (be_value (to4_or net.ip) / 2 ^ (net.bits - net.ones))
        (be_value (to4_or ip) / 2 ^ (net.bits - net.ones))

-- What net.ParseCIDR returns for an IPv4 prefix: a four-byte address with no bit beyond the mask.
pub record IsIp4Net (net : IpNet) : Type 0 where
  pub four : length net.ip ≡ 4
  pub bytes : IsBytes net.ip
  pub short : net.ones ≤ 32
  pub word : net.bits ≡ 32
  pub masked : be_value net.ip % 2 ^ (32 - net.ones) ≡ 0

pub to4_four : (ip : Ip) → length ip ≡ 4 → to4 ip ≡ ip
unfolding to4
to4_four ip h = ground arith

-- At four-byte addresses `contains` compares the bits under the mask.
pub contains_four :
    (net : IpNet) (ip : Ip)
    → length net.ip ≡ 4
    → length ip ≡ 4
    → contains net ip
      ≡ nat_eq
          (be_value net.ip / 2 ^ (net.bits - net.ones))
          (be_value ip / 2 ^ (net.bits - net.ones))
unfolding contains
contains_four net ip h k = ground (arith, to4_four net.ip h, to4_four ip k)

-- What net.ParseCIDR returns for an IPv6 prefix.
pub record IsIp6Net (net : IpNet) : Type 0 where
  pub sixteen : length net.ip ≡ 16
  pub bytes : IsBytes net.ip
  pub short : net.ones ≤ 128
  pub word : net.bits ≡ 128
  pub masked : be_value net.ip % 2 ^ (128 - net.ones) ≡ 0

even_high : (v k : ℕ) → v ≡ k * 2 ^ 33 → v / 2 ^ 32 ≢ 0xffff
even_high v k e h = absurd (omega arith)

mapped_ones : (v ones : ℕ) → ones < 96 → v % 2 ^ (128 - ones) ≡ 0 → v / 2 ^ 32 ≢ 0xffff
mapped_ones v ones h e =
    let split : 128 - ones ≡ (95 - ones) + 33 = omega arith in
    let power : 2 ^ (128 - ones) ≡ 2 ^ (95 - ones) * 2 ^ 33 =
      ap (λ (n : ℕ). 2 ^ n) split ∙ pow2-add (95 - ones) 33 in
    let exact : v ≡ v / 2 ^ (128 - ones) * 2 ^ (128 - ones) =
      omega (arith, div-add-mod' v (2 ^ (128 - ones))) in
    even_high v (v / 2 ^ (128 - ones) * 2 ^ (95 - ones)) (
      exact
      ∙ ap (◌*◌ (v / 2 ^ (128 - ones))) power
      ∙ sym (mul_assoc (v / 2 ^ (128 - ones)) (2 ^ (95 - ones)) (2 ^ 33)))

-- An IPv6 prefix that To4 takes for an IPv4 one covers at least the 96 bits of ::ffff:0:0.
pub to4_six : (net : IpNet) → IsIp6Net net → length (to4 net.ip) ≢ 0 → 96 ≤ net.ones
unfolding to4
to4_six net six h = ground (arith, mapped_ones (be_value net.ip) net.ones)
