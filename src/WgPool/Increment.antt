-- ===== src/WgPool/Increment.antt =====
-- incrementIP, with the address as a number in base 256.
use native.Mathlib.Nat.{pow-suc, mod-eq_of_lt, mod_self}
use router_ui.Base.{
  ℕ, ◌+◌, ◌*◌, ◌%◌, ◌^◌, ◌<◌, ◌≡◌, refl, [], ◌∷◌, arith, nat_eq, if◌then◌else◌, length, ap, ◌∙◌,
  Bool-cases, inl, inr, ltb,
}
use router_ui.Net.{Ip, IsBytes, be_from_lem, be_value, be_value-lt, put_uint32}
use router_ui.WgPool.{increment_bytes, increment_ip}

pub length-increment_bytes : (ip : Ip) → length (increment_bytes ip).1 ≡ length ip
unfolding increment_bytes
length-increment_bytes [] = refl
length-increment_bytes (b ∷ ip) = ground (arith, length-increment_bytes ip)

increment_bytes-IsBytes : (ip : Ip) → IsBytes ip → IsBytes (increment_bytes ip).1
unfolding increment_bytes
increment_bytes-IsBytes [] h = tt
increment_bytes-IsBytes (b ∷ ip) h = ground (arith, increment_bytes-IsBytes ip h.1)

be_value-cons : (b : ℕ) (ip : Ip) → be_value (b ∷ ip) ≡ b * 256 ^ length ip + be_value ip
unfolding be_value
be_value-cons b ip =
    be_from_lem (0 * 256 + b) ip ∙ ap (λ (n : ℕ). n * 256 ^ length ip + be_value ip) (omega arith)

-- A digit and its successor, times the weight of the digit.
next_digit :
    (b p : ℕ)
    → b < 256
    → (b + 1) % 256 * p + (if nat_eq ((b + 1) % 256) 0 then p * 256 else 0) ≡ b * p + p
next_digit b p h = elim (Bool-cases (ltb b 255)) [
  | inl below ↦ let e : (b + 1) % 256 ≡ b + 1 = ground arith in rw e (ground (arith, suc_times b p))
  | inr last ↦ let e : b ≡ 255 = ground arith in rw e (omega arith)
]
  where
    suc_times : (b p : ℕ) → (b + 1) * p ≡ b * p + p
    suc_times b p = grind arith

-- The bytes with the carry out are one more than before.
be_value-increment_bytes :
    (ip : Ip)
    → IsBytes ip
    → be_value (increment_bytes ip).1 + (if (increment_bytes ip).0 then 256 ^ length ip else 0)
      ≡ be_value ip + 1
unfolding increment_bytes
be_value-increment_bytes [] h = refl
be_value-increment_bytes (b ∷ ip) h =
    let tail : Ip = (increment_bytes ip).1 in
    let power : 256 ^ length tail ≡ 256 ^ length ip =
      ap (λ (n : ℕ). 256 ^ n) (length-increment_bytes ip) in
    ground (
      arith,
      be_value-increment_bytes ip h.1,
      be_value-cons b ip,
      be_value-cons b tail ∙ ap (λ (n : ℕ). b * n + be_value tail) power,
      be_value-cons ((b + 1) % 256) tail ∙ ap (λ (n : ℕ). (b + 1) % 256 * n + be_value tail) power,
      pow-suc 256 (length ip),
      next_digit b (256 ^ length ip) h.0,
    )

-- incrementIP adds one to an address of bytes, modulo 256 to the number of bytes.
pub be_value-increment_ip :
    (ip : Ip) → IsBytes ip → be_value (increment_ip ip) ≡ (be_value ip + 1) % 256 ^ length ip
unfolding increment_ip
be_value-increment_ip ip h =
    let size = length-increment_bytes ip in
    let power : 256 ^ length (increment_bytes ip).1 ≡ 256 ^ length ip =
      ap (λ (n : ℕ). 256 ^ n) size in
    let below : be_value (increment_bytes ip).1 < 256 ^ length ip =
      omega (arith, power, be_value-lt (increment_bytes ip).1 (increment_bytes-IsBytes ip h)) in
    ground (
      arith,
      be_value-increment_bytes ip h,
      be_value-lt ip h,
      mod-eq_of_lt below,
      mod_self (256 ^ length ip),
    )

pub put_uint32-suc : (n : ℕ) → increment_ip (put_uint32 n) ≡ put_uint32 (n + 1)
unfolding increment_ip put_uint32
put_uint32-suc n = ground arith
