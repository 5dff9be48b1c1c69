-- ===== src/Net/Bytes.antt =====
-- IP addresses as byte lists: net.IP, To4, Equal, binary.BigEndian.Uint32 and PutUint32.
use native.Mathlib.Nat.{pow-suc}
use router_ui.Base.{
  ℕ, ◌+◌, ◌*◌, ◌/◌, ◌%◌, ◌^◌, ◌<◌, ◌≡◌, refl, ◌↔◌, Bool, true, false, ◌&&◌, List, [], ◌∷◌, arith,
  nat_eq, if◌then◌else◌, length, drop, All,
}

-- net.IP: 4 or 16 bytes, or nil, the empty list.
abbrev pub Ip : Type 0
Ip = List ℕ

abbrev pub IsBytes : Ip → Type 0
IsBytes ip = All (λ b. b < 256) ip

-- The bytes read in base 256, the first one the highest.
unfoldable pub be_from : ℕ → Ip → ℕ
be_from acc [] = acc
be_from acc (b ∷ ip) = be_from (acc * 256 + b) ip

-- binary.BigEndian.Uint32 at four bytes.
unfoldable pub be_value : Ip → ℕ
unfolding be_from
be_value ip = be_from 0 ip

shift : (a b p : ℕ) → (a * 256 + b) * p ≡ a * (p * 256) + b * p
shift a b p = grind arith

pub be_from_lem : (acc : ℕ) (ip : Ip) → be_from acc ip ≡ acc * 256 ^ length ip + be_from 0 ip
unfolding be_from
be_from_lem acc [] = omega arith
be_from_lem acc (b ∷ ip) = rw (pow-suc 256 (length ip)) (
    omega (
      arith,
      be_from_lem (acc * 256 + b) ip,
      be_from_lem (0 * 256 + b) ip,
      shift acc b (256 ^ length ip),
      shift 0 b (256 ^ length ip),
    ))

pub be_value-lt : (ip : Ip) → IsBytes ip → be_value ip < 256 ^ length ip
unfolding be_value
be_value-lt [] h = omega arith
be_value-lt (b ∷ ip) h =
    grind (arith, be_value-lt ip h.1, be_from_lem (0 * 256 + b) ip, pow-suc 256 (length ip))

-- Ten zero bytes and two 0xff ones before the last four.
abbrev is_mapped : Ip → Bool
is_mapped ip = nat_eq (length ip) 16 && nat_eq (be_value ip / 2 ^ 32) 0xffff

-- net.IP.To4: the four-byte form of an IPv4 address, or nil.
unfoldable pub to4 : Ip → Ip
unfolding be_value
to4 ip = if nat_eq (length ip) 4 then ip else if is_mapped ip then drop 12 ip else []

-- net.IP.Equal at two addresses of one length.
unfoldable pub ip_equal : Ip → Ip → Bool
ip_equal [] [] = true
ip_equal [] (c ∷ jp) = false
ip_equal (b ∷ ip) [] = false
ip_equal (b ∷ ip) (c ∷ jp) = nat_eq b c && ip_equal ip jp

pub ip_equal_iff : (ip jp : Ip) → (ip_equal ip jp ≡ true) ↔ (ip ≡ jp)
unfolding ip_equal
ip_equal_iff [] [] = ground arith
ip_equal_iff [] (c ∷ jp) = ground arith
ip_equal_iff (b ∷ ip) [] = ground arith
ip_equal_iff (b ∷ ip) (c ∷ jp) = ground (arith, ip_equal_iff ip jp)

-- binary.BigEndian.PutUint32 into four fresh bytes.
unfoldable pub put_uint32 : ℕ → Ip
put_uint32 n = (n / 2 ^ 24 % 256) ∷ (n / 2 ^ 16 % 256) ∷ (n / 2 ^ 8 % 256) ∷ (n % 256) ∷ []

pub length-put_uint32 : (n : ℕ) → length (put_uint32 n) ≡ 4
unfolding put_uint32
length-put_uint32 n = refl

pub put_uint32-IsBytes : (n : ℕ) → IsBytes (put_uint32 n)
unfolding put_uint32
put_uint32-IsBytes n = omega arith

-- Reading what was written gives the number, modulo 2 ^ 32.
pub be_value-put_uint32 : (n : ℕ) → be_value (put_uint32 n) ≡ n % 2 ^ 32
unfolding put_uint32 be_value
be_value-put_uint32 n = omega arith

pub put_uint32-be_value :
    (a b c d : ℕ)
    → IsBytes (a ∷ b ∷ c ∷ d ∷ [])
    → put_uint32 (be_value (a ∷ b ∷ c ∷ d ∷ [])) ≡ a ∷ b ∷ c ∷ d ∷ []
unfolding put_uint32 be_value
put_uint32-be_value a b c d h = ground arith
