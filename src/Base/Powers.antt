-- ===== src/Base/Powers.antt =====
-- Powers of two, and division by them.
use native.Mathlib.Nat.{pow-suc, mul_assoc, one-le-pow, mul-div-le, lt-mul-div-succ}
use router_ui.Base.{ℕ, zero, suc, ◌+◌, ◌*◌, ◌/◌, ◌^◌, ◌≤◌, ◌<◌, ◌≡◌, arith, nat_eq, ltb, leb, ◌&&◌}

pub pow2-add : (a b : ℕ) → 2 ^ (a + b) ≡ 2 ^ a * 2 ^ b
pow2-add a zero = let e : a + 0 ≡ a = omega arith in rw e (omega arith)
pow2-add a (suc b) =
    let e : a + suc b ≡ suc (a + b) = omega arith in
    rw (e, pow-suc 2 (a + b), pow-suc 2 b, pow2-add a b) (mul_assoc (2 ^ a) (2 ^ b) 2)

pub pow2-pos : (a : ℕ) → 0 < 2 ^ a
pow2-pos a = one-le-pow a 2 (omega arith)

-- The multiple after `a * n` is at most any greater one.
pub mul_next : (a b n : ℕ) → a < b → a * n + n ≤ b * n
mul_next a b n h = grind arith

-- The numbers with quotient `q` are an interval.
pub div-eq_range : (w n q : ℕ) → 0 < n → nat_eq q (w / n) ≡ (leb (q * n) w && ltb w (q * n + n))
div-eq_range w n q h =
    ground (
      arith,
      mul-div-le w n,
      lt-mul-div-succ w {b = n} h,
      mul_next q (w / n) n,
      mul_next (w / n) q n,
    )
