-- ===== src/Common/Powers.antt =====
-- Powers of two at a variable exponent.
use Prim.Native.Nat.{ℕ, zero, suc, ◌+◌, ◌-◌, ◌*◌, ◌^◌, ◌/◌, ◌%◌, ◌≤◌, ◌<◌}
use mathlib.Core.Path.{◌≡◌, ap}
use native.Mathlib.Nat.{pow-suc, div-add-mod', mul-le-mul_right, add-zero, add-suc}
use native.Mathlib.Decide.{dec_lt}
use native.Mathlib.Omega.{arith}

pub pow-add : (a b : ℕ) → 2 ^ (a + b) ≡ 2 ^ a * 2 ^ b
pow-add a zero = rw add-zero (omega arith)
pow-add a (suc b) = simp (add-suc, pow-suc) (grind (arith, ap (λ (t : ℕ). t * 2) (pow-add a b)))

pub pow_pos : (n : ℕ) → 1 ≤ 2 ^ n
pow_pos zero = omega arith
pow_pos (suc n) = omega (arith, pow_pos n, pow-suc 2 n)

pub pow_mono : (a b : ℕ) → a ≤ b → 2 ^ a ≤ 2 ^ b
pow_mono a b h =
    let e : b ≡ a + (b - a) = omega arith in rw (e, pow-add) (grind (arith, pow_pos (b - a)))

-- A multiple of `m` below `k * m` leaves room for one more `m`.
pub aligned_room : (a m k : ℕ) → a % m ≡ 0 → a < k * m → a + m ≤ k * m
aligned_room a m k e h =
    let q = a / m in
    let split : a ≡ q * m = omega (arith, e, div-add-mod' a m) in
    elim (dec_lt q k) [
      | yes lt ↦ grind (arith, mul-le-mul_right m lt)
      | no ge ↦ absurd (omega (arith, mul-le-mul_right {m = k} {n = q} m (omega arith)))
    ]
