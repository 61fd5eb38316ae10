-- ===== src/Overlay/Subnet/Validation.antt =====
-- Which configurations `parse` lets through.
use native.Mathlib.Nat.{div-add-mod, mul-mod_right}
use kohaku_river.Common.{◌/◌, ℕ, ◌+◌, ◌-◌, ◌*◌, ◌%◌, ◌^◌, ◌≤◌, ◌<◌, ◌≡◌, arith}
use kohaku_river.Common.Int.{ℤ, pos, pos_part}
use kohaku_river.Common.Result.{ok}
use kohaku_river.Overlay.Subnet.{OverlaySubnetConfig, parse_fields, network_address}

-- A hierarchical plan: the bits fill 32, the base is aligned and everything is in range.
pub record IsValid (c : OverlaySubnetConfig) : Type 0 where
  pub sum : c.total_prefix + c.node_bits + c.subnet_bits ≡ 32
  pub total_low : 1 ≤ c.total_prefix
  pub total_high : c.total_prefix ≤ 24
  pub node_low : 1 ≤ c.node_bits
  pub node_high : c.node_bits ≤ 16
  pub subnet_low : 8 ≤ c.subnet_bits
  pub aligned : c.base % 2 ^ (32 - c.total_prefix) ≡ 0
  pub base_fits : c.base < 2 ^ 32

aligned_lem : (ip m : ℕ) → (ip - ip % m) % m ≡ 0
aligned_lem ip m =
    let e : ip - ip % m ≡ m * (ip / m) = omega (arith, div-add-mod ip m) in
    rw e (mul-mod_right m (ip / m))

-- What `parse` returns is a valid plan that keeps the three given widths.
pub parse_fields-IsValid :
    (ip : ℕ) (t n s : ℤ) (c : OverlaySubnetConfig)
    → parse_fields ip t n s ≡ ok c
    → IsValid c × (pos c.total_prefix ≡ t) × (pos c.node_bits ≡ n) × (pos c.subnet_bits ≡ s)
unfolding parse_fields
parse_fields-IsValid ip t n s c e = ground (arith, aligned_lem ip (2 ^ (32 - pos_part t)))

-- Every choice of widths in range is accepted, for every address.
pub parse_fields_complete :
    (ip t n s : ℕ)
    → ip < 2 ^ 32
    → t + n + s ≡ 32
    → (1 ≤ t) × (t ≤ 24)
    → (1 ≤ n) × (n ≤ 16)
    → 8 ≤ s
    → parse_fields ip (pos t) (pos n) (pos s)
      ≡ ok
          (record { base = network_address ip t; total_prefix = t; node_bits = n; subnet_bits = s })
unfolding parse_fields
parse_fields_complete ip t n s hip hsum ht hn hs = ground arith
