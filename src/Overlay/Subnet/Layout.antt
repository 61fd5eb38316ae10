-- ===== src/Overlay/Subnet/Layout.antt =====
-- Where the addresses of a valid plan lie.
use native.Mathlib.Nat.{mul-mod_right, mul-le-mul_right, mod-mod_of_dvd, dvd_of_mod-eq-zero}
use kohaku_river.Common.{ℕ, ◌+◌, ◌-◌, ◌*◌, ◌%◌, ◌^◌, ◌≤◌, ◌≡◌, ap, arith, false, sym, ◌∙◌, ◌/◌}
use kohaku_river.Common.Powers.{pow-add, pow_pos, pow_mono, aligned_room}
use kohaku_river.Overlay.Subnet.{
  OverlaySubnetConfig, max_runners, validate_runner_id, is_flat, get_runner_subnet,
  get_runner_gateway, get_host_ip_on_runner_subnet, get_container_ip_range, ok, get_host_ip,
}
use kohaku_river.Overlay.Subnet.Validation.{IsValid}

pow-mod-256 : (n : ℕ) → 8 ≤ n → 2 ^ n % 256 ≡ 0
pow-mod-256 n h =
    let e : n ≡ 8 + (n - 8) = omega arith in rw (e, pow-add) (mul-mod_right 256 (2 ^ (n - 8)))

abbrev pub size : OverlaySubnetConfig → ℕ
size c = 2 ^ c.subnet_bits

abbrev pub subnet_base : OverlaySubnetConfig → ℕ → ℕ
subnet_base c r = c.base + r * size c

module _ (c : OverlaySubnetConfig) (v : IsValid c) where
  pub size_bound : 256 ≤ (size c)
  size_bound = pow_mono 8 c.subnet_bits v.subnet_low

  size_aligned : (size c) % 256 ≡ 0
  size_aligned = pow-mod-256 c.subnet_bits v.subnet_low

  -- Every subnet starts at a multiple of 256.
  pub subnet_base_aligned : (r : ℕ) → subnet_base c r % 256 ≡ 0
  subnet_base_aligned r =
      let m = 2 ^ (32 - c.total_prefix) in
      let divides =
        dvd_of_mod-eq-zero 256 (pow-mod-256 (32 - c.total_prefix) (omega (arith, v.total_high))) in
      let of_base : c.base % 256 ≡ 0 =
        sym (mod-mod_of_dvd 256 c.base divides) ∙ ap (λ (t : ℕ). t % 256) v.aligned in
      let of_size : (size c) ≡ 256 * ((size c) / 256) = omega (arith, size_aligned) in
      omega (arith, of_base, ap (λ (t : ℕ). r * t) of_size)

  -- The network of the plan ends within the address space.
  pub overlay_fits : c.base + 2 ^ (32 - c.total_prefix) ≤ 2 ^ 32
  overlay_fits =
      let m = 2 ^ (32 - c.total_prefix) in
      let split : 2 ^ 32 ≡ 2 ^ c.total_prefix * m =
        rw (← pow-add c.total_prefix (32 - c.total_prefix))
          (ap (λ (k : ℕ). 2 ^ k) {x = 32} (omega (arith, v.total_high))) in
      rw split (aligned_room c.base m (2 ^ c.total_prefix) v.aligned (rw (← split) v.base_fits))

  pub overlay_size : 2 ^ (32 - c.total_prefix) ≡ 2 ^ c.node_bits * (size c)
  overlay_size =
      let e : 32 - c.total_prefix ≡ c.node_bits + c.subnet_bits = omega (arith, v.sum) in
      rw e (pow-add c.node_bits c.subnet_bits)

  pub max_runners_lem : max_runners c ≡ 2 ^ c.node_bits - 1
  unfolding max_runners
  max_runners_lem = ground (arith, v.node_low)

  -- A runner's whole subnet lies inside the network.
  pub subnet_fits :
      (r : ℕ) → r ≤ max_runners c → subnet_base c r + (size c) ≤ c.base + 2 ^ (32 - c.total_prefix)
  subnet_fits r h = grind (
    arith,
    overlay_size,
    max_runners_lem,
    pow_pos c.node_bits,
    mul-le-mul_right {m = r + 1} {n = 2 ^ c.node_bits} (size c),
  )

  -- An id in range passes the check, and the plan is not flat.
  pub validate_runner_id-ok : (r : ℕ) → 1 ≤ r → r ≤ max_runners c → validate_runner_id c r ≡ ok tt
  unfolding validate_runner_id
  validate_runner_id-ok r low high = ground arith

  pub is_flat-false : is_flat c ≡ false
  unfolding is_flat
  is_flat-false = ground (arith, v.node_low)

  pub get_host_ip-ok : get_host_ip c ≡ ok (c.base + 1)
  unfolding get_host_ip
  get_host_ip-ok = rw is_flat-false (
      ground (
        arith,
        subnet_fits 1,
        overlay_fits,
        size_bound,
        overlay_size,
        pow_pos c.node_bits,
        mul-le-mul_right {m = 1} {n = 2 ^ c.node_bits} (size c),
      ))

  module _ (r : ℕ) (low : 1 ≤ r) (high : r ≤ max_runners c) where
    pub get_runner_subnet-ok :
        get_runner_subnet c r
        ≡ ok (record { address = subnet_base c r; prefix = 32 - c.subnet_bits })
    unfolding get_runner_subnet
    get_runner_subnet-ok =
        rw (validate_runner_id-ok r low high, is_flat-false)
          (ground (arith, subnet_fits r high, overlay_fits, size_bound))

    pub get_runner_gateway-ok : get_runner_gateway c r ≡ ok (subnet_base c r + 1)
    unfolding get_runner_gateway
    get_runner_gateway-ok =
        rw (validate_runner_id-ok r low high, is_flat-false)
          (ground (arith, subnet_fits r high, overlay_fits, size_bound))

    pub get_host_ip_on_runner_subnet-ok :
        get_host_ip_on_runner_subnet c r ≡ ok (subnet_base c r + 254)
    unfolding get_host_ip_on_runner_subnet
    get_host_ip_on_runner_subnet-ok =
        rw (validate_runner_id-ok r low high, is_flat-false)
          (ground (arith, subnet_fits r high, overlay_fits, size_bound))

    pub get_container_ip_range-ok :
        get_container_ip_range c r ≡ ok (subnet_base c r + 2, subnet_base c r + (size c) - 3)
    unfolding get_container_ip_range
    get_container_ip_range-ok =
        rw (validate_runner_id-ok r low high, is_flat-false)
          (ground (
            arith,
            subnet_fits r high,
            overlay_fits,
            size_bound,
            size_aligned,
            subnet_base_aligned r,
          ))
