-- ===== src/Overlay/Subnet/Plan.antt =====
-- src/kohakuriver/models/overlay_subnet.py, the address plan as a whole: the subnets of the runners,
-- and how the special addresses of a subnet lie to its container pool.
use kohaku_river.Common.{ℕ, ◌+◌, ◌-◌, ◌*◌, ◌^◌, ◌≤◌, ◌<◌, ◌≡◌, arith, dec_le, ap}
use kohaku_river.Overlay.Subnet.Layout.{
  size, subnet_base, get_runner_subnet-ok, get_host_ip-ok, size_bound, overlay_size,
}
use kohaku_river.Overlay.Subnet.{
  OverlaySubnetConfig, Cidr, get_runner_subnet, max_runners, get_host_ip, ok, get_runner_gateway,
  get_overlay_network_cidr, get_host_ip_on_runner_subnet, get_container_ip_range,
}
use kohaku_river.Overlay.Subnet.Validation.{IsValid}
use native.Mathlib.Nat.{mul-le-mul_right}
use kohaku_river.Common.Result.{ok}
use kohaku_river.Common.Powers.{pow_pos}

-- `a` is an address of the network `s`.
abbrev pub Within : Cidr → ℕ → Type 0
Within s a = (s.address ≤ a) × (a < s.address + 2 ^ (32 - s.prefix))

get_runner_subnet-id :
    (c : OverlaySubnetConfig) (r : ℕ) (s : Cidr)
    → get_runner_subnet c r ≡ ok s
    → (1 ≤ r) × (r ≤ max_runners c)
unfolding get_runner_subnet
get_runner_subnet-id c r s e = ground arith

get_runner_subnet_inv :
    (c : OverlaySubnetConfig) (r : ℕ) (s : Cidr)
    → IsValid c
    → get_runner_subnet c r ≡ ok s
    → (1 ≤ r)
      × (r ≤ max_runners c)
      × (s.address ≡ subnet_base c r)
      × (s.prefix ≡ 32 - c.subnet_bits)
get_runner_subnet_inv c r s v e =
    let (low, high) = get_runner_subnet-id c r s e in
    ground (arith, get_runner_subnet-ok c v r low high)

subnet_size : (c : OverlaySubnetConfig) → IsValid c → 2 ^ (32 - (32 - c.subnet_bits)) ≡ size c
subnet_size c v = ap (λ (k : ℕ). 2 ^ k) {x = 32 - (32 - c.subnet_bits)} (omega (arith, v.sum))

Within-inv :
    (c : OverlaySubnetConfig) (r a : ℕ) (s : Cidr)
    → IsValid c
    → get_runner_subnet c r ≡ ok s
    → Within s a
    → (subnet_base c r ≤ a) × (a < subnet_base c r + size c)
Within-inv c r a s v e w =
    let (low, high, start, bits) = get_runner_subnet_inv c r s v e in
    let (from, to) = w in
    let span : 2 ^ (32 - s.prefix) ≡ size c = rw bits (subnet_size c v) in
    (omega arith, omega arith)

apart : (b n r q a : ℕ) → b + r * n ≤ a → a < b + q * n + n → r ≤ q
apart b n r q a low high = elim (dec_le r q) [
  | yes h ↦ h
  | no h ↦ absurd (omega (arith, mul-le-mul_right {m = q + 1} {n = r} n (omega arith)))
]

-- The subnets that `get_runner_subnet` gives to two runner ids share no address.
pub get_runner_subnet_disjoint :
    (c : OverlaySubnetConfig) (r q a : ℕ) (s t : Cidr)
    → IsValid c
    → get_runner_subnet c r ≡ ok s
    → get_runner_subnet c q ≡ ok t
    → Within s a
    → Within t a
    → r ≡ q
get_runner_subnet_disjoint c r q a s t v hs ht ins int =
    let (r_low, r_high) = Within-inv c r a s v hs ins in
    let (q_low, q_high) = Within-inv c q a t v ht int in
    omega (arith, apart c.base (size c) r q a, apart c.base (size c) q r a)

-- The addresses of a runner, and how they lie.
abbrev pub RunnerPlan : OverlaySubnetConfig → ℕ → Type 0
RunnerPlan c r =
    (b gateway host first last : ℕ) × (get_runner_subnet c r
      ≡ ok (record { address = b; prefix = 32 - c.subnet_bits }))
    × (get_runner_gateway c r ≡ ok gateway)
    × (get_host_ip_on_runner_subnet c r ≡ ok host)
    × (get_container_ip_range c r ≡ ok (first, last))
    × (b < gateway)
    × (gateway < first)
    × (first ≤ last)
    × (last < b + 2 ^ c.subnet_bits - 1)
    × (gateway < host)
    × (host < b + 2 ^ c.subnet_bits - 1)
    × (b + 2 ^ c.subnet_bits ≤ c.base + 2 ^ (32 - c.total_prefix))

-- The host's address in the overlay network, apart from every runner's subnet.
abbrev pub HostPlan : OverlaySubnetConfig → Type 0
HostPlan c =
    (h : ℕ) × (get_host_ip c ≡ ok h)
    × (Within (get_overlay_network_cidr c) h)
    × ((r : ℕ) (s : Cidr) → get_runner_subnet c r ≡ ok s → ¬ (Within s h))

-- In a valid plan the host's own address is computed, lies in the overlay network and in the subnet
-- of no runner.
pub get_host_ip_separate : (c : OverlaySubnetConfig) → IsValid c → HostPlan c
unfolding get_overlay_network_cidr
get_host_ip_separate c v = (
  c.base + 1,
  get_host_ip-ok c v,
  (
    omega arith,
    omega (
      arith,
      overlay_size c v,
      size_bound c v,
      mul-le-mul_right {m = 1} {n = 2 ^ c.node_bits} (size c) (pow_pos c.node_bits),
    ),
  ),
  λ r s e w.
      let (low, high) = get_runner_subnet-id c r s e in
      let (from, to) = Within-inv c r (c.base + 1) s v e w in
      omega (arith, size_bound c v, mul-le-mul_right {m = 1} {n = r} (size c) low),
)
