-- ===== src/Overlay/Subnet.antt =====
-- src/kohakuriver/models/overlay_subnet.py: the address plan of an overlay network.
-- An IPv4 address is its 32-bit number: `ipaddress.IPv4Address(n)` raises outside the range, and
-- `str` of it is read as the number. `n & 0xFF` is `n % 256`, and `n << k` is `n * 2 ^ k`.
pub mod Validation
pub mod Layout
pub mod Plan
pub mod Capacity
use kohaku_river.Common.{
  ℕ, ◌+◌, ◌-◌, ◌*◌, ◌%◌, ◌^◌, Bool, ◌||◌, not, ltb, ◌==◌, nat_key, if◌then◌else◌,
}
use kohaku_river.Common.Int.{ℤ, pos, ◌+ℤ◌, ltb_ℤ, eqb_ℤ, pos_part}
use kohaku_river.Common.Result.{Result, ok, err, ◌>>=◌, ◌>>◌, require}

-- The `ValueError`s, by what they complain of.
pub data ValueError : Type 0 where
  bits_sum total_prefix_range node_bits_range subnet_bits_range : ValueError
  address_range runner_id_range container_id_required : ValueError

pub record OverlaySubnetConfig : Type 0 where
  pub base : ℕ
  pub total_prefix : ℕ
  pub node_bits : ℕ
  pub subnet_bits : ℕ

-- An address with its prefix length, as in `10.1.0.0/16`.
pub record Cidr : Type 0 where
  pub address : ℕ
  pub prefix : ℕ

-- `ipaddress.IPv4Address(n)`
unfoldable pub ipv4_address : ℕ → Result ValueError ℕ
ipv4_address n = if ltb n (2 ^ 32) then ok n else err address_range

-- `ipaddress.IPv4Address(n - k)`; a negative number is refused too.
unfoldable pub ipv4_address_minus : ℕ → ℕ → Result ValueError ℕ
unfolding ipv4_address
ipv4_address_minus n k = if ltb n k then err address_range else ipv4_address (n - k)

-- `ipaddress.IPv4Network(f"{ip}/{prefix}", strict=False).network_address`
abbrev pub network_address : ℕ → ℕ → ℕ
network_address ip prefix = ip - ip % 2 ^ (32 - prefix)

-- `parse` behind its `split("/")` and `int`s: the checks in their order, and the network.
unfoldable pub parse_fields : ℕ → ℤ → ℤ → ℤ → Result ValueError OverlaySubnetConfig
unfolding ipv4_address ◌+ℤ◌
parse_fields base_ip total_prefix node_bits subnet_bits = do
  require (eqb_ℤ (total_prefix +ℤ node_bits +ℤ subnet_bits) (pos 32)) bits_sum
  require (not (ltb_ℤ total_prefix (pos 1) || ltb_ℤ (pos 24) total_prefix)) total_prefix_range
  require (not (ltb_ℤ node_bits (pos 1) || ltb_ℤ (pos 16) node_bits)) node_bits_range
  require (not (ltb_ℤ subnet_bits (pos 8))) subnet_bits_range
  ip ← ipv4_address base_ip
  ok (record {
    base = network_address ip (pos_part total_prefix);
    total_prefix = pos_part total_prefix;
    node_bits = pos_part node_bits;
    subnet_bits = pos_part subnet_bits;
  })

-- `from_simple_cidr`, behind the text of the address: a prefix above 32 is no network.
pub from_simple_cidr : ℕ → ℕ → Result ValueError OverlaySubnetConfig
unfolding ipv4_address
from_simple_cidr ip prefix = do
  require (not (ltb 32 prefix)) total_prefix_range
  a ← ipv4_address ip
  ok (record {
    base = network_address a prefix;
    total_prefix = prefix;
    node_bits = 0;
    subnet_bits = 32 - prefix;
  })

module _ (c : OverlaySubnetConfig) where
  unfoldable pub is_flat : Bool
  is_flat = c.node_bits == 0

  unfoldable pub max_runners : ℕ
  unfolding is_flat
  max_runners = if is_flat then 63 else 2 ^ c.node_bits - 1

  -- The source subtracts in ℤ: below four addresses it gives a negative number.
  unfoldable pub ips_per_runner : ℕ
  ips_per_runner = 2 ^ c.subnet_bits - 4

  unfoldable pub runner_prefix : ℕ
  runner_prefix = 32 - c.subnet_bits

  unfoldable pub get_host_ip : Result ValueError ℕ
  unfolding is_flat ipv4_address ipv4_address_minus
  get_host_ip =
      if is_flat
      then ipv4_address_minus (c.base + 2 ^ c.subnet_bits) 2
      else ipv4_address (c.base + 1)

  unfoldable pub validate_runner_id : ℕ → Result ValueError (Unit {0})
  unfolding max_runners
  validate_runner_id runner_id =
      require (not (ltb runner_id 1 || ltb max_runners runner_id)) runner_id_range

  unfoldable pub get_runner_subnet : ℕ → Result ValueError Cidr
  unfolding validate_runner_id is_flat ipv4_address runner_prefix
  get_runner_subnet runner_id = do
    validate_runner_id runner_id
    if is_flat then ok (record { address = c.base; prefix = c.total_prefix }) else do
      address ← ipv4_address (c.base + runner_id * 2 ^ c.subnet_bits)
      ok (record { address = address; prefix = runner_prefix })

  unfoldable pub get_runner_gateway : ℕ → Result ValueError ℕ
  unfolding validate_runner_id is_flat ipv4_address
  get_runner_gateway runner_id = do
    validate_runner_id runner_id
    if is_flat
        then ipv4_address (c.base + 1)
        else ipv4_address (c.base + runner_id * 2 ^ c.subnet_bits + 1)

  unfoldable pub get_host_ip_on_runner_subnet : ℕ → Result ValueError ℕ
  unfolding validate_runner_id is_flat ipv4_address ipv4_address_minus
  get_host_ip_on_runner_subnet runner_id = do
    validate_runner_id runner_id
    if is_flat
        then ipv4_address_minus (c.base + 2 ^ c.subnet_bits) 2
        else ipv4_address (c.base + runner_id * 2 ^ c.subnet_bits + 254)

  -- The last address of the range: one less where its low byte is 254.
  unfoldable pub last_container_address : ℕ → ℕ
  last_container_address subnet_base =
      let last = subnet_base + 2 ^ c.subnet_bits - 2 in if last % 256 == 254 then last - 1 else last

  -- The shared pool of a flat network, then the pool of one runner.
  unfoldable pub flat_range : Result ValueError (ℕ × ℕ)
  unfolding ipv4_address ipv4_address_minus
  flat_range = do
    first ← ipv4_address (c.base + 2)
    last ← ipv4_address_minus (c.base + 2 ^ c.subnet_bits) 3
    ok (first, last)

  unfoldable pub runner_range : ℕ → Result ValueError (ℕ × ℕ)
  unfolding ipv4_address last_container_address
  runner_range subnet_base = do
    first ← ipv4_address (subnet_base + 2)
    last ← ipv4_address (last_container_address subnet_base)
    ok (first, last)

  unfoldable pub get_container_ip_range : ℕ → Result ValueError (ℕ × ℕ)
  unfolding validate_runner_id is_flat flat_range runner_range
  get_container_ip_range runner_id = do
    validate_runner_id runner_id
    if is_flat then flat_range else runner_range (c.base + runner_id * 2 ^ c.subnet_bits)

  unfoldable pub get_overlay_network_cidr : Cidr
  get_overlay_network_cidr = record { address = c.base; prefix = c.total_prefix }
