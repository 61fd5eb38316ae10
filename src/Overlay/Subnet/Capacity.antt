-- ===== src/Overlay/Subnet/Capacity.antt =====
-- How many addresses a runner's pool has, against `ips_per_runner`.
use kohaku_river.Common.Result.{ok}
use kohaku_river.Overlay.Subnet.{
  OverlaySubnetConfig, ips_per_runner, ℕ, get_container_ip_range, get_host_ip_on_runner_subnet,
}
use kohaku_river.Common.{ℕ, ◌≤◌, ◌≡◌, ◌+◌, ◌-◌, ◌<◌}

abbrev pub PoolSize : OverlaySubnetConfig → ℕ → Type 0
PoolSize c r =
    (first last host : ℕ) × (get_container_ip_range c r ≡ ok (first, last))
    × (get_host_ip_on_runner_subnet c r ≡ ok host)
    × (last + 1 - first ≡ ips_per_runner c)
    × (9 ≤ c.subnet_bits → (first ≤ host) × (host ≤ last))
    × (c.subnet_bits ≡ 8 → last < host)
