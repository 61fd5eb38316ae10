-- ===== src/Reservation/Pool.antt =====
-- `_get_available_ips_for_runner`: the free addresses of a runner's pool.
use kohaku_river.Common.{
  ℕ, ◌+◌, ◌-◌, not, ◌&&◌, ◌||◌, none, some, List, [], ◌∷◌, String, if◌then◌else◌, ◌==◌, nat_key,
  string_key, pair_key, keep, contains, Dict, get,
}
use kohaku_river.Common.Result.{Result, ok, ◌>>=◌}
use kohaku_river.Reservation.{Reservations, IpReservation, Network, used_at, is_expired}
use kohaku_river.Overlay.Manager.{range_from}
use kohaku_river.Overlay.Subnet.{ValueError, get_container_ip_range, get_host_ip_on_runner_subnet}

-- `{r.ip for ... if key[0] == network_name and r.runner_name == runner_name and not expired}`
unfoldable pub reserved_ips : ℕ → String → String → Dict (String × ℕ) IpReservation → List ℕ
reserved_ips now runner_name network_name [] = []
reserved_ips now runner_name network_name ((key, r) ∷ d) =
    let rest = reserved_ips now runner_name network_name d in
    if key.0 == network_name && r.runner_name == runner_name && not (is_expired now r)
    then r.ip ∷ rest
    else rest

unfoldable pub available_in : ℕ → Reservations → String → String → ℕ → ℕ → ℕ → List ℕ
unfolding reserved_ips used_at contains keep range_from
available_in now s runner_name network_name first last host =
    keep
      (λ ip.
        not (
          contains ip (reserved_ips now runner_name network_name s.reservations)
          || contains ip (used_at (runner_name, network_name) s.used_ips))
        && not (ip == host))
      (range_from first (last + 1 - first))

unfoldable pub available_ips :
    ℕ → Reservations → Network → String → String → Result ValueError (List ℕ)
unfolding available_in
available_ips now s network runner_name network_name = elim (get runner_name network.allocations) [
  | none ↦ ok []
  | some allocation ↦ do
    (first, last) ← get_container_ip_range network.subnet_config allocation.runner_id
    host ← get_host_ip_on_runner_subnet network.subnet_config allocation.runner_id
    ok (available_in now s runner_name network_name first last host)
]
