-- ===== src/Reservation/Tests.antt =====
-- Reservations at work, and the theorems about them there.
use kohaku_river.Common.{
  ◌≡◌, refl, ◌≢◌, true, none, some, List, [], ◌∷◌, arith, String, if◌then◌else◌, ◌==◌, nat_key,
  string_key, pair_key, keep, contains, get, put,
}
use kohaku_river.Common.Result.{ok}
use kohaku_river.Reservation.{
  forget_all, add_used, set_add, Reservations, IpReservation, Network, cleanup_expired, used_at,
  forget_all,
}
use kohaku_river.Reservation.Token.{
  Signer, IsFaithful, Payload, payload_of, generate_token, verify_token,
}
use kohaku_river.Reservation.Methods.{
  reserve_ip, auto_allocate_ip, use_reservation, release_by_token, reserve_on, pick, choose, enter,
  new_reservation, validate_token, allocate_on, bind_container, bound_reservation,
}
use kohaku_river.Reservation.Soundness.{IsSound}
use kohaku_river.Reservation.Release.{release_by_container-exact, Released}
use kohaku_river.Reservation.Safety.{reserve_ip-free, Reserved, auto_allocate_ip-free, Allocated}
use kohaku_river.Reservation.Lifecycle.{use_reservation-reserve_ip}
use kohaku_river.Reservation.Once.{use_reservation-once}
use kohaku_river.Reservation.History.{
  Call, reserve, allocate, mark_free, release_container, clean, run, step, empty, empty-IsSound,
  run-IsSound, step-IsSound, auto_allocate_ip-exclusive,
}
use kohaku_river.Overlay.Subnet.{
  OverlaySubnetConfig, get_container_ip_range, get_host_ip_on_runner_subnet, validate_runner_id,
  max_runners, is_flat, flat_range, ipv4_address_minus, runner_range, ipv4_address,
  last_container_address,
}
use kohaku_river.Overlay.Manager.{OverlayAllocation, range_from}
use kohaku_river.Reservation.Pool.{available_ips, available_in, reserved_ips}

abbrev plan : OverlaySubnetConfig
plan = record { base = 167_772_160; total_prefix = 23; node_bits = 1; subnet_bits = 8 }

-- 10.0.1.0/24 belongs to the one runner.
abbrev alpha : OverlayAllocation
alpha = record {
  runner_name = "alpha";
  runner_id = 1;
  physical_ip = "192.168.1.2";
  subnet = record { address = 167_772_416; prefix = 24 };
  gateway = 167_772_417;
  vxlan_device = "vxkr1";
  last_used = 10;
  is_active = true;
}

abbrev network : Network
network = record { subnet_config = plan; allocations = ("alpha", alpha) ∷ [] }

-- A signer that knows one token.
abbrev issued : Payload
issued = payload_of 167_772_418 "alpha" 300_000_005 "default"

abbrev signer : Signer
signer = record {
  sign = λ p. if p.ip == 167_772_418 then "issued" else "other";
  unsign = λ t. if t == "issued" then some issued else none;
}

signer-IsFaithful : IsFaithful signer issued
signer-IsFaithful = record { unsign-sign = refl }

abbrev waiting : IpReservation
waiting = record {
  ip = 167_772_418;
  runner_name = "alpha";
  runner_id = 1;
  token = "issued";
  network_name = "default";
  expires_at = 300_000_005;
  container_id = none;
}

abbrev reserved : Reservations
reserved = record {
  reservations = (("default", 167_772_418), waiting) ∷ [];
  token_to_key = ("issued", ("default", 167_772_418)) ∷ [];
  used_ips = [];
}

reserve_ip-answers :
    reserve_ip signer 300 5 0 (some network) "alpha" "default" none none empty
    ≡ (ok (some waiting), reserved)
unfolding reserve_ip reserve_on available_ips available_in cleanup_expired forget_all keep pick
    choose contains enter put get new_reservation generate_token range_from reserved_ips used_at
    get_container_ip_range get_host_ip_on_runner_subnet validate_runner_id max_runners is_flat
    runner_range ipv4_address last_container_address
reserve_ip-answers = refl

reserve_ip-free_example :
    Reserved signer 300 5 network "alpha" "default" none none empty reserved waiting
reserve_ip-free_example =
    reserve_ip-free signer 300 5 0 network "alpha" "default" none none empty reserved waiting
      reserve_ip-answers

use_reservation-reserve_ip_example :
    let used = use_reservation signer 7 "issued" "box" (some "alpha") (some "default") reserved in
    (used.0 ≡ some 167_772_418)
    × (contains 167_772_418 (used_at ("alpha", "default") used.1.used_ips) ≡ true)
    × (get ("default", 167_772_418) used.1.reservations
        ≡ some (record waiting { container_id = some "box" }))
use_reservation-reserve_ip_example =
    use_reservation-reserve_ip signer 300 5 0 7 network "alpha" "default" none none "box" empty
      reserved waiting signer-IsFaithful reserve_ip-answers (omega arith)

abbrev bound : Reservations
bound = (use_reservation signer 7 "issued" "box" none none reserved).1

bound-used : use_reservation signer 7 "issued" "box" none none reserved ≡ (some 167_772_418, bound)
unfolding use_reservation validate_token verify_token get
bound-used = refl

abbrev later : List Call
later = mark_free "alpha" 167_772_418 "default" ∷ release_container "box" ∷ clean 8 ∷ []

use_reservation-once_example :
    use_reservation signer 9 "issued" "thief" none none (run signer 300 later bound)
    ≡ (none, run signer 300 later bound)
use_reservation-once_example =
    use_reservation-once signer 300 later 7 9 "issued" "box" "thief" none none none none reserved
      bound 167_772_418 bound-used (refl, (refl, (refl, tt)))

reserved-released : (release_by_token "issued" reserved).0 ≡ true
unfolding release_by_token get
reserved-released = refl

abbrev calls : List Call
calls = allocate 5 0 (some network) "alpha" "default" "box" ∷ []

abbrev one : Reservations
one = run signer 300 calls empty

one-IsSound : IsSound one
one-IsSound = run-IsSound signer 300 calls empty empty-IsSound

step-IsSound_example :
    IsSound (step signer 300 (reserve 6 0 (some network) "alpha" "default" none none) one)
step-IsSound_example =
    step-IsSound signer 300 (reserve 6 0 (some network) "alpha" "default" none none) one one-IsSound

release_by_container-exact_example : Released "box" one
release_by_container-exact_example = release_by_container-exact "box" one one-IsSound

-- A second container gets the next address.
abbrev two : Reservations
two = (auto_allocate_ip 6 0 (some network) "alpha" "default" "tin" one).1

two-allocated :
    auto_allocate_ip 6 0 (some network) "alpha" "default" "tin" one ≡ (ok (some 167_772_419), two)
unfolding run step auto_allocate_ip allocate_on available_ips available_in cleanup_expired
    forget_all keep choose contains bind_container put get range_from reserved_ips used_at add_used
    set_add get_container_ip_range get_host_ip_on_runner_subnet validate_runner_id max_runners
    is_flat runner_range ipv4_address last_container_address
two-allocated = refl

auto_allocate_ip-free_example : Allocated 6 network "alpha" "default" "tin" one two 167_772_419
auto_allocate_ip-free_example =
    auto_allocate_ip-free 6 0 network "alpha" "default" "tin" one two 167_772_419 two-allocated

-- 10.0.0.0/24, shared by two runners.
abbrev shared : Network
shared = record {
  subnet_config = record { base = 167_772_160; total_prefix = 24; node_bits = 0; subnet_bits = 8 };
  allocations =
      ("alpha", alpha) ∷ ("beta", record alpha { runner_name = "beta"; runner_id = 2 }) ∷ [];
}

abbrev shared_calls : List Call
shared_calls = allocate 5 0 (some shared) "beta" "default" "box" ∷ []

abbrev taken : Reservations
taken = run signer 300 shared_calls empty

abbrev taken_twice : Reservations
taken_twice = (auto_allocate_ip 6 0 (some shared) "alpha" "default" "tin" taken).1

abbrev of_beta : IpReservation
of_beta = bound_reservation "beta" 2 5 "default" 167_772_162 "box"

-- The address that a container on one runner has is given to a container on the other.
taken-again :
    auto_allocate_ip 6 0 (some shared) "alpha" "default" "tin" taken
    ≡ (ok (some 167_772_162), taken_twice)
unfolding run step auto_allocate_ip allocate_on available_ips available_in cleanup_expired
    forget_all keep choose contains bind_container put get range_from reserved_ips used_at add_used
    set_add get_container_ip_range get_host_ip_on_runner_subnet validate_runner_id max_runners
    is_flat flat_range ipv4_address_minus ipv4_address
taken-again = refl

taken-of_beta : get ("default", 167_772_162) (cleanup_expired 6 taken).reservations ≡ some of_beta
unfolding run step auto_allocate_ip allocate_on available_ips available_in cleanup_expired
    forget_all keep choose contains bind_container put get range_from reserved_ips used_at add_used
    set_add get_container_ip_range get_host_ip_on_runner_subnet validate_runner_id max_runners
    is_flat flat_range ipv4_address_minus ipv4_address
taken-of_beta = refl

auto_allocate_ip-exclusive_example : ◌≢◌ {A = String} "beta" "alpha"
auto_allocate_ip-exclusive_example =
    auto_allocate_ip-exclusive signer 300 shared_calls 6 0 shared "alpha" "default" "tin"
      taken_twice 167_772_162 of_beta taken-again taken-of_beta
