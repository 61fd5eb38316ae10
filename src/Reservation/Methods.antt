-- ===== src/Reservation/Methods.antt =====
-- The methods of `IPReservationManager`.
use kohaku_river.Common.{
  ℕ, zero, suc, ◌+◌, ◌*◌, ◌%◌, Bool, true, false, not, ◌&&◌, ◌||◌, Option, none, some, List, [],
  ◌∷◌, ◌++◌, String, if◌then◌else◌, ◌==◌, nat_key, string_key, pair_key, length, get_elem?,
  contains, get, put, del,
}
use kohaku_river.Common.Result.{Result, ok, err}
use kohaku_river.Reservation.{
  Reservations, IpReservation, Network, add_used, cleanup_expired, forget, discard_used, is_used,
}
use kohaku_river.Overlay.Manager.{OverlayAllocation}
use kohaku_river.Reservation.Token.{Signer, generate_token, microseconds, verify_token}
use kohaku_river.Reservation.Pool.{available_ips}
use kohaku_river.Overlay.Subnet.{ValueError, container_id_required}

-- `secrets.choice`: a draw picks an element, whatever number it is.
unfoldable pub choose : ℕ → List ℕ → Option ℕ
choose draw [] = none
choose draw (x ∷ xs) = get_elem? (x ∷ xs) (draw % length (x ∷ xs))

-- `ttl or self.default_ttl`
abbrev pub effective_ttl : ℕ → Option ℕ → ℕ
effective_ttl default_ttl none = default_ttl
effective_ttl default_ttl (some zero) = default_ttl
effective_ttl default_ttl (some (suc n)) = suc n

-- `expected and value != expected`
abbrev pub mismatch : Option String → String → Bool
mismatch none value = false
mismatch (some expected) value = not (expected == "") && not (value == expected)

unfoldable pub pick : ℕ → Option ℕ → List ℕ → Option ℕ
unfolding choose contains
pick draw none available = choose draw available
pick draw (some ip) available = if contains ip available then some ip else none

module _ (k : Signer) (default_ttl : ℕ) where
  unfoldable pub new_reservation : ℕ → String → ℕ → String → ℕ → ℕ → IpReservation
  unfolding generate_token
  new_reservation now runner_name runner_id network_name ip ttl =
      let expires_at = now + ttl * microseconds in
      record {
        ip = ip;
        runner_name = runner_name;
        runner_id = runner_id;
        token = generate_token k ip runner_name expires_at network_name;
        network_name = network_name;
        expires_at = expires_at;
        container_id = none;
      }

  -- The state in which a reservation is entered.
  unfoldable pub enter : IpReservation → Reservations → Reservations
  enter r s = record s {
    reservations = put (r.network_name, r.ip) r s.reservations;
    token_to_key = put r.token (r.network_name, r.ip) s.token_to_key;
  }

  -- Behind the checks that the network and the runner exist.
  unfoldable pub reserve_on :
      ℕ
      → ℕ
      → Network
      → OverlayAllocation
      → String
      → String
      → Option ℕ
      → Option ℕ
      → Reservations
      → Result ValueError (Option IpReservation) × Reservations
  unfolding available_ips pick new_reservation enter
  reserve_on now draw network allocation runner_name network_name ip ttl s =
      elim (available_ips now s network runner_name network_name) [
        | err e ↦ (err e, s)
        | ok available ↦ elim (pick draw ip available) [
          | none ↦ (ok none, s)
          | some chosen ↦
              let r =
                new_reservation now runner_name allocation.runner_id network_name chosen
                  (effective_ttl default_ttl ttl) in
              (ok (some r), enter r s)
        ]
      ]

  unfoldable pub reserve_ip :
      ℕ
      → ℕ
      → Option Network
      → String
      → String
      → Option ℕ
      → Option ℕ
      → Reservations
      → Result ValueError (Option IpReservation) × Reservations
  unfolding cleanup_expired reserve_on
  reserve_ip now draw network runner_name network_name ip ttl s =
      let s' = cleanup_expired now s in
      elim network [
        | none ↦ (ok none, s')
        | some net ↦ elim (get runner_name net.allocations) [
          | none ↦ (ok none, s')
          | some allocation ↦ reserve_on now draw net allocation runner_name network_name ip ttl s'
        ]
      ]

-- A year, as `timedelta(days=365)`.
abbrev pub year : ℕ
year = 365 * 24 * 60 * 60 * microseconds

abbrev pub bound_reservation : String → ℕ → ℕ → String → ℕ → String → IpReservation
bound_reservation runner_name runner_id now network_name ip container_id = record {
  ip = ip;
  runner_name = runner_name;
  runner_id = runner_id;
  token = "";
  network_name = network_name;
  expires_at = now + year;
  container_id = some container_id;
}

unfoldable pub bind_container : String → ℕ → ℕ → String → ℕ → String → Reservations → Reservations
unfolding add_used
bind_container runner_name runner_id now network_name ip container_id s = record s {
  reservations =
      put (network_name, ip)
        (bound_reservation runner_name runner_id now network_name ip container_id) s.reservations;
  used_ips = add_used (runner_name, network_name) ip s.used_ips;
}

unfoldable pub allocate_on :
    ℕ
    → ℕ
    → Network
    → OverlayAllocation
    → String
    → String
    → String
    → Reservations
    → Result ValueError (Option ℕ) × Reservations
unfolding available_ips choose bind_container
allocate_on now draw network allocation runner_name network_name container_id s =
    elim (available_ips now s network runner_name network_name) [
      | err e ↦ (err e, s)
      | ok available ↦ elim (choose draw available) [
        | none ↦ (ok none, s)
        | some ip ↦ (
          ok (some ip),
          bind_container runner_name allocation.runner_id now network_name ip container_id s,
        )
      ]
    ]

-- `auto_allocate_ip` for a container id that is not empty; an empty one is refused at once.
unfoldable pub auto_allocate_ip :
    ℕ
    → ℕ
    → Option Network
    → String
    → String
    → String
    → Reservations
    → Result ValueError (Option ℕ) × Reservations
unfolding cleanup_expired allocate_on
auto_allocate_ip now draw network runner_name network_name container_id s =
    if container_id == ""
    then (err container_id_required, s)
    else let s' = cleanup_expired now s in
      elim network [
        | none ↦ (ok none, s')
        | some net ↦ elim (get runner_name net.allocations) [
          | none ↦ (ok none, s')
          | some allocation ↦
              allocate_on now draw net allocation runner_name network_name container_id s'
        ]
      ]

module _ (k : Signer) where
  -- The reservation that a token names, if its checks pass.
  unfoldable pub validate_token :
      ℕ → String → Option String → Option String → Reservations → Option IpReservation
  unfolding verify_token
  validate_token now token expected_runner expected_network s = elim (verify_token k now token) [
    | none ↦ none
    | some _ ↦ elim (get token s.token_to_key) [
      | none ↦ none
      | some key ↦ elim (get key s.reservations) [
        | none ↦ none
        | some r ↦
            if mismatch expected_runner r.runner_name
              || mismatch expected_network r.network_name
              || is_used r
            then none
            else some r
      ]
    ]
  ]

  -- The same checks, then the reservation is bound to the container. The object stays at its key.
  unfoldable pub use_reservation :
      ℕ → String → String → Option String → Option String → Reservations → Option ℕ × Reservations
  unfolding validate_token add_used
  use_reservation now token container_id expected_runner expected_network s =
      elim (validate_token now token expected_runner expected_network s) [
        | none ↦ (none, s)
        | some r ↦ elim (get token s.token_to_key) [
          | none ↦ (none, s)
          | some key ↦ (
            some r.ip,
            record s {
              reservations = put key (record r { container_id = some container_id }) s.reservations;
              used_ips = add_used (r.runner_name, r.network_name) r.ip s.used_ips;
            },
          )
        ]
      ]

-- The loop of `release_by_container` over a copy of the entries.
unfoldable pub release_loop :
    String → List ((String × ℕ) × IpReservation) → List ℕ → Reservations → List ℕ × Reservations
unfolding forget discard_used
release_loop container_id [] released s = (released, s)
release_loop container_id ((key, r) ∷ items) released s =
    let mine : Bool = elim r.container_id [ none ↦ false | some c ↦ c == container_id ] in
    release_loop container_id items (if mine then released ++ r.ip ∷ [] else released) (
      if mine
      then forget key r
          (record s { used_ips = discard_used (r.runner_name, r.network_name) r.ip s.used_ips })
      else s)

unfoldable pub release_by_container : String → Reservations → List ℕ × Reservations
unfolding release_loop
release_by_container container_id s = release_loop container_id s.reservations [] s

unfoldable pub release_by_token : String → Reservations → Bool × Reservations
unfolding forget
release_by_token token s = elim (get token s.token_to_key) [
  | none ↦ (false, s)
  | some key ↦ elim (get key s.reservations) [
    | none ↦ (false, s)
    | some r ↦ if is_used r then (false, s) else (
      true,
      record s { reservations = del key s.reservations; token_to_key = del token s.token_to_key },
    )
  ]
]

unfoldable pub mark_ip_used : String → ℕ → String → Reservations → Reservations
unfolding add_used
mark_ip_used runner_name ip network_name s = record s {
  used_ips = add_used (runner_name, network_name) ip s.used_ips;
}

unfoldable pub mark_ip_free : String → ℕ → String → Reservations → Reservations
unfolding discard_used forget
mark_ip_free runner_name ip network_name s =
    let s' : Reservations = record s {
      used_ips = discard_used (runner_name, network_name) ip s.used_ips;
    } in
    elim (get (network_name, ip) s.reservations) [
      | none ↦ s'
      | some r ↦ forget (network_name, ip) r s'
    ]
