-- ===== src/Reservation/Free.antt =====
-- The addresses that `_get_available_ips_for_runner` reports are free.
use kohaku_river.Common.{
  ℕ, zero, suc, ◌+◌, ◌-◌, ◌%◌, ◌≤◌, ◌<◌, ◌≡◌, ◌≢◌, inl, inr, Bool, true, false, not, ◌&&◌, ◌||◌,
  Option, none, some, List, [], ◌∷◌, arith, String, ◌==◌, nat_key, string_key, pair_key, length,
  get_elem?, keep, contains, Dict, get, Option-cases, Item,
}
use kohaku_river.Common.Result.{Result, ok, err, Result-cases}
use kohaku_river.Reservation.Pool.{available_in, available_ips, reserved_ips}
use kohaku_river.Reservation.{Reservations, IpReservation, Network, used_at, is_expired}
use kohaku_river.Reservation.Methods.{choose, pick}
use kohaku_river.Overlay.Manager.{OverlayAllocation, range_from}
use kohaku_river.Overlay.Subnet.{ValueError, get_container_ip_range, get_host_ip_on_runner_subnet}

contains-keep :
    (test : ℕ → Bool) (l : List ℕ) (i : ℕ)
    → contains i (keep test l) ≡ true
    → (contains i l ≡ true) × (test i ≡ true)
unfolding contains keep
contains-keep test [] i h = cc
contains-keep test (x ∷ l) i h = ground (arith, contains-keep test l i)

contains-range_from :
    (n first i : ℕ) → contains i (range_from first n) ≡ true → (first ≤ i) × (i < first + n)
unfolding contains range_from
contains-range_from zero first i h = cc
contains-range_from (suc n) first i h = ground (arith, contains-range_from n (first + 1) i)

contains-get_elem? : (l : List ℕ) (n i : ℕ) → get_elem? l n ≡ some i → contains i l ≡ true
unfolding contains
contains-get_elem? [] n i h = cc
contains-get_elem? (x ∷ l) zero i h = ground arith
contains-get_elem? (x ∷ l) (suc n) i h = ground (arith, contains-get_elem? l n i h)

pub contains-choose : (draw i : ℕ) (l : List ℕ) → choose draw l ≡ some i → contains i l ≡ true
unfolding choose
contains-choose draw i [] h = cc
contains-choose draw i (x ∷ l) h = contains-get_elem? (x ∷ l) (draw % length (x ∷ l)) i h

pub contains-pick :
    (draw i : ℕ) (ip : Option ℕ) (l : List ℕ) → pick draw ip l ≡ some i → contains i l ≡ true
unfolding pick
contains-pick draw i none l h = contains-choose draw i l h
contains-pick draw i (some ip) l h = ground arith

-- No reservation that a runner holds on the network has the address, unless it expired.
unfoldable pub Unheld : ℕ → String → String → ℕ → Reservations → Type 0
Unheld now runner_name network_name ip s =
    (key : String × ℕ) (r : IpReservation)
    → Item key r s.reservations
    → (key.0 ≡ network_name) × (r.runner_name ≡ runner_name) × (is_expired now r ≡ false)
    → r.ip ≢ ip

Item-reserved_ips :
    (now : ℕ) (runner_name network_name : String) (d : Dict (String × ℕ) IpReservation)
    (key : String × ℕ) (r : IpReservation)
    → Item key r d
    → (key.0 ≡ network_name) × (r.runner_name ≡ runner_name) × (is_expired now r ≡ false)
    → contains r.ip (reserved_ips now runner_name network_name d) ≡ true
unfolding reserved_ips contains
Item-reserved_ips now runner_name network_name [] key r i h = absurd i
Item-reserved_ips now runner_name network_name ((j, q) ∷ d) key r i h = ground (
  arith,
  Item-reserved_ips now runner_name network_name d key r,
  string_key.is_same_iff j.0 network_name,
  string_key.is_same_iff q.runner_name runner_name,
)

-- The address is in the runner's range, is not the host's, and nothing of the runner uses it.
unfoldable pub IsFree : ℕ → Network → String → String → ℕ → Reservations → Type 0
IsFree now network runner_name network_name ip s =
    (a : OverlayAllocation) × (first : ℕ) × (last : ℕ) × (host : ℕ) × (get runner_name
        network.allocations
      ≡ some a)
    × (get_container_ip_range network.subnet_config a.runner_id ≡ ok (first, last))
    × (get_host_ip_on_runner_subnet network.subnet_config a.runner_id ≡ ok host)
    × ((first ≤ ip) × (ip ≤ last) × (ip ≢ host))
    × (contains ip (used_at (runner_name, network_name) s.used_ips) ≡ false)
    × Unheld now runner_name network_name ip s

available_in-free :
    (now : ℕ) (s : Reservations) (runner_name network_name : String) (first last host ip : ℕ)
    → contains ip (available_in now s runner_name network_name first last host) ≡ true
    → ((first ≤ ip) × (ip ≤ last) × (ip ≢ host))
      × (contains ip (used_at (runner_name, network_name) s.used_ips) ≡ false)
      × (contains ip (reserved_ips now runner_name network_name s.reservations) ≡ false)
unfolding available_in
available_in-free now s runner_name network_name first last host ip h =
    let kept =
      contains-keep
        (λ i.
          not (
            contains i (reserved_ips now runner_name network_name s.reservations)
            || contains i (used_at (runner_name, network_name) s.used_ips))
          && not (i == host))
        (range_from first (last + 1 - first)) ip h in
    let bounds = contains-range_from (last + 1 - first) first ip kept.0 in
    ground (arith, kept.1, bounds)

err-ne-ok : (e : ValueError) (l : List ℕ) → ¬ (◌≡◌ {A = Result ValueError (List ℕ)} (err e) (ok l))
err-ne-ok e l h = cc

ok-nil :
    (ip : ℕ) (l : List ℕ)
    → ◌≡◌ {A = Result ValueError (List ℕ)} (ok []) (ok l)
    → ¬ (contains ip l ≡ true)
unfolding contains
ok-nil ip [] h c = cc
ok-nil ip (x ∷ l) h c = cc

ok-contains :
    (l m : List ℕ) (ip : ℕ)
    → ◌≡◌ {A = Result ValueError (List ℕ)} (ok l) (ok m)
    → contains ip m ≡ true
    → contains ip l ≡ true
ok-contains l m ip h c = cc

pub available_ips-IsFree :
    (now : ℕ) (s : Reservations) (network : Network) (runner_name network_name : String)
    (l : List ℕ) (ip : ℕ)
    → available_ips now s network runner_name network_name ≡ ok l
    → contains ip l ≡ true
    → IsFree now network runner_name network_name ip s
unfolding available_ips contains IsFree Unheld
available_ips-IsFree now s network runner_name network_name l ip h c =
    elim (Option-cases (get runner_name network.allocations)) [
      | inl missing ↦ absurd (ok-nil ip l (rw (missing, available_ips) at h) c)
      | inr (a, found) ↦
          elim (Result-cases (get_container_ip_range network.subnet_config a.runner_id)) [
            | inr (e, bad) ↦ absurd (err-ne-ok e l (rw (found, bad, available_ips) at h))
            | inl ((first, last), range) ↦
                elim (Result-cases
                  (get_host_ip_on_runner_subnet network.subnet_config a.runner_id)) [
                    | inr (e, bad) ↦
                        absurd (err-ne-ok e l (rw (found, range, bad, available_ips) at h))
                    | inl (host, at) ↦
                        let free =
                          available_in-free now s runner_name network_name first last host ip (
                            ok-contains
                              (available_in now s runner_name network_name first last host) l ip
                              (rw (found, range, at, available_ips) at h) c) in
                        (
                          a,
                          first,
                          last,
                          host,
                          found,
                          range,
                          at,
                          free.0,
                          free.1,
                          λ key r i q same. ground (
                            arith,
                            free.2,
                            Item-reserved_ips now runner_name network_name s.reservations key r i q,
                          ),
                        )
                  ]
          ]
    ]
