-- ===== src/Reservation/Soundness.antt =====
-- The invariant of the reservation tables, and how single changes preserve it.
use kohaku_river.Common.{
  ℕ, ◌≡◌, ◌≢◌, inl, inr, true, not, ◌&&◌, none, some, List, [], ◌∷◌, arith, String, ◌==◌, nat_key,
  string_key, pair_key, keep, contains, Dict, get, put, del, Bool-cases, same_refl, get-put,
  get-del, Unique, put-Unique, del-Unique, pair_beq_iff,
}
use kohaku_river.Reservation.{
  Reservations, IpReservation, used_at, is_expired, cleanup_expired, is_used, forget, forget_all,
  add_used, discard_used,
}
use kohaku_river.Reservation.Methods.{bind_container, bound_reservation, enter}
use kohaku_river.Reservation.Token.{Signer}
use kohaku_river.Reservation.Sets.{used_at-add_used, used_at-discard_used}

abbrev pub key_of : IpReservation → String × ℕ
key_of r = (r.network_name, r.ip)

-- A reservation that is bound to a container has its address among the used ones.
abbrev IsTracked : IpReservation → Dict (String × String) (List ℕ) → Type 0
IsTracked r used =
    is_used r ≡ true → contains r.ip (used_at (r.runner_name, r.network_name) used) ≡ true

-- A key stands in one entry, for a reservation of that key whose use is tracked.
pub record IsSound (s : Reservations) : Type 0 where
  pub unique : Unique s.reservations
  pub keyed :
      (key : String × ℕ) (r : IpReservation) → get key s.reservations ≡ some r → key ≡ key_of r
  pub tracked :
      (key : String × ℕ) (r : IpReservation)
      → get key s.reservations ≡ some r
      → IsTracked r s.used_ips

-- A reservation that is sound by itself may take the place of another.
pub put-IsSound :
    (r : IpReservation) (s : Reservations) (tokens : Dict String (String × ℕ))
    (used : Dict (String × String) (List ℕ))
    → IsSound s
    → IsTracked r used
    → ((q : IpReservation) → IsTracked q s.used_ips → IsTracked q used)
    → IsSound (record {
      reservations = put (key_of r) r s.reservations;
      token_to_key = tokens;
      used_ips = used;
    })
put-IsSound r s tokens used sound t more = record {
  unique = put-Unique (key_of r) r s.reservations sound.unique;
  keyed = λ key q h. ground (
    arith,
    get-put (key_of r) key r s.reservations,
    sound.keyed key q,
    pair_beq_iff (key_of r) key,
  );
  tracked = λ key q h. elim (Bool-cases (key_of r == key)) [
    | inl same ↦ ground (arith, get-put (key_of r) key r s.reservations)
    | inr other ↦
        more q (sound.tracked key q (ground (arith, get-put (key_of r) key r s.reservations)))
  ];
}

-- A removal, with the address taken out of the runner's used ones or not.
pub del-IsSound :
    (key : String × ℕ) (s : Reservations) (tokens : Dict String (String × ℕ))
    (used : Dict (String × String) (List ℕ))
    → IsSound s
    → ((q : IpReservation) → key_of q ≢ key → IsTracked q s.used_ips → IsTracked q used)
    → IsSound
        (record { reservations = del key s.reservations; token_to_key = tokens; used_ips = used })
del-IsSound key s tokens used sound less = record {
  unique = del-Unique key s.reservations sound.unique;
  keyed = λ j q h. ground (arith, get-del key j s.reservations, sound.keyed j q);
  tracked = λ j q h. elim (Bool-cases (key == j)) [
    | inl same ↦ ground (arith, get-del key j s.reservations)
    | inr other ↦
        let held : get j s.reservations ≡ some q = ground (arith, get-del key j s.reservations) in
        less q (λ e. ground (arith, sound.keyed j q held, pair_beq_iff key j))
          (sound.tracked j q held)
  ];
}

pub add_used-IsTracked :
    (key : String × String) (ip : ℕ) (used : Dict (String × String) (List ℕ)) (q : IpReservation)
    → IsTracked q used
    → IsTracked q (add_used key ip used)
add_used-IsTracked key ip used q t h =
    ground (arith, t h, used_at-add_used key (q.runner_name, q.network_name) ip q.ip used)

pub discard_used-IsTracked :
    (runner_name network_name : String) (ip : ℕ) (used : Dict (String × String) (List ℕ))
    (q : IpReservation)
    → key_of q ≢ (network_name, ip)
    → IsTracked q used
    → IsTracked q (discard_used (runner_name, network_name) ip used)
discard_used-IsTracked runner_name network_name ip used q ne t h = ground (
  arith,
  t h,
  ne,
  used_at-discard_used (runner_name, network_name) (q.runner_name, q.network_name) ip q.ip used,
  string_key.is_same_iff network_name q.network_name,
)

forget_all-IsSound :
    (items : List ((String × ℕ) × IpReservation)) (s : Reservations)
    → IsSound s
    → IsSound (forget_all items s)
unfolding forget_all forget
forget_all-IsSound [] s sound = sound
forget_all-IsSound ((key, r) ∷ items) s sound =
    forget_all-IsSound items (forget key r s)
      (del-IsSound key s (del r.token s.token_to_key) s.used_ips sound (λ q ne t. t))

pub cleanup_expired-IsSound :
    (now : ℕ) (s : Reservations) → IsSound s → IsSound (cleanup_expired now s)
unfolding cleanup_expired
cleanup_expired-IsSound now s sound =
    forget_all-IsSound (keep (λ item. is_expired now item.1 && not (is_used item.1)) s.reservations)
      s sound

pub enter-IsSound :
    (k : Signer) (default_ttl : ℕ) (r : IpReservation) (s : Reservations)
    → r.container_id ≡ none
    → IsSound s
    → IsSound (enter k default_ttl r s)
unfolding enter
enter-IsSound k default_ttl r s free sound =
    put-IsSound r s (put r.token (key_of r) s.token_to_key) s.used_ips sound
      (λ u. ground (arith, free)) (λ q t. t)

pub bind_container-IsSound :
    (runner_name : String) (runner_id now : ℕ) (network_name : String) (ip : ℕ)
    (container_id : String) (s : Reservations)
    → IsSound s
    → IsSound (bind_container runner_name runner_id now network_name ip container_id s)
unfolding bind_container
bind_container-IsSound runner_name runner_id now network_name ip container_id s sound =
    put-IsSound (bound_reservation runner_name runner_id now network_name ip container_id) s
      s.token_to_key (add_used (runner_name, network_name) ip s.used_ips) sound
      (λ u. ground (
        arith,
        used_at-add_used (runner_name, network_name) (runner_name, network_name) ip ip s.used_ips,
        same_refl runner_name,
        same_refl network_name,
        same_refl ip,
      ))
      (add_used-IsTracked (runner_name, network_name) ip s.used_ips)
