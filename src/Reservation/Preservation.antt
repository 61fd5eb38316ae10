-- ===== src/Reservation/Preservation.antt =====
-- Every method preserves the invariant of the tables.
use kohaku_river.Common.{
  ℕ, ◌≡◌, refl, sym, ap, ◌∙◌, ◌≢◌, inl, inr, Bool, true, false, Option, none, some, List, [], ◌∷◌,
  arith, String, if◌then◌else◌, ◌==◌, nat_key, string_key, pair_key, get, del, Bool-cases,
  Option-cases, same_refl, Item, Item-get,
}
use kohaku_river.Common.Result.{Result-cases}
use kohaku_river.Reservation.{
  Reservations, IpReservation, Network, cleanup_expired, is_used, forget, add_used, discard_used,
}
use kohaku_river.Reservation.Methods.{
  reserve_ip, validate_token, use_reservation, release_by_token, release_by_container, mark_ip_used,
  mark_ip_free, auto_allocate_ip, release_loop, reserve_on, allocate_on, new_reservation, pick,
  choose, effective_ttl,
}
use kohaku_river.Reservation.Token.{Signer}
use kohaku_river.Reservation.Sets.{used_at-add_used}
use kohaku_river.Reservation.Lifecycle.{validate_token-cases}
use kohaku_river.Overlay.Manager.{OverlayAllocation}
use kohaku_river.Reservation.Pool.{available_ips}
use kohaku_river.Reservation.Soundness.{
  IsSound, key_of, del-IsSound, add_used-IsTracked, discard_used-IsTracked, enter-IsSound,
  cleanup_expired-IsSound, bind_container-IsSound, put-IsSound,
}

if-IsSound : (b : Bool) (t u : Reservations) → IsSound t → IsSound u → IsSound (if b then t else u)
if-IsSound true t u left right = left
if-IsSound false t u left right = right

release_loop-IsSound :
    (container_id : String) (items : List ((String × ℕ) × IpReservation)) (released : List ℕ)
    (s : Reservations)
    → ((key : String × ℕ) (r : IpReservation) → Item key r items → key ≡ key_of r)
    → IsSound s
    → IsSound (release_loop container_id items released s).1
unfolding release_loop forget
release_loop-IsSound container_id [] released s keyed sound = sound
release_loop-IsSound container_id ((key, r) ∷ items) released s keyed sound =
    release_loop-IsSound container_id items _ _ (λ j q i. keyed j q (inr i))
      (if-IsSound (elim r.container_id [ none ↦ false | some c ↦ c == container_id ])
        (forget key r
          (record s { used_ips = discard_used (r.runner_name, r.network_name) r.ip s.used_ips }))
        s
        (del-IsSound key s (del r.token s.token_to_key)
          (discard_used (r.runner_name, r.network_name) r.ip s.used_ips) sound
          (λ q ne t.
            discard_used-IsTracked r.runner_name r.network_name r.ip s.used_ips q
              (λ e. ne (e ∙ sym (keyed key r (inl (refl, refl))))) t))
        sound)

some-ne-none : (q : IpReservation) → some q ≢ none
some-ne-none q h = cc

pub mark_ip_used-IsSound :
    (runner_name : String) (ip : ℕ) (network_name : String) (s : Reservations)
    → IsSound s
    → IsSound (mark_ip_used runner_name ip network_name s)
unfolding mark_ip_used
mark_ip_used-IsSound runner_name ip network_name s sound = record {
  unique = sound.unique;
  keyed = sound.keyed;
  tracked = λ key q h.
      add_used-IsTracked (runner_name, network_name) ip s.used_ips q (sound.tracked key q h);
}

pub mark_ip_free-IsSound :
    (runner_name : String) (ip : ℕ) (network_name : String) (s : Reservations)
    → IsSound s
    → IsSound (mark_ip_free runner_name ip network_name s)
unfolding mark_ip_free forget
mark_ip_free-IsSound runner_name ip network_name s sound =
    elim (Option-cases (get (network_name, ip) s.reservations)) [
      | inl free ↦
          rw (mark_ip_free, free)
            (record {
              unique = sound.unique;
              keyed = sound.keyed;
              tracked = λ key q h.
                  discard_used-IsTracked runner_name network_name ip s.used_ips q
                    (λ e.
                      some-ne-none q
                        (sym h ∙ ap (λ j. get j s.reservations) (sound.keyed key q h ∙ e) ∙ free))
                    (sound.tracked key q h);
            })
      | inr (r, held) ↦
          rw (mark_ip_free, held)
            (del-IsSound (network_name, ip) s (del r.token s.token_to_key)
              (discard_used (runner_name, network_name) ip s.used_ips) sound
              (discard_used-IsTracked runner_name network_name ip s.used_ips))
    ]

pub release_by_token-IsSound :
    (token : String) (s : Reservations) → IsSound s → IsSound (release_by_token token s).1
unfolding release_by_token
release_by_token-IsSound token s sound = elim (Option-cases (get token s.token_to_key)) [
  | inl missing ↦ rw (release_by_token, missing) sound
  | inr (key, found) ↦ elim (Option-cases (get key s.reservations)) [
    | inl gone ↦ rw (release_by_token, found, gone) sound
    | inr (r, held) ↦ elim (Bool-cases (is_used r)) [
      | inl used ↦ rw (release_by_token, found, held, used) sound
      | inr unused ↦
          rw (release_by_token, found, held, unused)
            (del-IsSound key s (del token s.token_to_key) s.used_ips sound (λ q ne t. t))
    ]
  ]
]

reserve_on-IsSound :
    (k : Signer) (default_ttl now draw : ℕ) (network : Network) (a : OverlayAllocation)
    (runner_name network_name : String) (ip ttl : Option ℕ) (s : Reservations)
    → IsSound s
    → IsSound (reserve_on k default_ttl now draw network a runner_name network_name ip ttl s).1
unfolding reserve_on new_reservation
reserve_on-IsSound k default_ttl now draw network a runner_name network_name ip ttl s sound =
    elim (Result-cases (available_ips now s network runner_name network_name)) [
      | inr (e, bad) ↦ rw (reserve_on, bad) sound
      | inl (l, free) ↦ elim (Option-cases (pick draw ip l)) [
        | inl out ↦ rw (reserve_on, free, out) sound
        | inr (chosen, drawn) ↦
            rw (reserve_on, free, drawn)
              (enter-IsSound k default_ttl
                (new_reservation k default_ttl now runner_name a.runner_id network_name chosen
                  (effective_ttl default_ttl ttl))
                s refl sound)
      ]
    ]

pub reserve_ip-IsSound :
    (k : Signer) (default_ttl now draw : ℕ) (network : Option Network)
    (runner_name network_name : String) (ip ttl : Option ℕ) (s : Reservations)
    → IsSound s
    → IsSound (reserve_ip k default_ttl now draw network runner_name network_name ip ttl s).1
unfolding reserve_ip
reserve_ip-IsSound k default_ttl now draw none runner_name network_name ip ttl s sound =
    cleanup_expired-IsSound now s sound
reserve_ip-IsSound k default_ttl now draw (some net) runner_name network_name ip ttl s sound =
    elim (Option-cases (get runner_name net.allocations)) [
      | inl missing ↦ rw (reserve_ip, missing) (cleanup_expired-IsSound now s sound)
      | inr (a, found) ↦
          rw (reserve_ip, found)
            (reserve_on-IsSound k default_ttl now draw net a runner_name network_name ip ttl
              (cleanup_expired now s) (cleanup_expired-IsSound now s sound))
    ]

allocate_on-IsSound :
    (now draw : ℕ) (network : Network) (a : OverlayAllocation)
    (runner_name network_name container_id : String) (s : Reservations)
    → IsSound s
    → IsSound (allocate_on now draw network a runner_name network_name container_id s).1
unfolding allocate_on
allocate_on-IsSound now draw network a runner_name network_name container_id s sound =
    elim (Result-cases (available_ips now s network runner_name network_name)) [
      | inr (e, bad) ↦ rw (allocate_on, bad) sound
      | inl (l, free) ↦ elim (Option-cases (choose draw l)) [
        | inl out ↦ rw (allocate_on, free, out) sound
        | inr (chosen, drawn) ↦
            rw (allocate_on, free, drawn)
              (bind_container-IsSound runner_name a.runner_id now network_name chosen container_id s
                sound)
      ]
    ]

pub auto_allocate_ip-IsSound :
    (now draw : ℕ) (network : Option Network) (runner_name network_name container_id : String)
    (s : Reservations)
    → IsSound s
    → IsSound (auto_allocate_ip now draw network runner_name network_name container_id s).1
unfolding auto_allocate_ip
auto_allocate_ip-IsSound now draw none runner_name network_name container_id s sound =
    elim (Bool-cases (container_id == "")) [
      | inl empty ↦ rw (auto_allocate_ip, empty) sound
      | inr given ↦ rw (auto_allocate_ip, given) (cleanup_expired-IsSound now s sound)
    ]
auto_allocate_ip-IsSound now draw (some net) runner_name network_name container_id s sound =
    elim (Bool-cases (container_id == "")) [
      | inl empty ↦ rw (auto_allocate_ip, empty) sound
      | inr given ↦ elim (Option-cases (get runner_name net.allocations)) [
        | inl missing ↦ rw (auto_allocate_ip, given, missing) (cleanup_expired-IsSound now s sound)
        | inr (a, found) ↦
            rw (auto_allocate_ip, given, found)
              (allocate_on-IsSound now draw net a runner_name network_name container_id
                (cleanup_expired now s) (cleanup_expired-IsSound now s sound))
      ]
    ]

pub use_reservation-IsSound :
    (k : Signer) (now : ℕ) (token container_id : String) (er en : Option String) (s : Reservations)
    → IsSound s
    → IsSound (use_reservation k now token container_id er en s).1
unfolding use_reservation
use_reservation-IsSound k now token container_id er en s sound =
    elim (Option-cases (validate_token k now token er en s)) [
      | inl bad ↦ rw (use_reservation, bad) sound
      | inr (r, good) ↦ elim (Option-cases (get token s.token_to_key)) [
        | inl missing ↦ rw (use_reservation, good, missing) sound
        | inr (key, found) ↦
            let held = validate_token-cases k now token er en r key s good found in
            rw (use_reservation, good, found, sound.keyed key r held.0)
              (put-IsSound (record r { container_id = some container_id }) s s.token_to_key
                (add_used (r.runner_name, r.network_name) r.ip s.used_ips) sound
                (λ u. ground (
                  arith,
                  used_at-add_used (r.runner_name, r.network_name) (r.runner_name, r.network_name)
                      r.ip r.ip s.used_ips,
                  same_refl r.runner_name,
                  same_refl r.network_name,
                  same_refl r.ip,
                ))
                (add_used-IsTracked (r.runner_name, r.network_name) r.ip s.used_ips))
      ]
    ]

pub release_by_container-IsSound :
    (container_id : String) (s : Reservations)
    → IsSound s
    → IsSound (release_by_container container_id s).1
unfolding release_by_container
release_by_container-IsSound container_id s sound =
    release_loop-IsSound container_id s.reservations [] s
      (λ key r i. sound.keyed key r (Item-get key r s.reservations sound.unique i)) sound
