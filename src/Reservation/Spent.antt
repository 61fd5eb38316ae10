-- ===== src/Reservation/Spent.antt =====
-- src/kohakuriver/host/services/ip_reservation.py: a token whose reservation is used, under the calls
-- that issue no token.
use kohaku_river.Common.{
  ℕ, ◌≡◌, refl, sym, subst, ◌∙◌, inl, inr, Bool, true, false, not, ◌&&◌, Option, none, some, List,
  [], ◌∷◌, String, if◌then◌else◌, ◌==◌, nat_key, string_key, pair_key, keep, Dict, get, put, del,
  Bool-cases, Option-cases, get-del, get-put, Key, none-ne-some, some-injective,
}
use kohaku_river.Common.Result.{Result-cases}
use kohaku_river.Reservation.{
  Reservations, IpReservation, Network, is_used, is_expired, forget, forget_all, cleanup_expired,
  discard_used, add_used,
}
use kohaku_river.Reservation.Token.{Signer}
use kohaku_river.Overlay.Manager.{OverlayAllocation}
use kohaku_river.Reservation.Pool.{available_ips}
use kohaku_river.Reservation.Methods.{
  choose, bound_reservation, bind_container, allocate_on, auto_allocate_ip, validate_token,
  use_reservation, release_loop, release_by_container, release_by_token, mark_ip_used, mark_ip_free,
}

-- What the token names, if anything, is used.
unfoldable pub IsSpent : String → Reservations → Type 0
IsSpent token s =
    (key : String × ℕ) (r : IpReservation)
    → get token s.token_to_key ≡ some key
    → get key s.reservations ≡ some r
    → is_used r ≡ true

module _ {K V : Type 0} ⦃e : Key K⦄ where
  get-del-some : (j k : K) (d : Dict K V) (v : V) → get k (del j d) ≡ some v → get k d ≡ some v
  get-del-some j k d v h = elim (Bool-cases (j == k)) [
    | inl same ↦ absurd (none-ne-some v (rw (same) at (sym (get-del j k d) ∙ h)))
    | inr other ↦ rw (other) at (sym (get-del j k d) ∙ h)
  ]

module _ (token : String) where
  either :
      (b : Bool) (s s' : Reservations)
      → IsSpent token s
      → IsSpent token s'
      → IsSpent token (if b then s else s')
  either true s s' spent spent' = spent
  either false s s' spent spent' = spent'

  used_ips-IsSpent :
      (used_ips : Dict (String × String) (List ℕ)) (s : Reservations)
      → IsSpent token s
      → IsSpent token (record s { used_ips = used_ips })
  unfolding IsSpent
  used_ips-IsSpent used_ips s spent = spent

  del-IsSpent :
      (key : String × ℕ) (t : String) (s : Reservations)
      (used_ips : Dict (String × String) (List ℕ))
      → IsSpent token s
      → IsSpent token (record s {
        reservations = del key s.reservations;
        used_ips = used_ips;
        token_to_key = del t s.token_to_key;
      })
  unfolding IsSpent
  del-IsSpent key t s used_ips spent key' q h g =
      spent key' q (get-del-some t token s.token_to_key key' h)
        (get-del-some key key' s.reservations q g)

  forget-IsSpent :
      (key : String × ℕ) (r : IpReservation) (s : Reservations)
      → IsSpent token s
      → IsSpent token (forget key r s)
  unfolding forget
  forget-IsSpent key r s spent = del-IsSpent key r.token s s.used_ips spent

  forget_all-IsSpent :
      (items : List ((String × ℕ) × IpReservation)) (s : Reservations)
      → IsSpent token s
      → IsSpent token (forget_all items s)
  unfolding forget_all
  forget_all-IsSpent [] s spent = spent
  forget_all-IsSpent ((key, r) ∷ items) s spent =
      forget_all-IsSpent items (forget key r s) (forget-IsSpent key r s spent)

  pub cleanup_expired-IsSpent :
      (now : ℕ) (s : Reservations) → IsSpent token s → IsSpent token (cleanup_expired now s)
  unfolding cleanup_expired
  cleanup_expired-IsSpent now s spent =
      forget_all-IsSpent
        (keep (λ item. is_expired now item.1 && not (is_used item.1)) s.reservations) s spent

  -- A used reservation takes a key.
  put-IsSpent :
      (key : String × ℕ) (r : IpReservation) (s : Reservations)
      (used_ips : Dict (String × String) (List ℕ))
      → is_used r ≡ true
      → IsSpent token s
      → IsSpent token (record s { reservations = put key r s.reservations; used_ips = used_ips })
  unfolding IsSpent
  put-IsSpent key r s used_ips used spent key' q h g = elim (Bool-cases (key == key')) [
    | inl same ↦
        subst (λ x. is_used x ≡ true)
          (some-injective r q (rw (same) at (sym (get-put key key' r s.reservations) ∙ g))) used
    | inr other ↦ spent key' q h (rw (other) at (sym (get-put key key' r s.reservations) ∙ g))
  ]

  allocate_on-IsSpent :
      (now draw : ℕ) (network : Network) (a : OverlayAllocation) (runner net container_id : String)
      (s : Reservations)
      → IsSpent token s
      → IsSpent token (allocate_on now draw network a runner net container_id s).1
  unfolding allocate_on bind_container
  allocate_on-IsSpent now draw network a runner net container_id s spent =
      elim (Result-cases (available_ips now s network runner net)) [
        | inr (e, bad) ↦ rw (allocate_on, bad) spent
        | inl (l, free) ↦ elim (Option-cases (choose draw l)) [
          | inl out ↦ rw (allocate_on, free, out) spent
          | inr (ip, drawn) ↦
              rw (allocate_on, free, drawn)
                (put-IsSpent (net, ip)
                  (bound_reservation runner a.runner_id now net ip container_id) s
                  (add_used (runner, net) ip s.used_ips) refl spent)
        ]
      ]

  pub auto_allocate_ip-IsSpent :
      (now draw : ℕ) (network : Option Network) (runner net container_id : String)
      (s : Reservations)
      → IsSpent token s
      → IsSpent token (auto_allocate_ip now draw network runner net container_id s).1
  unfolding auto_allocate_ip
  auto_allocate_ip-IsSpent now draw none runner net container_id s spent =
      elim (Bool-cases (container_id == "")) [
        | inl empty ↦ rw (auto_allocate_ip, empty) spent
        | inr given ↦ rw (auto_allocate_ip, given) (cleanup_expired-IsSpent now s spent)
      ]
  auto_allocate_ip-IsSpent now draw (some network) runner net container_id s spent =
      let clean = cleanup_expired-IsSpent now s spent in
      elim (Bool-cases (container_id == "")) [
        | inl empty ↦ rw (auto_allocate_ip, empty) spent
        | inr given ↦ elim (Option-cases (get runner network.allocations)) [
          | inl missing ↦ rw (auto_allocate_ip, given, missing) clean
          | inr (a, found) ↦
              rw (auto_allocate_ip, given, found)
                (allocate_on-IsSpent now draw network a runner net container_id
                  (cleanup_expired now s) clean)
        ]
      ]

  pub use_reservation-IsSpent :
      (k : Signer) (now : ℕ) (t container_id : String) (er en : Option String) (s : Reservations)
      → IsSpent token s
      → IsSpent token (use_reservation k now t container_id er en s).1
  unfolding use_reservation
  use_reservation-IsSpent k now t container_id er en s spent =
      elim (Option-cases (validate_token k now t er en s)) [
        | inl bad ↦ rw (use_reservation, bad) spent
        | inr (r, good) ↦ elim (Option-cases (get t s.token_to_key)) [
          | inl missing ↦ rw (use_reservation, good, missing) spent
          | inr (key, found) ↦
              rw (use_reservation, good, found)
                (put-IsSpent key (record r { container_id = some container_id }) s
                  (add_used (r.runner_name, r.network_name) r.ip s.used_ips) refl spent)
        ]
      ]

  pub release_loop-IsSpent :
      (container_id : String) (items : List ((String × ℕ) × IpReservation)) (released : List ℕ)
      (s : Reservations)
      → IsSpent token s
      → IsSpent token (release_loop container_id items released s).1
  unfolding release_loop
  release_loop-IsSpent container_id [] released s spent = spent
  release_loop-IsSpent container_id ((key, r) ∷ items) released s spent =
      let mine : Bool = elim r.container_id [ none ↦ false | some c ↦ c == container_id ] in
      let cleared : Reservations = record s {
        used_ips = discard_used (r.runner_name, r.network_name) r.ip s.used_ips;
      } in
      release_loop-IsSpent container_id items _ _ (
        either mine (forget key r cleared) s
          (forget-IsSpent key r cleared (used_ips-IsSpent _ s spent)) spent)

  pub release_by_container-IsSpent :
      (container_id : String) (s : Reservations)
      → IsSpent token s
      → IsSpent token (release_by_container container_id s).1
  unfolding release_by_container
  release_by_container-IsSpent container_id s spent =
      release_loop-IsSpent container_id s.reservations [] s spent

  pub release_by_token-IsSpent :
      (t : String) (s : Reservations) → IsSpent token s → IsSpent token (release_by_token t s).1
  unfolding release_by_token
  release_by_token-IsSpent t s spent = elim (Option-cases (get t s.token_to_key)) [
    | inl missing ↦ rw (release_by_token, missing) spent
    | inr (key, found) ↦ elim (Option-cases (get key s.reservations)) [
      | inl gone ↦ rw (release_by_token, found, gone) spent
      | inr (r, held) ↦ elim (Bool-cases (is_used r)) [
        | inl used ↦ rw (release_by_token, found, held, used) spent
        | inr unused ↦
            rw (release_by_token, found, held, unused) (del-IsSpent key t s s.used_ips spent)
      ]
    ]
  ]

  pub mark_ip_used-IsSpent :
      (runner : String) (ip : ℕ) (net : String) (s : Reservations)
      → IsSpent token s
      → IsSpent token (mark_ip_used runner ip net s)
  unfolding mark_ip_used
  mark_ip_used-IsSpent runner ip net s spent =
      used_ips-IsSpent (add_used (runner, net) ip s.used_ips) s spent

  pub mark_ip_free-IsSpent :
      (runner : String) (ip : ℕ) (net : String) (s : Reservations)
      → IsSpent token s
      → IsSpent token (mark_ip_free runner ip net s)
  unfolding mark_ip_free forget
  mark_ip_free-IsSpent runner ip net s spent =
      let used = discard_used (runner, net) ip s.used_ips in
      elim (Option-cases (get (net, ip) s.reservations)) [
        | inl free ↦ rw (mark_ip_free, free) (used_ips-IsSpent used s spent)
        | inr (r, held) ↦ rw (mark_ip_free, held) (del-IsSpent (net, ip) r.token s used spent)
      ]
