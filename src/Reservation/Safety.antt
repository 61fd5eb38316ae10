-- ===== src/Reservation/Safety.antt =====
-- What `reserve_ip` and `auto_allocate_ip` promise of the address that they hand out.
use kohaku_river.Common.{
  ℕ, ◌+◌, ◌*◌, ◌≡◌, refl, sym, ap, subst, ◌∙◌, inl, inr, true, Option, none, some, List, arith,
  String, ◌==◌, nat_key, string_key, pair_key, contains, get, Bool-cases, Option-cases, same_refl,
  get-put_same,
}
use kohaku_river.Common.Result.{Result, ok, err, Result-cases}
use kohaku_river.Reservation.Pool.{available_ips}
use kohaku_river.Reservation.{Reservations, IpReservation, Network, used_at, cleanup_expired}
use kohaku_river.Reservation.Methods.{
  choose, pick, reserve_on, reserve_ip, enter, new_reservation, effective_ttl, auto_allocate_ip,
  allocate_on, bind_container, bound_reservation,
}
use kohaku_river.Reservation.Token.{Signer, microseconds, generate_token}
use kohaku_river.Overlay.Manager.{OverlayAllocation}
use kohaku_river.Overlay.Subnet.{ValueError, container_id_required}
use kohaku_river.Reservation.Sets.{used_at-add_used}
use kohaku_river.Reservation.Free.{IsFree, available_ips-IsFree, contains-pick, contains-choose}

pick-requested : (draw i ip : ℕ) (l : List ℕ) → pick draw (some ip) l ≡ some i → i ≡ ip
unfolding pick contains
pick-requested draw i ip l h = ground arith

abbrev Answer : Type 0
Answer = Result ValueError (Option IpReservation) × Reservations

-- Neither a refusal nor an exception is an answer with a reservation.
refused :
    (s s' : Reservations) (r : IpReservation) → ¬ (◌≡◌ {A = Answer} (ok none, s) (ok (some r), s'))
refused s s' r h = cc

raised :
    (e : ValueError) (s s' : Reservations) (r : IpReservation)
    → ¬ (◌≡◌ {A = Answer} (err e, s) (ok (some r), s'))
raised e s s' r h = cc

answered :
    (s s' t : Reservations) (q r : IpReservation)
    → ◌≡◌ {A = Answer} (ok (some q), t) (ok (some r), s')
    → (r ≡ q) × (s' ≡ t)
answered s s' t q r h = (cc, cc)

-- A reservation that answers a request, and the state that holds it.
abbrev pub Reserved :
    Signer
    → ℕ
    → ℕ
    → Network
    → String
    → String
    → Option ℕ
    → Option ℕ
    → Reservations
    → Reservations
    → IpReservation
    → Type 0
Reserved k default_ttl now network runner_name network_name ip ttl s s' r =
    IsFree now network runner_name network_name r.ip (cleanup_expired now s)
    × (get (network_name, r.ip) s'.reservations ≡ some r)
    × (get r.token s'.token_to_key ≡ some (network_name, r.ip))
    × (r.container_id ≡ none)
    × (r.expires_at ≡ now + effective_ttl default_ttl ttl * microseconds)
    × (r.token ≡ generate_token k r.ip runner_name r.expires_at network_name)
    × ((wanted : ℕ) → ip ≡ some wanted → r.ip ≡ wanted)
    × ((r.runner_name ≡ runner_name) × (r.network_name ≡ network_name))

module _ (k : Signer) (default_ttl : ℕ) where
  reserve_on-IsFree :
      (now draw : ℕ) (network : Network) (a : OverlayAllocation) (runner_name network_name : String)
      (ip ttl : Option ℕ) (s s' : Reservations) (r : IpReservation)
      → reserve_on k default_ttl now draw network a runner_name network_name ip ttl s
        ≡ (ok (some r), s')
      → IsFree now network runner_name network_name r.ip s
        × (r
            ≡ new_reservation k default_ttl now runner_name a.runner_id network_name r.ip
                (effective_ttl default_ttl ttl))
        × (s' ≡ enter k default_ttl r s)
        × ((wanted : ℕ) → ip ≡ some wanted → r.ip ≡ wanted)
  unfolding reserve_on new_reservation
  reserve_on-IsFree now draw network a runner_name network_name ip ttl s s' r h =
      elim (Result-cases (available_ips now s network runner_name network_name)) [
        | inr (e, bad) ↦ absurd (raised e s s' r (rw (bad, reserve_on) at h))
        | inl (l, free) ↦ elim (Option-cases (pick draw ip l)) [
          | inl out ↦ absurd (refused s s' r (rw (free, out, reserve_on) at h))
          | inr (chosen, drawn) ↦
              let q =
                new_reservation k default_ttl now runner_name a.runner_id network_name chosen
                  (effective_ttl default_ttl ttl) in
              let same =
                answered s s' (enter k default_ttl q s) q r (rw (free, drawn, reserve_on) at h) in
              subst
                (λ x.
                  IsFree now network runner_name network_name x.ip s
                  × (x
                      ≡ new_reservation k default_ttl now runner_name a.runner_id network_name x.ip
                          (effective_ttl default_ttl ttl))
                  × (s' ≡ enter k default_ttl x s)
                  × ((wanted : ℕ) → ip ≡ some wanted → x.ip ≡ wanted))
                (sym same.0)
                (
                  available_ips-IsFree now s network runner_name network_name l chosen free
                      (contains-pick draw chosen ip l drawn),
                  refl,
                  same.1,
                  λ wanted asked.
                      pick-requested draw chosen wanted l
                        (subst (λ o. pick draw o l ≡ some chosen) asked drawn),
                )
        ]
      ]

  -- The address of a reservation that `reserve_ip` returns lies in the runner's range, is not the
  -- host's address and, in the state that the expired reservations have left, was neither in use by
  -- the runner nor reserved for it. It is the one asked for when one is asked for, and the
  -- reservation stands under its address and its token.
  pub reserve_ip-free :
      (now draw : ℕ) (network : Network) (runner_name network_name : String) (ip ttl : Option ℕ)
      (s s' : Reservations) (r : IpReservation)
      → reserve_ip k default_ttl now draw (some network) runner_name network_name ip ttl s
        ≡ (ok (some r), s')
      → Reserved k default_ttl now network runner_name network_name ip ttl s s' r
  unfolding reserve_ip enter new_reservation
  reserve_ip-free now draw network runner_name network_name ip ttl s s' r h =
      elim (Option-cases (get runner_name network.allocations)) [
        | inl missing ↦
            absurd (refused (cleanup_expired now s) s' r (rw (missing, reserve_ip) at h))
        | inr (a, found) ↦
            let p =
              reserve_on-IsFree now draw network a runner_name network_name ip ttl
                (cleanup_expired now s) s' r (rw (found, reserve_ip) at h) in
            let on : r.network_name ≡ network_name = ap (λ x. x.network_name) p.1 in
            (
              p.0,
              subst (λ n. get (n, r.ip) s'.reservations ≡ some r) on
                  (subst (λ t. get (r.network_name, r.ip) t.reservations ≡ some r) (sym p.2)
                    (get-put_same (r.network_name, r.ip) r (cleanup_expired now s).reservations)),
              subst (λ n. get r.token s'.token_to_key ≡ some (n, r.ip)) on
                  (subst (λ t. get r.token t.token_to_key ≡ some (r.network_name, r.ip)) (sym p.2)
                    (get-put_same r.token (r.network_name, r.ip)
                      (cleanup_expired now s).token_to_key)),
              ap (λ x. x.container_id) p.1,
              ap (λ x. x.expires_at) p.1,
              ap (λ x. x.token) p.1
                  ∙ ap (λ t. generate_token k r.ip runner_name t network_name)
                      (sym (ap (λ x. x.expires_at) p.1)),
              p.3,
              (ap (λ x. x.runner_name) p.1, on),
            )
      ]

abbrev Given : Type 0
Given = Result ValueError (Option ℕ) × Reservations

refused_ip : (s s' : Reservations) (i : ℕ) → ¬ (◌≡◌ {A = Given} (ok none, s) (ok (some i), s'))
refused_ip s s' i h = cc

raised_ip :
    (e : ValueError) (s s' : Reservations) (i : ℕ)
    → ¬ (◌≡◌ {A = Given} (err e, s) (ok (some i), s'))
raised_ip e s s' i h = cc

given_ip :
    (s s' t : Reservations) (i j : ℕ)
    → ◌≡◌ {A = Given} (ok (some j), t) (ok (some i), s')
    → (i ≡ j) × (s' ≡ t)
given_ip s s' t i j h = (cc, cc)

allocate_on-IsFree :
    (now draw : ℕ) (network : Network) (a : OverlayAllocation)
    (runner_name network_name container_id : String) (s s' : Reservations) (i : ℕ)
    → allocate_on now draw network a runner_name network_name container_id s ≡ (ok (some i), s')
    → IsFree now network runner_name network_name i s
      × (s' ≡ bind_container runner_name a.runner_id now network_name i container_id s)
unfolding allocate_on
allocate_on-IsFree now draw network a runner_name network_name container_id s s' i h =
    elim (Result-cases (available_ips now s network runner_name network_name)) [
      | inr (e, bad) ↦ absurd (raised_ip e s s' i (rw (bad, allocate_on) at h))
      | inl (l, free) ↦ elim (Option-cases (choose draw l)) [
        | inl out ↦ absurd (refused_ip s s' i (rw (free, out, allocate_on) at h))
        | inr (j, drawn) ↦
            let same =
              given_ip s s'
                (bind_container runner_name a.runner_id now network_name j container_id s) i j
                (rw (free, drawn, allocate_on) at h) in
            subst
              (λ x.
                IsFree now network runner_name network_name x s
                × (s' ≡ bind_container runner_name a.runner_id now network_name x container_id s))
              (sym same.0)
              (
                available_ips-IsFree now s network runner_name network_name l j free
                    (contains-choose draw j l drawn),
                same.1,
              )
      ]
    ]

-- A free address that now is a container's, and in use.
abbrev pub Allocated :
    ℕ → Network → String → String → String → Reservations → Reservations → ℕ → Type 0
Allocated now network runner_name network_name container_id s s' i =
    IsFree now network runner_name network_name i (cleanup_expired now s)
    × (contains i (used_at (runner_name, network_name) s'.used_ips) ≡ true)
    × (r : IpReservation) × (get (network_name, i) s'.reservations ≡ some r)
    × (r.container_id ≡ some container_id)
    × (r.runner_name ≡ runner_name)
    × (r.ip ≡ i)

-- An address that `auto_allocate_ip` returns lies in the runner's range, is not the host's address
-- and, in the state that the expired reservations have left, was neither in use by the runner nor
-- reserved for it. Afterwards it is in use for the runner, and its reservation is bound to the
-- container.
pub auto_allocate_ip-free :
    (now draw : ℕ) (network : Network) (runner_name network_name container_id : String)
    (s s' : Reservations) (i : ℕ)
    → auto_allocate_ip now draw (some network) runner_name network_name container_id s
      ≡ (ok (some i), s')
    → Allocated now network runner_name network_name container_id s s' i
unfolding auto_allocate_ip bind_container
auto_allocate_ip-free now draw network runner_name network_name container_id s s' i h =
    elim (Bool-cases (container_id == "")) [
      | inl empty ↦
          absurd (raised_ip container_id_required s s' i (rw (empty, auto_allocate_ip) at h))
      | inr given ↦ elim (Option-cases (get runner_name network.allocations)) [
        | inl missing ↦
            absurd
              (refused_ip (cleanup_expired now s) s' i (rw (given, missing, auto_allocate_ip) at h))
        | inr (a, found) ↦
            let p =
              allocate_on-IsFree now draw network a runner_name network_name container_id
                (cleanup_expired now s) s' i (rw (given, found, auto_allocate_ip) at h) in
            (
              p.0,
              subst (λ t. contains i (used_at (runner_name, network_name) t.used_ips) ≡ true)
                  (sym p.1)
                  (ground (
                    arith,
                    used_at-add_used (runner_name, network_name) (runner_name, network_name) i i
                        (cleanup_expired now s).used_ips,
                    same_refl runner_name,
                    same_refl network_name,
                    same_refl i,
                  )),
              bound_reservation runner_name a.runner_id now network_name i container_id,
              subst
                  (λ t.
                    get (network_name, i) t.reservations
                    ≡ some
                        (bound_reservation runner_name a.runner_id now network_name i container_id))
                  (sym p.1)
                  (get-put_same (network_name, i)
                    (bound_reservation runner_name a.runner_id now network_name i container_id)
                    (cleanup_expired now s).reservations),
              refl,
              refl,
              refl,
            )
      ]
    ]
