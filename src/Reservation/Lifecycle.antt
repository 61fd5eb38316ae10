-- ===== src/Reservation/Lifecycle.antt =====
-- src/kohakuriver/host/services/ip_reservation.py, the life of a token: its issue, its use and its
-- release.
use kohaku_river.Common.{
  ℕ, ◌+◌, ◌*◌, ◌/◌, ◌≤◌, ◌≡◌, refl, sym, ap, subst, ◌∙◌, inl, inr, Bool, true, false, ◌||◌, Option,
  none, some, arith, String, if◌then◌else◌, nat_key, string_key, pair_key, contains, get, put,
  Option-cases, some-injective, false-ne-true, same_refl, get-del, get-put_same,
}
use kohaku_river.Common.Result.{ok}
use kohaku_river.Reservation.{Reservations, IpReservation, Network, used_at, is_used, add_used}
use kohaku_river.Reservation.Methods.{
  reserve_ip, validate_token, use_reservation, release_by_token, mismatch, effective_ttl,
}
use kohaku_river.Reservation.Spent.{IsSpent}
use kohaku_river.Reservation.Token.{
  Signer, IsFaithful, microseconds, generate_token, verify_token, Payload, payload_of,
}
use kohaku_river.Reservation.Safety.{reserve_ip-free}
use kohaku_river.Reservation.Sets.{used_at-add_used}

mismatch-same : (value : String) → mismatch (some value) value ≡ false
mismatch-same value = ground (arith, same_refl value)

abbrev Used : Type 0
Used = Option ℕ × Reservations

not_used : (s s' : Reservations) (i : ℕ) → ¬ (◌≡◌ {A = Used} (none, s) (some i, s'))
not_used s s' i h = cc

now_used :
    (s' t : Reservations) (i j : ℕ) → ◌≡◌ {A = Used} (some j, t) (some i, s') → (i ≡ j) × (s' ≡ t)
now_used s' t i j h = (cc, cc)

checked :
    (a b : Bool) (q r : IpReservation)
    → (if a || b || is_used q then none else some q) ≡ some r
    → (q ≡ r) × (is_used q ≡ false)
checked a b q r h = ground arith

release_by_token-forgets :
    (token : String) (s : Reservations)
    → (release_by_token token s).0 ≡ true
    → get token (release_by_token token s).1.token_to_key ≡ none
unfolding release_by_token
release_by_token-forgets token s h =
    ground (arith, get-del token token s.token_to_key, same_refl token)

release_by_token-unknown :
    (token : String) (s : Reservations)
    → get token s.token_to_key ≡ none
    → release_by_token token s ≡ (false, s)
unfolding release_by_token
release_by_token-unknown token s h = rw (release_by_token, h) refl

module _ (k : Signer) where
  verify_token-generate_token :
      (later ip expires_at : ℕ) (runner_name network_name : String)
      → IsFaithful k (payload_of ip runner_name expires_at network_name)
      → later ≤ expires_at / microseconds * microseconds
      → (p : Payload) × (verify_token k later
            (generate_token k ip runner_name expires_at network_name)
          ≡ some p)
  unfolding verify_token generate_token
  verify_token-generate_token later ip expires_at runner_name network_name faithful h =
      let p = payload_of ip runner_name expires_at network_name in
      (p, rw (verify_token, faithful.unsign-sign) (ground arith))

  validate_token-stored :
      (later : ℕ) (token : String) (p : Payload) (key : String × ℕ) (r : IpReservation)
      (s : Reservations)
      → verify_token k later token ≡ some p
      → get token s.token_to_key ≡ some key
      → get key s.reservations ≡ some r
      → r.container_id ≡ none
      → validate_token k later token (some r.runner_name) (some r.network_name) s ≡ some r
  unfolding validate_token
  validate_token-stored later token p key r s valid at held free =
      rw
        (
          validate_token,
          valid,
          at,
          held,
          mismatch-same r.runner_name,
          mismatch-same r.network_name,
          free,
        )
        refl

  -- Whoever uses a token binds the reservation behind it.
  use_reservation-cases :
      (now : ℕ) (token container_id : String) (er en : Option String) (s s' : Reservations) (i : ℕ)
      → use_reservation k now token container_id er en s ≡ (some i, s')
      → (key : String × ℕ) × (r : IpReservation) × (get token s.token_to_key ≡ some key)
        × (validate_token k now token er en s ≡ some r)
        × (i ≡ r.ip)
        × (s'.token_to_key ≡ s.token_to_key)
        × (s'.reservations ≡ put key (record r { container_id = some container_id }) s.reservations)
  unfolding use_reservation
  use_reservation-cases now token container_id er en s s' i h =
      elim (Option-cases (validate_token k now token er en s)) [
        | inl bad ↦ absurd (not_used s s' i (rw (bad, use_reservation) at h))
        | inr (r, good) ↦ elim (Option-cases (get token s.token_to_key)) [
          | inl missing ↦ absurd (not_used s s' i (rw (good, missing, use_reservation) at h))
          | inr (key, found) ↦
              let same =
                now_used s'
                  (record s {
                    reservations =
                        put key (record r { container_id = some container_id }) s.reservations;
                    used_ips = add_used (r.runner_name, r.network_name) r.ip s.used_ips;
                  })
                  i r.ip (rw (good, found, use_reservation) at h) in
              (
                key,
                r,
                found,
                good,
                same.0,
                ap (λ t. t.token_to_key) same.1,
                ap (λ t. t.reservations) same.1,
              )
        ]
      ]

  -- The object behind a valid token is the one in the table.
  pub validate_token-cases :
      (now : ℕ) (token : String) (er en : Option String) (r : IpReservation) (key : String × ℕ)
      (s : Reservations)
      → validate_token k now token er en s ≡ some r
      → get token s.token_to_key ≡ some key
      → (get key s.reservations ≡ some r) × (is_used r ≡ false)
  unfolding validate_token
  validate_token-cases now token er en r key s h at =
      elim (Option-cases (verify_token k now token)) [
        | inl bad ↦ ground (arith, rw (bad, validate_token) at h)
        | inr (p, good) ↦ elim (Option-cases (get key s.reservations)) [
          | inl gone ↦ ground (arith, rw (good, at, gone, validate_token) at h)
          | inr (q, held) ↦
              let passed =
                checked (mismatch er q.runner_name) (mismatch en q.network_name) q r
                  (rw (good, at, held, validate_token) at h) in
              (held ∙ ap some passed.0, subst (λ x. is_used x ≡ false) passed.0 passed.1)
        ]
      ]

  pub use_reservation-IsUsed :
      (now : ℕ) (token container_id : String) (er en : Option String) (s s' : Reservations) (i : ℕ)
      → use_reservation k now token container_id er en s ≡ (some i, s')
      → IsSpent token s'
  unfolding IsSpent
  use_reservation-IsUsed now token container_id er en s s' i h key' q at held =
      let (key, r, found, good, same, tokens, table) =
        use_reservation-cases now token container_id er en s s' i h in
      let bound : IpReservation = record r { container_id = some container_id } in
      let here : key ≡ key' =
        some-injective key key' (sym found ∙ subst (λ d. get token d ≡ some key') tokens at) in
      let there : get key s'.reservations ≡ some bound =
        subst (λ d. get key d ≡ some bound) (sym table) (get-put_same key bound s.reservations) in
      subst (λ x. is_used x ≡ true)
        (some-injective bound q
          (sym there ∙ subst (λ x. get x s'.reservations ≡ some q) (sym here) held))
        refl

  pub IsSpent-refused :
      (now : ℕ) (token container_id : String) (er en : Option String) (s : Reservations)
      → IsSpent token s
      → use_reservation k now token container_id er en s ≡ (none, s)
  unfolding use_reservation IsSpent
  IsSpent-refused now token container_id er en s spent =
      elim (Option-cases (validate_token k now token er en s)) [
        | inl bad ↦ rw (use_reservation, bad) refl
        | inr (r, good) ↦ elim (Option-cases (get token s.token_to_key)) [
          | inl missing ↦ rw (use_reservation, good, missing) refl
          | inr (key, found) ↦
              let (held, fresh) = validate_token-cases now token er en r key s good found in
              absurd (false-ne-true (sym fresh ∙ spent key r found held))
        ]
      ]

  -- The state after a successful use.
  bound_state : String → String × ℕ → IpReservation → Reservations → Reservations
  bound_state container_id key r s = record s {
    reservations = put key (record r { container_id = some container_id }) s.reservations;
    used_ips = add_used (r.runner_name, r.network_name) r.ip s.used_ips;
  }

  use_reservation-valid :
      (now : ℕ) (token container_id : String) (er en : Option String) (key : String × ℕ)
      (r : IpReservation) (s : Reservations)
      → validate_token k now token er en s ≡ some r
      → get token s.token_to_key ≡ some key
      → use_reservation k now token container_id er en s
        ≡ (some r.ip, bound_state container_id key r s)
  unfolding bound_state use_reservation
  use_reservation-valid now token container_id er en key r s good at =
      rw (use_reservation, good, at) refl

  -- The token of a reservation is accepted until its last whole second is over: the runner that it
  -- was reserved for gets the address, and the address is in use from then on.
  pub use_reservation-reserve_ip :
      (default_ttl now draw later : ℕ) (network : Network) (runner_name network_name : String)
      (ip ttl : Option ℕ) (container_id : String) (s s' : Reservations) (r : IpReservation)
      → IsFaithful k (payload_of r.ip runner_name r.expires_at network_name)
      → reserve_ip k default_ttl now draw (some network) runner_name network_name ip ttl s
        ≡ (ok (some r), s')
      → later ≤ (now + effective_ttl default_ttl ttl * microseconds) / microseconds * microseconds
      → let used =
          use_reservation k later r.token container_id (some runner_name) (some network_name) s' in
        (used.0 ≡ some r.ip)
        × (contains r.ip (used_at (runner_name, network_name) used.1.used_ips) ≡ true)
        × (get (network_name, r.ip) used.1.reservations
            ≡ some (record r { container_id = some container_id }))
  unfolding bound_state
  use_reservation-reserve_ip default_ttl now draw later network runner_name network_name ip ttl
        container_id s s' r faithful h alive =
      let (free, held, at, unused, expires, signed, wanted, (runner, net)) =
        reserve_ip-free k default_ttl now draw network runner_name network_name ip ttl s s' r h in
      let (p, valid) =
        verify_token-generate_token later r.ip r.expires_at runner_name network_name faithful
          (subst (λ t. later ≤ t / microseconds * microseconds) (sym expires) alive) in
      let good =
        validate_token-stored later r.token p (network_name, r.ip) r s'
          (subst (λ t. verify_token k later t ≡ some p) (sym signed) valid) at held unused in
      let good' : validate_token k later r.token (some runner_name) (some network_name) s'
          ≡ some r =
        subst (λ n. validate_token k later r.token (some n) (some network_name) s' ≡ some r) runner
          (subst (λ n. validate_token k later r.token (some r.runner_name) (some n) s' ≡ some r) net
            good) in
      let key : String × ℕ = (network_name, r.ip) in
      subst
        (λ u.
          (u.0 ≡ some r.ip)
          × (contains r.ip (used_at (runner_name, network_name) u.1.used_ips) ≡ true)
          × (get key u.1.reservations ≡ some (record r { container_id = some container_id })))
        (sym (
          use_reservation-valid later r.token container_id (some runner_name) (some network_name)
            key r s' good' at))
        (
          refl,
          ground (
            arith,
            runner,
            net,
            same_refl r.ip,
            used_at-add_used (r.runner_name, r.network_name) (runner_name, network_name) r.ip r.ip
                s'.used_ips,
            string_key.is_same_iff r.runner_name runner_name,
            string_key.is_same_iff r.network_name network_name,
          ),
          get-put_same key (record r { container_id = some container_id }) s'.reservations,
        )

  use_reservation-unknown :
      (now : ℕ) (token container_id : String) (er en : Option String) (s : Reservations)
      → get token s.token_to_key ≡ none
      → use_reservation k now token container_id er en s ≡ (none, s)
  unfolding use_reservation validate_token
  use_reservation-unknown now token container_id er en s h =
      elim (Option-cases (verify_token k now token)) [
        | inl bad ↦ rw (use_reservation, validate_token, bad) refl
        | inr (p, good) ↦ rw (use_reservation, validate_token, good, h) refl
      ]

  -- After a release by its token succeeded, the token can be neither used nor released again.
  pub use_reservation-release_by_token :
      (later : ℕ) (token container_id : String) (er en : Option String) (s : Reservations)
      → (release_by_token token s).0 ≡ true
      → let s' = (release_by_token token s).1 in
        (use_reservation k later token container_id er en s' ≡ (none, s'))
        × (release_by_token token s' ≡ (false, s'))
  use_reservation-release_by_token later token container_id er en s h =
      let gone = release_by_token-forgets token s h in
      let s' = (release_by_token token s).1 in
      (
        use_reservation-unknown later token container_id er en s' gone,
        release_by_token-unknown token s' gone,
      )
