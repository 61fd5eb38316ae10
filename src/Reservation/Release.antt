-- ===== src/Reservation/Release.antt =====
-- `release_by_container`: what it takes away and what it leaves.
use kohaku_river.Common.{
  ℕ, ◌≡◌, refl, sym, subst, ◌∙◌, ◌≢◌, inl, inr, Bool, true, false, none, some, List, [], ◌∷◌, ◌++◌,
  map, String, ◌==◌, nat_key, string_key, pair_key, keep, get, del, Bool-cases, eq_of_same, get-del,
  Item, Item-del, get-Item, Item-get,
}
use kohaku_river.Reservation.{Reservations, IpReservation, forget, discard_used}
use kohaku_river.Reservation.Methods.{release_by_container, release_loop}
use kohaku_river.Reservation.Soundness.{IsSound}
use mathlib.Core.List.{append-nil, append_assoc}

some-injective : (r q : IpReservation) → some r ≡ some q → r ≡ q
some-injective r q h = cc

-- `reservation.container_id == container_id`
abbrev pub is_of : String → IpReservation → Bool
is_of container_id r = elim r.container_id [ none ↦ false | some c ↦ c == container_id ]

-- What the loop leaves stood in the table, and no entry of the loop under its key was the
-- container's.
loop-left :
    (container_id : String) (items : List ((String × ℕ) × IpReservation)) (released : List ℕ)
    (s : Reservations) (key : String × ℕ) (r : IpReservation)
    → Item key r (release_loop container_id items released s).1.reservations
    → Item key r s.reservations
      × ((q : IpReservation) → Item key q items → is_of container_id q ≡ false)
unfolding release_loop forget
loop-left container_id [] released s key r i = (i, λ q j. absurd j)
loop-left container_id ((j, p) ∷ items) released s key r i =
    elim (Bool-cases (is_of container_id p)) [
      | inl mine ↦
          let rest =
            loop-left container_id items (released ++ p.ip ∷ [])
              (forget j p (record s {
                used_ips = discard_used (p.runner_name, p.network_name) p.ip s.used_ips;
              }))
              key r (rw (release_loop, mine) at i) in
          let here = Item-del j key r s.reservations rest.0 in
          (here.0, λ q. elim [ inl same ↦ absurd (here.1 same.0) | inr later ↦ rest.1 q later ])
      | inr other ↦
          let rest =
            loop-left container_id items released s key r (rw (release_loop, other) at i) in
          (
            rest.0,
            λ q. elim [
              | inl same ↦ subst (λ x. is_of container_id x ≡ false) same.1 other
              | inr later ↦ rest.1 q later
            ],
          )
    ]

true-ne-false : true ≢ false
true-ne-false h = cc

-- A key under which no entry of the loop is the container's keeps its reservation.
loop-kept :
    (container_id : String) (items : List ((String × ℕ) × IpReservation)) (released : List ℕ)
    (s : Reservations) (key : String × ℕ)
    → ((q : IpReservation) → Item key q items → is_of container_id q ≡ false)
    → get key (release_loop container_id items released s).1.reservations ≡ get key s.reservations
unfolding release_loop forget
loop-kept container_id [] released s key others = refl
loop-kept container_id ((j, p) ∷ items) released s key others =
    elim (Bool-cases (is_of container_id p)) [
      | inl mine ↦
          let gone : get key (del j s.reservations) ≡ get key s.reservations =
            elim (Bool-cases (j == key)) [
              | inl same ↦
                  absurd (true-ne-false (sym mine ∙ others p (inl (eq_of_same j key same, refl))))
              | inr other ↦ get-del j key s.reservations ∙ rw (other) refl
            ] in
          rw (release_loop, mine)
            (loop-kept container_id items (released ++ p.ip ∷ [])
                (forget j p (record s {
                  used_ips = discard_used (p.runner_name, p.network_name) p.ip s.used_ips;
                }))
                key (λ q i. others q (inr i))
              ∙ gone)
      | inr other ↦
          rw (release_loop, other)
            (loop-kept container_id items released s key (λ q i. others q (inr i)))
    ]

loop-released :
    (container_id : String) (items : List ((String × ℕ) × IpReservation)) (released : List ℕ)
    (s : Reservations)
    → (release_loop container_id items released s).0
      ≡ released ++ map (λ item. item.1.ip) (keep (λ item. is_of container_id item.1) items)
unfolding release_loop keep
loop-released container_id [] released s = sym (append-nil released)
loop-released container_id ((j, p) ∷ items) released s = elim (Bool-cases (is_of container_id p)) [
  | inl mine ↦
      rw (release_loop, mine)
        (loop-released container_id items (released ++ p.ip ∷ []) (
            forget j p (record s {
              used_ips = discard_used (p.runner_name, p.network_name) p.ip s.used_ips;
            }))
          ∙ append_assoc released (p.ip ∷ [])
              (map (λ item. item.1.ip) (keep (λ item. is_of container_id item.1) items)))
  | inr other ↦ rw (release_loop, other) (loop-released container_id items released s)
]

-- The container's reservations are gone and reported, and all others are there.
abbrev pub Released : String → Reservations → Type 0
Released container_id s =
    let s' = (release_by_container container_id s).1 in
    ((release_by_container container_id s).0
      ≡ map (λ item. item.1.ip) (keep (λ item. is_of container_id item.1) s.reservations))
    × ((key : String × ℕ) (r : IpReservation)
        → get key s'.reservations ≡ some r
        → is_of container_id r ≡ false)
    × ((key : String × ℕ) (r : IpReservation)
        → get key s.reservations ≡ some r
        → is_of container_id r ≡ false
        → get key s'.reservations ≡ some r)

-- `release_by_container` returns the addresses of the container's reservations. Afterwards none of
-- the reservations is the container's, and every other container's reservation is still there.
pub release_by_container-exact :
    (container_id : String) (s : Reservations) → IsSound s → Released container_id s
unfolding release_by_container
release_by_container-exact container_id s sound = (
  loop-released container_id s.reservations [] s,
  λ key r h.
      let left = loop-left container_id s.reservations [] s key r (get-Item key r _ h) in
      left.1 r left.0,
  λ key r h other.
      loop-kept container_id s.reservations [] s key (λ q i.
        subst (λ x. is_of container_id x ≡ false)
          (some-injective r q (sym h ∙ Item-get key q s.reservations sound.unique i)) other)
      ∙ h,
)
