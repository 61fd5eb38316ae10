-- ===== src/Reservation/Sets.antt =====
-- The sets of used addresses: membership after an addition and after a removal.
use kohaku_river.Common.{
  ℕ, ◌≡◌, refl, subst, inl, inr, true, not, ◌&&◌, ◌||◌, List, [], ◌∷◌, arith, if◌then◌else◌, ◌==◌,
  nat_key, string_key, pair_key, keep, contains, Dict, Bool-cases, get-put, Key, ℕ_discrete,
}
use kohaku_river.Reservation.{used_at, add_used, discard_used, set_discard, set_add}

contains-set_discard :
    (i ip : ℕ) (l : List ℕ) → contains i (set_discard ip l) ≡ (contains i l && not (ip == i))
unfolding contains set_discard keep
contains-set_discard i ip [] = refl
contains-set_discard i ip (x ∷ l) = ground (arith, contains-set_discard i ip l)

contains-set_add : (i ip : ℕ) (l : List ℕ) → contains i (set_add ip l) ≡ (ip == i || contains i l)
unfolding contains set_add
contains-set_add i ip l = elim (Bool-cases (contains ip l)) [
  | inl old ↦ elim (ℕ_discrete ip i) [
    | yes same ↦ rw (old, set_add) (ground (arith, subst (λ n. contains n l ≡ true) same old))
    | no other ↦ rw (old, set_add) (ground arith)
  ]
  | inr new ↦ rw (new, set_add) refl
]

module _ {K : Type 0} ⦃e : Key K⦄ where
  used_at-add_used_eq :
      (key j : K) (ip : ℕ) (u : Dict K (List ℕ))
      → used_at j (add_used key ip u) ≡ (if key == j then set_add ip (used_at j u) else used_at j u)
  unfolding add_used used_at
  used_at-add_used_eq key j ip u =
      ground (arith, get-put key j (set_add ip (used_at key u)) u, e.is_same_iff key j)

  used_at-discard_used_eq :
      (key j : K) (ip : ℕ) (u : Dict K (List ℕ))
      → used_at j (discard_used key ip u)
        ≡ (if key == j then set_discard ip (used_at j u) else used_at j u)
  unfolding discard_used used_at keep
  used_at-discard_used_eq key j ip u =
      ground (arith, get-put key j (set_discard ip (used_at key u)) u, e.is_same_iff key j)

  -- An addition is seen at its key, and loses nothing.
  pub used_at-add_used :
      (key j : K) (ip i : ℕ) (u : Dict K (List ℕ))
      → contains i (used_at j (add_used key ip u))
        ≡ ((key == j && ip == i) || contains i (used_at j u))
  used_at-add_used key j ip i u = elim (Bool-cases (key == j)) [
    | inl same ↦ rw (used_at-add_used_eq key j ip u, same) (contains-set_add i ip (used_at j u))
    | inr other ↦ rw (used_at-add_used_eq key j ip u, other) refl
  ]

  -- A removal is seen at its key alone.
  pub used_at-discard_used :
      (key j : K) (ip i : ℕ) (u : Dict K (List ℕ))
      → contains i (used_at j (discard_used key ip u))
        ≡ (contains i (used_at j u) && not (key == j && ip == i))
  used_at-discard_used key j ip i u = elim (Bool-cases (key == j)) [
    | inl same ↦
        rw (used_at-discard_used_eq key j ip u, same) (contains-set_discard i ip (used_at j u))
    | inr other ↦ rw (used_at-discard_used_eq key j ip u, other) (ground arith)
  ]
