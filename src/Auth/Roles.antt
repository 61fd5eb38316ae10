-- ===== src/Auth/Roles.antt =====
-- src/kohakuriver/db/auth.py, `UserRole`: the roles are in a line.
use kohaku_river.Common.{
  ℕ, ◌+◌, ◌≤◌, ◌≡◌, refl, sym, ap, ◌∙◌, ◌⊎◌, inl, inr, true, false, some, List, [], ◌∷◌, arith,
  String, leb, ◌==◌, nat_key, string_key, pair_key, contains, Bool-cases, Option-cases, leb→le,
  le→leb, false-ne-true,
}
use kohaku_river.Auth.{hierarchy, index_from, is_at_least}

level-at_least :
    (a b : String)
    → is_at_least a b ≡ true
    → (i j : ℕ) × (index_from 0 a hierarchy ≡ some i)
      × (index_from 0 b hierarchy ≡ some j)
      × (j ≤ i)
unfolding is_at_least
level-at_least a b h = elim (Option-cases (index_from 0 a hierarchy)) [
  | inl no_role ↦ absurd (false-ne-true (rw (is_at_least, no_role) at h))
  | inr (i, e) ↦ elim (Option-cases (index_from 0 b hierarchy)) [
    | inl no_role ↦ absurd (false-ne-true (rw (is_at_least, e, no_role) at h))
    | inr (j, f) ↦ (i, j, e, f, leb→le j i (rw (is_at_least, e, f) at h))
  ]
]

at_least-level :
    (a b : String) (i j : ℕ)
    → index_from 0 a hierarchy ≡ some i
    → index_from 0 b hierarchy ≡ some j
    → is_at_least a b ≡ leb j i
unfolding is_at_least
at_least-level a b i j e f = rw (is_at_least, e, f) refl

index_from-ge : (k : ℕ) (a : String) (l : List String) (i : ℕ) → index_from k a l ≡ some i → k ≤ i
index_from-ge k a [] i h = cc
index_from-ge k a (x ∷ l) i h = ground (arith, index_from-ge (k + 1) a l i)

index_from-injective :
    (k : ℕ) (a b : String) (l : List String) (i : ℕ)
    → index_from k a l ≡ some i
    → index_from k b l ≡ some i
    → a ≡ b
index_from-injective k a b [] i h g = cc
index_from-injective k a b (x ∷ l) i h g = ground (
  arith,
  index_from-injective (k + 1) a b l i,
  index_from-ge (k + 1) a l i,
  index_from-ge (k + 1) b l i,
  string_key.is_same_iff x a,
  string_key.is_same_iff x b,
)

contains-index_from :
    (k : ℕ) (a : String) (l : List String)
    → contains a l ≡ true
    → (i : ℕ) × (index_from k a l ≡ some i)
unfolding contains
contains-index_from k a [] h = absurd (false-ne-true h)
contains-index_from k a (x ∷ l) h = elim (Bool-cases (x == a)) [
  | inl here ↦ (k, rw (here) refl)
  | inr further ↦
      let (i, e) = contains-index_from (k + 1) a l (rw (further) at h) in (i, rw (further) e)
]

-- The order of the roles.
abbrev pub IsLine : String → String → String → Type 0
IsLine a b c =
    (is_at_least a b ≡ true → is_at_least b c ≡ true → is_at_least a c ≡ true)
    × (is_at_least a b ≡ true → is_at_least b a ≡ true → a ≡ b)
    × (contains a hierarchy ≡ true
        → contains b hierarchy ≡ true
        → (is_at_least a b ≡ true) ⊎ (is_at_least b a ≡ true))
    × (contains a hierarchy ≡ false → is_at_least a b ≡ false)

is_at_least_trans :
    (a b c : String) → is_at_least a b ≡ true → is_at_least b c ≡ true → is_at_least a c ≡ true
is_at_least_trans a b c h g =
    let (i, j, e, f, l) = level-at_least a b h in
    let (j', k, f', q, m) = level-at_least b c g in
    let same : j ≡ j' = ground (arith, f, f') in
    at_least-level a c i k e q ∙ le→leb k i (omega (arith, l, m, same))

is_at_least-antisym : (a b : String) → is_at_least a b ≡ true → is_at_least b a ≡ true → a ≡ b
is_at_least-antisym a b h g =
    let (i, j, e, f, l) = level-at_least a b h in
    let (j', i', f', e', m) = level-at_least b a g in
    let same : j ≡ i = ground (arith, f, f', e, e', l, m) in
    index_from-injective 0 a b hierarchy i e (f ∙ ap some same)

is_at_least-total :
    (a b : String)
    → contains a hierarchy ≡ true
    → contains b hierarchy ≡ true
    → (is_at_least a b ≡ true) ⊎ (is_at_least b a ≡ true)
is_at_least-total a b h g =
    let (i, e) = contains-index_from 0 a hierarchy h in
    let (j, f) = contains-index_from 0 b hierarchy g in
    elim (Bool-cases (leb j i)) [
      | inl over ↦ inl (at_least-level a b i j e f ∙ over)
      | inr under ↦ inr (at_least-level b a j i f e ∙ ground (arith, under))
    ]

index_from-contains :
    (k : ℕ) (a : String) (l : List String) (i : ℕ) → index_from k a l ≡ some i → contains a l ≡ true
unfolding contains
index_from-contains k a [] i h = cc
index_from-contains k a (x ∷ l) i h = ground (arith, index_from-contains (k + 1) a l i)

-- A string that is no role has no rights.
is_at_least-unknown : (a b : String) → contains a hierarchy ≡ false → is_at_least a b ≡ false
is_at_least-unknown a b h = elim (Bool-cases (is_at_least a b)) [
  | inr fewer ↦ fewer
  | inl granted ↦
      let (i, j, e, f, l) = level-at_least a b granted in
      absurd (false-ne-true (sym h ∙ index_from-contains 0 a hierarchy i e))
]

-- The roles are in a line: having at least a role is transitive and antisymmetric, compares any two
-- roles of the hierarchy, and fails for a string that is none.
pub is_at_least-IsLine : (a b c : String) → IsLine a b c
is_at_least-IsLine a b c = (
  is_at_least_trans a b c,
  is_at_least-antisym a b,
  is_at_least-total a b,
  is_at_least-unknown a b,
)
