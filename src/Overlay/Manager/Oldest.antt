-- ===== src/Overlay/Manager/Oldest.antt =====
-- `_find_lru_inactive`: which entry gives way.
use kohaku_river.Common.{
  String, true, Dict, Unique, ◌≡◌, Item, some, none, ◌∷◌, get, ◌≤◌, false, string_key, inl, Bool,
  arith, not, Bool-cases, keep, inr, subst, Item-keep, Item-get, Item-keep_intro, get-Item, [],
  nat_key, Option-cases, ◌⊎◌,
}
use kohaku_river.Overlay.Manager.{OverlayAllocation, find_lru_inactive, lru_runner, first_oldest}

abbrev pub Items : Type 0
Items = Dict String OverlayAllocation

first_oldest-none :
    (d : Items) (k : String) (c : OverlayAllocation) → first_oldest d ≡ none → ¬ Item k c d
unfolding first_oldest
first_oldest-none [] k c h i = i
first_oldest-none (x ∷ d) k c h i = elim (Option-cases (first_oldest d)) [
  | inl e ↦ ground arith
  | inr (y, e) ↦ ground arith
]

-- The result is an entry that no other is older than.
first_oldest-Item :
    (d : Items) (k : String) (c : OverlayAllocation)
    → first_oldest d ≡ some (k, c)
    → Item k c d × ((j : String) (b : OverlayAllocation) → Item j b d → c.last_used ≤ b.last_used)
unfolding first_oldest
first_oldest-Item [] k c h = cc
first_oldest-Item ((n, a) ∷ d) k c h = elim (Option-cases (first_oldest d)) [
  | inl e ↦ (ground arith, λ j b i. ground (arith, first_oldest-none d j b e))
  | inr ((m, x), e) ↦
      let (found, low) = first_oldest-Item d m x e in
      (ground arith, λ j b i. ground (arith, low j b))
]

abbrev inactive : String × OverlayAllocation → Bool
inactive item = not item.1.is_active

-- An inactive entry that no inactive entry is older than.
abbrev pub IsLeast : Dict String OverlayAllocation → String → Type 0
IsLeast d k =
    (c : OverlayAllocation) × (get k d ≡ some c)
    × (c.is_active ≡ false)
    × ((j : String) (b : OverlayAllocation)
        → get j d ≡ some b
        → b.is_active ≡ false
        → c.last_used ≤ b.last_used)

-- The entry that gives way is inactive, and no inactive entry was used before it.
pub find_lru_inactive-IsLeast :
    (d : Items) (k : String) → Unique d → find_lru_inactive d ≡ some k → IsLeast d k
unfolding find_lru_inactive
find_lru_inactive-IsLeast d k u h = elim (Option-cases (first_oldest (keep inactive d))) [
  | inl e ↦ ground arith
  | inr ((j, c), e) ↦
      let (found, low) = first_oldest-Item (keep inactive d) j c e in
      let (there, idle) = Item-keep inactive d j c found in
      let same : j ≡ k = ground arith in
      (
        c,
        subst (λ n. get n d ≡ some c) same (Item-get j c d u there),
        ground arith,
        λ i b g f. low i b (Item-keep_intro inactive d i b (get-Item i b d g) (ground arith)),
      )
]

-- Nothing is inactive where nothing is found.
pub find_lru_inactive-none :
    (d : Items) (k : String) (c : OverlayAllocation)
    → find_lru_inactive d ≡ none
    → get k d ≡ some c
    → c.is_active ≡ true
unfolding find_lru_inactive
find_lru_inactive-none d k c h e = elim (Bool-cases c.is_active) [
  | inl on ↦ on
  | inr off ↦ absurd (
      first_oldest-none (keep inactive d) k c (ground arith)
        (Item-keep_intro inactive d k c (get-Item k c d e) (ground arith)))
]

pub lru_runner-some :
    (d : Items) (k : String) → lru_runner d ≡ some k → find_lru_inactive d ≡ some k
unfolding lru_runner
lru_runner-some d k h = ground arith

-- No entry gives way: none is inactive, or the one that would has an empty name.
pub lru_runner-none :
    (d : Items)
    → lru_runner d ≡ none
    → (find_lru_inactive d ≡ none) ⊎ (find_lru_inactive d ≡ some "")
unfolding lru_runner
lru_runner-none d h = elim (Option-cases (find_lru_inactive d)) [
  | inl e ↦ inl e
  | inr (k, e) ↦ inr (ground (arith, string_key.is_same_iff k ""))
]
