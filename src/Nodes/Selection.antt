-- ===== src/Nodes/Selection.antt =====
-- src/kohakuriver/host/services/node_manager.py, `find_suitable_node`: which node it chooses.
use kohaku_river.Common.{
  ℕ, ◌≢◌, ◌≡◌, refl, sym, ap, subst, inl, inr, Bool, true, false, ◌&&◌, Option, none, some, [], ◌∷◌,
  arith, String, if◌then◌else◌, ◌==◌, nat_key, string_key, pair_key, keep, Dict, Bool-cases,
  Option-cases, none-ne-some, some-injective,
}
use kohaku_river.Common.{Item, Item-keep, Item-keep_intro}
use kohaku_river.Common.Int.{ℤ, ltb_ℤ, ◌≤ℤ◌}
use kohaku_river.Common.Result.{Result, ok, err}
use kohaku_river.Tasks.{Task}
use kohaku_river.Tasks.Monitor.{Node}
use kohaku_river.Nodes.{
  Requirements, NumaError, sift, get_node_available_cores, node_meets_requirements, is_target,
  most_cores, find_suitable_node, named,
}
use kohaku_river.Nodes.Sift.{Item-sift, sift-Item, sift-raises}
use kohaku_river.Nodes.Needs.{
  IsCandidate, IsRoomy, IsSuitable, is_target_iff, most-le, node_meets_requirements-IsRoomy,
  IsRoomy-node_meets_requirements, node_meets_requirements-raises,
}

ltb_ℤ-irrefl : (a : ℤ) → ltb_ℤ a a ≡ false
ltb_ℤ-irrefl a = ground arith

ltb_ℤ-asym : (a b : ℤ) → ltb_ℤ a b ≡ true → ltb_ℤ b a ≡ false
ltb_ℤ-asym a b h = ground arith

ltb_ℤ-trans : (a b c : ℤ) → ltb_ℤ a b ≡ false → ltb_ℤ b c ≡ false → ltb_ℤ a c ≡ false
ltb_ℤ-trans a b c h k = ground arith

-- The entry with the most cores: an entry, with its cores, that no other exceeds.
abbrev pub IsMost : Dict ℕ Task → Dict String Node → String × Node × ℤ → Type 0
IsMost tasks nodes item =
    Item item.0 item.1 nodes
    × (item.2 ≡ get_node_available_cores tasks item.0 item.1)
    × ((k : String) (m : Node)
        → Item k m nodes
        → ltb_ℤ item.2 (get_node_available_cores tasks k m) ≡ false)

pub most_cores-none :
    (tasks : Dict ℕ Task) (nodes : Dict String Node) → most_cores tasks nodes ≡ none → nodes ≡ []
unfolding most_cores
most_cores-none tasks [] h = refl
most_cores-none tasks ((k, m) ∷ nodes) h = elim (Option-cases (most_cores tasks nodes)) [
  | inl empty ↦ absurd (none-ne-some _ (sym (rw (most_cores, empty) at h)))
  | inr (item, found) ↦ absurd (none-ne-some _ (sym (rw (most_cores, found) at h)))
]

same_cores :
    (tasks : Dict ℕ Task) (k k' : String) (m m' : Node)
    → k ≡ k'
    → m ≡ m'
    → get_node_available_cores tasks k m ≡ get_node_available_cores tasks k' m'
same_cores tasks k k' m m' e f =
    subst (λ x. get_node_available_cores tasks k m ≡ get_node_available_cores tasks x m') e
      (ap (get_node_available_cores tasks k) f)

alone-IsMost :
    (tasks : Dict ℕ Task) (k : String) (m : Node)
    → IsMost tasks ((k, m) ∷ []) (k, m, get_node_available_cores tasks k m)
alone-IsMost tasks k m = (
  inl (refl, refl),
  refl,
  λ k' m' i. elim i [
    | inl (e, f) ↦
        subst (λ x. ltb_ℤ (get_node_available_cores tasks k m) x ≡ false)
          (same_cores tasks k k' m m' e f) (ltb_ℤ-irrefl (get_node_available_cores tasks k m))
    | inr none_left ↦ absurd none_left
  ],
)

better-IsMost :
    (tasks : Dict ℕ Task) (k : String) (m : Node) (nodes : Dict String Node)
    (other : String × Node × ℤ)
    → IsMost tasks nodes other
    → IsMost tasks ((k, m) ∷ nodes) (
        if ltb_ℤ (get_node_available_cores tasks k m) other.2
        then other
        else (k, m, get_node_available_cores tasks k m))
better-IsMost tasks k m nodes other (i, e, most) =
    let mine = get_node_available_cores tasks k m in
    elim (Bool-cases (ltb_ℤ mine other.2)) [
      | inl less ↦
          subst (λ b. IsMost tasks ((k, m) ∷ nodes) (if b then other else (k, m, mine))) (sym less)
            (
              inr i,
              e,
              λ k' m' j. elim j [
                | inl (f, g) ↦
                    subst (λ x. ltb_ℤ other.2 x ≡ false) (same_cores tasks k k' m m' f g)
                      (ltb_ℤ-asym mine other.2 less)
                | inr l ↦ most k' m' l
              ],
            )
      | inr more ↦
          subst (λ b. IsMost tasks ((k, m) ∷ nodes) (if b then other else (k, m, mine))) (sym more)
            (
              inl (refl, refl),
              refl,
              λ k' m' j. elim j [
                | inl (f, g) ↦
                    subst (λ x. ltb_ℤ mine x ≡ false) (same_cores tasks k k' m m' f g)
                      (ltb_ℤ-irrefl mine)
                | inr l ↦ ltb_ℤ-trans mine other.2 _ more (most k' m' l)
              ],
            )
    ]

pub most_cores-IsMost :
    (tasks : Dict ℕ Task) (nodes : Dict String Node) (item : String × Node × ℤ)
    → most_cores tasks nodes ≡ some item
    → IsMost tasks nodes item
unfolding most_cores
most_cores-IsMost tasks [] item h = absurd (none-ne-some item h)
most_cores-IsMost tasks ((k, m) ∷ nodes) item h = elim (Option-cases (most_cores tasks nodes)) [
  | inl empty ↦
      let last = most_cores-none tasks nodes empty in
      subst (IsMost tasks ((k, m) ∷ nodes)) (some-injective _ item (rw (most_cores, empty) at h)) (
        subst (λ l. IsMost tasks ((k, m) ∷ l) (k, m, get_node_available_cores tasks k m)) (sym last)
          (alone-IsMost tasks k m))
  | inr (other, found) ↦
      subst (IsMost tasks ((k, m) ∷ nodes)) (some-injective _ item (rw (most_cores, found) at h))
        (better-IsMost tasks k m nodes other (most_cores-IsMost tasks nodes other found))
]

-- What `find_suitable_node` answers.
abbrev pub Chosen :
    Dict ℕ Task
    → Dict String Node
    → Requirements
    → Result NumaError (Option (String × Node))
    → Type 0
Chosen tasks nodes r (err e) =
    (k : String) × (m : Node) × Item k m nodes
    × IsCandidate r k m
    × IsRoomy tasks r k m
    × (r.target_numa_node_id ≢ none)
    × (m.numa_topology ≡ none)
Chosen tasks nodes r (ok none) = (k : String) (m : Node) → Item k m nodes → ¬ IsSuitable tasks r k m
Chosen tasks nodes r (ok (some (h, n))) =
    Item h n nodes
    × IsSuitable tasks r h n
    × ((k : String) (m : Node)
        → Item k m nodes
        → IsSuitable tasks r k m
        → get_node_available_cores tasks k m ≤ℤ get_node_available_cores tasks h n)

abbrev query : Requirements → String × Node → Bool
query r item = item.1.status == "online" && is_target r.target_hostname item.0

module _ (tasks : Dict ℕ Task) (nodes : Dict String Node) (r : Requirements) where
  query-IsCandidate : (h : String) (n : Node) → query r (h, n) ≡ true → IsCandidate r h n
  query-IsCandidate h n e = (
    ground (arith, string_key.is_same_iff n.status "online"),
    (is_target_iff r.target_hostname h).0 (ground arith),
  )

  IsCandidate-query : (h : String) (n : Node) → IsCandidate r h n → query r (h, n) ≡ true
  IsCandidate-query h n (on, target) = ground (
    arith,
    string_key.is_same_iff n.status "online",
    (is_target_iff r.target_hostname h).1 target,
  )

  module _ (l : Dict String Node)
      (sifted : sift (node_meets_requirements tasks r) (keep (query r) nodes) ≡ ok l) where
    IsSuitable-Item : (k : String) (m : Node) → Item k m nodes → IsSuitable tasks r k m → Item k m l
    IsSuitable-Item k m i (candidate, room, numa) =
        sift-Item (node_meets_requirements tasks r) (keep (query r) nodes) l k m sifted
          (Item-keep_intro (query r) nodes k m i (IsCandidate-query k m candidate))
          (IsRoomy-node_meets_requirements tasks r k m room numa)

    Item-IsSuitable : (k : String) (m : Node) → Item k m l → Item k m nodes × IsSuitable tasks r k m
    Item-IsSuitable k m i =
        let (j, passes) =
          Item-sift (node_meets_requirements tasks r) (keep (query r) nodes) l k m sifted i in
        let (in_table, selected) = Item-keep (query r) nodes k m j in
        let (room, numa) = node_meets_requirements-IsRoomy tasks r k m passes in
        (in_table, (query-IsCandidate k m selected, room, numa))

    most_cores-Chosen :
        (best : Option (String × Node × ℤ))
        → most_cores tasks l ≡ best
        → Chosen tasks nodes r (ok (named best))
    most_cores-Chosen none e =
        λ k m i s. subst (Item k m) (most_cores-none tasks l e) (IsSuitable-Item k m i s)
    most_cores-Chosen (some item) e =
        let (i, same, most) = most_cores-IsMost tasks l item e in
        let (in_table, suitable) = Item-IsSuitable item.0 item.1 i in
        (
          in_table,
          suitable,
          λ k m j s.
              most-le (get_node_available_cores tasks item.0 item.1)
                (get_node_available_cores tasks k m)
                (subst (λ x. ltb_ℤ x (get_node_available_cores tasks k m) ≡ false) same
                  (most k m (IsSuitable-Item k m j s))),
        )

-- The node that is found is online, is the target if one is named, and has the cores, the GPUs and
-- the memory left; no NUMA node was asked for, and no other such node has more cores left. There is
-- no node only if there is none of this kind, so for a NUMA node none is ever found. The
-- AttributeError comes only when a NUMA node is asked for and an online node, the target if one is
-- named, has the resources left and no topology.
pub find_suitable_node-Chosen :
    (tasks : Dict ℕ Task) (nodes : Dict String Node) (r : Requirements)
    → Chosen tasks nodes r (find_suitable_node tasks nodes r)
unfolding find_suitable_node
find_suitable_node-Chosen tasks nodes r =
    answer (sift (node_meets_requirements tasks r) (keep (query r) nodes)) refl
  where
    answer :
        (sifted : Result NumaError (Dict String Node))
        → sift (node_meets_requirements tasks r) (keep (query r) nodes) ≡ sifted
        → Chosen tasks nodes r
            (elim sifted [ err e ↦ err e | ok suitable ↦ ok (named (most_cores tasks suitable)) ])
    answer (ok l) e = most_cores-Chosen tasks nodes r l e (most_cores tasks l) refl
    answer (err x) e =
        let (k, m, i, raised) =
          sift-raises (node_meets_requirements tasks r) (keep (query r) nodes) x e in
        let (in_table, selected) = Item-keep (query r) nodes k m i in
        let (room, asked, missing) = node_meets_requirements-raises tasks r k m x raised in
        (k, m, in_table, query-IsCandidate tasks nodes r k m selected, room, asked, missing)
