-- ===== src/Common/Dicts.antt =====
-- Python dictionaries: association lists in insertion order.
use mathlib.Core.Path.{◌≡◌, refl}
use mathlib.Core.Bool.{Bool, true}
use mathlib.Core.Option.{Option, none, some}
use mathlib.Core.List.{List, [], ◌∷◌}
use native.Mathlib.Omega.{arith}
use kohaku_river.Common.Lists.{keep}
use mathlib.Core.Logic.{◌⊎◌, ◌≢◌}
use kohaku_river.Common.Tests.{if◌then◌else◌, Key, ◌==◌}

abbrev pub Dict {ℓ κ} : Type ℓ → Type κ → Type (ℓ ⊔ κ)
Dict K V = List (K × V)

module _ {ℓ κ} {K : Type ℓ} {V : Type κ} ⦃e : Key K⦄ where
  -- `d.get(k)`
  unfoldable pub get : K → Dict K V → Option V
  get k [] = none
  get k ((j, v) ∷ d) = if j == k then some v else get k d

  -- `d[k] = v`: a key keeps its place, a new one goes to the end.
  unfoldable pub put : K → V → Dict K V → Dict K V
  put k v [] = (k, v) ∷ []
  put k v ((j, w) ∷ d) = if j == k then (j, v) ∷ d else (j, w) ∷ put k v d

  -- `del d[k]`
  unfoldable pub del : K → Dict K V → Dict K V
  del k [] = []
  del k ((j, w) ∷ d) = if j == k then del k d else (j, w) ∷ del k d

  pub get-put :
      (k j : K) (v : V) (d : Dict K V) → get j (put k v d) ≡ (if k == j then some v else get j d)
  unfolding get put
  get-put k j v [] = refl
  get-put k j v ((i, w) ∷ d) = ground (
    arith,
    (e.is_same_iff k j).0,
    (e.is_same_iff k j).1,
    (e.is_same_iff i k).0,
    (e.is_same_iff i k).1,
    (e.is_same_iff i j).0,
    (e.is_same_iff i j).1,
    get-put k j v d,
  )

  pub get-put_same : (k : K) (v : V) (d : Dict K V) → get k (put k v d) ≡ some v
  get-put_same k v d = ground (arith, get-put k k v d, (e.is_same_iff k k).1 refl)

  pub get-del : (k j : K) (d : Dict K V) → get j (del k d) ≡ (if k == j then none else get j d)
  unfolding get del
  get-del k j [] = ground arith
  get-del k j ((i, w) ∷ d) = ground (
    arith,
    (e.is_same_iff k j).0,
    (e.is_same_iff k j).1,
    (e.is_same_iff i k).0,
    (e.is_same_iff i k).1,
    (e.is_same_iff i j).0,
    (e.is_same_iff i j).1,
    get-del k j d,
  )

  -- The first entry that passes a test, as a `for` loop over `items()` finds it.
  unfoldable pub find_item : (K → V → Bool) → Dict K V → Option (K × V)
  find_item test [] = none
  find_item test ((k, v) ∷ d) = if test k v then some (k, v) else find_item test d

  -- No key stands in two entries.
  abbrev pub Unique : Dict K V → Type (ℓ ⊔ κ)
  Unique [] = Unit
  Unique ((k, v) ∷ d) = (get k d ≡ none) × Unique d

  pub put-Unique : (k : K) (v : V) (d : Dict K V) → Unique d → Unique (put k v d)
  unfolding put get
  put-Unique k v [] u = (refl, tt)
  put-Unique k v ((j, w) ∷ d) u =
      ground
        (arith, put-Unique k v d u.1, get-put k j v d, (e.is_same_iff k j).0, (e.is_same_iff j k).1)

  pub del-Unique : (k : K) (d : Dict K V) → Unique d → Unique (del k d)
  unfolding del
  del-Unique k [] u = tt
  del-Unique k ((j, w) ∷ d) u = ground (arith, del-Unique k d u.1, get-del k j d)

  pub find_item-get :
      (test : K → V → Bool) (d : Dict K V) (k : K) (v : V)
      → Unique d
      → find_item test d ≡ some (k, v)
      → (get k d ≡ some v) × (test k v ≡ true)
  unfolding find_item get
  find_item-get test [] k v u h = cc
  find_item-get test ((j, w) ∷ d) k v u h = ground (
    arith,
    find_item-get test d k v u.1,
    (e.is_same_iff j k).0,
    (e.is_same_iff j k).1,
    (e.is_same_iff k k).1 refl,
  )

  pub find_item-found :
      (test : K → V → Bool) (d : Dict K V) (k : K) (v : V)
      → get k d ≡ some v
      → test k v ≡ true
      → find_item test d ≢ none
  unfolding find_item get
  find_item-found test [] k v h t = cc
  find_item-found test ((j, w) ∷ d) k v h t =
      ground (arith, find_item-found test d k v, e.is_same_iff j k)

module _ {K V : Type 0} where
  -- `(k, v)` is an entry.
  abbrev pub Item : K → V → Dict K V → Type 0
  Item k v [] = ⊥
  Item k v ((j, w) ∷ d) = ((j ≡ k) × (w ≡ v)) ⊎ Item k v d

  pub Item-keep :
      (test : K × V → Bool) (d : Dict K V) (k : K) (v : V)
      → Item k v (keep test d)
      → Item k v d × (test (k, v) ≡ true)
  unfolding keep
  Item-keep test [] k v h = absurd h
  Item-keep test ((j, w) ∷ d) k v h = ground (arith, Item-keep test d k v)

  pub Item-keep_intro :
      (test : K × V → Bool) (d : Dict K V) (k : K) (v : V)
      → Item k v d
      → test (k, v) ≡ true
      → Item k v (keep test d)
  unfolding keep
  Item-keep_intro test [] k v h t = absurd h
  Item-keep_intro test ((j, w) ∷ d) k v h t = ground (arith, Item-keep_intro test d k v)

module _ {K V : Type 0} ⦃e : Key K⦄ where
  pub find_item-Item :
      (test : K → V → Bool) (d : Dict K V) (k : K) (v : V)
      → find_item test d ≡ some (k, v)
      → Item k v d × (test k v ≡ true)
  unfolding find_item
  find_item-Item test [] k v h = cc
  find_item-Item test ((j, w) ∷ d) k v h = ground (arith, find_item-Item test d k v)

  pub get-Item : (k : K) (v : V) (d : Dict K V) → get k d ≡ some v → Item k v d
  unfolding get
  get-Item k v [] h = cc
  get-Item k v ((j, w) ∷ d) h = ground (arith, get-Item k v d, e.is_same_iff j k)

  Item-ne-none : (k : K) (v : V) (d : Dict K V) → Item k v d → get k d ≢ none
  unfolding get
  Item-ne-none k v [] i = absurd i
  Item-ne-none k v ((j, w) ∷ d) i = ground (arith, Item-ne-none k v d, e.is_same_iff j k)

  pub Item-get : (k : K) (v : V) (d : Dict K V) → Unique d → Item k v d → get k d ≡ some v
  unfolding get
  Item-get k v [] u i = absurd i
  Item-get k v ((j, w) ∷ d) u i =
      ground (arith, Item-get k v d u.1, e.is_same_iff j k, Item-ne-none k v d)

  pub Item-del : (j k : K) (v : V) (d : Dict K V) → Item k v (del j d) → Item k v d × (j ≢ k)
  unfolding del
  Item-del j k v [] i = absurd i
  Item-del j k v ((h, w) ∷ d) i = ground (
    arith,
    Item-del j k v d,
    (e.is_same_iff h j).0,
    (e.is_same_iff h j).1,
    (e.is_same_iff k j).0,
    (e.is_same_iff k j).1,
  )

  keep-none :
      (test : K × V → Bool) (k : K) (d : Dict K V) → get k d ≡ none → get k (keep test d) ≡ none
  unfolding get keep
  keep-none test k [] h = refl
  keep-none test k ((j, w) ∷ d) h = ground (arith, keep-none test k d)

  pub keep-Unique : (test : K × V → Bool) (d : Dict K V) → Unique d → Unique (keep test d)
  unfolding keep
  keep-Unique test [] u = tt
  keep-Unique test ((j, w) ∷ d) u = ground (arith, keep-Unique test d u.1, keep-none test j d u.0)

  -- A selection of entries, read at a key.
  pub get-keep :
      (test : K × V → Bool) (k : K) (d : Dict K V)
      → Unique d
      → get k (keep test d)
        ≡ elim (get k d) [ none ↦ none | some v ↦ if test (k, v) then some v else none ]
  unfolding get keep
  get-keep test k [] u = refl
  get-keep test k ((j, w) ∷ d) u =
      ground (arith, get-keep test k d u.1, e.is_same_iff j k, keep-none test j d u.0)
