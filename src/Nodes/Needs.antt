-- ===== src/Nodes/Needs.antt =====
-- src/kohakuriver/host/services/node_manager.py, `_node_meets_requirements`: what a node that passes it
-- has.
use kohaku_river.Common.{
  ℕ, ◌≤◌, ◌≢◌, ◌⊎◌, ◌↔◌, List, In, All, contains, false-ne-true, ◌≡◌, refl, sym, ap, Bool, true,
  false, not, Option, none, some, [], ◌∷◌, arith, String, if◌then◌else◌, nat_key, string_key,
  pair_key, Dict, none-ne-some,
}
use kohaku_river.Common.Int.{ℤ, pos, ltb_ℤ, ◌≤ℤ◌}
use kohaku_river.Common.Result.{Result, ok, err, err-ne-ok, ok-injective}
use kohaku_river.Tasks.{Task}
use kohaku_river.Tasks.Monitor.{Node}
use kohaku_river.Nodes.{
  Requirements, NumaError, no_topology, all_in, enough_memory, meets_numa, get_node_available_gpus,
  get_node_available_memory, get_node_available_cores, node_meets_requirements, is_target,
}

-- A list of GPUs that are all in another.
abbrev pub HasAll : List ℕ → List ℕ → Type 0
HasAll gpus available = All (λ gpu. In gpu available) gpus

abbrev pub HasMemory : Option ℕ → ℕ → Type 0
HasMemory none available = Unit
HasMemory (some needed) available = needed ≤ available

abbrev pub Targets : Option String → String → Type 0
Targets none hostname = Unit
Targets (some target) hostname = (target ≡ "") ⊎ (hostname ≡ target)

-- The node is online, and is the target if one is named.
abbrev pub IsCandidate : Requirements → String → Node → Type 0
IsCandidate r h n = (n.status ≡ "online") × Targets r.target_hostname h

-- The node has the cores, the GPUs and the memory left.
abbrev pub IsRoomy : Dict ℕ Task → Requirements → String → Node → Type 0
IsRoomy tasks r h n =
    (pos r.required_cores ≤ℤ get_node_available_cores tasks h n)
    × HasAll r.required_gpus (get_node_available_gpus tasks h n)
    × HasMemory r.required_memory_bytes (get_node_available_memory tasks h n)

abbrev pub IsSuitable : Dict ℕ Task → Requirements → String → Node → Type 0
IsSuitable tasks r h n = IsCandidate r h n × IsRoomy tasks r h n × (r.target_numa_node_id ≡ none)

pub contains_iff : (gpu : ℕ) (l : List ℕ) → (contains gpu l ≡ true) ↔ In gpu l
unfolding contains
contains_iff gpu [] = (λ h. false-ne-true h, λ i. absurd i)
contains_iff gpu (x ∷ l) = (
  λ h. ground (arith, (contains_iff gpu l).0, nat_key.is_same_iff x gpu),
  λ i. ground (arith, (contains_iff gpu l).1, nat_key.is_same_iff x gpu),
)

pub all_in_iff : (gpus available : List ℕ) → (all_in gpus available ≡ true) ↔ HasAll gpus available
all_in_iff [] available = (λ h. tt, λ h. refl)
all_in_iff (gpu ∷ gpus) available = (
  λ h. ground (arith, (all_in_iff gpus available).0, (contains_iff gpu available).0),
  λ h. ground (arith, (all_in_iff gpus available).1, (contains_iff gpu available).1),
)

pub enough_memory_iff :
    (needed : Option ℕ) (available : ℕ)
    → (enough_memory needed available ≡ true) ↔ HasMemory needed available
enough_memory_iff none available = (λ h. tt, λ h. refl)
enough_memory_iff (some needed) available = (λ h. ground arith, λ h. ground arith)

pub is_target_iff :
    (target : Option String) (h : String) → (is_target target h ≡ true) ↔ Targets target h
is_target_iff none h = (λ e. tt, λ e. refl)
is_target_iff (some target) h = (
  λ e. ground (arith, string_key.is_same_iff target "", string_key.is_same_iff h target),
  λ e. ground (arith, string_key.is_same_iff target "", string_key.is_same_iff h target),
)

pub enough_cores_iff : (needed : ℕ) (a : ℤ) → (ltb_ℤ a (pos needed) ≡ false) ↔ (pos needed ≤ℤ a)
enough_cores_iff needed a = (λ h. ground arith, λ h. ground arith)

pub most-le : (a b : ℤ) → ltb_ℤ a b ≡ false → b ≤ℤ a
most-le a b h = ground arith

-- The tests of `_node_meets_requirements`, in order.
abbrev gates : Bool → Bool → Bool → Result NumaError Bool → Result NumaError Bool
gates few all enough numa =
    if few then ok false else if not all then ok false else if not enough then ok false else numa

gates-ok :
    (few all enough : Bool) (numa : Result NumaError Bool)
    → gates few all enough numa ≡ ok true
    → (few ≡ false) × (all ≡ true) × (enough ≡ true) × (numa ≡ ok true)
gates-ok true all enough numa e = absurd (false-ne-true (ok-injective false true e))
gates-ok false false enough numa e = absurd (false-ne-true (ok-injective false true e))
gates-ok false true false numa e = absurd (false-ne-true (ok-injective false true e))
gates-ok false true true numa e = (refl, refl, refl, e)

gates-err :
    (few all enough : Bool) (numa : Result NumaError Bool) (x : NumaError)
    → gates few all enough numa ≡ err x
    → (few ≡ false) × (all ≡ true) × (enough ≡ true) × (numa ≡ err x)
gates-err true all enough numa x e = absurd (err-ne-ok x false (sym e))
gates-err false false enough numa x e = absurd (err-ne-ok x false (sym e))
gates-err false true false numa x e = absurd (err-ne-ok x false (sym e))
gates-err false true true numa x e = (refl, refl, refl, e)

gates-open :
    (few all enough : Bool) (numa : Result NumaError Bool)
    → few ≡ false
    → all ≡ true
    → enough ≡ true
    → numa ≡ ok true
    → gates few all enough numa ≡ ok true
gates-open few all enough numa f a m n = rw (f, a, m) n

meets_numa-ok :
    (id : Option ℕ) (topology : Option (List ℕ)) → meets_numa id topology ≡ ok true → id ≡ none
meets_numa-ok none topology e = refl
meets_numa-ok (some id) none e = absurd (err-ne-ok no_topology true e)
meets_numa-ok (some id) (some topology) e = absurd (false-ne-true (ok-injective false true e))

meets_numa-err :
    (id : Option ℕ) (topology : Option (List ℕ)) (x : NumaError)
    → meets_numa id topology ≡ err x
    → (id ≢ none) × (topology ≡ none)
meets_numa-err none topology x e = absurd (err-ne-ok x true (sym e))
meets_numa-err (some id) none x e = (λ h. none-ne-some id (sym h), refl)
meets_numa-err (some id) (some topology) x e = absurd (err-ne-ok x false (sym e))

module _ (tasks : Dict ℕ Task) (r : Requirements) (h : String) (n : Node) where
  cores :
      (ltb_ℤ (get_node_available_cores tasks h n) (pos r.required_cores) ≡ false)
      ↔ (pos r.required_cores ≤ℤ get_node_available_cores tasks h n)
  cores = enough_cores_iff r.required_cores (get_node_available_cores tasks h n)

  gpus :
      (all_in r.required_gpus (get_node_available_gpus tasks h n) ≡ true)
      ↔ HasAll r.required_gpus (get_node_available_gpus tasks h n)
  gpus = all_in_iff r.required_gpus (get_node_available_gpus tasks h n)

  memory :
      (enough_memory r.required_memory_bytes (get_node_available_memory tasks h n) ≡ true)
      ↔ HasMemory r.required_memory_bytes (get_node_available_memory tasks h n)
  memory = enough_memory_iff r.required_memory_bytes (get_node_available_memory tasks h n)

  pub node_meets_requirements-IsRoomy :
      node_meets_requirements tasks r h n ≡ ok true
      → IsRoomy tasks r h n × (r.target_numa_node_id ≡ none)
  unfolding node_meets_requirements
  node_meets_requirements-IsRoomy e =
      let (f, a, m, x) =
        gates-ok (ltb_ℤ (get_node_available_cores tasks h n) (pos r.required_cores))
          (all_in r.required_gpus (get_node_available_gpus tasks h n))
          (enough_memory r.required_memory_bytes (get_node_available_memory tasks h n))
          (meets_numa r.target_numa_node_id n.numa_topology) e in
      ((cores.0 f, gpus.0 a, memory.0 m), meets_numa-ok r.target_numa_node_id n.numa_topology x)

  pub IsRoomy-node_meets_requirements :
      IsRoomy tasks r h n
      → r.target_numa_node_id ≡ none
      → node_meets_requirements tasks r h n ≡ ok true
  unfolding node_meets_requirements
  IsRoomy-node_meets_requirements (f, a, m) numa =
      gates-open (ltb_ℤ (get_node_available_cores tasks h n) (pos r.required_cores))
        (all_in r.required_gpus (get_node_available_gpus tasks h n))
        (enough_memory r.required_memory_bytes (get_node_available_memory tasks h n))
        (meets_numa r.target_numa_node_id n.numa_topology) (cores.1 f) (gpus.1 a) (memory.1 m)
        (ap (λ id. meets_numa id n.numa_topology) numa)

  pub node_meets_requirements-raises :
      (x : NumaError)
      → node_meets_requirements tasks r h n ≡ err x
      → IsRoomy tasks r h n × (r.target_numa_node_id ≢ none) × (n.numa_topology ≡ none)
  unfolding node_meets_requirements
  node_meets_requirements-raises x e =
      let (f, a, m, y) =
        gates-err (ltb_ℤ (get_node_available_cores tasks h n) (pos r.required_cores))
          (all_in r.required_gpus (get_node_available_gpus tasks h n))
          (enough_memory r.required_memory_bytes (get_node_available_memory tasks h n))
          (meets_numa r.target_numa_node_id n.numa_topology) x e in
      let (asked, missing) = meets_numa-err r.target_numa_node_id n.numa_topology x y in
      ((cores.0 f, gpus.0 a, memory.0 m), asked, missing)
