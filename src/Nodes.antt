-- ===== src/Nodes.antt =====
-- src/kohakuriver/host/services/node_manager.py: what a node has left, and the node for a task. A node
-- is a row of the table with its host name as the key; a query selects rows in the table's order. The
-- JSON columns are the lists they encode.
pub mod Needs
pub mod Selection
pub mod Sift
pub mod Usage
pub mod Vm
mod Tests
use kohaku_river.Common.{
  ℕ, zero, suc, ◌+◌, ◌-◌, ◌*◌, ◌/◌, ◌%◌, ◌^◌, ◌≤◌, ◌<◌, ◌≡◌, refl, sym, ap, subst, ◌∙◌, ◌≢◌, ◌⊎◌,
  inl, inr, Bool, true, false, not, ◌&&◌, ◌||◌, Option, none, some, List, [], ◌∷◌, ◌++◌, map, arith,
  String, if◌then◌else◌, ltb, leb, ◌==◌, nat_key, string_key, pair_key, length, get_elem?, take,
  keep, contains, Dict, get, put, del, Bool-cases, Option-cases, Key, eq_of_same, same_refl,
  get-put, get-del,
}
use kohaku_river.Common.Result.{Result, ok, err, ◌>>=◌, ◌>>◌, require, require_some, Result-cases}
use kohaku_river.Common.Int.{ℤ, pos, sub_ℕ, ltb_ℤ}
use kohaku_river.Tasks.{Task}
use kohaku_river.Tasks.Monitor.{Node, is_on}

-- The tasks that use a node's resources.
abbrev pub uses : String → Task → Bool
uses hostname task = is_on hostname task && contains task.status ("running" ∷ "assigning" ∷ [])

-- `SUM(...)` over the selected rows, and `or 0`.
unfoldable pub total_of : (Task → ℕ) → Dict ℕ Task → ℕ
total_of amount [] = 0
total_of amount ((id, task) ∷ rows) = amount task + total_of amount rows

abbrev pub or_zero : Option ℕ → ℕ
or_zero none = 0
or_zero (some n) = n

abbrev pub max : ℕ → ℕ → ℕ
max a b = if ltb a b then b else a

-- `total_cores - used`, which can be negative.
unfoldable pub get_node_available_cores : Dict ℕ Task → String → Node → ℤ
unfolding keep total_of
get_node_available_cores tasks hostname node =
    sub_ℕ node.total_cores
      (total_of (λ task. task.required_cores) (keep (λ item. uses hostname item.1) tasks))

-- `gpu.get("gpu_id", i) for i, gpu in enumerate(gpu_info)`, from `i` on.
abbrev pub gpu_ids_from : ℕ → List (Option ℕ) → List ℕ
gpu_ids_from i [] = []
gpu_ids_from i (none ∷ gpus) = i ∷ gpu_ids_from (i + 1) gpus
gpu_ids_from i (some id ∷ gpus) = id ∷ gpu_ids_from (i + 1) gpus

abbrev pub used_gpus : Dict ℕ Task → List ℕ
used_gpus [] = []
used_gpus ((id, task) ∷ rows) = task.required_gpus ++ used_gpus rows

-- The set is a list.
unfoldable pub get_node_available_gpus : Dict ℕ Task → String → Node → List ℕ
unfolding keep contains
get_node_available_gpus tasks hostname node =
    let used = used_gpus (keep (λ item. uses hostname item.1) tasks) in
    keep (λ gpu. not (contains gpu used)) (gpu_ids_from 0 node.gpu_info)

-- `max(0, total - max(reserved, currently_used))`
unfoldable pub get_node_available_memory : Dict ℕ Task → String → Node → ℕ
unfolding keep total_of
get_node_available_memory tasks hostname node =
    or_zero node.memory_total_bytes
    - max
        (total_of (λ task. or_zero task.required_memory_bytes)
          (keep (λ item. uses hostname item.1) tasks))
        (or_zero node.memory_used_bytes)

-- The arguments of `find_suitable_node`; `none` and an empty value are both falsy, but for the NUMA
-- node. `find_suitable_node_for_vm` has no such argument.
pub record Requirements : Type 0 where
  pub required_cores : ℕ
  pub required_gpus : List ℕ
  pub required_memory_bytes : Option ℕ
  pub target_hostname : Option String
  pub target_numa_node_id : Option ℕ

-- The AttributeError of `None.get`.
pub data NumaError : Type 0 where
  no_topology : NumaError

abbrev pub all_in : List ℕ → List ℕ → Bool
all_in [] available = true
all_in (gpu ∷ gpus) available = contains gpu available && all_in gpus available

-- `if required_memory_bytes:`, which 0 skips as well.
abbrev pub enough_memory : Option ℕ → ℕ → Bool
enough_memory none available = true
enough_memory (some needed) available = not (ltb available needed)

-- `get_numa_topology` gives a dictionary whose keys are numbers, so `get("numa_nodes", [])` is the empty
-- list and no id is in it.
abbrev pub meets_numa : Option ℕ → Option (List ℕ) → Result NumaError Bool
meets_numa none topology = ok true
meets_numa (some id) none = err no_topology
meets_numa (some id) (some topology) = ok false

-- `_node_meets_requirements`: without required GPUs, `all_in` holds.
unfoldable pub node_meets_requirements :
    Dict ℕ Task → Requirements → String → Node → Result NumaError Bool
unfolding get_node_available_cores get_node_available_gpus get_node_available_memory
node_meets_requirements tasks r hostname node =
    if ltb_ℤ (get_node_available_cores tasks hostname node) (pos r.required_cores)
    then ok false
    else if not (all_in r.required_gpus (get_node_available_gpus tasks hostname node))
    then ok false
    else if not
        (enough_memory r.required_memory_bytes (get_node_available_memory tasks hostname node))
    then ok false
    else meets_numa r.target_numa_node_id node.numa_topology

-- The loop that keeps the nodes that pass a test, which may raise.
unfoldable pub sift :
    {E : Type 0} → (String → Node → Result E Bool) → Dict String Node → Result E (Dict String Node)
sift test [] = ok []
sift test ((hostname, node) ∷ nodes) =
    let rest = sift test nodes in
    elim (test hostname node) [
      | err e ↦ err e
      | ok passes ↦ elim rest [
        | err e ↦ err e
        | ok others ↦ ok (if passes then (hostname, node) ∷ others else others)
      ]
    ]

abbrev pub is_target : Option String → String → Bool
is_target none hostname = true
is_target (some target) hostname = target == "" || hostname == target

-- `sort(key=cores, reverse=True)` keeps the order of equals, so its first is the first of the
-- largest.
abbrev pub better : String × Node × ℤ → Option (String × Node × ℤ) → Option (String × Node × ℤ)
better item none = some item
better item (some other) = some (if ltb_ℤ item.2 other.2 then other else item)

unfoldable pub most_cores : Dict ℕ Task → Dict String Node → Option (String × Node × ℤ)
unfolding get_node_available_cores
most_cores tasks [] = none
most_cores tasks ((hostname, node) ∷ nodes) =
    better (hostname, node, get_node_available_cores tasks hostname node) (most_cores tasks nodes)

abbrev pub named : Option (String × Node × ℤ) → Option (String × Node)
named none = none
named (some item) = some (item.0, item.1)

unfoldable pub find_suitable_node :
    Dict ℕ Task → Dict String Node → Requirements → Result NumaError (Option (String × Node))
unfolding node_meets_requirements sift most_cores keep
find_suitable_node tasks nodes r =
    elim (sift (node_meets_requirements tasks r)
      (keep (λ item. item.1.status == "online" && is_target r.target_hostname item.0) nodes)) [
        | err e ↦ err e
        | ok suitable ↦ ok (named (most_cores tasks suitable))
      ]
