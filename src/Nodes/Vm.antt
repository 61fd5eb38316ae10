-- ===== src/Nodes/Vm.antt =====
-- src/kohakuriver/host/services/node_manager.py, `find_suitable_node_for_vm`: the node for a virtual
-- machine, or the reason why there is none. A reason is the data of its text.
pub mod Accept
pub mod Answer
pub mod Gpus
use kohaku_river.Common.{
  ℕ, ◌≡◌, refl, subst, inl, inr, Bool, true, false, not, ◌&&◌, Option, none, some, List, [], ◌∷◌,
  arith, String, if◌then◌else◌, ◌==◌, nat_key, string_key, pair_key, keep, contains, Dict, get,
  Bool-cases, Option-cases, false-ne-true,
}
use kohaku_river.Common.Result.{Result, ok, err}
use kohaku_river.Common.{Item, Item-keep, Item-keep_intro}
use kohaku_river.Common.Int.{ℤ, pos, ltb_ℤ}
use kohaku_river.Tasks.{Task}
use kohaku_river.Tasks.Monitor.{Node}
use kohaku_river.Nodes.{
  sift, Requirements, get_node_available_cores, get_node_available_gpus, get_node_available_memory,
  is_target, most_cores, all_in, enough_memory,
}
use kohaku_river.Nodes.Selection.{most_cores-IsMost, most_cores-none}

-- The TypeError of `sorted` on `None` and a number.
pub data VmError : Type 0 where
  unordered_ids : VmError

-- Why a node is passed over.
pub data Rejection : Type 0 where
  insufficient_cores : String → ℤ → ℕ → Rejection
  insufficient_memory : String → Rejection
  missing_gpus : String → List ℕ → Rejection

pub data Reason : Type 0 where
  node_not_found : String → Reason
  node_not_online : String → String → Reason
  node_not_vm_capable : String → Reason
  no_vm_nodes : Reason
  rejected : List Rejection → Reason

-- `{g.get("gpu_id") for g in vfio_gpus}` without `None`, the value of an entry without the key, which no
-- required GPU is.
abbrev pub vfio_gpu_ids : List (Option ℕ) → List ℕ
vfio_gpu_ids [] = []
vfio_gpu_ids (none ∷ gpus) = vfio_gpu_ids gpus
vfio_gpu_ids (some id ∷ gpus) = id ∷ vfio_gpu_ids gpus

abbrev pub available_vfio : Dict ℕ Task → String → Node → List ℕ
available_vfio tasks hostname node =
    let available = get_node_available_gpus tasks hostname node in
    keep (λ gpu. contains gpu available) (vfio_gpu_ids node.vfio_gpus)

-- `sorted(vfio_gpu_ids)` compares `None` with a number only when the set has both.
abbrev pub has_none : List (Option ℕ) → Bool
has_none [] = false
has_none (none ∷ gpus) = true
has_none (some id ∷ gpus) = has_none gpus

abbrev pub has_number : List (Option ℕ) → Bool
has_number [] = false
has_number (none ∷ gpus) = has_number gpus
has_number (some id ∷ gpus) = true

-- The body of the loop: the reason, if the node is passed over. Its text sorts the ids.
unfoldable pub reject :
    Dict ℕ Task → Requirements → String → Node → Result VmError (Option Rejection)
unfolding get_node_available_cores get_node_available_gpus get_node_available_memory keep contains
reject tasks r hostname node =
    let available_cores = get_node_available_cores tasks hostname node in
    let missing =
      keep (λ gpu. not (contains gpu (available_vfio tasks hostname node))) r.required_gpus in
    if ltb_ℤ available_cores (pos r.required_cores)
    then ok (some (insufficient_cores hostname available_cores r.required_cores))
    else if not
        (enough_memory r.required_memory_bytes (get_node_available_memory tasks hostname node))
    then ok (some (insufficient_memory hostname))
    else elim missing [
      | [] ↦ ok none
      | gpu ∷ gpus ↦
          if has_none node.vfio_gpus && has_number node.vfio_gpus
          then err unordered_ids
          else ok (some (missing_gpus hostname (gpu ∷ gpus)))
    ]

abbrev pub is_accepted : Result VmError (Option Rejection) → Result VmError Bool
is_accepted (err e) = err e
is_accepted (ok none) = ok true
is_accepted (ok (some reason)) = ok false

-- `rejection_reasons` after a loop that did not raise.
abbrev pub rejections : Dict ℕ Task → Requirements → Dict String Node → List Rejection
rejections tasks r [] = []
rejections tasks r ((hostname, node) ∷ nodes) = elim (reject tasks r hostname node) [
  | err e ↦ rejections tasks r nodes
  | ok none ↦ rejections tasks r nodes
  | ok (some reason) ↦ reason ∷ rejections tasks r nodes
]

-- No node passed the query.
abbrev pub why_none : Dict String Node → Option String → Reason
why_none nodes none = no_vm_nodes
why_none nodes (some target) = if target == "" then no_vm_nodes else elim (get target nodes) [
  | none ↦ node_not_found target
  | some node ↦
      if not (node.status == "online")
      then node_not_online target node.status
      else node_not_vm_capable target
]

-- The query.
abbrev pub vm_nodes : Requirements → Dict String Node → Dict String Node
vm_nodes r nodes =
    keep
      (λ item. item.1.status == "online" && item.1.vm_capable && is_target r.target_hostname item.0)
      nodes

-- The node with the most cores among those that were accepted, or the reasons.
abbrev pub best_or_rejected :
    List Rejection → Option (String × Node × ℤ) → Result Reason (String × Node)
best_or_rejected reasons none = err (rejected reasons)
best_or_rejected reasons (some best) = ok (best.0, best.1)

unfoldable pub find_suitable_node_for_vm :
    Dict ℕ Task → Dict String Node → Requirements → Result VmError (Result Reason (String × Node))
unfolding reject sift most_cores keep
find_suitable_node_for_vm tasks nodes r = elim (vm_nodes r nodes) [
  | [] ↦ ok (err (why_none nodes r.target_hostname))
  | item ∷ rest ↦
      elim (sift (λ hostname node. is_accepted (reject tasks r hostname node)) (item ∷ rest)) [
        | err e ↦ err e
        | ok suitable ↦
            ok (best_or_rejected (rejections tasks r (item ∷ rest)) (most_cores tasks suitable))
      ]
]
