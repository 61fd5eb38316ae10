-- ===== src/Nodes/Vm/Answer.antt =====
-- src/kohakuriver/host/services/node_manager.py, `find_suitable_node_for_vm`: what it answers.
use kohaku_river.Common.{
  ℕ, List, In, ◌≡◌, refl, ap, subst, Bool, true, false, ◌&&◌, Option, none, some, [], ◌∷◌, arith,
  String, ◌==◌, nat_key, string_key, pair_key, Dict,
}
use kohaku_river.Common.{Item, Item-keep, Item-keep_intro}
use kohaku_river.Common.Int.{ℤ, ltb_ℤ, ◌≤ℤ◌}
use kohaku_river.Common.Result.{Result, ok, err}
use kohaku_river.Tasks.{Task}
use kohaku_river.Tasks.Monitor.{Node}
use kohaku_river.Nodes.{Requirements, sift, get_node_available_cores, is_target, most_cores}
use kohaku_river.Nodes.Vm.{
  VmError, Rejection, Reason, rejections, why_none, vm_nodes, best_or_rejected,
  find_suitable_node_for_vm,
}
use kohaku_river.Nodes.Sift.{Item-sift, sift-Item, sift-raises}
use kohaku_river.Nodes.Selection.{most_cores-IsMost, most_cores-none}
use kohaku_river.Nodes.Needs.{Targets, is_target_iff, most-le}
use kohaku_river.Nodes.Vm.Accept.{HasRoom, HasGpus, accepts, accepts-ok, ok-accepts, accepts-err}

-- The node is online and can run virtual machines, and is the target if one is named.
abbrev pub IsVmCandidate : Requirements → String → Node → Type 0
IsVmCandidate r h n = (n.status ≡ "online") × (n.vm_capable ≡ true) × Targets r.target_hostname h

abbrev pub Fits : Dict ℕ Task → Requirements → String → Node → Type 0
Fits tasks r h n = IsVmCandidate r h n × HasRoom tasks r h n × HasGpus tasks r h n

-- What `find_suitable_node_for_vm` answers.
abbrev pub Answer :
    Dict ℕ Task
    → Dict String Node
    → Requirements
    → Result VmError (Result Reason (String × Node))
    → Type 0
Answer tasks nodes r (err e) =
    (k : String) × (m : Node) × (id : ℕ) × Item k m nodes
    × IsVmCandidate r k m
    × HasRoom tasks r k m
    × (¬ HasGpus tasks r k m)
    × In none m.vfio_gpus
    × In (some id) m.vfio_gpus
Answer tasks nodes r (ok (err reason)) =
    (k : String) (m : Node) → Item k m nodes → ¬ Fits tasks r k m
Answer tasks nodes r (ok (ok (h, n))) =
    Item h n nodes
    × Fits tasks r h n
    × ((k : String) (m : Node)
        → Item k m nodes
        → Fits tasks r k m
        → get_node_available_cores tasks k m ≤ℤ get_node_available_cores tasks h n)

abbrev query : Requirements → String × Node → Bool
query r x = x.1.status == "online" && x.1.vm_capable && is_target r.target_hostname x.0

module _ (tasks : Dict ℕ Task) (nodes : Dict String Node) (r : Requirements) where
  query-IsVmCandidate : (h : String) (n : Node) → query r (h, n) ≡ true → IsVmCandidate r h n
  query-IsVmCandidate h n e = (
    ground (arith, string_key.is_same_iff n.status "online"),
    ground arith,
    (is_target_iff r.target_hostname h).0 (ground arith),
  )

  IsVmCandidate-query : (h : String) (n : Node) → IsVmCandidate r h n → query r (h, n) ≡ true
  IsVmCandidate-query h n (on, capable, target) = ground (
    arith,
    string_key.is_same_iff n.status "online",
    capable,
    (is_target_iff r.target_hostname h).1 target,
  )

  module _ (l : Dict String Node) (sifted : sift (accepts tasks r) (vm_nodes r nodes) ≡ ok l) where
    Fits-Item : (k : String) (m : Node) → Item k m nodes → Fits tasks r k m → Item k m l
    Fits-Item k m i (candidate, room, gpus) =
        sift-Item (accepts tasks r) (vm_nodes r nodes) l k m sifted
          (Item-keep_intro (query r) nodes k m i (IsVmCandidate-query k m candidate))
          (ok-accepts tasks r k m room gpus)

    Item-Fits : (k : String) (m : Node) → Item k m l → Item k m nodes × Fits tasks r k m
    Item-Fits k m i =
        let (j, passes) = Item-sift (accepts tasks r) (vm_nodes r nodes) l k m sifted i in
        let (in_table, selected) = Item-keep (query r) nodes k m j in
        let (room, gpus) = accepts-ok tasks r k m passes in
        (in_table, (query-IsVmCandidate k m selected, room, gpus))

    best_or_rejected-Answer :
        (reasons : List Rejection) (best : Option (String × Node × ℤ))
        → most_cores tasks l ≡ best
        → Answer tasks nodes r (ok (best_or_rejected reasons best))
    best_or_rejected-Answer reasons none e =
        λ k m i s. subst (Item k m) (most_cores-none tasks l e) (Fits-Item k m i s)
    best_or_rejected-Answer reasons (some item) e =
        let (i, same, most) = most_cores-IsMost tasks l item e in
        let (in_table, good) = Item-Fits item.0 item.1 i in
        (
          in_table,
          good,
          λ k m j s.
              most-le (get_node_available_cores tasks item.0 item.1)
                (get_node_available_cores tasks k m)
                (subst (λ x. ltb_ℤ x (get_node_available_cores tasks k m) ≡ false) same
                  (most k m (Fits-Item k m j s))),
        )

  sift-Answer :
      (reasons : List Rejection) (sifted : Result VmError (Dict String Node))
      → sift (accepts tasks r) (vm_nodes r nodes) ≡ sifted
      → Answer tasks nodes r (elim sifted [
        | err e ↦ err e
        | ok suitable ↦ ok (best_or_rejected reasons (most_cores tasks suitable))
      ])
  sift-Answer reasons (ok l) e = best_or_rejected-Answer l e reasons (most_cores tasks l) refl
  sift-Answer reasons (err x) e =
      let (k, m, i, raised) = sift-raises (accepts tasks r) (vm_nodes r nodes) x e in
      let (in_table, selected) = Item-keep (query r) nodes k m i in
      let (room, no_gpus, unnamed, (id, named)) = accepts-err tasks r k m x raised in
      (k, m, id, in_table, query-IsVmCandidate k m selected, room, no_gpus, unnamed, named)

-- The node that is found for a virtual machine is online and can run them, is the target if one is
-- named, has the cores and the memory left, and has every required GPU free and bound to VFIO; no
-- other such node has more cores left. A reason is answered only if there is no such node. The
-- TypeError comes only when an online node that can run virtual machines, the target if one is
-- named, has the cores and the memory left, lacks a required GPU, and has VFIO GPUs both with and
-- without an id.
pub find_suitable_node_for_vm-Answer :
    (tasks : Dict ℕ Task) (nodes : Dict String Node) (r : Requirements)
    → Answer tasks nodes r (find_suitable_node_for_vm tasks nodes r)
unfolding find_suitable_node_for_vm
find_suitable_node_for_vm-Answer tasks nodes r = answer (vm_nodes r nodes) refl
  where
    answer :
        (l : Dict String Node)
        → vm_nodes r nodes ≡ l
        → Answer tasks nodes r (elim l [
          | [] ↦ ok (err (why_none nodes r.target_hostname))
          | item ∷ rest ↦ elim (sift (accepts tasks r) (item ∷ rest)) [
            | err e ↦ err e
            | ok suitable ↦
                ok (best_or_rejected (rejections tasks r (item ∷ rest)) (most_cores tasks suitable))
          ]
        ])
    answer [] e = λ k m i (candidate, room, gpus).
        subst (Item k m) e
          (Item-keep_intro (query r) nodes k m i (IsVmCandidate-query tasks nodes r k m candidate))
    answer (item ∷ rest) e =
        sift-Answer tasks nodes r (rejections tasks r (item ∷ rest))
          (sift (accepts tasks r) (item ∷ rest)) (ap (sift (accepts tasks r)) e)
