-- ===== src/Submission/Admission.antt =====
-- What the checks of a submission let through.
use kohaku_river.Common.{
  ℕ, ◌≡◌, refl, ap, subst, ◌∙◌, ◌⊎◌, inl, inr, Bool, true, false, not, ◌||◌, Option, some, List,
  arith, String, ◌==◌, nat_key, string_key, pair_key, length, Dict, get, Bool-cases, Option-cases,
  eq_of_same,
}
use kohaku_river.Common.Result.{
  Result, ok, err, ◌>>◌, require, Result-cases, err-ne-ok, ok-injective,
}
use kohaku_river.Common.Int.{pos, ltb_ℤ}
use kohaku_river.Tasks.{Task}
use kohaku_river.Tasks.Monitor.{Node}
use kohaku_river.Nodes.{
  get_node_available_cores, get_node_available_gpus, get_node_available_memory, all_in,
  enough_memory,
}
use kohaku_river.Reservation.Token.{Signer}
use kohaku_river.Submission.{
  TaskSubmission, Target, Host, validate_node, validate_numa, all_below, is_empty, validate_gpus,
  validate_node_resources, validate_ip_reservation, check_target, node_not_registered,
  invalid_gpu_ids, node_status_is, gpus_not_available, insufficient_cores, insufficient_memory,
}
use kohaku_river.Reservation.{Network}

module _ {E A : Type 0} where
  then_ok :
      (m : Result E (Unit {0})) (k : Result E A) (a : A)
      → (m >> k) ≡ ok a
      → (m ≡ ok tt) × (k ≡ ok a)
  then_ok (ok tt) k a h = (refl, h)
  then_ok (err e) k a h = absurd (err-ne-ok e a h)

require-ok : {E : Type 0} (b : Bool) (e : E) → require b e ≡ ok tt → b ≡ true
require-ok true e h = refl
require-ok false e h = absurd (err-ne-ok e tt h)

-- The target's node is online and has the memory left, the cores left if any are asked for and, if it
-- reports GPUs, the GPUs that are asked for left.
abbrev pub IsAdmitted : TaskSubmission → Target → List ℕ → Host → Type 0
IsAdmitted req target gpus host =
    (node : Node) × (get target.hostname host.nodes ≡ some node)
    × (node.status ≡ "online")
    × ((req.required_cores ≡ 0)
        ⊎ (ltb_ℤ (get_node_available_cores host.jobs.tasks target.hostname node)
              (pos req.required_cores)
            ≡ false))
    × (enough_memory req.required_memory_bytes
          (get_node_available_memory host.jobs.tasks target.hostname node)
        ≡ true)
    × ((is_empty node.gpu_info ≡ true)
        ⊎ ((is_empty gpus ≡ true)
            ⊎ (all_in gpus (get_node_available_gpus host.jobs.tasks target.hostname node) ≡ true)))

validate_node-online :
    (hostname : String) (nodes : Dict String Node) (node : Node)
    → validate_node hostname nodes ≡ ok node
    → (get hostname nodes ≡ some node) × (node.status ≡ "online")
unfolding validate_node
validate_node-online hostname nodes node h = elim (Option-cases (get hostname nodes)) [
  | inl missing ↦ absurd (err-ne-ok node_not_registered node (rw (validate_node, missing) at h))
  | inr (n, found) ↦ elim (Bool-cases (n.status == "online")) [
    | inr offline ↦
        absurd (err-ne-ok (node_status_is n.status) node (rw (validate_node, found, offline) at h))
    | inl online ↦
        let e = ok-injective n node (rw (validate_node, found, online) at h) in
        (
          found ∙ ap some e,
          subst (λ x. x.status ≡ "online") e (eq_of_same n.status "online" online),
        )
  ]
]

validate_gpus-free :
    (tasks : Dict ℕ Task) (hostname : String) (node : Node) (gpus : List ℕ)
    → validate_gpus tasks hostname node gpus ≡ ok tt
    → (is_empty node.gpu_info ≡ true)
      ⊎ ((is_empty gpus ≡ true)
          ⊎ (all_in gpus (get_node_available_gpus tasks hostname node) ≡ true))
unfolding validate_gpus
validate_gpus-free tasks hostname node gpus h = elim (Bool-cases (is_empty node.gpu_info)) [
  | inl without ↦ inl without
  | inr some_gpus ↦ elim (Bool-cases (is_empty gpus)) [
    | inl unasked ↦ inr (inl unasked)
    | inr asked ↦ elim (Bool-cases (all_below (length node.gpu_info) gpus)) [
      | inr beyond ↦
          absurd (err-ne-ok invalid_gpu_ids tt (rw (validate_gpus, some_gpus, asked, beyond) at h))
      | inl below ↦ inr (
          inr (
            require-ok (all_in gpus (get_node_available_gpus tasks hostname node))
              gpus_not_available (rw (validate_gpus, some_gpus, asked, below) at h)))
    ]
  ]
]

enough : (cores : ℕ) (few : Bool) → (cores == 0 || not few) ≡ true → (cores ≡ 0) ⊎ (few ≡ false)
enough cores few h = ground (arith, nat_key.is_same_iff cores 0)

resources-ok :
    (tasks : Dict ℕ Task) (target : Target) (node : Node) (gpus : List ℕ) (req : TaskSubmission)
    → validate_node_resources tasks target node gpus req ≡ ok tt
    → ((req.required_cores ≡ 0)
        ⊎ (ltb_ℤ (get_node_available_cores tasks target.hostname node) (pos req.required_cores)
            ≡ false))
      × (enough_memory req.required_memory_bytes
            (get_node_available_memory tasks target.hostname node)
          ≡ true)
      × ((is_empty node.gpu_info ≡ true)
          ⊎ ((is_empty gpus ≡ true)
              ⊎ (all_in gpus (get_node_available_gpus tasks target.hostname node) ≡ true)))
unfolding validate_node_resources
resources-ok tasks target node gpus req h =
    let few : Bool =
      ltb_ℤ (get_node_available_cores tasks target.hostname node) (pos req.required_cores) in
    let c : Bool = req.required_cores == 0 || not few in
    let m : Bool =
      enough_memory req.required_memory_bytes
        (get_node_available_memory tasks target.hostname node) in
    let numa = validate_numa target.numa_id node.numa_topology in
    let free = validate_gpus tasks target.hostname node gpus in
    let (abc, memory) =
      then_ok (numa >> free >> require c insufficient_cores) (require m insufficient_memory) tt h in
    let (ab, cores) = then_ok (numa >> free) (require c insufficient_cores) tt abc in
    let (a, b) = then_ok numa free tt ab in
    (
      enough req.required_cores few (require-ok c insufficient_cores cores),
      require-ok m insufficient_memory memory,
      validate_gpus-free tasks target.hostname node gpus b,
    )

module _ (signer : Signer) (overlay_enabled : Bool) where
  pub check_target-IsAdmitted :
      (networks : Dict String Network) (container_name : String → ℕ → String) (draw : String → ℕ)
      (now : ℕ) (req : TaskSubmission) (target : Target) (gpus : List ℕ) (host : Host)
      (reserved_ip : Option ℕ)
      → check_target signer overlay_enabled networks container_name draw now req target gpus host
        ≡ ok reserved_ip
      → IsAdmitted req target gpus host
  check_target-IsAdmitted networks container_name draw now req target gpus host reserved_ip h =
      elim (Result-cases (validate_node target.hostname host.nodes)) [
        | inr (e, refused) ↦ absurd (err-ne-ok e reserved_ip (rw (check_target, refused) at h))
        | inl (node, fine) ↦
            let (found, online) = validate_node-online target.hostname host.nodes node fine in
            let resources =
              then_ok (validate_node_resources host.jobs.tasks target node gpus req)
                (validate_ip_reservation signer overlay_enabled now req target.hostname
                  host.reservations)
                reserved_ip (rw (check_target, fine) at h) in
            let (cores, memory, free) =
              resources-ok host.jobs.tasks target node gpus req resources.0 in
            (node, found, online, cores, memory, free)
      ]
