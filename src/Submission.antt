-- ===== src/Submission.antt =====
-- src/kohakuriver/host/endpoints/task_submission.py: the submission of a task to one target, from the
-- checks to the runner's answer. The target string is parsed already, and the managers of the overlay
-- exist. The texts of the errors are their kinds. The awaits of a submission are not interleaved with
-- other calls here.
pub mod Networks
pub mod Admission
pub mod Outcome
mod Tests
use kohaku_river.Common.{
  ℕ, zero, suc, ◌+◌, ◌-◌, ◌*◌, ◌/◌, ◌%◌, ◌^◌, ◌≤◌, ◌<◌, ◌≡◌, refl, sym, ap, subst, ◌∙◌, ◌≢◌, ◌⊎◌,
  inl, inr, Bool, true, false, not, ◌&&◌, ◌||◌, Option, none, some, List, [], ◌∷◌, ◌++◌, map, arith,
  String, if◌then◌else◌, ltb, leb, ◌==◌, nat_key, string_key, pair_key, length, get_elem?, take,
  keep, contains, Dict, get, put, del, Bool-cases, Option-cases, Key, eq_of_same, same_refl,
  get-put, get-del,
}
use kohaku_river.Common.Result.{Result, ok, err, ◌>>=◌, ◌>>◌, require, require_some, Result-cases}
use kohaku_river.Common.Int.{ℤ, pos, ltb_ℤ}
use kohaku_river.Tasks.{Task, Tasks, save, schedule_ip_release}
use kohaku_river.Tasks.Monitor.{Node}
use kohaku_river.Tasks.Ports.{allocate_ssh_port}
use kohaku_river.Nodes.{
  get_node_available_cores, get_node_available_gpus, get_node_available_memory, all_in,
  enough_memory,
}
use kohaku_river.Reservation.{Reservations, Network}
use kohaku_river.Reservation.Token.{Signer}
use kohaku_river.Reservation.Methods.{validate_token, use_reservation}
use Networks.{AllocationError, auto_allocate_flat_ips}

-- What the checks of a target refuse.
pub data TargetError : Type 0 where
  invalid_target node_not_registered no_numa_topology invalid_numa_id : TargetError
  invalid_gpu_ids gpus_not_available insufficient_cores insufficient_memory : TargetError
  no_overlay invalid_reservation database_error runner_failed : TargetError
  node_status_is : String → TargetError

-- The request with the settings that `_prepare_task_config` and the user add.
pub record TaskSubmission : Type 0 where
  pub task_type : String
  pub required_cores : ℕ
  pub required_memory_bytes : Option ℕ
  pub ip_reservation_token : Option String
  pub network_name : Option String
  pub network_names : List String
  pub owner_id : Option ℕ
  -- `owner_role == UserRole.USER`
  pub needs_approval : Bool

-- `_parse_target_string`
pub record Target : Type 0 where
  pub hostname : String
  pub numa_id : Option ℕ

pub record Host : Type 0 where
  pub nodes : Dict String Node
  pub jobs : Tasks
  pub reservations : Reservations

unfoldable pub validate_node : String → Dict String Node → Result TargetError Node
unfolding get
validate_node hostname nodes = elim (get hostname nodes) [
  | none ↦ err node_not_registered
  | some node ↦ if not (node.status == "online") then err (node_status_is node.status) else ok node
]

-- The node's NUMA nodes, if the target names one.
abbrev pub validate_numa : Option ℕ → Option (List ℕ) → Result TargetError (Unit {0})
validate_numa none topology = ok tt
validate_numa (some id) none = err no_numa_topology
validate_numa (some id) (some ids) = require (contains id ids) invalid_numa_id

abbrev pub all_below : ℕ → List ℕ → Bool
all_below n [] = true
all_below n (gpu ∷ gpus) = ltb gpu n && all_below n gpus

abbrev pub is_empty {ℓ} : {A : Type ℓ} → List A → Bool
is_empty [] = true
is_empty (x ∷ xs) = false

-- Skipped for a node that reports no GPU, and without required GPUs.
unfoldable pub validate_gpus : Dict ℕ Task → String → Node → List ℕ → Result TargetError (Unit {0})
unfolding get_node_available_gpus contains
validate_gpus tasks hostname node gpus =
    if is_empty node.gpu_info || is_empty gpus
    then ok tt
    else if not (all_below (length node.gpu_info) gpus)
    then err invalid_gpu_ids
    else require (all_in gpus (get_node_available_gpus tasks hostname node)) gpus_not_available

unfoldable pub validate_node_resources :
    Dict ℕ Task → Target → Node → List ℕ → TaskSubmission → Result TargetError (Unit {0})
unfolding validate_gpus get_node_available_cores get_node_available_memory contains
validate_node_resources tasks target node gpus req =
    validate_numa target.numa_id node.numa_topology
    >> validate_gpus tasks target.hostname node gpus
    >> require
        (req.required_cores == 0
          || not (
              ltb_ℤ (get_node_available_cores tasks target.hostname node) (pos req.required_cores)))
        insufficient_cores
    >> require
        (enough_memory req.required_memory_bytes
          (get_node_available_memory tasks target.hostname node))
        insufficient_memory

-- `network_names[0]`, or `network_name`.
abbrev pub primary_network : TaskSubmission → Option String
primary_network req = primary req.network_names
  where
    primary : List String → Option String
    primary [] = req.network_name
    primary (name ∷ names) = some name

-- `req.network_names or ([req.network_name] if req.network_name else None)`
abbrev pub resolved_networks : List String → Option String → List String
resolved_networks [] none = []
resolved_networks [] (some name) = if name == "" then [] else name ∷ []
resolved_networks (name ∷ names) network_name = name ∷ names

-- `if not req.ip_reservation_token`
abbrev pub given : Option String → Option String
given none = none
given (some token) = if token == "" then none else some token

module _ (signer : Signer) (overlay_enabled : Bool) where
  -- The reserved address; without a token, there is none and no error.
  unfoldable pub validate_ip_reservation :
      ℕ → TaskSubmission → String → Reservations → Result TargetError (Option ℕ)
  unfolding validate_token
  validate_ip_reservation now req target_hostname s = elim (given req.ip_reservation_token) [
    | none ↦ ok none
    | some token ↦
        if not overlay_enabled
        then err no_overlay
        else elim (validate_token signer now token (some target_hostname) (primary_network req) s) [
          | none ↦ err invalid_reservation
          | some reservation ↦ ok (some reservation.ip)
        ]
  ]

  -- A token is used up if it gave an address.
  abbrev pub use_token :
      ℕ → TaskSubmission → String → String → Option ℕ → Reservations → Reservations
  use_token now req target_hostname container_name none s = s
  use_token now req target_hostname container_name (some ip) s =
      elim (given req.ip_reservation_token) [
        | none ↦ s
        | some token ↦
            (use_reservation signer now token container_name (some target_hostname)
              (primary_network req) s).1
      ]

-- `"approved" if owner_id else None`
abbrev pub approval_of : Bool → Option ℕ → Option String
approval_of true owner_id = some "pending"
approval_of false none = none
approval_of false (some owner) = some "approved"

-- `approved_by_id`, and with it `approved_at`.
abbrev pub approver : Bool → Option ℕ → Option ℕ
approver true owner_id = none
approver false owner_id = owner_id

abbrev pub vps_port : String → Dict ℕ Task → Option ℕ
vps_port task_type tasks = if task_type == "vps" then allocate_ssh_port tasks else none

-- A new row: a plain user's task waits for approval, any other is approved by its owner.
unfoldable pub create_task_record : ℕ → TaskSubmission → String → List ℕ → Dict ℕ Task → Task
unfolding allocate_ssh_port
create_task_record now req hostname gpus tasks = record {
  task_type = req.task_type;
  required_cores = req.required_cores;
  required_gpus = gpus;
  required_memory_bytes = req.required_memory_bytes;
  owner_id = req.owner_id;
  approval_status = approval_of req.needs_approval req.owner_id;
  approved_by_id = approver req.needs_approval req.owner_id;
  approved_at = elim (approver req.needs_approval req.owner_id) [
    | none ↦ none
    | some owner ↦ some now
  ];
  rejection_reason = none;
  status = if req.needs_approval then "pending_approval" else "assigning";
  assigned_node = some hostname;
  assignment_suspicion_count = 0;
  ssh_port = vps_port req.task_type tasks;
  exit_code = none;
  error_message = none;
  submitted_at = now;
  started_at = none;
  completed_at = none;
}

-- The row of a task whose addresses ran out, and of one whose VPS the runner did not create.
abbrev pub given_up : ℕ → String → Task → Task
given_up now message task = record task {
  status = "failed";
  error_message = some message;
  completed_at = some now;
}

abbrev pub pool_message : String
pool_message = "IP allocation failed: flat-subnet pool exhausted."

-- The runner's answer to a VPS: none, or the SSH port that it may give. A command is sent in the
-- background.
abbrev pub dispatch_task :
    ℕ
    → ℕ
    → TaskSubmission
    → Option (Option ℕ)
    → Task
    → Tasks
    → Result TargetError (Unit {0}) × Tasks
dispatch_task now id req answer task jobs =
    if not (req.task_type == "vps") then (ok tt, jobs) else elim answer [
      | none ↦
          (err runner_failed, save id (given_up now "Failed to create VPS on runner." task) jobs)
      | some none ↦ (ok tt, jobs)
      | some (some port) ↦
          (ok tt, if port == 0 then jobs else save id (record task { ssh_port = some port }) jobs)
    ]

-- The result for a target: an error of the target, or an exception of the whole submission.
pub data Submitted : Type 0 where
  created waits_for_approval : Submitted
  failed_target : TargetError → Submitted
  aborted : AllocationError → Submitted

-- An exhausted pool fails the task and schedules its release; another exception leaves it.
abbrev pub abort : ℕ → ℕ → AllocationError → Task → Tasks → Tasks
abort now id (AllocationError.exhausted name) task jobs =
    schedule_ip_release id (save id (given_up now pool_message task) jobs)
abort now id (AllocationError.raised e) task jobs = jobs

module _ (signer : Signer) (overlay_enabled : Bool) (networks : Dict String Network)
    (container_name : String → ℕ → String) (draw : String → ℕ) where
  -- From the record on: the addresses and the dispatch.
  unfoldable pub dispatch_target :
      ℕ
      → ℕ
      → TaskSubmission
      → Target
      → Option ℕ
      → Option (Option ℕ)
      → Task
      → Host
      → Submitted × Host
  unfolding use_reservation auto_allocate_flat_ips
  dispatch_target now id req target reserved_ip answer task host =
      let name = container_name req.task_type id in
      let used =
        use_token signer overlay_enabled now req target.hostname name reserved_ip
          host.reservations in
      let (result, reservations) =
        auto_allocate_flat_ips now draw networks target.hostname name
          (resolved_networks req.network_names req.network_name) reserved_ip req.network_name
          used in
      elim result [
        | err e ↦ (
          aborted e,
          record host { jobs = abort now id e task host.jobs; reservations = reservations },
        )
        | ok reserved_ips ↦
            let (sent, jobs) = dispatch_task now id req answer task host.jobs in
            (
              elim sent [ err e ↦ failed_target e | ok done ↦ created ],
              record host { jobs = jobs; reservations = reservations },
            )
      ]

  -- The checks before the record.
  abbrev pub check_target :
      ℕ → TaskSubmission → Target → List ℕ → Host → Result TargetError (Option ℕ)
  check_target now req target gpus host = validate_node target.hostname host.nodes >>= λ node.
      validate_node_resources host.jobs.tasks target node gpus req
      >> validate_ip_reservation signer overlay_enabled now req target.hostname host.reservations

  unfoldable pub process_target :
      ℕ → ℕ → TaskSubmission → Option Target → List ℕ → Option (Option ℕ) → Host → Submitted × Host
  unfolding validate_node validate_node_resources validate_ip_reservation create_task_record
      dispatch_target
  process_target now id req none gpus answer host = (failed_target invalid_target, host)
  process_target now id req (some target) gpus answer host =
      elim (check_target now req target gpus host) [
        | err e ↦ (failed_target e, host)
        | ok reserved_ip ↦
            let task = create_task_record now req target.hostname gpus host.jobs.tasks in
            let host' : Host = record host { jobs = save id task host.jobs } in
            if req.needs_approval
            then (waits_for_approval, host')
            else dispatch_target now id req target reserved_ip answer task host'
      ]
