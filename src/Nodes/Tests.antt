-- ===== src/Nodes/Tests.antt =====
-- Nodes with tasks on them, and the theorems about them there.
use kohaku_river.Common.{
  ℕ, ◌≡◌, refl, true, none, some, [], ◌∷◌, String, nat_key, string_key, pair_key, keep, contains,
  Dict, get,
}
use kohaku_river.Common.Result.{ok, err}
use kohaku_river.Common.{Unique}
use kohaku_river.Tasks.{Task}
use kohaku_river.Tasks.Monitor.{Node}
use kohaku_river.Nodes.{Requirements, no_topology, sift, find_suitable_node}
use kohaku_river.Nodes.Selection.{Chosen, find_suitable_node-Chosen}
use kohaku_river.Nodes.Usage.{get_all_nodes_status, statuses_alone, get_all_nodes_status-alone}
use kohaku_river.Nodes.Vm.{find_suitable_node_for_vm, missing_gpus, rejected, unordered_ids}
use kohaku_river.Nodes.Vm.Answer.{Answer, find_suitable_node_for_vm-Answer}

abbrev work : Task
work = record {
  task_type = "command";
  required_cores = 6;
  required_gpus = 1 ∷ [];
  required_memory_bytes = some 30_000;
  owner_id = none;
  approval_status = none;
  approved_by_id = none;
  approved_at = none;
  rejection_reason = none;
  status = "running";
  assigned_node = some "alpha";
  assignment_suspicion_count = 0;
  ssh_port = none;
  exit_code = none;
  error_message = none;
  submitted_at = 1;
  started_at = some 2;
  completed_at = none;
}

abbrev tasks : Dict ℕ Task
tasks = (1, work) ∷ (2, record work { assigned_node = some "beta"; status = "pending" }) ∷ []

abbrev alpha : Node
alpha = record {
  url = "http://10.1.0.7:8001";
  total_cores = 16;
  memory_total_bytes = some 64_000;
  memory_used_bytes = some 9_000;
  status = "online";
  last_heartbeat = 10;
  numa_topology = some (0 ∷ []);
  gpu_info = some 0 ∷ none ∷ [];
  vm_capable = true;
  vfio_gpus = some 1 ∷ [];
}

abbrev nodes : Dict String Node
nodes =
    ("alpha", alpha)
    ∷ ("beta", record alpha { total_cores = 12 })
    ∷ ("gamma", record alpha { total_cores = 64; status = "offline" })
    ∷ []

abbrev needs : Requirements
needs = record {
  required_cores = 8;
  required_gpus = 0 ∷ [];
  required_memory_bytes = some 20_000;
  target_hostname = none;
  target_numa_node_id = none;
}

-- alpha has 10 cores left of 16, beta all its 12; gamma is offline.
beta-found :
    find_suitable_node tasks nodes needs ≡ ok (some ("beta", record alpha { total_cores = 12 }))
unfolding find_suitable_node sift keep contains
beta-found = refl

-- The first node that has the resources gets as far as its topology.
numa-never :
    find_suitable_node tasks nodes (record needs { target_numa_node_id = some 0 }) ≡ ok none
unfolding find_suitable_node sift keep contains
numa-never = refl

numa-raises :
    find_suitable_node tasks
      (("beta", record alpha { numa_topology = none }) ∷ [])
      (record needs { target_numa_node_id = some 0 })
    ≡ err no_topology
unfolding find_suitable_node sift keep contains
numa-raises = refl

find_suitable_node-Chosen_example : Chosen tasks nodes needs (find_suitable_node tasks nodes needs)
find_suitable_node-Chosen_example = find_suitable_node-Chosen tasks nodes needs

-- The GPU 1 is bound to VFIO, but the task on alpha uses it there.
vm-on_beta :
    find_suitable_node_for_vm tasks nodes (record needs { required_gpus = 1 ∷ [] })
    ≡ ok (ok ("beta", record alpha { total_cores = 12 }))
unfolding find_suitable_node_for_vm sift keep contains
vm-on_beta = refl

vm-rejected :
    find_suitable_node_for_vm tasks nodes
      (record needs { required_gpus = 1 ∷ []; target_hostname = some "alpha" })
    ≡ ok (err (rejected (missing_gpus "alpha" (1 ∷ []) ∷ [])))
unfolding find_suitable_node_for_vm sift keep contains
vm-rejected = refl

vm-raises :
    find_suitable_node_for_vm tasks
      (("beta", record alpha { vfio_gpus = none ∷ some 1 ∷ [] }) ∷ [])
      needs
    ≡ err unordered_ids
unfolding find_suitable_node_for_vm sift keep contains
vm-raises = refl

find_suitable_node_for_vm-Answer_example :
    Answer tasks nodes needs (find_suitable_node_for_vm tasks nodes needs)
find_suitable_node_for_vm-Answer_example = find_suitable_node_for_vm-Answer tasks nodes needs

nodes-Unique : Unique nodes
unfolding get
nodes-Unique = (refl, (refl, (refl, tt)))

nodes-named : get "" nodes ≡ none
unfolding get
nodes-named = refl

get_all_nodes_status-alone_example : get_all_nodes_status tasks nodes ≡ statuses_alone tasks nodes
get_all_nodes_status-alone_example = get_all_nodes_status-alone tasks nodes nodes-Unique nodes-named
