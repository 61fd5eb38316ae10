-- ===== src/Submission/Tests.antt =====
-- Submissions to a node with some tasks.
use kohaku_river.Common.{
  ℕ, ◌≡◌, refl, true, false, none, some, [], ◌∷◌, String, nat_key, string_key, pair_key, keep,
  contains, Dict, get,
}
use kohaku_river.Tasks.Monitor.{Node}
use kohaku_river.Reservation.{Network, cleanup_expired, forget_all}
use kohaku_river.Reservation.Token.{Signer}
use kohaku_river.Submission.Networks.{exhausted, auto_allocate_flat_ips, allocate_flat}
use kohaku_river.Submission.{
  TaskSubmission, Target, Host, process_target, aborted, failed_target, insufficient_cores,
  validate_node, validate_node_resources, validate_gpus, validate_ip_reservation, dispatch_target,
}
use kohaku_river.Submission.Outcome.{Outcome}
use kohaku_river.Nodes.{
  get_node_available_gpus, get_node_available_cores, get_node_available_memory,
}
use kohaku_river.Reservation.Methods.{auto_allocate_ip}
use kohaku_river.Overlay.Subnet.{is_flat}

abbrev alpha : Node
alpha = record {
  url = "http://10.1.0.7:8001";
  total_cores = 16;
  memory_total_bytes = some 64_000;
  memory_used_bytes = some 9_000;
  status = "online";
  last_heartbeat = 10;
  numa_topology = some (0 ∷ 1 ∷ []);
  gpu_info = some 0 ∷ some 1 ∷ [];
  vm_capable = false;
  vfio_gpus = [];
}

abbrev host : Host
host = record {
  nodes = ("alpha", alpha) ∷ [];
  jobs = record { tasks = []; releases = [] };
  reservations = record { reservations = []; token_to_key = []; used_ips = [] };
}

abbrev request : TaskSubmission
request = record {
  task_type = "vps";
  required_cores = 4;
  required_memory_bytes = some 8_000;
  ip_reservation_token = none;
  network_name = none;
  network_names = "public" ∷ [];
  owner_id = some 1;
  needs_approval = false;
}

abbrev target : Target
target = record { hostname = "alpha"; numa_id = some 1 }

abbrev signer : Signer
signer = record { sign = λ p. ""; unsign = λ token. none }

-- A flat network that alpha has not joined.
abbrev networks : Dict String Network
networks =
    (
      "public",
      record {
        subnet_config = record { base = 0; total_prefix = 26; node_bits = 0; subnet_bits = 6 };
        allocations = [];
      },
    )
    ∷ []

abbrev container_name : String → ℕ → String
container_name task_type id = "kohakuriver-vps-5"

abbrev draw : String → ℕ
draw network = 0

no_address :
    (process_target signer true networks container_name draw 50 5 request
      (some target)
      (0 ∷ [])
      (some none)
      host).0
    ≡ aborted (exhausted "public")
unfolding process_target validate_node get validate_node_resources validate_gpus
    get_node_available_gpus get_node_available_cores get_node_available_memory keep contains
    validate_ip_reservation dispatch_target auto_allocate_flat_ips allocate_flat auto_allocate_ip
    is_flat cleanup_expired forget_all
no_address = refl

too_many_cores :
    (process_target signer true networks container_name draw 50 5
      (record request { required_cores = 20 })
      (some target)
      []
      (some none)
      host).0
    ≡ failed_target insufficient_cores
unfolding process_target validate_node get validate_node_resources validate_gpus
    get_node_available_cores keep contains
too_many_cores = refl
