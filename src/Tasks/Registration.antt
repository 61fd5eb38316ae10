-- ===== src/Tasks/Registration.antt =====
-- src/kohakuriver/host/endpoints/nodes.py: a runner registers its node. A JSON column that is missing reads as
-- an empty list. Of a network's settings, the answer has those of its address plan.
pub mod Registered
mod Tests
use kohaku_river.Common.{
  ℕ, ◌≡◌, ◌≢◌, refl, Bool, true, false, Option, none, some, List, [], ◌∷◌, arith, String,
  if◌then◌else◌, ◌==◌, string_key, Dict, get, put, get-put, Option-cases, inl, inr,
}
use kohaku_river.Common.Result.{Result, ok, err}
use kohaku_river.Overlay.Links.{Links}
use kohaku_river.Overlay.Subnet.{
  Cidr, ValueError, get_overlay_network_cidr, get_host_ip_on_runner_subnet,
}
use kohaku_river.Overlay.Manager.{Manager, OverlayAllocation}
use kohaku_river.Overlay.Networks.{Networks, allocate_on_networks}
use kohaku_river.Tasks.Control.{HttpError}
use kohaku_river.Tasks.Monitor.{Node, Cluster}
use kohaku_river.Tasks.Heartbeat.{HostConfig, HeartbeatRequest, extract_ip_from_url, heartbeat}

pub record RegisterRequest : Type 0 where
  pub hostname : String
  pub url : String
  pub total_cores : ℕ
  pub numa_topology : Option (List ℕ)
  pub gpu_info : Option (List (Option ℕ))

-- A list where one is given and has elements: `if gpu_info:`.
abbrev pub given_list {ℓ} : {A : Type ℓ} → Option (List A) → Option (List A)
given_list none = none
given_list (some []) = none
given_list (some (x ∷ xs)) = some (x ∷ xs)

abbrev pub or_old {ℓ} : {A : Type ℓ} → Option A → A → A
or_old none old = old
or_old (some new) old = new

-- The `defaults` of a new row.
abbrev pub new_node : RegisterRequest → ℕ → Node
new_node request now = record {
  url = request.url;
  total_cores = request.total_cores;
  memory_total_bytes = none;
  memory_used_bytes = none;
  status = "online";
  last_heartbeat = now;
  numa_topology = some (or_old (given_list request.numa_topology) []);
  gpu_info = or_old (given_list request.gpu_info) [];
  vm_capable = false;
  vfio_gpus = [];
}

-- A row that exists keeps what the request leaves out.
abbrev pub updated_node : RegisterRequest → ℕ → Node → Node
updated_node request now node = record node {
  url = request.url;
  total_cores = request.total_cores;
  status = "online";
  last_heartbeat = now;
  numa_topology = elim (given_list request.numa_topology) [
    | none ↦ node.numa_topology
    | some topology ↦ some topology
  ];
  gpu_info = or_old (given_list request.gpu_info) node.gpu_info;
}

unfoldable pub upsert_node : RegisterRequest → ℕ → Dict String Node → Dict String Node
unfolding get put
upsert_node request now nodes = elim (get request.hostname nodes) [
  | none ↦ put request.hostname (new_node request now) nodes
  | some node ↦ put request.hostname (updated_node request now node) nodes
]

pub record NetInfo : Type 0 where
  pub name : String
  pub runner_id : ℕ
  pub overlay_subnet : Cidr
  pub overlay_gateway : ℕ
  pub overlay_network_cidr : Cidr
  pub host_ip_on_runner_subnet : ℕ

module _ (links : Links) (url_host : String → Option String) where
  abbrev pub net_info : String → OverlayAllocation → Manager links → Result ValueError NetInfo
  net_info name a m = elim (get_host_ip_on_runner_subnet m.subnet_config a.runner_id) [
    | err e ↦ err e
    | ok host_ip ↦ ok (record {
      name = name;
      runner_id = a.runner_id;
      overlay_subnet = a.subnet;
      overlay_gateway = a.gateway;
      overlay_network_cidr = get_overlay_network_cidr m.subnet_config;
      host_ip_on_runner_subnet = host_ip;
    })
  ]

  -- The list of networks; an exception ends it.
  unfoldable pub net_infos :
      Dict String OverlayAllocation → Networks links → Result ValueError (List NetInfo)
  unfolding get get_host_ip_on_runner_subnet get_overlay_network_cidr
  net_infos [] overlays = ok []
  net_infos ((name, a) ∷ allocations) overlays =
      let rest = net_infos allocations overlays in
      elim (get name overlays) [
        | none ↦ rest
        | some m ↦ elim (net_info name a m) [
          | err e ↦ err e
          | ok info ↦ elim rest [ err e ↦ err e | ok infos ↦ ok (info ∷ infos) ]
        ]
      ]

  -- `_allocate_overlay_for_runner`: no information where there is no network, or after an exception.
  unfoldable pub allocate_overlay_for_runner :
      String → String → ℕ → Networks links → Option (List NetInfo) × Networks links
  unfolding allocate_on_networks net_infos
  allocate_overlay_for_runner hostname url now overlays =
      let (allocations, overlays') =
        allocate_on_networks links hostname (extract_ip_from_url url_host url) now overlays in
      (
        elim (net_infos allocations overlays') [
          | err e ↦ none
          | ok infos ↦ given_list (some infos)
        ],
        overlays',
      )

  unfoldable pub register_node :
      HostConfig → RegisterRequest → ℕ → Cluster links → Option (List NetInfo) × Cluster links
  unfolding upsert_node allocate_overlay_for_runner
  register_node config request now c =
      let nodes = upsert_node request now c.nodes in
      if config.overlay_enabled
      then (let (info, overlays) =
            allocate_overlay_for_runner request.hostname request.url now c.overlays in
          (info, record c { nodes = nodes; overlays = overlays }))
      else (none, record c { nodes = nodes })
