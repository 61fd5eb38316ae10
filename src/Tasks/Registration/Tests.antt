-- ===== src/Tasks/Registration/Tests.antt =====
-- A runner registers with a host that has one overlay network.
use kohaku_river.Common.{ℕ, ◌+◌, true, none, some, [], ◌∷◌, refl, get, string_key, nat_key, Unique}
use kohaku_river.Common.Result.{ok}
use kohaku_river.Overlay.Links.{Links}
use kohaku_river.Overlay.Subnet.{OverlaySubnetConfig}
use kohaku_river.Overlay.Manager.History.{fresh, fresh-IsConsistent}
use kohaku_river.Tasks.Monitor.{Cluster}
use kohaku_river.Tasks.Heartbeat.{HostConfig}
use kohaku_river.Tasks.Registration.{RegisterRequest, register_node}
use kohaku_river.Tasks.Registration.Registered.{Registered, register_node-Registered}

abbrev plan : OverlaySubnetConfig
plan = record { base = 176_160_768; total_prefix = 12; node_bits = 6; subnet_bits = 14 }

abbrev kernel : Links
kernel = record {
  Net = ℕ;
  create = λ id ip net. (ok "vx0_1", net + 1);
  delete = λ name net. (ok tt, net);
}

abbrev config : HostConfig
config = record {
  heartbeat_interval_seconds = 5;
  heartbeat_timeout_factor = 6;
  overlay_enabled = true;
}

abbrev request : RegisterRequest
request = record {
  hostname = "alpha";
  url = "http://192.168.1.2:8001";
  total_cores = 16;
  numa_topology = none;
  gpu_info = some (none ∷ []);
}

abbrev cluster : Cluster kernel
cluster = record {
  nodes = [];
  jobs = record { tasks = []; releases = [] };
  overlays = ("default", fresh {links = kernel} plan 0) ∷ [];
}

cluster-Unique : Unique cluster.overlays
unfolding get
cluster-Unique = (refl, tt)

register_node-Registered_example :
    Registered {links = kernel}
      (λ url. some "192.168.1.2")
      request
      70
      cluster
      (register_node kernel (λ url. some "192.168.1.2") config request 70 cluster)
register_node-Registered_example =
    register_node-Registered {links = kernel} (λ url. some "192.168.1.2") config request 70 cluster
      cluster-Unique (fresh-IsConsistent {links = kernel} plan 0, tt)
