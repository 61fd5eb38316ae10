-- ===== src/Tasks/Monitor.antt =====
-- src/kohakuriver/host/background/runner_monitor.py: nodes whose heartbeat stopped, and what becomes
-- of their tasks. A query reads the table before the loop over its rows changes it. The overlay
-- managers behind `_mark_overlay_inactive` are those of the address part.
use kohaku_river.Common.{
  ℕ, ◌+◌, ◌*◌, Bool, false, ◌&&◌, none, some, [], ◌∷◌, String, ltb, ◌==◌, nat_key, string_key,
  pair_key, keep, contains, Dict, get, put, List, Option,
}
use Prim.Native.String.{◌++◌ as append}
use kohaku_river.Common.Int.{ℤ, negsuc}
use kohaku_river.Tasks.{Task, Tasks, save, schedule_ip_release}
use kohaku_river.Overlay.Links.{Links}
use kohaku_river.Overlay.Manager.{Manager, mark_runner_inactive}

-- The metrics that only the display reads are left out. A GPU is known by its `gpu_id` entry, where
-- it has one, a NUMA node by its key in the topology.
pub record Node : Type 0 where
  pub url : String
  pub total_cores : ℕ
  pub memory_total_bytes : Option ℕ
  pub memory_used_bytes : Option ℕ
  pub status : String
  pub last_heartbeat : ℕ
  pub numa_topology : Option (List ℕ)
  pub gpu_info : List (Option ℕ)
  pub vm_capable : Bool
  pub vfio_gpus : List (Option ℕ)

-- `Node.status == "online"` and the last heartbeat before the threshold.
unfoldable pub find_dead_nodes : ℕ → Dict String Node → Dict String Node
unfolding keep
find_dead_nodes threshold nodes =
    keep (λ item. item.1.status == "online" && ltb item.1.last_heartbeat threshold) nodes

unfoldable pub mark_node_offline : String → Node → Dict String Node → Dict String Node
mark_node_offline hostname node nodes = put hostname (record node { status = "offline" }) nodes

-- The loop over the selected rows: each is changed, saved and its release scheduled.
unfoldable pub save_all : (Task → Task) → Dict ℕ Task → Tasks → Tasks
save_all change [] s = s
save_all change ((id, task) ∷ items) s =
    save_all change items (schedule_ip_release id (save id (change task) s))

abbrev pub is_on : String → Task → Bool
is_on hostname task = elim task.assigned_node [ none ↦ false | some node ↦ node == hostname ]

abbrev pub is_lost_with : String → Task → Bool
is_lost_with hostname task =
    is_on hostname task && contains task.status ("running" ∷ "assigning" ∷ "pending" ∷ [])

-- -1
abbrev pub no_exit_code : ℤ
no_exit_code = negsuc 0

abbrev pub lost : ℕ → String → Task → Task
lost now hostname task = record task {
  status = "lost";
  error_message = some (append "Node " (append hostname " went offline (heartbeat timeout)"));
  completed_at = some now;
  exit_code = some no_exit_code;
}

unfoldable pub mark_node_tasks_lost : ℕ → String → Tasks → Tasks
unfolding save_all keep
mark_node_tasks_lost now hostname s =
    save_all (lost now hostname) (keep (λ item. is_lost_with hostname item.1) s.tasks) s

abbrev pub failed : ℕ → String → Task → Task
failed now message task = record task {
  status = "failed";
  error_message = some message;
  completed_at = some now;
  exit_code = some no_exit_code;
}

abbrev pub node_offline_message : Task → String
node_offline_message task = elim task.assigned_node [
  | none ↦ "Assigned node None is offline. Task cannot be scheduled."
  | some node ↦ append "Assigned node " (append node " is offline. Task cannot be scheduled.")
]

abbrev pub unassigned_message : String
unassigned_message =
    "Task pending for over 30 minutes without assignment. No suitable runner was available."

-- 30 minutes, in microseconds.
abbrev pub unassigned_limit : ℕ
unassigned_limit = 30 * 60 * 1_000_000

abbrev pub is_stale_assigned : Dict String Node → Task → Bool
is_stale_assigned nodes task = task.status == "pending" && elim task.assigned_node [
  | none ↦ false
  | some node ↦ elim (get node nodes) [ none ↦ false | some n ↦ n.status == "offline" ]
]

-- `submitted_at < now - 30 minutes`
abbrev pub is_stale_unassigned : ℕ → Task → Bool
is_stale_unassigned now task = task.status == "pending" && elim task.assigned_node [
  | none ↦ ltb (task.submitted_at + unassigned_limit) now
  | some _ ↦ false
]

unfoldable pub cleanup_orphaned_pending_tasks : ℕ → Dict String Node → Tasks → Tasks
unfolding save_all keep
cleanup_orphaned_pending_tasks now nodes s =
    let s' : Tasks =
      save_all (λ t. failed now (node_offline_message t) t)
        (keep (λ item. is_stale_assigned nodes item.1) s.tasks) s in
    save_all (failed now unassigned_message)
      (keep (λ item. is_stale_unassigned now item.1) s'.tasks) s'

module _ (links : Links) where
  pub record Cluster : Type 0 where
    pub nodes : Dict String Node
    pub jobs : Tasks
    pub overlays : Dict String (Manager links)

  -- `overlay_manager.mark_runner_inactive(hostname)` on every network.
  abbrev pub mark_overlay_inactive :
      String → Dict String (Manager links) → Dict String (Manager links)
  mark_overlay_inactive hostname [] = []
  mark_overlay_inactive hostname ((name, m) ∷ overlays) =
      (name, mark_runner_inactive links hostname m) ∷ mark_overlay_inactive hostname overlays

  -- The loop over the dead nodes.
  unfoldable pub bury : ℕ → Dict String Node → Cluster → Cluster
  unfolding mark_node_offline mark_node_tasks_lost
  bury now [] c = c
  bury now ((hostname, node) ∷ dead) c = bury now dead (record {
    nodes = mark_node_offline hostname node c.nodes;
    jobs = mark_node_tasks_lost now hostname c.jobs;
    overlays = mark_overlay_inactive hostname c.overlays;
  })

  -- One round of `check_dead_runners`, without an exception of the database.
  unfoldable pub check_dead_runners : ℕ → ℕ → Cluster → Cluster
  unfolding find_dead_nodes bury cleanup_orphaned_pending_tasks
  check_dead_runners now threshold c =
      let c' : Cluster = bury now (find_dead_nodes threshold c.nodes) c in
      record c' { jobs = cleanup_orphaned_pending_tasks now c'.nodes c'.jobs }
