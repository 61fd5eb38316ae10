-- ===== src/Tasks/Heartbeat.antt =====
-- src/kohakuriver/host/endpoints/nodes.py: the heartbeat of a runner, which brings its node back and
-- reconciles the tasks with what the runner reports. Times are in microseconds. The host part of a
-- URL, `urlparse(url).hostname`, is a parameter.
pub mod Settled
pub mod Doubt
pub mod Liveness
use kohaku_river.Common.{
  ℕ, zero, suc, ◌+◌, ◌-◌, ◌*◌, ◌/◌, ◌%◌, ◌^◌, ◌≤◌, ◌<◌, ◌≡◌, refl, sym, ap, subst, ◌∙◌, ◌≢◌, ◌⊎◌,
  inl, inr, Bool, true, false, not, ◌&&◌, ◌||◌, Option, none, some, List, [], ◌∷◌, ◌++◌, map, arith,
  String, if◌then◌else◌, ltb, leb, ◌==◌, nat_key, string_key, pair_key, length, get_elem?, take,
  keep, contains, Dict, get, put, del, Bool-cases, Option-cases, Key, eq_of_same, same_refl,
  get-put, get-del,
}
use kohaku_river.Common.Result.{Result, ok, err, ◌>>=◌, ◌>>◌, require, require_some, Result-cases}
use Prim.Native.String.{◌++◌ as append}
use kohaku_river.Common.Int.{ℤ, negsuc}
use kohaku_river.Overlay.Links.{Links}
use kohaku_river.Overlay.Networks.{
  get_allocation, allocate_on_networks, mark_active_on_networks, Networks,
}
use kohaku_river.Tasks.{Task, Tasks, save, schedule_ip_release}
use kohaku_river.Tasks.Monitor.{Node, Cluster, is_on, failed}
use kohaku_river.Tasks.Control.{HttpError, not_found}
use kohaku_river.Tasks.Rows.{RowChange, left_alone, saved, ended, apply_change, change_rows}

pub record HeartbeatKilledTaskInfo : Type 0 where
  pub task_id : ℕ
  pub reason : String

pub record HeartbeatRequest : Type 0 where
  pub running_tasks : List ℕ
  pub killed_tasks : List HeartbeatKilledTaskInfo
  pub memory_used_bytes : Option ℕ
  pub memory_total_bytes : Option ℕ
  pub gpu_info : Option (List (Option ℕ))
  pub vm_capable : Bool
  pub vfio_gpus : Option (List (Option ℕ))

-- `HEARTBEAT_INTERVAL_SECONDS`, `HEARTBEAT_TIMEOUT_FACTOR` and `OVERLAY_ENABLED`.
pub record HostConfig : Type 0 where
  pub heartbeat_interval_seconds : ℕ
  pub heartbeat_timeout_factor : ℕ
  pub overlay_enabled : Bool

-- A new list where one is given: `if request.gpu_info:`.
abbrev unless_empty : Option (List (Option ℕ)) → List (Option ℕ) → List (Option ℕ)
unless_empty none old = old
unless_empty (some []) old = old
unless_empty (some (x ∷ xs)) old = x ∷ xs

-- `if request.vfio_gpus is not None:`
abbrev unless_none : Option (List (Option ℕ)) → List (Option ℕ) → List (Option ℕ)
unless_none none old = old
unless_none (some xs) old = xs

abbrev pub update_node_metrics : HeartbeatRequest → ℕ → Node → Node
update_node_metrics request now node = record node {
  last_heartbeat = now;
  memory_used_bytes = request.memory_used_bytes;
  memory_total_bytes = request.memory_total_bytes;
  gpu_info = unless_empty request.gpu_info node.gpu_info;
  vm_capable = request.vm_capable;
  vfio_gpus = unless_none request.vfio_gpus node.vfio_gpus;
  status = "online";
}

abbrev pub terminal_statuses : List String
terminal_statuses = "completed" ∷ "failed" ∷ "killed" ∷ "lost" ∷ "killed_oom" ∷ "stopped" ∷ []

-- The row of a task that the runner killed.
abbrev pub killed_by_runner : ℕ → String → Task → Task
killed_by_runner now reason task = record task {
  status = if reason == "oom" then "killed_oom" else "failed";
  exit_code = some (negsuc 8);
  error_message = some (append "Killed by runner: " reason);
  completed_at = some now;
}

unfoldable pub process_killed_tasks : List HeartbeatKilledTaskInfo → ℕ → Tasks → Tasks
process_killed_tasks [] now s = s
process_killed_tasks (killed_info ∷ infos) now s =
    process_killed_tasks infos now (elim (get killed_info.task_id s.tasks) [
      | none ↦ s
      | some task ↦
          if contains task.status terminal_statuses
          then s
          else apply_change killed_info.task_id
              (ended (killed_by_runner now killed_info.reason task)) s
    ])

abbrev pub confirm_task_running : ℕ → Task → RowChange
confirm_task_running now task = saved (record task {
  status = "running";
  started_at = elim task.started_at [ none ↦ some now | some at ↦ some at ];
  assignment_suspicion_count = 0;
})

abbrev pub seconds : ℕ
seconds = 1_000_000

abbrev pub unconfirmed_message : String → String
unconfirmed_message hostname =
    append "Task assignment failed. Runner "
      (append hostname " did not confirm start after multiple checks.")

abbrev pub check_task_assignment_timeout : HostConfig → String → ℕ → Task → RowChange
check_task_assignment_timeout config hostname now task =
    if leb now (task.submitted_at + config.heartbeat_interval_seconds * 3 * seconds)
    then left_alone
    else if ltb task.assignment_suspicion_count 2
    then saved (record task { assignment_suspicion_count = task.assignment_suspicion_count + 1 })
    else ended (failed now (unconfirmed_message hostname) task)

-- The body of the loop over the assigning tasks.
abbrev pub reconcile_assigning : HostConfig → List ℕ → String → ℕ → ℕ → Task → RowChange
reconcile_assigning config running_tasks hostname now id task =
    if contains id running_tasks
    then confirm_task_running now task
    else check_task_assignment_timeout config hostname now task

abbrev pub is_assigning_on : String → Task → Bool
is_assigning_on hostname task = is_on hostname task && task.status == "assigning"

unfoldable pub reconcile_assigning_tasks : HostConfig → List ℕ → String → ℕ → Tasks → Tasks
unfolding change_rows keep
reconcile_assigning_tasks config running_tasks hostname now s =
    change_rows (reconcile_assigning config running_tasks hostname now)
      (keep (λ item. is_assigning_on hostname item.1) s.tasks) s

abbrev pub stuck_message : String → String
stuck_message hostname =
    append "Task stuck in pending state on "
      (append hostname ". Runner does not have this task after multiple heartbeat cycles.")

-- The body of the loop over the pending tasks.
abbrev pub reconcile_pending : HostConfig → List ℕ → String → ℕ → ℕ → Task → RowChange
reconcile_pending config running_tasks hostname now id task =
    if contains id running_tasks
    then confirm_task_running now task
    else if leb now (
        task.submitted_at
        + config.heartbeat_interval_seconds * config.heartbeat_timeout_factor * 3 * seconds)
    then left_alone
    else ended (failed now (stuck_message hostname) task)

abbrev pub is_pending_on : String → Task → Bool
is_pending_on hostname task = is_on hostname task && task.status == "pending"

unfoldable pub reconcile_pending_tasks : HostConfig → List ℕ → String → ℕ → Tasks → Tasks
unfolding change_rows keep
reconcile_pending_tasks config running_tasks hostname now s =
    change_rows (reconcile_pending config running_tasks hostname now)
      (keep (λ item. is_pending_on hostname item.1) s.tasks) s

-- The three reconciliations of a heartbeat.
unfoldable pub reconcile : HostConfig → HeartbeatRequest → String → ℕ → Tasks → Tasks
unfolding process_killed_tasks reconcile_assigning_tasks reconcile_pending_tasks
reconcile config request hostname now s =
    reconcile_pending_tasks config request.running_tasks hostname now (
      reconcile_assigning_tasks config request.running_tasks hostname now
        (process_killed_tasks request.killed_tasks now s))

-- `parsed.hostname or "127.0.0.1"`
abbrev pub extract_ip_from_url : (String → Option String) → String → String
extract_ip_from_url url_host url = elim (url_host url) [
  | none ↦ "127.0.0.1"
  | some host ↦ if host == "" then "127.0.0.1" else host
]

module _ (links : Links) (url_host : String → Option String) where
  -- The node's row is read again; a URL that is empty or missing ends the recovery.
  unfoldable pub mark_overlay_active :
      String → ℕ → Dict String Node → Networks links → Networks links
  unfolding allocate_on_networks mark_active_on_networks
  mark_overlay_active hostname now nodes overlays = elim (get_allocation links hostname overlays) [
    | some existing ↦ mark_active_on_networks links hostname now overlays
    | none ↦ elim (get hostname nodes) [
      | none ↦ overlays
      | some node ↦
          if node.url == ""
          then overlays
          else (allocate_on_networks links hostname (extract_ip_from_url url_host node.url) now
              overlays).1
    ]
  ]

  unfoldable pub heartbeat :
      HostConfig
      → String
      → HeartbeatRequest
      → ℕ
      → Cluster links
      → Result HttpError (Unit {0}) × Cluster links
  unfolding reconcile mark_overlay_active
  heartbeat config hostname request now c = elim (get hostname c.nodes) [
    | none ↦ (err not_found, c)
    | some node ↦
        let nodes = put hostname (update_node_metrics request now node) c.nodes in
        (
          ok tt,
          record {
            nodes = nodes;
            jobs = reconcile config request hostname now c.jobs;
            overlays =
                if config.overlay_enabled
                then mark_overlay_active hostname now nodes c.overlays
                else c.overlays;
          },
        )
  ]
