-- ===== src/Tasks.antt =====
-- src/kohakuriver/db/task.py and src/kohakuriver/host/services/task_scheduler.py: the states of a
-- task, the status reports of the runners, and kills. The table of the tasks is the database;
-- `schedule_ip_release` hands the task over to the event loop, so the model records that.
pub mod Monitor
pub mod Control
pub mod Loops
pub mod Final
pub mod Offline
pub mod Settled
pub mod History
pub mod Rows
pub mod Heartbeat
pub mod Registration
pub mod Ports
pub mod Pause
pub mod Approval
mod Tests
use kohaku_river.Common.{
  ℕ, zero, suc, ◌+◌, ◌-◌, ◌*◌, ◌/◌, ◌%◌, ◌^◌, ◌≤◌, ◌<◌, ◌≡◌, refl, sym, ap, subst, ◌∙◌, ◌≢◌, ◌⊎◌,
  inl, inr, Bool, true, false, not, ◌&&◌, ◌||◌, Option, none, some, List, [], ◌∷◌, ◌++◌, map, arith,
  String, if◌then◌else◌, ltb, leb, ◌==◌, nat_key, string_key, pair_key, length, get_elem?, take,
  keep, contains, Dict, get, put, del, Bool-cases, Option-cases, Key, eq_of_same, same_refl,
  get-put, get-del,
}
use kohaku_river.Common.Result.{Result, ok, err, ◌>>=◌, ◌>>◌, require, require_some, Result-cases}
use kohaku_river.Common.Int.{ℤ, pos}

pub record Task : Type 0 where
  pub task_type : String
  pub required_cores : ℕ
  pub required_gpus : List ℕ
  pub required_memory_bytes : Option ℕ
  pub owner_id : Option ℕ
  pub approval_status : Option String
  pub approved_by_id : Option ℕ
  pub approved_at : Option ℕ
  pub rejection_reason : Option String
  pub status : String
  pub assigned_node : Option String
  pub assignment_suspicion_count : ℕ
  pub ssh_port : Option ℕ
  pub exit_code : Option ℤ
  pub error_message : Option String
  pub submitted_at : ℕ
  pub started_at : Option ℕ
  pub completed_at : Option ℕ

abbrev pub final_states : List String
final_states = "completed" ∷ "failed" ∷ "killed" ∷ "killed_oom" ∷ "lost" ∷ "stopped" ∷ []

-- `status in final_states`, also `Task.is_finished`.
abbrev pub is_final : String → Bool
is_final status = contains status final_states

-- The tasks, and those whose addresses are to be released.
pub record Tasks : Type 0 where
  pub tasks : Dict ℕ Task
  pub releases : List ℕ

abbrev pub save : ℕ → Task → Tasks → Tasks
save id t s = record s { tasks = put id t s.tasks }

abbrev pub schedule_ip_release : ℕ → Tasks → Tasks
schedule_ip_release id s = record s { releases = id ∷ s.releases }

-- What a runner reports: the arguments of `update_task_status`.
pub record Report : Type 0 where
  pub status : String
  pub exit_code : Option ℤ
  pub message : Option String
  pub started_at : Option ℕ
  pub completed_at : Option ℕ
  pub ssh_port : Option ℕ

abbrev pub validate_status_transition : Task → String → Bool
validate_status_transition task new_status =
    if not (is_final task.status)
    then true
    else if is_final new_status
    then true
    else task.task_type == "vps" && task.status == "lost" && new_status == "running"

-- `value or default`, for a value that is never falsy.
abbrev or_else {ℓ} : {A : Type ℓ} → Option A → Option A → Option A
or_else none d = d
or_else (some a) d = some a

abbrev pub completed_after : ℕ → Report → Bool → Task → Option ℕ
completed_after now r is_recovering task = if is_recovering then none else elim r.completed_at [
  | some c ↦ some c
  | none ↦ if is_final r.status then or_else task.completed_at (some now) else task.completed_at
]

abbrev pub apply_task_updates : ℕ → Report → Bool → Task → Task
apply_task_updates now r is_recovering task = record task {
  status = r.status;
  exit_code = r.exit_code;
  error_message = r.message;
  started_at = or_else task.started_at r.started_at;
  completed_at = completed_after now r is_recovering task;
  ssh_port = or_else r.ssh_port task.ssh_port;
  assignment_suspicion_count = 0;
}

unfoldable pub update_task_status : ℕ → ℕ → Report → Tasks → Bool × Tasks
update_task_status now id r s = elim (get id s.tasks) [
  | none ↦ (false, s)
  | some task ↦
      if not (validate_status_transition task r.status)
      then (false, s)
      else let is_recovering = task.status == "lost" && r.status == "running" in
        let saved = save id (apply_task_updates now r is_recovering task) s in
        (true, if is_final r.status then schedule_ip_release id saved else saved)
]

-- `mark_task_killed` on the row of a task.
unfoldable pub mark_task_killed : ℕ → ℕ → String → Task → Tasks → Tasks
mark_task_killed now id message task s = schedule_ip_release id (
    save id
      (record task { status = "killed"; error_message = some message; completed_at = some now }) s)
