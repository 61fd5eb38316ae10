-- ===== src/Tasks/Tests.antt =====
-- Tasks at work, and the theorems about them there.
mod Users
use kohaku_river.Common.{
  ℕ, ◌≡◌, refl, subst, ◌≢◌, true, false, none, some, [], ◌∷◌, arith, String, nat_key, string_key,
  pair_key, contains, get, ℕ_discrete, Option, List, if◌then◌else◌, ◌==◌, put, keep, take, All, sym,
  ap, ◌∙◌, false-ne-true, Unique, inl,
}
use kohaku_river.Common.Result.{ok, err}
use kohaku_river.Overlay.Links.{Links}
use kohaku_river.Common.Int.{pos, negsuc}
use kohaku_river.Tasks.{Task, Tasks, Report, is_final}
use kohaku_river.Tasks.Monitor.{Node, Cluster, check_dead_runners, lost, is_lost_with}
use kohaku_river.Tasks.Control.{
  User, request_kill_task, Killed, forbidden, request_kill_task-Killed, request_kill_task-error,
}
use kohaku_river.Tasks.Final.{Outcome, update_task_status-Outcome}
use kohaku_river.Tasks.Offline.{check_dead_runners-lost, check_dead_runners-final}
use kohaku_river.Tasks.Settled.{IsSettled}
use kohaku_river.Tasks.History.{
  reports, kills, monitors, beats, step, run, IsOver, step-IsSettled, run-IsOver,
}
use kohaku_river.Tasks.Heartbeat.{
  HostConfig, HeartbeatRequest, heartbeat, reconcile, process_killed_tasks,
  reconcile_assigning_tasks, reconcile_pending_tasks,
}
use kohaku_river.Tasks.Heartbeat.Liveness.{Beat, IsUnconfirmed, run_beats, run_beats-gives_up}
use kohaku_river.Tasks.Rows.{change_rows}

abbrev job : Task
job = record {
  task_type = "command";
  required_cores = 2;
  required_gpus = 0 ∷ [];
  required_memory_bytes = some 1_000;
  owner_id = some 3;
  approval_status = none;
  approved_by_id = none;
  approved_at = none;
  rejection_reason = none;
  status = "running";
  assigned_node = some "alpha";
  assignment_suspicion_count = 0;
  ssh_port = none;
  exit_code = none;
  error_message = none;
  submitted_at = 1;
  started_at = some 2;
  completed_at = none;
}

abbrev ended : Task
ended = record job { status = "completed"; completed_at = some 9; exit_code = some (pos 0) }

abbrev jobs : Tasks
jobs = record { tasks = (7, job) ∷ (8, ended) ∷ []; releases = 8 ∷ [] }

only_job : (id : ℕ) (t : Task) → get id jobs.tasks ≡ some t → 8 ≢ id → t ≡ job
unfolding get
only_job id t h ne = ground arith

unfinished :
    (id : ℕ) (t : Task) → get id jobs.tasks ≡ some t → 8 ≢ id → ¬ (is_final t.status ≡ true)
unfolding contains
unfinished id t h ne f =
    false-ne-true (subst (λ x. is_final x.status ≡ true) (only_job id t h ne) f)

jobs-IsSettled : IsSettled jobs
unfolding get contains
jobs-IsSettled = record {
  unique = (refl, (refl, tt));
  ended = λ id t h f. elim (ℕ_discrete 8 id) [
    | yes same ↦ λ g. ground arith
    | no other ↦ λ g. unfinished id t h other f
  ];
  released = λ id t h f. elim (ℕ_discrete 8 id) [
    | yes same ↦ ground arith
    | no other ↦ absurd (unfinished id t h other f)
  ];
}

abbrev still : Links
still = record { Net = ℕ; create = λ id ip n. (ok "vxkr1", n); delete = λ device n. (ok tt, n) }

abbrev config : HostConfig
config = record {
  heartbeat_interval_seconds = 5;
  heartbeat_timeout_factor = 6;
  overlay_enabled = false;
}

abbrev url_host : String → Option String
url_host url = if url == "http://10.1.0.7:8001" then some "10.1.0.7" else none

abbrev node : Node
node = record {
  url = "http://10.1.0.7:8001";
  total_cores = 8;
  memory_total_bytes = some 64_000;
  memory_used_bytes = some 9_000;
  status = "online";
  last_heartbeat = 10;
  numa_topology = some (0 ∷ []);
  gpu_info = some 0 ∷ none ∷ [];
  vm_capable = false;
  vfio_gpus = [];
}

abbrev cluster : Cluster still
cluster = record { nodes = ("alpha", node) ∷ []; jobs = jobs; overlays = [] }

abbrev failing : Report
failing = record {
  status = "failed";
  exit_code = some (pos 1);
  message = some "out of disk";
  started_at = none;
  completed_at = some 40;
  ssh_port = none;
}

-- The owner kills the running job; its node gets the signal.
abbrev owner : User
owner = record { is_plain = true; id = 3 }

job-killed : (request_kill_task 50 cluster.nodes owner 7 jobs).0 ≡ ok (some "alpha")
unfolding request_kill_task get contains
job-killed = refl

request_kill_task-Killed_example :
    Killed 50 owner 7 jobs (request_kill_task 50 cluster.nodes owner 7 jobs).1
request_kill_task-Killed_example =
    request_kill_task-Killed 50 cluster.nodes owner 7 jobs (some "alpha") job-killed

-- Another user may not.
stranger-refused :
    (request_kill_task 50 cluster.nodes (record owner { id = 4 }) 7 jobs).0 ≡ err forbidden
unfolding request_kill_task get
stranger-refused = refl

update_task_status-Outcome_example : Outcome 50 7 failing jobs
update_task_status-Outcome_example = update_task_status-Outcome 50 7 failing jobs

job-found : get 7 jobs.tasks ≡ some job
unfolding get
job-found = refl

ended-found : get 8 jobs.tasks ≡ some ended
unfolding get
ended-found = refl

ended-is_final : is_final ended.status ≡ true
unfolding contains
ended-is_final = refl

alpha-found : get "alpha" cluster.nodes ≡ some node
unfolding get
alpha-found = refl

check_dead_runners-lost_example :
    (get 7 (check_dead_runners still 60 20 cluster).jobs.tasks
      ≡ some (record job {
        status = "lost";
        error_message = some "Node alpha went offline (heartbeat timeout)";
        completed_at = some 60;
        exit_code = some (negsuc 0);
      }))
    × (contains 7 (check_dead_runners still 60 20 cluster).jobs.releases ≡ true)
check_dead_runners-lost_example =
    check_dead_runners-lost still 60 20 cluster "alpha" node 7 job jobs-IsSettled.unique alpha-found
      refl (omega arith) job-found refl (inl refl)

step-IsSettled_example : IsSettled (step still url_host config (monitors 60 20) cluster).jobs
step-IsSettled_example =
    step-IsSettled still url_host config (monitors 60 20) cluster jobs-IsSettled

-- A heartbeat of alpha that does not mention the task 7.
abbrev silence : HeartbeatRequest
silence = record {
  running_tasks = 9 ∷ [];
  killed_tasks = record { task_id = 8; reason = "oom" } ∷ [];
  memory_used_bytes = some 8_000;
  memory_total_bytes = some 64_000;
  gpu_info = some [];
  vm_capable = true;
  vfio_gpus = none;
}

abbrev late_beat : Beat
late_beat = record { hostname = "alpha"; request = silence; now = 20_000_000 }

command-ne-vps : ◌≢◌ {A = String} "command" "vps"
command-ne-vps h = false-ne-true ((string_key.is_same_iff "command" "vps").1 h)

run-IsOver_example :
    IsOver 8
      (run still url_host config
        (reports 50 8 failing ∷ kills 51 owner 8 ∷ beats late_beat ∷ monitors 60 20 ∷ [])
        cluster).jobs
run-IsOver_example =
    run-IsOver still url_host config
      (reports 50 8 failing ∷ kills 51 owner 8 ∷ beats late_beat ∷ monitors 60 20 ∷ []) cluster 8
      jobs-IsSettled.unique (ended, ended-found, command-ne-vps, ended-is_final)

-- A task that alpha never confirms.
abbrev assigning_jobs : Tasks
assigning_jobs = record { tasks = (7, record job { status = "assigning" }) ∷ []; releases = [] }

abbrev waiting : Cluster still
waiting = record cluster { jobs = assigning_jobs }

abbrev late_beats : List Beat
late_beats =
    late_beat
    ∷ record late_beat { now = 25_000_000 }
    ∷ record late_beat { hostname = "beta" }
    ∷ record late_beat { now = 30_000_000 }
    ∷ []

-- The second late heartbeat leaves the task suspect, the third fails it.
twice_suspect :
    get 7 (run_beats still url_host config (take 3 late_beats) waiting).jobs.tasks
    ≡ some (record job { status = "assigning"; assignment_suspicion_count = 2 })
unfolding heartbeat reconcile get put contains keep process_killed_tasks reconcile_assigning_tasks
    reconcile_pending_tasks change_rows
twice_suspect = refl

late_beats-IsUnconfirmed : IsUnconfirmed config 7 "alpha" 1 late_beats
unfolding contains
late_beats-IsUnconfirmed =
    let other : All (λ info. info.task_id ≢ 7) silence.killed_tasks = (λ e. omega (arith, e), tt) in
    (
      (other, λ e. (refl, omega arith, other)),
      (
        (other, λ e. (refl, omega arith, other)),
        ((other, λ e. (refl, omega arith, other)), ((other, λ e. (refl, omega arith, other)), tt)),
      ),
    )

assigning_jobs-Unique : Unique assigning_jobs.tasks
unfolding get
assigning_jobs-Unique = (refl, tt)

assigning_found : get 7 assigning_jobs.tasks ≡ some (record job { status = "assigning" })
unfolding get
assigning_found = refl

alpha-registered : get "alpha" waiting.nodes ≢ none
unfolding get
alpha-registered h = cc

run_beats-gives_up_example :
    (t' : Task) × (get 7 (run_beats still url_host config late_beats waiting).jobs.tasks ≡ some t')
    × (t'.status ≡ "failed")
    × (t'.completed_at ≢ none)
    × (contains 7 (run_beats still url_host config late_beats waiting).jobs.releases ≡ true)
run_beats-gives_up_example =
    run_beats-gives_up still url_host config late_beats waiting 7 "alpha"
      (record job { status = "assigning" }) assigning_jobs-Unique alpha-registered assigning_found
      refl refl late_beats-IsUnconfirmed (omega arith)
