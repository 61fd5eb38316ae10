-- ===== src/Tasks/Tests/Users.antt =====
-- What users and operators do to tasks, and the ports of the VPS.
use kohaku_river.Common.{
  ℕ, ◌≡◌, refl, ◌⊎◌, true, none, some, [], ◌∷◌, nat_key, string_key, pair_key, keep, contains, Dict,
  get,
}
use kohaku_river.Common.Result.{ok, err}
use kohaku_river.Tasks.{Task, Tasks}
use kohaku_river.Tasks.Control.{conflict, request_kill_task}
use kohaku_river.Tasks.Ports.{
  allocate_ssh_port, IsLeastFree, allocate_ssh_port-IsLeastFree, next_free,
}
use kohaku_river.Tasks.Pause.{
  Pending, send_command_to_task, finish_command, pause, finish_command-undoes_kill,
}
use kohaku_river.Tasks.Approval.{approves, rejects, decide, decide-once, approve_task}
use kohaku_river.Tasks.Tests.{job, jobs, cluster, owner, job-killed}

abbrev vps : Task
vps = record job { task_type = "vps"; ssh_port = some 2_222 }

abbrev machines : Dict ℕ Task
machines =
    (1, vps)
    ∷ (2, record vps { ssh_port = some 2_223; status = "stopped" })
    ∷ (3, record vps { ssh_port = some 2_224; status = "paused" })
    ∷ []

-- The port of the stopped VPS is free again.
stopped_port : allocate_ssh_port machines ≡ some 2_223
unfolding allocate_ssh_port next_free keep contains
stopped_port = refl

allocate_ssh_port-IsLeastFree_example :
    (port : ℕ) × (allocate_ssh_port machines ≡ some port) × IsLeastFree machines port
allocate_ssh_port-IsLeastFree_example = allocate_ssh_port-IsLeastFree machines

abbrev pausing : Pending
pausing = record { row = job; new_status = "paused" }

pause-pending : send_command_to_task cluster.nodes owner 7 (some pause) jobs ≡ ok pausing
unfolding send_command_to_task get
pause-pending = refl

finish_command-undoes_kill_example :
    (t : Task) × (get 7
        (finish_command 7 true pausing (request_kill_task 50 cluster.nodes owner 7 jobs).1).tasks
      ≡ some t)
    × ((t.status ≡ "paused") ⊎ (t.status ≡ "running"))
    × (contains 7
          (finish_command 7 true pausing
            (request_kill_task 50 cluster.nodes owner 7 jobs).1).releases
        ≡ true)
finish_command-undoes_kill_example =
    finish_command-undoes_kill 50 cluster.nodes owner owner 7 (some pause) jobs pausing
      (some "alpha") pause-pending job-killed

abbrev waiting_jobs : Tasks
waiting_jobs = record jobs { tasks = (7, record job { status = "pending_approval" }) ∷ [] }

job-approved : (decide 60 cluster.nodes 1 approves 7 waiting_jobs).0 ≡ ok tt
unfolding approve_task get
job-approved = refl

decide-once_example :
    decide 70 cluster.nodes 2 (rejects none) 7 (decide 60 cluster.nodes 1 approves 7 waiting_jobs).1
    ≡ (err conflict, (decide 60 cluster.nodes 1 approves 7 waiting_jobs).1)
decide-once_example =
    decide-once 60 70 cluster.nodes cluster.nodes 1 2 approves (rejects none) 7 waiting_jobs
      job-approved
