-- ===== src/Tasks/Heartbeat/Doubt.antt =====
-- What a heartbeat makes of a task that it does not report.
use kohaku_river.Common.{
  ℕ, ◌+◌, ◌*◌, ◌<◌, ◌≡◌, refl, ◌∙◌, ◌≢◌, inl, inr, true, false, ◌&&◌, some, List, [], ◌∷◌, arith,
  String, if◌then◌else◌, ltb, ◌==◌, nat_key, string_key, pair_key, keep, contains, get, Bool-cases,
  Option-cases, get-put, get-keep,
}
use kohaku_river.Common.{All, Unique}
use kohaku_river.Tasks.{Task, Tasks}
use kohaku_river.Tasks.Monitor.{failed, is_on}
use kohaku_river.Tasks.Rows.{
  RowChange, ended, apply_change, change_rows, changed, get-select_rows, change_rows-Unique,
  change_rows-keeps_release, change_rows-released,
}
use kohaku_river.Tasks.Heartbeat.{
  HeartbeatKilledTaskInfo, HeartbeatRequest, HostConfig, terminal_statuses, killed_by_runner,
  process_killed_tasks, reconcile_assigning, reconcile_assigning_tasks, reconcile_pending,
  reconcile_pending_tasks, reconcile, is_assigning_on, is_pending_on, seconds, unconfirmed_message,
}
use kohaku_river.Tasks.Heartbeat.Settled.{process_killed_tasks-Unique}

process_killed_tasks-other :
    (infos : List HeartbeatKilledTaskInfo) (now : ℕ) (s : Tasks) (id : ℕ)
    → All (λ info. info.task_id ≢ id) infos
    → get id (process_killed_tasks infos now s).tasks ≡ get id s.tasks
unfolding process_killed_tasks
process_killed_tasks-other [] now s id a = refl
process_killed_tasks-other (info ∷ infos) now s id a =
    elim (Option-cases (get info.task_id s.tasks)) [
      | inl missing ↦
          rw (process_killed_tasks, missing) (process_killed_tasks-other infos now s id a.1)
      | inr (q, found) ↦ elim (Bool-cases (contains q.status terminal_statuses)) [
        | inl over ↦
            rw (process_killed_tasks, found, over) (process_killed_tasks-other infos now s id a.1)
        | inr active ↦
            let q' = killed_by_runner now info.reason q in
            rw (process_killed_tasks, found, active)
              (process_killed_tasks-other infos now (apply_change info.task_id (ended q') s) id a.1
                ∙ ground (arith, get-put info.task_id id q' s.tasks, a.0))
      ]
    ]

-- A loop over the tasks of one status leaves the others alone.
select_rows-other :
    (hostname status : String) (body : ℕ → Task → RowChange) (s : Tasks) (id : ℕ) (t : Task)
    → Unique s.tasks
    → get id s.tasks ≡ some t
    → (is_on hostname t && t.status == status) ≡ false
    → get id
        (change_rows body
          (keep (λ item. is_on hostname item.1 && item.1.status == status) s.tasks)
          s).tasks
      ≡ some t
select_rows-other hostname status body s id t u h miss =
    get-select_rows (λ q. is_on hostname q && q.status == status) body s id u ∙ ground arith

-- What a late heartbeat of its node makes of a task that it does not report.
abbrev pub doubted : ℕ → String → Task → Task
doubted now hostname t =
    if ltb t.assignment_suspicion_count 2
    then record t { assignment_suspicion_count = t.assignment_suspicion_count + 1 }
    else failed now (unconfirmed_message hostname) t

-- The task is not reported as running or killed, and its time is up.
abbrev pub IsSilent : HostConfig → ℕ → ℕ → HeartbeatRequest → ℕ → Type 0
IsSilent config id submitted_at request now =
    (contains id request.running_tasks ≡ false)
    × (submitted_at + config.heartbeat_interval_seconds * 3 * seconds < now)
    × All (λ info. info.task_id ≢ id) request.killed_tasks

doubted_body :
    (config : HostConfig) (running : List ℕ) (h : String) (now id : ℕ) (t : Task)
    → contains id running ≡ false
    → t.submitted_at + config.heartbeat_interval_seconds * 3 * seconds < now
    → changed (reconcile_assigning config running h now id t) (some t) ≡ some (doubted now h t)
doubted_body config running h now id t silent late = ground arith

doubted_not_pending :
    (now : ℕ) (h : String) (t : Task)
    → t.status ≡ "assigning"
    → (is_pending_on h (doubted now h t)) ≡ false
doubted_not_pending now h t e = elim (Bool-cases (ltb t.assignment_suspicion_count 2)) [
  | inl few ↦ rw (few, e) (ground arith)
  | inr many ↦ rw (many) (ground arith)
]

-- A late heartbeat of the task's node.
pub reconcile-doubted :
    (config : HostConfig) (request : HeartbeatRequest) (h : String) (now : ℕ) (s : Tasks) (id : ℕ)
    (t : Task)
    → Unique s.tasks
    → get id s.tasks ≡ some t
    → t.status ≡ "assigning"
    → is_on h t ≡ true
    → IsSilent config id t.submitted_at request now
    → get id (reconcile config request h now s).tasks ≡ some (doubted now h t)
unfolding reconcile reconcile_assigning_tasks reconcile_pending_tasks
reconcile-doubted config request h now s id t u e assigning here (silent, late, alive) =
    let s1 = process_killed_tasks request.killed_tasks now s in
    let s2 = reconcile_assigning_tasks config request.running_tasks h now s1 in
    let u1 = process_killed_tasks-Unique request.killed_tasks now s u in
    let body = reconcile_assigning config request.running_tasks h now in
    let u2 = change_rows-Unique body (keep (λ item. is_assigning_on h item.1) s1.tasks) s1 u1 in
    let e1 = process_killed_tasks-other request.killed_tasks now s id alive ∙ e in
    let hit : is_assigning_on h t ≡ true =
      ground (arith, string_key.is_same_iff t.status "assigning") in
    let e2 : get id s2.tasks ≡ some (doubted now h t) =
      get-select_rows (is_assigning_on h) body s1 id u1
      ∙ rw (e1, hit) (doubted_body config request.running_tasks h now id t silent late) in
    select_rows-other h "pending" (reconcile_pending config request.running_tasks h now) s2 id
      (doubted now h t) u2 e2 (doubted_not_pending now h t assigning)

-- A late heartbeat of the node that gives the task up hands it over for release.
pub reconcile-released :
    (config : HostConfig) (request : HeartbeatRequest) (h : String) (now : ℕ) (s : Tasks) (id : ℕ)
    (t : Task)
    → Unique s.tasks
    → get id s.tasks ≡ some t
    → t.status ≡ "assigning"
    → is_on h t ≡ true
    → IsSilent config id t.submitted_at request now
    → ltb t.assignment_suspicion_count 2 ≡ false
    → contains id (reconcile config request h now s).releases ≡ true
unfolding reconcile reconcile_assigning_tasks reconcile_pending_tasks
reconcile-released config request h now s id t u e assigning here (silent, late, alive) worn =
    let s1 = process_killed_tasks request.killed_tasks now s in
    let s2 = reconcile_assigning_tasks config request.running_tasks h now s1 in
    let u1 = process_killed_tasks-Unique request.killed_tasks now s u in
    let body = reconcile_assigning config request.running_tasks h now in
    let e1 = process_killed_tasks-other request.killed_tasks now s id alive ∙ e in
    let hit : is_assigning_on h t ≡ true =
      ground (arith, string_key.is_same_iff t.status "assigning") in
    let selected : get id (keep (λ item. is_assigning_on h item.1) s1.tasks) ≡ some t =
      get-keep (λ item. is_assigning_on h item.1) id s1.tasks u1 ∙ rw (e1, hit) refl in
    change_rows-keeps_release (reconcile_pending config request.running_tasks h now)
      (keep (λ item. is_pending_on h item.1) s2.tasks) s2 id
      (change_rows-released body (keep (λ item. is_assigning_on h item.1) s1.tasks) s1 id t
        (failed now (unconfirmed_message h) t) selected (ground arith))

-- A heartbeat of another node.
pub reconcile-elsewhere :
    (config : HostConfig) (request : HeartbeatRequest) (h : String) (now : ℕ) (s : Tasks) (id : ℕ)
    (t : Task)
    → Unique s.tasks
    → get id s.tasks ≡ some t
    → is_on h t ≡ false
    → All (λ info. info.task_id ≢ id) request.killed_tasks
    → get id (reconcile config request h now s).tasks ≡ some t
unfolding reconcile reconcile_assigning_tasks reconcile_pending_tasks
reconcile-elsewhere config request h now s id t u e there alive =
    let s1 = process_killed_tasks request.killed_tasks now s in
    let s2 = reconcile_assigning_tasks config request.running_tasks h now s1 in
    let u1 = process_killed_tasks-Unique request.killed_tasks now s u in
    let body = reconcile_assigning config request.running_tasks h now in
    let u2 = change_rows-Unique body (keep (λ item. is_assigning_on h item.1) s1.tasks) s1 u1 in
    let e1 = process_killed_tasks-other request.killed_tasks now s id alive ∙ e in
    select_rows-other h "pending" (reconcile_pending config request.running_tasks h now) s2 id t u2
      (select_rows-other h "assigning" body s1 id t u1 e1 (ground arith)) (ground arith)
