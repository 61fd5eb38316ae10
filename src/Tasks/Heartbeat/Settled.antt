-- ===== src/Tasks/Heartbeat/Settled.antt =====
-- A heartbeat and the tasks that are over.
use kohaku_river.Common.{
  ℕ, ◌≡◌, refl, sym, ap, ◌∙◌, ◌≢◌, inl, inr, true, false, ◌&&◌, none, some, List, [], ◌∷◌, arith,
  String, ◌==◌, nat_key, string_key, pair_key, keep, contains, get, Bool-cases, Option-cases,
  get-put, Unique, put-Unique, different_of_ne,
}
use kohaku_river.Tasks.{Task, Tasks, is_final}
use kohaku_river.Tasks.Monitor.{is_on}
use kohaku_river.Tasks.Settled.{IsSettled}
use kohaku_river.Tasks.Offline.{final-other}
use kohaku_river.Tasks.Rows.{
  RowChange, ended, apply_change, change_rows, select_rows-IsSettled, IsOrderly,
  apply_change-IsSettled, get-select_rows, change_rows-Unique, change_rows-keeps_release,
}
use kohaku_river.Tasks.Heartbeat.{
  HeartbeatKilledTaskInfo, HeartbeatRequest, HostConfig, terminal_statuses, killed_by_runner,
  process_killed_tasks, reconcile_assigning, reconcile_assigning_tasks, reconcile_pending,
  reconcile_pending_tasks, reconcile, is_assigning_on, is_pending_on,
}

some-ne-none : (n : ℕ) → some n ≢ none
some-ne-none n h = cc

-- The two lists of final statuses agree.
pub terminal_iff : (status : String) → contains status terminal_statuses ≡ is_final status
unfolding contains
terminal_iff status = ground arith

killed_by_runner-IsOrderly :
    (now : ℕ) (reason : String) (t : Task) → IsOrderly (ended (killed_by_runner now reason t))
unfolding contains
killed_by_runner-IsOrderly now reason t = elim (Bool-cases (reason == "oom")) [
  | inl oom ↦ (rw (oom) refl, some-ne-none now)
  | inr other ↦ (rw (other) refl, some-ne-none now)
]

-- What the end of an unfinished task keeps, the loop over the killed tasks keeps.
pub process_killed_tasks-keeps :
    (P : Tasks → Type 0) (infos : List HeartbeatKilledTaskInfo) (now : ℕ) (s : Tasks)
    → ((id : ℕ) (reason : String) (q : Task) (r : Tasks)
        → get id r.tasks ≡ some q
        → is_final q.status ≡ false
        → P r
        → P (apply_change id (ended (killed_by_runner now reason q)) r))
    → P s
    → P (process_killed_tasks infos now s)
unfolding process_killed_tasks
process_killed_tasks-keeps P [] now s keeps p = p
process_killed_tasks-keeps P (info ∷ infos) now s keeps p =
    elim (Option-cases (get info.task_id s.tasks)) [
      | inl missing ↦
          rw (process_killed_tasks, missing) (process_killed_tasks-keeps P infos now s keeps p)
      | inr (q, found) ↦ elim (Bool-cases (contains q.status terminal_statuses)) [
        | inl over ↦
            rw (process_killed_tasks, found, over)
              (process_killed_tasks-keeps P infos now s keeps p)
        | inr active ↦
            rw (process_killed_tasks, found, active)
              (process_killed_tasks-keeps P infos now _ keeps
                (keeps info.task_id info.reason q s found (sym (terminal_iff q.status) ∙ active) p))
      ]
    ]

process_killed_tasks-IsSettled :
    (infos : List HeartbeatKilledTaskInfo) (now : ℕ) (s : Tasks)
    → IsSettled s
    → IsSettled (process_killed_tasks infos now s)
process_killed_tasks-IsSettled infos now s =
    process_killed_tasks-keeps IsSettled infos now s (λ id reason q r found active v.
      apply_change-IsSettled id (ended (killed_by_runner now reason q)) r
        (killed_by_runner-IsOrderly now reason q) v)

assigning_not_final :
    (h : String) (t : Task) → is_assigning_on h t ≡ true → is_final t.status ≡ false
unfolding contains
assigning_not_final h t g =
    let at : t.status ≡ "assigning" = ground (arith, string_key.is_same_iff t.status "assigning") in
    ap is_final at

reconcile_assigning-IsOrderly :
    (config : HostConfig) (running : List ℕ) (h : String) (now id : ℕ) (t : Task)
    → is_assigning_on h t ≡ true
    → IsOrderly (reconcile_assigning config running h now id t)
unfolding contains
reconcile_assigning-IsOrderly config running h now id t g =
    ground (arith, assigning_not_final h t g, some-ne-none now)

reconcile_pending-IsOrderly :
    (config : HostConfig) (running : List ℕ) (h : String) (now id : ℕ) (t : Task)
    → is_pending_on h t ≡ true
    → IsOrderly (reconcile_pending config running h now id t)
unfolding contains
reconcile_pending-IsOrderly config running h now id t g = ground (arith, some-ne-none now)

pub reconcile-IsSettled :
    (config : HostConfig) (request : HeartbeatRequest) (h : String) (now : ℕ) (s : Tasks)
    → IsSettled s
    → IsSettled (reconcile config request h now s)
unfolding reconcile reconcile_assigning_tasks reconcile_pending_tasks
reconcile-IsSettled config request h now s v =
    let s1 = process_killed_tasks request.killed_tasks now s in
    let s2 = reconcile_assigning_tasks config request.running_tasks h now s1 in
    select_rows-IsSettled (is_pending_on h) (reconcile_pending config request.running_tasks h now)
      s2.tasks s2 (reconcile_pending-IsOrderly config request.running_tasks h now)
      (select_rows-IsSettled (is_assigning_on h)
        (reconcile_assigning config request.running_tasks h now) s1.tasks s1
        (reconcile_assigning-IsOrderly config request.running_tasks h now)
        (process_killed_tasks-IsSettled request.killed_tasks now s v))

-- A row whose task is over, read after the loop over the killed tasks.
process_killed_tasks-final :
    (infos : List HeartbeatKilledTaskInfo) (now : ℕ) (s : Tasks) (id : ℕ) (t : Task)
    → is_final t.status ≡ true
    → get id s.tasks ≡ some t
    → get id (process_killed_tasks infos now s).tasks ≡ some t
process_killed_tasks-final infos now s id t f =
    process_killed_tasks-keeps (λ r. get id r.tasks ≡ some t) infos now s
      (λ j reason q r found active h.
        ground (arith, get-put j id (killed_by_runner now reason q) r.tasks))

pub process_killed_tasks-Unique :
    (infos : List HeartbeatKilledTaskInfo) (now : ℕ) (s : Tasks)
    → Unique s.tasks
    → Unique (process_killed_tasks infos now s).tasks
process_killed_tasks-Unique infos now s =
    process_killed_tasks-keeps (λ r. Unique r.tasks) infos now s
      (λ j reason q r found active u. put-Unique j (killed_by_runner now reason q) r.tasks u)

pub reconcile-Unique :
    (config : HostConfig) (request : HeartbeatRequest) (h : String) (now : ℕ) (s : Tasks)
    → Unique s.tasks
    → Unique (reconcile config request h now s).tasks
unfolding reconcile reconcile_assigning_tasks reconcile_pending_tasks
reconcile-Unique config request h now s u =
    let s1 = process_killed_tasks request.killed_tasks now s in
    let s2 = reconcile_assigning_tasks config request.running_tasks h now s1 in
    change_rows-Unique (reconcile_pending config request.running_tasks h now)
      (keep (λ item. is_pending_on h item.1) s2.tasks) s2
      (change_rows-Unique (reconcile_assigning config request.running_tasks h now)
        (keep (λ item. is_assigning_on h item.1) s1.tasks) s1
        (process_killed_tasks-Unique request.killed_tasks now s u))

pub reconcile-keeps_release :
    (config : HostConfig) (request : HeartbeatRequest) (h : String) (now : ℕ) (s : Tasks) (id : ℕ)
    → contains id s.releases ≡ true
    → contains id (reconcile config request h now s).releases ≡ true
unfolding reconcile reconcile_assigning_tasks reconcile_pending_tasks contains
reconcile-keeps_release config request h now s id g =
    let s1 = process_killed_tasks request.killed_tasks now s in
    let s2 = reconcile_assigning_tasks config request.running_tasks h now s1 in
    change_rows-keeps_release (reconcile_pending config request.running_tasks h now)
      (keep (λ item. is_pending_on h item.1) s2.tasks) s2 id
      (change_rows-keeps_release (reconcile_assigning config request.running_tasks h now)
        (keep (λ item. is_assigning_on h item.1) s1.tasks) s1 id
        (process_killed_tasks-keeps (λ r. contains id r.releases ≡ true) request.killed_tasks now s
          (λ j reason q r found active k. ground arith) g))

-- A loop over tasks of one unfinished status leaves the finished ones alone.
select_rows-final :
    (hostname status : String) (body : ℕ → Task → RowChange) (s : Tasks) (id : ℕ) (t : Task)
    → is_final status ≡ false
    → Unique s.tasks
    → get id s.tasks ≡ some t
    → is_final t.status ≡ true
    → get id
        (change_rows body
          (keep (λ item. is_on hostname item.1 && item.1.status == status) s.tasks)
          s).tasks
      ≡ some t
select_rows-final hostname status body s id t g u h f =
    get-select_rows (λ q. is_on hostname q && q.status == status) body s id u
    ∙ ground (arith, different_of_ne t.status status (final-other t.status status f g))

-- A heartbeat leaves every task that is over as it is.
pub reconcile-final :
    (config : HostConfig) (request : HeartbeatRequest) (h : String) (now : ℕ) (s : Tasks) (id : ℕ)
    (t : Task)
    → Unique s.tasks
    → get id s.tasks ≡ some t
    → is_final t.status ≡ true
    → get id (reconcile config request h now s).tasks ≡ some t
unfolding reconcile reconcile_assigning_tasks reconcile_pending_tasks contains
reconcile-final config request h now s id t u e f =
    let s1 = process_killed_tasks request.killed_tasks now s in
    let s2 = reconcile_assigning_tasks config request.running_tasks h now s1 in
    let u1 = process_killed_tasks-Unique request.killed_tasks now s u in
    let assigning = reconcile_assigning config request.running_tasks h now in
    let u2 =
      change_rows-Unique assigning (keep (λ item. is_assigning_on h item.1) s1.tasks) s1 u1 in
    select_rows-final h "pending" (reconcile_pending config request.running_tasks h now) s2 id t
      refl u2
      (select_rows-final h "assigning" assigning s1 id t refl u1
        (process_killed_tasks-final request.killed_tasks now s id t f e) f)
      f
