-- ===== src/Tasks/History.antt =====
-- Histories of reports, kills, heartbeats and rounds of the monitor.
use kohaku_river.Common.{
  ℕ, ◌≡◌, refl, sym, ap, subst, ◌∙◌, ◌≢◌, inl, inr, true, ◌&&◌, some, List, [], ◌∷◌, arith, String,
  ◌==◌, nat_key, string_key, pair_key, contains, get, put, Bool-cases, get-put, ℕ_discrete, Dict,
  Option, Unique, put-Unique,
}
use kohaku_river.Overlay.Links.{Links}
use kohaku_river.Tasks.{
  Task, Tasks, Report, update_task_status, mark_task_killed, is_final, validate_status_transition,
  apply_task_updates,
}
use kohaku_river.Tasks.Monitor.{Cluster, check_dead_runners}
use kohaku_river.Tasks.Control.{User, request_kill_task, kill-cases}
use kohaku_river.Tasks.Monitor.{Node}
use kohaku_river.Tasks.Offline.{check_dead_runners-final, check_dead_runners-Unique}
use kohaku_river.Tasks.Settled.{
  IsSettled, update_task_status-IsSettled, mark_task_killed-IsSettled, check_dead_runners-IsSettled,
}
use kohaku_river.Tasks.Final.{update_task_status-written, update_task_status-refused, recovers}
use kohaku_river.Tasks.Heartbeat.{HostConfig}
use kohaku_river.Tasks.Heartbeat.Settled.{reconcile-final}
use kohaku_river.Tasks.Heartbeat.Liveness.{
  Beat, beat_of, heartbeat-jobs, heartbeat-IsSettled, heartbeat-Unique,
}

pub data Call : Type 0 where
  reports : ℕ → ℕ → Report → Call
  kills : ℕ → User → ℕ → Call
  monitors : ℕ → ℕ → Call
  beats : Beat → Call

kill-IsSettled :
    (now : ℕ) (nodes : Dict String Node) (user : User) (id : ℕ) (s : Tasks)
    → IsSettled s
    → IsSettled (request_kill_task now nodes user id s).1
kill-IsSettled now nodes user id s v = elim (kill-cases now nodes user id s) [
  | inl same ↦ subst IsSettled (sym same) v
  | inr (t, found, after) ↦
      subst IsSettled (sym after)
        (mark_task_killed-IsSettled now id "Kill requested by user." t s v)
]

kill-Unique :
    (now : ℕ) (nodes : Dict String Node) (user : User) (id : ℕ) (s : Tasks)
    → Unique s.tasks
    → Unique (request_kill_task now nodes user id s).1.tasks
unfolding mark_task_killed
kill-Unique now nodes user id s u = elim (kill-cases now nodes user id s) [
  | inl same ↦ subst (λ x. Unique x.tasks) (sym same) u
  | inr (t, found, after) ↦ subst (λ x. Unique x.tasks) (sym after) (put-Unique id _ s.tasks u)
]

update_task_status-Unique :
    (now id : ℕ) (r : Report) (s : Tasks)
    → Unique s.tasks
    → Unique (update_task_status now id r s).1.tasks
update_task_status-Unique now id r s u = elim (Bool-cases (update_task_status now id r s).0) [
  | inr bad ↦ subst (λ x. Unique x.tasks) (sym (update_task_status-refused now id r s bad)) u
  | inl good ↦
      let (t, found, valid, tasks, releases) = update_task_status-written now id r s good in
      subst (λ d. Unique d) (sym tasks) (put-Unique id _ s.tasks u)
]

-- A task that is not a VPS and has a final status.
abbrev pub IsOver : ℕ → Tasks → Type 0
IsOver id s =
    (t : Task) × (get id s.tasks ≡ some t) × (t.task_type ≢ "vps") × (is_final t.status ≡ true)

put-IsOver :
    (id j : ℕ) (q : Task) (s : Tasks) (releases : List ℕ)
    → IsOver j s
    → (id ≡ j → (q.task_type ≢ "vps") × (is_final q.status ≡ true))
    → IsOver j (record { tasks = put id q s.tasks; releases = releases })
put-IsOver id j q s releases (t, h, batch, f) over = elim (ℕ_discrete id j) [
  | yes same ↦ (q, ground (arith, get-put id j q s.tasks), (over same).0, (over same).1)
  | no other ↦ (t, ground (arith, get-put id j q s.tasks), batch, f)
]

same_row :
    (id j : ℕ) (q t : Task) (s : Tasks)
    → id ≡ j
    → get id s.tasks ≡ some q
    → get j s.tasks ≡ some t
    → q ≡ t
same_row id j q t s same found h = ground arith

kill-IsOver :
    (now : ℕ) (nodes : Dict String Node) (user : User) (id j : ℕ) (s : Tasks)
    → IsOver j s
    → IsOver j (request_kill_task now nodes user id s).1
unfolding mark_task_killed contains
kill-IsOver now nodes user id j s (t, h, batch, f) = elim (kill-cases now nodes user id s) [
  | inl same ↦ subst (IsOver j) (sym same) (t, h, batch, f)
  | inr (q, found, after) ↦ subst (IsOver j) (sym after) (
      put-IsOver id j
        (record q {
          status = "killed";
          error_message = some "Kill requested by user.";
          completed_at = some now;
        })
        s (id ∷ s.releases) (t, h, batch, f)
        (λ same. (
          λ vps. batch (sym (ap (λ x. x.task_type) (same_row id j q t s same found h)) ∙ vps),
          refl,
        )))
]

-- A report that is accepted on a task that is over keeps it over.
accepted-is_final :
    (q : Task) (r : Report)
    → validate_status_transition q r.status ≡ true
    → is_final q.status ≡ true
    → q.task_type ≢ "vps"
    → is_final r.status ≡ true
accepted-is_final q r valid f batch = elim (Bool-cases (is_final r.status)) [
  | inl ends ↦ ends
  | inr runs ↦ absurd (batch (recovers q r.status valid f runs).0)
]

report-IsOver :
    (now id j : ℕ) (r : Report) (s : Tasks)
    → IsOver j s
    → IsOver j (update_task_status now id r s).1
report-IsOver now id j r s (t, h, batch, f) = elim (Bool-cases (update_task_status now id r s).0) [
  | inr bad ↦ subst (IsOver j) (sym (update_task_status-refused now id r s bad)) (t, h, batch, f)
  | inl good ↦
      let (q, found, valid, tasks, releases) = update_task_status-written now id r s good in
      let q' = apply_task_updates now r (q.status == "lost" && r.status == "running") q in
      let over =
        put-IsOver id j q' s (update_task_status now id r s).1.releases (t, h, batch, f)
          (λ same.
            let e = same_row id j q t s same found h in
            let batch' : q.task_type ≢ "vps" = λ vps. batch (sym (ap (λ x. x.task_type) e) ∙ vps) in
            (
              batch',
              accepted-is_final q r valid (subst (λ x. is_final x.status ≡ true) (sym e) f) batch',
            )) in
      subst
        (λ d.
          IsOver j (record { tasks = d; releases = (update_task_status now id r s).1.releases }))
        (sym tasks) over
]

module _ (links : Links) (url_host : String → Option String) (config : HostConfig) where
  beat-IsOver :
      (beat : Beat) (c : Cluster links) (j : ℕ)
      → Unique c.jobs.tasks
      → IsOver j c.jobs
      → IsOver j (beat_of links url_host config beat c).jobs
  beat-IsOver beat c j v (t, h, batch, f) = elim (heartbeat-jobs links url_host config beat c) [
    | inl (same, missing) ↦ subst (IsOver j) (sym same) (t, h, batch, f)
    | inr after ↦
        subst (IsOver j) (sym after)
          (t, reconcile-final config beat.request beat.hostname beat.now c.jobs j t v h f, batch, f)
  ]

  unfoldable pub step : Call → Cluster links → Cluster links
  step (reports now id r) c = record c { jobs = (update_task_status now id r c.jobs).1 }
  step (kills now user id) c = record c { jobs = (request_kill_task now c.nodes user id c.jobs).1 }
  step (monitors now threshold) c = check_dead_runners links now threshold c
  step (beats beat) c = beat_of links url_host config beat c

  unfoldable pub run : List Call → Cluster links → Cluster links
  unfolding step
  run [] c = c
  run (call ∷ calls) c = run calls (step call c)

  -- A report, a kill, a heartbeat or a round of the monitor keeps the tasks settled: each with a final status
  -- has its end, and its addresses are handed over for release.
  pub step-IsSettled :
      (call : Call) (c : Cluster links) → IsSettled c.jobs → IsSettled (step call c).jobs
  unfolding step
  step-IsSettled (reports now id r) c v = update_task_status-IsSettled now id r c.jobs v
  step-IsSettled (kills now user id) c v = kill-IsSettled now c.nodes user id c.jobs v
  step-IsSettled (monitors now threshold) c v = check_dead_runners-IsSettled links now threshold c v
  step-IsSettled (beats beat) c v = heartbeat-IsSettled links url_host config beat c v

  step-Unique :
      (call : Call) (c : Cluster links) → Unique c.jobs.tasks → Unique (step call c).jobs.tasks
  unfolding step
  step-Unique (reports now id r) c u = update_task_status-Unique now id r c.jobs u
  step-Unique (kills now user id) c u = kill-Unique now c.nodes user id c.jobs u
  step-Unique (monitors now threshold) c u = check_dead_runners-Unique links now threshold c u
  step-Unique (beats beat) c u = heartbeat-Unique links url_host config beat c u

  step-IsOver :
      (call : Call) (c : Cluster links) (j : ℕ)
      → Unique c.jobs.tasks
      → IsOver j c.jobs
      → IsOver j (step call c).jobs
  unfolding step
  step-IsOver (reports now id r) c j v o = report-IsOver now id j r c.jobs o
  step-IsOver (kills now user id) c j v o = kill-IsOver now c.nodes user id j c.jobs o
  step-IsOver (monitors now threshold) c j v (t, h, batch, f) =
      (t, check_dead_runners-final links now threshold c j t v h f, batch, f)
  step-IsOver (beats beat) c j v o = beat-IsOver beat c j v o

  -- In a table with one row for each id, once a task that is not a VPS is over, it is over after every history of reports, kills,
  -- heartbeats and rounds of the monitor.
  pub run-IsOver :
      (calls : List Call) (c : Cluster links) (j : ℕ)
      → Unique c.jobs.tasks
      → IsOver j c.jobs
      → IsOver j (run calls c).jobs
  unfolding run
  run-IsOver [] c j v o = o
  run-IsOver (call ∷ calls) c j v o =
      run-IsOver calls (step call c) j (step-Unique call c v) (step-IsOver call c j v o)
