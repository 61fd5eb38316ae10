-- ===== src/Tasks/Settled.antt =====
-- Finished tasks are settled: they have an end, and their addresses are handed over for release.
use kohaku_river.Common.{
  ℕ, ◌≡◌, refl, sym, subst, ◌≢◌, inl, inr, Bool, true, false, ◌&&◌, none, some, List, [], ◌∷◌,
  arith, String, if◌then◌else◌, ◌==◌, nat_key, string_key, pair_key, keep, contains, Dict, get, put,
  Bool-cases, Option-cases, get-put, Unique, put-Unique, ℕ_discrete, different_of_ne,
}
use kohaku_river.Overlay.Links.{Links}
use kohaku_river.Tasks.{
  Task, Tasks, Report, update_task_status, mark_task_killed, is_final, apply_task_updates,
}
use kohaku_river.Tasks.Monitor.{
  Node, Cluster, bury, check_dead_runners, lost, is_lost_with, is_stale_assigned,
  is_stale_unassigned, cleanup_orphaned_pending_tasks, mark_node_tasks_lost, find_dead_nodes,
  failed, node_offline_message, unassigned_message, save_all,
}
use kohaku_river.Tasks.Loops.{select-save_all, contains-select, save_all-Unique}
use kohaku_river.Tasks.Offline.{final-other}
use kohaku_river.Tasks.Final.{update_task_status-written, update_task_status-refused}

-- Every task with a final status has its end and its release.
pub record IsSettled (s : Tasks) : Type 0 where
  pub unique : Unique s.tasks
  pub ended :
      (id : ℕ) (t : Task)
      → get id s.tasks ≡ some t
      → is_final t.status ≡ true
      → t.completed_at ≢ none
  pub released :
      (id : ℕ) (t : Task)
      → get id s.tasks ≡ some t
      → is_final t.status ≡ true
      → contains id s.releases ≡ true

some-ne-none : (n : ℕ) → some n ≢ none
some-ne-none n h = cc

-- A loop that ends the selected tasks.
save_all-IsSettled :
    (test : Task → Bool) (change : Task → Task) (s : Tasks)
    → ((t : Task) → (change t).completed_at ≢ none)
    → IsSettled s
    → IsSettled (save_all change (keep (λ item. test item.1) s.tasks) s)
save_all-IsSettled test change s ends v = record {
  unique = save_all-Unique change (keep (λ item. test item.1) s.tasks) s v.unique;
  ended = λ id t' h f. elim (Option-cases (get id s.tasks)) [
    | inl missing ↦ ground (arith, select-save_all test change s id v.unique)
    | inr (t, found) ↦ elim (Bool-cases (test t)) [
      | inl hit ↦ ground (arith, select-save_all test change s id v.unique, ends t)
      | inr miss ↦ ground (arith, select-save_all test change s id v.unique, v.ended id t found)
    ]
  ];
  released = λ id t' h f. elim (Option-cases (get id s.tasks)) [
    | inl missing ↦ ground (arith, select-save_all test change s id v.unique)
    | inr (t, found) ↦ elim (Bool-cases (test t)) [
      | inl hit ↦ ground (arith, contains-select test change s id v.unique)
      | inr miss ↦ ground (
        arith,
        select-save_all test change s id v.unique,
        contains-select test change s id v.unique,
        v.released id t found,
      )
    ]
  ];
}

cleanup-IsSettled :
    (now : ℕ) (nodes : Dict String Node) (s : Tasks)
    → IsSettled s
    → IsSettled (cleanup_orphaned_pending_tasks now nodes s)
unfolding cleanup_orphaned_pending_tasks
cleanup-IsSettled now nodes s v =
    save_all-IsSettled (is_stale_unassigned now) (failed now unassigned_message) _
      (λ t. some-ne-none now)
      (save_all-IsSettled (is_stale_assigned nodes) (λ t. failed now (node_offline_message t) t) s
        (λ t. some-ne-none now) v)

written : (id j : ℕ) (t q : Task) (s : Tasks) → id ≡ j → get j (put id t s.tasks) ≡ some q → t ≡ q
written id j t q s same h = ground (arith, get-put id j t s.tasks)

contains-head :
    (b : Bool) (id j : ℕ) (l : List ℕ)
    → id ≡ j
    → b ≡ true
    → contains j (if b then id ∷ l else l) ≡ true
unfolding contains
contains-head b id j l same h = ground arith

contains-tail :
    (b : Bool) (id j : ℕ) (l : List ℕ)
    → contains j l ≡ true
    → contains j (if b then id ∷ l else l) ≡ true
unfolding contains
contains-tail true id j l h = ground arith
contains-tail false id j l h = h

-- An accepted report of a final status sets the end.
report_ends :
    (now : ℕ) (r : Report) (t : Task)
    → is_final r.status ≡ true
    → (apply_task_updates now r (t.status == "lost" && r.status == "running") t).completed_at ≢ none
unfolding contains
report_ends now r t f h =
    ground (arith, different_of_ne r.status "running" (final-other r.status "running" f refl))

-- One task is written, and its release scheduled if it is final.
pub put-IsSettled :
    (id : ℕ) (t : Task) (s : Tasks) (releases : List ℕ)
    → IsSettled s
    → (is_final t.status ≡ true → t.completed_at ≢ none)
    → releases ≡ (if is_final t.status then id ∷ s.releases else s.releases)
    → IsSettled (record { tasks = put id t s.tasks; releases = releases })
put-IsSettled id t s releases v ends r = record {
  unique = put-Unique id t s.tasks v.unique;
  ended = λ j q h f. elim (ℕ_discrete id j) [
    | yes same ↦
        let e = written id j t q s same h in
        subst (λ x. x.completed_at ≢ none) e
          (ends (subst (λ x. is_final x.status ≡ true) (sym e) f))
    | no other ↦ v.ended j q (ground (arith, get-put id j t s.tasks)) f
  ];
  released = λ j q h f.
      subst (λ l. contains j l ≡ true) (sym r)
        (elim (ℕ_discrete id j) [
          | yes same ↦
              let e = written id j t q s same h in
              contains-head (is_final t.status) id j s.releases same
                (subst (λ x. is_final x.status ≡ true) (sym e) f)
          | no other ↦
              contains-tail (is_final t.status) id j s.releases
                (v.released j q (ground (arith, get-put id j t s.tasks)) f)
        ]);
}

pub update_task_status-IsSettled :
    (now id : ℕ) (r : Report) (s : Tasks)
    → IsSettled s
    → IsSettled (update_task_status now id r s).1
update_task_status-IsSettled now id r s v = elim (Bool-cases (update_task_status now id r s).0) [
  | inr bad ↦ subst IsSettled (sym (update_task_status-refused now id r s bad)) v
  | inl good ↦
      let (t, found, valid, tasks, releases) = update_task_status-written now id r s good in
      let t' = apply_task_updates now r (t.status == "lost" && r.status == "running") t in
      let w =
        put-IsSettled id t' s (update_task_status now id r s).1.releases v (report_ends now r t)
          releases in
      subst
        (λ d.
          IsSettled (record { tasks = d; releases = (update_task_status now id r s).1.releases }))
        (sym tasks) w
]

pub mark_task_killed-IsSettled :
    (now id : ℕ) (message : String) (t : Task) (s : Tasks)
    → IsSettled s
    → IsSettled (mark_task_killed now id message t s)
unfolding mark_task_killed contains
mark_task_killed-IsSettled now id message t s v =
    put-IsSettled id
      (record t { status = "killed"; error_message = some message; completed_at = some now }) s
      (id ∷ s.releases) v (λ f. some-ne-none now) refl

module _ (links : Links) where
  bury-IsSettled :
      (now : ℕ) (dead : Dict String Node) (c : Cluster links)
      → IsSettled c.jobs
      → IsSettled (bury links now dead c).jobs
  unfolding bury mark_node_tasks_lost
  bury-IsSettled now [] c v = v
  bury-IsSettled now ((hostname, n) ∷ dead) c v = bury-IsSettled now dead _ (
      save_all-IsSettled (is_lost_with hostname) (lost now hostname) c.jobs (λ t. some-ne-none now)
        v)

  pub check_dead_runners-IsSettled :
      (now threshold : ℕ) (c : Cluster links)
      → IsSettled c.jobs
      → IsSettled (check_dead_runners links now threshold c).jobs
  unfolding check_dead_runners
  check_dead_runners-IsSettled now threshold c v =
      let c' = bury links now (find_dead_nodes threshold c.nodes) c in
      cleanup-IsSettled now c'.nodes c'.jobs
        (bury-IsSettled now (find_dead_nodes threshold c.nodes) c v)
