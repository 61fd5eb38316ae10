-- ===== src/Tasks/Offline.antt =====
-- What a round of the monitor does to the tasks of a node that stopped answering, and to the others.
use kohaku_river.Common.{
  ℕ, ◌<◌, ◌≡◌, refl, sym, ap, subst, ◌∙◌, ◌≢◌, inl, inr, Bool, true, false, ◌&&◌, some, [], ◌∷◌,
  arith, String, if◌then◌else◌, ltb, ◌==◌, nat_key, string_key, pair_key, keep, contains, Dict, get,
  Bool-cases, Option-cases, eq_of_same, different_of_ne, Unique, Item, Item-keep_intro, get-Item,
  ◌⊎◌, same_refl,
}
use kohaku_river.Common.Int.{negsuc}
use Prim.Native.String.{◌++◌}
use kohaku_river.Overlay.Links.{Links}
use kohaku_river.Tasks.{Task, Tasks, is_final}
use kohaku_river.Tasks.Monitor.{
  Node, Cluster, bury, check_dead_runners, lost, is_lost_with, is_stale_assigned,
  is_stale_unassigned, cleanup_orphaned_pending_tasks, mark_node_tasks_lost, find_dead_nodes,
  failed, node_offline_message, save_all, unassigned_message,
}
use kohaku_river.Tasks.Loops.{select-save_all, save_all-Unique, contains-save_all, contains-select}

true-ne-false : true ≢ false
true-ne-false h = cc

-- A final status is none of the others.
pub final-other :
    (status other : String) → is_final status ≡ true → is_final other ≡ false → status ≢ other
final-other status other f g same = true-ne-false (sym f ∙ ap is_final same ∙ g)

final-active :
    (status : String)
    → is_final status ≡ true
    → contains status ("running" ∷ "assigning" ∷ "pending" ∷ []) ≡ false
unfolding contains
final-active status f = ground (
  arith,
  different_of_ne "running" status (λ h. final-other status "running" f refl (sym h)),
  different_of_ne "assigning" status (λ h. final-other status "assigning" f refl (sym h)),
  different_of_ne "pending" status (λ h. final-other status "pending" f refl (sym h)),
)

final-is_lost_with :
    (hostname : String) (t : Task) → is_final t.status ≡ true → is_lost_with hostname t ≡ false
final-is_lost_with hostname t h = ground (arith, final-active t.status h)

final-is_stale_assigned :
    (nodes : Dict String Node) (t : Task)
    → is_final t.status ≡ true
    → is_stale_assigned nodes t ≡ false
unfolding contains
final-is_stale_assigned nodes t f =
    rw (different_of_ne t.status "pending" (final-other t.status "pending" f refl)) refl

final-is_stale_unassigned :
    (now : ℕ) (t : Task) → is_final t.status ≡ true → is_stale_unassigned now t ≡ false
unfolding contains
final-is_stale_unassigned now t f =
    rw (different_of_ne t.status "pending" (final-other t.status "pending" f refl)) refl

-- Two hosts do not claim one task.
other-is_lost_with :
    (h k : String) (t : Task) → is_lost_with h t ≡ true → h ≢ k → is_lost_with k t ≡ false
other-is_lost_with h k t l ne = elim (Option-cases t.assigned_node) [
  | inl nowhere ↦ ground arith
  | inr (node, on) ↦ ground (arith, string_key.is_same_iff node h, string_key.is_same_iff node k)
]

-- The three loops over tasks, read at one task.
get-mark_node_tasks_lost :
    (now : ℕ) (hostname : String) (s : Tasks) (id : ℕ) (t : Task)
    → Unique s.tasks
    → get id s.tasks ≡ some t
    → get id (mark_node_tasks_lost now hostname s).tasks
      ≡ some (if is_lost_with hostname t then lost now hostname t else t)
unfolding mark_node_tasks_lost
get-mark_node_tasks_lost now hostname s id t u h =
    select-save_all (is_lost_with hostname) (lost now hostname) s id u ∙ rw (h) refl

mark_node_tasks_lost-Unique :
    (now : ℕ) (hostname : String) (s : Tasks)
    → Unique s.tasks
    → Unique (mark_node_tasks_lost now hostname s).tasks
unfolding mark_node_tasks_lost
mark_node_tasks_lost-Unique now hostname s u =
    save_all-Unique (lost now hostname) (keep (λ item. is_lost_with hostname item.1) s.tasks) s u

cleanup-final :
    (now : ℕ) (nodes : Dict String Node) (s : Tasks) (id : ℕ) (t : Task)
    → Unique s.tasks
    → get id s.tasks ≡ some t
    → is_final t.status ≡ true
    → get id (cleanup_orphaned_pending_tasks now nodes s).tasks ≡ some t
unfolding cleanup_orphaned_pending_tasks
cleanup-final now nodes s id t u h f =
    let assigned = λ (t : Task). failed now (node_offline_message t) t in
    let s' = save_all assigned (keep (λ item. is_stale_assigned nodes item.1) s.tasks) s in
    let first : get id s'.tasks ≡ some t =
      select-save_all (is_stale_assigned nodes) assigned s id u
      ∙ rw (h, final-is_stale_assigned nodes t f) refl in
    select-save_all (is_stale_unassigned now) (failed now unassigned_message) s' id
      (save_all-Unique assigned (keep (λ item. is_stale_assigned nodes item.1) s.tasks) s u)
    ∙ rw (first, final-is_stale_unassigned now t f) refl

cleanup-Unique :
    (now : ℕ) (nodes : Dict String Node) (s : Tasks)
    → Unique s.tasks
    → Unique (cleanup_orphaned_pending_tasks now nodes s).tasks
unfolding cleanup_orphaned_pending_tasks
cleanup-Unique now nodes s u =
    let assigned = λ (t : Task). failed now (node_offline_message t) t in
    let rows = keep (λ item. is_stale_assigned nodes item.1) s.tasks in
    let s' = save_all assigned rows s in
    save_all-Unique (failed now unassigned_message)
      (keep (λ item. is_stale_unassigned now item.1) s'.tasks) s'
      (save_all-Unique assigned rows s u)

-- What was handed over for release stays so.
save_all-keeps_release :
    (change : Task → Task) (items : Dict ℕ Task) (s : Tasks) (id : ℕ)
    → contains id s.releases ≡ true
    → contains id (save_all change items s).releases ≡ true
save_all-keeps_release change items s id h = ground (arith, contains-save_all change items s id)

cleanup-keeps_release :
    (now : ℕ) (nodes : Dict String Node) (s : Tasks) (id : ℕ)
    → contains id s.releases ≡ true
    → contains id (cleanup_orphaned_pending_tasks now nodes s).releases ≡ true
unfolding cleanup_orphaned_pending_tasks
cleanup-keeps_release now nodes s id h =
    let assigned = λ (t : Task). failed now (node_offline_message t) t in
    let rows = keep (λ item. is_stale_assigned nodes item.1) s.tasks in
    let s' = save_all assigned rows s in
    save_all-keeps_release (failed now unassigned_message)
      (keep (λ item. is_stale_unassigned now item.1) s'.tasks) s' id
      (save_all-keeps_release assigned rows s id h)

active-is_lost_with :
    (hostname : String) (t : Task)
    → t.assigned_node ≡ some hostname
    → (t.status ≡ "running") ⊎ ((t.status ≡ "assigning") ⊎ (t.status ≡ "pending"))
    → is_lost_with hostname t ≡ true
unfolding contains
active-is_lost_with hostname t on (inl e) = rw (on, e) (ground (arith, same_refl hostname))
active-is_lost_with hostname t on (inr (inl e)) = rw (on, e) (ground (arith, same_refl hostname))
active-is_lost_with hostname t on (inr (inr e)) = rw (on, e) (ground (arith, same_refl hostname))

mark_node_tasks_lost-released :
    (now : ℕ) (hostname : String) (s : Tasks) (id : ℕ) (t : Task)
    → Unique s.tasks
    → get id s.tasks ≡ some t
    → is_lost_with hostname t ≡ true
    → contains id (mark_node_tasks_lost now hostname s).releases ≡ true
unfolding mark_node_tasks_lost
mark_node_tasks_lost-released now hostname s id t u h l =
    ground (arith, contains-select (is_lost_with hostname) (lost now hostname) s id u)

mark_node_tasks_lost-keeps_release :
    (now : ℕ) (hostname : String) (s : Tasks) (id : ℕ)
    → contains id s.releases ≡ true
    → contains id (mark_node_tasks_lost now hostname s).releases ≡ true
unfolding mark_node_tasks_lost
mark_node_tasks_lost-keeps_release now hostname s id h =
    save_all-keeps_release (lost now hostname) (keep (λ item. is_lost_with hostname item.1) s.tasks)
      s id h

module _ (links : Links) where
  bury-keeps_release :
      (now : ℕ) (dead : Dict String Node) (c : Cluster links) (id : ℕ)
      → contains id c.jobs.releases ≡ true
      → contains id (bury links now dead c).jobs.releases ≡ true
  unfolding bury
  bury-keeps_release now [] c id h = h
  bury-keeps_release now ((k, n) ∷ dead) c id h =
      bury-keeps_release now dead _ id (mark_node_tasks_lost-keeps_release now k c.jobs id h)

  bury-Unique :
      (now : ℕ) (dead : Dict String Node) (c : Cluster links)
      → Unique c.jobs.tasks
      → Unique (bury links now dead c).jobs.tasks
  unfolding bury
  bury-Unique now [] c u = u
  bury-Unique now ((k, n) ∷ dead) c u =
      bury-Unique now dead _ (mark_node_tasks_lost-Unique now k c.jobs u)

  bury-final :
      (now : ℕ) (dead : Dict String Node) (c : Cluster links) (id : ℕ) (t : Task)
      → Unique c.jobs.tasks
      → get id c.jobs.tasks ≡ some t
      → is_final t.status ≡ true
      → get id (bury links now dead c).jobs.tasks ≡ some t
  unfolding bury
  bury-final now [] c id t u h f = h
  bury-final now ((k, n) ∷ dead) c id t u h f =
      bury-final now dead _ id t (mark_node_tasks_lost-Unique now k c.jobs u)
        (get-mark_node_tasks_lost now k c.jobs id t u h ∙ rw (final-is_lost_with k t f) refl) f

  bury-lost :
      (now : ℕ) (dead : Dict String Node) (c : Cluster links) (id : ℕ) (t : Task)
      (hostname : String) (n : Node)
      → Unique c.jobs.tasks
      → Item hostname n dead
      → get id c.jobs.tasks ≡ some t
      → is_lost_with hostname t ≡ true
      → get id (bury links now dead c).jobs.tasks ≡ some (lost now hostname t)
  unfolding bury contains
  bury-lost now [] c id t hostname n u i h l = absurd i
  bury-lost now ((k, m) ∷ dead) c id t hostname n u i h l =
      let v = mark_node_tasks_lost-Unique now k c.jobs u in
      let once = get-mark_node_tasks_lost now k c.jobs id t u h in
      elim (Bool-cases (k == hostname)) [
        | inl here ↦
            let same = eq_of_same k hostname here in
            bury-final now dead _ id (lost now hostname t) v
              (once
                ∙ subst
                    (λ x.
                      some (if is_lost_with x t then lost now x t else t)
                      ≡ some (lost now hostname t))
                    (sym same) (rw (l) refl))
              refl
        | inr other ↦
            bury-lost now dead _ id t hostname n v
              (ground (arith, string_key.is_same_iff k hostname))
              (once
                ∙ rw
                    (other-is_lost_with hostname k t l
                      (λ e. ground (arith, string_key.is_same_iff k hostname)))
                    refl)
              l
      ]

  bury-released :
      (now : ℕ) (dead : Dict String Node) (c : Cluster links) (id : ℕ) (t : Task)
      (hostname : String) (n : Node)
      → Unique c.jobs.tasks
      → Item hostname n dead
      → get id c.jobs.tasks ≡ some t
      → is_lost_with hostname t ≡ true
      → contains id (bury links now dead c).jobs.releases ≡ true
  unfolding bury
  bury-released now [] c id t hostname n u i h l = absurd i
  bury-released now ((k, m) ∷ dead) c id t hostname n u i h l = elim (Bool-cases (k == hostname)) [
    | inl here ↦ bury-keeps_release now dead _ id (
        mark_node_tasks_lost-released now k c.jobs id t u h
          (subst (λ x. is_lost_with x t ≡ true) (sym (eq_of_same k hostname here)) l))
    | inr other ↦
        bury-released now dead _ id t hostname n (mark_node_tasks_lost-Unique now k c.jobs u)
          (ground (arith, string_key.is_same_iff k hostname))
          (get-mark_node_tasks_lost now k c.jobs id t u h
            ∙ rw
                (other-is_lost_with hostname k t l
                  (λ e. ground (arith, string_key.is_same_iff k hostname)))
                refl)
          l
  ]

  pub check_dead_runners-Unique :
      (now threshold : ℕ) (c : Cluster links)
      → Unique c.jobs.tasks
      → Unique (check_dead_runners links now threshold c).jobs.tasks
  unfolding check_dead_runners
  check_dead_runners-Unique now threshold c u =
      let c' = bury links now (find_dead_nodes threshold c.nodes) c in
      cleanup-Unique now c'.nodes c'.jobs (bury-Unique now (find_dead_nodes threshold c.nodes) c u)

  -- In a table with one row for each id, a round makes each task that a node had running, assigning or
  -- pending, when the node was online but its last heartbeat is before the threshold, lost, with
  -- the message, the exit code -1 and the time of the round as its end, leaves its other columns,
  -- and hands it over for release.
  pub check_dead_runners-lost :
      (now threshold : ℕ) (c : Cluster links) (hostname : String) (n : Node) (id : ℕ) (t : Task)
      → Unique c.jobs.tasks
      → get hostname c.nodes ≡ some n
      → n.status ≡ "online"
      → n.last_heartbeat < threshold
      → get id c.jobs.tasks ≡ some t
      → t.assigned_node ≡ some hostname
      → (t.status ≡ "running") ⊎ ((t.status ≡ "assigning") ⊎ (t.status ≡ "pending"))
      → (get id (check_dead_runners links now threshold c).jobs.tasks
          ≡ some (record t {
            status = "lost";
            error_message = some ("Node " ++ (hostname ++ " went offline (heartbeat timeout)"));
            completed_at = some now;
            exit_code = some (negsuc 0);
          }))
        × (contains id (check_dead_runners links now threshold c).jobs.releases ≡ true)
  unfolding check_dead_runners find_dead_nodes contains
  check_dead_runners-lost now threshold c hostname n id t u h online late at on status =
      let l : is_lost_with hostname t ≡ true = active-is_lost_with hostname t on status in
      let dead = find_dead_nodes threshold c.nodes in
      let test : String × Node → Bool =
        λ item. item.1.status == "online" && ltb item.1.last_heartbeat threshold in
      let found =
        Item-keep_intro test c.nodes hostname n (get-Item hostname n c.nodes h)
          (ground (arith, online, late, string_key.is_same_iff n.status "online")) in
      let gone = bury-lost now dead c id t hostname n u found at l in
      let c' = bury links now dead c in
      (
        cleanup-final now c'.nodes c'.jobs id (lost now hostname t) (bury-Unique now dead c u) gone
            refl,
        cleanup-keeps_release now c'.nodes c'.jobs id
            (bury-released now dead c id t hostname n u found at l),
      )

  -- A round leaves every task alone that has a final status.
  pub check_dead_runners-final :
      (now threshold : ℕ) (c : Cluster links) (id : ℕ) (t : Task)
      → Unique c.jobs.tasks
      → get id c.jobs.tasks ≡ some t
      → is_final t.status ≡ true
      → get id (check_dead_runners links now threshold c).jobs.tasks ≡ some t
  unfolding check_dead_runners
  check_dead_runners-final now threshold c id t u h f =
      let dead = find_dead_nodes threshold c.nodes in
      let c' = bury links now dead c in
      cleanup-final now c'.nodes c'.jobs id t (bury-Unique now dead c u)
        (bury-final now dead c id t u h f) f
