-- ===== src/Tasks/Approval.antt =====
-- src/kohakuriver/host/endpoints/task_approval.py: a task of a plain user waits for an operator. The
-- dispatch to a runner is awaited after the row is saved, so an approval is two steps: `approve_task` up
-- to the dispatch, and `finish_dispatch` with the runner's answer.
use kohaku_river.Common.{
  ℕ, ◌≡◌, refl, sym, ap, subst, ◌∙◌, ◌⊎◌, inl, inr, true, false, not, Option, none, some, [], ◌∷◌,
  arith, String, if◌then◌else◌, ◌==◌, nat_key, string_key, pair_key, contains, Dict, get, put,
  Bool-cases, Option-cases, eq_of_same, same_refl, get-put, different_of_ne, false-ne-true,
}
use kohaku_river.Common.Result.{Result, ok, err}
use kohaku_river.Tasks.{Task, Tasks, save}
use kohaku_river.Tasks.Monitor.{Node}
use kohaku_river.Tasks.Control.{HttpError, not_found, conflict}

-- What is sent to the runner's node, and for which row.
pub data Dispatch : Type 0 where
  nothing : Dispatch
  vps_to : String → Task → Dispatch
  command_to : String → Task → Dispatch

abbrev pub approved : ℕ → ℕ → Task → Task
approved now operator task = record task {
  approval_status = some "approved";
  approved_by_id = some operator;
  approved_at = some now;
  status = "assigning";
}

abbrev pub unassigned : Task → Task
unassigned task = record task { status = "pending"; assigned_node = none }

-- The dispatch for the saved row: an empty or missing host name has none; a node that is offline or
-- unknown puts the task back to pending.
abbrev pub dispatch_approved : Dict String Node → ℕ → Task → Tasks → Dispatch × Tasks
dispatch_approved nodes id task s = elim task.assigned_node [
  | none ↦ (nothing, s)
  | some hostname ↦ if hostname == "" then (nothing, s) else elim (get hostname nodes) [
    | none ↦ (nothing, save id (unassigned task) s)
    | some node ↦
        if not (node.status == "online")
        then (nothing, save id (unassigned task) s)
        else if task.task_type == "vps"
        then (vps_to node.url task, s)
        else (command_to node.url task, s)
  ]
]

unfoldable pub approve_task :
    ℕ → Dict String Node → ℕ → ℕ → Tasks → Result HttpError Dispatch × Tasks
unfolding get
approve_task now nodes operator id s = elim (get id s.tasks) [
  | none ↦ (err not_found, s)
  | some task ↦
      if not (task.status == "pending_approval")
      then (err conflict, s)
      else let task' = approved now operator task in
        let (dispatch, s') = dispatch_approved nodes id task' (save id task' s) in (ok dispatch, s')
]

abbrev pub dispatch_failed : ℕ → String → Task → Task
dispatch_failed now message task = record task {
  status = "failed";
  error_message = some message;
  completed_at = some now;
}

-- The answer to the request for a VPS: none, or the SSH port, which is saved if it is given.
abbrev pub finish_dispatch : ℕ → ℕ → String → Option (Option ℕ) → Task → Tasks → Tasks
finish_dispatch now id message none task s = save id (dispatch_failed now message task) s
finish_dispatch now id message (some none) task s = s
finish_dispatch now id message (some (some port)) task s =
    if port == 0 then s else save id (record task { ssh_port = some port }) s

abbrev pub refused : ℕ → ℕ → Option String → Task → Task
refused now operator reason task = record task {
  status = "rejected";
  approval_status = some "rejected";
  approved_by_id = some operator;
  approved_at = some now;
  rejection_reason = reason;
}

unfoldable pub reject_task : ℕ → ℕ → ℕ → Option String → Tasks → Result HttpError (Unit {0}) × Tasks
unfolding get
reject_task now operator id reason s = elim (get id s.tasks) [
  | none ↦ (err not_found, s)
  | some task ↦
      if not (task.status == "pending_approval")
      then (err conflict, s)
      else (ok tt, save id (refused now operator reason task) s)
]

-- The operator's decision.
pub data Decision : Type 0 where
  approves : Decision
  rejects : Option String → Decision

abbrev pub decide :
    ℕ → Dict String Node → ℕ → Decision → ℕ → Tasks → Result HttpError (Unit {0}) × Tasks
decide now nodes operator approves id s =
    let (result, s') = approve_task now nodes operator id s in
    (elim result [ err e ↦ err e | ok dispatch ↦ ok tt ], s')
decide now nodes operator (rejects reason) id s = reject_task now operator id reason s

-- What a decision writes.
abbrev pub Decided : ℕ → Task → Task → Type 0
Decided operator t t' =
    (t.status ≡ "pending_approval")
    × (contains t'.status ("assigning" ∷ "pending" ∷ "rejected" ∷ []) ≡ true)
    × (t'.approved_by_id ≡ some operator)
    × (t'.owner_id ≡ t.owner_id)
    × (t'.task_type ≡ t.task_type)

abbrev pub IsDecision : ℕ → ℕ → Tasks → Result HttpError (Unit {0}) × Tasks → Type 0
IsDecision operator id s (err e, s') = s' ≡ s
IsDecision operator id s (ok done, s') =
    (t t' : Task) × (get id s.tasks ≡ some t)
    × (s'.releases ≡ s.releases)
    × ((j : ℕ) → get j s'.tasks ≡ (if id == j then some t' else get j s.tasks))
    × Decided operator t t'

get-save_twice :
    (id j : ℕ) (t t' : Task) (s : Tasks)
    → get j (save id t' (save id t s)).tasks ≡ (if id == j then some t' else get j s.tasks)
get-save_twice id j t t' s =
    ground (arith, get-put id j t' (put id t s.tasks), get-put id j t s.tasks)

Decided-by :
    (operator id : ℕ) (t t' : Task) (s s' : Tasks)
    → get id s.tasks ≡ some t
    → s'.releases ≡ s.releases
    → ((j : ℕ) → get j s'.tasks ≡ (if id == j then some t' else get j s.tasks))
    → Decided operator t t'
    → IsDecision operator id s (ok tt, s')
Decided-by operator id t t' s s' found releases rows d = (t, t', found, releases, rows, d)

-- The dispatch leaves the row or puts it back to pending.
dispatch_approved-cases :
    (nodes : Dict String Node) (id : ℕ) (t : Task) (s : Tasks)
    → ((dispatch_approved nodes id t s).1 ≡ s)
      ⊎ ((dispatch_approved nodes id t s).1 ≡ save id (unassigned t) s)
dispatch_approved-cases nodes id t s = elim (Option-cases t.assigned_node) [
  | inl nowhere ↦ inl (rw (dispatch_approved, nowhere) refl)
  | inr (hostname, on) ↦ elim (Bool-cases (hostname == "")) [
    | inl empty ↦ inl (rw (dispatch_approved, on, empty) refl)
    | inr named ↦ elim (Option-cases (get hostname nodes)) [
      | inl gone ↦ inr (rw (dispatch_approved, on, named, gone) refl)
      | inr (node, here) ↦ elim (Bool-cases (node.status == "online")) [
        | inr offline ↦ inr (rw (dispatch_approved, on, named, here, offline) refl)
        | inl online ↦ elim (Bool-cases (t.task_type == "vps")) [
          | inl vps ↦ inl (rw (dispatch_approved, on, named, here, online, vps) refl)
          | inr batch ↦ inl (rw (dispatch_approved, on, named, here, online, batch) refl)
        ]
      ]
    ]
  ]
]

-- The dispatch part of an approval.
dispatch-IsDecision :
    (now : ℕ) (nodes : Dict String Node) (operator id : ℕ) (t : Task) (s : Tasks)
    → get id s.tasks ≡ some t
    → t.status ≡ "pending_approval"
    → IsDecision operator id s (
      ok tt,
      (dispatch_approved nodes id
          (approved now operator t)
          (save id (approved now operator t) s)).1,
    )
unfolding contains
dispatch-IsDecision now nodes operator id t s found waits =
    let t' = approved now operator t in
    elim (dispatch_approved-cases nodes id t' (save id t' s)) [
      | inl same ↦
          subst (λ x. IsDecision operator id s (ok tt, x)) (sym same)
            (Decided-by operator id t t' s (save id t' s) found refl (λ j. get-put id j t' s.tasks)
              (waits, refl, refl, refl, refl))
      | inr back ↦
          subst (λ x. IsDecision operator id s (ok tt, x)) (sym back)
            (Decided-by operator id t (unassigned t') s (save id (unassigned t') (save id t' s))
              found refl (λ j. get-save_twice id j t' (unassigned t') s)
              (waits, refl, refl, refl, refl))
    ]

-- An operator's decision that is refused changes nothing. Any other finds a task that waits for
-- approval and changes that row alone: the task is then assigned, pending or rejected, with the
-- operator recorded and its owner and type kept, and no release is scheduled.
pub decide-IsDecision :
    (now : ℕ) (nodes : Dict String Node) (operator : ℕ) (decision : Decision) (id : ℕ) (s : Tasks)
    → IsDecision operator id s (decide now nodes operator decision id s)
unfolding approve_task reject_task contains
decide-IsDecision now nodes operator approves id s = elim (Option-cases (get id s.tasks)) [
  | inl missing ↦ rw (decide, approve_task, missing) refl
  | inr (t, found) ↦ elim (Bool-cases (t.status == "pending_approval")) [
    | inr other ↦ rw (decide, approve_task, found, other) refl
    | inl waits ↦
        rw (decide, approve_task, found, waits)
          (dispatch-IsDecision now nodes operator id t s found
            (eq_of_same t.status "pending_approval" waits))
  ]
]
decide-IsDecision now nodes operator (rejects reason) id s = elim (Option-cases (get id s.tasks)) [
  | inl missing ↦ rw (decide, reject_task, missing) refl
  | inr (t, found) ↦ elim (Bool-cases (t.status == "pending_approval")) [
    | inr other ↦ rw (decide, reject_task, found, other) refl
    | inl waits ↦
        rw (decide, reject_task, found, waits)
          (Decided-by operator id t (refused now operator reason t) s
            (save id (refused now operator reason t) s) found refl
            (λ j. get-put id j (refused now operator reason t) s.tasks)
            (eq_of_same t.status "pending_approval" waits, refl, refl, refl, refl))
  ]
]

decided_status :
    (status : String)
    → contains status ("assigning" ∷ "pending" ∷ "rejected" ∷ []) ≡ true
    → (status == "pending_approval") ≡ false
unfolding contains
decided_status status h = different_of_ne status "pending_approval" (λ e.
    false-ne-true (sym (ap (λ x. contains x ("assigning" ∷ "pending" ∷ "rejected" ∷ [])) e) ∙ h))

decide-decided :
    (now : ℕ) (nodes : Dict String Node) (operator : ℕ) (decision : Decision) (id : ℕ) (s : Tasks)
    (t : Task)
    → get id s.tasks ≡ some t
    → (t.status == "pending_approval") ≡ false
    → decide now nodes operator decision id s ≡ (err conflict, s)
unfolding approve_task reject_task
decide-decided now nodes operator approves id s t found h = rw (decide, approve_task, found, h) refl
decide-decided now nodes operator (rejects reason) id s t found h =
    rw (decide, reject_task, found, h) refl

-- A task is decided once: after a decision every further one, of any operator, is a conflict and
-- changes nothing.
pub decide-once :
    (now later : ℕ) (nodes nodes' : Dict String Node) (operator other : ℕ) (first second : Decision)
    (id : ℕ) (s : Tasks)
    → (decide now nodes operator first id s).0 ≡ ok tt
    → decide later nodes' other second id (decide now nodes operator first id s).1
      ≡ (err conflict, (decide now nodes operator first id s).1)
unfolding contains
decide-once now later nodes nodes' operator other first second id s accepted =
    let (t, t', found, releases, rows, (waits, status, by, owner, type_)) =
      subst (λ r. IsDecision operator id s (r, (decide now nodes operator first id s).1)) accepted
        (decide-IsDecision now nodes operator first id s) in
    decide-decided later nodes' other second id (decide now nodes operator first id s).1 t'
      (rows id ∙ rw (same_refl id) refl) (decided_status t'.status status)
