-- ===== src/Tasks/Pause.antt =====
-- src/kohakuriver/host/endpoints/task_control.py, `send_command_to_task`: pausing and resuming a task. The
-- row is read before the runner's answer is awaited and is written back whole after it, so the call is
-- two steps, between which others may run.
use kohaku_river.Common.{
  ℕ, ◌≡◌, ap, subst, ◌⊎◌, inl, inr, Bool, true, false, not, ◌&&◌, Option, none, some, arith, String,
  if◌then◌else◌, ◌==◌, nat_key, string_key, pair_key, contains, Dict, get, Bool-cases, Option-cases,
  get-put_same,
}
use kohaku_river.Common.Result.{Result, ok, err, Result-cases, err-ne-ok, ok-injective}
use kohaku_river.Tasks.{Task, Tasks, save, is_final}
use kohaku_river.Tasks.Monitor.{Node}
use kohaku_river.Tasks.Control.{
  HttpError, not_found, forbidden, bad_request, User, owns, request_kill_task,
  request_kill_task-Killed,
}
use kohaku_river.Tasks.Settled.{IsSettled}
use kohaku_river.Tasks.Rows.{saved, apply_change-IsSettled}

pub data Command : Type 0 where
  pause resume : Command

-- What waits for the runner's answer: the row as it was read, and the status that it will get.
pub record Pending : Type 0 where
  pub row : Task
  pub new_status : String

-- `match (command, task.status)`; a command other than the two is an error of the same kind.
abbrev pub next_status : Option Command → String → Option String
next_status none status = none
next_status (some pause) status = if status == "running" then some "paused" else none
next_status (some resume) status = if status == "paused" then some "running" else none

-- Up to the await.
unfoldable pub send_command_to_task :
    Dict String Node → User → ℕ → Option Command → Tasks → Result HttpError Pending
unfolding get
send_command_to_task nodes user id command s = elim (get id s.tasks) [
  | none ↦ err not_found
  | some task ↦
      if user.is_plain && not (owns user task) then err forbidden else elim task.assigned_node [
        | none ↦ err bad_request
        | some hostname ↦ elim (get hostname nodes) [
          | none ↦ err bad_request
          | some node ↦ elim (next_status command task.status) [
            | none ↦ err bad_request
            | some status ↦ ok (record { row = task; new_status = status })
          ]
        ]
      ]
]

-- From the answer on: `if "successfully" in response`.
abbrev pub finish_command : ℕ → Bool → Pending → Tasks → Tasks
finish_command id successful pending s =
    if successful then save id (record pending.row { status = pending.new_status }) s else s

next_status-cases :
    (command : Option Command) (status new : String)
    → next_status command status ≡ some new
    → ((status ≡ "running") × (new ≡ "paused")) ⊎ ((status ≡ "paused") × (new ≡ "running"))
next_status-cases none status new h = cc
next_status-cases (some pause) status new h =
    ground (arith, string_key.is_same_iff status "running")
next_status-cases (some resume) status new h =
    ground (arith, string_key.is_same_iff status "paused")

-- A command that waits for its answer was allowed on the row that it read.
abbrev pub Allowed : User → ℕ → Pending → Tasks → Type 0
Allowed user id p s =
    (get id s.tasks ≡ some p.row)
    × (user.is_plain ≡ true → owns user p.row ≡ true)
    × (((p.row.status ≡ "running") × (p.new_status ≡ "paused"))
        ⊎ ((p.row.status ≡ "paused") × (p.new_status ≡ "running")))

pub send_command_to_task-Allowed :
    (nodes : Dict String Node) (user : User) (id : ℕ) (command : Option Command) (s : Tasks)
    (p : Pending)
    → send_command_to_task nodes user id command s ≡ ok p
    → Allowed user id p s
unfolding send_command_to_task
send_command_to_task-Allowed nodes user id command s p h = elim (Option-cases (get id s.tasks)) [
  | inl missing ↦ absurd (err-ne-ok not_found p (rw (send_command_to_task, missing) at h))
  | inr (t, found) ↦ elim (Bool-cases (user.is_plain && not (owns user t))) [
    | inl foreign ↦ absurd (err-ne-ok forbidden p (rw (send_command_to_task, found, foreign) at h))
    | inr mine ↦ elim (Option-cases t.assigned_node) [
      | inl nowhere ↦
          absurd (err-ne-ok bad_request p (rw (send_command_to_task, found, mine, nowhere) at h))
      | inr (hostname, on) ↦ elim (Option-cases (get hostname nodes)) [
        | inl gone ↦
            absurd (err-ne-ok bad_request p (rw (send_command_to_task, found, mine, on, gone) at h))
        | inr (node, here) ↦ elim (Option-cases (next_status command t.status)) [
          | inl unfit ↦ absurd (
              err-ne-ok bad_request p
                (rw (send_command_to_task, found, mine, on, here, unfit) at h))
          | inr (status, next) ↦
              let e =
                ok-injective (record { row = t; new_status = status }) p
                  (rw (send_command_to_task, found, mine, on, here, next) at h) in
              subst (λ x. Allowed user id x s) e
                (found, λ plain. ground arith, next_status-cases command t.status status next)
        ]
      ]
    ]
  ]
]

-- The commands of one call, without a step of another in between.
abbrev pub command_task :
    Dict String Node → User → ℕ → Option Command → Bool → Tasks → Result HttpError Pending × Tasks
command_task nodes user id command successful s =
    let result = send_command_to_task nodes user id command s in
    (result, elim result [ err e ↦ s | ok p ↦ finish_command id successful p s ])

active-not_final :
    (status new : String)
    → ((status ≡ "running") × (new ≡ "paused")) ⊎ ((status ≡ "paused") × (new ≡ "running"))
    → is_final new ≡ false
unfolding contains
active-not_final status new (inl (e, f)) = ap is_final f
active-not_final status new (inr (e, f)) = ap is_final f

-- A pause or resume, answered or not, keeps the tasks settled, if no other step comes in between.
pub command_task-IsSettled :
    (nodes : Dict String Node) (user : User) (id : ℕ) (command : Option Command) (successful : Bool)
    (s : Tasks)
    → IsSettled s
    → IsSettled (command_task nodes user id command successful s).1
command_task-IsSettled nodes user id command successful s v =
    elim (Result-cases (send_command_to_task nodes user id command s)) [
      | inr (e, failed) ↦ rw (command_task, failed) v
      | inl (p, accepted) ↦
          let (found, mine, move) =
            send_command_to_task-Allowed nodes user id command s p accepted in
          rw (command_task, accepted)
            (finished successful p (active-not_final p.row.status p.new_status move))
    ]
  where
    finished :
        (b : Bool) (p : Pending)
        → is_final p.new_status ≡ false
        → IsSettled (finish_command id b p s)
    finished false p running = v
    finished true p running =
        apply_change-IsSettled id (saved (record p.row { status = p.new_status })) s running v

-- If a kill is accepted between the reading of the row and the runner's answer, the answer puts the
-- task back to paused or running, although the release of its addresses is scheduled.
pub finish_command-undoes_kill :
    (now : ℕ) (nodes : Dict String Node) (user killer : User) (id : ℕ) (command : Option Command)
    (s : Tasks) (p : Pending) (signal : Option String)
    → send_command_to_task nodes user id command s ≡ ok p
    → (request_kill_task now nodes killer id s).0 ≡ ok signal
    → (t : Task) × (get id
          (finish_command id true p (request_kill_task now nodes killer id s).1).tasks
        ≡ some t)
      × ((t.status ≡ "paused") ⊎ (t.status ≡ "running"))
      × (contains id (finish_command id true p (request_kill_task now nodes killer id s).1).releases
          ≡ true)
finish_command-undoes_kill now nodes user killer id command s p signal accepted killed =
    let (found, mine, move) = send_command_to_task-Allowed nodes user id command s p accepted in
    let (t, t', row, active, yours, row', status, end, released) =
      request_kill_task-Killed now nodes killer id s signal killed in
    (
      record p.row { status = p.new_status },
      get-put_same id (record p.row { status = p.new_status })
          (request_kill_task now nodes killer id s).1.tasks,
      elim move [ inl (e, paused) ↦ inl paused | inr (e, running) ↦ inr running ],
      released,
    )
