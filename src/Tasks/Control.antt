-- ===== src/Tasks/Control.antt =====
-- src/kohakuriver/host/endpoints/task_control.py: the kill of a task by a user. The signal to the
-- runner is a message to a node, which the answer names.
use kohaku_river.Common.{
  ℕ, ◌≡◌, refl, sym, subst, ◌⊎◌, inl, inr, Bool, true, false, not, ◌&&◌, Option, none, some, List,
  [], ◌∷◌, arith, String, if◌then◌else◌, ◌==◌, nat_key, string_key, pair_key, contains, Dict, get,
  Bool-cases, Option-cases, same_refl, get-put_same,
}
use kohaku_river.Common.Result.{Result, ok, err, Result-cases}
use kohaku_river.Tasks.{Task, Tasks, mark_task_killed}
use kohaku_river.Tasks.Monitor.{Node}

-- The status codes 400, 401, 403, 404, 409, 500, 502 and 503.
pub data HttpError : Type 0 where
  bad_request unauthorized forbidden not_found conflict : HttpError
  server_error bad_gateway unavailable : HttpError

-- `current_user`: whether the role is that of a plain user, and the id.
pub record User : Type 0 where
  pub is_plain : Bool
  pub id : ℕ

abbrev pub killable_states : List String
killable_states = "pending" ∷ "assigning" ∷ "running" ∷ "paused" ∷ []

abbrev pub owns : User → Task → Bool
owns user task = elim task.owner_id [ none ↦ false | some owner ↦ owner == user.id ]

-- The node that gets the signal, if there is one and it is online.
abbrev pub signalled : Dict String Node → Task → Option String
signalled nodes task =
    if not (contains task.status ("running" ∷ "paused" ∷ []))
    then none
    else elim task.assigned_node [
      | none ↦ none
      | some hostname ↦ elim (get hostname nodes) [
        | none ↦ none
        | some node ↦ if node.status == "online" then some hostname else none
      ]
    ]

unfoldable pub request_kill_task :
    ℕ → Dict String Node → User → ℕ → Tasks → Result HttpError (Option String) × Tasks
unfolding mark_task_killed
request_kill_task now nodes user id s = elim (get id s.tasks) [
  | none ↦ (err not_found, s)
  | some task ↦
      if user.is_plain && not (owns user task)
      then (err forbidden, s)
      else if not (contains task.status killable_states)
      then (err conflict, s)
      else (ok (signalled nodes task), mark_task_killed now id "Kill requested by user." task s)
]

-- What a kill did.
abbrev pub Killed : ℕ → User → ℕ → Tasks → Tasks → Type 0
Killed now user id s s' =
    (t t' : Task) × (get id s.tasks ≡ some t)
    × (contains t.status killable_states ≡ true)
    × (user.is_plain ≡ true → t.owner_id ≡ some user.id)
    × (get id s'.tasks ≡ some t')
    × (t'.status ≡ "killed")
    × (t'.completed_at ≡ some now)
    × (contains id s'.releases ≡ true)

refused :
    (e : HttpError) (signal : Option String)
    → ¬ (◌≡◌ {A = Result HttpError (Option String)} (err e) (ok signal))
refused e signal h = cc

owns-owner : (user : User) (t : Task) → owns user t ≡ true → t.owner_id ≡ some user.id
owns-owner user t h = ground arith

killed_row :
    (now : ℕ) (nodes : Dict String Node) (user : User) (id : ℕ) (s : Tasks) (t : Task)
    (signal : Option String)
    → get id s.tasks ≡ some t
    → (request_kill_task now nodes user id s).0 ≡ ok signal
    → (contains t.status killable_states ≡ true)
      × (user.is_plain ≡ true → t.owner_id ≡ some user.id)
      × ((request_kill_task now nodes user id s).1
          ≡ mark_task_killed now id "Kill requested by user." t s)
unfolding request_kill_task
killed_row now nodes user id s t signal found h =
    elim (Bool-cases (user.is_plain && not (owns user t))) [
      | inl foreign ↦
          absurd (refused forbidden signal (rw (request_kill_task, found, foreign) at h))
      | inr mine ↦ elim (Bool-cases (contains t.status killable_states)) [
        | inr over ↦
            absurd (refused conflict signal (rw (request_kill_task, found, mine, over) at h))
        | inl active ↦ (
          active,
          λ plain. owns-owner user t (ground (arith, mine, plain)),
          rw (request_kill_task, found, mine, active) refl,
        )
      ]
    ]

unknown :
    (now : ℕ) (nodes : Dict String Node) (user : User) (id : ℕ) (s : Tasks) (signal : Option String)
    → get id s.tasks ≡ none
    → ¬ ((request_kill_task now nodes user id s).0 ≡ ok signal)
unfolding request_kill_task
unknown now nodes user id s signal missing h =
    refused not_found signal (rw (request_kill_task, missing) at h)

-- A kill that is answered without an error found a task that was still active and, for a plain
-- user, the user's own. The task is then killed, with its end and its release.
pub request_kill_task-Killed :
    (now : ℕ) (nodes : Dict String Node) (user : User) (id : ℕ) (s : Tasks) (signal : Option String)
    → (request_kill_task now nodes user id s).0 ≡ ok signal
    → Killed now user id s (request_kill_task now nodes user id s).1
unfolding mark_task_killed contains
request_kill_task-Killed now nodes user id s signal h = elim (Option-cases (get id s.tasks)) [
  | inl missing ↦ absurd (unknown now nodes user id s signal missing h)
  | inr (t, found) ↦
      let (active, mine, after) = killed_row now nodes user id s t signal found h in
      let t' : Task = record t {
        status = "killed";
        error_message = some "Kill requested by user.";
        completed_at = some now;
      } in
      (
        t,
        t',
        found,
        active,
        mine,
        subst (λ x. get id x.tasks ≡ some t') (sym after) (get-put_same id t' s.tasks),
        refl,
        refl,
        subst (λ x. contains id x.releases ≡ true) (sym after) (ground (arith, same_refl id)),
      )
]

-- An error of a kill changes nothing.
pub request_kill_task-error :
    (now : ℕ) (nodes : Dict String Node) (user : User) (id : ℕ) (s : Tasks) (e : HttpError)
    → (request_kill_task now nodes user id s).0 ≡ err e
    → (request_kill_task now nodes user id s).1 ≡ s
unfolding request_kill_task
request_kill_task-error now nodes user id s e h = ground arith

-- A kill changes nothing or marks the row that it read.
pub kill-cases :
    (now : ℕ) (nodes : Dict String Node) (user : User) (id : ℕ) (s : Tasks)
    → ((request_kill_task now nodes user id s).1 ≡ s)
      ⊎ ((t : Task) × (get id s.tasks ≡ some t)
          × ((request_kill_task now nodes user id s).1
              ≡ mark_task_killed now id "Kill requested by user." t s))
kill-cases now nodes user id s = elim (Result-cases (request_kill_task now nodes user id s).0) [
  | inr (e, h) ↦ inl (request_kill_task-error now nodes user id s e h)
  | inl (signal, h) ↦ elim (Option-cases (get id s.tasks)) [
    | inl missing ↦ absurd (unknown now nodes user id s signal missing h)
    | inr (t, found) ↦ inr (t, found, (killed_row now nodes user id s t signal found h).2)
  ]
]
