-- ===== src/Submission/Outcome.antt =====
-- What becomes of a submission: the task's row, its release and the reservations of its container.
use kohaku_river.Common.{
  ℕ, ◌≡◌, ◌⊎◌, Bool, true, some, List, String, nat_key, string_key, pair_key, contains, Dict, get,
}
use kohaku_river.Common.Result.{Result, ok, err}
use kohaku_river.Tasks.{Task, Tasks}
use kohaku_river.Reservation.{Network}
use kohaku_river.Reservation.Token.{Signer}
use kohaku_river.Submission.Networks.{exhausted, raised, IsClear}
use kohaku_river.Submission.{
  TargetError, runner_failed, TaskSubmission, Target, Host, Submitted, created, waits_for_approval,
  failed_target, aborted,
}
use kohaku_river.Submission.Admission.{IsAdmitted}

-- The answer of the runner leaves the row to be assigned, or fails it.
abbrev Sent : ℕ → ℕ → Task → Tasks → Result TargetError (Unit {0}) × Tasks → Type 0
Sent now id task jobs (sent, jobs') =
    (t : Task) × (get id jobs'.tasks ≡ some t)
    × (t.assigned_node ≡ task.assigned_node)
    × (jobs'.releases ≡ jobs.releases)
    × (((sent ≡ ok tt) × (t.status ≡ task.status))
        ⊎ ((sent ≡ err runner_failed) × (t.status ≡ "failed") × (t.completed_at ≡ some now)))

module _ (signer : Signer) (overlay_enabled : Bool) (networks : Dict String Network)
    (container_name : String → ℕ → String) (draw : String → ℕ) where
  -- What a result says of the row, of the releases and of the reservations.
  abbrev pub Fate : ℕ → ℕ → TaskSubmission → Target → Host → Host → Task → Submitted → Type 0
  Fate now id req target host host' t created =
      (t.status ≡ "assigning") × (host'.jobs.releases ≡ host.jobs.releases)
  Fate now id req target host host' t waits_for_approval =
      (t.status ≡ "pending_approval")
      × (host'.jobs.releases ≡ host.jobs.releases)
      × (host'.reservations ≡ host.reservations)
      × (req.needs_approval ≡ true)
  Fate now id req target host host' t (failed_target e) =
      (e ≡ runner_failed)
      × (t.status ≡ "failed")
      × (t.completed_at ≡ some now)
      × (host'.jobs.releases ≡ host.jobs.releases)
  Fate now id req target host host' t (aborted (exhausted name)) =
      (t.status ≡ "failed")
      × (t.completed_at ≡ some now)
      × (contains id host'.jobs.releases ≡ true)
      × IsClear now draw networks target.hostname (container_name req.task_type id)
          host'.reservations
  Fate now id req target host host' t (aborted (raised e)) = t.status ≡ "assigning"

  abbrev pub Recorded : ℕ → ℕ → TaskSubmission → Target → Host → Submitted × Host → Type 0
  Recorded now id req target host (result, host') =
      (t : Task) × (get id host'.jobs.tasks ≡ some t)
      × (t.assigned_node ≡ some target.hostname)
      × Fate now id req target host host' t result

  abbrev pub Outcome : ℕ → ℕ → TaskSubmission → Target → List ℕ → Host → Submitted × Host → Type 0
  Outcome now id req target gpus host result =
      ((e : TargetError) × (result.0 ≡ failed_target e) × (result.1 ≡ host))
      ⊎ (IsAdmitted req target gpus host × Recorded now id req target host result)
