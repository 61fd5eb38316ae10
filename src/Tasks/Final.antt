-- ===== src/Tasks/Final.antt =====
-- A status report of a runner: what it changes, and what a final status still allows.
use kohaku_river.Common.{
  ℕ, ◌≡◌, refl, sym, subst, ◌≢◌, inl, inr, true, false, ◌&&◌, none, some, ◌∷◌, arith, String,
  if◌then◌else◌, ◌==◌, nat_key, string_key, pair_key, get, put, Bool-cases, Option-cases, get-put,
  get-put_same, false-ne-true,
}
use kohaku_river.Tasks.{
  Task, Tasks, Report, update_task_status, is_final, validate_status_transition, apply_task_updates,
}

-- What a report leads to.
abbrev pub Outcome : ℕ → ℕ → Report → Tasks → Type 0
Outcome now id r s =
    let u = update_task_status now id r s in
    (u.0 ≡ false → u.1 ≡ s)
    × ((j : ℕ) → id ≢ j → get j u.1.tasks ≡ get j s.tasks)
    × (u.0 ≡ true
        → (t t' : Task) × (get id s.tasks ≡ some t)
          × (get id u.1.tasks ≡ some t')
          × (t'.status ≡ r.status)
          × (is_final t.status ≡ true
              → is_final t'.status ≡ false
              → (t.task_type ≡ "vps")
                × (t.status ≡ "lost")
                × (t'.status ≡ "running")
                × (t'.completed_at ≡ none)))

pub recovers :
    (t : Task) (status : String)
    → validate_status_transition t status ≡ true
    → is_final t.status ≡ true
    → is_final status ≡ false
    → (t.task_type ≡ "vps") × (t.status ≡ "lost") × (status ≡ "running")
recovers t status v f g = ground (
  arith,
  string_key.is_same_iff t.task_type "vps",
  string_key.is_same_iff t.status "lost",
  string_key.is_same_iff status "running",
)

pub update_task_status-refused :
    (now id : ℕ) (r : Report) (s : Tasks)
    → (update_task_status now id r s).0 ≡ false
    → (update_task_status now id r s).1 ≡ s
unfolding update_task_status
update_task_status-refused now id r s h = ground arith

pub update_task_status-other :
    (now id j : ℕ) (r : Report) (s : Tasks)
    → id ≢ j
    → get j (update_task_status now id r s).1.tasks ≡ get j s.tasks
unfolding update_task_status
update_task_status-other now id j r s ne = elim (Option-cases (get id s.tasks)) [
  | inl missing ↦ rw (update_task_status, missing) refl
  | inr (t, found) ↦ elim (Bool-cases (validate_status_transition t r.status)) [
    | inr bad ↦ rw (update_task_status, found, bad) refl
    | inl good ↦
        let t' = apply_task_updates now r (t.status == "lost" && r.status == "running") t in
        rw (update_task_status, found, good) (ground (arith, get-put id j t' s.tasks))
  ]
]

-- What an accepted report writes.
pub update_task_status-written :
    (now id : ℕ) (r : Report) (s : Tasks)
    → (update_task_status now id r s).0 ≡ true
    → (t : Task) × (get id s.tasks ≡ some t)
      × (validate_status_transition t r.status ≡ true)
      × ((update_task_status now id r s).1.tasks
          ≡ put id
              (apply_task_updates now r (t.status == "lost" && r.status == "running") t)
              s.tasks)
      × ((update_task_status now id r s).1.releases
          ≡ (if is_final r.status then id ∷ s.releases else s.releases))
unfolding update_task_status
update_task_status-written now id r s h = elim (Option-cases (get id s.tasks)) [
  | inl missing ↦ absurd (false-ne-true (rw (update_task_status, missing) at h))
  | inr (t, found) ↦ elim (Bool-cases (validate_status_transition t r.status)) [
    | inr bad ↦ absurd (false-ne-true (rw (update_task_status, found, bad) at h))
    | inl good ↦ (
      t,
      found,
      good,
      rw (update_task_status, found, good) (ground arith),
      rw (update_task_status, found, good) (ground arith),
    )
  ]
]

update_task_status-accepted :
    (now id : ℕ) (r : Report) (s : Tasks)
    → (update_task_status now id r s).0 ≡ true
    → (t t' : Task) × (get id s.tasks ≡ some t)
      × (get id (update_task_status now id r s).1.tasks ≡ some t')
      × (t'.status ≡ r.status)
      × (is_final t.status ≡ true
          → is_final t'.status ≡ false
          → (t.task_type ≡ "vps")
            × (t.status ≡ "lost")
            × (t'.status ≡ "running")
            × (t'.completed_at ≡ none))
update_task_status-accepted now id r s h =
    let (t, found, good, tasks, releases) = update_task_status-written now id r s h in
    let t' = apply_task_updates now r (t.status == "lost" && r.status == "running") t in
    (
      t,
      t',
      found,
      subst (λ d. get id d ≡ some t') (sym tasks) (get-put_same id t' s.tasks),
      refl,
      λ f g.
          let (vps, was_lost, runs) = recovers t r.status good f g in
          (
            vps,
            was_lost,
            runs,
            ground (
              arith,
              string_key.is_same_iff t.status "lost",
              string_key.is_same_iff r.status "running",
            ),
          ),
    )

-- A refused report changes nothing, and an accepted one changes no other task. A task that was
-- final stays final, except that a lost VPS may run again, and is then not completed any more.
pub update_task_status-Outcome : (now id : ℕ) (r : Report) (s : Tasks) → Outcome now id r s
update_task_status-Outcome now id r s = (
  update_task_status-refused now id r s,
  λ j ne. update_task_status-other now id j r s ne,
  update_task_status-accepted now id r s,
)
