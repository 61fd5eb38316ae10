-- ===== src/Tasks/Heartbeat/Liveness.antt =====
-- A task that its runner never confirms: the late heartbeats of its node give it up.
use kohaku_river.Common.{
  ℕ, suc, ◌+◌, ◌≤◌, ◌≡◌, refl, sym, ap, subst, ◌≢◌, ◌⊎◌, inl, inr, true, false, Option, none, some,
  List, [], ◌∷◌, arith, String, if◌then◌else◌, ltb, ◌==◌, nat_key, string_key, pair_key, contains,
  get, Bool-cases, Option-cases, eq_of_same, same_refl, get-put, different_of_ne, Bool,
}
use kohaku_river.Common.{All, Unique}
use kohaku_river.Overlay.Links.{Links}
use kohaku_river.Tasks.{Task, Tasks, is_final}
use kohaku_river.Tasks.Monitor.{Cluster}
use kohaku_river.Tasks.Settled.{IsSettled}
use kohaku_river.Tasks.Heartbeat.{
  HeartbeatRequest, HostConfig, reconcile, heartbeat, update_node_metrics,
}
use kohaku_river.Tasks.Monitor.{is_on}
use kohaku_river.Tasks.Heartbeat.Settled.{
  reconcile-final, reconcile-IsSettled, reconcile-keeps_release, reconcile-Unique,
}
use kohaku_river.Tasks.Heartbeat.Doubt.{
  reconcile-doubted, reconcile-elsewhere, doubted, IsSilent, reconcile-released,
}

-- How a task stands that needs at most `n` more heartbeats of its node.
abbrev Waits : ℕ → String → ℕ → ℕ → Tasks → Type 0
Waits id h submitted_at n s =
    (t : Task) × (get id s.tasks ≡ some t)
    × (t.assigned_node ≡ some h)
    × (t.submitted_at ≡ submitted_at)
    × (((t.status ≡ "failed") × (t.completed_at ≢ none) × (contains id s.releases ≡ true))
        ⊎ ((t.status ≡ "assigning") × (3 ≤ t.assignment_suspicion_count + n) × (1 ≤ n)))

some-ne-none : (now : ℕ) → some now ≢ none
some-ne-none now h = cc

-- Nothing but the last suspicion fails the task, and it is released then.
doubted-waits :
    (now : ℕ) (h : String) (n : ℕ) (t : Task) (released : Bool)
    → (ltb t.assignment_suspicion_count 2 ≡ false → released ≡ true)
    → t.status ≡ "assigning"
    → 3 ≤ t.assignment_suspicion_count + suc n
    → (((doubted now h t).status ≡ "failed")
        × ((doubted now h t).completed_at ≢ none)
        × (released ≡ true))
      ⊎ (((doubted now h t).status ≡ "assigning")
          × (3 ≤ (doubted now h t).assignment_suspicion_count + n)
          × (1 ≤ n))
doubted-waits now h n t released given_up e few =
    elim (Bool-cases (ltb t.assignment_suspicion_count 2)) [
      | inl fresh ↦ rw (fresh) (inr (e, ground arith, ground arith))
      | inr worn ↦ rw (worn) (inl (refl, some-ne-none now, given_up worn))
    ]

doubted-row :
    (now : ℕ) (h k : String) (a : ℕ) (t : Task)
    → t.assigned_node ≡ some k
    → t.submitted_at ≡ a
    → ((doubted now h t).assigned_node ≡ some k) × ((doubted now h t).submitted_at ≡ a)
doubted-row now h k a t e f = elim (Bool-cases (ltb t.assignment_suspicion_count 2)) [
  | inl fresh ↦ rw (fresh) (e, f)
  | inr worn ↦ rw (worn) (e, f)
]

failed-is_final : (t : Task) → t.status ≡ "failed" → is_final t.status ≡ true
unfolding contains
failed-is_final t e = ap is_final e

reconcile-own :
    (config : HostConfig) (request : HeartbeatRequest) (h : String) (now a id n : ℕ) (s : Tasks)
    → Unique s.tasks
    → IsSilent config id a request now
    → Waits id h a (suc n) s
    → Waits id h a n (reconcile config request h now s)
reconcile-own config request h now a id n s u silent (t, e, here, at, inl (over, end, gone)) = (
  t,
  reconcile-final config request h now s id t u e (failed-is_final t over),
  here,
  at,
  inl (over, end, reconcile-keeps_release config request h now s id gone),
)
reconcile-own config request h now a id n s u silent (t, e, here, at, inr (assigning, few, any)) =
    let row = doubted-row now h h a t here at in
    let on : is_on h t ≡ true = ground (arith, here, same_refl h) in
    let quiet = subst (λ x. IsSilent config id x request now) (sym at) silent in
    (
      doubted now h t,
      reconcile-doubted config request h now s id t u e assigning on quiet,
      row.0,
      row.1,
      doubted-waits now h n t (contains id (reconcile config request h now s).releases)
          (reconcile-released config request h now s id t u e assigning on quiet) assigning few,
    )

reconcile-foreign :
    (config : HostConfig) (request : HeartbeatRequest) (h k : String) (now a id n : ℕ) (s : Tasks)
    → Unique s.tasks
    → (k == h) ≡ false
    → All (λ info. info.task_id ≢ id) request.killed_tasks
    → Waits id h a n s
    → Waits id h a n (reconcile config request k now s)
reconcile-foreign config request h k now a id n s u other alive (t, e, here, at, w) = (
  t,
  reconcile-elsewhere config request k now s id t u e
      (ground (arith, here, other, string_key.is_same_iff h k, string_key.is_same_iff k h)) alive,
  here,
  at,
  elim w [
    | inl (over, end, gone) ↦
        inl (over, end, reconcile-keeps_release config request k now s id gone)
    | inr waiting ↦ inr waiting
  ],
)

-- A heartbeat that the host receives, and when.
pub record Beat : Type 0 where
  pub hostname : String
  pub request : HeartbeatRequest
  pub now : ℕ

abbrev pub beats_of : String → List Beat → ℕ
beats_of h [] = 0
beats_of h (beat ∷ beats) = if beat.hostname == h then suc (beats_of h beats) else beats_of h beats

-- No heartbeat reports the task killed, and those of its node are late and do not report it running.
abbrev pub IsUnconfirmed : HostConfig → ℕ → String → ℕ → List Beat → Type 0
IsUnconfirmed config id h submitted_at beats =
    All
      (λ beat.
        All (λ info. info.task_id ≢ id) beat.request.killed_tasks
        × (beat.hostname ≡ h → IsSilent config id submitted_at beat.request beat.now))
      beats

counted :
    (beat : Beat) (beats : List Beat) (h : String)
    → beats_of h (beat ∷ beats)
      ≡ (if beat.hostname == h then suc (beats_of h beats) else beats_of h beats)
counted beat beats h = refl

module _ (links : Links) (url_host : String → Option String) (config : HostConfig) where
  abbrev pub beat_of : Beat → Cluster links → Cluster links
  beat_of beat c = (heartbeat links url_host config beat.hostname beat.request beat.now c).1

  abbrev pub run_beats : List Beat → Cluster links → Cluster links
  run_beats [] c = c
  run_beats (beat ∷ beats) c = run_beats beats (beat_of beat c)

  -- A heartbeat of a node that is not registered changes nothing.
  pub heartbeat-jobs :
      (beat : Beat) (c : Cluster links)
      → ((beat_of beat c).jobs ≡ c.jobs × (get beat.hostname c.nodes ≡ none))
        ⊎ ((beat_of beat c).jobs ≡ reconcile config beat.request beat.hostname beat.now c.jobs)
  unfolding heartbeat
  heartbeat-jobs beat c = elim (Option-cases (get beat.hostname c.nodes)) [
    | inl missing ↦ inl (rw (beat_of, heartbeat, missing) refl, missing)
    | inr (node, found) ↦ inr (rw (beat_of, heartbeat, found) refl)
  ]

  heartbeat-nodes :
      (beat : Beat) (c : Cluster links) (h : String)
      → get h c.nodes ≢ none
      → get h (beat_of beat c).nodes ≢ none
  unfolding heartbeat
  heartbeat-nodes beat c h here = elim (Option-cases (get beat.hostname c.nodes)) [
    | inl missing ↦ rw (beat_of, heartbeat, missing) here
    | inr (node, found) ↦
        rw (beat_of, heartbeat, found)
          (λ gone. ground (
            arith,
            get-put beat.hostname h (update_node_metrics beat.request beat.now node) c.nodes,
            here,
          ))
  ]

  pub heartbeat-IsSettled :
      (beat : Beat) (c : Cluster links) → IsSettled c.jobs → IsSettled (beat_of beat c).jobs
  heartbeat-IsSettled beat c v = elim (heartbeat-jobs beat c) [
    | inl (same, missing) ↦ subst IsSettled (sym same) v
    | inr after ↦
        subst IsSettled (sym after)
          (reconcile-IsSettled config beat.request beat.hostname beat.now c.jobs v)
  ]

  pub heartbeat-Unique :
      (beat : Beat) (c : Cluster links) → Unique c.jobs.tasks → Unique (beat_of beat c).jobs.tasks
  heartbeat-Unique beat c u = elim (heartbeat-jobs beat c) [
    | inl (same, missing) ↦ subst (λ s. Unique s.tasks) (sym same) u
    | inr after ↦
        subst (λ s. Unique s.tasks) (sym after)
          (reconcile-Unique config beat.request beat.hostname beat.now c.jobs u)
  ]

  heartbeat-Waits :
      (beat : Beat) (c : Cluster links) (id : ℕ) (h : String) (a n : ℕ)
      → Unique c.jobs.tasks
      → get h c.nodes ≢ none
      → All (λ info. info.task_id ≢ id) beat.request.killed_tasks
      → (beat.hostname ≡ h → IsSilent config id a beat.request beat.now)
      → Waits id h a (if beat.hostname == h then suc n else n) c.jobs
      → Waits id h a n (beat_of beat c).jobs
  heartbeat-Waits beat c id h a n v here alive silent w = elim (heartbeat-jobs beat c) [
    | inl (same, missing) ↦
        let other : (beat.hostname == h) ≡ false =
          different_of_ne beat.hostname h
            (λ e. here (subst (λ k. get k c.nodes ≡ none) e missing)) in
        subst (Waits id h a n) (sym same) (rw (other) at w)
    | inr after ↦ subst (Waits id h a n) (sym after) (elim (Bool-cases (beat.hostname == h)) [
      | inl own ↦
          let e = eq_of_same beat.hostname h own in
          subst (λ k. Waits id h a n (reconcile config beat.request k beat.now c.jobs)) (sym e)
            (reconcile-own config beat.request h beat.now a id n c.jobs v (silent e)
              (rw (own) at w))
      | inr other ↦
          reconcile-foreign config beat.request h beat.hostname beat.now a id n c.jobs v other alive
            (rw (other) at w)
    ])
  ]

  run_beats-Waits :
      (beats : List Beat) (c : Cluster links) (id : ℕ) (h : String) (a : ℕ)
      → Unique c.jobs.tasks
      → get h c.nodes ≢ none
      → IsUnconfirmed config id h a beats
      → Waits id h a (beats_of h beats) c.jobs
      → Waits id h a 0 (run_beats beats c).jobs
  run_beats-Waits [] c id h a v here q w = w
  run_beats-Waits (beat ∷ beats) c id h a v here q w =
      run_beats-Waits beats (beat_of beat c) id h a (heartbeat-Unique beat c v)
        (heartbeat-nodes beat c h here) q.1
        (heartbeat-Waits beat c id h a (beats_of h beats) v here q.0.0 q.0.1
          (subst (λ n. Waits id h a n c.jobs) (counted beat beats h) w))

  -- In a table with one row for each id, a task that is assigned to a registered node is given up after three late heartbeats of the node
  -- that do not report it running, however many heartbeats of other nodes come between, if none
  -- reports it killed: it is failed, with its end and its release.
  pub run_beats-gives_up :
      (beats : List Beat) (c : Cluster links) (id : ℕ) (h : String) (t : Task)
      → Unique c.jobs.tasks
      → get h c.nodes ≢ none
      → get id c.jobs.tasks ≡ some t
      → t.status ≡ "assigning"
      → t.assigned_node ≡ some h
      → IsUnconfirmed config id h t.submitted_at beats
      → 3 ≤ beats_of h beats
      → (t' : Task) × (get id (run_beats beats c).jobs.tasks ≡ some t')
        × (t'.status ≡ "failed")
        × (t'.completed_at ≢ none)
        × (contains id (run_beats beats c).jobs.releases ≡ true)
  run_beats-gives_up beats c id h t v here e assigning on q three =
      let (t', e', on', at, w) =
        run_beats-Waits beats c id h t.submitted_at v here q
          (t, e, on, refl, inr (assigning, omega (arith, three), omega (arith, three))) in
      elim w [
        | inl (over, end, gone) ↦ (t', e', over, end, gone)
        | inr (still, few, any) ↦ absurd (omega (arith, any))
      ]
