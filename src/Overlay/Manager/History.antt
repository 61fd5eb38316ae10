-- ===== src/Overlay/Manager/History.antt =====
-- Histories of calls: what holds after any sequence of registrations, marks and releases.
use kohaku_river.Common.{
  ℕ, String, refl, List, [], get, ◌∷◌, Option-cases, inl, ◌≡◌, inr, some, if◌then◌else◌, ◌+◌,
  string_key, arith, ◌∙◌, subst, sym,
}
use kohaku_river.Overlay.Links.{Links}
use kohaku_river.Overlay.Subnet.{OverlaySubnetConfig}
use kohaku_river.Overlay.Subnet.Plan.{Within, get_runner_subnet_disjoint}
use kohaku_river.Overlay.Manager.{
  Manager, OverlayAllocation, allocate_for_runner, mark_runner_inactive, mark_runner_active,
  release_all, cleanup_inactive, release_runner, create_allocation, allocate_freed, allocate_new,
  reuse_allocation, recovered_at, min_available_id, lru_runner, allocate_evicting,
}
use kohaku_river.Overlay.Manager.Invariant.{IsConsistent, with_allocation-IsConsistent, same_owner}
use kohaku_river.Overlay.Manager.Allocation.{
  allocate_for_runner-IsConsistent, release_runner-IsConsistent,
}
use kohaku_river.Overlay.Subnet.Validation.{IsValid}
use kohaku_river.Common.Result.{Result-cases}

-- One method call, with the time at which it runs.
pub data Call : Type 0 where
  registers : (name physical_ip : String) (now : ℕ) → Call
  goes_inactive : (name : String) → Call
  comes_back : (name : String) (now : ℕ) → Call
  is_released : (name : String) → Call
  is_cleaned : Call

module _ {links : Links} where
  open links use {Net, create, delete}

  -- The state after a call, whether it returned or raised.
  unfoldable pub step : Manager links → Call → Manager links
  unfolding allocate_for_runner mark_runner_inactive mark_runner_active release_runner
      cleanup_inactive
  step m (registers name ip now) = (allocate_for_runner links name ip now m).1
  step m (goes_inactive name) = mark_runner_inactive links name m
  step m (comes_back name now) = mark_runner_active links name now m
  step m (is_released name) = (release_runner links name m).1
  step m is_cleaned = (cleanup_inactive links m).1

  unfoldable pub run : Manager links → List Call → Manager links
  run m [] = m
  run m (c ∷ cs) = run (step m c) cs

  -- The manager before any runner registered.
  abbrev pub fresh : OverlaySubnetConfig → Net → Manager links
  fresh c net = record { subnet_config = c; allocations = []; id_to_runner = []; net = net }

  pub fresh-IsConsistent : (c : OverlaySubnetConfig) (net : Net) → IsConsistent (fresh c net)
  unfolding get
  fresh-IsConsistent c net = record {
    unique = tt;
    unique_ids = tt;
    named = λ n a h. cc;
    owned = λ n a h. cc;
    in_range = λ n a h. cc;
    addressed = λ n a h. cc;
    held = λ i n h. cc;
  }

  mark_runner_inactive-IsConsistent :
      (m : Manager links) (n : String)
      → IsConsistent m
      → IsConsistent (mark_runner_inactive links n m)
  unfolding mark_runner_inactive
  mark_runner_inactive-IsConsistent m n v = elim (Option-cases (get n m.allocations)) [
    | inl e ↦ rw (e, mark_runner_inactive) v
    | inr (a, e) ↦
        rw (e, mark_runner_inactive) (with_allocation-IsConsistent m n a _ v e refl refl refl)
  ]

  mark_runner_active-IsConsistent :
      (m : Manager links) (n : String) (now : ℕ)
      → IsConsistent m
      → IsConsistent (mark_runner_active links n now m)
  unfolding mark_runner_active
  mark_runner_active-IsConsistent m n now v = elim (Option-cases (get n m.allocations)) [
    | inl e ↦ rw (e, mark_runner_active) v
    | inr (a, e) ↦
        rw (e, mark_runner_active) (with_allocation-IsConsistent m n a _ v e refl refl refl)
  ]

  release_all-IsConsistent :
      (names : List String) (k : ℕ) (m : Manager links)
      → IsConsistent m
      → IsConsistent (release_all links names k m).1
  unfolding release_all
  release_all-IsConsistent [] k m v = v
  release_all-IsConsistent (n ∷ names) k m v =
      let w = release_runner-IsConsistent m n v in
      elim (Result-cases (release_runner links n m).0) [
        | inr (_, d) ↦ rw (d, release_all) w
        | inl (done, d) ↦
            rw (d, release_all)
              (release_all-IsConsistent names (if done then k + 1 else k)
                (release_runner links n m).1 w)
      ]

  -- No call, failing or not, breaks the tables.
  pub step-IsConsistent : (m : Manager links) (c : Call) → IsConsistent m → IsConsistent (step m c)
  unfolding step cleanup_inactive
  step-IsConsistent m (registers name ip now) v = allocate_for_runner-IsConsistent m name ip now v
  step-IsConsistent m (goes_inactive name) v = mark_runner_inactive-IsConsistent m name v
  step-IsConsistent m (comes_back name now) v = mark_runner_active-IsConsistent m name now v
  step-IsConsistent m (is_released name) v = release_runner-IsConsistent m name v
  step-IsConsistent m is_cleaned v = release_all-IsConsistent _ 0 m v

  pub run-IsConsistent :
      (cs : List Call) (m : Manager links) → IsConsistent m → IsConsistent (run m cs)
  unfolding run
  run-IsConsistent [] m v = v
  run-IsConsistent (c ∷ cs) m v = run-IsConsistent cs (step m c) (step-IsConsistent m c v)

  -- The address plan never changes.
  abbrev KeepsPlan : Manager links → Manager links → Type 0
  KeepsPlan m m' = m'.subnet_config ≡ m.subnet_config

  release_runner-KeepsPlan :
      (m : Manager links) (n : String) → KeepsPlan m (release_runner links n m).1
  unfolding release_runner
  release_runner-KeepsPlan m n = ground arith

  release_all-KeepsPlan :
      (names : List String) (k : ℕ) (m : Manager links)
      → KeepsPlan m (release_all links names k m).1
  unfolding release_all
  release_all-KeepsPlan [] k m = refl
  release_all-KeepsPlan (n ∷ names) k m =
      let once = release_runner-KeepsPlan m n in
      elim (Result-cases (release_runner links n m).0) [
        | inr (_, d) ↦ rw (d, release_all) once
        | inl (done, d) ↦
            rw (d, release_all)
              (release_all-KeepsPlan names (if done then k + 1 else k) (release_runner links n m).1
                ∙ once)
      ]

  create_allocation-KeepsPlan :
      (m : Manager links) (n ip : String) (now i : ℕ)
      → KeepsPlan m (create_allocation links n ip now i m).1
  unfolding create_allocation
  create_allocation-KeepsPlan m n ip now i = ground arith

  allocate_freed-KeepsPlan :
      (m : Manager links) (n ip : String) (now : ℕ)
      → KeepsPlan m (allocate_freed links n ip now m).1
  unfolding allocate_freed
  allocate_freed-KeepsPlan m n ip now = elim (Option-cases (min_available_id links m)) [
    | inl e ↦ rw (e, allocate_freed) refl
    | inr (i, e) ↦ rw (e, allocate_freed) (create_allocation-KeepsPlan m n ip now i)
  ]

  allocate_new-KeepsPlan :
      (m : Manager links) (n ip : String) (now : ℕ) → KeepsPlan m (allocate_new links n ip now m).1
  unfolding allocate_new
  allocate_new-KeepsPlan m n ip now = elim (Option-cases (min_available_id links m)) [
    | inr (i, e) ↦ rw (e, allocate_new) (create_allocation-KeepsPlan m n ip now i)
    | inl e ↦ elim (Option-cases (lru_runner m.allocations)) [
      | inl f ↦ rw (e, f, allocate_new, allocate_evicting) refl
      | inr (lru, f) ↦
          let once = release_runner-KeepsPlan m lru in
          elim (Result-cases (release_runner links lru m).0) [
            | inr (_, d) ↦ rw (e, f, d, allocate_new, allocate_evicting) once
            | inl (_, d) ↦
                rw (e, f, d, allocate_new, allocate_evicting)
                  (allocate_freed-KeepsPlan (release_runner links lru m).1 n ip now ∙ once)
          ]
    ]
  ]

  reuse_allocation-KeepsPlan :
      (m : Manager links) (n ip : String) (now : ℕ) (a : OverlayAllocation)
      → KeepsPlan m (reuse_allocation links n ip now a m).1
  unfolding reuse_allocation
  reuse_allocation-KeepsPlan m n ip now a = ground arith

  allocate_for_runner-KeepsPlan :
      (m : Manager links) (n ip : String) (now : ℕ)
      → KeepsPlan m (allocate_for_runner links n ip now m).1
  unfolding allocate_for_runner
  allocate_for_runner-KeepsPlan m n ip now = elim (Option-cases (get n m.allocations)) [
    | inr (a, e) ↦ rw (e, allocate_for_runner) (reuse_allocation-KeepsPlan m n ip now a)
    | inl e ↦ elim (Option-cases (recovered_at ip m.allocations)) [
      | inr (_, r) ↦ rw (e, r, allocate_for_runner) refl
      | inl r ↦ rw (e, r, allocate_for_runner) (allocate_new-KeepsPlan m n ip now)
    ]
  ]

  step-KeepsPlan : (m : Manager links) (c : Call) → KeepsPlan m (step m c)
  unfolding step mark_runner_inactive mark_runner_active cleanup_inactive
  step-KeepsPlan m (registers name ip now) = allocate_for_runner-KeepsPlan m name ip now
  step-KeepsPlan m (goes_inactive name) = ground arith
  step-KeepsPlan m (comes_back name now) = ground arith
  step-KeepsPlan m (is_released name) = release_runner-KeepsPlan m name
  step-KeepsPlan m is_cleaned = release_all-KeepsPlan _ 0 m

  run-KeepsPlan : (cs : List Call) (m : Manager links) → KeepsPlan m (run m cs)
  unfolding run
  run-KeepsPlan [] m = refl
  run-KeepsPlan (c ∷ cs) m = run-KeepsPlan cs (step m c) ∙ step-KeepsPlan m c

-- After any history of calls on a new manager of a valid plan, whatever the devices answer, no
-- address lies in the subnets of two runners.
pub run-subnets_disjoint :
    (links : Links) (c : OverlaySubnetConfig) (net : links.Net) (cs : List Call) (n k : String)
    (a b : OverlayAllocation) (address : ℕ)
    → IsValid c
    → get n (run {links = links} (fresh c net) cs).allocations ≡ some a
    → get k (run {links = links} (fresh c net) cs).allocations ≡ some b
    → Within a.subnet address
    → Within b.subnet address
    → n ≡ k
run-subnets_disjoint links c net cs n k a b address valid ha hb wa wb =
    let m = run {links = links} (fresh c net) cs in
    let v = run-IsConsistent cs (fresh {links = links} c net) (fresh-IsConsistent c net) in
    let plan : m.subnet_config ≡ c = run-KeepsPlan cs (fresh {links = links} c net) in
    same_owner m n k a b v ha hb (
      get_runner_subnet_disjoint m.subnet_config a.runner_id b.runner_id address a.subnet b.subnet
        (subst IsValid (sym plan) valid) (v.addressed n a ha) (v.addressed k b hb) wa wb)
