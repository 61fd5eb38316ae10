-- ===== src/Overlay/Manager/Eviction.antt =====
-- What an allocation leaves of the entries of other runners.
use kohaku_river.Common.{
  ℕ, String, true, ◌≡◌, some, get, false, string_key, inl, arith, Bool-cases, inr, ◌≢◌, get-del,
  nat_key, Option-cases, get-put, put, ◌==◌, del, find_item-get,
}
use kohaku_river.Overlay.Links.{Links}
use kohaku_river.Overlay.Manager.{
  Manager, OverlayAllocation, min_available_id, release_runner, create_allocation,
  allocate_for_runner, new_allocation, starts_with, reuse_allocation, remap_allocation,
  recovered_at, allocate_new, allocate_evicting, allocate_freed, lru_runner,
}
use kohaku_river.Overlay.Manager.Invariant.{IsConsistent}
use kohaku_river.Common.Result.{Result-cases}
use kohaku_river.Overlay.Manager.Oldest.{Items, find_lru_inactive-IsLeast, lru_runner-some}

put-other :
    (d : Items) (n k : String) (a c : OverlayAllocation)
    → n ≢ k
    → get k d ≡ some c
    → get k (put n a d) ≡ some c
put-other d n k a c ne h = ground (arith, get-put n k a d, string_key.is_same_iff n k)

module _ {links : Links} where
  open links use {Net, create, delete}

  -- What a release leaves of another entry, and of the id that it gives back.
  release_runner-other :
      (m : Manager links) (n k : String) (c : OverlayAllocation)
      → n ≢ k
      → get k m.allocations ≡ some c
      → get k (release_runner links n m).1.allocations ≡ some c
  unfolding release_runner
  release_runner-other m n k c ne h =
      ground (arith, get-del n k m.allocations, string_key.is_same_iff n k)

  reuse_allocation-other :
      (m : Manager links) (n k ip : String) (now : ℕ) (a c : OverlayAllocation)
      → n ≢ k
      → get k m.allocations ≡ some c
      → get k (reuse_allocation links n ip now a m).1.allocations ≡ some c
  unfolding reuse_allocation
  reuse_allocation-other m n k ip now a c ne h = elim (Bool-cases (a.physical_ip == ip)) [
    | inl same ↦ rw (same, reuse_allocation) (put-other m.allocations n k _ c ne h)
    | inr moved ↦ elim (Result-cases (create a.runner_id ip m.net).0) [
      | inl (_, d) ↦ rw (moved, d, reuse_allocation) (put-other m.allocations n k _ c ne h)
      | inr (_, d) ↦ rw (moved, d, reuse_allocation) (put-other m.allocations n k _ c ne h)
    ]
  ]

  remap_allocation-other :
      (m : Manager links) (n x k : String) (now : ℕ) (a c : OverlayAllocation)
      → n ≢ k
      → x ≢ k
      → get k m.allocations ≡ some c
      → get k (remap_allocation links n now x a m).1.allocations ≡ some c
  unfolding remap_allocation
  remap_allocation-other m n x k now a c ne nx h =
      put-other (del x m.allocations) n k _ c ne
        (ground (arith, get-del x k m.allocations, string_key.is_same_iff x k))

  recovered_at-name :
      (m : Manager links) (ip x : String) (a : OverlayAllocation)
      → IsConsistent m
      → recovered_at ip m.allocations ≡ some (x, a)
      → starts_with x "runner_" ≡ true
  unfolding recovered_at
  recovered_at-name m ip x a v r =
      let (there, passes) = find_item-get _ m.allocations x a v.unique r in ground arith

  create_allocation-other :
      (m : Manager links) (n k ip : String) (now i : ℕ) (c : OverlayAllocation)
      → n ≢ k
      → get k m.allocations ≡ some c
      → get k (create_allocation links n ip now i m).1.allocations ≡ some c
  unfolding create_allocation
  create_allocation-other m n k ip now i c ne h = elim (Result-cases (create i ip m.net).0) [
    | inr (_, d) ↦ rw (d, create_allocation) h
    | inl (device, d) ↦ elim (Result-cases (new_allocation m.subnet_config n ip now i device)) [
      | inr (_, f) ↦ rw (d, f, create_allocation) h
      | inl (a, f) ↦ rw (d, f, create_allocation) (put-other m.allocations n k a c ne h)
    ]
  ]

  allocate_freed-other :
      (m : Manager links) (n k ip : String) (now : ℕ) (c : OverlayAllocation)
      → n ≢ k
      → get k m.allocations ≡ some c
      → get k (allocate_freed links n ip now m).1.allocations ≡ some c
  unfolding allocate_freed
  allocate_freed-other m n k ip now c ne h = elim (Option-cases (min_available_id links m)) [
    | inl e ↦ rw (e, allocate_freed) h
    | inr (i, e) ↦ rw (e, allocate_freed) (create_allocation-other m n k ip now i c ne h)
  ]

  allocate_new-keeps_active :
      (m : Manager links) (n k ip : String) (now : ℕ) (c : OverlayAllocation)
      → IsConsistent m
      → n ≢ k
      → get k m.allocations ≡ some c
      → c.is_active ≡ true
      → get k (allocate_new links n ip now m).1.allocations ≡ some c
  unfolding allocate_new
  allocate_new-keeps_active m n k ip now c v ne h on =
      elim (Option-cases (min_available_id links m)) [
        | inr (i, e) ↦ rw (e, allocate_new) (create_allocation-other m n k ip now i c ne h)
        | inl e ↦
            rw (e, allocate_new, allocate_evicting)
              (elim (Option-cases (lru_runner m.allocations)) [
                | inl f ↦ rw (f, allocate_evicting) h
                | inr (lru, f) ↦
                    let (idle, there, off, _) =
                      find_lru_inactive-IsLeast m.allocations lru v.unique
                        (lru_runner-some m.allocations lru f) in
                    let spared = release_runner-other m lru k c (λ same. ground arith) h in
                    elim (Result-cases (release_runner links lru m).0) [
                      | inr (_, d) ↦ rw (f, d, allocate_evicting) spared
                      | inl (_, d) ↦
                          rw (f, d, allocate_evicting)
                            (allocate_freed-other (release_runner links lru m).1 n k ip now c ne
                              spared)
                    ]
              ])
      ]

  -- Registering a runner never takes the id of another active runner, whatever the devices
  -- answer, unless that runner's name begins like a recovered placeholder.
  pub allocate_for_runner-keeps_active :
      (m : Manager links) (n k ip : String) (now : ℕ) (c : OverlayAllocation)
      → IsConsistent m
      → n ≢ k
      → get k m.allocations ≡ some c
      → c.is_active ≡ true
      → starts_with k "runner_" ≡ false
      → get k (allocate_for_runner links n ip now m).1.allocations ≡ some c
  unfolding allocate_for_runner
  allocate_for_runner-keeps_active m n k ip now c v ne h on real =
      elim (Option-cases (get n m.allocations)) [
        | inr (a, e) ↦ rw (e, allocate_for_runner) (reuse_allocation-other m n k ip now a c ne h)
        | inl e ↦ elim (Option-cases (recovered_at ip m.allocations)) [
          | inr ((x, a), r) ↦
              let old = recovered_at-name m ip x a v r in
              rw (e, r, allocate_for_runner)
                (remap_allocation-other m n x k now a c ne (λ same. ground arith) h)
          | inl r ↦
              rw (e, r, allocate_for_runner) (allocate_new-keeps_active m n k ip now c v ne h on)
        ]
      ]
