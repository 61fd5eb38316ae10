-- ===== src/Overlay/Manager/Allocation.antt =====
-- Every method of the manager keeps its tables consistent, and what an allocation promises.
use kohaku_river.Common.{
  zero, refl, ℕ, String, true, Bool, keep, get, ◌≡◌, Option-cases, some, none, ◌≤◌, false,
  Bool-cases, string_key, ◌<◌, ◌==◌, nat_key, ◌+◌, arith, suc, inl, del, inr, put-Unique,
  del-Unique, get-put, get-del, ℕ_discrete, find_item-get,
}
use kohaku_river.Overlay.Links.{Links}
use kohaku_river.Overlay.Manager.{
  Manager, OverlayAllocation, range_from, min_available_id, release_runner, reuse_allocation,
  remap_allocation, create_allocation, head?, new_allocation, allocate_freed, recovered_at,
  allocate_evicting, allocate_for_runner, allocate_new, lru_runner,
}
use kohaku_river.Overlay.Manager.Invariant.{
  IsConsistent, with_allocation-IsConsistent, del-IsConsistent, net-IsConsistent, put-IsConsistent,
}
use kohaku_river.Overlay.Subnet.{max_runners, OverlaySubnetConfig, get_runner_subnet}
use kohaku_river.Common.Result.{Result-cases, ok}

range_from-bounds :
    (test : ℕ → Bool) (from n i : ℕ)
    → head? (keep test (range_from from n)) ≡ some i
    → (from ≤ i) × (i < from + n) × (test i ≡ true)
unfolding range_from keep
range_from-bounds test from zero i h = cc
range_from-bounds test from (suc n) i h = ground (arith, range_from-bounds test (from + 1) n i)

-- What a successful `new_allocation` holds.
new_allocation-shape :
    (c : OverlaySubnetConfig) (n ip : String) (now i : ℕ) (device : String) (a : OverlayAllocation)
    → new_allocation c n ip now i device ≡ ok a
    → (a.runner_name ≡ n) × (a.runner_id ≡ i) × (get_runner_subnet c i ≡ ok a.subnet)
unfolding new_allocation
new_allocation-shape c n ip now i device a h = ground arith

module _ {links : Links} where
  open links use {Net, create, delete}

  abbrev pub is_free : Manager links → ℕ → Bool
  is_free m i = elim (get i m.id_to_runner) [ none ↦ true | some _ ↦ false ]

  -- The id that a new runner gets is in range and free.
  pub min_available_id-free :
      (m : Manager links) (i : ℕ)
      → min_available_id links m ≡ some i
      → (1 ≤ i) × (i ≤ max_runners m.subnet_config) × (get i m.id_to_runner ≡ none)
  unfolding min_available_id
  min_available_id-free m i h =
      ground (arith, range_from-bounds (is_free m) 1 (max_runners m.subnet_config) i)

  pub release_runner-IsConsistent :
      (m : Manager links) (n : String) → IsConsistent m → IsConsistent (release_runner links n m).1
  unfolding release_runner
  release_runner-IsConsistent m n v = elim (Option-cases (get n m.allocations)) [
    | inl e ↦ rw (e, release_runner) v
    | inr (a, e) ↦ elim (Result-cases (delete a.vxlan_device m.net).0) [
      | inl (_, d) ↦ rw (e, d, release_runner) (del-IsConsistent m _ n a v e)
      | inr (_, d) ↦ rw (e, d, release_runner) (net-IsConsistent m _ v)
    ]
  ]

  reuse_allocation-IsConsistent :
      (m : Manager links) (n ip : String) (now : ℕ) (a : OverlayAllocation)
      → IsConsistent m
      → get n m.allocations ≡ some a
      → IsConsistent (reuse_allocation links n ip now a m).1
  unfolding reuse_allocation
  reuse_allocation-IsConsistent m n ip now a v e = elim (Bool-cases (a.physical_ip == ip)) [
    | inl same ↦
        rw (same, reuse_allocation) (with_allocation-IsConsistent m n a _ v e refl refl refl)
    | inr moved ↦ elim (Result-cases (create a.runner_id ip m.net).0) [
      | inl (_, d) ↦
          rw (moved, d, reuse_allocation)
            (net-IsConsistent _ _ (with_allocation-IsConsistent m n a _ v e refl refl refl))
      | inr (_, d) ↦
          rw (moved, d, reuse_allocation)
            (net-IsConsistent _ _ (with_allocation-IsConsistent m n a _ v e refl refl refl))
    ]
  ]

  remap_allocation-IsConsistent :
      (m : Manager links) (n x : String) (now : ℕ) (a : OverlayAllocation)
      → IsConsistent m
      → get n m.allocations ≡ none
      → get x m.allocations ≡ some a
      → IsConsistent (remap_allocation links n now x a m).1
  unfolding remap_allocation
  remap_allocation-IsConsistent m n x now a v free e =
      let b : OverlayAllocation = record a { runner_name = n; last_used = now; is_active = true } in
      let rest = del x m.allocations in
      record {
        unique = put-Unique n b rest (del-Unique x m.allocations v.unique);
        unique_ids = put-Unique a.runner_id n m.id_to_runner v.unique_ids;
        named = λ k c h. ground (
          arith,
          get-put n k b rest,
          get-del x k m.allocations,
          v.named k c,
          string_key.is_same_iff n k,
        );
        owned = λ k c h. ground (
          arith,
          get-put n k b rest,
          get-del x k m.allocations,
          get-put a.runner_id c.runner_id n m.id_to_runner,
          v.owned k c,
          v.owned x a e,
          string_key.is_same_iff n k,
          string_key.is_same_iff x k,
        );
        in_range = λ k c h. ground (
          arith,
          get-put n k b rest,
          get-del x k m.allocations,
          v.in_range k c,
          v.in_range x a e,
        );
        addressed = λ k c h. ground (
          arith,
          get-put n k b rest,
          get-del x k m.allocations,
          v.addressed k c,
          v.addressed x a e,
        );
        held = λ i k h. elim (ℕ_discrete a.runner_id i) [
          | yes here ↦ (
            b,
            ground (
              arith,
              get-put a.runner_id i n m.id_to_runner,
              get-put n k b rest,
              string_key.is_same_iff n k,
            ),
            here,
          )
          | no other ↦
              let (c, at_k, has_i) =
                v.held i k (ground (arith, get-put a.runner_id i n m.id_to_runner)) in
              (
                c,
                ground (
                  arith,
                  get-put n k b rest,
                  get-del x k m.allocations,
                  string_key.is_same_iff n k,
                  string_key.is_same_iff x k,
                ),
                has_i,
              )
        ];
      }

  create_allocation-IsConsistent :
      (m : Manager links) (n ip : String) (now i : ℕ)
      → IsConsistent m
      → get n m.allocations ≡ none
      → (1 ≤ i) × (i ≤ max_runners m.subnet_config) × (get i m.id_to_runner ≡ none)
      → IsConsistent (create_allocation links n ip now i m).1
  unfolding create_allocation
  create_allocation-IsConsistent m n ip now i v free avail =
      elim (Result-cases (create i ip m.net).0) [
        | inr (_, d) ↦ rw (d, create_allocation) (net-IsConsistent m _ v)
        | inl (device, d) ↦ elim (Result-cases (new_allocation m.subnet_config n ip now i device)) [
          | inr (_, f) ↦ rw (d, f, create_allocation) (net-IsConsistent m _ v)
          | inl (a, f) ↦
              let shape = new_allocation-shape m.subnet_config n ip now i device a f in
              rw (d, f, create_allocation)
                (put-IsConsistent m _ n i a v free avail.2 shape.0 shape.1 (avail.0, avail.1)
                  shape.2)
        ]
      ]

  allocate_freed-IsConsistent :
      (m : Manager links) (n ip : String) (now : ℕ)
      → IsConsistent m
      → get n m.allocations ≡ none
      → IsConsistent (allocate_freed links n ip now m).1
  unfolding allocate_freed
  allocate_freed-IsConsistent m n ip now v free = elim (Option-cases (min_available_id links m)) [
    | inl e ↦ rw (e, allocate_freed) v
    | inr (i, e) ↦
        rw (e, allocate_freed)
          (create_allocation-IsConsistent m n ip now i v free (min_available_id-free m i e))
  ]

  pub release_runner-still_free :
      (m : Manager links) (n k : String)
      → get n m.allocations ≡ none
      → get n (release_runner links k m).1.allocations ≡ none
  unfolding release_runner
  release_runner-still_free m n k free = ground (arith, get-del k n m.allocations)

  pub recovered_at-get :
      (m : Manager links) (ip x : String) (a : OverlayAllocation)
      → IsConsistent m
      → recovered_at ip m.allocations ≡ some (x, a)
      → get x m.allocations ≡ some a
  unfolding recovered_at
  recovered_at-get m ip x a v r = (find_item-get _ m.allocations x a v.unique r).0

  allocate_evicting-IsConsistent :
      (m : Manager links) (n ip : String) (now : ℕ)
      → IsConsistent m
      → get n m.allocations ≡ none
      → IsConsistent (allocate_evicting links n ip now m).1
  unfolding allocate_evicting
  allocate_evicting-IsConsistent m n ip now v free =
      elim (Option-cases (lru_runner m.allocations)) [
        | inl e ↦ rw (e, allocate_evicting) v
        | inr (lru, e) ↦
            let w = release_runner-IsConsistent m lru v in
            let gone = release_runner-still_free m n lru free in
            elim (Result-cases (release_runner links lru m).0) [
              | inr (_, d) ↦ rw (e, d, allocate_evicting) w
              | inl (_, d) ↦
                  rw (e, d, allocate_evicting)
                    (allocate_freed-IsConsistent (release_runner links lru m).1 n ip now w gone)
            ]
      ]

  -- Whatever happens, error or not, the tables stay consistent.
  pub allocate_for_runner-IsConsistent :
      (m : Manager links) (n ip : String) (now : ℕ)
      → IsConsistent m
      → IsConsistent (allocate_for_runner links n ip now m).1
  unfolding allocate_for_runner
  allocate_for_runner-IsConsistent m n ip now v = elim (Option-cases (get n m.allocations)) [
    | inr (a, e) ↦ rw (e, allocate_for_runner) (reuse_allocation-IsConsistent m n ip now a v e)
    | inl e ↦ elim (Option-cases (recovered_at ip m.allocations)) [
      | inr ((x, a), r) ↦
          rw (e, r, allocate_for_runner)
            (remap_allocation-IsConsistent m n x now a v e (recovered_at-get m ip x a v r))
      | inl r ↦
          rw (e, r, allocate_for_runner)
            (elim (Option-cases (min_available_id links m)) [
              | inl f ↦ rw (f, allocate_new) (allocate_evicting-IsConsistent m n ip now v e)
              | inr (i, f) ↦
                  rw (f, allocate_new)
                    (create_allocation-IsConsistent m n ip now i v e (min_available_id-free m i f))
            ])
    ]
  ]
