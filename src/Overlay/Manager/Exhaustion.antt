-- ===== src/Overlay/Manager/Exhaustion.antt =====
-- When `allocate_for_runner` finds no id.
use kohaku_river.Common.{
  ℕ, String, zero, true, ◌≡◌, some, none, get, ◌≤◌, false, string_key, inl, Bool, arith, keep, inr,
  ◌≢◌, ◌<◌, get-del, ◌+◌, nat_key, suc, ℕ_discrete, Option-cases, ◌⊎◌,
}
use kohaku_river.Overlay.Links.{Links, LinkError}
use kohaku_river.Overlay.Manager.{
  Manager, OverlayAllocation, OverlayError, range_from, min_available_id, release_runner,
  create_allocation, allocate_for_runner, head?, new_allocation, no_runner_ids, range_from,
  reuse_allocation, remap_allocation, recovered_at, allocate_new, allocate_evicting, allocate_freed,
  link_error, lru_runner,
}
use kohaku_river.Overlay.Manager.Invariant.{IsConsistent}
use kohaku_river.Overlay.Subnet.{max_runners}
use kohaku_river.Common.Result.{ok, err, Result-cases, Result}
use kohaku_river.Overlay.Manager.Allocation.{is_free}
use kohaku_river.Overlay.Manager.Oldest.{
  find_lru_inactive-none, find_lru_inactive-IsLeast, IsLeast, lru_runner-none, lru_runner-some,
}

range_from-none :
    (test : ℕ → Bool) (from n i : ℕ)
    → head? (keep test (range_from from n)) ≡ none
    → from ≤ i
    → i < from + n
    → test i ≡ false
unfolding range_from keep
range_from-none test from zero i h low high = absurd (omega arith)
range_from-none test from (suc n) i h low high = elim (ℕ_discrete from i) [
  | yes here ↦ ground arith
  | no other ↦ ground (arith, range_from-none test (from + 1) n i)
]

link_error-ne :
    (x : LinkError)
    → ¬ (◌≡◌ {A = Result OverlayError OverlayAllocation} (err (link_error x)) (err no_runner_ids))
link_error-ne x h = cc

-- Every id of the plan is taken, and either every entry is active, or the inactive entry that was
-- used least recently has an empty name.
abbrev pub IsFull : {links : Links} → Manager links → Type 0
IsFull m =
    ((i : ℕ) → 1 ≤ i → i ≤ max_runners m.subnet_config → get i m.id_to_runner ≢ none)
    × (((k : String) (c : OverlayAllocation) → get k m.allocations ≡ some c → c.is_active ≡ true)
        ⊎ IsLeast m.allocations "")

module _ {links : Links} where
  open links use {Net, create, delete}

  min_available_id-none :
      (m : Manager links) (i : ℕ)
      → min_available_id links m ≡ none
      → 1 ≤ i
      → i ≤ max_runners m.subnet_config
      → get i m.id_to_runner ≢ none
  unfolding min_available_id
  min_available_id-none m i h low high free =
      ground (arith, range_from-none (is_free m) 1 (max_runners m.subnet_config) i)

  release_runner-frees :
      (m : Manager links) (n : String) (a : OverlayAllocation) (b : Bool)
      → get n m.allocations ≡ some a
      → (release_runner links n m).0 ≡ ok b
      → (get a.runner_id (release_runner links n m).1.id_to_runner ≡ none)
        × ((release_runner links n m).1.subnet_config ≡ m.subnet_config)
  unfolding release_runner
  release_runner-frees m n a b h e = ground (
    arith,
    get-del a.runner_id a.runner_id m.id_to_runner,
    nat_key.is_same_iff a.runner_id a.runner_id,
  )

  create_allocation-ne-no_runner_ids :
      (m : Manager links) (n ip : String) (now i : ℕ)
      → (create_allocation links n ip now i m).0 ≢ err no_runner_ids
  unfolding create_allocation new_allocation
  create_allocation-ne-no_runner_ids m n ip now i h = ground arith

  reuse_allocation-ne-no_runner_ids :
      (m : Manager links) (n ip : String) (now : ℕ) (a : OverlayAllocation)
      → (reuse_allocation links n ip now a m).0 ≢ err no_runner_ids
  unfolding reuse_allocation
  reuse_allocation-ne-no_runner_ids m n ip now a h = ground arith

  remap_allocation-ne-no_runner_ids :
      (m : Manager links) (n x : String) (now : ℕ) (a : OverlayAllocation)
      → (remap_allocation links n now x a m).0 ≢ err no_runner_ids
  unfolding remap_allocation
  remap_allocation-ne-no_runner_ids m n x now a h = cc

  -- After a release the freed id is available again.
  allocate_freed-ne-no_runner_ids :
      (m : Manager links) (n ip : String) (now i : ℕ)
      → 1 ≤ i
      → i ≤ max_runners m.subnet_config
      → get i m.id_to_runner ≡ none
      → (allocate_freed links n ip now m).0 ≢ err no_runner_ids
  unfolding allocate_freed
  allocate_freed-ne-no_runner_ids m n ip now i low high free h =
      elim (Option-cases (min_available_id links m)) [
        | inl e ↦ min_available_id-none m i e low high free
        | inr (j, e) ↦ create_allocation-ne-no_runner_ids m n ip now j (rw (e, allocate_freed) at h)
      ]

  allocate_new-no_runner_ids :
      (m : Manager links) (n ip : String) (now : ℕ)
      → IsConsistent m
      → (allocate_new links n ip now m).0 ≡ err no_runner_ids
      → IsFull m
  unfolding allocate_new
  allocate_new-no_runner_ids m n ip now v e = elim (Option-cases (min_available_id links m)) [
    | inr (i, f) ↦
        absurd (create_allocation-ne-no_runner_ids m n ip now i (rw (f, allocate_new) at e))
    | inl f ↦ elim (Option-cases (lru_runner m.allocations)) [
      | inl g ↦ (
        λ i low high. min_available_id-none m i f low high,
        elim (lru_runner-none m.allocations g) [
          | inl empty ↦ inl (λ k c h. find_lru_inactive-none m.allocations k c empty h)
          | inr nameless ↦ inr (find_lru_inactive-IsLeast m.allocations "" v.unique nameless)
        ],
      )
      | inr (lru, g) ↦
          let (idle, there, off, _) =
            find_lru_inactive-IsLeast m.allocations lru v.unique
              (lru_runner-some m.allocations lru g) in
          let bounds = v.in_range lru idle there in
          elim (Result-cases (release_runner links lru m).0) [
            | inr (x, d) ↦
                absurd (link_error-ne x (rw (f, g, d, allocate_new, allocate_evicting) at e))
            | inl (b, d) ↦
                let (free, same) = release_runner-frees m lru idle b there d in
                absurd (
                  allocate_freed-ne-no_runner_ids (release_runner links lru m).1 n ip now
                    idle.runner_id bounds.0 (rw same bounds.1) free
                    (rw (f, g, d, allocate_new, allocate_evicting) at e))
          ]
    ]
  ]

  -- A registration on consistent tables fails for want of an id only when every id is taken and either every
  -- entry is active, or the inactive entry that was used least recently has an empty name.
  pub allocate_for_runner-no_runner_ids :
      (m : Manager links) (n ip : String) (now : ℕ)
      → IsConsistent m
      → (allocate_for_runner links n ip now m).0 ≡ err no_runner_ids
      → IsFull m
  unfolding allocate_for_runner
  allocate_for_runner-no_runner_ids m n ip now v e = elim (Option-cases (get n m.allocations)) [
    | inr (a, f) ↦
        absurd (reuse_allocation-ne-no_runner_ids m n ip now a (rw (f, allocate_for_runner) at e))
    | inl f ↦ elim (Option-cases (recovered_at ip m.allocations)) [
      | inr ((x, a), r) ↦
          absurd
            (remap_allocation-ne-no_runner_ids m n x now a (rw (f, r, allocate_for_runner) at e))
      | inl r ↦ allocate_new-no_runner_ids m n ip now v (rw (f, r, allocate_for_runner) at e)
    ]
  ]
