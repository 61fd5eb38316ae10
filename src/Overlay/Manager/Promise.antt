-- ===== src/Overlay/Manager/Promise.antt =====
-- What a runner that registered can rely on.
use kohaku_river.Common.{
  refl, ℕ, String, true, get, ◌≡◌, some, arith, string_key, get-put, inr, inl, Option-cases, del,
  find_item-get, none, get-del, nat_key, ◌≢◌, get-put_same, find_item-found, ◌&&◌, ◌==◌,
}
use kohaku_river.Overlay.Links.{Links}
use kohaku_river.Overlay.Manager.{
  Manager, OverlayAllocation, OverlayError, create_allocation, reuse_allocation,
  allocate_for_runner, new_allocation, link_error, allocate_freed, allocate_new, remap_allocation,
  recovered_at, min_available_id, no_runner_ids, allocate_evicting, release_runner, lru_runner,
  starts_with,
}
use kohaku_river.Overlay.Manager.Invariant.{IsConsistent}
use kohaku_river.Common.Result.{Result, ok, err, Result-cases}
use kohaku_river.Overlay.Subnet.{OverlaySubnetConfig}

err-ne-ok :
    (x : OverlayError) (a : OverlayAllocation)
    → ¬ (◌≡◌ {A = Result OverlayError OverlayAllocation} (err x) (ok a))
err-ne-ok x a h = cc

ok-injective :
    (a b : OverlayAllocation)
    → ◌≡◌ {A = Result OverlayError OverlayAllocation} (ok a) (ok b)
    → a ≡ b
ok-injective a b h = cc

new_allocation-active :
    (c : OverlaySubnetConfig) (n ip : String) (now i : ℕ) (device : String) (a : OverlayAllocation)
    → new_allocation c n ip now i device ≡ ok a
    → (a.is_active ≡ true) × (a.physical_ip ≡ ip)
unfolding new_allocation
new_allocation-active c n ip now i device a h = ground arith

module _ {links : Links} where
  open links use {Net, create, delete}

  -- What a successful registration returned is what the table now holds.
  abbrev pub Stored :
      String
      → String
      → Result OverlayError OverlayAllocation × Manager links
      → OverlayAllocation
      → Type 0
  Stored n ip r a = (get n r.1.allocations ≡ some a) × (a.is_active ≡ true) × (a.physical_ip ≡ ip)

  create_allocation-Stored :
      (m : Manager links) (n ip : String) (now i : ℕ) (a : OverlayAllocation)
      → (create_allocation links n ip now i m).0 ≡ ok a
      → Stored n ip (create_allocation links n ip now i m) a
  unfolding create_allocation
  create_allocation-Stored m n ip now i a e = elim (Result-cases (create i ip m.net).0) [
    | inr (x, d) ↦ absurd (err-ne-ok (link_error x) a (rw (d, create_allocation) at e))
    | inl (device, d) ↦ elim (Result-cases (new_allocation m.subnet_config n ip now i device)) [
      | inr (x, f) ↦ absurd (err-ne-ok x a (rw (d, f, create_allocation) at e))
      | inl (b, f) ↦
          let same : b ≡ a = ok-injective b a (rw (d, f, create_allocation) at e) in
          let (on, at_ip) = new_allocation-active m.subnet_config n ip now i device b f in
          rw (d, f, create_allocation)
            (ground (arith, get-put n n b m.allocations, string_key.is_same_iff n n))
    ]
  ]

  reuse_allocation-Stored :
      (m : Manager links) (n ip : String) (now : ℕ) (old a : OverlayAllocation)
      → (reuse_allocation links n ip now old m).0 ≡ ok a
      → Stored n ip (reuse_allocation links n ip now old m) a
  unfolding reuse_allocation
  reuse_allocation-Stored m n ip now old a e = ground (
    arith,
    get-put n n a m.allocations,
    string_key.is_same_iff n n,
    string_key.is_same_iff old.physical_ip ip,
  )

  allocate_freed-Stored :
      (m : Manager links) (n ip : String) (now : ℕ) (a : OverlayAllocation)
      → (allocate_freed links n ip now m).0 ≡ ok a
      → Stored n ip (allocate_freed links n ip now m) a
  unfolding allocate_freed
  allocate_freed-Stored m n ip now a h = elim (Option-cases (min_available_id links m)) [
    | inl e ↦ absurd (err-ne-ok no_runner_ids a (rw (e, allocate_freed) at h))
    | inr (i, e) ↦
        rw (e, allocate_freed)
          (create_allocation-Stored m n ip now i a (rw (e, allocate_freed) at h))
  ]

  allocate_new-Stored :
      (m : Manager links) (n ip : String) (now : ℕ) (a : OverlayAllocation)
      → (allocate_new links n ip now m).0 ≡ ok a
      → Stored n ip (allocate_new links n ip now m) a
  unfolding allocate_new
  allocate_new-Stored m n ip now a h = elim (Option-cases (min_available_id links m)) [
    | inr (i, e) ↦
        rw (e, allocate_new) (create_allocation-Stored m n ip now i a (rw (e, allocate_new) at h))
    | inl e ↦ elim (Option-cases (lru_runner m.allocations)) [
      | inl f ↦ absurd (err-ne-ok no_runner_ids a (rw (e, f, allocate_new, allocate_evicting) at h))
      | inr (lru, f) ↦ elim (Result-cases (release_runner links lru m).0) [
        | inr (x, d) ↦
            absurd (err-ne-ok (link_error x) a (rw (e, f, d, allocate_new, allocate_evicting) at h))
        | inl (_, d) ↦
            rw (e, f, d, allocate_new, allocate_evicting)
              (allocate_freed-Stored (release_runner links lru m).1 n ip now a
                (rw (e, f, d, allocate_new, allocate_evicting) at h))
      ]
    ]
  ]

  remap_allocation-Stored :
      (m : Manager links) (n ip x : String) (now : ℕ) (old a : OverlayAllocation)
      → old.physical_ip ≡ ip
      → (remap_allocation links n now x old m).0 ≡ ok a
      → Stored n ip (remap_allocation links n now x old m) a
  unfolding remap_allocation
  remap_allocation-Stored m n ip x now old a same h =
      ground (arith, get-put n n a (del x m.allocations), string_key.is_same_iff n n)

  recovered_at-shape :
      (m : Manager links) (ip x : String) (a : OverlayAllocation)
      → IsConsistent m
      → recovered_at ip m.allocations ≡ some (x, a)
      → (get x m.allocations ≡ some a) × (starts_with x "runner_" ≡ true) × (a.physical_ip ≡ ip)
  unfolding recovered_at
  recovered_at-shape m ip x a v r =
      let (there, passes) = find_item-get _ m.allocations x a v.unique r in
      (there, ground arith, ground (arith, string_key.is_same_iff a.physical_ip ip))

  -- A registration that succeeds returns what the table then holds for the runner: an active
  -- entry at the address from which it registered. So in each of the three cases, a known runner,
  -- a recovered entry and a new one.
  pub allocate_for_runner-Stored :
      (m : Manager links) (n ip : String) (now : ℕ) (a : OverlayAllocation)
      → IsConsistent m
      → (allocate_for_runner links n ip now m).0 ≡ ok a
      → Stored n ip (allocate_for_runner links n ip now m) a
  unfolding allocate_for_runner
  allocate_for_runner-Stored m n ip now a v h = elim (Option-cases (get n m.allocations)) [
    | inr (old, e) ↦
        rw (e, allocate_for_runner)
          (reuse_allocation-Stored m n ip now old a (rw (e, allocate_for_runner) at h))
    | inl e ↦ elim (Option-cases (recovered_at ip m.allocations)) [
      | inr ((x, old), r) ↦
          rw (e, r, allocate_for_runner)
            (remap_allocation-Stored m n ip x now old a (recovered_at-shape m ip x old v r).2
              (rw (e, r, allocate_for_runner) at h))
      | inl r ↦
          rw (e, r, allocate_for_runner)
            (allocate_new-Stored m n ip now a (rw (e, r, allocate_for_runner) at h))
    ]
  ]

  -- A runner that is known keeps its id, and so its subnet, wherever it registers from.
  pub allocate_for_runner-sticky :
      (m : Manager links) (n ip : String) (now : ℕ) (old a : OverlayAllocation)
      → get n m.allocations ≡ some old
      → (allocate_for_runner links n ip now m).0 ≡ ok a
      → (a.runner_id ≡ old.runner_id) × (a.subnet ≡ old.subnet)
  unfolding allocate_for_runner
  allocate_for_runner-sticky m n ip now old a h e = ground arith

  -- An entry that looks like a placeholder at the address is found, or one before it.
  recovered_at-found :
      (m : Manager links) (ip x : String) (old : OverlayAllocation)
      → get x m.allocations ≡ some old
      → starts_with x "runner_" ≡ true
      → old.physical_ip ≡ ip
      → recovered_at ip m.allocations ≢ none
  unfolding recovered_at
  recovered_at-found m ip x old there named at =
      find_item-found (λ name a. starts_with name "runner_" && a.physical_ip == ip) m.allocations x
        old there (ground (arith, string_key.is_same_iff old.physical_ip ip))

  -- The entry that a new runner takes over.
  abbrev pub IsTakenOver :
      String
      → String
      → Manager links
      → Result OverlayError OverlayAllocation × Manager links
      → Type 0
  IsTakenOver n ip m r =
      (x : String) × (old a : OverlayAllocation) × (get x m.allocations ≡ some old)
      × (starts_with x "runner_" ≡ true)
      × (old.physical_ip ≡ ip)
      × (r.0 ≡ ok a)
      × (a.runner_id ≡ old.runner_id)
      × (a.subnet ≡ old.subnet)
      × (get x r.1.allocations ≡ none)
      × (get old.runner_id r.1.id_to_runner ≡ some n)

  -- If consistent tables have an entry at an address whose name begins with `runner_`, active or not, an
  -- unknown runner that registers from the address takes over such an entry: it gets the entry's
  -- id and subnet, and the entry is gone.
  pub allocate_for_runner_takes_over :
      (m : Manager links) (n ip x : String) (now : ℕ) (old : OverlayAllocation)
      → IsConsistent m
      → get n m.allocations ≡ none
      → get x m.allocations ≡ some old
      → starts_with x "runner_" ≡ true
      → old.physical_ip ≡ ip
      → IsTakenOver n ip m (allocate_for_runner links n ip now m)
  unfolding allocate_for_runner remap_allocation
  allocate_for_runner_takes_over m n ip x now old v free there named at =
      elim (Option-cases (recovered_at ip m.allocations)) [
        | inl missing ↦ absurd (recovered_at-found m ip x old there named at missing)
        | inr ((y, b), r) ↦
            let (at_y, named_y, ip_y) = recovered_at-shape m ip y b v r in
            let c : OverlayAllocation = record b {
              runner_name = n;
              last_used = now;
              is_active = true;
            } in
            rw (free, r, allocate_for_runner)
              (
                y,
                b,
                c,
                at_y,
                named_y,
                ip_y,
                refl,
                refl,
                refl,
                ground (
                  arith,
                  get-put n y c (del y m.allocations),
                  get-del y y m.allocations,
                  string_key.is_same_iff n y,
                  string_key.is_same_iff y y,
                ),
                get-put_same b.runner_id n m.id_to_runner,
              )
      ]
