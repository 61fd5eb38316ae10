-- ===== src/Overlay/Manager/Invariant.antt =====
-- The two tables of the manager agree after every method, errors included.
use kohaku_river.Common.{
  ℕ, String, Unique, get, ◌≡◌, some, put-Unique, ◌≤◌, arith, get-put, string_key, nat_key,
  if◌then◌else◌, del, none, ◌==◌, del-Unique, put, get-del, ℕ_discrete, ◌≢◌,
}
use kohaku_river.Overlay.Links.{Links}
use kohaku_river.Overlay.Manager.{
  Manager, OverlayAllocation, with_allocation, max_runners, get_runner_subnet, ok,
}
use kohaku_river.Overlay.Subnet.{max_runners, get_runner_subnet}
use kohaku_river.Common.Result.{ok}

module _ {links : Links} where
  -- Every entry owns its id, ids are in range, and every id in use belongs to an entry.
  pub record IsConsistent (m : Manager links) : Type 0 where
    pub unique : Unique m.allocations
    pub unique_ids : Unique m.id_to_runner
    pub named :
        (n : String) (a : OverlayAllocation) → get n m.allocations ≡ some a → a.runner_name ≡ n
    pub owned :
        (n : String) (a : OverlayAllocation)
        → get n m.allocations ≡ some a
        → get a.runner_id m.id_to_runner ≡ some n
    pub in_range :
        (n : String) (a : OverlayAllocation)
        → get n m.allocations ≡ some a
        → (1 ≤ a.runner_id) × (a.runner_id ≤ max_runners m.subnet_config)
    pub addressed :
        (n : String) (a : OverlayAllocation)
        → get n m.allocations ≡ some a
        → get_runner_subnet m.subnet_config a.runner_id ≡ ok a.subnet
    pub held :
        (i : ℕ) (n : String)
        → get i m.id_to_runner ≡ some n
        → (a : OverlayAllocation) × (get n m.allocations ≡ some a) × (a.runner_id ≡ i)

  -- An entry is replaced by one with the same name, id and subnet.
  pub with_allocation-IsConsistent :
      (m : Manager links) (n : String) (a b : OverlayAllocation)
      → IsConsistent m
      → get n m.allocations ≡ some a
      → b.runner_name ≡ a.runner_name
      → b.runner_id ≡ a.runner_id
      → b.subnet ≡ a.subnet
      → IsConsistent (with_allocation links n b m)
  unfolding with_allocation
  with_allocation-IsConsistent m n a b v e same_name same_id same_subnet = record {
    unique = put-Unique n b m.allocations v.unique;
    unique_ids = v.unique_ids;
    named = λ k c h. ground (
      arith,
      get-put n k b m.allocations,
      v.named n a e,
      v.named k c,
      string_key.is_same_iff n k,
    );
    owned = λ k c h. ground (
      arith,
      get-put n k b m.allocations,
      v.owned n a e,
      v.owned k c,
      string_key.is_same_iff n k,
    );
    in_range = λ k c h. ground (
      arith,
      get-put n k b m.allocations,
      v.in_range n a e,
      v.in_range k c,
      string_key.is_same_iff n k,
    );
    addressed = λ k c h. ground (
      arith,
      get-put n k b m.allocations,
      v.addressed n a e,
      v.addressed k c,
      string_key.is_same_iff n k,
    );
    held = λ i k h.
        let (c, at_k, has_i) = v.held i k h in
        (
          if n == k then b else c,
          ground (arith, get-put n k b m.allocations),
          ground (arith, string_key.is_same_iff n k),
        );
  }

  -- Two entries with one id are one entry.
  pub same_owner :
      (m : Manager links) (n k : String) (a c : OverlayAllocation)
      → IsConsistent m
      → get n m.allocations ≡ some a
      → get k m.allocations ≡ some c
      → a.runner_id ≡ c.runner_id
      → n ≡ k
  same_owner m n k a c v ha hc e = ground (arith, v.owned n a ha, v.owned k c hc)

  -- An entry goes, and its id with it.
  pub del-IsConsistent :
      (m : Manager links) (net : links.Net) (n : String) (a : OverlayAllocation)
      → IsConsistent m
      → get n m.allocations ≡ some a
      → IsConsistent (record m {
        allocations = del n m.allocations;
        id_to_runner = del a.runner_id m.id_to_runner;
        net = net;
      })
  del-IsConsistent m net n a v e = record {
    unique = del-Unique n m.allocations v.unique;
    unique_ids = del-Unique a.runner_id m.id_to_runner v.unique_ids;
    named = λ k c h. ground (arith, get-del n k m.allocations, v.named k c);
    owned = λ k c h. ground (
      arith,
      get-del n k m.allocations,
      get-del a.runner_id c.runner_id m.id_to_runner,
      v.owned k c,
      v.owned n a e,
      string_key.is_same_iff n k,
    );
    in_range = λ k c h. ground (arith, get-del n k m.allocations, v.in_range k c);
    addressed = λ k c h. ground (arith, get-del n k m.allocations, v.addressed k c);
    held = λ i k h.
        let kept : (a.runner_id ≢ i) × (get i m.id_to_runner ≡ some k) =
          ground (arith, get-del a.runner_id i m.id_to_runner) in
        let (c, at_k, has_i) = v.held i k kept.1 in
        (c, ground (arith, get-del n k m.allocations, string_key.is_same_iff n k, kept), has_i);
  }

  -- A new entry under a free name and a free id.
  pub put-IsConsistent :
      (m : Manager links) (net : links.Net) (n : String) (i : ℕ) (a : OverlayAllocation)
      → IsConsistent m
      → get n m.allocations ≡ none
      → get i m.id_to_runner ≡ none
      → a.runner_name ≡ n
      → a.runner_id ≡ i
      → (1 ≤ i) × (i ≤ max_runners m.subnet_config)
      → get_runner_subnet m.subnet_config i ≡ ok a.subnet
      → IsConsistent (record m {
        allocations = put n a m.allocations;
        id_to_runner = put i n m.id_to_runner;
        net = net;
      })
  put-IsConsistent m net n i a v free_name free_id same same_id bounds subnet = record {
    unique = put-Unique n a m.allocations v.unique;
    unique_ids = put-Unique i n m.id_to_runner v.unique_ids;
    named = λ k c h.
        ground (arith, get-put n k a m.allocations, v.named k c, string_key.is_same_iff n k);
    owned = λ k c h. ground (
      arith,
      get-put n k a m.allocations,
      get-put i c.runner_id n m.id_to_runner,
      v.owned k c,
      string_key.is_same_iff n k,
    );
    in_range = λ k c h. ground (arith, get-put n k a m.allocations, v.in_range k c);
    addressed = λ k c h. ground (arith, get-put n k a m.allocations, v.addressed k c);
    held = λ j k h. elim (ℕ_discrete i j) [
      | yes here ↦ (
        a,
        ground (
          arith,
          get-put i j n m.id_to_runner,
          get-put n k a m.allocations,
          string_key.is_same_iff n k,
        ),
        omega arith,
      )
      | no other ↦
          let (c, at_k, has_i) = v.held j k (ground (arith, get-put i j n m.id_to_runner)) in
          (c, ground (arith, get-put n k a m.allocations, string_key.is_same_iff n k), has_i)
    ];
  }

  -- Only the devices change.
  pub net-IsConsistent :
      (m : Manager links) (net : links.Net) → IsConsistent m → IsConsistent (record m { net = net })
  net-IsConsistent m net v = record {
    unique = v.unique;
    unique_ids = v.unique_ids;
    named = v.named;
    owned = v.owned;
    in_range = v.in_range;
    addressed = v.addressed;
    held = v.held;
  }
