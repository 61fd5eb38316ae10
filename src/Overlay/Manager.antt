-- ===== src/Overlay/Manager.antt =====
-- src/kohakuriver/host/services/overlay/manager.py, `OverlayNetworkManager`: which runner holds which
-- runner id. `datetime.now()` is an argument; each method runs under the lock, so it is one step.
pub mod Invariant
pub mod Allocation
pub mod Oldest
pub mod Eviction
pub mod Exhaustion
pub mod History
pub mod Promise
use kohaku_river.Common.{zero, suc, nat_key, string_key}
use text.Mathlib.Text.{starts_with}
use kohaku_river.Common.{Dict, get, put, del, find_item, keep, not, map, ◌&&◌}
use kohaku_river.Overlay.Links.{Links, LinkError}
use kohaku_river.Overlay.Subnet.{
  OverlaySubnetConfig, Cidr, ValueError, max_runners, get_runner_subnet, get_runner_gateway,
}
use kohaku_river.Common.{
  String, ℕ, Dict, keep, List, find_item, Bool, [], Option, put, get, none, true, ◌∷◌, some, false,
  del, ◌+◌, if◌then◌else◌, ltb, ◌==◌,
}
use kohaku_river.Common.Result.{Result, ok, err}

-- src/kohakuriver/host/services/overlay/models.py
pub record OverlayAllocation : Type 0 where
  pub runner_name : String
  pub runner_id : ℕ
  pub physical_ip : String
  pub subnet : Cidr
  pub gateway : ℕ
  pub vxlan_device : String
  pub last_used : ℕ
  pub is_active : Bool

pub data OverlayError : Type 0 where
  link_error : LinkError → OverlayError
  value_error : ValueError → OverlayError
  no_runner_ids : OverlayError

-- `range(from, from + n)`
unfoldable pub range_from : ℕ → ℕ → List ℕ
range_from from zero = []
range_from from (suc n) = from ∷ range_from (from + 1) n

-- `xs.sort(key=last_used)` followed by `xs[0]`: the sort is stable, so the first of the oldest.
abbrev pub older :
    String × OverlayAllocation
    → Option (String × OverlayAllocation)
    → Option (String × OverlayAllocation)
older item none = some item
older item (some other) = some (if ltb other.1.last_used item.1.last_used then other else item)

unfoldable pub first_oldest : Dict String OverlayAllocation → Option (String × OverlayAllocation)
first_oldest [] = none
first_oldest (item ∷ rest) = older item (first_oldest rest)

-- `_find_lru_inactive`
unfoldable pub find_lru_inactive : Dict String OverlayAllocation → Option String
unfolding first_oldest keep
find_lru_inactive allocations =
    elim (first_oldest (keep (λ item. not item.1.is_active) allocations)) [
      | none ↦ none
      | some item ↦ some item.0
    ]

-- The name that `if lru_runner:` lets through: an empty name counts as none.
unfoldable pub lru_runner : Dict String OverlayAllocation → Option String
unfolding find_lru_inactive
lru_runner allocations = elim (find_lru_inactive allocations) [
  | none ↦ none
  | some name ↦ if name == "" then none else some name
]

abbrev pub head? {ℓ} : {A : Type ℓ} → List A → Option A
head? [] = none
head? (x ∷ xs) = some x

-- The new entry's addresses, computed once the tunnel stands.
unfoldable pub new_allocation :
    OverlaySubnetConfig → String → String → ℕ → ℕ → String → Result OverlayError OverlayAllocation
new_allocation c name physical_ip now id device = elim (get_runner_subnet c id) [
  | err e ↦ err (value_error e)
  | ok subnet ↦ elim (get_runner_gateway c id) [
    | err e ↦ err (value_error e)
    | ok gateway ↦ ok (record {
      runner_name = name;
      runner_id = id;
      physical_ip = physical_ip;
      subnet = subnet;
      gateway = gateway;
      vxlan_device = device;
      last_used = now;
      is_active = true;
    })
  ]
]

-- A placeholder of the recovery that has this address.
unfoldable pub recovered_at :
    String → Dict String OverlayAllocation → Option (String × OverlayAllocation)
unfolding find_item
recovered_at physical_ip =
    find_item (λ name a. starts_with name "runner_" && a.physical_ip == physical_ip)

module _ (links : Links) where
  open links use {Net, create, delete}

  pub record Manager : Type 0 where
    pub subnet_config : OverlaySubnetConfig
    pub allocations : Dict String OverlayAllocation
    pub id_to_runner : Dict ℕ String
    pub net : Net

  -- `min(set(range(1, max_id + 1)) - set(self._id_to_runner))`, if there is one.
  unfoldable pub min_available_id : Manager → Option ℕ
  unfolding range_from keep
  min_available_id m = head? (
      keep (λ i. elim (get i m.id_to_runner) [ none ↦ true | some _ ↦ false ])
        (range_from 1 (max_runners m.subnet_config)))

  unfoldable pub with_allocation : String → OverlayAllocation → Manager → Manager
  with_allocation name a m = record m { allocations = put name a m.allocations }

  -- `_release_runner_internal`: a failing deletion of the device leaves the tables alone.
  unfoldable pub release_runner : String → Manager → Result LinkError Bool × Manager
  release_runner name m = elim (get name m.allocations) [
    | none ↦ (ok false, m)
    | some a ↦
        let (result, net) = delete a.vxlan_device m.net in
        elim result [
          | err e ↦ (err e, record m { net = net })
          | ok _ ↦ (
            ok true,
            record m {
              allocations = del name m.allocations;
              id_to_runner = del a.runner_id m.id_to_runner;
              net = net;
            },
          )
        ]
  ]

  -- The runner is known: touch its entry, and point the tunnel to a new address if it moved. The
  -- entry is marked before the call that may raise.
  unfoldable pub reuse_allocation :
      String
      → String
      → ℕ
      → OverlayAllocation
      → Manager
      → Result OverlayError OverlayAllocation × Manager
  unfolding with_allocation
  reuse_allocation name physical_ip now old m =
      let a : OverlayAllocation = record old { last_used = now; is_active = true } in
      let touched = with_allocation name a m in
      if a.physical_ip == physical_ip
      then (ok a, touched)
      else let (result, net) = create a.runner_id physical_ip m.net in
        elim result [
          | err e ↦ (err (link_error e), record touched { net = net })
          | ok _ ↦
              let moved : OverlayAllocation = record a { physical_ip = physical_ip } in
              (ok moved, record (with_allocation name moved m) { net = net })
        ]

  -- A recovered entry is claimed by the runner at its address.
  unfoldable pub remap_allocation :
      String
      → ℕ
      → String
      → OverlayAllocation
      → Manager
      → Result OverlayError OverlayAllocation × Manager
  remap_allocation name now existing old m =
      let a : OverlayAllocation = record old {
        runner_name = name;
        last_used = now;
        is_active = true;
      } in
      (
        ok a,
        record m {
          allocations = put name a (del existing m.allocations);
          id_to_runner = put a.runner_id name m.id_to_runner;
        },
      )

  unfoldable pub create_allocation :
      String → String → ℕ → ℕ → Manager → Result OverlayError OverlayAllocation × Manager
  unfolding new_allocation
  create_allocation name physical_ip now id m =
      let (result, net) = create id physical_ip m.net in
      elim result [
        | err e ↦ (err (link_error e), record m { net = net })
        | ok device ↦ elim (new_allocation m.subnet_config name physical_ip now id device) [
          | err e ↦ (err e, record m { net = net })
          | ok a ↦ (
            ok a,
            record m {
              allocations = put name a m.allocations;
              id_to_runner = put id name m.id_to_runner;
              net = net;
            },
          )
        ]
      ]

  unfoldable pub allocate_freed :
      String → String → ℕ → Manager → Result OverlayError OverlayAllocation × Manager
  unfolding create_allocation min_available_id
  allocate_freed name physical_ip now m = elim (min_available_id m) [
    | none ↦ (err no_runner_ids, m)
    | some id ↦ create_allocation name physical_ip now id m
  ]

  -- The pool is used up: the least recently used inactive entry gives way.
  unfoldable pub allocate_evicting :
      String → String → ℕ → Manager → Result OverlayError OverlayAllocation × Manager
  unfolding release_runner allocate_freed lru_runner
  allocate_evicting name physical_ip now m = elim (lru_runner m.allocations) [
    | none ↦ (err no_runner_ids, m)
    | some lru ↦
        let (result, released) = release_runner lru m in
        elim result [
          | err e ↦ (err (link_error e), released)
          | ok _ ↦ allocate_freed name physical_ip now released
        ]
  ]

  unfoldable pub allocate_new :
      String → String → ℕ → Manager → Result OverlayError OverlayAllocation × Manager
  unfolding min_available_id create_allocation allocate_evicting
  allocate_new name physical_ip now m = elim (min_available_id m) [
    | none ↦ allocate_evicting name physical_ip now m
    | some id ↦ create_allocation name physical_ip now id m
  ]

  unfoldable pub allocate_for_runner :
      String → String → ℕ → Manager → Result OverlayError OverlayAllocation × Manager
  unfolding reuse_allocation recovered_at remap_allocation allocate_new
  allocate_for_runner name physical_ip now m = elim (get name m.allocations) [
    | some a ↦ reuse_allocation name physical_ip now a m
    | none ↦ elim (recovered_at physical_ip m.allocations) [
      | some (existing, a) ↦ remap_allocation name now existing a m
      | none ↦ allocate_new name physical_ip now m
    ]
  ]

  unfoldable pub mark_runner_inactive : String → Manager → Manager
  unfolding with_allocation
  mark_runner_inactive name m = elim (get name m.allocations) [
    | none ↦ m
    | some a ↦ with_allocation name (record a { is_active = false }) m
  ]

  unfoldable pub mark_runner_active : String → ℕ → Manager → Manager
  unfolding with_allocation
  mark_runner_active name now m = elim (get name m.allocations) [
    | none ↦ m
    | some a ↦ with_allocation name (record a { is_active = true; last_used = now }) m
  ]

  -- The loop of `cleanup_inactive`; an exception ends it.
  unfoldable pub release_all : List String → ℕ → Manager → Result LinkError ℕ × Manager
  unfolding release_runner
  release_all [] cleaned m = (ok cleaned, m)
  release_all (name ∷ names) cleaned m =
      let (result, m') = release_runner name m in
      let again = λ (n : ℕ). release_all names n m' in
      elim result [ err e ↦ (err e, m') | ok done ↦ again (if done then cleaned + 1 else cleaned) ]

  unfoldable pub cleanup_inactive : Manager → Result LinkError ℕ × Manager
  unfolding release_all keep
  cleanup_inactive m =
      release_all (map (λ item. item.0) (keep (λ item. not item.1.is_active) m.allocations)) 0 m
