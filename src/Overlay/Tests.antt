-- ===== src/Overlay/Tests.antt =====
-- A plan and a manager at work, and the theorems about them there.
use kohaku_river.Common.{
  ℕ, ◌+◌, ◌≡◌, refl, ◌≢◌, Bool, true, false, none, some, List, [], ◌∷◌, arith, String,
  if◌then◌else◌, ◌==◌, nat_key, string_key, pair_key, keep, Dict, get, put, find_item, Unique,
}
use kohaku_river.Common.Result.{ok, err}
use kohaku_river.Overlay.Subnet.{
  OverlaySubnetConfig, Cidr, parse_fields, get_runner_subnet, ipv4_address, validate_runner_id,
  max_runners, is_flat, runner_prefix, get_runner_gateway,
}
use kohaku_river.Overlay.Subnet.Validation.{IsValid, parse_fields-IsValid}
use kohaku_river.Overlay.Subnet.Plan.{HostPlan, get_host_ip_separate}
use kohaku_river.Common.Int.{pos, ◌+ℤ◌}
use kohaku_river.Overlay.Links.{Links}
use kohaku_river.Overlay.Manager.{
  Manager, OverlayAllocation, allocate_new, min_available_id, create_allocation, new_allocation,
  range_from, allocate_for_runner, find_lru_inactive, no_runner_ids, recovered_at, reuse_allocation,
  allocate_evicting, first_oldest, with_allocation,
}
use kohaku_river.Overlay.Manager.Invariant.{IsConsistent}
use kohaku_river.Overlay.Manager.Eviction.{allocate_for_runner-keeps_active}
use kohaku_river.Overlay.Manager.Exhaustion.{IsFull, allocate_for_runner-no_runner_ids}
use kohaku_river.Overlay.Manager.History.{
  Call, registers, goes_inactive, run, step, fresh, run-IsConsistent, fresh-IsConsistent,
  step-IsConsistent, run-subnets_disjoint,
}
use kohaku_river.Overlay.Manager.Promise.{
  IsTakenOver, allocate_for_runner-sticky, allocate_for_runner_takes_over,
}

-- 10.128.0.0/12/6/14
abbrev plan : OverlaySubnetConfig
plan = record { base = 176_160_768; total_prefix = 12; node_bits = 6; subnet_bits = 14 }

plan-IsValid : IsValid plan
plan-IsValid = record {
  sum = refl;
  total_low = omega arith;
  total_high = omega arith;
  node_low = omega arith;
  node_high = omega arith;
  subnet_low = omega arith;
  aligned = refl;
  base_fits = omega arith;
}

plan-parsed : parse_fields 176_160_769 (pos 12) (pos 6) (pos 14) ≡ ok plan
unfolding parse_fields ipv4_address ◌+ℤ◌
plan-parsed = refl

parse_fields-IsValid_example :
    IsValid plan × (pos 12 ≡ pos 12) × (pos 6 ≡ pos 6) × (pos 14 ≡ pos 14)
parse_fields-IsValid_example =
    parse_fields-IsValid 176_160_769 (pos 12) (pos 6) (pos 14) plan plan-parsed

abbrev five : Cidr
five = record { address = 176_242_688; prefix = 18 }

five-computed : get_runner_subnet plan 5 ≡ ok five
unfolding get_runner_subnet validate_runner_id max_runners is_flat ipv4_address runner_prefix
five-computed = refl

get_host_ip_separate_example : HostPlan plan
get_host_ip_separate_example = get_host_ip_separate plan plan-IsValid

-- Devices that always work; the state counts the calls.
abbrev working : Links
working = record {
  Net = ℕ;
  create = λ id ip n. (ok "vxkr1", n + 1);
  delete = λ device n. (ok tt, n + 1);
}

abbrev entry : String → ℕ → ℕ → ℕ → Bool → OverlayAllocation
entry name id subnet_base now on = record {
  runner_name = name;
  runner_id = id;
  physical_ip = if name == "alpha" then "192.168.1.2" else "192.168.1.3";
  subnet = record { address = subnet_base; prefix = 18 };
  gateway = subnet_base + 1;
  vxlan_device = "vxkr1";
  last_used = now;
  is_active = on;
}

abbrev alpha : OverlayAllocation
alpha = entry "alpha" 1 176_177_152 10 true

abbrev beta : OverlayAllocation
beta = entry "beta" 2 176_193_536 20 true

abbrev start : Manager working
start = fresh {links = working} plan 0

abbrev calls : List Call
calls = registers "alpha" "192.168.1.2" 10 ∷ registers "beta" "192.168.1.3" 20 ∷ []

abbrev two : Manager working
two = run {links = working} start calls

two-IsConsistent : IsConsistent {links = working} two
two-IsConsistent =
    run-IsConsistent {links = working} calls start (fresh-IsConsistent {links = working} plan 0)

two-alpha : get "alpha" two.allocations ≡ some alpha
unfolding run step allocate_for_runner get recovered_at find_item allocate_new min_available_id
    create_allocation new_allocation range_from keep max_runners is_flat get_runner_subnet
    get_runner_gateway validate_runner_id runner_prefix ipv4_address put
two-alpha = refl

two-beta : get "beta" two.allocations ≡ some beta
unfolding run step allocate_for_runner get recovered_at find_item allocate_new min_available_id
    create_allocation new_allocation range_from keep max_runners is_flat get_runner_subnet
    get_runner_gateway validate_runner_id runner_prefix ipv4_address put
two-beta = refl

two-gamma : get "gamma" two.allocations ≡ none
unfolding run step allocate_for_runner get recovered_at find_item allocate_new min_available_id
    create_allocation new_allocation range_from keep max_runners is_flat get_runner_subnet
    get_runner_gateway validate_runner_id runner_prefix ipv4_address put
two-gamma = refl

run-subnets_disjoint_example : ◌≡◌ {A = String} "alpha" "alpha"
run-subnets_disjoint_example =
    run-subnets_disjoint working plan 0 calls "alpha" "alpha" alpha alpha 176_177_160 plan-IsValid
      two-alpha two-alpha (omega arith, omega arith) (omega arith, omega arith)

step-IsConsistent_example :
    IsConsistent {links = working} (step {links = working} two (goes_inactive "alpha"))
step-IsConsistent_example =
    step-IsConsistent {links = working} two (goes_inactive "alpha") two-IsConsistent

false-ne-true : false ≢ true
false-ne-true h = cc

gamma-ne-alpha : ◌≢◌ {A = String} "gamma" "alpha"
gamma-ne-alpha h = false-ne-true ((string_key.is_same_iff "gamma" "alpha").1 h)

allocate_for_runner-keeps_active_example :
    get "alpha" (allocate_for_runner working "gamma" "192.168.1.4" 30 two).1.allocations
    ≡ some alpha
allocate_for_runner-keeps_active_example =
    allocate_for_runner-keeps_active {links = working} two "gamma" "alpha" "192.168.1.4" 30 alpha
      two-IsConsistent gamma-ne-alpha two-alpha refl refl

-- The known runner registers again, from the same address.
abbrev again : OverlayAllocation
again = record alpha { last_used = 30 }

two-again : (allocate_for_runner working "alpha" "192.168.1.2" 30 two).0 ≡ ok again
unfolding run step allocate_for_runner get recovered_at find_item allocate_new min_available_id
    create_allocation new_allocation range_from keep max_runners is_flat get_runner_subnet
    get_runner_gateway validate_runner_id runner_prefix ipv4_address put reuse_allocation
    with_allocation
two-again = refl

allocate_for_runner-sticky_example : (◌≡◌ {A = ℕ} 1 1) × (alpha.subnet ≡ alpha.subnet)
allocate_for_runner-sticky_example =
    allocate_for_runner-sticky {links = working} two "alpha" "192.168.1.2" 30 alpha again two-alpha
      two-again

-- 10.0.0.0/23/1/8 has one runner id.
abbrev narrow : OverlaySubnetConfig
narrow = record { base = 167_772_160; total_prefix = 23; node_bits = 1; subnet_bits = 8 }

abbrev full : Manager working
full =
    run {links = working} (fresh {links = working} narrow 0)
      (registers "alpha" "192.168.1.2" 10 ∷ [])

full-refuses : (allocate_for_runner working "beta" "192.168.1.3" 30 full).0 ≡ err no_runner_ids
unfolding run step allocate_for_runner get recovered_at find_item allocate_new min_available_id
    create_allocation new_allocation range_from keep max_runners is_flat get_runner_subnet
    get_runner_gateway validate_runner_id runner_prefix ipv4_address put allocate_evicting
    find_lru_inactive first_oldest
full-refuses = refl

allocate_for_runner-no_runner_ids_example : IsFull {links = working} full
allocate_for_runner-no_runner_ids_example =
    allocate_for_runner-no_runner_ids {links = working} full "beta" "192.168.1.3" 30
      (run-IsConsistent {links = working} (registers "alpha" "192.168.1.2" 10 ∷ [])
        (fresh {links = working} narrow 0) (fresh-IsConsistent {links = working} narrow 0))
      full-refuses

-- A host that is called like a placeholder.
abbrev named_calls : List Call
named_calls = registers "runner_a" "192.168.1.2" 10 ∷ []

abbrev named : Manager working
named = run {links = working} start named_calls

abbrev named_entry : OverlayAllocation
named_entry = record alpha { runner_name = "runner_a" }

named-found : get "runner_a" named.allocations ≡ some named_entry
unfolding run step allocate_for_runner get recovered_at find_item allocate_new min_available_id
    create_allocation new_allocation range_from keep max_runners is_flat get_runner_subnet
    get_runner_gateway validate_runner_id runner_prefix ipv4_address put
named-found = refl

named-other : get "gamma" named.allocations ≡ none
unfolding run step allocate_for_runner get recovered_at find_item allocate_new min_available_id
    create_allocation new_allocation range_from keep max_runners is_flat get_runner_subnet
    get_runner_gateway validate_runner_id runner_prefix ipv4_address put
named-other = refl

allocate_for_runner_takes_over_example :
    IsTakenOver {links = working} "gamma" "192.168.1.2" named
      (allocate_for_runner working "gamma" "192.168.1.2" 30 named)
allocate_for_runner_takes_over_example =
    allocate_for_runner_takes_over {links = working} named "gamma" "192.168.1.2" "runner_a" 30
      named_entry
      (run-IsConsistent {links = working} named_calls start
        (fresh-IsConsistent {links = working} plan 0))
      named-other named-found refl refl

abbrev idle : Dict String OverlayAllocation
idle =
    ("alpha", record alpha { is_active = false })
    ∷ ("beta", record beta { is_active = false; last_used = 5 })
    ∷ []

idle-Unique : Unique idle
unfolding get
idle-Unique = (refl, (refl, tt))

idle-lru : find_lru_inactive idle ≡ some "beta"
unfolding find_lru_inactive first_oldest keep
idle-lru = refl
