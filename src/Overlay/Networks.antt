-- ===== src/Overlay/Networks.antt =====
-- src/kohakuriver/host/services/overlay/manager.py, `MultiOverlayManager`: one manager for each overlay
-- network, in the order of the configuration.
use kohaku_river.Common.{
  ℕ, Option, none, some, [], ◌∷◌, String, nat_key, string_key, pair_key, Dict, get,
}
use kohaku_river.Common.Result.{ok, err}
use kohaku_river.Overlay.Links.{Links}
use kohaku_river.Overlay.Manager.{
  Manager, OverlayAllocation, allocate_for_runner, mark_runner_active,
}

module _ (links : Links) where
  abbrev pub Networks : Type 0
  Networks = Dict String (Manager links)

  -- `allocate_for_runner`: an exception of one network is logged, and leaves its entry out.
  unfoldable pub allocate_on_networks :
      String → String → ℕ → Networks → Dict String OverlayAllocation × Networks
  allocate_on_networks name physical_ip now [] = ([], [])
  allocate_on_networks name physical_ip now ((network, m) ∷ networks) =
      let (result, m') = allocate_for_runner links name physical_ip now m in
      let (allocations, rest) = allocate_on_networks name physical_ip now networks in
      (
        elim result [ err e ↦ allocations | ok a ↦ (network, a) ∷ allocations ],
        (network, m') ∷ rest,
      )

  abbrev pub get_default_manager : Networks → Option (Manager links)
  get_default_manager [] = none
  get_default_manager ((network, m) ∷ networks) = some m

  -- `get_allocation`
  abbrev pub get_allocation : String → Networks → Option OverlayAllocation
  get_allocation name networks = elim (get_default_manager networks) [
    | none ↦ none
    | some m ↦ get name m.allocations
  ]

  -- `mark_runner_active`
  unfoldable pub mark_active_on_networks : String → ℕ → Networks → Networks
  mark_active_on_networks name now [] = []
  mark_active_on_networks name now ((network, m) ∷ networks) =
      (network, mark_runner_active links name now m) ∷ mark_active_on_networks name now networks
