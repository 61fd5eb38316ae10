-- ===== src/Overlay/Recovery.antt =====
-- src/kohakuriver/host/services/overlay/recovery.py: the tables of a network are rebuilt from the kernel's
-- devices when the host starts. What pyroute2 reads of a device is data here; deleting a device and the
-- trusted zone are parameters, of which neither lets an exception through.
pub mod Loop
pub mod Devices
pub mod Restart
mod Tests
use kohaku_river.Common.{
  ℕ, zero, suc, ◌+◌, Bool, true, false, not, ◌&&◌, Option, none, some, List, [], ◌∷◌, String,
  if◌then◌else◌, ◌==◌, nat_key, string_key, Dict, get, put,
}
use kohaku_river.Common.Result.{Result, ok, err}
use kohaku_river.Overlay.Links.{Links}
use kohaku_river.Overlay.Subnet.{
  OverlaySubnetConfig, ValueError, max_runners, get_runner_subnet, get_runner_gateway,
}
use kohaku_river.Overlay.Manager.{Manager, OverlayAllocation}
use kohaku_river.Overlay.Names.{parse_vxlan_device_name, runner_name_placeholder}
use text.Mathlib.Text.{starts_with}

-- `IFLA_INFO_DATA`
pub record VxlanData : Type 0 where
  pub vxlan_id : Option ℕ
  pub group : Option String
  pub remote : Option String

-- `IFLA_LINKINFO`
pub record LinkInfo : Type 0 where
  pub kind : Option String
  pub info_data : Option VxlanData

pub record Link : Type 0 where
  pub index : ℕ
  pub ifname : Option String
  pub linkinfo : Option LinkInfo

-- A device that the loop keeps: its name, runner id and remote address.
pub record Found : Type 0 where
  pub device_name : String
  pub runner_id : ℕ
  pub remote_ip : Option String

-- What the first loop does with a device: skip it, delete it or keep it.
pub data Verdict : Type 0 where
  skipped : Verdict
  invalid : ℕ → Verdict
  valid : Found → Verdict

-- `a or b`, for texts
abbrev pub or_else : Option String → Option String → Option String
or_else none other = other
or_else (some text) other = if text == "" then other else some text

-- The data of a VXLAN device.
abbrev pub vxlan_data : Option LinkInfo → Option VxlanData
vxlan_data none = none
vxlan_data (some info) = elim info.kind [
  | none ↦ none
  | some kind ↦ if kind == "vxlan" then info.info_data else none
]

abbrev pub has_id : Option ℕ → ℕ → Bool
has_id none id = false
has_id (some vni) id = vni == id

-- A device with the network's prefix must have a name that can be read and the id of its runner.
abbrev pub judge_device : (String → Option ℕ) → ℕ → String → ℕ → VxlanData → Verdict
judge_device parse_device_name base_vxlan_id name index info_data = elim (parse_device_name name) [
  | none ↦ invalid index
  | some runner_id ↦
      if has_id info_data.vxlan_id (base_vxlan_id + runner_id)
      then valid (record {
        device_name = name;
        runner_id = runner_id;
        remote_ip = or_else info_data.group info_data.remote;
      })
      else invalid index
]

-- The body of the loop over the devices.
unfoldable pub judge_link : (String → Option ℕ) → String → ℕ → Link → Verdict
judge_link parse_device_name vxlan_prefix base_vxlan_id link = elim link.ifname [
  | none ↦ skipped
  | some name ↦
      if not (name == "") && starts_with name vxlan_prefix
      then elim (vxlan_data link.linkinfo) [
        | none ↦ skipped
        | some info_data ↦ judge_device parse_device_name base_vxlan_id name link.index info_data
      ]
      else skipped
]

abbrev pub sort_out : Verdict → List ℕ × List Found → List ℕ × List Found
sort_out skipped lists = lists
sort_out (invalid index) (to_delete, to_recover) = (index ∷ to_delete, to_recover)
sort_out (valid found) (to_delete, to_recover) = (to_delete, found ∷ to_recover)

-- `interfaces_to_delete` and `interfaces_to_recover`
unfoldable pub collect_interfaces :
    (String → Option ℕ) → String → ℕ → List Link → List ℕ × List Found
unfolding judge_link
collect_interfaces parse_device_name vxlan_prefix base_vxlan_id [] = ([], [])
collect_interfaces parse_device_name vxlan_prefix base_vxlan_id (link ∷ links) =
    sort_out (judge_link parse_device_name vxlan_prefix base_vxlan_id link)
      (collect_interfaces parse_device_name vxlan_prefix base_vxlan_id links)

-- `remote_ip or "unknown"`
abbrev pub address_of : Option String → String
address_of none = "unknown"
address_of (some ip) = if ip == "" then "unknown" else ip

-- The entry of a device, inactive until its runner registers again.
unfoldable pub recovered_allocation :
    OverlaySubnetConfig → ℕ → Found → Result ValueError OverlayAllocation
recovered_allocation c now found = elim (get_runner_subnet c found.runner_id) [
  | err e ↦ err e
  | ok subnet ↦ elim (get_runner_gateway c found.runner_id) [
    | err e ↦ err e
    | ok gateway ↦ ok (record {
      runner_name = runner_name_placeholder found.runner_id;
      runner_id = found.runner_id;
      physical_ip = address_of found.remote_ip;
      subnet = subnet;
      gateway = gateway;
      vxlan_device = found.device_name;
      last_used = now;
      is_active = false;
    })
  ]
]

module _ (links : Links) (add_interface_to_trusted_zone : String → links.Net → links.Net) where
  abbrev pub with_recovered : Found → OverlayAllocation → Manager links → Manager links
  with_recovered found a m = record m {
    allocations = put (runner_name_placeholder found.runner_id) a m.allocations;
    id_to_runner = put found.runner_id (runner_name_placeholder found.runner_id) m.id_to_runner;
    net = add_interface_to_trusted_zone found.device_name m.net;
  }

  -- The loop over the devices that are kept: the second of a runner id is left out.
  unfoldable pub recover_interfaces :
      ℕ → List Found → Manager links → Result ValueError (Unit {0}) × Manager links
  unfolding recovered_allocation
  recover_interfaces now [] m = (ok tt, m)
  recover_interfaces now (found ∷ rest) m = elim (get found.runner_id m.id_to_runner) [
    | some _ ↦ recover_interfaces now rest m
    | none ↦ elim (recovered_allocation m.subnet_config now found) [
      | err e ↦ (err e, m)
      | ok a ↦ recover_interfaces now rest (with_recovered found a m)
    ]
  ]

  module _ (delete_index : ℕ → links.Net → links.Net) where
    abbrev pub delete_interfaces : List ℕ → links.Net → links.Net
    delete_interfaces [] net = net
    delete_interfaces (index ∷ indices) net = delete_interfaces indices (delete_index index net)

    unfoldable pub recover_state_from_interfaces :
        String → ℕ → ℕ → List Link → Manager links → Result ValueError (Unit {0}) × Manager links
    unfolding collect_interfaces recover_interfaces parse_vxlan_device_name
    recover_state_from_interfaces vxlan_prefix base_vxlan_id now devices m =
        let (to_delete, to_recover) =
          collect_interfaces (parse_vxlan_device_name vxlan_prefix (max_runners m.subnet_config))
            vxlan_prefix base_vxlan_id devices in
        recover_interfaces now to_recover (record m { net = delete_interfaces to_delete m.net })
