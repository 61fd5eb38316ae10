-- ===== src/Overlay/Links.antt =====
-- What the manager asks of the kernel's network devices: src/kohakuriver/host/services/overlay/vxlan.py over
-- pyroute2. Both calls may raise; the devices are then as the call left them.
use kohaku_river.Common.{ℕ, String}
use kohaku_river.Common.Result.{Result}

pub data LinkError : Type 0 where
  netlink_error : LinkError

pub record Links : Type 1 where
  -- The devices.
  pub Net : Type 0
  -- `_create_vxlan_sync(runner_id, physical_ip)`: the device's name, or an exception.
  pub create : ℕ → String → Net → Result LinkError String × Net
  -- `_delete_vxlan_sync(device_name)`
  pub delete : String → Net → Result LinkError (Unit {0}) × Net
