-- ===== src/Overlay/Recovery/Restart.antt =====
-- src/kohakuriver/host/services/overlay/recovery.py: the host is restarted, and the kernel's devices stand for
-- the tables that it had.
use kohaku_river.Common.{
  ℕ, ◌≡◌, ◌≢◌, inl, inr, sym, ap, ◌∙◌, none, some, List, String, arith, nat_key, string_key, In,
  get, Option-cases, none-ne-some,
}
use kohaku_river.Common.Result.{Result, ok}
use kohaku_river.Overlay.Links.{Links}
use kohaku_river.Overlay.Subnet.{
  ValueError, OverlaySubnetConfig, Cidr, max_runners, get_runner_subnet,
}
use kohaku_river.Overlay.Subnet.Validation.{IsValid}
use kohaku_river.Overlay.Manager.{Manager, OverlayAllocation}
use kohaku_river.Overlay.Manager.Invariant.{IsConsistent}
use kohaku_river.Overlay.Manager.History.{fresh, fresh-IsConsistent}
use kohaku_river.Overlay.Names.{parse_vxlan_device_name}
use kohaku_river.Overlay.Recovery.{
  Link, Found, valid, address_of, collect_interfaces, delete_interfaces,
  recover_state_from_interfaces,
}
use kohaku_river.Overlay.Recovery.Devices.{
  judge, device_of, device_of-valid, judge-range, collected-judged, judged-collected,
}
use kohaku_river.Overlay.Recovery.Loop.{
  at_id, IsRecovered, IsEnd, InRange, recover_interfaces-IsEnd,
}

module _ {links : Links} (vxlan_prefix : String) (base_vxlan_id : ℕ) where
  -- The kernel has the device of every entry, and no device with the network's prefix and a good name
  -- but for an entry at its address.
  pub record IsMirrored (devices : List Link) (m : Manager links) : Type 0 where
    pub present :
        (n : String) (a : OverlayAllocation)
        → get n m.allocations ≡ some a
        → (index : ℕ) × In (device_of vxlan_prefix base_vxlan_id index a) devices
    pub known :
        (link : Link) (found : Found)
        → In link devices
        → judge vxlan_prefix base_vxlan_id (max_runners m.subnet_config) link ≡ valid found
        → (s : Cidr) × (at_id found.runner_id m ≡ some (address_of found.remote_ip, s))

-- The recovery has ended, with the manager's runner ids.
abbrev pub IsRestarted :
    {links : Links} → Manager links → Result ValueError (Unit {0}) × Manager links → Type 0
IsRestarted m end = (end.0 ≡ ok tt) × IsRecovered end.1 × ((i : ℕ) → at_id i end.1 ≡ at_id i m)

abbrev found_in : String → ℕ → List Link → ℕ → List Found
found_in vxlan_prefix base_vxlan_id devices most =
    (collect_interfaces (parse_vxlan_device_name vxlan_prefix most) vxlan_prefix base_vxlan_id
      devices).1

at_id-entry :
    {links : Links} (m : Manager links) (i : ℕ) (x : String × Cidr)
    → IsConsistent m
    → at_id i m ≡ some x
    → (n : String) × (a : OverlayAllocation) × (get n m.allocations ≡ some a)
      × (a.runner_id ≡ i)
      × (x ≡ (a.physical_ip, a.subnet))
at_id-entry m i x v h = elim (Option-cases (get i m.id_to_runner)) [
  | inl e ↦ absurd (ground arith)
  | inr (n, e) ↦ let (a, at_n, has_i) = v.held i n e in (n, a, at_n, has_i, ground (arith, at_n))
]

at_id-subnet :
    {links : Links} (m : Manager links) (i : ℕ) (x : String × Cidr)
    → IsConsistent m
    → at_id i m ≡ some x
    → get_runner_subnet m.subnet_config i ≡ ok x.1
at_id-subnet m i x v h =
    let (n, a, at_n, has_i, e) = at_id-entry m i x v h in ground (arith, v.addressed n a at_n)

fresh-IsRecovered :
    {links : Links} (c : OverlaySubnetConfig) (net : links.Net)
    → IsRecovered {links = links} (fresh {links = links} c net)
unfolding get
fresh-IsRecovered {links} c net = record {
  consistent = fresh-IsConsistent {links = links} c net;
  waits = λ n a h. cc;
}

module _ {links : Links} (vxlan_prefix : String) (base_vxlan_id : ℕ) (devices : List Link)
    (m m' : Manager links) (v : IsConsistent m)
    (mirror : IsMirrored vxlan_prefix base_vxlan_id devices m) (net : links.Net)
    (end : IsEnd {links = links}
      (found_in vxlan_prefix base_vxlan_id devices (max_runners m.subnet_config))
      (fresh {links = links} m.subnet_config net)
      m') where
  -- What the recovery has was there, and what was there it has.
  was_there : (i : ℕ) (x : String × Cidr) → at_id i m' ≡ some x → at_id i m ≡ some x
  unfolding get
  was_there i x h = elim (end.has_source i x h) [
    | inl before ↦ absurd (none-ne-some x before)
    | inr (found, inside, same_id, same_ip, subnet) ↦
        let (link, among, passed) =
          collected-judged vxlan_prefix base_vxlan_id (max_runners m.subnet_config) devices found
            inside in
        let (s, there) = mirror.known link found among passed in
        ground (arith, at_id-subnet m found.runner_id (address_of found.remote_ip, s) v there)
  ]

  is_there : (i : ℕ) (x : String × Cidr) → at_id i m ≡ some x → at_id i m' ≢ none
  is_there i x h =
      let (n, a, at_n, has_i, e) = at_id-entry m i x v h in
      let (index, among) = mirror.present n a at_n in
      let (low, high) = v.in_range n a at_n in
      let most = max_runners m.subnet_config in
      let passed = device_of-valid vxlan_prefix base_vxlan_id most index a low high in
      let inside =
        judged-collected vxlan_prefix base_vxlan_id most devices
          (device_of vxlan_prefix base_vxlan_id index a) _ among passed in
      λ h'. end.all_found _ inside (ap (λ j. at_id j m') has_i ∙ h')

  same_at_id : (i : ℕ) → at_id i m' ≡ at_id i m
  same_at_id i = elim (Option-cases (at_id i m')) [
    | inr (x, e) ↦ e ∙ sym (was_there i x e)
    | inl e ↦ elim (Option-cases (at_id i m)) [
      | inl f ↦ e ∙ sym f
      | inr (x, f) ↦ absurd (is_there i x f e)
    ]
  ]

-- If the kernel has the device of every entry of a consistent manager with a valid plan, and the devices
-- with the network's prefix, a good name and the right VXLAN id are those of entries, the recovery after
-- a restart succeeds, its entries wait inactive under the names of their ids, and each runner id has
-- the address and the subnet that it had. So the kernel's devices stand for the tables.
pub recover_state_from_interfaces-same :
    {links : Links} (vxlan_prefix : String) (base_vxlan_id now : ℕ) (devices : List Link)
    (m : Manager links) (delete_index : ℕ → links.Net → links.Net)
    (add_trusted : String → links.Net → links.Net) (net : links.Net)
    → IsValid m.subnet_config
    → IsConsistent m
    → IsMirrored vxlan_prefix base_vxlan_id devices m
    → IsRestarted m (
        recover_state_from_interfaces links add_trusted delete_index vxlan_prefix base_vxlan_id now
          devices
          (fresh m.subnet_config net))
unfolding recover_state_from_interfaces get
recover_state_from_interfaces-same {links} vxlan_prefix base_vxlan_id now devices m delete_index
      add_trusted net plan v mirror =
    let most = max_runners m.subnet_config in
    let lists =
      collect_interfaces (parse_vxlan_device_name vxlan_prefix most) vxlan_prefix base_vxlan_id
        devices in
    let net' = delete_interfaces links add_trusted delete_index lists.0 net in
    let range : (found : Found)
        → In found lists.1
        → InRange (fresh {links = links} m.subnet_config net') found =
      λ found inside.
        let (link, among, passed) =
          collected-judged vxlan_prefix base_vxlan_id most devices found inside in
        judge-range vxlan_prefix base_vxlan_id most link found passed in
    let (done, end) =
      recover_interfaces-IsEnd add_trusted now lists.1 (fresh m.subnet_config net') plan
        (fresh-IsRecovered m.subnet_config net') range in
    (done, end.recovered, same_at_id vxlan_prefix base_vxlan_id devices m _ v mirror net' end)
