-- ===== src/Overlay/Recovery/Devices.antt =====
-- src/kohakuriver/host/services/overlay/recovery.py: which devices the first loop keeps.
use kohaku_river.Common.{
  ℕ, ◌+◌, ◌≤◌, ◌≡◌, inl, inr, refl, ap, ◌∙◌, false, Option, none, some, List, [], ◌∷◌, String,
  arith, nat_key, string_key, In, ◌==◌, different_of_ne, same_refl,
}
use kohaku_river.Overlay.Manager.{OverlayAllocation}
use kohaku_river.Overlay.Names.{parse_vxlan_device_name, get_vxlan_device_name, encode_runner_id}
use kohaku_river.Overlay.Names.Digits.{
  encode_runner_id-ne-nil, parse_vxlan_device_name-range,
  parse_vxlan_device_name-get_vxlan_device_name,
}
use kohaku_river.Overlay.Recovery.{
  Link, Found, Verdict, skipped, invalid, valid, or_else, judge_link, judge_device,
  collect_interfaces, sort_out,
}
use text.Mathlib.TextPositions.{starts_with-append}
use text.Mathlib.TextLemmas.{append-eq-nil_iff}

-- The device of an entry, as `create_vxlan_sync` asks the kernel for it.
abbrev pub device_of : String → ℕ → ℕ → OverlayAllocation → Link
device_of vxlan_prefix base_vxlan_id index a = record {
  index = index;
  ifname = some (get_vxlan_device_name vxlan_prefix a.runner_id);
  linkinfo = some (record {
    kind = some "vxlan";
    info_data = some (record {
      vxlan_id = some (base_vxlan_id + a.runner_id);
      group = some a.physical_ip;
      remote = none;
    });
  });
}

judge_device-valid :
    (parse_device_name : String → Option ℕ) (base_vxlan_id id index : ℕ) (name : String)
    (ip : Option String)
    → parse_device_name name ≡ some id
    → judge_device parse_device_name base_vxlan_id name index
        (record { vxlan_id = some (base_vxlan_id + id); group = ip; remote = none })
      ≡ valid (record { device_name = name; runner_id = id; remote_ip = or_else ip none })
judge_device-valid parse_device_name base_vxlan_id id index name ip h =
    rw (h, judge_device) (ground (arith, same_refl (base_vxlan_id + id)))

module _ (vxlan_prefix : String) (base_vxlan_id most : ℕ) where
  abbrev pub judge : Link → Verdict
  judge = judge_link (parse_vxlan_device_name vxlan_prefix most) vxlan_prefix base_vxlan_id

  pub device_of-valid :
      (index : ℕ) (a : OverlayAllocation)
      → 1 ≤ a.runner_id
      → a.runner_id ≤ most
      → judge (device_of vxlan_prefix base_vxlan_id index a)
        ≡ valid (record {
          device_name = get_vxlan_device_name vxlan_prefix a.runner_id;
          runner_id = a.runner_id;
          remote_ip = or_else (some a.physical_ip) none;
        })
  unfolding judge_link
  device_of-valid index a low high =
      let name = get_vxlan_device_name vxlan_prefix a.runner_id in
      let not_empty : (name == "") ≡ false =
        different_of_ne name ""
          (λ h. encode_runner_id-ne-nil a.runner_id low (append-eq-nil_iff.0 h).1) in
      rw (not_empty, starts_with-append vxlan_prefix (encode_runner_id a.runner_id))
        (judge_device-valid (parse_vxlan_device_name vxlan_prefix most) base_vxlan_id a.runner_id
          index name (some a.physical_ip)
          (parse_vxlan_device_name-get_vxlan_device_name vxlan_prefix most a.runner_id low high))

  pub judge-range :
      (link : Link) (found : Found)
      → judge link ≡ valid found
      → (1 ≤ found.runner_id) × (found.runner_id ≤ most)
  unfolding judge_link
  judge-range link found h =
      parse_vxlan_device_name-range vxlan_prefix found.device_name most found.runner_id
        (ground arith)

  -- A kept device is one of the kernel's that passed.
  pub collected-judged :
      (devices : List Link) (found : Found)
      → In found
          (collect_interfaces
            (parse_vxlan_device_name vxlan_prefix most)
            vxlan_prefix
            base_vxlan_id
            devices).1
      → (link : Link) × In link devices × (judge link ≡ valid found)
  unfolding collect_interfaces
  collected-judged [] found h = absurd h
  collected-judged (link ∷ devices) found h =
      from_verdict (judge link) refl (λ i. collected-judged devices found i) h
    where
      from_verdict :
          (verdict : Verdict)
          → judge link ≡ verdict
          → (In found
                (collect_interfaces
                  (parse_vxlan_device_name vxlan_prefix most)
                  vxlan_prefix
                  base_vxlan_id
                  devices).1
              → (other : Link) × In other devices × (judge other ≡ valid found))
          → In found
              (sort_out verdict (
                collect_interfaces
                  (parse_vxlan_device_name vxlan_prefix most)
                  vxlan_prefix
                  base_vxlan_id
                  devices)).1
          → (other : Link) × In other (link ∷ devices) × (judge other ≡ valid found)
      from_verdict skipped e again i =
          let (other, inside, passed) = again i in (other, inr inside, passed)
      from_verdict (invalid index) e again i =
          let (other, inside, passed) = again i in (other, inr inside, passed)
      from_verdict (valid here) e again (inl same) = (link, inl refl, e ∙ ap valid same)
      from_verdict (valid here) e again (inr i) =
          let (other, inside, passed) = again i in (other, inr inside, passed)

  pub judged-collected :
      (devices : List Link) (link : Link) (found : Found)
      → In link devices
      → judge link ≡ valid found
      → In found
          (collect_interfaces
            (parse_vxlan_device_name vxlan_prefix most)
            vxlan_prefix
            base_vxlan_id
            devices).1
  unfolding collect_interfaces
  judged-collected [] link found h e = absurd h
  judged-collected (first ∷ devices) link found (inl same) e = rw (ap judge same ∙ e) (inl refl)
  judged-collected (first ∷ devices) link found (inr later) e =
      kept (judge first) (judged-collected devices link found later e)
    where
      kept :
          (verdict : Verdict)
          → In found
              (collect_interfaces
                (parse_vxlan_device_name vxlan_prefix most)
                vxlan_prefix
                base_vxlan_id
                devices).1
          → In found
              (sort_out verdict (
                collect_interfaces
                  (parse_vxlan_device_name vxlan_prefix most)
                  vxlan_prefix
                  base_vxlan_id
                  devices)).1
      kept skipped i = i
      kept (invalid index) i = i
      kept (valid here) i = inr i
