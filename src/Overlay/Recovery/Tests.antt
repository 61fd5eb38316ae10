-- ===== src/Overlay/Recovery/Tests.antt =====
-- A restart with one runner, one device of another network and one that is no good.
use kohaku_river.Common.{
  ℕ, ◌≡◌, ◌≢◌, refl, ap, sym, subst, ◌∙◌, true, false, none, some, List, [], ◌∷◌, arith, String,
  nat_key, string_key, get, inl, inr, In, ◌+◌,
}
use kohaku_river.Common.Int.{pos}
use kohaku_river.Common.Result.{ok}
use kohaku_river.Overlay.Links.{Links}
use kohaku_river.Overlay.Subnet.{
  Cidr, OverlaySubnetConfig, get_runner_subnet, ipv4_address, validate_runner_id, max_runners,
  is_flat,
}
use kohaku_river.Overlay.Subnet.Validation.{IsValid}
use kohaku_river.Overlay.Manager.{Manager, OverlayAllocation}
use kohaku_river.Overlay.Manager.Invariant.{IsConsistent}
use kohaku_river.Overlay.Manager.History.{fresh}
use kohaku_river.Overlay.Names.{
  symbol, number, int_36, digits_loop, encode_runner_id, parse_vxlan_device_name,
  get_vxlan_device_name, network_prefix, decimal, runner_name_placeholder,
}
use kohaku_river.Overlay.Names.Digits.{parse_vxlan_device_name-get_vxlan_device_name}
use kohaku_river.Overlay.Names.Prefixes.{get_vxlan_device_name-apart}
use kohaku_river.Overlay.Recovery.{
  Link, Found, valid, skipped, invalid, judge_link, recover_state_from_interfaces, address_of,
}
use kohaku_river.Overlay.Recovery.Devices.{device_of, judge}
use kohaku_river.Overlay.Recovery.Loop.{at_id}
use kohaku_river.Overlay.Recovery.Restart.{
  IsMirrored, IsRestarted, recover_state_from_interfaces-same,
}
use text.Mathlib.Text.{starts_with}

-- 35 in base 36 is a single letter, 36 is two digits.
encode_z : (encode_runner_id 35 ≡ "z") × (encode_runner_id 36 ≡ "10")
unfolding encode_runner_id digits_loop
encode_z = (refl, refl)

int_signed : (int_36 "1_0" ≡ some (pos 36)) × (int_36 "+A" ≡ some (pos 10)) × (int_36 "1__0" ≡ none)
unfolding int_36 number symbol
int_signed = (refl, refl, refl)

placeholder_seven : runner_name_placeholder 17 ≡ "runner_17"
unfolding runner_name_placeholder decimal digits_loop
placeholder_seven = refl

parse_vxlan_device_name-get_vxlan_device_name_example :
    parse_vxlan_device_name "vxkr" 62 (get_vxlan_device_name "vxkr" 40) ≡ some 40
parse_vxlan_device_name-get_vxlan_device_name_example =
    parse_vxlan_device_name-get_vxlan_device_name "vxkr" 62 40 (omega arith) (omega arith)

get_vxlan_device_name-apart_example :
    starts_with (get_vxlan_device_name (network_prefix 12) 3) (network_prefix 1) ≡ false
get_vxlan_device_name-apart_example = get_vxlan_device_name-apart 1 12 3 (omega arith)

abbrev plan : OverlaySubnetConfig
plan = record { base = 176_160_768; total_prefix = 12; node_bits = 6; subnet_bits = 14 }

plan-IsValid : IsValid plan
plan-IsValid = record {
  sum = refl;
  total_low = omega arith;
  total_high = omega arith;
  node_low = omega arith;
  node_high = omega arith;
  subnet_low = omega arith;
  aligned = refl;
  base_fits = omega arith;
}

abbrev kernel : Links
kernel = record {
  Net = ℕ;
  create = λ id ip net. (ok "vx0_5", net);
  delete = λ name net. (ok tt, net);
}

abbrev alpha : OverlayAllocation
alpha = record {
  runner_name = "alpha";
  runner_id = 5;
  physical_ip = "192.168.1.2";
  subnet = record { address = 176_242_688; prefix = 18 };
  gateway = 176_242_689;
  vxlan_device = "vx0_5";
  last_used = 10;
  is_active = true;
}

abbrev before : Manager kernel
before = record {
  subnet_config = plan;
  allocations = ("alpha", alpha) ∷ [];
  id_to_runner = (5, "alpha") ∷ [];
  net = 0;
}

before-IsConsistent : IsConsistent {links = kernel} before
unfolding get get_runner_subnet ipv4_address validate_runner_id max_runners is_flat
before-IsConsistent = record {
  unique = (refl, tt);
  unique_ids = (refl, tt);
  named = λ n a h. ground (arith, string_key.is_same_iff "alpha" n);
  owned = λ n a h. ground (arith, string_key.is_same_iff "alpha" n);
  in_range = λ n a h. ground (arith, string_key.is_same_iff "alpha" n);
  addressed = λ n a h. ground (arith, string_key.is_same_iff "alpha" n);
  held = λ i n h. (
    alpha,
    ground (arith, string_key.is_same_iff "alpha" n),
    ground (arith, string_key.is_same_iff "alpha" n),
  );
}

-- Another network's device, a device with a bad number, and alpha's.
abbrev other_link : Link
other_link = device_of "vx1_" 200 7 alpha

abbrev bad_link : Link
bad_link = device_of "vx0_" 101 8 alpha

abbrev devices : List Link
devices = other_link ∷ bad_link ∷ device_of "vx0_" 100 9 alpha ∷ []

abbrev alpha_found : Found
alpha_found = record { device_name = "vx0_5"; runner_id = 5; remote_ip = some "192.168.1.2" }

judged :
    (judge "vx0_" 100 63 other_link ≡ skipped)
    × (judge "vx0_" 100 63 bad_link ≡ invalid 8)
    × (judge "vx0_" 100 63 (device_of "vx0_" 100 9 alpha) ≡ valid alpha_found)
unfolding judge_link parse_vxlan_device_name int_36 number symbol encode_runner_id digits_loop
judged = (refl, refl, refl)

skipped-ne-valid : (found : Found) → skipped ≢ valid found
skipped-ne-valid found h = cc

invalid-ne-valid : (index : ℕ) (found : Found) → invalid index ≢ valid found
invalid-ne-valid index found h = cc

valid-injective : (f g : Found) → valid f ≡ valid g → f ≡ g
valid-injective f g h = cc

only_alpha :
    (link : Link) (found : Found)
    → In link devices
    → judge "vx0_" 100 63 link ≡ valid found
    → alpha_found ≡ found
only_alpha link found (inl same) h =
    absurd (skipped-ne-valid found (sym judged.0 ∙ ap (judge "vx0_" 100 63) same ∙ h))
only_alpha link found (inr (inl same)) h =
    absurd (invalid-ne-valid 8 found (sym judged.1 ∙ ap (judge "vx0_" 100 63) same ∙ h))
only_alpha link found (inr (inr (inl same))) h =
    valid-injective alpha_found found (sym judged.2 ∙ ap (judge "vx0_" 100 63) same ∙ h)
only_alpha link found (inr (inr (inr none_left))) h = absurd none_left

only_entry : (n : String) (a : OverlayAllocation) → get n before.allocations ≡ some a → alpha ≡ a
unfolding get
only_entry n a h = ground arith

alpha-known : (s : Cidr) × (at_id 5 before ≡ some (address_of (some "192.168.1.2"), s))
unfolding get
alpha-known = (alpha.subnet, refl)

devices-IsMirrored : IsMirrored {links = kernel} "vx0_" 100 devices before
unfolding max_runners is_flat
devices-IsMirrored = record {
  present = λ n a h. (9, inr (inr (inl (ap (device_of "vx0_" 100 9) (only_entry n a h)))));
  known = λ link found inside passed.
      subst
        (λ (f : Found). (s : Cidr) × (at_id f.runner_id before ≡ some (address_of f.remote_ip, s)))
        (only_alpha link found inside passed) alpha-known;
}

recover_state_from_interfaces-same_example : IsRestarted {links = kernel} before (
    recover_state_from_interfaces kernel
      (λ device net. net)
      (λ index net. net + 1)
      "vx0_"
      100
      40
      devices
      (fresh {links = kernel} plan 0))
recover_state_from_interfaces-same_example =
    recover_state_from_interfaces-same {links = kernel} "vx0_" 100 40 devices before
      (λ index net. net + 1) (λ device net. net) 0 plan-IsValid before-IsConsistent
      devices-IsMirrored
