-- ===== src/Overlay/Recovery/Loop.antt =====
-- src/kohakuriver/host/services/overlay/recovery.py: the tables after the loop over the kept devices.
use kohaku_river.Common.{
  refl, ℕ, ◌≤◌, ◌≡◌, ◌≢◌, inl, inr, sym, ap, ◌∙◌, false, Option, none, some, String, arith,
  if◌then◌else◌, ◌==◌, nat_key, string_key, get, get-put, Option-cases, none-ne-some, ℕ_discrete,
  List, In, ◌⊎◌, ◌∷◌, [],
}
use kohaku_river.Common.Result.{ok, Result-cases}
use kohaku_river.Overlay.Links.{Links}
use kohaku_river.Overlay.Subnet.{OverlaySubnetConfig, Cidr, max_runners, get_runner_subnet}
use kohaku_river.Overlay.Subnet.Validation.{IsValid}
use kohaku_river.Overlay.Subnet.Layout.{get_runner_subnet-ok, get_runner_gateway-ok}
use kohaku_river.Overlay.Manager.{Manager, OverlayAllocation}
use kohaku_river.Overlay.Manager.Invariant.{IsConsistent, put-IsConsistent}
use kohaku_river.Overlay.Names.{runner_name_placeholder}
use kohaku_river.Overlay.Names.Prefixes.{runner_name_placeholder-injective}
use kohaku_river.Overlay.Recovery.{
  Found, address_of, recovered_allocation, with_recovered, recover_interfaces,
}

module _ {links : Links} where
  -- The address and the subnet behind a runner id.
  abbrev pub at_id : ℕ → Manager links → Option (String × Cidr)
  at_id i m = elim (get i m.id_to_runner) [
    | none ↦ none
    | some name ↦ elim (get name m.allocations) [
      | none ↦ none
      | some a ↦ some (a.physical_ip, a.subnet)
    ]
  ]

  -- Every entry waits for its runner under the name of its id.
  pub record IsRecovered (m : Manager links) : Type 0 where
    pub consistent : IsConsistent m
    pub waits :
        (n : String) (a : OverlayAllocation)
        → get n m.allocations ≡ some a
        → (n ≡ runner_name_placeholder a.runner_id) × (a.is_active ≡ false)

  abbrev pub InRange : Manager links → Found → Type 0
  InRange m found = (1 ≤ found.runner_id) × (found.runner_id ≤ max_runners m.subnet_config)

recovered_allocation-fields :
    (c : OverlaySubnetConfig) (now : ℕ) (found : Found) (a : OverlayAllocation)
    → recovered_allocation c now found ≡ ok a
    → (a.runner_name ≡ runner_name_placeholder found.runner_id)
      × (a.runner_id ≡ found.runner_id)
      × (a.physical_ip ≡ address_of found.remote_ip)
      × (get_runner_subnet c found.runner_id ≡ ok a.subnet)
      × (a.is_active ≡ false)
unfolding recovered_allocation
recovered_allocation-fields c now found a h = ground arith

recovered_allocation-ok :
    (c : OverlaySubnetConfig) (now : ℕ) (found : Found)
    → IsValid c
    → 1 ≤ found.runner_id
    → found.runner_id ≤ max_runners c
    → (a : OverlayAllocation) × (recovered_allocation c now found ≡ ok a)
unfolding recovered_allocation
recovered_allocation-ok c now found v low high =
    elim (Result-cases (recovered_allocation c now found)) [
      | inl made ↦ made
      | inr (e, failed) ↦ absurd (
          ground (
            arith,
            get_runner_subnet-ok c v found.runner_id low high,
            get_runner_gateway-ok c v found.runner_id low high,
          ))
    ]

module _ {links : Links} (add_trusted : String → links.Net → links.Net) (m : Manager links)
    (now : ℕ) (found : Found) (a : OverlayAllocation) (v : IsRecovered m) (range : InRange m found)
    (free : get found.runner_id m.id_to_runner ≡ none)
    (made : recovered_allocation m.subnet_config now found ≡ ok a) where
  -- The name is free with the id.
  free_name : get (runner_name_placeholder found.runner_id) m.allocations ≡ none
  free_name = elim (Option-cases (get (runner_name_placeholder found.runner_id) m.allocations)) [
    | inl e ↦ e
    | inr (b, e) ↦
        let same =
          runner_name_placeholder-injective found.runner_id b.runner_id (v.waits _ b e).0 in
        absurd (
          none-ne-some (runner_name_placeholder found.runner_id)
            (sym free ∙ ap (λ i. get i m.id_to_runner) same ∙ v.consistent.owned _ b e))
  ]

  pub with_recovered-IsRecovered : IsRecovered (with_recovered links add_trusted found a m)
  with_recovered-IsRecovered =
      let (named, id, at_ip, subnet, off) =
        recovered_allocation-fields m.subnet_config now found a made in
      record {
        consistent =
            put-IsConsistent m (add_trusted found.device_name m.net)
              (runner_name_placeholder found.runner_id) found.runner_id a v.consistent free_name
              free named id range subnet;
        waits = λ n b e. ground (
          arith,
          get-put (runner_name_placeholder found.runner_id) n a m.allocations,
          v.waits n b,
          string_key.is_same_iff (runner_name_placeholder found.runner_id) n,
        );
      }

  -- The other ids are as before.
  pub at_id-with_recovered :
      (i : ℕ)
      → at_id i (with_recovered links add_trusted found a m)
        ≡ (if found.runner_id == i then some (a.physical_ip, a.subnet) else at_id i m)
  at_id-with_recovered i = elim (ℕ_discrete found.runner_id i) [
    | yes same ↦ ground (
      arith,
      get-put found.runner_id i (runner_name_placeholder found.runner_id) m.id_to_runner,
      get-put (runner_name_placeholder found.runner_id) (runner_name_placeholder found.runner_id) a
          m.allocations,
      string_key.is_same_iff (runner_name_placeholder found.runner_id)
          (runner_name_placeholder found.runner_id),
    )
    | no apart ↦ elim (Option-cases (get i m.id_to_runner)) [
      | inl e ↦ ground (
        arith,
        get-put found.runner_id i (runner_name_placeholder found.runner_id) m.id_to_runner,
      )
      | inr (n, e) ↦
          let (b, at_n, has_i) = v.consistent.held i n e in
          let other_name : runner_name_placeholder found.runner_id ≢ n = λ h. apart (
            runner_name_placeholder-injective found.runner_id b.runner_id (h ∙ (v.waits n b at_n).0)
            ∙ has_i) in
          ground (
            arith,
            get-put found.runner_id i (runner_name_placeholder found.runner_id) m.id_to_runner,
            get-put (runner_name_placeholder found.runner_id) n a m.allocations,
            string_key.is_same_iff (runner_name_placeholder found.runner_id) n,
          )
    ]
  ]

-- Where the loop has an entry from.
abbrev pub Source : OverlaySubnetConfig → List Found → ℕ → String × Cidr → Type 0
Source c founds i x =
    (found : Found) × In found founds
    × (found.runner_id ≡ i)
    × (x.0 ≡ address_of found.remote_ip)
    × (get_runner_subnet c i ≡ ok x.1)

module _ {links : Links} where
  -- The loop keeps what there is, adds an entry for each device, and nothing else.
  pub record IsEnd (founds : List Found) (m m' : Manager links) : Type 0 where
    pub recovered : IsRecovered m'
    pub kept : (i : ℕ) (x : String × Cidr) → at_id i m ≡ some x → at_id i m' ≡ some x
    pub has_source :
        (i : ℕ) (x : String × Cidr)
        → at_id i m' ≡ some x
        → (at_id i m ≡ some x) ⊎ Source m.subnet_config founds i x
    pub all_found : (found : Found) → In found founds → at_id found.runner_id m' ≢ none

  at_held :
      (m : Manager links) (i : ℕ) (n : String)
      → IsRecovered m
      → get i m.id_to_runner ≡ some n
      → (x : String × Cidr) × (at_id i m ≡ some x)
  at_held m i n v e =
      let (a, at_n, has_i) = v.consistent.held i n e in
      ((a.physical_ip, a.subnet), ground (arith, at_n))

  taken-IsEnd :
      (found : Found) (rest : List Found) (m m' : Manager links) (n : String)
      → IsRecovered m
      → get found.runner_id m.id_to_runner ≡ some n
      → IsEnd rest m m'
      → IsEnd (found ∷ rest) m m'
  taken-IsEnd found rest m m' n v taken end =
      let (x, there) = at_held m found.runner_id n v taken in
      record {
        recovered = end.recovered;
        kept = end.kept;
        has_source = λ i y h. elim (end.has_source i y h) [
          | inl before ↦ inl before
          | inr source ↦ inr (source.0, inr source.1, source.2, source.3, source.4)
        ];
        all_found = λ f inside. elim inside [
          | inl same ↦ λ h. none-ne-some x (
              sym h
              ∙ ap (λ (g : Found). at_id g.runner_id m') (sym same)
              ∙ end.kept found.runner_id x there)
          | inr later ↦ end.all_found f later
        ];
      }

  module _ (add_trusted : String → links.Net → links.Net) (now : ℕ) where
    new-IsEnd :
        (found : Found) (rest : List Found) (m m' : Manager links) (a : OverlayAllocation)
        → IsRecovered m
        → InRange m found
        → get found.runner_id m.id_to_runner ≡ none
        → recovered_allocation m.subnet_config now found ≡ ok a
        → IsEnd rest (with_recovered links add_trusted found a m) m'
        → IsEnd (found ∷ rest) m m'
    new-IsEnd found rest m m' a v range free made end =
        let (named, id, at_ip, subnet, off) =
          recovered_allocation-fields m.subnet_config now found a made in
        let at = at_id-with_recovered add_trusted m now found a v range free made in
        record {
          recovered = end.recovered;
          kept = λ i x h. end.kept i x (ground (arith, at i));
          has_source = λ i x h. elim (end.has_source i x h) [
            | inr source ↦ inr (source.0, inr source.1, source.2, source.3, source.4)
            | inl before ↦ elim (ℕ_discrete found.runner_id i) [
              | yes same ↦ inr (found, inl refl, same, ground (arith, at i), ground (arith, at i))
              | no apart ↦ inl (ground (arith, at i))
            ]
          ];
          all_found = λ f inside. elim inside [
            | inl same ↦ λ h.
                none-ne-some (a.physical_ip, a.subnet)
                  (sym h
                    ∙ ap (λ (g : Found). at_id g.runner_id m') (sym same)
                    ∙ end.kept found.runner_id (a.physical_ip, a.subnet)
                        (ground (arith, at found.runner_id)))
            | inr later ↦ end.all_found f later
          ];
        }

    pub recover_interfaces-IsEnd :
        (founds : List Found) (m : Manager links)
        → IsValid m.subnet_config
        → IsRecovered m
        → ((found : Found) → In found founds → InRange m found)
        → ((recover_interfaces links add_trusted now founds m).0 ≡ ok tt)
          × IsEnd founds m (recover_interfaces links add_trusted now founds m).1
    unfolding recover_interfaces
    recover_interfaces-IsEnd [] m valid v range = (
      refl,
      record {
        recovered = v;
        kept = λ i x h. h;
        has_source = λ i x h. inl h;
        all_found = λ f inside. absurd inside;
      },
    )
    recover_interfaces-IsEnd (found ∷ rest) m valid v range =
        elim (Option-cases (get found.runner_id m.id_to_runner)) [
          | inr (n, taken) ↦
              let (done, end) =
                recover_interfaces-IsEnd rest m valid v (λ f inside. range f (inr inside)) in
              rw (taken, recover_interfaces) (done, taken-IsEnd found rest m _ n v taken end)
          | inl free ↦
              let (low, high) = range found (inl refl) in
              let (a, made) = recovered_allocation-ok m.subnet_config now found valid low high in
              let next = with_recovered links add_trusted found a m in
              let (done, end) =
                recover_interfaces-IsEnd rest next valid
                  (with_recovered-IsRecovered add_trusted m now found a v (low, high) free made)
                  (λ f inside. range f (inr inside)) in
              rw (free, made, recover_interfaces)
                (done, new-IsEnd found rest m _ a v (low, high) free made end)
        ]
