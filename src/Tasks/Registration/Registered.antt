-- ===== src/Tasks/Registration/Registered.antt =====
-- src/kohakuriver/host/endpoints/nodes.py: what a registration leaves behind and answers.
use kohaku_river.Common.{
  ℕ, ◌≡◌, refl, ap, ◌∙◌, true, Option, none, some, List, [], ◌∷◌, arith, String, if◌then◌else◌,
  ◌==◌, string_key, Dict, get, get-put, Option-cases, inl, inr, In, All, Item-get, Unique,
  none-ne-some, Bool-cases, Item,
}
use kohaku_river.Common.Result.{ok, Result-cases}
use kohaku_river.Overlay.Links.{Links}
use kohaku_river.Overlay.Manager.{Manager, OverlayAllocation, allocate_for_runner}
use kohaku_river.Overlay.Manager.Invariant.{IsConsistent}
use kohaku_river.Overlay.Manager.Promise.{allocate_for_runner-Stored}
use kohaku_river.Overlay.Subnet.{get_host_ip_on_runner_subnet}
use kohaku_river.Overlay.Networks.{Networks, allocate_on_networks}
use kohaku_river.Tasks.Monitor.{Node, Cluster}
use kohaku_river.Tasks.Heartbeat.{HostConfig, extract_ip_from_url}
use kohaku_river.Tasks.Registration.{
  RegisterRequest, new_node, updated_node, upsert_node, register_node, NetInfo, net_infos,
  allocate_overlay_for_runner, given_list,
}

-- The row of the node after the registration, and those of the others.
abbrev pub IsUpserted : RegisterRequest → ℕ → Dict String Node → Dict String Node → Type 0
IsUpserted request now nodes nodes' =
    (node : Node) × (node.status ≡ "online")
    × (node.url ≡ request.url)
    × (node.total_cores ≡ request.total_cores)
    × (node.last_heartbeat ≡ now)
    × ((other : String)
        → get other nodes' ≡ (if request.hostname == other then some node else get other nodes))

upsert_node-IsUpserted :
    (request : RegisterRequest) (now : ℕ) (nodes : Dict String Node)
    → IsUpserted request now nodes (upsert_node request now nodes)
unfolding upsert_node
upsert_node-IsUpserted request now nodes = elim (Option-cases (get request.hostname nodes)) [
  | inl e ↦
      rw (e, upsert_node)
        (
          new_node request now,
          refl,
          refl,
          refl,
          refl,
          λ other. get-put request.hostname other (new_node request now) nodes,
        )
  | inr (node, e) ↦
      rw (e, upsert_node)
        (
          updated_node request now node,
          refl,
          refl,
          refl,
          refl,
          λ other. get-put request.hostname other (updated_node request now node) nodes,
        )
]

module _ {links : Links} (hostname ip : String) (now : ℕ) where
  -- The manager of the network holds the runner's entry, active and at its address.
  abbrev pub IsHeld : Networks links → String → OverlayAllocation → Type 0
  IsHeld overlays name a =
      (m : Manager links) × (get name overlays ≡ some m)
      × (get hostname m.allocations ≡ some a)
      × (a.is_active ≡ true)
      × (a.physical_ip ≡ ip)

  abbrev pub AllConsistent : Networks links → Type 0
  AllConsistent [] = Unit
  AllConsistent ((network, m) ∷ overlays) = IsConsistent m × AllConsistent overlays

  no_network :
      (overlays : Networks links) (name : String)
      → get name overlays ≡ none
      → get name (allocate_on_networks links hostname ip now overlays).0 ≡ none
  unfolding allocate_on_networks get
  no_network [] name h = refl
  no_network ((network, m) ∷ overlays) name h =
      elim (Result-cases (allocate_for_runner links hostname ip now m).0) [
        | inl (a, e) ↦ rw (e, allocate_on_networks) (ground (arith, no_network overlays name))
        | inr (x, e) ↦ rw (e, allocate_on_networks) (ground (arith, no_network overlays name))
      ]

  allocate_on_networks-IsHeld :
      (overlays : Networks links) (name : String) (a : OverlayAllocation)
      → Unique overlays
      → AllConsistent overlays
      → get name (allocate_on_networks links hostname ip now overlays).0 ≡ some a
      → IsHeld (allocate_on_networks links hostname ip now overlays).1 name a
  unfolding allocate_on_networks get
  allocate_on_networks-IsHeld [] name a u v h = absurd (none-ne-some a h)
  allocate_on_networks-IsHeld ((network, m) ∷ overlays) name a u v h =
      let rest = allocate_on_networks-IsHeld overlays name a u.1 v.1 in
      let none_left = no_network overlays name in
      let result = allocate_for_runner links hostname ip now m in
      elim (Bool-cases (network == name)) [
        | inr apart ↦
            let held = rest (elim (Result-cases result.0) [
              | inl (b, e) ↦ ground arith
              | inr (x, e) ↦ ground arith
            ]) in
            (held.0, ground (arith, held.1), held.2, held.3, held.4)
        | inl same ↦ elim (Result-cases result.0) [
          | inl (b, e) ↦
              let b_is_a : b ≡ a = ground arith in
              let (there, on, at_ip) = allocate_for_runner-Stored m hostname ip now b v.0 e in
              (result.1, ground arith, there ∙ ap some b_is_a, ground arith, ground arith)
          | inr (x, e) ↦ absurd (ground (arith, string_key.is_same_iff network name))
        ]
      ]

  allocations-Unique :
      (overlays : Networks links)
      → Unique overlays
      → Unique (allocate_on_networks links hostname ip now overlays).0
  unfolding allocate_on_networks
  allocations-Unique [] u = tt
  allocations-Unique ((network, m) ∷ overlays) u =
      elim (Result-cases (allocate_for_runner links hostname ip now m).0) [
        | inl (a, e) ↦
            rw (e, allocate_on_networks)
              (no_network overlays network u.0, allocations-Unique overlays u.1)
        | inr (x, e) ↦ rw (e, allocate_on_networks) (allocations-Unique overlays u.1)
      ]

module _ {links : Links} (url_host : String → Option String) where
  -- An entry of the answer is one of an allocation.
  net_infos-Item :
      (allocations : Dict String OverlayAllocation) (overlays : Networks links)
      (infos : List NetInfo) (info : NetInfo)
      → net_infos links url_host allocations overlays ≡ ok infos
      → In info infos
      → (a : OverlayAllocation) × Item info.name a allocations
        × (a.runner_id ≡ info.runner_id)
        × (a.subnet ≡ info.overlay_subnet)
  unfolding net_infos
  net_infos-Item allocations overlays [] info h i = absurd i
  net_infos-Item [] overlays (x ∷ xs) info h i = cc
  net_infos-Item ((name, a) ∷ allocations) overlays (x ∷ xs) info h i =
      let later =
        λ (j : In info (x ∷ xs)) (e : net_infos links url_host allocations overlays ≡ ok (x ∷ xs)).
          net_infos-Item allocations overlays (x ∷ xs) info e j in
      let behind = λ (j : In info xs) (e : net_infos links url_host allocations overlays ≡ ok xs).
        net_infos-Item allocations overlays xs info e j in
      elim (Option-cases (get name overlays)) [
        | inl e ↦
            let (b, inside, same_id, same_subnet) = later i (rw (e, net_infos) at h) in
            (b, inr inside, same_id, same_subnet)
        | inr (m, e) ↦
            elim (Result-cases (get_host_ip_on_runner_subnet m.subnet_config a.runner_id)) [
              | inr (x', f) ↦ absurd (ground arith)
              | inl (host_ip, f) ↦
                  elim (Result-cases (net_infos links url_host allocations overlays)) [
                    | inr (x', g) ↦ absurd (ground arith)
                    | inl (rest, g) ↦ elim i [
                      | inl same ↦ (a, inl (ground arith, refl), ground arith, ground arith)
                      | inr j ↦
                          let (b, inside, same_id, same_subnet) = behind j (ground arith) in
                          (b, inr inside, same_id, same_subnet)
                    ]
                  ]
            ]
      ]

  -- A network of the answer, as its manager has it.
  abbrev pub IsAnswered : RegisterRequest → ℕ → Networks links → NetInfo → Type 0
  IsAnswered request now overlays info =
      (a : OverlayAllocation) × IsHeld request.hostname (extract_ip_from_url url_host request.url)
        now overlays info.name a
      × (a.runner_id ≡ info.runner_id)
      × (a.subnet ≡ info.overlay_subnet)

  abbrev pub AllAnswered : RegisterRequest → ℕ → Networks links → Option (List NetInfo) → Type 0
  AllAnswered request now overlays none = Unit
  AllAnswered request now overlays (some infos) = All (IsAnswered request now overlays) infos

  abbrev pub Registered :
      RegisterRequest → ℕ → Cluster links → Option (List NetInfo) × Cluster links → Type 0
  Registered request now c result =
      IsUpserted request now c.nodes result.1.nodes
      × (result.1.jobs ≡ c.jobs)
      × AllAnswered request now result.1.overlays result.0

  all_answered :
      (request : RegisterRequest) (now : ℕ) (overlays : Networks links) (infos : List NetInfo)
      → ((info : NetInfo) → In info infos → IsAnswered request now overlays info)
      → AllAnswered request now overlays (some infos)
  all_answered request now overlays [] h = tt
  all_answered request now overlays (info ∷ infos) h =
      (h info (inl refl), all_answered request now overlays infos (λ other i. h other (inr i)))

  given_answered :
      (request : RegisterRequest) (now : ℕ) (overlays : Networks links) (infos : List NetInfo)
      → AllAnswered request now overlays (some infos)
      → AllAnswered request now overlays (given_list (some infos))
  given_answered request now overlays [] h = tt
  given_answered request now overlays (info ∷ infos) h = h

  allocated-answered :
      (request : RegisterRequest) (now : ℕ) (overlays : Networks links)
      → Unique overlays
      → AllConsistent request.hostname (extract_ip_from_url url_host request.url) now overlays
      → AllAnswered request now
          (allocate_overlay_for_runner links url_host request.hostname request.url now overlays).1
          (allocate_overlay_for_runner links url_host request.hostname request.url now overlays).0
  unfolding allocate_overlay_for_runner
  allocated-answered request now overlays u v =
      let ip = extract_ip_from_url url_host request.url in
      let allocated = allocate_on_networks links request.hostname ip now overlays in
      elim (Result-cases (net_infos links url_host allocated.0 allocated.1)) [
        | inr (x, e) ↦ rw (e, allocate_overlay_for_runner) tt
        | inl (infos, e) ↦
            rw (e, allocate_overlay_for_runner)
              (given_answered request now allocated.1 infos (
                all_answered request now allocated.1 infos (λ info i.
                  let (a, inside, same_id, same_subnet) =
                    net_infos-Item allocated.0 allocated.1 infos info e i in
                  let there =
                    Item-get info.name a allocated.0
                      (allocations-Unique request.hostname ip now overlays u) inside in
                  (
                    a,
                    allocate_on_networks-IsHeld request.hostname ip now overlays info.name a u v
                        there,
                    same_id,
                    same_subnet,
                  ))))
      ]

  -- A registration makes the node's row online, with the request's URL and cores and the present time, and
  -- leaves the other rows and the tasks. Where each network has one manager and these are consistent,
  -- every network that the answer names has the runner's entry, active, at its address, with the
  -- answer's runner id and subnet.
  pub register_node-Registered :
      (config : HostConfig) (request : RegisterRequest) (now : ℕ) (c : Cluster links)
      → Unique c.overlays
      → AllConsistent request.hostname (extract_ip_from_url url_host request.url) now c.overlays
      → Registered request now c (register_node links url_host config request now c)
  unfolding register_node
  register_node-Registered config request now c u v = elim (Bool-cases config.overlay_enabled) [
    | inl on ↦
        rw (on, register_node)
          (
            upsert_node-IsUpserted request now c.nodes,
            refl,
            allocated-answered request now c.overlays u v,
          )
    | inr off ↦ rw (off, register_node) (upsert_node-IsUpserted request now c.nodes, refl, tt)
  ]
