-- ===== src/Tasks/Ports.antt =====
-- src/kohakuriver/host/endpoints/task_submission.py, `allocate_ssh_port`. The loop runs on fuel: one more
-- than there are ports in use.
use kohaku_river.Common.{
  ℕ, zero, suc, ◌+◌, ◌≤◌, ◌<◌, ◌≡◌, refl, sym, ap, subst, ◌∙◌, ◌≢◌, inl, inr, Bool, true, false,
  ◌&&◌, Option, none, some, List, [], ◌∷◌, arith, if◌then◌else◌, leb, ◌==◌, nat_key, string_key,
  pair_key, length, keep, contains, Dict, Bool-cases, same_refl, ℕ_discrete, false-ne-true,
}
use kohaku_river.Common.{length-keep-le, Item, Item-keep_intro}
use kohaku_river.Tasks.{Task}

abbrev pub is_active_vps : Task → Bool
is_active_vps task =
    task.task_type == "vps"
    && contains task.status ("pending" ∷ "assigning" ∷ "running" ∷ "paused" ∷ [])
    && elim task.ssh_port [ none ↦ false | some port ↦ true ]

-- `if vps.ssh_port: existing_ports.add(vps.ssh_port)`
abbrev pub add_port : Option ℕ → List ℕ → List ℕ
add_port none ports = ports
add_port (some port) ports = if port == 0 then ports else port ∷ ports

abbrev pub existing_ports : Dict ℕ Task → List ℕ
existing_ports [] = []
existing_ports ((id, vps) ∷ rows) = add_port vps.ssh_port (existing_ports rows)

-- `while port in existing_ports: port += 1`
unfoldable pub next_free : ℕ → List ℕ → ℕ → Option ℕ
unfolding contains
next_free zero ports port = none
next_free (suc fuel) ports port =
    let rest = next_free fuel ports (port + 1) in if contains port ports then rest else some port

abbrev pub first_port : ℕ
first_port = 2_222

unfoldable pub allocate_ssh_port : Dict ℕ Task → Option ℕ
unfolding next_free keep contains
allocate_ssh_port tasks =
    let ports = existing_ports (keep (λ item. is_active_vps item.1) tasks) in
    next_free (suc (length ports)) ports first_port

-- The ports in use from `port` on; each turn of the loop passes one.
abbrev above : ℕ → List ℕ → List ℕ
above port ports = keep (λ x. leb port x) ports

above-shrinks :
    (port : ℕ) (ports : List ℕ) → length (above (port + 1) ports) ≤ length (above port ports)
unfolding keep
above-shrinks port [] = omega arith
above-shrinks port (x ∷ ports) = ground (arith, above-shrinks port ports)

above-passes :
    (port : ℕ) (ports : List ℕ)
    → contains port ports ≡ true
    → length (above (port + 1) ports) < length (above port ports)
unfolding keep contains
above-passes port [] h = cc
above-passes port (x ∷ ports) h = ground (arith, above-passes port ports, above-shrinks port ports)

-- What the loop returns.
abbrev Free : List ℕ → ℕ → Option ℕ → Type 0
Free ports from result =
    (port : ℕ) × (result ≡ some port)
    × (from ≤ port)
    × (port ≤ from + length (above from ports))
    × (contains port ports ≡ false)
    × ((q : ℕ) → from ≤ q → q < port → contains q ports ≡ true)

next_free-Free :
    (fuel : ℕ) (ports : List ℕ) (from : ℕ)
    → length (above from ports) < fuel
    → Free ports from (next_free fuel ports from)
unfolding next_free
next_free-Free zero ports from h = absurd (omega (arith, h))
next_free-Free (suc fuel) ports from h = elim (Bool-cases (contains from ports)) [
  | inr free ↦
      rw (next_free, free)
        (from, refl, omega arith, omega arith, free, λ q l u. absurd (omega (arith, l, u)))
  | inl used ↦
      let passes = above-passes from ports used in
      let (port, e, l, u, free, least) =
        next_free-Free fuel ports (from + 1) (omega (arith, h, passes)) in
      rw (next_free, used)
        (
          port,
          e,
          omega (arith, l),
          omega (arith, u, passes),
          free,
          λ q a b. elim (ℕ_discrete from q) [
            | yes same ↦ subst (λ x. contains x ports ≡ true) same used
            | no other ↦ least q (omega (arith, a, other)) b
          ],
        )
]

add_port-hit :
    (port : ℕ) (ports : List ℕ) → port ≢ 0 → contains port (add_port (some port) ports) ≡ true
unfolding contains
add_port-hit port ports ne = ground (arith, ne, nat_key.is_same_iff port 0, same_refl port)

add_port-keeps :
    (o : Option ℕ) (port : ℕ) (ports : List ℕ)
    → contains port ports ≡ true
    → contains port (add_port o ports) ≡ true
unfolding contains
add_port-keeps none port ports h = h
add_port-keeps (some q) port ports h = ground arith

contains-existing_ports :
    (rows : Dict ℕ Task) (id : ℕ) (t : Task) (port : ℕ)
    → Item id t rows
    → t.ssh_port ≡ some port
    → port ≢ 0
    → contains port (existing_ports rows) ≡ true
contains-existing_ports [] id t port i e ne = absurd i
contains-existing_ports ((j, q) ∷ rows) id t port (inl (same, row)) e ne =
    subst (λ o. contains port (add_port o (existing_ports rows)) ≡ true)
      (sym (ap (λ x. x.ssh_port) row ∙ e)) (add_port-hit port (existing_ports rows) ne)
contains-existing_ports ((j, q) ∷ rows) id t port (inr i) e ne =
    add_port-keeps q.ssh_port port (existing_ports rows)
      (contains-existing_ports rows id t port i e ne)

-- The allocated port.
abbrev pub IsLeastFree : Dict ℕ Task → ℕ → Type 0
IsLeastFree tasks port =
    let ports = existing_ports (keep (λ item. is_active_vps item.1) tasks) in
    (first_port ≤ port)
    × (port ≤ first_port + length ports)
    × ((id : ℕ) (t : Task) → Item id t tasks → is_active_vps t ≡ true → t.ssh_port ≢ some port)
    × ((q : ℕ) → first_port ≤ q → q < port → contains q ports ≡ true)

-- The loop ends: there is a port, and it is at most the number of ports in use above the first one.
-- No active VPS has it, and every smaller one from 2222 on is in use.
pub allocate_ssh_port-IsLeastFree :
    (tasks : Dict ℕ Task)
    → (port : ℕ) × (allocate_ssh_port tasks ≡ some port) × IsLeastFree tasks port
unfolding allocate_ssh_port
allocate_ssh_port-IsLeastFree tasks =
    let rows = keep (λ item. is_active_vps item.1) tasks in
    let ports = existing_ports rows in
    let few = length-keep-le (λ x. leb first_port x) ports in
    let (port, e, l, u, free, least) =
      next_free-Free (suc (length ports)) ports first_port (omega (arith, few)) in
    (
      port,
      e,
      (
        l,
        omega (arith, u, few),
        λ id t i active same. false-ne-true (
            sym free
            ∙ contains-existing_ports rows id t port
                (Item-keep_intro (λ item. is_active_vps item.1) tasks id t i active) same
                (λ z. omega (arith, z, l))),
        least,
      ),
    )
