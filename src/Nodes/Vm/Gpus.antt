-- ===== src/Nodes/Vm/Gpus.antt =====
-- src/kohakuriver/host/services/node_manager.py, `find_suitable_node_for_vm`: the GPUs it finds missing.
use kohaku_river.Common.{
  ℕ, ◌≢◌, ◌↔◌, ◌∙◌, List, In, All, contains, false-ne-true, ◌≡◌, refl, sym, ap, inl, inr, true, not,
  ◌&&◌, Option, none, some, [], ◌∷◌, arith, ◌==◌, nat_key, string_key, pair_key, keep, Bool-cases,
  none-ne-some, some-injective,
}
use kohaku_river.Nodes.Vm.{vfio_gpu_ids, has_none, has_number}
use kohaku_river.Nodes.Needs.{contains_iff}

-- Each of the GPUs is available and bound to VFIO.
abbrev pub HasVfio : List ℕ → List (Option ℕ) → List ℕ → Type 0
HasVfio available vfio_gpus gpus = All (λ gpu. In gpu available × In (some gpu) vfio_gpus) gpus

contains-keep :
    (available ids : List ℕ) (gpu : ℕ)
    → contains gpu (keep (λ x. contains x available) ids)
      ≡ (contains gpu available && contains gpu ids)
unfolding keep contains
contains-keep available [] gpu = ground arith
contains-keep available (id ∷ ids) gpu =
    ground (arith, contains-keep available ids gpu, nat_key.is_same_iff id gpu)

contains-vfio_gpu_ids :
    (gpu : ℕ) (ids : List (Option ℕ)) → (contains gpu (vfio_gpu_ids ids) ≡ true) ↔ In (some gpu) ids
unfolding contains
contains-vfio_gpu_ids gpu [] = (λ h. false-ne-true h, λ i. absurd i)
contains-vfio_gpu_ids gpu (none ∷ ids) = (
  λ h. inr ((contains-vfio_gpu_ids gpu ids).0 h),
  λ i. elim i [ inl e ↦ absurd (none-ne-some gpu e) | inr j ↦ (contains-vfio_gpu_ids gpu ids).1 j ],
)
contains-vfio_gpu_ids gpu (some id ∷ ids) =
    let rest = contains-vfio_gpu_ids gpu ids in
    (
      λ h. elim (Bool-cases (id == gpu)) [
        | inl same ↦ inl (ap some ((nat_key.is_same_iff id gpu).0 same))
        | inr other ↦ inr (rest.0 (ground (arith, other)))
      ],
      λ i. elim i [
        | inl e ↦ ground (arith, (nat_key.is_same_iff id gpu).1 (some-injective id gpu e))
        | inr j ↦ ground (arith, rest.1 j)
      ],
    )

pub has_none-In : (ids : List (Option ℕ)) → has_none ids ≡ true → In none ids
has_none-In [] h = absurd (false-ne-true h)
has_none-In (none ∷ ids) h = inl refl
has_none-In (some id ∷ ids) h = inr (has_none-In ids h)

pub has_number-In : (ids : List (Option ℕ)) → has_number ids ≡ true → (id : ℕ) × In (some id) ids
has_number-In [] h = absurd (false-ne-true h)
has_number-In (none ∷ ids) h = let (id, i) = has_number-In ids h in (id, inr i)
has_number-In (some id ∷ ids) h = (id, inl refl)

pub cons-ne-nil : (x : ℕ) (l : List ℕ) → x ∷ l ≢ []
cons-ne-nil x l h = cc

-- The GPUs of the request that the node cannot give.
abbrev pub lacking : List ℕ → List (Option ℕ) → List ℕ → List ℕ
lacking available ids gpus =
    keep (λ gpu. not (contains gpu (keep (λ x. contains x available) (vfio_gpu_ids ids)))) gpus

both_iff :
    (available : List ℕ) (ids : List (Option ℕ)) (gpu : ℕ)
    → (contains gpu (keep (λ x. contains x available) (vfio_gpu_ids ids)) ≡ true)
      ↔ (In gpu available × In (some gpu) ids)
both_iff available ids gpu =
    let both = contains-keep available (vfio_gpu_ids ids) gpu in
    (
      λ h. (
        (contains_iff gpu available).0 (ground (arith, both)),
        (contains-vfio_gpu_ids gpu ids).0 (ground (arith, both)),
      ),
      λ (i, j).
          ground
            (arith, both, (contains_iff gpu available).1 i, (contains-vfio_gpu_ids gpu ids).1 j),
    )

pub lacking_iff :
    (available : List ℕ) (ids : List (Option ℕ)) (gpus : List ℕ)
    → (lacking available ids gpus ≡ []) ↔ HasVfio available ids gpus
unfolding keep
lacking_iff available ids [] = (λ h. tt, λ h. refl)
lacking_iff available ids (gpu ∷ gpus) =
    let rest = lacking_iff available ids gpus in
    let here = both_iff available ids gpu in
    elim (Bool-cases (contains gpu (keep (λ x. contains x available) (vfio_gpu_ids ids)))) [
      | inl found ↦ (
        λ h. (here.0 found, rest.0 (rw (keep, found) at h)),
        λ (i, more). rw (keep, found) (rest.1 more),
      )
      | inr missing ↦ (
        λ h. absurd (cons-ne-nil gpu _ (rw (keep, missing) at h)),
        λ (i, more). absurd (false-ne-true (sym missing ∙ here.1 i)),
      )
    ]
