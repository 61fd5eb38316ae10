-- ===== src/Nodes/Vm/Accept.antt =====
-- src/kohakuriver/host/services/node_manager.py, the loop of `find_suitable_node_for_vm`: what a node that
-- passes it has, and when it raises.
use kohaku_river.Common.{
  ℕ, ◌≢◌, ◌↔◌, List, In, false-ne-true, ◌≡◌, refl, sym, Bool, true, false, not, ◌&&◌, Option, none,
  some, [], ◌∷◌, arith, String, if◌then◌else◌, nat_key, string_key, pair_key, Dict,
}
use kohaku_river.Common.Int.{pos, ltb_ℤ, ◌≤ℤ◌}
use kohaku_river.Common.Result.{Result, ok, err, err-ne-ok, ok-injective}
use kohaku_river.Tasks.{Task}
use kohaku_river.Tasks.Monitor.{Node}
use kohaku_river.Nodes.{
  Requirements, enough_memory, get_node_available_gpus, get_node_available_memory,
  get_node_available_cores,
}
use kohaku_river.Nodes.Vm.{
  VmError, unordered_ids, Rejection, insufficient_cores, insufficient_memory, missing_gpus,
  has_none, has_number, reject, is_accepted,
}
use kohaku_river.Nodes.Needs.{HasMemory, enough_cores_iff, enough_memory_iff}
use kohaku_river.Nodes.Vm.Gpus.{
  HasVfio, lacking, lacking_iff, cons-ne-nil, has_none-In, has_number-In,
}

-- The node has the cores and the memory left.
abbrev pub HasRoom : Dict ℕ Task → Requirements → String → Node → Type 0
HasRoom tasks r h n =
    (pos r.required_cores ≤ℤ get_node_available_cores tasks h n)
    × HasMemory r.required_memory_bytes (get_node_available_memory tasks h n)

abbrev pub HasGpus : Dict ℕ Task → Requirements → String → Node → Type 0
HasGpus tasks r h n = HasVfio (get_node_available_gpus tasks h n) n.vfio_gpus r.required_gpus

-- The tests of the loop, in order.
abbrev tests :
    Bool → Bool → Rejection → Rejection → List ℕ → Bool → String → Result VmError (Option Rejection)
tests few enough a b missing mixed hostname =
    if few then ok (some a) else if not enough then ok (some b) else elim missing [
      | [] ↦ ok none
      | gpu ∷ gpus ↦
          if mixed then err unordered_ids else ok (some (missing_gpus hostname (gpu ∷ gpus)))
    ]

module _ (a b : Rejection) (hostname : String) where
  tests-ok :
      (few enough : Bool) (missing : List ℕ) (mixed : Bool)
      → is_accepted (tests few enough a b missing mixed hostname) ≡ ok true
      → (few ≡ false) × (enough ≡ true) × (missing ≡ [])
  tests-ok true enough missing mixed e = absurd (false-ne-true (ok-injective false true e))
  tests-ok false false missing mixed e = absurd (false-ne-true (ok-injective false true e))
  tests-ok false true [] mixed e = (refl, refl, refl)
  tests-ok false true (gpu ∷ gpus) true e = absurd (err-ne-ok unordered_ids true e)
  tests-ok false true (gpu ∷ gpus) false e = absurd (false-ne-true (ok-injective false true e))

  tests-err :
      (few enough : Bool) (missing : List ℕ) (mixed : Bool) (x : VmError)
      → is_accepted (tests few enough a b missing mixed hostname) ≡ err x
      → (few ≡ false) × (enough ≡ true) × (missing ≢ []) × (mixed ≡ true)
  tests-err true enough missing mixed x e = absurd (err-ne-ok x false (sym e))
  tests-err false false missing mixed x e = absurd (err-ne-ok x false (sym e))
  tests-err false true [] mixed x e = absurd (err-ne-ok x true (sym e))
  tests-err false true (gpu ∷ gpus) true x e = (refl, refl, cons-ne-nil gpu gpus, refl)
  tests-err false true (gpu ∷ gpus) false x e = absurd (err-ne-ok x false (sym e))

  tests-open :
      (few enough : Bool) (missing : List ℕ) (mixed : Bool)
      → few ≡ false
      → enough ≡ true
      → missing ≡ []
      → is_accepted (tests few enough a b missing mixed hostname) ≡ ok true
  tests-open few enough missing mixed f e m = rw (f, e, m) refl

abbrev pub accepts : Dict ℕ Task → Requirements → String → Node → Result VmError Bool
accepts tasks r h n = is_accepted (reject tasks r h n)

abbrev few : Dict ℕ Task → Requirements → String → Node → Bool
few tasks r h n = ltb_ℤ (get_node_available_cores tasks h n) (pos r.required_cores)

abbrev enough : Dict ℕ Task → Requirements → String → Node → Bool
enough tasks r h n = enough_memory r.required_memory_bytes (get_node_available_memory tasks h n)

abbrev missing : Dict ℕ Task → Requirements → String → Node → List ℕ
missing tasks r h n = lacking (get_node_available_gpus tasks h n) n.vfio_gpus r.required_gpus

module _ (tasks : Dict ℕ Task) (r : Requirements) (h : String) (n : Node) where
  cores_iff :
      (few tasks r h n ≡ false) ↔ (pos r.required_cores ≤ℤ get_node_available_cores tasks h n)
  cores_iff = enough_cores_iff r.required_cores (get_node_available_cores tasks h n)

  memory_iff :
      (enough tasks r h n ≡ true)
      ↔ HasMemory r.required_memory_bytes (get_node_available_memory tasks h n)
  memory_iff = enough_memory_iff r.required_memory_bytes (get_node_available_memory tasks h n)

  gpus_iff : (missing tasks r h n ≡ []) ↔ HasGpus tasks r h n
  gpus_iff = lacking_iff (get_node_available_gpus tasks h n) n.vfio_gpus r.required_gpus

  abbrev on_cores : Rejection
  on_cores = insufficient_cores h (get_node_available_cores tasks h n) r.required_cores

  pub accepts-ok : accepts tasks r h n ≡ ok true → HasRoom tasks r h n × HasGpus tasks r h n
  unfolding reject
  accepts-ok e =
      let (f, m, g) =
        tests-ok on_cores (insufficient_memory h) h (few tasks r h n) (enough tasks r h n)
          (missing tasks r h n) (has_none n.vfio_gpus && has_number n.vfio_gpus) e in
      ((cores_iff.0 f, memory_iff.0 m), gpus_iff.0 g)

  pub ok-accepts : HasRoom tasks r h n → HasGpus tasks r h n → accepts tasks r h n ≡ ok true
  unfolding reject
  ok-accepts (f, m) g =
      tests-open on_cores (insufficient_memory h) h (few tasks r h n) (enough tasks r h n)
        (missing tasks r h n) (has_none n.vfio_gpus && has_number n.vfio_gpus) (cores_iff.1 f)
        (memory_iff.1 m) (gpus_iff.1 g)

  pub accepts-err :
      (x : VmError)
      → accepts tasks r h n ≡ err x
      → HasRoom tasks r h n
        × (¬ HasGpus tasks r h n)
        × In none n.vfio_gpus
        × ((id : ℕ) × In (some id) n.vfio_gpus)
  unfolding reject
  accepts-err x e =
      let (f, m, some_missing, mixed) =
        tests-err on_cores (insufficient_memory h) h (few tasks r h n) (enough tasks r h n)
          (missing tasks r h n) (has_none n.vfio_gpus && has_number n.vfio_gpus) x e in
      (
        (cores_iff.0 f, memory_iff.0 m),
        (λ g. some_missing (gpus_iff.1 g)),
        has_none-In n.vfio_gpus (ground (arith, mixed)),
        has_number-In n.vfio_gpus (ground (arith, mixed)),
      )
