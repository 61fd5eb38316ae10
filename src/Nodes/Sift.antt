-- ===== src/Nodes/Sift.antt =====
-- src/kohakuriver/host/services/node_manager.py, the loops of `find_suitable_node` and
-- `find_suitable_node_for_vm`: the nodes they keep, and where they raise.
use kohaku_river.Common.{
  ◌∙◌, ◌≡◌, refl, sym, ap, subst, inl, inr, Bool, true, [], ◌∷◌, String, if◌then◌else◌, nat_key,
  string_key, pair_key, Dict, Bool-cases,
}
use kohaku_river.Common.{Item}
use kohaku_river.Common.Result.{
  Result, ok, err, Result-cases, err-ne-ok, ok-injective, err-injective,
}
use kohaku_river.Tasks.Monitor.{Node}
use kohaku_river.Nodes.{sift}

-- What the loop keeps, and where it raises.
module _ {E : Type 0} (test : String → Node → Result E Bool) where
  sift-parts :
      (h : String) (n : Node) (nodes l : Dict String Node)
      → sift test ((h, n) ∷ nodes) ≡ ok l
      → (passes : Bool) × (others : Dict String Node) × (test h n ≡ ok passes)
        × (sift test nodes ≡ ok others)
        × ((if passes then (h, n) ∷ others else others) ≡ l)
  unfolding sift
  sift-parts h n nodes l e = elim (Result-cases (test h n)) [
    | inr (x, raised) ↦ absurd (err-ne-ok x l (rw (sift, raised) at e))
    | inl (passes, tested) ↦ elim (Result-cases (sift test nodes)) [
      | inr (x, raised) ↦ absurd (err-ne-ok x l (rw (sift, tested, raised) at e))
      | inl (others, sifted) ↦
          (passes, others, tested, sifted, ok-injective _ l (rw (sift, tested, sifted) at e))
    ]
  ]

  pub Item-sift :
      (nodes l : Dict String Node) (k : String) (m : Node)
      → sift test nodes ≡ ok l
      → Item k m l
      → Item k m nodes × (test k m ≡ ok true)
  unfolding sift
  Item-sift [] l k m e i = absurd (subst (Item k m) (sym (ok-injective [] l e)) i)
  Item-sift ((h, n) ∷ nodes) l k m e i =
      let (passes, others, tested, sifted, same) = sift-parts h n nodes l e in
      let later = Item-sift nodes others k m sifted in
      let j : Item k m (if passes then (h, n) ∷ others else others) =
        subst (Item k m) (sym same) i in
      elim (Bool-cases passes) [
        | inr fails ↦ let l = later (rw (fails) at j) in (inr l.0, l.1)
        | inl good ↦ elim (rw (good) at j) [
          | inl (f, g) ↦
              let fine : test h n ≡ ok true = tested ∙ ap ok good in
              (
                inl (f, g),
                subst (λ x. test k x ≡ ok true) g (subst (λ x. test x n ≡ ok true) f fine),
              )
          | inr q ↦ (inr (later q).0, (later q).1)
        ]
      ]

  pub sift-Item :
      (nodes l : Dict String Node) (k : String) (m : Node)
      → sift test nodes ≡ ok l
      → Item k m nodes
      → test k m ≡ ok true
      → Item k m l
  unfolding sift
  sift-Item [] l k m e i t = absurd i
  sift-Item ((h, n) ∷ nodes) l k m e i t =
      let (passes, others, tested, sifted, same) = sift-parts h n nodes l e in
      subst (Item k m) same (elim i [
        | inl (f, g) ↦
            let fine : test h n ≡ ok true =
              subst (λ x. test x n ≡ ok true) (sym f) (subst (λ x. test k x ≡ ok true) (sym g) t) in
            let good : passes ≡ true = ok-injective passes true (sym tested ∙ fine) in
            rw (good) (inl (f, g))
        | inr j ↦
            let rest = sift-Item nodes others k m sifted j t in
            elim (Bool-cases passes) [
              | inl good ↦ rw (good) (inr rest)
              | inr fails ↦ rw (fails) rest
            ]
      ])

  pub sift-raises :
      (nodes : Dict String Node) (x : E)
      → sift test nodes ≡ err x
      → (k : String) × (m : Node) × Item k m nodes × (test k m ≡ err x)
  unfolding sift
  sift-raises [] x e = absurd (err-ne-ok x [] (sym e))
  sift-raises ((h, n) ∷ nodes) x e = elim (Result-cases (test h n)) [
    | inr (y, raised) ↦
        (h, n, inl (refl, refl), raised ∙ ap err (err-injective y x (rw (sift, raised) at e)))
    | inl (passes, tested) ↦ elim (Result-cases (sift test nodes)) [
      | inl (others, sifted) ↦ absurd (err-ne-ok x _ (sym (rw (sift, tested, sifted) at e)))
      | inr (y, raised) ↦
          let (k, m, i, t) =
            sift-raises nodes x
              (raised ∙ ap err (err-injective y x (rw (sift, tested, raised) at e))) in
          (k, m, inr i, t)
    ]
  ]
