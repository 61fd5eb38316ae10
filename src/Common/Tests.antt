-- ===== src/Common/Tests.antt =====
-- Boolean tests, and equality of keys as an interface with instances.
use Prim.Native.Nat.{ℕ, compare, Ordering, ◌≤◌, ◌<◌}
use Prim.Native.String.{String}
use text.Mathlib.Text.{◌==◌ as str_eq}
use text.Mathlib.TextEquality.{eq_iff}
use mathlib.Core.Path.{◌≡◌, refl}
use mathlib.Core.Logic.{◌⊎◌, inl, inr, ◌↔◌, ◌≢◌}
use mathlib.Core.Bool.{Bool, true, false, ◌&&◌}
use mathlib.Core.Option.{Option, none, some}
use native.Mathlib.Omega.{arith}

abbrev pub ltb : ℕ → ℕ → Bool
ltb a b = elim (compare a b) [ Ordering.lt ↦ true | _ ↦ false ]

abbrev pub leb : ℕ → ℕ → Bool
leb a b = elim (compare a b) [ Ordering.gt ↦ false | _ ↦ true ]

abbrev pub nat_beq : ℕ → ℕ → Bool
nat_beq a b = elim (compare a b) [ Ordering.eq ↦ true | _ ↦ false ]

infix 1 if◌then◌else◌
abbrev pub if◌then◌else◌ {ℓ} : {A : Type ℓ} → Bool → A → A → A
if true then x else y = x
if false then x else y = y

pub ltb→lt : (a b : ℕ) → ltb a b ≡ true → a < b
ltb→lt a b h = ground arith

pub lt→ltb : (a b : ℕ) → a < b → ltb a b ≡ true
lt→ltb a b h = ground arith

pub leb→le : (a b : ℕ) → leb a b ≡ true → a ≤ b
leb→le a b h = ground arith

pub le→leb : (a b : ℕ) → a ≤ b → leb a b ≡ true
le→leb a b h = ground arith

pub nat_beq_iff : (a b : ℕ) → (nat_beq a b ≡ true) ↔ (a ≡ b)
nat_beq_iff a b = (λ h. ground arith, λ h. ground arith)

pub ruleset tests = (arith, ltb→lt, lt→ltb, leb→le, le→leb)

-- A computed test, split with its equation kept.
pub Bool-cases : (b : Bool) → (b ≡ true) ⊎ (b ≡ false)
Bool-cases true = inl refl
Bool-cases false = inr refl

pub Option-cases {ℓ} : {A : Type ℓ} (o : Option A) → (o ≡ none) ⊎ ((a : A) × (o ≡ some a))
Option-cases none = inl refl
Option-cases (some a) = inr (a, refl)

pub none-ne-some {ℓ} : {A : Type ℓ} (a : A) → ¬ (◌≡◌ {A = Option A} none (some a))
none-ne-some a h = cc

pub some-injective {ℓ} : {A : Type ℓ} (a b : A) → some a ≡ some b → a ≡ b
some-injective a b h = cc

pub false-ne-true : false ≢ true
false-ne-true h = cc

-- Python's `==` at the types used as dictionary keys.
pub record Key {ℓ} (A : Type ℓ) : Type ℓ where
  pub is_same : A → A → Bool
  pub is_same_iff : (a b : A) → (is_same a b ≡ true) ↔ (a ≡ b)

infix 50 ◌==◌
abbrev pub ◌==◌ {ℓ} : {A : Type ℓ} ⦃e : Key A⦄ → A → A → Bool
◌==◌ ⦃e⦄ = e.is_same

instance abbrev pub nat_key : Key ℕ
nat_key = record { is_same = nat_beq; is_same_iff = nat_beq_iff }

instance abbrev pub string_key : Key String
string_key = record { is_same = str_eq; is_same_iff = eq_iff }

module _ {ℓ κ} {A : Type ℓ} {B : Type κ} ⦃e : Key A⦄ ⦃f : Key B⦄ where
  abbrev pub pair_beq : A × B → A × B → Bool
  pair_beq p q = e.is_same p.0 q.0 && f.is_same p.1 q.1

  pub pair_beq_iff : (p q : A × B) → (pair_beq p q ≡ true) ↔ (p ≡ q)
  pair_beq_iff p q = (
    λ h. ground (arith, (e.is_same_iff p.0 q.0).0, (f.is_same_iff p.1 q.1).0),
    λ h. ground (arith, (e.is_same_iff p.0 q.0).1, (f.is_same_iff p.1 q.1).1),
  )

  instance abbrev pub pair_key : Key (A × B)
  pair_key = record { is_same = pair_beq; is_same_iff = pair_beq_iff }

module _ {ℓ} {A : Type ℓ} ⦃e : Key A⦄ where
  pub same_refl : (a : A) → (a == a) ≡ true
  same_refl a = (e.is_same_iff a a).1 refl

  pub eq_of_same : (a b : A) → (a == b) ≡ true → a ≡ b
  eq_of_same a b = (e.is_same_iff a b).0

  pub different_of_ne : (a b : A) → a ≢ b → (a == b) ≡ false
  different_of_ne a b h = elim (Bool-cases (a == b)) [
    | inl same ↦ absurd (h (eq_of_same a b same))
    | inr other ↦ other
  ]
