-- ===== src/Overlay/Names/Prefixes.antt =====
-- src/kohakuriver/host/services/overlay/manager.py: the devices of two networks have different names, and
-- so have the entries that a recovery makes.
use kohaku_river.Common.{
  ℕ, zero, suc, ◌+◌, ◌*◌, ◌/◌, ◌%◌, ◌≤◌, ◌<◌, ◌≡◌, ◌≢◌, refl, ap, ◌∙◌, sym, false, String, arith,
  Bool-cases, inl, inr,
}
use kohaku_river.Overlay.Names.{
  digit, underscore, other, symbol, chars, digits_loop, encode_runner_id, get_vxlan_device_name,
  network_prefix, decimal, runner_name_placeholder,
}
use kohaku_river.Overlay.Names.Digits.{chars-digit}
use text.Mathlib.Text.{starts_with}
use text.Mathlib.TextEquality.{starts_with_iff}
use text.Mathlib.TextLemmas.{append_cancel_left, append_assoc, cons-append, nil-append}
use Prim.Native.Char.{Char, char}
use Prim.Native.String.{[], ◌∷◌, ◌++◌, char_at}

-- The number that the digits before the first other character write.
unfoldable leading : ℕ → ℕ → String → ℕ
unfolding symbol
leading base value [] = value
leading base value (c ∷ text) = elim (symbol c) [
  | digit d ↦ leading base (value * base + d) text
  | underscore ↦ value
  | other ↦ value
]

leading-digit :
    (base value n : ℕ) (c : Char) (text : String)
    → symbol c ≡ digit n
    → leading base value (c ∷ text) ≡ leading base (value * base + n) text
unfolding leading
leading-digit base value n c text h = rw (h, leading) refl

digits_loop-append :
    (base fuel n : ℕ) (s t : String)
    → digits_loop base fuel n s ++ t ≡ digits_loop base fuel n (s ++ t)
unfolding digits_loop
digits_loop-append base zero n s t = refl
digits_loop-append base (suc fuel) zero s t = refl
digits_loop-append base (suc fuel) (suc n) s t =
    digits_loop-append base fuel (suc n / base) (char_at chars (suc n % base) ∷ s) t
    ∙ ap (digits_loop base fuel (suc n / base)) (cons-append (char_at chars (suc n % base)) s t)

module _ (base : ℕ) (splits : (n : ℕ) → n / base * base + n % base ≡ n)
    (small : (n : ℕ) → n % base < 36) (shrinks : (n : ℕ) → suc n / base ≤ n) where
  leading-digits_loop :
      (fuel n : ℕ) (text : String)
      → n ≤ fuel
      → leading base 0 (digits_loop base fuel n text) ≡ leading base n text
  unfolding digits_loop
  leading-digits_loop zero zero text h = refl
  leading-digits_loop zero (suc n) text h = absurd (omega arith)
  leading-digits_loop (suc fuel) zero text h = refl
  leading-digits_loop (suc fuel) (suc n) text h =
      leading-digits_loop fuel (suc n / base) (char_at chars (suc n % base) ∷ text)
        (omega (arith, shrinks n))
      ∙ leading-digit base (suc n / base) (suc n % base) (char_at chars (suc n % base)) text
          (chars-digit (suc n % base) (small (suc n)))
      ∙ ap (λ v. leading base v text) (splits (suc n))

-- An underscore ends the number.
leading-underscore : (base value : ℕ) (text : String) → leading base value ("_" ++ text) ≡ value
unfolding leading symbol
leading-underscore base value text = ap (leading base value) (cons-append (char 95 tt) [] text)

leading-encode_runner_id :
    (n : ℕ) (text : String) → leading 36 0 (encode_runner_id n ++ ("_" ++ text)) ≡ n
unfolding encode_runner_id leading symbol
leading-encode_runner_id zero text =
    ap (leading 36 0) (cons-append (char 48 tt) [] ("_" ++ text))
    ∙ ap (leading 36 0) (nil-append ("_" ++ text))
    ∙ leading-underscore 36 0 text
leading-encode_runner_id (suc n) text =
    ap (leading 36 0) (digits_loop-append 36 (suc n) (suc n) "" ("_" ++ text))
    ∙ leading-digits_loop 36 (λ k. omega arith) (λ k. omega arith) (λ k. omega arith) (suc n)
        (suc n) ("" ++ ("_" ++ text)) (omega arith)
    ∙ ap (leading 36 (suc n)) (nil-append ("_" ++ text))
    ∙ leading-underscore 36 (suc n) text

leading-decimal : (n : ℕ) → leading 10 0 (decimal n) ≡ n
unfolding decimal digits_loop leading
leading-decimal zero = refl
leading-decimal (suc n) =
    leading-digits_loop 10 (λ k. omega arith) (λ k. omega arith) (λ k. omega arith) (suc n) (suc n)
      "" (omega arith)

pub runner_name_placeholder-injective :
    (i j : ℕ) → runner_name_placeholder i ≡ runner_name_placeholder j → i ≡ j
unfolding runner_name_placeholder
runner_name_placeholder-injective i j h =
    sym (leading-decimal i)
    ∙ ap (leading 10 0) (append_cancel_left "runner_" (decimal i) (decimal j) h)
    ∙ leading-decimal j

regroup : (s t : String) → ("vx" ++ (s ++ "_")) ++ t ≡ "vx" ++ (s ++ ("_" ++ t))
regroup s t = append_assoc "vx" (s ++ "_") t ∙ ap (λ r. "vx" ++ r) (append_assoc s "_" t)

-- A prefix ends its number, so the texts after two of them may be any.
same_index :
    (i j n : ℕ) (rest : String)
    → network_prefix i ++ rest ≡ get_vxlan_device_name (network_prefix j) n
    → i ≡ j
same_index i j n rest e =
    sym (leading-encode_runner_id i rest)
    ∙ ap (leading 36 0) (
        append_cancel_left "vx" (encode_runner_id i ++ ("_" ++ rest))
          (encode_runner_id j ++ ("_" ++ encode_runner_id n))
          (sym (regroup (encode_runner_id i) rest)
            ∙ e
            ∙ regroup (encode_runner_id j) (encode_runner_id n)))
    ∙ leading-encode_runner_id j (encode_runner_id n)

-- The device names of one network do not begin with the prefix of a network with another index.
pub get_vxlan_device_name-apart :
    (i j n : ℕ)
    → i ≢ j
    → starts_with (get_vxlan_device_name (network_prefix j) n) (network_prefix i) ≡ false
get_vxlan_device_name-apart i j n apart =
    elim (Bool-cases
      (starts_with (get_vxlan_device_name (network_prefix j) n) (network_prefix i))) [
        | inr no_prefix ↦ no_prefix
        | inl a_prefix ↦
            let (rest, e) =
              (starts_with_iff (get_vxlan_device_name (network_prefix j) n) (network_prefix i)).0
                a_prefix in
            absurd (apart (same_index i j n rest e))
      ]
