-- ===== src/Overlay/Names/Digits.antt =====
-- src/kohakuriver/host/services/overlay/manager.py: the device names of runner ids are read back.
use kohaku_river.Common.{
  ℕ, zero, suc, ◌+◌, ◌*◌, ◌/◌, ◌%◌, ◌≤◌, ◌<◌, ◌≡◌, ◌≢◌, ◌⊎◌, inl, inr, refl, ap, ◌∙◌, sym, Bool,
  true, false, ◌&&◌, ◌||◌, ℕ_discrete, some, String, arith, nat_key, ◌==◌,
}
use kohaku_river.Common.Int.{pos}
use kohaku_river.Overlay.Names.{
  Symbol, digit, underscore, other, symbol, chars, digits_loop, encode_runner_id, number, int_36,
  parse_vxlan_device_name, get_vxlan_device_name, decode_runner_id,
}
use text.Mathlib.TextLemmas.{cons-ne-nil}
use text.Mathlib.TextPositions.{len_utf8-pos, starts_with-append, len-append, slice-append_right}
use Prim.Native.Char.{Char, code}
use Prim.Native.String.len
use Prim.Native.String.{◌∷◌, char_at}

-- The digit at each place of `chars` below n has the place as its value.
abbrev digit_at : ℕ → Symbol → Bool
digit_at n (digit d) = n == d
digit_at n underscore = false
digit_at n other = false

unfoldable digits_below : ℕ → Bool
unfolding symbol
digits_below zero = true
digits_below (suc n) = digits_below n && digit_at n (symbol (char_at chars n))

all_digits : digits_below 36 ≡ true
unfolding digits_below
all_digits = refl

digit_at-symbol : (n : ℕ) (s : Symbol) → digit_at n s ≡ true → s ≡ digit n
digit_at-symbol n (digit d) h = ap digit (ground arith)
digit_at-symbol n underscore h = cc
digit_at-symbol n other h = cc

and-both : (a b : Bool) → a && b ≡ true → (a ≡ true) × (b ≡ true)
and-both true b h = (refl, h)
and-both false b h = cc

below-digit : (k n : ℕ) → digits_below k ≡ true → n < k → symbol (char_at chars n) ≡ digit n
unfolding digits_below
below-digit zero n h l = absurd (omega arith)
below-digit (suc k) n h l =
    let (before, here) = and-both (digits_below k) (digit_at k (symbol (char_at chars k))) h in
    elim (ℕ_discrete n k) [
      | yes same ↦ rw same (digit_at-symbol k (symbol (char_at chars k)) here)
      | no apart ↦ below-digit k n before (omega arith)
    ]

pub chars-digit : (n : ℕ) → n < 36 → symbol (char_at chars n) ≡ digit n
chars-digit n h = below-digit 36 n all_digits h

-- Reading what the loop wrote goes on from the number that it wrote.
abbrev is_positive : ℕ → Bool
is_positive zero = false
is_positive (suc n) = true

digit-step :
    (b : Bool) (value n : ℕ) (c : Char) (text : String)
    → symbol c ≡ digit n
    → number b value (c ∷ text) ≡ number true (value * 36 + n) text
unfolding number
digit-step true value n c text h = rw (h, number) refl
digit-step false value n c text h = rw (h, number) refl

or_true : (b : Bool) → b || true ≡ true
or_true true = refl
or_true false = refl

number-digits_loop :
    (fuel n : ℕ) (b : Bool) (text : String)
    → n ≤ fuel
    → number b 0 (digits_loop 36 fuel n text) ≡ number (b || is_positive n) n text
unfolding digits_loop
number-digits_loop zero zero true text h = refl
number-digits_loop zero zero false text h = refl
number-digits_loop zero (suc n) b text h = absurd (omega arith)
number-digits_loop (suc fuel) zero true text h = refl
number-digits_loop (suc fuel) zero false text h = refl
number-digits_loop (suc fuel) (suc n) b text h =
    number-digits_loop fuel (suc n / 36) b (char_at chars (suc n % 36) ∷ text) (omega arith)
    ∙ digit-step (b || is_positive (suc n / 36)) (suc n / 36) (suc n % 36)
        (char_at chars (suc n % 36)) text (chars-digit (suc n % 36) (omega arith))
    ∙ rw (or_true b) (ap (λ v. number true v text) (omega arith))

-- The first character of a positive number is a digit, so no sign.
head_digit :
    (fuel n : ℕ) (c : Char) (text : String)
    → n ≤ fuel
    → (d : Char) × (rest : String) × (digits_loop 36 fuel n (c ∷ text) ≡ d ∷ rest)
      × ((d ≡ c) ⊎ ((k : ℕ) × (symbol d ≡ digit k)))
unfolding digits_loop
head_digit zero n c text h = (c, text, refl, inl refl)
head_digit (suc fuel) zero c text h = (c, text, refl, inl refl)
head_digit (suc fuel) (suc n) c text h =
    let x = char_at chars (suc n % 36) in
    let is_digit : symbol x ≡ digit (suc n % 36) = chars-digit (suc n % 36) (omega arith) in
    let (d, rest, e, first) = head_digit fuel (suc n / 36) x (c ∷ text) (omega arith) in
    (
      d,
      rest,
      e,
      elim first [ inl same ↦ inr (suc n % 36, ap symbol same ∙ is_digit) | inr found ↦ inr found ],
    )

no_sign : (d : Char) (k : ℕ) → symbol d ≡ digit k → (code d ≢ 45) × (code d ≢ 43)
unfolding symbol
no_sign d k h = ground arith

-- A text that begins with a digit is read as its number.
int_36-digit :
    (d : Char) (rest : String) (k n : ℕ)
    → symbol d ≡ digit k
    → number false 0 (d ∷ rest) ≡ some n
    → int_36 (d ∷ rest) ≡ some (pos n)
unfolding int_36
int_36-digit d rest k n h e = let (minus, plus) = no_sign d k h in rw (e, int_36) (ground arith)

begins_with_digit :
    (n : ℕ)
    → 1 ≤ n
    → (d : Char) × (rest : String) × (k : ℕ) × (encode_runner_id n ≡ d ∷ rest)
      × (symbol d ≡ digit k)
unfolding encode_runner_id digits_loop
begins_with_digit zero h = absurd (omega arith)
begins_with_digit (suc n) h =
    let x = char_at chars (suc n % 36) in
    let is_digit : symbol x ≡ digit (suc n % 36) = chars-digit (suc n % 36) (omega arith) in
    let (d, rest, e, first) = head_digit n (suc n / 36) x "" (omega arith) in
    elim first [
      | inl same ↦ (d, rest, suc n % 36, e, ap symbol same ∙ is_digit)
      | inr (k, found) ↦ (d, rest, k, e, found)
    ]

number-encode_runner_id : (n : ℕ) → 1 ≤ n → number false 0 (encode_runner_id n) ≡ some n
unfolding encode_runner_id number
number-encode_runner_id zero h = absurd (omega arith)
number-encode_runner_id (suc n) h = number-digits_loop (suc n) (suc n) false "" (omega arith)

pub encode_runner_id-ne-nil : (n : ℕ) → 1 ≤ n → encode_runner_id n ≢ ""
encode_runner_id-ne-nil n h e =
    let (d, rest, k, shape, leading) = begins_with_digit n h in cons-ne-nil d rest (sym shape ∙ e)

-- A name that is read gives an id in range.
pub parse_vxlan_device_name-range :
    (vxlan_prefix name : String) (max_runners n : ℕ)
    → parse_vxlan_device_name vxlan_prefix max_runners name ≡ some n
    → (1 ≤ n) × (n ≤ max_runners)
unfolding parse_vxlan_device_name
parse_vxlan_device_name-range vxlan_prefix name max_runners n h = ground arith

decode_runner_id-encode_runner_id :
    (n : ℕ) → 1 ≤ n → decode_runner_id (encode_runner_id n) ≡ some (pos n)
decode_runner_id-encode_runner_id n h =
    let (d, rest, k, e, leading) = begins_with_digit n h in
    let (j, wide) = len_utf8-pos d in
    let read =
      int_36-digit d rest k n leading (ap (number false 0) (sym e) ∙ number-encode_runner_id n h) in
    rw e (ground (arith, wide, len.cons d rest))

-- The device of a runner id tells the id, for any prefix and any id in range.
pub parse_vxlan_device_name-get_vxlan_device_name :
    (vxlan_prefix : String) (max_runners n : ℕ)
    → 1 ≤ n
    → n ≤ max_runners
    → parse_vxlan_device_name vxlan_prefix max_runners (get_vxlan_device_name vxlan_prefix n)
      ≡ some n
unfolding parse_vxlan_device_name
parse_vxlan_device_name-get_vxlan_device_name vxlan_prefix max_runners n low high =
    rw
      (
        starts_with-append vxlan_prefix (encode_runner_id n),
        len-append vxlan_prefix (encode_runner_id n),
        slice-append_right vxlan_prefix (encode_runner_id n),
      )
      (rw (decode_runner_id-encode_runner_id n low) (ground arith))
