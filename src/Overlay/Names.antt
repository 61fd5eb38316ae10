-- ===== src/Overlay/Names.antt =====
-- src/kohakuriver/host/services/overlay/manager.py: the names of a network's devices. A name ends in the
-- runner id in base 36. `int(text, 36)` is written out for text without white space and with the digits of
-- ASCII, as the kernel's names have them.
pub mod Digits
pub mod Prefixes
use kohaku_river.Common.{
  ℕ, zero, suc, ◌+◌, ◌-◌, ◌*◌, ◌/◌, ◌%◌, Bool, true, false, ◌&&◌, ◌||◌, Option, none, some, String,
  if◌then◌else◌, ltb, leb, ◌==◌, nat_key,
}
use kohaku_river.Common.Int.{ℤ, pos, negsuc, sub_ℕ}
use text.Mathlib.Text.{starts_with}
use Prim.Native.Char.{Char, code}
use Prim.Native.String.{[], ◌∷◌, ◌++◌, char_at, slice, len}

abbrev pub chars : String
chars = "0123456789abcdefghijklmnopqrstuvwxyz"

-- `while n: ...`, on fuel. A loop from n ends within n rounds, since each divides.
unfoldable pub digits_loop : ℕ → ℕ → ℕ → String → String
digits_loop base zero n result = result
digits_loop base (suc fuel) zero result = result
digits_loop base (suc fuel) (suc n) result =
    digits_loop base fuel (suc n / base) (char_at chars (suc n % base) ∷ result)

-- `_encode_runner_id`
unfoldable pub encode_runner_id : ℕ → String
unfolding digits_loop
encode_runner_id zero = "0"
encode_runner_id (suc n) = digits_loop 36 (suc n) (suc n) ""

-- What a character is to `int`.
pub data Symbol : Type 0 where
  digit : ℕ → Symbol
  underscore other : Symbol

unfoldable pub symbol : Char → Symbol
symbol c =
    let n = code c in
    if leb 48 n && leb n 57
    then digit (n - 48)
    else if leb 97 n && leb n 122
    then digit (n - 87)
    else if leb 65 n && leb n 90
    then digit (n - 55)
    else if n == 95
    then underscore
    else other

-- The digits of an `int` in base 36: one underscore may stand between two of them. The flag says that
-- the character before was a digit.
unfoldable pub number : Bool → ℕ → String → Option ℕ
unfolding symbol
number true value [] = some value
number false value [] = none
number after_digit value (c ∷ text) = elim (symbol c) [
  | digit d ↦ number true (value * 36 + d) text
  | underscore ↦ elim after_digit [ true ↦ number false value text | false ↦ none ]
  | other ↦ none
]

-- `int(text, 36)`: 43 is a plus, 45 is a minus.
unfoldable pub int_36 : String → Option ℤ
unfolding number
int_36 [] = none
int_36 (c ∷ text) =
    if code c == 45
    then elim (number false 0 text) [ none ↦ none | some n ↦ some (sub_ℕ 0 n) ]
    else if code c == 43
    then elim (number false 0 text) [ none ↦ none | some n ↦ some (pos n) ]
    else elim (number false 0 (c ∷ text)) [ none ↦ none | some n ↦ some (pos n) ]

-- `_decode_runner_id`
abbrev pub decode_runner_id : String → Option ℤ
decode_runner_id encoded = if len encoded == 0 then none else int_36 encoded

-- A number that is a runner id of a network with so many runners.
abbrev pub in_runners : ℕ → Option ℤ → Option ℕ
in_runners most none = none
in_runners most (some (negsuc n)) = none
in_runners most (some (pos n)) = if ltb n 1 || ltb most n then none else some n

-- `_get_vxlan_device_name`
abbrev pub get_vxlan_device_name : String → ℕ → String
get_vxlan_device_name vxlan_prefix runner_id = vxlan_prefix ++ encode_runner_id runner_id

-- `_parse_vxlan_device_name`
unfoldable pub parse_vxlan_device_name : String → ℕ → String → Option ℕ
unfolding int_36
parse_vxlan_device_name vxlan_prefix max_runners device_name =
    if starts_with device_name vxlan_prefix
    then in_runners max_runners
        (decode_runner_id (slice device_name (len vxlan_prefix) (len device_name)))
    else none

-- The prefix of a network of several, `f"vx{self._encode_runner_id(network_index)}_"`, and of the only one.
abbrev pub network_prefix : ℕ → String
network_prefix network_index = "vx" ++ (encode_runner_id network_index ++ "_")

abbrev pub vxlan_prefix : String
vxlan_prefix = "vxkr"

-- `f"runner_{runner_id}"`: the name of an entry whose runner is not known.
unfoldable pub decimal : ℕ → String
unfolding digits_loop
decimal zero = "0"
decimal (suc n) = digits_loop 10 (suc n) (suc n) ""

unfoldable pub runner_name_placeholder : ℕ → String
unfolding decimal
runner_name_placeholder runner_id = "runner_" ++ decimal runner_id
