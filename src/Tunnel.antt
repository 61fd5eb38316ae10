-- ===== src/Tunnel.antt =====
-- src/kohakuriver/tunnel/protocol.py: the frames of the tunnel between runner and container.
-- A `bytes` value is a list of numbers below 256.
pub mod Codec
mod Tests
use kohaku_river.Common.{
  ℕ, ◌+◌, ◌*◌, ◌/◌, ◌%◌, ◌^◌, ◌<◌, List, [], ◌∷◌, ◌++◌, Option, none, some, Bool, ◌&&◌, ltb,
  if◌then◌else◌, length, take, drop,
}

pub record TunnelHeader : Type 0 where
  pub msg_type : ℕ
  pub proto : ℕ
  pub client_id : ℕ
  pub port : ℕ

abbrev pub header_size : ℕ
header_size = 8

-- `struct.pack(">BBIH", ...)`, which raises `struct.error` on a field that does not fit.
pack_header : TunnelHeader → Option (List ℕ)
pack_header h =
    if ltb h.msg_type 256 && ltb h.proto 256 && ltb h.client_id (2 ^ 32) && ltb h.port (2 ^ 16)
    then some (
        h.msg_type
        ∷ h.proto
        ∷ (h.client_id / 2 ^ 24)
        ∷ (h.client_id / 2 ^ 16 % 256)
        ∷ (h.client_id / 2 ^ 8 % 256)
        ∷ (h.client_id % 256)
        ∷ (h.port / 256)
        ∷ (h.port % 256)
        ∷ [])
    else none

-- `struct.unpack(">BBIH", ...)`, which wants eight bytes.
unpack_header : List ℕ → Option TunnelHeader
unpack_header (t ∷ p ∷ c₃ ∷ c₂ ∷ c₁ ∷ c₀ ∷ p₁ ∷ p₀ ∷ []) = some (record {
  msg_type = t;
  proto = p;
  client_id = c₃ * 2 ^ 24 + c₂ * 2 ^ 16 + c₁ * 2 ^ 8 + c₀;
  port = p₁ * 256 + p₀;
})
unpack_header _ = none

pub build_message : TunnelHeader → List ℕ → Option (List ℕ)
unfolding pack_header
build_message h payload = elim (pack_header h) [
  | none ↦ none
  | some header ↦ some (header ++ payload)
]

pub parse_header : List ℕ → Option TunnelHeader
unfolding unpack_header
parse_header bytes =
    if ltb (length bytes) header_size then none else unpack_header (take header_size bytes)

pub get_payload : List ℕ → List ℕ
get_payload bytes = if ltb header_size (length bytes) then drop header_size bytes else []
