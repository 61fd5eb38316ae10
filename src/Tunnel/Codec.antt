-- ===== src/Tunnel/Codec.antt =====
-- Frames survive the wire in both directions.
use kohaku_river.Common.{ℕ, ◌<◌, ◌≡◌, List, ◌∷◌, some, All, arith}
use kohaku_river.Tunnel.{TunnelHeader, build_message, parse_header, get_payload}

-- Whatever `build_message` accepts is read back: the header by `parse_header`, the rest by
-- `get_payload`.
pub parse_header-build_message :
    (h : TunnelHeader) (payload bytes : List ℕ)
    → build_message h payload ≡ some bytes
    → (parse_header bytes ≡ some h) × (get_payload bytes ≡ payload)
unfolding build_message parse_header get_payload
parse_header-build_message h payload bytes e = ground arith

-- A frame of at least eight bytes is rebuilt exactly from what is read off it.
pub build_message-parse_header :
    (bytes : List ℕ) (h : TunnelHeader)
    → All (λ b. b < 256) bytes
    → parse_header bytes ≡ some h
    → build_message h (get_payload bytes) ≡ some bytes
unfolding build_message parse_header get_payload
build_message-parse_header (t ∷ p ∷ c₃ ∷ c₂ ∷ c₁ ∷ c₀ ∷ p₁ ∷ p₀ ∷ rest) h small e = ground arith
build_message-parse_header _ h small e = ground arith
