-- ===== src/Tunnel/Tests.antt =====
-- Frames on the wire, and the theorems about them at one.
use kohaku_river.Common.{
  ℕ, ◌<◌, ◌≡◌, refl, none, some, List, [], ◌∷◌, arith, nat_key, string_key, pair_key, All,
}
use kohaku_river.Tunnel.{
  TunnelHeader, build_message, parse_header, get_payload, pack_header, unpack_header,
}
use kohaku_river.Tunnel.Codec.{parse_header-build_message}

abbrev header : TunnelHeader
header = record { msg_type = 3; proto = 0; client_id = 66_051; port = 8_080 }

abbrev payload : List ℕ
payload = 104 ∷ 105 ∷ []

abbrev frame : List ℕ
frame = 3 ∷ 0 ∷ 0 ∷ 1 ∷ 2 ∷ 3 ∷ 31 ∷ 144 ∷ 104 ∷ 105 ∷ []

frame-built : build_message header payload ≡ some frame
unfolding build_message pack_header
frame-built = refl

frame-parsed : parse_header frame ≡ some header
unfolding parse_header unpack_header
frame-parsed = refl

frame-small : All (λ b. b < 256) frame
frame-small = ground arith

-- A port that needs 17 bits is refused.
port-refused : build_message (record header { port = 65_536 }) payload ≡ none
unfolding build_message pack_header
port-refused = refl

parse_header-build_message_example :
    (parse_header frame ≡ some header) × (get_payload frame ≡ payload)
parse_header-build_message_example = parse_header-build_message header payload frame frame-built
