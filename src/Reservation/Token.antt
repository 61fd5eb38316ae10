-- ===== src/Reservation/Token.antt =====
-- The reservation tokens. `sign` is `_generate_token`'s JSON, SHA-256 and base64; `unsign` is the
-- way back with the comparison of the signatures. They stand on Python's library alone.
use kohaku_river.Common.{
  ℕ, ◌*◌, ◌/◌, ◌≡◌, Option, none, some, String, if◌then◌else◌, ltb, nat_key, string_key, pair_key,
}

pub record Payload : Type 0 where
  pub ip : ℕ
  pub runner : String
  pub exp : ℕ
  pub net : String

abbrev pub microseconds : ℕ
microseconds = 1_000_000

pub record Signer : Type 0 where
  pub sign : Payload → String
  pub unsign : String → Option Payload

-- What the library documents: decoding undoes encoding, and hashing is a function.
pub record IsFaithful (k : Signer) (p : Payload) : Type 0 where
  pub unsign-sign : k.unsign (k.sign p) ≡ some p

abbrev pub payload_of : ℕ → String → ℕ → String → Payload
payload_of ip runner_name expires_at network_name = record {
  ip = ip;
  runner = runner_name;
  exp = expires_at / microseconds;
  net = network_name;
}

module _ (k : Signer) where
  unfoldable pub generate_token : ℕ → String → ℕ → String → String
  generate_token ip runner_name expires_at network_name =
      k.sign (payload_of ip runner_name expires_at network_name)

  -- `payload["exp"] < time.time()`
  unfoldable pub verify_token : ℕ → String → Option Payload
  verify_token now token = elim (k.unsign token) [
    | none ↦ none
    | some p ↦ if ltb (p.exp * microseconds) now then none else some p
  ]
