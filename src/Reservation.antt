-- ===== src/Reservation.antt =====
-- src/kohakuriver/host/services/ip_reservation.py: addresses reserved for containers.
-- Times are microseconds and arguments of the calls. Every method runs under the manager's lock,
-- so it is one step. `secrets.choice` is a draw, the number of the element that it picks.
pub mod Token
pub mod Pool
pub mod Methods
pub mod Once
pub mod Sets
pub mod Spent
pub mod Soundness
pub mod Preservation
pub mod Free
pub mod Safety
pub mod History
pub mod Release
pub mod Lifecycle
mod Tests
use kohaku_river.Common.{
  ℕ, zero, suc, ◌+◌, ◌-◌, ◌*◌, ◌/◌, ◌%◌, ◌^◌, ◌≤◌, ◌<◌, ◌≡◌, refl, sym, ap, subst, ◌∙◌, ◌≢◌, ◌⊎◌,
  inl, inr, Bool, true, false, not, ◌&&◌, ◌||◌, Option, none, some, List, [], ◌∷◌, ◌++◌, map, arith,
  String, if◌then◌else◌, ltb, leb, ◌==◌, nat_key, string_key, pair_key, length, get_elem?, take,
  keep, contains, Dict, get, put, del, Bool-cases, Option-cases, Key, eq_of_same, same_refl,
  get-put, get-del,
}
use kohaku_river.Common.Result.{Result, ok, err, ◌>>=◌, ◌>>◌, require, require_some, Result-cases}
use kohaku_river.Overlay.Subnet.{OverlaySubnetConfig, ValueError}
use kohaku_river.Overlay.Manager.{OverlayAllocation}
use Token.{Signer}

pub record IpReservation : Type 0 where
  pub ip : ℕ
  pub runner_name : String
  pub runner_id : ℕ
  pub token : String
  pub network_name : String
  pub expires_at : ℕ
  pub container_id : Option String

-- `datetime.now() > self.expires_at`
abbrev pub is_expired : ℕ → IpReservation → Bool
is_expired now r = ltb r.expires_at now

abbrev pub is_used : IpReservation → Bool
is_used r = elim r.container_id [ none ↦ false | some _ ↦ true ]

-- A network as the reservations see it: `_get_manager_for_network(name)`.
pub record Network : Type 0 where
  pub subnet_config : OverlaySubnetConfig
  pub allocations : Dict String OverlayAllocation

-- `_reservations`, `_token_to_key` and `_used_ips`.
pub record Reservations : Type 0 where
  pub reservations : Dict (String × ℕ) IpReservation
  pub token_to_key : Dict String (String × ℕ)
  pub used_ips : Dict (String × String) (List ℕ)

-- `set.add` and `set.discard`
unfoldable pub set_add : ℕ → List ℕ → List ℕ
unfolding contains
set_add ip ips = if contains ip ips then ips else ip ∷ ips

unfoldable pub set_discard : ℕ → List ℕ → List ℕ
unfolding keep
set_discard ip ips = keep (λ i. not (i == ip)) ips

module _ {K : Type 0} ⦃e : Key K⦄ where
  -- `self._used_ips.get(key, set())`
  unfoldable pub used_at : K → Dict K (List ℕ) → List ℕ
  used_at key used = elim (get key used) [ none ↦ [] | some ips ↦ ips ]

  -- `if key not in used: used[key] = set()` and `used[key].add(ip)`
  unfoldable pub add_used : K → ℕ → Dict K (List ℕ) → Dict K (List ℕ)
  unfolding used_at set_add
  add_used key ip used = put key (set_add ip (used_at key used)) used

  -- `if key in used: used[key].discard(ip)`
  unfoldable pub discard_used : K → ℕ → Dict K (List ℕ) → Dict K (List ℕ)
  unfolding set_discard
  discard_used key ip used = elim (get key used) [
    | none ↦ used
    | some ips ↦ put key (set_discard ip ips) used
  ]

-- `del self._reservations[key]`, and the token's entry if there is one.
unfoldable pub forget : String × ℕ → IpReservation → Reservations → Reservations
forget key r s = record s {
  reservations = del key s.reservations;
  token_to_key = del r.token s.token_to_key;
}

-- The loop of `_cleanup_expired_sync` over the entries that it found.
unfoldable pub forget_all : List ((String × ℕ) × IpReservation) → Reservations → Reservations
unfolding forget
forget_all [] s = s
forget_all ((key, r) ∷ items) s = forget_all items (forget key r s)

unfoldable pub cleanup_expired : ℕ → Reservations → Reservations
unfolding forget_all keep
cleanup_expired now s =
    forget_all (keep (λ item. is_expired now item.1 && not (is_used item.1)) s.reservations) s
