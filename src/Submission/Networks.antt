-- ===== src/Submission/Networks.antt =====
-- src/kohakuriver/host/endpoints/task_submission.py, `_auto_allocate_flat_ips`: addresses for the flat
-- networks that a container joins, with the rollback when a network has none left. `draw` gives the
-- random choice on each network.
use kohaku_river.Common.{
  ℕ, ◌≡◌, sym, inl, inr, Bool, true, false, not, ◌||◌, Option, none, some, List, [], ◌∷◌, String,
  if◌then◌else◌, ◌==◌, nat_key, string_key, pair_key, Dict, get, put, Bool-cases, Option-cases,
}
use kohaku_river.Common.Result.{Result, ok, err, Result-cases, err-ne-ok}
use kohaku_river.Overlay.Subnet.{ValueError, is_flat}
use kohaku_river.Reservation.{Reservations, Network, IpReservation}
use kohaku_river.Reservation.Soundness.{IsSound}
use kohaku_river.Reservation.Methods.{auto_allocate_ip, release_by_container}
use kohaku_river.Reservation.Release.{is_of, release_by_container-exact}
use kohaku_river.Reservation.Preservation.{auto_allocate_ip-IsSound}

-- 503, or an exception of the manager, which is not caught.
pub data AllocationError : Type 0 where
  exhausted : String → AllocationError
  raised : ValueError → AllocationError

module _ (now : ℕ) (draw : String → ℕ) (networks : Dict String Network)
    (hostname container_name : String) where
  -- The loop over the networks.
  unfoldable pub allocate_flat :
      List String
      → Dict String ℕ
      → Reservations
      → Result AllocationError (Dict String ℕ) × Reservations
  unfolding is_flat auto_allocate_ip release_by_container get put
  allocate_flat [] allocated s = (ok allocated, s)
  allocate_flat (net_name ∷ names) allocated s =
      let again = λ (found : Dict String ℕ) (r : Reservations). allocate_flat names found r in
      elim (get net_name networks) [
        | none ↦ again allocated s
        | some network ↦
            if not (is_flat network.subnet_config)
            then again allocated s
            else let (result, s') =
                auto_allocate_ip now (draw net_name) (some network) hostname net_name container_name
                  s in
              elim result [
                | err e ↦ (err (raised e), s')
                | ok none ↦ (err (exhausted net_name), (release_by_container container_name s').1)
                | ok (some ip) ↦ again (put net_name ip allocated) s'
              ]
      ]

  -- `not primary_network_name or primary_network_name == net_name`
  abbrev pub is_primary : Option String → String → Bool
  is_primary none net_name = true
  is_primary (some primary) net_name = primary == "" || primary == net_name

  -- The first network keeps the address of an explicit reservation.
  unfoldable pub auto_allocate_flat_ips :
      List String
      → Option ℕ
      → Option String
      → Reservations
      → Result AllocationError (Dict String ℕ) × Reservations
  unfolding allocate_flat
  auto_allocate_flat_ips [] primary_reserved_ip primary_network_name s = (ok [], s)
  auto_allocate_flat_ips (net_name ∷ names) none primary_network_name s =
      allocate_flat (net_name ∷ names) [] s
  auto_allocate_flat_ips (net_name ∷ names) (some ip) primary_network_name s =
      if is_primary primary_network_name net_name
      then allocate_flat names ((net_name, ip) ∷ []) s
      else allocate_flat (net_name ∷ names) [] s

  -- No reservation is the container's.
  abbrev pub IsClear : Reservations → Type 0
  IsClear s =
      (key : String × ℕ) (r : IpReservation)
      → get key s.reservations ≡ some r
      → is_of container_name r ≡ false

  raised-ne-exhausted :
      (e : ValueError) (name : String)
      → ¬ (◌≡◌ {A = Result AllocationError (Dict String ℕ)} (err (raised e)) (err (exhausted name)))
  raised-ne-exhausted e name h = cc

  allocate_flat-IsClear :
      (names : List String) (allocated : Dict String ℕ) (s : Reservations) (name : String)
      → IsSound s
      → (allocate_flat names allocated s).0 ≡ err (exhausted name)
      → IsClear (allocate_flat names allocated s).1
  unfolding allocate_flat
  allocate_flat-IsClear [] allocated s name v h =
      absurd (err-ne-ok (exhausted name) allocated (sym h))
  allocate_flat-IsClear (net_name ∷ names) allocated s name v h =
      elim (Option-cases (get net_name networks)) [
        | inl unknown ↦
            rw (allocate_flat, unknown)
              (allocate_flat-IsClear names allocated s name v (rw (allocate_flat, unknown) at h))
        | inr (network, found) ↦ elim (Bool-cases (is_flat network.subnet_config)) [
          | inr private ↦
              rw (allocate_flat, found, private)
                (allocate_flat-IsClear names allocated s name v
                  (rw (allocate_flat, found, private) at h))
          | inl flat ↦
              let call =
                auto_allocate_ip now (draw net_name) (some network) hostname net_name container_name
                  s in
              let v' =
                auto_allocate_ip-IsSound now (draw net_name) (some network) hostname net_name
                  container_name s v in
              elim (Result-cases call.0) [
                | inr (e, failed) ↦
                    absurd
                      (raised-ne-exhausted e name (rw (allocate_flat, found, flat, failed) at h))
                | inl (none, full) ↦
                    rw (allocate_flat, found, flat, full)
                      (release_by_container-exact container_name call.1 v').1
                | inl (some ip, given) ↦
                    rw (allocate_flat, found, flat, given)
                      (allocate_flat-IsClear names (put net_name ip allocated) call.1 name v'
                        (rw (allocate_flat, found, flat, given) at h))
              ]
        ]
      ]

  -- If the allocation runs out of addresses on some network, no address stays reserved for the
  -- container on any.
  pub auto_allocate_flat_ips-IsClear :
      (names : List String) (primary_reserved_ip : Option ℕ) (primary_network_name : Option String)
      (s : Reservations) (name : String)
      → IsSound s
      → (auto_allocate_flat_ips names primary_reserved_ip primary_network_name s).0
        ≡ err (exhausted name)
      → IsClear (auto_allocate_flat_ips names primary_reserved_ip primary_network_name s).1
  unfolding auto_allocate_flat_ips
  auto_allocate_flat_ips-IsClear [] ip primary s name v h =
      absurd (err-ne-ok (exhausted name) [] (sym h))
  auto_allocate_flat_ips-IsClear (net_name ∷ names) none primary s name v h =
      allocate_flat-IsClear (net_name ∷ names) [] s name v h
  auto_allocate_flat_ips-IsClear (net_name ∷ names) (some ip) primary s name v h =
      elim (Bool-cases (is_primary primary net_name)) [
        | inl kept ↦
            rw (auto_allocate_flat_ips, kept)
              (allocate_flat-IsClear names ((net_name, ip) ∷ []) s name v
                (rw (auto_allocate_flat_ips, kept) at h))
        | inr other ↦
            rw (auto_allocate_flat_ips, other)
              (allocate_flat-IsClear (net_name ∷ names) [] s name v
                (rw (auto_allocate_flat_ips, other) at h))
      ]
