-- ===== src/Reservation/History.antt =====
-- Histories of calls on the reservation tables, and the addresses that they hand out.
use kohaku_river.Common.{
  ℕ, ◌≡◌, refl, sym, ap, subst, ◌∙◌, ◌≢◌, inl, inr, Bool, true, false, not, ◌&&◌, Option, some,
  List, [], ◌∷◌, arith, String, nat_key, string_key, pair_key, keep, contains, get, Bool-cases,
  Item, Item-del, Item-keep_intro, get-Item,
}
use kohaku_river.Common.Result.{ok}
use kohaku_river.Reservation.{
  Reservations, IpReservation, Network, used_at, is_expired, cleanup_expired, is_used, forget_all,
  forget,
}
use kohaku_river.Reservation.Methods.{
  reserve_ip, use_reservation, release_by_token, release_by_container, mark_ip_used, mark_ip_free,
  auto_allocate_ip,
}
use kohaku_river.Reservation.Token.{Signer}
use kohaku_river.Reservation.Soundness.{IsSound, cleanup_expired-IsSound}
use kohaku_river.Reservation.Preservation.{
  reserve_ip-IsSound, auto_allocate_ip-IsSound, use_reservation-IsSound,
  release_by_container-IsSound, release_by_token-IsSound, mark_ip_used-IsSound,
  mark_ip_free-IsSound,
}
use kohaku_river.Reservation.Safety.{auto_allocate_ip-free, reserve_ip-free}
use kohaku_river.Reservation.Free.{IsFree, Unheld}

-- The calls of the methods that change the tables, with the time and the draw of each.
pub data Call : Type 0 where
  reserve : ℕ → ℕ → Option Network → String → String → Option ℕ → Option ℕ → Call
  allocate : ℕ → ℕ → Option Network → String → String → String → Call
  use_token : ℕ → String → String → Option String → Option String → Call
  release_container : String → Call
  release_token : String → Call
  mark_used : String → ℕ → String → Call
  mark_free : String → ℕ → String → Call
  clean : ℕ → Call

module _ (k : Signer) (default_ttl : ℕ) where
  unfoldable pub step : Call → Reservations → Reservations
  step (reserve now draw network runner net ip ttl) s =
      (reserve_ip k default_ttl now draw network runner net ip ttl s).1
  step (allocate now draw network runner net container_id) s =
      (auto_allocate_ip now draw network runner net container_id s).1
  step (use_token now token container_id er en) s =
      (use_reservation k now token container_id er en s).1
  step (release_container container_id) s = (release_by_container container_id s).1
  step (release_token token) s = (release_by_token token s).1
  step (mark_used runner ip net) s = mark_ip_used runner ip net s
  step (mark_free runner ip net) s = mark_ip_free runner ip net s
  step (clean now) s = cleanup_expired now s

  unfoldable pub run : List Call → Reservations → Reservations
  unfolding step
  run [] s = s
  run (c ∷ calls) s = run calls (step c s)

  pub step-IsSound : (c : Call) (s : Reservations) → IsSound s → IsSound (step c s)
  unfolding step
  step-IsSound (reserve now draw network runner net ip ttl) s sound =
      reserve_ip-IsSound k default_ttl now draw network runner net ip ttl s sound
  step-IsSound (allocate now draw network runner net container_id) s sound =
      auto_allocate_ip-IsSound now draw network runner net container_id s sound
  step-IsSound (use_token now token container_id er en) s sound =
      use_reservation-IsSound k now token container_id er en s sound
  step-IsSound (release_container container_id) s sound =
      release_by_container-IsSound container_id s sound
  step-IsSound (release_token token) s sound = release_by_token-IsSound token s sound
  step-IsSound (mark_used runner ip net) s sound = mark_ip_used-IsSound runner ip net s sound
  step-IsSound (mark_free runner ip net) s sound = mark_ip_free-IsSound runner ip net s sound
  step-IsSound (clean now) s sound = cleanup_expired-IsSound now s sound

  pub run-IsSound : (calls : List Call) (s : Reservations) → IsSound s → IsSound (run calls s)
  unfolding run
  run-IsSound [] s sound = sound
  run-IsSound (c ∷ calls) s sound = run-IsSound calls (step c s) (step-IsSound c s sound)

-- The tables of a new manager.
abbrev pub empty : Reservations
empty = record { reservations = []; token_to_key = []; used_ips = [] }

pub empty-IsSound : IsSound empty
unfolding get
empty-IsSound = record { unique = tt; keyed = λ key r h. cc; tracked = λ key r h. cc }

Item-forget_all :
    (items : List ((String × ℕ) × IpReservation)) (key : String × ℕ) (r : IpReservation)
    (s : Reservations)
    → Item key r (forget_all items s).reservations
    → Item key r s.reservations × ((q : IpReservation) → ¬ Item key q items)
unfolding forget_all forget
Item-forget_all [] key r s i = (i, λ q j. j)
Item-forget_all ((j, p) ∷ items) key r s i =
    let rest = Item-forget_all items key r (forget j p s) i in
    let here = Item-del j key r s.reservations rest.0 in
    (here.0, λ q. elim [ inl same ↦ here.1 same.0 | inr later ↦ rest.1 q later ])

-- Nothing that is expired and not used is left.
pub Item-cleanup_expired :
    (now : ℕ) (key : String × ℕ) (r : IpReservation) (s : Reservations)
    → Item key r (cleanup_expired now s).reservations
    → Item key r s.reservations × ((is_expired now r && not (is_used r)) ≡ false)
unfolding cleanup_expired
Item-cleanup_expired now key r s i =
    let test : (String × ℕ) × IpReservation → Bool =
      λ item. is_expired now item.1 && not (is_used item.1) in
    let kept = Item-forget_all (keep test s.reservations) key r s i in
    elim (Bool-cases (test (key, r))) [
      | inl gone ↦ absurd (kept.1 r (Item-keep_intro test s.reservations key r kept.0 gone))
      | inr stays ↦ (kept.0, stays)
    ]

true-ne-false : true ≢ false
true-ne-false h = cc

-- An address that is free for a runner has no reservation of that runner, dead or alive.
pub IsFree-exclusive :
    (now : ℕ) (network : Network) (runner_name network_name : String) (ip : ℕ) (s : Reservations)
    (r : IpReservation)
    → IsSound s
    → IsFree now network runner_name network_name ip (cleanup_expired now s)
    → get (network_name, ip) (cleanup_expired now s).reservations ≡ some r
    → r.runner_name ≢ runner_name
unfolding IsFree Unheld
IsFree-exclusive now network runner_name network_name ip s r sound
      (a, first, last, host, found, range, at, bounds, unused, unheld) held same =
    let t = cleanup_expired now s in
    let item = get-Item (network_name, ip) r t.reservations held in
    let clean = Item-cleanup_expired now (network_name, ip) r s item in
    let sound' = cleanup_expired-IsSound now s sound in
    let key = sound'.keyed (network_name, ip) r held in
    elim (Bool-cases (is_used r)) [
      | inl used ↦
          let bound = sound'.tracked (network_name, ip) r held used in
          let here : contains ip (used_at (runner_name, network_name) t.used_ips) ≡ true =
            subst (λ q. contains q.1 (used_at (runner_name, q.0) t.used_ips) ≡ true) (sym key)
              (subst (λ n. contains r.ip (used_at (n, r.network_name) t.used_ips) ≡ true) same
                bound) in
          true-ne-false (sym here ∙ unused)
      | inr free ↦
          unheld (network_name, ip) r item (refl, same, ground arith) (sym (ap (λ q. q.1) key))
    ]

module _ (k : Signer) (default_ttl : ℕ) where
  -- Whatever calls came before, an address that `auto_allocate_ip` gives to a container of a runner
  -- is in no reservation that the runner still has once the expired ones are cleaned up.
  pub auto_allocate_ip-exclusive :
      (calls : List Call) (now draw : ℕ) (network : Network)
      (runner_name network_name container_id : String) (s' : Reservations) (i : ℕ)
      (r : IpReservation)
      → let s = run k default_ttl calls empty in
        auto_allocate_ip now draw (some network) runner_name network_name container_id s
          ≡ (ok (some i), s')
        → get (network_name, i) (cleanup_expired now s).reservations ≡ some r
        → r.runner_name ≢ runner_name
  auto_allocate_ip-exclusive calls now draw network runner_name network_name container_id s' i r h =
      let s = run k default_ttl calls empty in
      IsFree-exclusive now network runner_name network_name i s r
        (run-IsSound k default_ttl calls empty empty-IsSound)
        (auto_allocate_ip-free now draw network runner_name network_name container_id s s' i h).0

  -- The same of `reserve_ip`: whatever calls came before, no reservation of the runner has the
  -- address that it returns, neither one that waits nor one that a container uses.
  pub reserve_ip-exclusive :
      (calls : List Call) (now draw : ℕ) (network : Network) (runner_name network_name : String)
      (ip ttl : Option ℕ) (s' : Reservations) (q r : IpReservation)
      → let s = run k default_ttl calls empty in
        reserve_ip k default_ttl now draw (some network) runner_name network_name ip ttl s
          ≡ (ok (some q), s')
        → get (network_name, q.ip) (cleanup_expired now s).reservations ≡ some r
        → r.runner_name ≢ runner_name
  reserve_ip-exclusive calls now draw network runner_name network_name ip ttl s' q r h =
      let s = run k default_ttl calls empty in
      IsFree-exclusive now network runner_name network_name q.ip s r
        (run-IsSound k default_ttl calls empty empty-IsSound)
        (reserve_ip-free k default_ttl now draw network runner_name network_name ip ttl s s' q h).0
