-- ===== src/Reservation/Once.antt =====
-- src/kohakuriver/host/services/ip_reservation.py: a token is used once, whatever calls follow.
use kohaku_river.Common.{
  ℕ, ◌≡◌, Bool, true, false, Option, none, some, List, [], ◌∷◌, All, String, sym, false-ne-true,
}
use kohaku_river.Reservation.{Reservations}
use kohaku_river.Reservation.Token.{Signer}
use kohaku_river.Reservation.Methods.{use_reservation}
use kohaku_river.Reservation.History.{
  Call, reserve, allocate, use_token, release_container, release_token, mark_used, mark_free, clean,
  step, run,
}
use kohaku_river.Reservation.Spent.{
  IsSpent, cleanup_expired-IsSpent, auto_allocate_ip-IsSpent, use_reservation-IsSpent,
  release_by_container-IsSpent, release_by_token-IsSpent, mark_ip_used-IsSpent,
  mark_ip_free-IsSpent,
}
use kohaku_river.Reservation.Lifecycle.{use_reservation-IsUsed, IsSpent-refused}

-- Only `reserve_ip` issues tokens.
abbrev pub issues : Call → Bool
issues (reserve now draw network runner net ip ttl) = true
issues (allocate now draw network runner net container_id) = false
issues (use_token now token container_id er en) = false
issues (release_container container_id) = false
issues (release_token token) = false
issues (mark_used runner ip net) = false
issues (mark_free runner ip net) = false
issues (clean now) = false

module _ (k : Signer) (default_ttl : ℕ) where
  step-IsSpent :
      (token : String) (c : Call) (s : Reservations)
      → issues c ≡ false
      → IsSpent token s
      → IsSpent token (step k default_ttl c s)
  unfolding step
  step-IsSpent token (reserve now draw network runner net ip ttl) s silent spent =
      absurd (false-ne-true (sym silent))
  step-IsSpent token (allocate now draw network runner net container_id) s silent spent =
      auto_allocate_ip-IsSpent token now draw network runner net container_id s spent
  step-IsSpent token (use_token now t container_id er en) s silent spent =
      use_reservation-IsSpent token k now t container_id er en s spent
  step-IsSpent token (release_container container_id) s silent spent =
      release_by_container-IsSpent token container_id s spent
  step-IsSpent token (release_token t) s silent spent = release_by_token-IsSpent token t s spent
  step-IsSpent token (mark_used runner ip net) s silent spent =
      mark_ip_used-IsSpent token runner ip net s spent
  step-IsSpent token (mark_free runner ip net) s silent spent =
      mark_ip_free-IsSpent token runner ip net s spent
  step-IsSpent token (clean now) s silent spent = cleanup_expired-IsSpent token now s spent

  run-IsSpent :
      (token : String) (calls : List Call) (s : Reservations)
      → All (λ c. issues c ≡ false) calls
      → IsSpent token s
      → IsSpent token (run k default_ttl calls s)
  unfolding run
  run-IsSpent token [] s silent spent = spent
  run-IsSpent token (c ∷ calls) s (first, silent) spent =
      run-IsSpent token calls (step k default_ttl c s) silent (step-IsSpent token c s first spent)

  -- After a use of a token and any calls without a further `reserve_ip`, releases included, a use of
  -- the token, whoever sends it and whenever, is refused and changes nothing.
  pub use_reservation-once :
      (calls : List Call) (now later : ℕ) (token container_id other : String)
      (er en er' en' : Option String) (s s' : Reservations) (i : ℕ)
      → use_reservation k now token container_id er en s ≡ (some i, s')
      → All (λ c. issues c ≡ false) calls
      → use_reservation k later token other er' en' (run k default_ttl calls s')
        ≡ (none, run k default_ttl calls s')
  use_reservation-once calls now later token container_id other er en er' en' s s' i h silent =
      IsSpent-refused k later token other er' en' (run k default_ttl calls s') (
        run-IsSpent token calls s' silent
          (use_reservation-IsUsed k now token container_id er en s s' i h))
