-- ===== src/Broker/Server/Throttle.antt =====
-- What a refused login of internal/broker/server.go does to the next one with the same key.
use native.Mathlib.Nat.{one-le-pow}
use pilothouse.Base.{
  ℕ, ◌+◌, ◌<◌, ◌≡◌, ◌≢◌, ap, ◌∙◌, ◌-◌, String, Option, some, Map, string_eq, min, arith,
}
use pilothouse.Broker.Attempts.{LoginAttempt, delay, failure, attempt_at, second}
use pilothouse.Broker.Attempts.Delays.{delay-stored, failure-stored}
use pilothouse.Broker.Actions.{Fault}
use pilothouse.Broker.Sessions.{SessionResponse}
use pilothouse.Broker.Server.{Server, failed, login_reply, LoginRequest, LoginAnswers}
use pilothouse.Broker.Server.Login.{login, login_key, login-LoggedIn, login-refused}

delay-failure_later :
    (m : Map String LoginAttempt) (key : String) (now later : ℕ)
    → later < now + second
    → 0 < delay (failure m key now) key later
delay-failure_later m key now later h =
    rw (delay-stored (failure m key now) key later _ (failure-stored m key now))
      (ground (arith, one-le-pow (min (attempt_at key m).failures 5) 2 (omega arith)))

delay-same :
    (m n : Map String LoginAttempt) (key : String) (now : ℕ)
    → attempt_at key m ≡ attempt_at key n
    → delay m key now ≡ delay n key now
unfolding delay
delay-same m n key now e = ap (λ (a : LoginAttempt). a.next - now) e

module _ (A : Type 0) (token_key : String → String) (authenticate : String → String → Option Fault)
    (trim_space to_lower : String → String) where
  -- After a login that was refused as invalid, no login with the same key succeeds whose delay is
  -- read less than a second after the failure, whatever it gives as its password and whatever other
  -- logins have done in between, where the limiter that it finds has the entry of the key as the
  -- failure has left it.
  pub login-refused_twice :
      (seen found : Map String LoginAttempt) (s other : Server A) (answers later : LoginAnswers)
      (request again : LoginRequest) (message token : String) (session : SessionResponse)
      → (login A token_key authenticate trim_space to_lower seen s answers (some request)).1
        ≡ failed 401 message
      → login_key A token_key authenticate trim_space to_lower again
        ≡ login_key A token_key authenticate trim_space to_lower request
      → later.at_delay < answers.at_failure + second
      → attempt_at (login_key A token_key authenticate trim_space to_lower request) found
        ≡ attempt_at
            (login_key A token_key authenticate trim_space to_lower request)
            (login A token_key authenticate trim_space to_lower seen s answers
              (some request)).0.attempts
      → (login A token_key authenticate trim_space to_lower found other later (some again)).1
        ≢ login_reply token session
  login-refused_twice seen found s other answers later request again message token session refused
        same soon kept h =
      let key = login_key A token_key authenticate trim_space to_lower request in
      let free =
        (login-LoggedIn A token_key authenticate trim_space to_lower found other later again token
          session h).not_delayed in
      let stored =
        login-refused A token_key authenticate trim_space to_lower seen s answers request message
          refused in
      let waits = delay-failure_later s.attempts key answers.at_failure later.at_delay soon in
      let as_left : attempt_at key found
          ≡ attempt_at key (failure s.attempts key answers.at_failure) =
        kept ∙ ap (attempt_at key) stored in
      absurd (
        ground (
          arith,
          delay-same found (failure s.attempts key answers.at_failure) key later.at_delay as_left,
          ap (λ k. delay found k later.at_delay) same,
        ))
