-- ===== src/Broker/Server/Tokens.antt =====
-- The token of a login, sent back in the header of a later request.
use Prim.Native.String.{◌++◌ as append}
use pilothouse.Base.{
  ℕ, ◌<◌, ◌≡◌, ◌≢◌, ◌↔◌, sym, ap, subst, String, true, Map, Option, none, some, nat_eq, arith,
  is_some,
}
use pilothouse.Broker.Attempts.{LoginAttempt}
use pilothouse.Broker.Actions.{Fault}
use pilothouse.Broker.Sessions.{SessionResponse, get}
use pilothouse.Broker.Sessions.Expiry.{get-create_iff}
use pilothouse.Broker.Server.{
  Server, failed, session_reply, login_reply, current_session, LoginRequest, LoginAnswers,
}
use pilothouse.Broker.Server.Bearer.{bearer_token-append}
use pilothouse.Broker.Server.Login.{login, login-LoggedIn}

answered_iff :
    (answer : Option SessionResponse)
    → ((elim answer [
      | none ↦ failed 401 "authentication required"
      | some session ↦ session_reply session
    ])
        ≢ failed 401 "authentication required")
      ↔ (is_some answer ≡ true)
answered_iff none = ground arith
answered_iff (some x) = ground arith

module _ (A : Type 0) (token_key : String → String) where
  current_session_iff :
      (s : Server A) (token : String) (now : ℕ)
      → ((current_session A token_key s (some (append "Bearer " token)) now).1
          ≢ failed 401 "authentication required")
        ↔ (is_some (get token_key s.sessions token now).1 ≡ true)
  unfolding current_session
  current_session_iff s token now =
      subst
        (λ t.
          ((elim (get token_key s.sessions t now).1 [
            | none ↦ failed 401 "authentication required"
            | some session ↦ session_reply session
          ])
            ≢ failed 401 "authentication required")
          ↔ (is_some (get token_key s.sessions token now).1 ≡ true))
        (sym (bearer_token-append token)) (answered_iff (get token_key s.sessions token now).1)

  module _ (authenticate : String → String → Option Fault)
      (trim_space to_lower : String → String) where
    -- Where the first request after a login reaches the session store as the login has left it, before
    -- any other request or logout, with the header `Bearer ` followed by the token, which is not
    -- empty: `currentSession` knows it exactly if the clock is before the `ExpiresAt` of the login.
    pub login-current_session_iff :
        (seen : Map String LoginAttempt) (s : Server A) (answers : LoginAnswers)
        (request : LoginRequest) (token : String) (session : SessionResponse) (later : ℕ)
        → token ≢ ""
        → (login A token_key authenticate trim_space to_lower seen s answers (some request)).1
          ≡ login_reply token session
        → ((current_session A token_key
              (login A token_key authenticate trim_space to_lower seen s answers (some request)).0
              (some (append "Bearer " token))
              later).1
            ≢ failed 401 "authentication required")
          ↔ (later < session.expires_at)
    login-current_session_iff seen s answers request token session later t h =
        let s' =
          (login A token_key authenticate trim_space to_lower seen s answers (some request)).0 in
        let x =
          login-LoggedIn A token_key authenticate trim_space to_lower seen s answers request token
            session h in
        let made =
          get-create_iff token_key s.sessions x.identity answers.rand1 answers.rand2
            answers.at_session later token session t (ap (λ p. p.1) x.created) in
        let kept : (is_some (get token_key s'.sessions token later).1 ≡ true)
            ↔ (later < session.expires_at) =
          subst
            (λ st. (is_some (get token_key st token later).1 ≡ true) ↔ (later < session.expires_at))
            (ap (λ p. p.0) x.created) made in
        let asked = current_session_iff s' token later in
        (λ known. kept.0 (asked.0 known), λ soon. asked.1 (kept.1 soon))
