-- ===== src/Broker/Server/Login.antt =====
-- `login` of internal/broker/server.go, and what a login grants. Logins run at once, and each method
-- of the limiter and of the session store is a step of its own: `seen` is the limiter as the test of
-- the delay finds it, and the server is the one that the login finds where it changes something, the
-- sessions at `Create` and the limiter at `success` or `failure`. The answers say whether one of the
-- eight places was free.
use Prim.Native.Char.{nul}
use Prim.Native.String.{len, ◌++◌ as append}
use pilothouse.Base.{
  ℕ, ◌≡◌, ◌≢◌, refl, String, Bool, false, not, ◌||◌, Option, none, some, Map, string_eq, ◌==◌, ltb,
  if◌then◌else◌, ok, err, arith, Bool-cases, Option-cases, Result-cases, inl, inr,
}
use pilothouse.Auth.{Identity, resolve}
use pilothouse.Broker.Attempts.{LoginAttempt, delay, failure, success}
use pilothouse.Broker.Sessions.{SessionStore, SessionResponse, create}
use pilothouse.Broker.Actions.{Fault}
use pilothouse.Broker.Server.{Server, Reply, failed, login_reply, LoginRequest, LoginAnswers}

module _ (A : Type 0) (token_key : String → String) (authenticate : String → String → Option Fault)
    (trim_space to_lower : String → String) where
  -- The key of the limiter.
  unfoldable pub login_key : LoginRequest → String
  login_key request =
      append (to_lower (trim_space request.username)) (String.◌∷◌ nul request.remote)

  -- `loginFailed`
  unfoldable pub login_failed : Server A → String → ℕ → Server A × Reply
  login_failed s key now = (
    record s { attempts = failure s.attempts key now },
    failed 401 "invalid username or password",
  )

  grant_session :
      Server A → String → SessionStore × Option (String × SessionResponse) → Server A × Reply
  grant_session s key (sessions, none) =
      (record s { sessions = sessions }, failed 500 "could not create session")
  grant_session s key (sessions, some (token, session)) = (
    record s { sessions = sessions; attempts = success s.attempts key },
    login_reply token session,
  )

  grant_login : Server A → LoginAnswers → String → Identity → Server A × Reply
  unfolding grant_session
  grant_login s answers key identity =
      grant_session s key
        (create token_key s.sessions identity answers.rand1 answers.rand2 answers.at_session)

  -- The test on the lengths.
  abbrev pub is_malformed : LoginRequest → Bool
  is_malformed request =
      trim_space request.username == ""
      || (request.password == ""
          || (ltb 128 (len (trim_space request.username)) || ltb 1024 (len request.password)))

  login_as : Server A → LoginAnswers → LoginRequest → Server A × Reply
  unfolding login_failed grant_login
  login_as s answers request =
      let key = login_key request in
      elim (authenticate (trim_space request.username) request.password) [
        | some f ↦ login_failed s key answers.at_failure
        | none ↦ elim (resolve s.resolver (trim_space request.username)) [
          | err e ↦ login_failed s key answers.at_failure
          | ok identity ↦ grant_login s answers key identity
        ]
      ]

  -- `login`
  unfoldable pub login :
      Map String LoginAttempt → Server A → LoginAnswers → Option LoginRequest → Server A × Reply
  unfolding login_failed login_as
  login seen s answers none = (s, failed 400 "invalid request")
  login seen s answers (some request) =
      let key = login_key request in
      if is_malformed request
      then login_failed s key answers.at_failure
      else if ltb 0 (delay seen key answers.at_delay) || not answers.slot_free
      then (s, failed 429 "authentication temporarily unavailable")
      else login_as s answers request

  -- A login that succeeds.
  pub record LoggedIn (seen : Map String LoginAttempt) (s s' : Server A) (answers : LoginAnswers)
      (request : LoginRequest) (token : String) (session : SessionResponse) : Type 0 where
    pub identity : Identity
    pub well_formed : is_malformed request ≡ false
    pub not_delayed : delay seen (login_key request) answers.at_delay ≡ 0
    pub authenticated : authenticate (trim_space request.username) request.password ≡ none
    pub resolved : resolve s.resolver (trim_space request.username) ≡ ok identity
    pub created :
        create token_key s.sessions identity answers.rand1 answers.rand2 answers.at_session
        ≡ (s'.sessions, some (token, session))
    pub forgiven : s'.attempts ≡ success s.attempts (login_key request)

  grant_session_inv :
      (s : Server A) (key : String) (x : SessionStore × Option (String × SessionResponse))
      (token : String) (session : SessionResponse)
      → (grant_session s key x).1 ≡ login_reply token session
      → (x ≡ ((grant_session s key x).0.sessions, some (token, session)))
        × ((grant_session s key x).0.attempts ≡ success s.attempts key)
  unfolding grant_session
  grant_session_inv s key (sessions, none) token session h = absurd (ground arith)
  grant_session_inv s key (sessions, some (t, x)) token session h =
      let same : (t ≡ token) × (x ≡ session) = ground arith in
      (λ i. (sessions, some (same.0 i, same.1 i)), refl)

  grant_login-LoggedIn :
      (seen : Map String LoginAttempt) (s : Server A) (answers : LoginAnswers)
      (request : LoginRequest) (identity : Identity) (token : String) (session : SessionResponse)
      → is_malformed request ≡ false
      → delay seen (login_key request) answers.at_delay ≡ 0
      → authenticate (trim_space request.username) request.password ≡ none
      → resolve s.resolver (trim_space request.username) ≡ ok identity
      → (grant_login s answers (login_key request) identity).1 ≡ login_reply token session
      → LoggedIn seen s
          (grant_login s answers (login_key request) identity).0
          answers
          request
          token
          session
  unfolding grant_login
  grant_login-LoggedIn seen s answers request identity token session w d a r h =
      let made =
        grant_session_inv s (login_key request)
          (create token_key s.sessions identity answers.rand1 answers.rand2 answers.at_session)
          token session h in
      record {
        identity = identity;
        well_formed = w;
        not_delayed = d;
        authenticated = a;
        resolved = r;
        created = made.0;
        forgiven = made.1;
      }

  login_as-LoggedIn :
      (seen : Map String LoginAttempt) (s : Server A) (answers : LoginAnswers)
      (request : LoginRequest) (token : String) (session : SessionResponse)
      → is_malformed request ≡ false
      → delay seen (login_key request) answers.at_delay ≡ 0
      → (login_as s answers request).1 ≡ login_reply token session
      → LoggedIn seen s (login_as s answers request).0 answers request token session
  unfolding login_as login_failed
  login_as-LoggedIn seen s answers request token session w d =
      elim (Option-cases (authenticate (trim_space request.username) request.password)) [
        | inr (f, refused) ↦ rw (refused, login_as) (λ h. absurd (ground arith))
        | inl a ↦ elim (Result-cases (resolve s.resolver (trim_space request.username))) [
          | inr (e, r) ↦ rw (a, login_as) (rw r (λ h. absurd (ground arith)))
          | inl (identity, r) ↦
              rw (a, login_as)
                (rw r (grant_login-LoggedIn seen s answers request identity token session w d a r))
        ]
      ]

  -- Whoever is told that the login succeeded gave a user name and a password of the allowed lengths,
  -- which PAM accepted; the limiter had no delay for the key
  -- when it was asked; the account was resolved, and the token
  -- and the session are those that the session store made for it; and the server after the login has
  -- the store with that session, and the limiter that it had, without the key.
  pub login-LoggedIn :
      (seen : Map String LoginAttempt) (s : Server A) (answers : LoginAnswers)
      (request : LoginRequest) (token : String) (session : SessionResponse)
      → (login seen s answers (some request)).1 ≡ login_reply token session
      → LoggedIn seen s (login seen s answers (some request)).0 answers request token session
  unfolding login login_failed
  login-LoggedIn seen s answers request token session = elim (Bool-cases (is_malformed request)) [
    | inl e ↦ rw (e, login) (λ h. absurd (ground arith))
    | inr w ↦
        elim (Bool-cases
          (ltb 0 (delay seen (login_key request) answers.at_delay) || not answers.slot_free)) [
            | inl e ↦ rw (w, login) (rw e (λ h. absurd (ground arith)))
            | inr e ↦
                let ready : delay seen (login_key request) answers.at_delay ≡ 0 = ground arith in
                rw (w, login)
                  (rw e (login_as-LoggedIn seen s answers request token session w ready))
          ]
  ]

  grant_session_refused :
      (s : Server A) (key : String) (x : SessionStore × Option (String × SessionResponse))
      (message : String)
      → (grant_session s key x).1 ≢ failed 401 message
  unfolding grant_session
  grant_session_refused s key (sessions, none) message h = absurd (ground arith)
  grant_session_refused s key (sessions, some (t, x)) message h = absurd (ground arith)

  login_as-refused :
      (s : Server A) (answers : LoginAnswers) (request : LoginRequest) (message : String)
      → (login_as s answers request).1 ≡ failed 401 message
      → (login_as s answers request).0.attempts
        ≡ failure s.attempts (login_key request) answers.at_failure
  unfolding login_as login_failed grant_login
  login_as-refused s answers request message =
      elim (Option-cases (authenticate (trim_space request.username) request.password)) [
        | inr (f, refused) ↦ rw (refused, login_as) (λ h. refl)
        | inl a ↦ elim (Result-cases (resolve s.resolver (trim_space request.username))) [
          | inr (e, r) ↦ rw (a, login_as) (rw r (λ h. refl))
          | inl (identity, r) ↦
              rw (a, login_as) (rw r (λ h. absurd (grant_session_refused s _ _ message h)))
        ]
      ]

  pub login-refused :
      (seen : Map String LoginAttempt) (s : Server A) (answers : LoginAnswers)
      (request : LoginRequest) (message : String)
      → (login seen s answers (some request)).1 ≡ failed 401 message
      → (login seen s answers (some request)).0.attempts
        ≡ failure s.attempts (login_key request) answers.at_failure
  unfolding login login_failed
  login-refused seen s answers request message = elim (Bool-cases (is_malformed request)) [
    | inl e ↦ rw (e, login) (λ h. refl)
    | inr w ↦
        elim (Bool-cases
          (ltb 0 (delay seen (login_key request) answers.at_delay) || not answers.slot_free)) [
            | inl e ↦ rw (w, login) (rw e (λ h. absurd (ground arith)))
            | inr e ↦ rw (w, login) (rw e (login_as-refused s answers request message))
          ]
  ]
