-- ===== src/Broker/Server/Acting.antt =====
-- `execute` of internal/broker/server.go: on whose authority.
use pilothouse.Base.{
  ℕ, ◌≡◌, ◌≢◌, refl, ap, subst₂, String, Option, none, some, [], string_eq, Result, ok, err, arith,
  Result-cases, inl, inr,
}
use pilothouse.Auth.{Identity, SystemResolver, resolve}
use pilothouse.Auth.Resolution.{Resolved, resolve-Resolved}
use pilothouse.Broker.Sessions.{SessionResponse, get}
use pilothouse.Broker.Actions.{ActionRegistry, Answers, Admission, execute}
use pilothouse.Broker.Actions.Admit.{Admitted}
use pilothouse.Broker.Actions.Outcomes.{acts-Admitted}
use pilothouse.Broker.Server.{
  Server, Reply, ActionRequest, execute_action, execute_for, authorize, authorize_session,
}
use pilothouse.Broker.Server.Bearer.{bearer_token}

module _ (A : Type 0) (token_key : String → String) where
  -- On whose authority a request acts.
  pub record Authority (s : Server A) (header : Option String) (now : ℕ) (id : String)
      (body : Option ActionRequest) : Type 0 where
    pub session : SessionResponse
    pub identity : Identity
    pub request : ActionRequest
    pub admission : Admission
    pub live : (get token_key s.sessions (bearer_token header) now).1 ≡ some session
    pub resolved : Resolved s.resolver session.identity.username identity
    pub decoded : body ≡ some request
    pub admitted : Admitted s.actions identity id request.parameters request.confirmation admission

  authorize_session_inv :
      (resolver : SystemResolver) (answer : Option SessionResponse) (session : SessionResponse)
      (identity : Identity)
      → authorize_session A token_key resolver answer ≡ ok (session, identity)
      → (answer ≡ some session) × (resolve resolver session.identity.username ≡ ok identity)
  unfolding authorize_session
  authorize_session_inv resolver none session identity h = absurd (ground arith)
  authorize_session_inv resolver (some x) session identity h =
      elim (Result-cases (resolve resolver x.identity.username)) [
        | inr (e, r) ↦ absurd (ground arith)
        | inl (d, r) ↦
            let same : (x ≡ session) × (d ≡ identity) = ground arith in
            (
              ap some same.0,
              subst₂ (λ x d. resolve resolver x.identity.username ≡ ok d) same.0 same.1 r,
            )
      ]

  -- Who stands behind the events.
  record Behind (actions : ActionRegistry) (answers : Answers) (id : String)
      (body : Option ActionRequest) (who : Result Reply (SessionResponse × Identity)) : Type 0 where
    session : SessionResponse
    identity : Identity
    request : ActionRequest
    known : who ≡ ok (session, identity)
    decoded : body ≡ some request
    acts : (execute actions answers identity id request.parameters request.confirmation).events ≢ []

  execute_for-Behind :
      (actions : ActionRegistry) (answers : Answers) (id : String) (body : Option ActionRequest)
      (who : Result Reply (SessionResponse × Identity))
      → (execute_for A token_key actions answers id body who).0.events ≢ []
      → Behind actions answers id body who
  unfolding execute_for
  execute_for-Behind actions answers id body (err reply) h = absurd (h refl)
  execute_for-Behind actions answers id none (ok who) h = absurd (h refl)
  execute_for-Behind actions answers id (some request) (ok (session, identity)) h = record {
    session = session;
    identity = identity;
    request = request;
    known = refl;
    decoded = refl;
    acts = h;
  }

  -- A request that causes any event at all, be it the taking of a lock, has a token whose session is
  -- live, the account of the session's user resolves anew, whatever the session says of it, and the
  -- identity that this gives, with the request's parameters and confirmation, meets all conditions of
  -- the action.
  pub execute_action-Authority :
      (s : Server A) (answers : Answers) (header : Option String) (now : ℕ) (id : String)
      (body : Option ActionRequest)
      → (execute_action A token_key s answers header now id body).1.events ≢ []
      → Authority s header now id body
  unfolding execute_action authorize
  execute_action-Authority s answers header now id body h =
      let b =
        execute_for-Behind s.actions answers id body
          (authorize_session A token_key s.resolver
            (get token_key s.sessions (bearer_token header) now).1)
          h in
      let (live, resolved) =
        authorize_session_inv s.resolver (get token_key s.sessions (bearer_token header) now).1
          b.session b.identity b.known in
      let (a, admitted, first) =
        acts-Admitted s.actions answers b.identity id b.request.parameters b.request.confirmation
          b.acts in
      record {
        session = b.session;
        identity = b.identity;
        request = b.request;
        admission = a;
        live = live;
        resolved = resolve-Resolved s.resolver b.session.identity.username b.identity resolved;
        decoded = b.decoded;
        admitted = admitted;
      }
