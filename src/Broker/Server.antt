-- ===== src/Broker/Server.antt =====
-- internal/broker/server.go: the handlers of the broker. A handler is a function from the server and
-- what the request and the outside give to the server after it and the reply. `none` for a body is a
-- request that `decodeJSON` refuses. PAM (`authenticate`), `strings.TrimSpace`, `strings.ToLower` and
-- the digest of a token are parameters. Logs and headers are left out.
pub mod Bearer
pub mod Login
pub mod Acting
pub mod Throttle
pub mod Tokens
use Prim.Native.String.{len, ◌++◌ as append}
use pilothouse.Base.{
  ℕ, ◌+◌, String, Bool, true, false, not, ◌&&◌, ◌||◌, Option, none, some, List, [], ◌∷◌, Map,
  string_eq, nat_eq, ◌==◌, lookup, ltb, if◌then◌else◌, Result, ok, err, is_some, ℤ, pos, negsuc,
}
use pilothouse.Auth.{Identity, SystemResolver, resolve}
use pilothouse.Broker.Attempts.{LoginAttempt, delay, failure, success}
use pilothouse.Broker.Sessions.{SessionStore, SessionResponse, create, delete, get}
use pilothouse.Broker.Params.{Parameters}
use pilothouse.Broker.Faults.{PublicError, HandlerFault, public_error_details}
use pilothouse.Broker.Actions.{
  Fault, ActionRegistry, ActionError, Answers, Execution, execute, finished,
}
use pilothouse.Broker.Registration.{QueryRegistry, QueryError, query_failed, execute_query}
use pilothouse.Broker.Streams.{
  StreamActionRegistry, StreamQueryRegistry, StreamActionDefinition, StreamError, stream_failed,
  stream_too_large, StreamAnswers, StreamExecution, StreamResult, execute_stream_query,
  execute_stream_action, stream_done, exceeds,
}
use pilothouse.Broker.Server.Bearer.{bearer_token}

-- `Server`, of which the requests change `attempts` and `sessions`; `A` is the type of the results
-- of queries.
pub record Server (A : Type 0) : Type 0 where
  pub actions : ActionRegistry
  pub attempts : Map String LoginAttempt
  pub queries : QueryRegistry A
  pub resolver : SystemResolver
  pub sessions : SessionStore
  pub stream_actions : StreamActionRegistry
  pub stream_queries : StreamQueryRegistry

pub data Reply : Type 0 where
  failed : (status : ℕ) (message : String) → Reply
  action_failed : ActionError → Reply
  done : Reply
  session_reply : SessionResponse → Reply
  login_reply : (token : String) → SessionResponse → Reply
  query_reply : String → Reply
  stream_reply : StreamResult → Reply

pub record LoginRequest : Type 0 where
  pub password : String
  pub remote : String
  pub username : String

-- What a login meets: the clock's readings, a place among the eight logins at once, and the random
-- tokens.
pub record LoginAnswers : Type 0 where
  pub at_delay : ℕ
  pub at_failure : ℕ
  pub at_session : ℕ
  pub slot_free : Bool
  pub rand1 : Option String
  pub rand2 : Option String

pub record ActionRequest : Type 0 where
  pub confirmation : String
  pub parameters : Parameters

module _ (A : Type 0) (token_key : String → String) where
  -- `logout`
  unfoldable pub logout : Server A → Option String → Server A × Reply
  logout s header =
      (record s { sessions = delete token_key s.sessions (bearer_token header) }, done)

  -- `currentSession`
  unfoldable pub current_session : Server A → Option String → ℕ → Server A × Reply
  current_session s header now =
      let (sessions, answer) = get token_key s.sessions (bearer_token header) now in
      (
        record s { sessions = sessions },
        elim answer [
          | none ↦ failed 401 "authentication required"
          | some session ↦ session_reply session
        ],
      )

  authorize_session :
      SystemResolver → Option SessionResponse → Result Reply (SessionResponse × Identity)
  authorize_session resolver none = err (failed 401 "authentication required")
  authorize_session resolver (some session) = elim (resolve resolver session.identity.username) [
    | err e ↦ err (failed 403 "account is no longer authorized")
    | ok identity ↦ ok (session, identity)
  ]

  -- `authorize`
  unfoldable pub authorize :
      Server A → Option String → ℕ → Server A × Result Reply (SessionResponse × Identity)
  unfolding authorize_session
  authorize s header now =
      let (sessions, answer) = get token_key s.sessions (bearer_token header) now in
      (record s { sessions = sessions }, authorize_session s.resolver answer)

  abbrev pub action_reply : Option ActionError → Reply
  action_reply none = done
  action_reply (some e) = action_failed e

  execute_for :
      ActionRegistry
      → Answers
      → String
      → Option ActionRequest
      → Result Reply (SessionResponse × Identity)
      → Execution × Reply
  execute_for actions answers id body (err reply) = (finished [] none, reply)
  execute_for actions answers id none (ok who) = (finished [] none, failed 400 "invalid request")
  execute_for actions answers id (some request) (ok (session, identity)) =
      let x = execute actions answers identity id request.parameters request.confirmation in
      (x, action_reply x.error)

  -- `execute`
  unfoldable pub execute_action :
      Server A
      → Answers
      → Option String
      → ℕ
      → String
      → Option ActionRequest
      → Server A × Execution × Reply
  unfolding execute_for
  execute_action s answers header now id body =
      let (s', who) = authorize s header now in
      let (x, reply) = execute_for s.actions answers id body who in (s', x, reply)

  -- The reply to an error of a query: only a `PublicError` is told.
  query_error_reply : QueryError A → Reply
  query_error_reply (query_failed f) = elim f.public_error [
    | none ↦ failed 403 "query denied"
    | some e ↦ failed e.status e.message
  ]
  query_error_reply _ = failed 403 "query denied"

  query_for :
      QueryRegistry A
      → (A → Option String)
      → String
      → Option Parameters
      → Result Reply (SessionResponse × Identity)
      → Reply
  unfolding query_error_reply
  query_for queries encode id body (err reply) = reply
  query_for queries encode id none (ok who) = failed 400 "invalid request"
  query_for queries encode id (some m) (ok (session, identity)) =
      elim (execute_query A queries identity id m) [
        | err e ↦ query_error_reply e
        | ok result ↦ elim (encode result) [
          | none ↦ failed 500 "query result unavailable"
          | some text ↦ query_reply text
        ]
      ]

  -- `query`; `encode` is `json.Marshal`.
  unfoldable pub query :
      Server A
      → (A → Option String)
      → Option String
      → ℕ
      → String
      → Option Parameters
      → Server A × Reply
  unfolding query_for
  query s encode header now id body =
      let (s', who) = authorize s header now in (s', query_for s.queries encode id body who)

  -- `streamError`
  unfoldable pub stream_error : StreamError → Reply
  stream_error stream_too_large = failed 413 "stream exceeds registered limit"
  stream_error (stream_failed f) =
      let e = public_error_details f.public_error in
      if f.is_too_large
      then failed 413 "stream exceeds registered limit"
      else failed e.status e.message
  stream_error _ = let e = public_error_details none in failed e.status e.message

  -- `streamQueryRequiresAdmin`
  unfoldable pub stream_query_requires_admin : StreamQueryRegistry → String → Bool
  stream_query_requires_admin queries id = elim (lookup id queries) [
    | none ↦ false
    | some d ↦ d.admin
  ]

  stream_query_for :
      StreamQueryRegistry
      → String
      → Option Parameters
      → Result Reply (SessionResponse × Identity)
      → Reply
  stream_query_for queries id body (err reply) = reply
  stream_query_for queries id none (ok who) = failed 400 "invalid request"
  stream_query_for queries id (some m) (ok (session, identity)) =
      if stream_query_requires_admin queries id && not identity.admin
      then failed 403 "not authorized"
      else elim (execute_stream_query queries identity id m) [
        | err e ↦ stream_error e
        | ok x ↦ stream_reply x
      ]

  -- `streamQuery`, up to the copying of the body.
  unfoldable pub stream_query :
      Server A → Option String → ℕ → String → Option Parameters → Server A × Reply
  unfolding stream_query_for
  stream_query s header now id body =
      let (s', who) = authorize s header now in (s', stream_query_for s.stream_queries id body who)

  -- `streamActionRequiresAdmin`
  unfoldable pub stream_action_requires_admin : StreamActionRegistry → String → Bool
  stream_action_requires_admin r id = elim (lookup id r.actions) [ none ↦ false | some d ↦ d.admin ]

  -- The test with `streamActionLimit` on the `Content-Length`.
  unfoldable pub over_limit : StreamActionRegistry → String → ℤ → Bool
  over_limit r id content_length = elim (lookup id r.actions) [
    | none ↦ false
    | some d ↦ exceeds content_length d.limit
  ]

  -- The metadata header: `decode64` is `base64.RawURLEncoding.DecodeString`, and `decode` the decoder
  -- of JSON.
  unfoldable pub decode_metadata :
      (String → Option String) → (String → Option Parameters) → String → Option Parameters
  decode_metadata decode64 decode metadata =
      if len metadata == 0 || ltb 8192 (len metadata) then none else elim (decode64 metadata) [
        | none ↦ none
        | some text ↦ if ltb 8192 (len text) then none else decode text
      ]

  abbrev pub stream_action_reply : Option StreamError → Reply
  stream_action_reply none = done
  stream_action_reply (some e) = stream_error e

  stream_action_for :
      StreamActionRegistry
      → StreamAnswers
      → String
      → Option Parameters
      → ℤ
      → Result Reply (SessionResponse × Identity)
      → StreamExecution × Reply
  stream_action_for r answers id metadata content_length (err reply) = (stream_done [] none, reply)
  stream_action_for r answers id metadata content_length (ok (session, identity)) =
      if stream_action_requires_admin r id && not identity.admin
      then (stream_done [] none, failed 403 "not authorized")
      else elim metadata [
        | none ↦ (stream_done [] none, failed 400 "invalid request")
        | some m ↦
            let x = execute_stream_action r answers identity id m in
            if over_limit r id content_length
            then (stream_done [] none, failed 413 "stream exceeds registered limit")
            else (x, stream_action_reply x.error)
      ]

  -- `streamAction`
  unfoldable pub stream_action :
      Server A
      → StreamAnswers
      → Option String
      → ℕ
      → String
      → Option Parameters
      → ℤ
      → Server A × StreamExecution × Reply
  unfolding stream_action_for
  stream_action s answers header now id metadata content_length =
      let (s', who) = authorize s header now in
      let (x, reply) = stream_action_for s.stream_actions answers id metadata content_length who in
      (s', x, reply)
