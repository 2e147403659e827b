-- ===== src/Broker/Streams.antt =====
-- internal/broker/streams.go: the registries of stream queries and stream actions. What a call meets
-- outside its registry is given by answers, and what it does there is the list of events in their
-- order, both as for the other actions. A `int64` is an integer.
pub mod Reader
pub mod Metadata
pub mod Calls
use pilothouse.Base.{
  ℕ, ◌+◌, ◌≤◌, String, Bool, true, false, not, ◌&&◌, ◌||◌, Option, none, some, List, [], ◌∷◌, ◌++◌,
  Map, string_eq, ◌==◌, lookup, insert, if◌then◌else◌, Result, ok, err, ◌>>=◌, is_some, ℤ, pos,
  negsuc, ltb,
}
use pilothouse.Auth.{Identity}
use pilothouse.Broker.Faults.{HandlerFault}
use pilothouse.Broker.Text.{invalid_text}
use pilothouse.Broker.Params.{Parameters, registered_parameters}
use pilothouse.Broker.Registration.{
  RegisterError, incomplete, already_registered, wanted, checked, accepted,
}
use pilothouse.Broker.Streams.Metadata.{validate_stream_parameters}
use pilothouse.Broker.Actions.{
  Fault, Event, locked, released, began, completed, handled, record_problem,
  problem_audit_write_failed, error_category, outcome_succeeded, outcome_failed,
}

-- The fields of `StreamResult` that the registry reads.
pub record StreamResult : Type 0 where
  pub has_body : Bool
  pub size : ℤ

pub record StreamQueryDefinition : Type 0 where
  pub id : String
  pub admin : Bool
  pub parameters : List String
  pub limit : ℤ
  pub handler : Identity → Parameters → Result HandlerFault StreamResult

pub record StreamActionDefinition : Type 0 where
  pub id : String
  pub admin : Bool
  pub parameters : List String
  pub limit : ℤ
  pub resource : Parameters → Result HandlerFault String
  pub lock_resource : Option (Parameters → Result HandlerFault String)
  pub handler : Identity → Parameters → Option HandlerFault

abbrev pub StreamQueryRegistry : Type 0
StreamQueryRegistry = Map String StreamQueryDefinition

pub record StreamActionRegistry : Type 0 where
  pub actions : Map String StreamActionDefinition
  pub has_audit : Bool
  pub has_problems : Bool

abbrev pub is_negative : ℤ → Bool
is_negative (pos n) = false
is_negative (negsuc n) = true

-- `a > b`
abbrev pub exceeds : ℤ → ℤ → Bool
exceeds (pos a) (pos b) = ltb b a
exceeds (pos a) (negsuc b) = true
exceeds (negsuc a) (pos b) = false
exceeds (negsuc a) (negsuc b) = ltb a b

-- `StreamQueryRegistry.Register`, of a definition whose handler may be nil.
unfoldable pub register_stream_query :
    StreamQueryRegistry → StreamQueryDefinition → Bool → Result RegisterError StreamQueryRegistry
register_stream_query queries d has_handler = do
  _ ← checked (not (d.id == "" || (not has_handler || is_negative d.limit))) incomplete
  names ← accepted (registered_parameters d.parameters)
  _ ← checked (not (is_some (lookup d.id queries))) already_registered
  ok (insert d.id (record d { parameters = names }) queries)

-- `StreamActionRegistry.Register`
unfoldable pub register_stream_action :
    StreamActionRegistry
    → StreamActionDefinition
    → Bool
    → Bool
    → Result RegisterError StreamActionRegistry
register_stream_action r d has_handler has_resource = do
  _ ←
      checked (not (d.id == "" || (not has_handler || (not has_resource || is_negative d.limit))))
        incomplete
  names ← accepted (registered_parameters d.parameters)
  _ ← checked (not (is_some (lookup d.id r.actions))) already_registered
  ok (record r { actions = insert d.id (record d { parameters = names }) r.actions })

pub data StreamError : Type 0 where
  unknown_stream stream_not_authorized bad_stream_parameters : StreamError
  stream_failed : HandlerFault → StreamError
  stream_too_large : StreamError
  invalid_stream_resource invalid_stream_lock : StreamError
  stream_lock_failed stream_begin_failed stream_uncertain : StreamError

abbrev pub stream_guard : Bool → StreamError → Result StreamError (Unit {0})
stream_guard true e = ok tt
stream_guard false e = err e

abbrev pub stream_found : {A : Type 0} → Option A → Result StreamError A
stream_found none = err unknown_stream
stream_found (some d) = ok d

abbrev pub of_handler : Result HandlerFault StreamResult → Result StreamError StreamResult
of_handler (err f) = err (stream_failed f)
of_handler (ok x) = ok x

-- `StreamQueryRegistry.Execute`
unfoldable pub execute_stream_query :
    StreamQueryRegistry → Identity → String → Parameters → Result StreamError StreamResult
execute_stream_query queries identity id m = do
  d ← stream_found (lookup id queries)
  _ ← stream_guard (not (d.admin && not identity.admin)) stream_not_authorized
  _ ← stream_guard (validate_stream_parameters d.parameters m) bad_stream_parameters
  x ← of_handler (d.handler identity m)
  _ ←
      stream_guard (not (not x.has_body || (is_negative x.size || exceeds x.size d.limit)))
        stream_too_large
  ok x

-- An error of a resolver: only a `PublicError` is passed on.
abbrev pub resolver_error : HandlerFault → StreamError → StreamError
resolver_error f e = if is_some f.public_error then stream_failed f else e

stream_resource : Result HandlerFault String → StreamError → Result StreamError String
stream_resource (err f) e = err (resolver_error f e)
stream_resource (ok s) e = if invalid_text 1024 s then err e else ok s

stream_lock :
    Option (Parameters → Result HandlerFault String)
    → Parameters
    → String
    → Result StreamError String
unfolding stream_resource
stream_lock none m resource = ok resource
stream_lock (some f) m resource = stream_resource (f m) invalid_stream_lock

pub record StreamAdmission : Type 0 where
  pub definition : StreamActionDefinition
  pub resource : String
  pub lock_resource : String

-- `StreamActionRegistry.Execute` up to the lock.
unfoldable pub admit_stream :
    StreamActionRegistry → Identity → String → Parameters → Result StreamError StreamAdmission
unfolding stream_resource stream_lock
admit_stream r identity id m = do
  d ← stream_found (lookup id r.actions)
  _ ← stream_guard (not (d.admin && not identity.admin)) stream_not_authorized
  _ ← stream_guard (validate_stream_parameters d.parameters m) bad_stream_parameters
  resource ← stream_resource (d.resource m) invalid_stream_resource
  lock_resource ← stream_lock d.lock_resource m resource
  ok (record { definition = d; resource = resource; lock_resource = lock_resource })

-- The answers of the lock and of the audit store.
pub record StreamAnswers : Type 0 where
  pub lock_wait : Option Fault
  pub begin : Result Fault ℕ
  pub audit_complete : Option Fault

pub record StreamExecution : Type 0 where
  pub events : List Event
  pub error : Option StreamError

abbrev pub stream_done : List Event → Option StreamError → StreamExecution
stream_done events error = record { events = events; error = error }

abbrev pub stream_outcome : Option HandlerFault → String
stream_outcome none = outcome_succeeded
stream_outcome (some f) = outcome_failed

abbrev pub stream_category : Option HandlerFault → String
stream_category none = ""
stream_category (some f) = error_category f.cause

abbrev pub stream_result : Option HandlerFault → Option StreamError
stream_result none = none
stream_result (some f) = some (stream_failed f)

module _ (r : StreamActionRegistry) (answers : StreamAnswers) (identity : Identity) (id : String)
    (m : Parameters) where
  -- The handler, and the completion of the record.
  run_stream : StreamAdmission → ℕ → StreamExecution
  run_stream a record_id =
      let result = a.definition.handler identity m in
      let run = handled m ∷ [] in
      let closing = completed record_id (stream_outcome result) (stream_category result) ∷ [] in
      let unlock = released a.lock_resource ∷ [] in
      let faults =
        record_problem r.has_problems problem_audit_write_failed answers.audit_complete in
      if r.has_audit
      then stream_done (run ++ (closing ++ (faults ++ unlock)))
          (if is_some answers.audit_complete then some stream_uncertain else stream_result result)
      else stream_done (run ++ unlock) (stream_result result)

  abbrev pub stream_prefixed : List Event → StreamExecution → StreamExecution
  stream_prefixed es x = record x { events = es ++ x.events }

  -- From the lock to the handler.
  begin_stream : StreamAdmission → StreamExecution
  begin_stream a =
      if r.has_audit
      then elim answers.begin [
        | err f ↦
            stream_done
              (began id a.resource identity.username identity.uid
                ∷ (record_problem r.has_problems problem_audit_write_failed (some f)
                    ++ released a.lock_resource ∷ []))
              (some stream_begin_failed)
        | ok record_id ↦
            stream_prefixed (began id a.resource identity.username identity.uid ∷ [])
              (run_stream a record_id)
      ]
      else run_stream a 0

  perform_stream : StreamAdmission → StreamExecution
  perform_stream a = elim answers.lock_wait [
    | some f ↦ stream_done [] (some stream_lock_failed)
    | none ↦ stream_prefixed (locked a.lock_resource ∷ []) (begin_stream a)
  ]

  -- `StreamActionRegistry.Execute`
  unfoldable pub execute_stream_action : StreamExecution
  unfolding run_stream begin_stream perform_stream
  execute_stream_action = elim (admit_stream r identity id m) [
    | err e ↦ stream_done [] (some e)
    | ok a ↦ perform_stream a
  ]
