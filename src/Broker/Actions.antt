-- ===== src/Broker/Actions.antt =====
-- internal/broker/actions.go: the registry of actions and the execution of one.
-- What a call meets outside the registry (locks, the stores behind the interfaces `auditStore` and
-- `jobStore`, the handler) is given by its answers, and what it does there is the list of events in
-- their order. Contexts and timeouts only show in the answers.
pub mod Admit
pub mod Effects
pub mod Protocol
pub mod Outcomes
use pilothouse.Base.{
  ℕ, String, Bool, true, false, not, ◌&&◌, ◌||◌, Option, none, some, List, [], ◌∷◌, ◌++◌, Map,
  string_eq, nat_eq, ◌==◌, lookup, insert, if◌then◌else◌, Result, ok, err, ◌>>=◌, is_some,
}
use pilothouse.Auth.{Identity}
use pilothouse.Broker.Text.{invalid_text}
use pilothouse.Broker.Params.{Parameters, validate_parameters, validate_prepared_parameters}

-- An error value: what `errors.Is` says of it, and its text.
pub record Fault : Type 0 where
  pub is_deadline : Bool
  pub is_canceled : Bool
  pub message : String

-- `errorCategory`
unfoldable pub error_category : Fault → String
error_category f =
    if f.is_deadline then "timeout" else if f.is_canceled then "cancelled" else "operation_failed"

-- The functions of a definition are Go functions that may be nil; `handler` and `resource` are not,
-- once a definition is registered.
pub record ActionDefinition : Type 0 where
  pub admin : Bool
  pub background : Bool
  pub confirmation_required : Bool
  pub handler : Identity → Parameters → Option Fault
  pub id : String
  pub lock_resource : Option (Parameters → Result Fault String)
  pub non_blocking : Bool
  pub parameters : List String
  pub prepare : Option (Identity → Parameters → Result Fault Parameters)
  pub reboot_required : Bool
  pub resource : Parameters → Result Fault String

pub record ActionRegistry : Type 0 where
  pub actions : Map String ActionDefinition
  pub has_audit : Bool
  pub has_jobs : Bool
  pub has_problems : Bool

pub data ActionError : Type 0 where
  unknown_action not_authorized bad_parameters : ActionError
  prepare_failed bad_prepared : ActionError
  resource_failed invalid_resource confirmation_required_error invalid_lock_resource : ActionError
  resource_busy lock_wait_failed audit_begin_failed : ActionError
  storage_unavailable enqueue_failed completion_uncertain : ActionError
  handler_failed : Fault → ActionError

-- What is settled before the lock is taken.
pub record Admission : Type 0 where
  pub definition : ActionDefinition
  pub parameters : Parameters
  pub resource : String
  pub lock_resource : String

abbrev guard : Bool → ActionError → Result ActionError (Unit {0})
guard true e = ok tt
guard false e = err e

abbrev find : Option ActionDefinition → Result ActionError ActionDefinition
find none = err unknown_action
find (some d) = ok d

-- `definition.Prepare`
prepare_with :
    Option (Identity → Parameters → Result Fault Parameters)
    → Identity
    → Parameters
    → Result ActionError Parameters
prepare_with none identity m = ok m
prepare_with (some f) identity m = elim (f identity m) [
  | err e ↦ err prepare_failed
  | ok prepared ↦ if validate_prepared_parameters m prepared then ok prepared else err bad_prepared
]

resolve_resource : Result Fault String → Result ActionError String
resolve_resource (err e) = err resource_failed
resolve_resource (ok s) = if invalid_text 1024 s then err invalid_resource else ok s

resolve_lock :
    Option (Parameters → Result Fault String) → Parameters → String → Result ActionError String
resolve_lock none m resource = ok resource
resolve_lock (some f) m resource = elim (f m) [
  | err e ↦ err invalid_lock_resource
  | ok s ↦ if invalid_text 1024 s then err invalid_lock_resource else ok s
]

-- `Execute` up to the lock.
unfoldable pub admit :
    ActionRegistry → Identity → String → Parameters → String → Result ActionError Admission
unfolding prepare_with resolve_resource resolve_lock
admit r identity id parameters confirmation = do
  d ← find (lookup id r.actions)
  _ ← guard (not (d.admin && not identity.admin)) not_authorized
  _ ← guard (validate_parameters d.parameters parameters) bad_parameters
  prepared ← prepare_with d.prepare identity parameters
  resource ← resolve_resource (d.resource prepared)
  _ ←
      guard (not (d.confirmation_required && not (confirmation == resource)))
        confirmation_required_error
  lock_resource ← resolve_lock d.lock_resource prepared resource
  ok (record {
    definition = d;
    parameters = prepared;
    resource = resource;
    lock_resource = lock_resource;
  })

-- The answers of what `Execute` calls.
pub record Answers : Type 0 where
  pub acquired : Bool
  pub lock_wait : Option Fault
  pub begin : Result Fault ℕ
  pub enqueue : Result Fault ℕ
  pub start : Option Fault
  pub job_complete : Option Fault
  pub audit_complete : Option Fault

pub data Event : Type 0 where
  locked released : String → Event
  began : (action resource username : String) (uid : ℕ) → Event
  completed : (record_id : ℕ) (outcome category : String) → Event
  enqueued : (action : String) (audit_id : ℕ) (resource username : String) (uid : ℕ) → Event
  started : (job : ℕ) → Event
  job_completed : (job : ℕ) (status category : String) (reboot_required : Bool) → Event
  handled : Parameters → Event
  problem : (code : String) → Fault → Event

abbrev pub outcome_succeeded : String
outcome_succeeded = "succeeded"

abbrev pub outcome_failed : String
outcome_failed = "failed"

abbrev pub outcome_unknown : String
outcome_unknown = "unknown"

abbrev pub problem_audit_write_failed : String
problem_audit_write_failed = "audit.write_failed"

abbrev pub problem_jobs_write_failed : String
problem_jobs_write_failed = "jobs.write_failed"

-- `recordProblem`: a nil recorder, a nil error and a cancellation record nothing.
unfoldable pub record_problem : Bool → String → Option Fault → List Event
record_problem has_recorder code none = []
record_problem has_recorder code (some f) =
    if has_recorder && not f.is_canceled then problem code f ∷ [] else []

-- What `runBackground` is started with.
pub record Task : Type 0 where
  pub admission : Admission
  pub identity : Identity
  pub record_id : ℕ
  pub job : ℕ

pub record Execution : Type 0 where
  pub events : List Event
  pub error : Option ActionError
  pub task : Option Task

abbrev pub finished : List Event → Option ActionError → Execution
finished events error = record { events = events; error = error; task = none }

-- The outcome and the category that the stores are told.
abbrev pub outcome_of : Option Fault → String
outcome_of none = outcome_succeeded
outcome_of (some f) = outcome_failed

abbrev pub category_of : Option Fault → String
category_of none = ""
category_of (some f) = error_category f

abbrev pub handler_error : Option Fault → Option ActionError
handler_error none = none
handler_error (some f) = some (handler_failed f)

module _ (r : ActionRegistry) (answers : Answers) (identity : Identity) (id : String) where
  -- The handler in the foreground, and the completion of the record.
  foreground : Admission → ℕ → Execution
  foreground a record_id =
      let result = a.definition.handler identity a.parameters in
      let run = handled a.parameters ∷ [] in
      let closing = completed record_id (outcome_of result) (category_of result) ∷ [] in
      let unlock = released a.lock_resource ∷ [] in
      let faults =
        record_problem r.has_problems problem_audit_write_failed answers.audit_complete in
      if r.has_audit
      then finished (run ++ (closing ++ (faults ++ unlock))) (
          if is_some answers.audit_complete
          then some completion_uncertain
          else handler_error result)
      else finished (run ++ unlock) (handler_error result)

  -- The background branch.
  background : Admission → ℕ → Execution
  background a record_id =
      let unlock = released a.lock_resource ∷ [] in
      let faults =
        record_problem r.has_problems problem_audit_write_failed answers.audit_complete in
      let queue = enqueued id record_id a.resource identity.username identity.uid ∷ [] in
      if not r.has_jobs || not r.has_audit
      then finished unlock (some storage_unavailable)
      else elim answers.enqueue [
        | err f ↦
            finished
              (queue
                ++ (record_problem r.has_problems problem_jobs_write_failed (some f)
                    ++ (unlock ++ (completed record_id outcome_failed "enqueue_failed" ∷ faults))))
              (some enqueue_failed)
        | ok job ↦ record {
          events = queue;
          error = none;
          task =
              some
                (record { admission = a; identity = identity; record_id = record_id; job = job });
        }
      ]

  after_begin : Admission → ℕ → Execution
  after_begin a record_id =
      if a.definition.background then background a record_id else foreground a record_id

  abbrev pub prefixed : List Event → Execution → Execution
  prefixed es x = record x { events = es ++ x.events }

  -- From the lock to the handler.
  pub after_lock : Admission → Execution
  after_lock a =
      if r.has_audit
      then elim answers.begin [
        | err f ↦
            finished
              (began id a.resource identity.username identity.uid
                ∷ (record_problem r.has_problems problem_audit_write_failed (some f)
                    ++ released a.lock_resource ∷ []))
              (some audit_begin_failed)
        | ok record_id ↦
            prefixed (began id a.resource identity.username identity.uid ∷ [])
              (after_begin a record_id)
      ]
      else after_begin a 0

  -- The way a lock is taken.
  pub perform : Admission → Execution
  perform a =
      let going = prefixed (locked a.lock_resource ∷ []) (after_lock a) in
      if a.definition.background || a.definition.non_blocking
      then if answers.acquired then going else finished [] (some resource_busy)
      else elim answers.lock_wait [ some f ↦ finished [] (some lock_wait_failed) | none ↦ going ]

  -- `Execute`
  unfoldable pub execute : Parameters → String → Execution
  unfolding foreground background after_begin after_lock perform
  execute parameters confirmation = elim (admit r identity id parameters confirmation) [
    | err e ↦ finished [] (some e)
    | ok a ↦ perform a
  ]

-- `runBackground`
unfoldable pub run_background : Bool → Answers → Task → List Event
run_background has_problems answers t =
    let d = t.admission.definition in
    let unlock = released t.admission.lock_resource ∷ [] in
    let faults = record_problem has_problems problem_audit_write_failed answers.audit_complete in
    let result = d.handler t.identity t.admission.parameters in
    elim answers.start [
      | some f ↦
          started t.job
          ∷ (record_problem has_problems problem_jobs_write_failed (some f)
              ++ completed t.record_id outcome_unknown "job_start_failed" ∷ (faults ++ unlock))
      | none ↦
          started t.job
          ∷ handled t.admission.parameters
          ∷ job_completed t.job (outcome_of result) (category_of result)
              (not (is_some result) && d.reboot_required)
          ∷ (record_problem has_problems problem_jobs_write_failed answers.job_complete
              ++ completed t.record_id
                  (if is_some answers.job_complete then outcome_unknown else outcome_of result)
                  (if is_some answers.job_complete
                    then "job_completion_failed"
                    else category_of result)
                ∷ (faults ++ unlock))
    ]
