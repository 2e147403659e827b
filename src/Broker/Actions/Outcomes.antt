-- ===== src/Broker/Actions/Outcomes.antt =====
-- What a whole call of `Execute`, its background task included, guarantees.
use pilothouse.Base.{
  ◌≡◌, ◌≢◌, sym, ap, subst, ◌↔◌, String, true, false, not, ◌&&◌, ◌||◌, Option, none, some, List, [],
  ◌∷◌, string_eq, arith, bit, count, ok, err, Result-cases, Bool-cases, inl, inr, is_some,
}
use pilothouse.Auth.{Identity}
use pilothouse.Broker.Params.{Parameters}
use pilothouse.Broker.Actions.{
  ActionRegistry, ActionError, Admission, Answers, Event, locked, admit, execute, perform,
  after_lock, after_begin, foreground, finished,
}
use pilothouse.Broker.Actions.Admit.{Admitted, admit_iff}
use pilothouse.Broker.Actions.Effects.{
  all_events, is_ok, acquires, is_handled, is_success, tally-perform,
}
use pilothouse.Broker.Actions.Protocol.{
  begun_number, untaken, unbegun, follows, follows_nothing, follows-perform,
}

module _ (r : ActionRegistry) (now later : Answers) (identity : Identity) (id : String)
    (parameters : Parameters) (confirmation : String) where
  abbrev pub call_events : List Event
  call_events = all_events r.has_problems later (execute r now identity id parameters confirmation)

  abbrev pub call_error : Option ActionError
  call_error = (execute r now identity id parameters confirmation).error

  execute_rejected :
      (e : ActionError)
      → admit r identity id parameters confirmation ≡ err e
      → execute r now identity id parameters confirmation ≡ finished [] (some e)
  unfolding execute
  execute_rejected e h = rw (execute, h)

  execute_admitted :
      (a : Admission)
      → admit r identity id parameters confirmation ≡ ok a
      → execute r now identity id parameters confirmation ≡ perform r now identity id a
  unfolding execute
  execute_admitted a h = rw (execute, h)

  follows_execute :
      (r.has_audit && not r.has_jobs) ≡ false
      → follows r.has_audit (begun_number now.begin) untaken unbegun call_events ≡ some false
  follows_execute h = elim (Result-cases (admit r identity id parameters confirmation)) [
    | inl (a, admitted) ↦
        rw (execute_admitted a admitted) (ground (arith, follows-perform r now later identity id a))
    | inr (e, rejected) ↦
        rw (execute_rejected e rejected) (follows_nothing r.has_audit (begun_number now.begin))
  ]

-- A call of an action and its background task keep to the order of things, whatever the stores and
-- the handler answer, where the registry has a job store or no audit store: the lock is taken at most
-- once, and given back where it was taken; the handler and the job run under it; the handler runs
-- with a pending record of the audit where there is an audit store; at most one record is begun, and
-- the one that was begun is completed once, by the number that the audit store gave it.
pub execute_protocol :
    (r : ActionRegistry) (now later : Answers) (identity : Identity) (id : String)
    (parameters : Parameters) (confirmation : String)
    → (r.has_audit && not r.has_jobs) ≡ false
    → follows r.has_audit
        (begun_number now.begin)
        untaken
        unbegun
        (call_events r now later identity id parameters confirmation)
      ≡ some false
execute_protocol r now later identity id parameters confirmation =
    follows_execute r now later identity id parameters confirmation

-- A background action of a registry with an audit store and without a job store, admitted and given
-- the lock, begins a record that is never completed.
pub execute-abandoned :
    (r : ActionRegistry) (now later : Answers) (identity : Identity) (id : String)
    (parameters : Parameters) (confirmation : String) (a : Admission)
    → admit r identity id parameters confirmation ≡ ok a
    → a.definition.background ≡ true
    → r.has_audit ≡ true
    → r.has_jobs ≡ false
    → acquires now a ≡ true
    → is_ok now.begin ≡ true
    → follows r.has_audit
        (begun_number now.begin)
        untaken
        unbegun
        (call_events r now later identity id parameters confirmation)
      ≡ some true
execute-abandoned r now later identity id parameters confirmation a admitted background has lacks
      got begun =
    rw (execute_admitted r now later identity id parameters confirmation a admitted)
      (ground (arith, follows-perform r now later identity id a))

-- When an admitted call runs the handler: once, if it gets the lock, can begin its record where there
-- is an audit store, and, in the background, has both stores and its job could be queued and
-- started; and else not at all.
pub handler_runs :
    (r : ActionRegistry) (now later : Answers) (identity : Identity) (id : String)
    (parameters : Parameters) (confirmation : String) (a : Admission)
    → admit r identity id parameters confirmation ≡ ok a
    → count is_handled (call_events r now later identity id parameters confirmation)
      ≡ bit (
          acquires now a
          && (is_ok now.begin || not r.has_audit)
          && (not a.definition.background
              || (r.has_jobs && r.has_audit && is_ok now.enqueue && not (is_some later.start))))
handler_runs r now later identity id parameters confirmation a admitted =
    rw (execute_admitted r now later identity id parameters confirmation a admitted)
      (ground (arith, tally-perform r now later identity id a ""))

-- An admitted call tells the audit store of a success exactly when its handler ran and succeeded
-- and, in the background, its job was recorded as completed.
pub success_recorded :
    (r : ActionRegistry) (now later : Answers) (identity : Identity) (id : String)
    (parameters : Parameters) (confirmation : String) (a : Admission)
    → admit r identity id parameters confirmation ≡ ok a
    → count is_success (call_events r now later identity id parameters confirmation)
      ≡ bit (
          acquires now a
          && r.has_audit
          && is_ok now.begin
          && not (is_some (a.definition.handler identity a.parameters))
          && (not a.definition.background
              || (r.has_jobs
                  && is_ok now.enqueue
                  && not (is_some later.start)
                  && not (is_some later.job_complete))))
success_recorded r now later identity id parameters confirmation a admitted =
    rw (execute_admitted r now later identity id parameters confirmation a admitted)
      (ground (arith, tally-perform r now later identity id a ""))

first_locked :
    (r : ActionRegistry) (now : Answers) (identity : Identity) (id : String) (a : Admission)
    → (perform r now identity id a).events ≢ []
    → (rest : List Event) × (perform r now identity id a).events ≡ locked a.lock_resource ∷ rest
unfolding perform
first_locked r now identity id a h = elim (Bool-cases (acquires now a)) [
  | inl got ↦ ((after_lock r now identity id a).events, ground arith)
  | inr busy ↦ absurd (ground arith)
]

-- A call that does anything at all was admitted, which `Admitted` describes, and what it does first
-- is to take the lock of its action.
pub acts-Admitted :
    (r : ActionRegistry) (now : Answers) (identity : Identity) (id : String)
    (parameters : Parameters) (confirmation : String)
    → (execute r now identity id parameters confirmation).events ≢ []
    → (a : Admission) × Admitted r identity id parameters confirmation a
      × ((rest : List Event) × (execute r now identity id parameters confirmation).events
            ≡ locked a.lock_resource ∷ rest)
acts-Admitted r now identity id parameters confirmation h =
    elim (Result-cases (admit r identity id parameters confirmation)) [
      | inl (a, admitted) ↦
          let runs = execute_admitted r now now identity id parameters confirmation a admitted in
          let (rest, e) = first_locked r now identity id a (subst (λ x. x.events ≢ []) runs h) in
          (
            a,
            (admit_iff r identity id parameters confirmation a).0 admitted,
            (rest, subst (λ x. x.events ≡ locked a.lock_resource ∷ rest) (sym runs) e),
          )
      | inr (e, rejected) ↦ absurd (
          h (
            ap (λ x. x.events)
              (execute_rejected r now now identity id parameters confirmation e rejected)))
    ]

perform_error :
    (r : ActionRegistry) (now : Answers) (identity : Identity) (id : String) (a : Admission)
    → a.definition.background ≡ false
    → ((perform r now identity id a).error ≡ none) ↔ (
        (acquires now a ≡ true)
        × ((r.has_audit && not (is_ok now.begin)) ≡ false)
        × ((r.has_audit && is_some now.audit_complete) ≡ false)
        × (a.definition.handler identity a.parameters ≡ none))
unfolding perform after_lock after_begin foreground
perform_error r now identity id a front = ground arith

-- When an admitted call in the foreground reports no error: it got the lock, could begin and
-- complete its record where there is an audit store, and its handler succeeded.
pub foreground_error :
    (r : ActionRegistry) (now : Answers) (identity : Identity) (id : String)
    (parameters : Parameters) (confirmation : String) (a : Admission)
    → admit r identity id parameters confirmation ≡ ok a
    → a.definition.background ≡ false
    → ((execute r now identity id parameters confirmation).error ≡ none) ↔ (
        (acquires now a ≡ true)
        × ((r.has_audit && not (is_ok now.begin)) ≡ false)
        × ((r.has_audit && is_some now.audit_complete) ≡ false)
        × (a.definition.handler identity a.parameters ≡ none))
foreground_error r now identity id parameters confirmation a admitted front =
    rw (execute_admitted r now now identity id parameters confirmation a admitted)
      (perform_error r now identity id a front)
