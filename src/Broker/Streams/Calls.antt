-- ===== src/Broker/Streams/Calls.antt =====
-- What the calls of stream queries and stream actions guarantee.
use pilothouse.Base.{
  ℕ, ◌≡◌, subst, String, Bool, true, false, not, ◌&&◌, ◌||◌, Option, none, some, string_eq, lookup,
  arith, Result, ok, err, >>=-eq-ok, Bool-cases, Result-cases, inl, inr, eq_refl,
}
use pilothouse.Auth.{Identity}
use pilothouse.Broker.Params.{Parameters}
use pilothouse.Broker.Actions.Protocol.{
  begun_number, untaken, unbegun, holding, record_of, follows, follows_nothing, problem_follows,
}
use pilothouse.Broker.Streams.Metadata.{validate_stream_parameters}
use pilothouse.Broker.Faults.{HandlerFault}
use pilothouse.Broker.Streams.{
  StreamResult, StreamQueryDefinition, StreamQueryRegistry, StreamActionRegistry, StreamError,
  stream_guard, stream_found, of_handler, is_negative, exceeds, execute_stream_query,
  stream_not_authorized, bad_stream_parameters, stream_too_large, StreamAdmission, StreamAnswers,
  run_stream, begin_stream, perform_stream, execute_stream_action, admit_stream,
}

-- A query that is answered.
pub record Answered (queries : StreamQueryRegistry) (identity : Identity) (id : String)
    (m : Parameters) (x : StreamResult) : Type 0 where
  pub definition : StreamQueryDefinition
  pub registered : lookup id queries ≡ some definition
  pub authorized : (definition.admin && not identity.admin) ≡ false
  pub valid : validate_stream_parameters definition.parameters m ≡ true
  pub handled : definition.handler identity m ≡ ok x
  pub with_body : x.has_body ≡ true
  pub from_zero : is_negative x.size ≡ false
  pub within : exceeds x.size definition.limit ≡ false

found-eq-ok : {A : Type 0} (o : Option A) {a : A} → stream_found o ≡ ok a → o ≡ some a
found-eq-ok none h = cc
found-eq-ok (some b) h = ground arith

handler-eq-ok :
    (x : Result HandlerFault StreamResult) {a : StreamResult} → of_handler x ≡ ok a → x ≡ ok a
handler-eq-ok (err e) h = cc
handler-eq-ok (ok b) h = ground arith

guard-eq-ok : (b : Bool) (e : StreamError) (u : Unit {0}) → stream_guard b e ≡ ok u → b ≡ true
guard-eq-ok b e u h = ground arith

-- A stream query answers only whom and what its definition allows, and only with a body whose size
-- is not negative and not above the registered limit.
pub execute_stream_query-Answered :
    (queries : StreamQueryRegistry) (identity : Identity) (id : String) (m : Parameters)
    (x : StreamResult)
    → execute_stream_query queries identity id m ≡ ok x
    → Answered queries identity id m x
unfolding execute_stream_query
execute_stream_query-Answered queries identity id m x h =
    let (d, found, h1) = >>=-eq-ok (stream_found (lookup id queries)) _ h in
    let (u1, authorized, h2) =
      >>=-eq-ok (stream_guard (not (d.admin && not identity.admin)) stream_not_authorized) _ h1 in
    let (u2, valid, h3) =
      >>=-eq-ok (stream_guard (validate_stream_parameters d.parameters m) bad_stream_parameters) _
        h2 in
    let (y, ran, h4) = >>=-eq-ok (of_handler (d.handler identity m)) _ h3 in
    let (u3, bounded, h5) =
      >>=-eq-ok
        (stream_guard (not (not y.has_body || (is_negative y.size || exceeds y.size d.limit)))
          stream_too_large)
        _ h4 in
    let same : y ≡ x = ground arith in
    let allowed =
      guard-eq-ok (not (d.admin && not identity.admin)) stream_not_authorized u1 authorized in
    let fits =
      guard-eq-ok (not (not y.has_body || (is_negative y.size || exceeds y.size d.limit)))
        stream_too_large u3 bounded in
    subst (Answered queries identity id m) same (record {
      definition = d;
      registered = found-eq-ok (lookup id queries) found;
      authorized = ground arith;
      valid = guard-eq-ok _ _ u2 valid;
      handled = handler-eq-ok (d.handler identity m) ran;
      with_body = ground arith;
      from_zero = ground arith;
      within = ground arith;
    })

module _ (r : StreamActionRegistry) (answers : StreamAnswers) (identity : Identity) (id : String)
    (m : Parameters) (number : Option ℕ) where
  follows-run_stream :
      (a : StreamAdmission) (rid : ℕ)
      → follows r.has_audit number
          (holding a.lock_resource)
          (record_of r.has_audit rid)
          (run_stream r answers identity id m a rid).events
        ≡ some false
  unfolding run_stream follows
  follows-run_stream a rid = elim (Bool-cases r.has_audit) [
    | inl has ↦ rw has (simp (problem_follows, eq_refl))
    | inr lacks ↦ rw (lacks, eq_refl)
  ]

module _ (r : StreamActionRegistry) (answers : StreamAnswers) (identity : Identity) (id : String)
    (m : Parameters) where
  follows-begin_stream :
      (a : StreamAdmission)
      → follows r.has_audit
          (begun_number answers.begin)
          (holding a.lock_resource)
          unbegun
          (begin_stream r answers identity id m a).events
        ≡ some false
  unfolding begin_stream follows
  follows-begin_stream a = elim (Bool-cases r.has_audit) [
    | inr lacks ↦
        ground (arith, follows-run_stream r answers identity id m (begun_number answers.begin) a 0)
    | inl has ↦ elim (Result-cases answers.begin) [
      | inl (rid, begun) ↦
          ground
            (arith, follows-run_stream r answers identity id m (begun_number answers.begin) a rid)
      | inr (f, failed) ↦ rw (has, failed) (simp (problem_follows, eq_refl))
    ]
  ]

  follows-perform_stream :
      (a : StreamAdmission)
      → follows r.has_audit
          (begun_number answers.begin)
          untaken
          unbegun
          (perform_stream r answers identity id m a).events
        ≡ some false
  unfolding perform_stream follows
  follows-perform_stream a = ground (arith, follows-begin_stream a)

  -- A call of a stream action keeps to the order of things, whatever its stores and its handler
  -- answer: the lock is taken at most once, and given back where it was taken; the handler runs under
  -- it, with a pending record of the audit where there is an audit store; at most one record is begun,
  -- and the one that was begun is completed once, by the number that the audit store gave it.
  pub stream_protocol :
      follows r.has_audit
        (begun_number answers.begin)
        untaken
        unbegun
        (execute_stream_action r answers identity id m).events
      ≡ some false
  unfolding execute_stream_action
  stream_protocol = elim (Result-cases (admit_stream r identity id m)) [
    | inl (a, admitted) ↦ rw (execute_stream_action, admitted) (follows-perform_stream a)
    | inr (e, rejected) ↦
        rw (execute_stream_action, rejected)
          (follows_nothing r.has_audit (begun_number answers.begin))
  ]
