-- ===== src/Broker/Actions/Admit.antt =====
-- What `Execute` has established when it goes for the lock.
use pilothouse.Base.{
  ◌≡◌, ◌↔◌, subst, String, Bool, true, false, not, ◌&&◌, Option, none, some, string_eq, ◌==◌,
  lookup, arith, Result, ok, err, >>=-eq-ok,
}
use pilothouse.Auth.{Identity}
use pilothouse.Broker.Text.{invalid_text}
use pilothouse.Broker.Params.{Parameters, validate_parameters, validate_prepared_parameters}
use pilothouse.Broker.Actions.{
  Fault, ActionDefinition, ActionRegistry, ActionError, Admission, admit, prepare_with,
  resolve_resource, resolve_lock, find, guard, not_authorized, bad_parameters,
  confirmation_required_error,
}

-- The parameters are those of the caller, or what `Prepare` made of them and passed the check.
abbrev pub IsPrepared :
    Option (Identity → Parameters → Result Fault Parameters)
    → Identity
    → Parameters
    → Parameters
    → Type 0
IsPrepared none identity m prepared = prepared ≡ m
IsPrepared (some f) identity m prepared =
    (f identity m ≡ ok prepared) × (validate_prepared_parameters m prepared ≡ true)

abbrev pub IsLock :
    Option (Parameters → Result Fault String) → Parameters → String → String → Type 0
IsLock none m resource lock_resource = lock_resource ≡ resource
IsLock (some f) m resource lock_resource =
    (f m ≡ ok lock_resource) × (invalid_text 1024 lock_resource ≡ false)

-- The conditions of an admission.
pub record Admitted (r : ActionRegistry) (identity : Identity) (id : String)
    (parameters : Parameters) (confirmation : String) (a : Admission) : Type 0 where
  pub registered : lookup id r.actions ≡ some a.definition
  pub authorized : (a.definition.admin && not identity.admin) ≡ false
  pub valid : validate_parameters a.definition.parameters parameters ≡ true
  pub prepared : IsPrepared a.definition.prepare identity parameters a.parameters
  pub resolved : a.definition.resource a.parameters ≡ ok a.resource
  pub resource_valid : invalid_text 1024 a.resource ≡ false
  pub confirmed : (a.definition.confirmation_required && not (confirmation == a.resource)) ≡ false
  pub lock : IsLock a.definition.lock_resource a.parameters a.resource a.lock_resource

prepare_with_iff :
    (p : Option (Identity → Parameters → Result Fault Parameters)) (identity : Identity)
    (m m' : Parameters)
    → (prepare_with p identity m ≡ ok m') ↔ IsPrepared p identity m m'
unfolding prepare_with
prepare_with_iff none identity m m' = ground arith
prepare_with_iff (some f) identity m m' = ground arith

resolve_resource_iff :
    (x : Result Fault String) (s : String)
    → (resolve_resource x ≡ ok s) ↔ ((x ≡ ok s) × (invalid_text 1024 s ≡ false))
unfolding resolve_resource
resolve_resource_iff (err e) s = ground arith
resolve_resource_iff (ok t) s = ground arith

resolve_lock_iff :
    (p : Option (Parameters → Result Fault String)) (m : Parameters) (resource s : String)
    → (resolve_lock p m resource ≡ ok s) ↔ IsLock p m resource s
unfolding resolve_lock
resolve_lock_iff none m resource s = ground arith
resolve_lock_iff (some f) m resource s = ground arith

find_iff : (o : Option ActionDefinition) (d : ActionDefinition) → (find o ≡ ok d) ↔ (o ≡ some d)
find_iff none d = ground arith
find_iff (some e) d = ground arith

guard_iff : (b : Bool) (e : ActionError) (u : Unit {0}) → (guard (not b) e ≡ ok u) → b ≡ false
guard_iff b e u h = ground arith

guard-true : (b : Bool) (e : ActionError) (u : Unit {0}) → guard b e ≡ ok u → b ≡ true
guard-true b e u h = ground arith

module _ (r : ActionRegistry) (identity : Identity) (id : String) (parameters : Parameters)
    (confirmation : String) (a : Admission) where
  admit-Admitted :
      admit r identity id parameters confirmation ≡ ok a
      → Admitted r identity id parameters confirmation a
  unfolding admit
  admit-Admitted h =
      let (d, found, h1) = >>=-eq-ok (find (lookup id r.actions)) _ h in
      let (u1, authorized, h2) =
        >>=-eq-ok (guard (not (d.admin && not identity.admin)) not_authorized) _ h1 in
      let (u2, valid, h3) =
        >>=-eq-ok (guard (validate_parameters d.parameters parameters) bad_parameters) _ h2 in
      let (m, prepared, h4) = >>=-eq-ok (prepare_with d.prepare identity parameters) _ h3 in
      let (resource, resolved, h5) = >>=-eq-ok (resolve_resource (d.resource m)) _ h4 in
      let (u3, confirmed, h6) =
        >>=-eq-ok
          (guard (not (d.confirmation_required && not (confirmation == resource)))
            confirmation_required_error)
          _ h5 in
      let (lock, held, h7) = >>=-eq-ok (resolve_lock d.lock_resource m resource) _ h6 in
      let made : record {
        definition = d;
        parameters = m;
        resource = resource;
        lock_resource = lock;
      }
          ≡ a =
        ground arith in
      subst (Admitted r identity id parameters confirmation) made (record {
        registered = (find_iff _ d).0 found;
        authorized = guard_iff _ _ u1 authorized;
        valid = guard-true _ _ u2 valid;
        prepared = (prepare_with_iff d.prepare identity parameters m).0 prepared;
        resolved = ((resolve_resource_iff _ resource).0 resolved).0;
        resource_valid = ((resolve_resource_iff _ resource).0 resolved).1;
        confirmed = guard_iff _ _ u3 confirmed;
        lock = (resolve_lock_iff d.lock_resource m resource lock).0 held;
      })

  Admitted-admit :
      Admitted r identity id parameters confirmation a
      → admit r identity id parameters confirmation ≡ ok a
  unfolding admit
  Admitted-admit c = rw (
    c.registered,
    c.authorized,
    c.valid,
    (prepare_with_iff a.definition.prepare identity parameters a.parameters).1 c.prepared,
    (resolve_resource_iff (a.definition.resource a.parameters) a.resource).1
        (c.resolved, c.resource_valid),
    c.confirmed,
    (resolve_lock_iff a.definition.lock_resource a.parameters a.resource a.lock_resource).1 c.lock,
  )

-- `Execute` goes for the lock exactly when all conditions hold: the action is registered, an
-- admin's action is asked for by an admin, the parameters are valid, what `Prepare` made of them
-- passed its check, the resource and the resource of the lock are valid, and the confirmation is
-- the resource where one is required.
pub admit_iff :
    (r : ActionRegistry) (identity : Identity) (id : String) (parameters : Parameters)
    (confirmation : String) (a : Admission)
    → (admit r identity id parameters confirmation ≡ ok a)
      ↔ Admitted r identity id parameters confirmation a
admit_iff r identity id parameters confirmation a = (
  admit-Admitted r identity id parameters confirmation a,
  Admitted-admit r identity id parameters confirmation a,
)
