-- ===== src/Broker/Registration/Entries.antt =====
-- The definitions that a registry holds after any registrations.
use pilothouse.Base.{
  ◌≡◌, ◌≢◌, refl, sym, ap, ◌∙◌, subst, String, Bool, true, false, not, Option, none, some, List, [],
  ◌∷◌, string_eq, ◌==◌, lookup, insert, if◌then◌else◌, arith, Result, ok, err, >>=-eq-ok, is_some,
  Bool-cases, Result-cases, inl, inr, lookup-insert, contains, distinct, contains-sort,
  distinct-sort,
}
use pilothouse.Auth.{Identity}
use pilothouse.Broker.Params.{Parameters, ParameterError, registered_parameters}
use pilothouse.Broker.Params.Exact.{registered_parameters_iff}
use pilothouse.Broker.Actions.{Fault, ActionDefinition, ActionRegistry}
use pilothouse.Broker.Registration.{
  OfferedAction, RegisterError, incomplete, already_registered, register_definition, stored_action,
  new_action_registry, wanted, checked, accepted,
}

-- The registry after a registration that may be refused.
abbrev pub after_offer : ActionRegistry → Result RegisterError ActionRegistry → ActionRegistry
after_offer r (err e) = r
after_offer r (ok r') = r'

-- A registry after the offers, the newest of which stands first.
unfoldable pub offered : ActionRegistry → List OfferedAction → ActionRegistry
offered r [] = r
offered r (o ∷ os) = after_offer (offered r os) (register_definition (offered r os) o)

-- What every stored definition is like.
pub record IsWellFormed (id : String) (d : ActionDefinition) : Type 0 where
  pub under_its_id : d.id ≡ id
  pub named : id ≢ ""
  pub no_empty_parameter : contains d.parameters "" ≡ false
  pub no_parameter_twice : distinct d.parameters ≡ true

-- What a registration that succeeds does.
record Registered (r r' : ActionRegistry) (o : OfferedAction) : Type 0 where
  handler : Identity → Parameters → Option Fault
  resource : Parameters → Result Fault String
  names : List String
  accepts : registered_parameters o.parameters ≡ ok names
  nonempty : o.id ≢ ""
  fresh : lookup o.id r.actions ≡ none
  stored : r'.actions ≡ insert o.id (stored_action o handler resource names) r.actions

wanted-eq-ok {ℓ} : {A : Type ℓ} (o : Option A) {a : A} → wanted o ≡ ok a → o ≡ some a
wanted-eq-ok none h = cc
wanted-eq-ok (some b) h = ground arith

checked-eq-ok : (b : Bool) (e : RegisterError) (u : Unit {0}) → checked (not b) e ≡ ok u → b ≡ false
checked-eq-ok b e u h = ground arith

accepted-eq-ok :
    (x : Result ParameterError (List String)) {names : List String}
    → accepted x ≡ ok names
    → x ≡ ok names
accepted-eq-ok (err e) h = cc
accepted-eq-ok (ok xs) h = ground arith

register_definition-Registered :
    (r r' : ActionRegistry) (o : OfferedAction)
    → register_definition r o ≡ ok r'
    → Registered r r' o
unfolding register_definition
register_definition-Registered r r' o h =
    let (u, nonempty, h1) = >>=-eq-ok (checked (not (o.id == "")) incomplete) _ h in
    let (handler, h', h2) = >>=-eq-ok (wanted o.handler) _ h1 in
    let (resource, s', h3) = >>=-eq-ok (wanted o.resource) _ h2 in
    let (names, accepts, h4) = >>=-eq-ok (accepted (registered_parameters o.parameters)) _ h3 in
    let (v, fresh, h5) =
      >>=-eq-ok (checked (not (is_some (lookup o.id r.actions))) already_registered) _ h4 in
    let absent = checked-eq-ok (is_some (lookup o.id r.actions)) already_registered v fresh in
    let some_id = checked-eq-ok (o.id == "") incomplete u nonempty in
    record {
      handler = handler;
      resource = resource;
      names = names;
      accepts = accepted-eq-ok (registered_parameters o.parameters) accepts;
      nonempty = ground (arith, some_id, string_eq.beq_iff o.id "");
      fresh = ground (arith, absent);
      stored = ground arith;
    }

none-neq-some {ℓ} : {A : Type ℓ} {o : Option A} {a : A} → o ≡ none → o ≡ some a → ⊥
none-neq-some h k = cc

-- A registration changes nothing under another id, and is refused under one that is taken.
pub registered_kept :
    (r r' : ActionRegistry) (o : OfferedAction) (id : String) (d : ActionDefinition)
    → register_definition r o ≡ ok r'
    → lookup id r.actions ≡ some d
    → (lookup id r'.actions ≡ some d) × (id ≢ o.id)
registered_kept r r' o id d h found =
    let x = register_definition-Registered r r' o h in
    let new = stored_action o x.handler x.resource x.names in
    let differ : id ≢ o.id =
      λ e. none-neq-some x.fresh (ap (λ i. lookup i r.actions) (sym e) ∙ found) in
    (
      rw (x.stored, lookup-insert o.id id new r.actions)
          (ground (arith, string_eq.beq_iff o.id id)),
      differ,
    )

new-IsWellFormed :
    (o : OfferedAction) (handler : Identity → Parameters → Option Fault)
    (resource : Parameters → Result Fault String) (names : List String)
    → registered_parameters o.parameters ≡ ok names
    → o.id ≢ ""
    → IsWellFormed o.id (stored_action o handler resource names)
unfolding stored_action
new-IsWellFormed o handler resource names accepts nonempty =
    let (full, d, made) = (registered_parameters_iff o.parameters names).0 accepts in
    record {
      under_its_id = refl;
      named = nonempty;
      no_empty_parameter = ap (λ xs. contains xs "") made ∙ contains-sort "" o.parameters ∙ full;
      no_parameter_twice = ap distinct made ∙ distinct-sort o.parameters ∙ d;
    }

Registered-IsWellFormed :
    (r r' : ActionRegistry) (o : OfferedAction) (id : String) (d : ActionDefinition)
    → Registered r r' o
    → (lookup id r.actions ≡ some d → IsWellFormed id d)
    → lookup id r'.actions ≡ some d
    → IsWellFormed id d
Registered-IsWellFormed r r' o id d x before found =
    let new = stored_action o x.handler x.resource x.names in
    let looked : (if o.id == id then some new else lookup id r.actions) ≡ some d =
      rw (← lookup-insert o.id id new r.actions) (rw x.stored at found) in
    elim (Bool-cases (o.id == id)) [
      | inr other ↦ before (rw other at looked)
      | inl same ↦
          let eq : o.id ≡ id = (string_eq.beq_iff o.id id).0 same in
          let made : some new ≡ some d = rw same at looked in
          subst (λ i. IsWellFormed i d) eq
            (subst (IsWellFormed o.id) (cc)
              (new-IsWellFormed o x.handler x.resource x.names x.accepts x.nonempty))
    ]

-- After any registrations a definition stands under its own id, which is not empty, and the names
-- of its parameters are not empty and not repeated.
pub offered-IsWellFormed :
    (has_audit has_jobs has_problems : Bool) (os : List OfferedAction) (id : String)
    (d : ActionDefinition)
    → lookup id (offered (new_action_registry has_audit has_jobs has_problems) os).actions ≡ some d
    → IsWellFormed id d
unfolding offered new_action_registry lookup
offered-IsWellFormed a j p [] id d found = cc
offered-IsWellFormed a j p (o ∷ os) id d found =
    let r = offered (new_action_registry a j p) os in
    elim (Result-cases (register_definition r o)) [
      | inl (r', done) ↦
          Registered-IsWellFormed r r' o id d (register_definition-Registered r r' o done)
            (offered-IsWellFormed a j p os id d) (rw done at found)
      | inr (e, refused) ↦ offered-IsWellFormed a j p os id d (rw refused at found)
    ]
