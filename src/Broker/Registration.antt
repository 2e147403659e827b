-- ===== src/Broker/Registration.antt =====
-- internal/broker/actions.go: the registration of actions, and the registry of queries.
pub mod Entries
use pilothouse.Base.{
  ℕ, String, Bool, true, false, not, ◌&&◌, ◌||◌, Option, none, some, List, [], ◌∷◌, Map, string_eq,
  ◌==◌, lookup, insert, if◌then◌else◌, Result, ok, err, ◌>>=◌, is_some,
}
use pilothouse.Auth.{Identity}
use pilothouse.Broker.Faults.{HandlerFault}
use pilothouse.Broker.Params.{Parameters, ParameterError, registered_parameters}
use pilothouse.Broker.Actions.{Fault, ActionDefinition, ActionRegistry}

-- A definition as it is offered to `RegisterDefinition`: its functions may be nil.
pub record OfferedAction : Type 0 where
  pub admin : Bool
  pub background : Bool
  pub confirmation_required : Bool
  pub handler : Option (Identity → Parameters → Option Fault)
  pub id : String
  pub lock_resource : Option (Parameters → Result Fault String)
  pub non_blocking : Bool
  pub parameters : List String
  pub prepare : Option (Identity → Parameters → Result Fault Parameters)
  pub reboot_required : Bool
  pub resource : Option (Parameters → Result Fault String)

pub data RegisterError : Type 0 where
  incomplete already_registered : RegisterError
  invalid_parameters : ParameterError → RegisterError

-- `NewActionRegistry`, `UseJobs` and `UseProblems`
unfoldable pub new_action_registry : Bool → Bool → Bool → ActionRegistry
new_action_registry has_audit has_jobs has_problems = record {
  actions = [];
  has_audit = has_audit;
  has_jobs = has_jobs;
  has_problems = has_problems;
}

abbrev pub wanted {ℓ} : {A : Type ℓ} → Option A → Result RegisterError A
wanted none = err incomplete
wanted (some a) = ok a

abbrev pub checked : Bool → RegisterError → Result RegisterError (Unit {0})
checked true e = ok tt
checked false e = err e

abbrev pub accepted : Result ParameterError (List String) → Result RegisterError (List String)
accepted (err e) = err (invalid_parameters e)
accepted (ok names) = ok names

-- The definition that is stored.
unfoldable pub stored_action :
    OfferedAction
    → (Identity → Parameters → Option Fault)
    → (Parameters → Result Fault String)
    → List String
    → ActionDefinition
stored_action o handler resource names = record {
  admin = o.admin;
  background = o.background;
  confirmation_required = o.confirmation_required;
  handler = handler;
  id = o.id;
  lock_resource = o.lock_resource;
  non_blocking = o.non_blocking;
  parameters = names;
  prepare = o.prepare;
  reboot_required = o.reboot_required;
  resource = resource;
}

-- `RegisterDefinition`
unfoldable pub register_definition :
    ActionRegistry → OfferedAction → Result RegisterError ActionRegistry
register_definition r o = do
  _ ← checked (not (o.id == "")) incomplete
  handler ← wanted o.handler
  resource ← wanted o.resource
  names ← accepted (registered_parameters o.parameters)
  _ ← checked (not (is_some (lookup o.id r.actions))) already_registered
  ok (record r { actions = insert o.id (stored_action o handler resource names) r.actions })

-- `Register`
unfoldable pub register :
    ActionRegistry
    → String
    → Bool
    → Option (Identity → Parameters → Option Fault)
    → Result RegisterError ActionRegistry
register r id admin handler = register_definition r (record {
  admin = admin;
  background = false;
  confirmation_required = false;
  handler = handler;
  id = id;
  lock_resource = none;
  non_blocking = false;
  parameters = [];
  prepare = none;
  reboot_required = false;
  resource = some (λ m. ok id);
})

-- `Registered`
unfoldable pub registered : ActionRegistry → String → Bool
registered r id = is_some (lookup id r.actions)

-- The queries; `A` is the type of their results.
module _ (A : Type 0) where
  pub record RegisteredQuery : Type 0 where
    pub admin : Bool
    pub handler : Identity → Parameters → Result HandlerFault A

  abbrev pub QueryRegistry : Type 0
  QueryRegistry = Map String RegisteredQuery

  pub data QueryError : Type 0 where
    unknown_query query_not_authorized : QueryError
    query_failed : HandlerFault → QueryError

  -- `QueryRegistry.Register`
  unfoldable pub register_query :
      QueryRegistry
      → String
      → Bool
      → Option (Identity → Parameters → Result HandlerFault A)
      → Result RegisterError QueryRegistry
  register_query queries id admin handler = do
    _ ← checked (not (id == "")) incomplete
    h ← wanted handler
    _ ← checked (not (is_some (lookup id queries))) already_registered
    ok (insert id (record { admin = admin; handler = h }) queries)

  run_query : Option RegisteredQuery → Identity → Parameters → Result QueryError A
  run_query none identity m = err unknown_query
  run_query (some query) identity m =
      if query.admin && not identity.admin
      then err query_not_authorized
      else elim (query.handler identity m) [ err f ↦ err (query_failed f) | ok a ↦ ok a ]

  -- `QueryRegistry.Execute`
  unfoldable pub execute_query :
      QueryRegistry → Identity → String → Parameters → Result QueryError A
  unfolding run_query
  execute_query queries identity id m = run_query (lookup id queries) identity m
