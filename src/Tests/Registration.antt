-- ===== src/Tests/Registration.antt =====
-- Registrations of an action with two parameters, and of one with the same id.
use pilothouse.Base.{
  ◌≡◌, refl, ◌↔◌, true, false, none, some, [], ◌∷◌, string_eq, lookup, insert, sort, insert_sorted,
  precedes, compact,
}
use pilothouse.Broker.Params.{Parameters, registered_parameters, validate_parameters}
use pilothouse.Broker.Params.Exact.{Exactly, validate_parameters_iff}
use pilothouse.Broker.Actions.{ActionDefinition}
use pilothouse.Broker.Registration.{
  OfferedAction, new_action_registry, register_definition, stored_action,
}
use pilothouse.Broker.Registration.Entries.{offered, IsWellFormed, offered-IsWellFormed}
use pilothouse.Tests.Actions.{succeeding, by_name}

abbrev resize : OfferedAction
resize = record {
  admin = true;
  background = false;
  confirmation_required = true;
  handler = some succeeding;
  id = "volume.resize";
  lock_resource = none;
  non_blocking = false;
  parameters = "size" ∷ "name" ∷ [];
  prepare = none;
  reboot_required = false;
  resource = some by_name;
}

abbrev resize_again : OfferedAction
resize_again = record resize { parameters = [] }

abbrev stored : ActionDefinition
stored = stored_action resize succeeding by_name ("name" ∷ "size" ∷ [])

offered-IsWellFormed_example : IsWellFormed "volume.resize" stored
unfolding compact offered new_action_registry register_definition registered_parameters
    stored_action sort insert_sorted precedes lookup insert
offered-IsWellFormed_example =
    offered-IsWellFormed true true true (resize_again ∷ resize ∷ []) "volume.resize" stored refl

abbrev asked : Parameters
asked = ("name", "data") ∷ ("size", "10G") ∷ []

validate_parameters_iff_example :
    (validate_parameters ("name" ∷ "size" ∷ []) asked ≡ true) ↔ Exactly ("size" ∷ "name" ∷ []) asked
unfolding compact registered_parameters sort insert_sorted precedes lookup
validate_parameters_iff_example =
    validate_parameters_iff ("size" ∷ "name" ∷ []) ("name" ∷ "size" ∷ []) asked refl
      (refl, (refl, tt))
