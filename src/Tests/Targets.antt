-- ===== src/Tests/Targets.antt =====
-- A file system with the directory /srv/data, which is empty, and descriptors 3 and on.
use pilothouse.Base.{
  ◌≡◌, ◌≢◌, refl, inl, String, Bool, true, false, Option, some, List, [], ◌∷◌, string_eq, ◌==◌,
  if◌then◌else◌, ok, lookup,
}
use pilothouse.Storage.Names.{has_prefix}
use pilothouse.Storage.Targets.{
  PathFs, OpenFlags, OpenAnswer, opens, absent, path, path_directory, read_directory,
  TargetInventory, SystemCall, opened, closed, made, outcome, walk, walk_from, split_slash,
  validate_directory, validate_policy, valid_target, valid_inventory, valid_owners, has_conflict,
  protected_target, validate_target, create_at, create_target, remove_target,
}
use pilothouse.Storage.Targets.Descriptors.{IsBalanced, descriptors_closed}
use pilothouse.Storage.Targets.Policy.{SafeTarget, touches-SafeTarget}

abbrev answer : String → OpenFlags → OpenAnswer
answer name path = if name == "new" then absent else opens 5
answer name path_directory = opens 4
answer name read_directory = opens 6

abbrev disk : PathFs
disk = record {
  open_root = some 3;
  openat2 = λ parent name flags. answer name flags;
  is_directory = λ fd. some true;
  empty = λ fd. some true;
  mkdirat = λ parent leaf. true;
  unlinkat = λ parent leaf. true;
}

abbrev as_is : String → String
as_is s = s

abbrev printable : String → Bool
printable s = false

abbrev escaped : String → String
escaped s = "srv-new"

abbrev inventory : Option TargetInventory
inventory = some (record { managed_targets = []; mounts = "/srv/data" ∷ []; unit_owners = [] })

made_calls :
    create_target as_is printable escaped "0123" disk disk false "/srv/new" inventory
    ≡ outcome
        (opened 3
          ∷ opened 4
          ∷ closed 3
          ∷ closed 4
          ∷ opened 3
          ∷ opened 4
          ∷ closed 3
          ∷ made 4 "new"
          ∷ opened 6
          ∷ closed 6
          ∷ closed 4
          ∷ [])
        (ok true)
unfolding lookup create_target validate_target walk walk_from split_slash validate_directory
    validate_policy valid_target valid_inventory valid_owners has_conflict protected_target
    has_prefix create_at
made_calls = refl

descriptors_closed_example :
    IsBalanced (create_target as_is printable escaped "0123" disk disk false "/srv/new" inventory)
    × IsBalanced
        (remove_target as_is printable escaped "0123" disk disk false "/srv/new" true inventory)
descriptors_closed_example =
    descriptors_closed as_is printable escaped "0123" disk disk false true "/srv/new" inventory

calls_there : (x : SystemCall) (xs : List SystemCall) → x ∷ xs ≢ []
calls_there x xs e = cc

touches-SafeTarget_example : SafeTarget as_is printable escaped "0123" "/srv/new" inventory
unfolding lookup create_target validate_target walk walk_from split_slash validate_directory
    validate_policy valid_target valid_inventory valid_owners has_conflict protected_target
    has_prefix create_at
touches-SafeTarget_example =
    touches-SafeTarget as_is printable escaped "0123" disk disk false true "/srv/new" inventory
      (inl (calls_there _ _))
