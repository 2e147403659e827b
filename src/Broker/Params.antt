-- ===== src/Broker/Params.antt =====
-- The parameters of actions in internal/broker/actions.go: a Go map from names to values.
pub mod Prepared
pub mod Exact
use Prim.Native.String.{len}
use pilothouse.Base.{
  ℕ, ◌+◌, String, Bool, true, false, not, ◌&&◌, ◌||◌, Option, none, some, List, [], ◌∷◌, Map,
  string_eq, nat_eq, ◌==◌, lookup, length, if◌then◌else◌, sort, compact, contains, Result, ok, err,
}
use pilothouse.Broker.Text.{invalid_text}

abbrev pub Parameters : Type 0
Parameters = Map String String

-- `m[k]`, which is the empty text where the key is missing.
abbrev pub value_at : String → Parameters → String
value_at name m = elim (lookup name m) [ none ↦ "" | some v ↦ v ]

-- The test on one parameter of `validateParameters`.
abbrev pub valid_value : ℕ → Option String → Bool
valid_value limit none = false
valid_value limit (some value) = not (invalid_text limit value)

unfoldable pub valid_names : List String → Parameters → Bool
valid_names [] m = true
valid_names (name ∷ names) m =
    let rest = valid_names names m in if valid_value 512 (lookup name m) then rest else false

-- `validateParameters(expected, parameters) == nil`
unfoldable pub validate_parameters : List String → Parameters → Bool
unfolding valid_names
validate_parameters expected m =
    if length m == length expected then valid_names expected m else false

-- The first loop of `validatePreparedParameters`.
unfoldable pub unchanged : Parameters → Parameters → Bool
unchanged [] prepared = true
unchanged ((name, value) ∷ external) prepared =
    let rest = unchanged external prepared in
    if value_at name prepared == value then rest else false

-- The second loop.
unfoldable pub from_external : Parameters → Parameters → Bool
from_external external [] = true
from_external external ((name, value) ∷ prepared) =
    let rest = from_external external prepared in
    if name == "_id"
    then (if invalid_text 512 value then false else rest)
    else if value_at name external == value
    then rest
    else false

-- `validatePreparedParameters(external, prepared) == nil`
unfoldable pub validate_prepared_parameters : Parameters → Parameters → Bool
unfolding unchanged from_external
validate_prepared_parameters external prepared =
    if length prepared == length external || length prepared == length external + 1
    then unchanged external prepared && from_external external prepared
    else false

pub data ParameterError : Type 0 where
  empty_name duplicate_name : ParameterError

-- The checks on the names of the parameters at a registration: `slices.Contains`, `slices.Sort` and
-- `slices.Compact`.
unfoldable pub registered_parameters : List String → Result ParameterError (List String)
registered_parameters names =
    let compacted = compact (sort names) in
    if contains names ""
    then err empty_name
    else if length compacted == length names
    then ok compacted
    else err duplicate_name
