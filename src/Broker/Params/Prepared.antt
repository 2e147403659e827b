-- ===== src/Broker/Params/Prepared.antt =====
-- What the checks on parameters in internal/broker/actions.go let through.
use pilothouse.Base.{
  ◌≡◌, ◌≢◌, ◌∙◌, String, true, false, none, some, [], ◌∷◌, string_eq, nat_eq, ◌==◌, lookup, arith,
  Option-cases, inl, inr, ◌⊎◌,
}
use pilothouse.Broker.Text.{invalid_text}
use pilothouse.Broker.Params.{
  Parameters, value_at, validate_prepared_parameters, unchanged, from_external,
}

unchanged-lookup :
    (external prepared : Parameters) (name value : String)
    → unchanged external prepared ≡ true
    → lookup name external ≡ some value
    → value_at name prepared ≡ value
unfolding unchanged lookup
unchanged-lookup [] prepared name value h found = absurd (ground arith)
unchanged-lookup ((k, v) ∷ external) prepared name value h found = ground (
  arith,
  unchanged-lookup external prepared name value,
  string_eq.beq_iff k name,
  string_eq.beq_iff (value_at k prepared) v,
)

from_external-lookup :
    (external prepared : Parameters) (name value : String)
    → from_external external prepared ≡ true
    → (name == "_id") ≡ false
    → lookup name prepared ≡ some value
    → value_at name external ≡ value
unfolding from_external lookup
from_external-lookup external [] name value h other found = absurd (ground arith)
from_external-lookup external ((k, v) ∷ prepared) name value h other found = ground (
  arith,
  from_external-lookup external prepared name value,
  string_eq.beq_iff k name,
  string_eq.beq_iff (value_at k external) v,
)

from_external-id :
    (external prepared : Parameters) (value : String)
    → from_external external prepared ≡ true
    → lookup "_id" prepared ≡ some value
    → invalid_text 512 value ≡ false
unfolding from_external lookup
from_external-id external [] value h found = absurd (ground arith)
from_external-id external ((k, v) ∷ prepared) value h found =
    ground (arith, from_external-id external prepared value)

checked :
    (external prepared : Parameters)
    → validate_prepared_parameters external prepared ≡ true
    → (unchanged external prepared ≡ true) × (from_external external prepared ≡ true)
unfolding validate_prepared_parameters
checked external prepared h = ground arith

-- Prepared parameters that pass the check have under every name but "_id" the value that the caller
-- gave, the empty text standing for none.
pub prepared_value :
    (external prepared : Parameters) (name : String)
    → validate_prepared_parameters external prepared ≡ true
    → name ≢ "_id"
    → value_at name prepared ≡ value_at name external
prepared_value external prepared name h other =
    let (same, from) = checked external prepared h in
    let differs : (name == "_id") ≡ false = ground (arith, string_eq.beq_iff name "_id") in
    elim (Option-cases (lookup name external)) [
      | inr (value, given) ↦ unchanged-lookup external prepared name value same given ∙ ground arith
      | inl absent ↦ elim (Option-cases (lookup name prepared)) [
        | inl missing ↦ ground arith
        | inr (value, found) ↦
            ground (arith, from_external-lookup external prepared name value from differs found)
      ]
    ]

-- Where prepared parameters that pass the check hold an "_id", it is a valid text, and it is the
-- caller's where the caller gave one.
pub prepared_id :
    (external prepared : Parameters) (value : String)
    → validate_prepared_parameters external prepared ≡ true
    → lookup "_id" prepared ≡ some value
    → (invalid_text 512 value ≡ false)
      × ((lookup "_id" external ≡ none) ⊎ (lookup "_id" external ≡ some value))
prepared_id external prepared value h found =
    let (same, from) = checked external prepared h in
    (
      from_external-id external prepared value from found,
      elim (Option-cases (lookup "_id" external)) [
        | inl absent ↦ inl absent
        | inr (given, here) ↦
            inr (ground (arith, unchanged-lookup external prepared "_id" given same here))
      ],
    )
