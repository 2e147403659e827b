-- ===== src/Tests/Params.antt =====
-- Prepared parameters: an action that adds the "_id" it has looked up.
use pilothouse.Base.{◌≡◌, ◌≢◌, refl, String, true, false, [], ◌∷◌, lookup, string_eq, ◌==◌, arith}
use pilothouse.Broker.Text.{invalid_text, contains_break}
use pilothouse.Broker.Params.{
  Parameters, value_at, validate_prepared_parameters, unchanged, from_external,
}
use pilothouse.Broker.Params.Prepared.{prepared_value}

abbrev asked : Parameters
asked = ("name", "web") ∷ []

abbrev looked_up : Parameters
looked_up = ("name", "web") ∷ ("_id", "4f2a") ∷ []

accepted : validate_prepared_parameters asked looked_up ≡ true
unfolding validate_prepared_parameters unchanged from_external lookup invalid_text contains_break
accepted = refl

-- A value that was changed, and a name that was not asked for.
changed_refused : validate_prepared_parameters asked (("name", "db") ∷ []) ≡ false
unfolding validate_prepared_parameters unchanged from_external lookup
changed_refused = refl

added_refused : validate_prepared_parameters asked (("name", "web") ∷ ("force", "yes") ∷ []) ≡ false
unfolding validate_prepared_parameters unchanged from_external lookup
added_refused = refl

-- An empty value is not noticed.
empty_accepted : validate_prepared_parameters asked (("name", "web") ∷ ("force", "") ∷ []) ≡ true
unfolding validate_prepared_parameters unchanged from_external lookup
empty_accepted = refl

differ : (a b : String) → (a == b) ≡ false → a ≢ b
differ a b h e = ground (arith, string_eq.beq_iff a b)

prepared_value_example : value_at "name" looked_up ≡ value_at "name" asked
prepared_value_example = prepared_value asked looked_up "name" accepted (differ "name" "_id" refl)
