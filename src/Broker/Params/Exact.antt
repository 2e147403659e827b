-- ===== src/Broker/Params/Exact.antt =====
-- What a registration makes of the names of parameters, and which parameters a call may then have.
use pilothouse.Base.{
  ℕ, ◌≡◌, ◌↔◌, refl, sym, ap, ◌∙◌, String, Bool, true, false, Option, some, List, [], ◌∷◌,
  string_eq, nat_eq, ◌==◌, lookup, erase, length, arith, Bool-cases, Option-cases, inl, inr, ok,
  sort, compact, contains, distinct, length-sort, sort-IsOrdered, distinct-sort, compact-distinct,
  distinct_of_compact, contains-sort, is_some, HasDistinctKeys, length-erase, lookup-erase,
  erase-HasDistinctKeys, eq_refl,
}
use pilothouse.Broker.Text.{invalid_text}
use pilothouse.Broker.Params.{
  Parameters, validate_parameters, valid_names, valid_value, registered_parameters,
}

registered_forth :
    (names made : List String)
    → registered_parameters names ≡ ok made
    → (contains names "" ≡ false) × (distinct names ≡ true) × (made ≡ sort names)
unfolding registered_parameters
registered_forth names made h =
    let full : length (compact (sort names)) ≡ length (sort names) =
      ground
        (arith, length-sort names, nat_eq.beq_iff (length (compact (sort names))) (length names)) in
    let d = distinct_of_compact (sort names) (sort-IsOrdered names) full in
    (ground arith, sym (distinct-sort names) ∙ d, ground (arith, compact-distinct (sort names) d))

registered_back :
    (names : List String)
    → contains names "" ≡ false
    → distinct names ≡ true
    → registered_parameters names ≡ ok (sort names)
unfolding registered_parameters
registered_back names full d =
    ground (arith, compact-distinct (sort names) (distinct-sort names ∙ d), length-sort names)

-- The names of parameters are accepted at a registration exactly if none is empty and none stands
-- twice, and are then stored in order.
pub registered_parameters_iff :
    (names made : List String)
    → (registered_parameters names ≡ ok made)
      ↔ ((contains names "" ≡ false) × (distinct names ≡ true) × (made ≡ sort names))
registered_parameters_iff names made =
    (registered_forth names made, λ (full, d, e). registered_back names full d ∙ ap ok (sym e))

-- The parameters are just those with the expected names, each with a valid value.
pub record Exactly (expected : List String) (m : Parameters) : Type 0 where
  pub names : (name : String) → is_some (lookup name m) ≡ contains expected name
  pub values : (name value : String) → lookup name m ≡ some value → invalid_text 512 value ≡ false

present :
    (expected : List String) (m : Parameters) (name : String)
    → valid_names expected m ≡ true
    → contains expected name ≡ true
    → valid_value 512 (lookup name m) ≡ true
unfolding valid_names
present [] m name h c = absurd (ground arith)
present (x ∷ xs) m name h c = elim (Bool-cases (x == name)) [
  | inl same ↦ let eq : x ≡ name = (string_eq.beq_iff x name).0 same in rw (← eq) (ground arith)
  | inr other ↦ present xs m name (ground arith) (ground arith)
]

valid_names-erase :
    (x : String) (xs : List String) (m : Parameters)
    → contains xs x ≡ false
    → valid_names xs m ≡ true
    → valid_names xs (erase x m) ≡ true
unfolding valid_names
valid_names-erase x [] m c h = refl
valid_names-erase x (y ∷ ys) m c h = ground (
  arith,
  valid_names-erase x ys m,
  lookup-erase x y m,
  string_eq.beq_iff x y,
  string_eq.beq_iff y x,
)

-- As many keys as names: every key is one of the names.
no_other :
    (expected : List String) (m : Parameters) (name : String)
    → HasDistinctKeys m
    → distinct expected ≡ true
    → length m ≡ length expected
    → valid_names expected m ≡ true
    → is_some (lookup name m) ≡ true
    → contains expected name ≡ true
unfolding valid_names lookup
no_other [] [] name k d l h f = f
no_other [] (e ∷ m) name k d l h f = absurd (omega (arith, l))
no_other (x ∷ xs) m name k d l h f = elim (Bool-cases (x == name)) [
  | inl same ↦ rw same
  | inr other ↦
      let fresh : contains xs x ≡ false = ground arith in
      let rest = valid_names-erase x xs m fresh (ground arith) in
      let found : is_some (lookup x m) ≡ true = ground arith in
      rw other (
        no_other xs (erase x m) name (erase-HasDistinctKeys x m k) (ground arith)
          (ground (arith, length-erase x m k)) rest (rw (lookup-erase x name m, other) f))
]

same_test : (a b : Bool) → (a ≡ true → b ≡ true) → (b ≡ true → a ≡ true) → a ≡ b
same_test true b f g = sym (f refl)
same_test false true f g = g refl
same_test false false f g = refl

validated :
    (expected : List String) (m : Parameters)
    → validate_parameters expected m ≡ true
    → (length m ≡ length expected) × (valid_names expected m ≡ true)
unfolding validate_parameters
validated expected m h = ground (arith, nat_eq.beq_iff (length m) (length expected))

present_some : (limit : ℕ) (o : Option String) → valid_value limit o ≡ true → is_some o ≡ true
present_some limit o h = ground arith

validate-Exactly :
    (expected : List String) (m : Parameters)
    → HasDistinctKeys m
    → distinct expected ≡ true
    → validate_parameters expected m ≡ true
    → Exactly expected m
validate-Exactly expected m k d h =
    let (l, v) = validated expected m h in
    let named : (name : String) → is_some (lookup name m) ≡ contains expected name = λ name.
      same_test (is_some (lookup name m)) (contains expected name)
        (no_other expected m name k d l v)
        (λ c. present_some 512 (lookup name m) (present expected m name v c)) in
    record {
      names = named;
      values = λ name value e. ground (arith, present expected m name v, named name);
    }

valid_names_of :
    (expected : List String) (m : Parameters)
    → ((name : String) → contains expected name ≡ true → valid_value 512 (lookup name m) ≡ true)
    → valid_names expected m ≡ true
unfolding valid_names
valid_names_of [] m f = refl
valid_names_of (x ∷ xs) m f =
    let rest = valid_names_of xs m (λ name c. f name (ground arith)) in
    ground (arith, f x, eq_refl x)

-- No key is left when the names are taken away one by one.
empty_of : (m : Parameters) → ((name : String) → is_some (lookup name m) ≡ false) → length m ≡ 0
unfolding lookup
empty_of [] f = refl
empty_of ((k, v) ∷ m) f = absurd (ground (arith, f k, eq_refl k))

erased_names :
    (x : String) (xs : List String) (m : Parameters) (name : String)
    → contains xs x ≡ false
    → is_some (lookup name m) ≡ contains (x ∷ xs) name
    → is_some (lookup name (erase x m)) ≡ contains xs name
erased_names x xs m name fresh h = elim (Bool-cases (x == name)) [
  | inl same ↦
      let eq : x ≡ name = (string_eq.beq_iff x name).0 same in
      rw (lookup-erase x name m, same) (sym (rw eq at fresh))
  | inr other ↦ rw (lookup-erase x name m, other) (ground arith)
]

same_length :
    (expected : List String) (m : Parameters)
    → HasDistinctKeys m
    → distinct expected ≡ true
    → ((name : String) → is_some (lookup name m) ≡ contains expected name)
    → length m ≡ length expected
same_length [] m k d f = empty_of m f
same_length (x ∷ xs) m k d f =
    let fresh : contains xs x ≡ false = ground arith in
    let rest =
      same_length xs (erase x m) (erase-HasDistinctKeys x m k) (ground arith)
        (λ name. erased_names x xs m name fresh (f name)) in
    ground (arith, rest, length-erase x m k, f x, eq_refl x)

value_of :
    (m : Parameters) (name : String)
    → ((value : String) → lookup name m ≡ some value → invalid_text 512 value ≡ false)
    → is_some (lookup name m) ≡ true
    → valid_value 512 (lookup name m) ≡ true
value_of m name f h = elim (Option-cases (lookup name m)) [
  | inl missing ↦ absurd (ground arith)
  | inr (value, found) ↦ rw found (ground (arith, f value found))
]

Exactly-validate :
    (expected : List String) (m : Parameters)
    → HasDistinctKeys m
    → distinct expected ≡ true
    → Exactly expected m
    → validate_parameters expected m ≡ true
unfolding validate_parameters
Exactly-validate expected m k d x =
    let l = same_length expected m k d x.names in
    let v =
      valid_names_of expected m (λ name c. value_of m name (x.values name) (x.names name ∙ c)) in
    ground (arith, nat_eq.beq_iff (length m) (length expected))

Exactly-same :
    (xs ys : List String) (m : Parameters)
    → ((name : String) → contains xs name ≡ contains ys name)
    → Exactly xs m
    → Exactly ys m
Exactly-same xs ys m same x = record { names = λ name. x.names name ∙ same name; values = x.values }

-- For an action whose names of parameters a registration has accepted, a call is valid exactly if
-- its parameters are just those with these names, each with a valid value.
pub validate_parameters_iff :
    (names expected : List String) (m : Parameters)
    → registered_parameters names ≡ ok expected
    → HasDistinctKeys m
    → (validate_parameters expected m ≡ true) ↔ Exactly names m
validate_parameters_iff names expected m r k =
    let (full, d, made) = registered_forth names expected r in
    let d' : distinct expected ≡ true = rw made (distinct-sort names ∙ d) in
    let same : (name : String) → contains expected name ≡ contains names name =
      λ name. rw made (contains-sort name names) in
    (
      λ h. Exactly-same expected names m same (validate-Exactly expected m k d' h),
      λ x.
          Exactly-validate expected m k d'
            (Exactly-same names expected m (λ name. sym (same name)) x),
    )
