-- ===== src/Platform.antt =====
-- internal/platform/registry.go and internal/platform/capability.go: the modules of the web server
-- and the gates on their routes. `Order` is an integer whose differences are far from overflow.
pub mod Gates
pub mod Modules
use pilothouse.Base.{
  ℕ, String, Bool, true, false, not, ◌&&◌, ◌||◌, Option, none, some, List, [], ◌∷◌, ◌++◌, string_eq,
  ◌==◌, if◌then◌else◌, ltb, leb, Result, ok, err, ◌>>=◌, precedes, any, ℤ, pos, negsuc,
}
use pilothouse.Capability.{CapabilitySet, has_all, has_any}

-- The fields of `Manifest` that the registry reads.
pub record Manifest : Type 0 where
  pub id : String
  pub name : String
  pub order : ℤ
  pub path : String

pub data RegistryError : Type 0 where
  incomplete_manifest id_registered path_registered : RegistryError

-- Is the difference of the first and the second positive, negative, or 0?
abbrev pub less : ℤ → ℤ → Bool
less (pos a) (pos b) = ltb a b
less (pos a) (negsuc b) = false
less (negsuc a) (pos b) = true
less (negsuc a) (negsuc b) = ltb b a

-- The comparison of `Register`: the result is not positive.
unfoldable pub not_after : Manifest → Manifest → Bool
not_after a b =
    if less a.order b.order
    then true
    else if less b.order a.order
    then false
    else precedes a.name b.name

-- `slices.SortStableFunc`
unfoldable pub insert_module : Manifest → List Manifest → List Manifest
insert_module a [] = a ∷ []
insert_module a (b ∷ ms) =
    let rest = insert_module a ms in if not_after a b then a ∷ b ∷ ms else b ∷ rest

unfoldable pub sort_modules : List Manifest → List Manifest
sort_modules [] = []
sort_modules (a ∷ ms) = insert_module a (sort_modules ms)

-- The loop of `Register` over what is registered.
unfoldable pub conflict : Manifest → List Manifest → Option RegistryError
conflict manifest [] = none
conflict manifest (b ∷ ms) =
    let rest = conflict manifest ms in
    if b.id == manifest.id
    then some id_registered
    else if b.path == manifest.path
    then some path_registered
    else rest

-- `Register`
unfoldable pub register_module : List Manifest → Manifest → Result RegistryError (List Manifest)
register_module ms manifest =
    if manifest.id == "" || (manifest.name == "" || manifest.path == "")
    then err incomplete_manifest
    else elim (conflict manifest ms) [
      | some e ↦ err e
      | none ↦ ok (sort_modules (ms ++ manifest ∷ []))
    ]

-- `NewRegistry`
unfoldable pub register_all : List Manifest → List Manifest → Result RegistryError (List Manifest)
register_all ms [] = ok ms
register_all ms (manifest ∷ rest) = register_module ms manifest >>= (λ ms'. register_all ms' rest)

abbrev pub new_registry : List Manifest → Result RegistryError (List Manifest)
new_registry modules = register_all [] modules

-- The answer of a route: 404, or what the handler behind the gate answers.
pub data Response {ℓ} (A : Type ℓ) : Type ℓ where
  not_found : Response A
  handled : A → Response A

-- `Gate` and `GateAny`
unfoldable pub gate {ℓ} : {A : Type ℓ} → CapabilitySet → List String → A → Response A
gate caps ids next = if not (has_all caps ids) then not_found else handled next

unfoldable pub gate_any {ℓ} : {A : Type ℓ} → CapabilitySet → List String → A → Response A
gate_any caps ids next = if not (has_any caps ids) then not_found else handled next

-- `Available` and `AvailableAny`: `none` for a module without the gate.
unfoldable pub available : Option (List String) → CapabilitySet → Bool
available none caps = true
available (some ids) caps = has_all caps ids

unfoldable pub available_any : Option (List String) → CapabilitySet → Bool
available_any none caps = true
available_any (some ids) caps = has_any caps ids
