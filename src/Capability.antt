-- ===== src/Capability.antt =====
-- internal/capability/capability.go: sets of capabilities. A capability is its string, and a set the
-- list of the keys of the map.
pub mod Probes
pub mod Union
pub mod Configured
use pilothouse.Base.{
  String, Bool, true, false, List, [], ◌∷◌, ◌++◌, string_eq, ◌==◌, if◌then◌else◌, sort, contains,
}

abbrev pub CapabilitySet : Type 0
CapabilitySet = List String

-- `s.ids[id] = struct{}{}`
unfoldable pub add : String → CapabilitySet → CapabilitySet
add id s = if contains s id then s else id ∷ s

-- The loop of `New`.
unfoldable pub add_all : List String → CapabilitySet → CapabilitySet
add_all [] s = s
add_all (id ∷ ids) s = add_all ids (add id s)

-- `New`
abbrev pub new : List String → CapabilitySet
new ids = add_all ids []

-- `Has`
abbrev pub has : CapabilitySet → String → Bool
has s id = contains s id

-- `HasAll`
unfoldable pub has_all : CapabilitySet → List String → Bool
has_all s [] = true
has_all s (id ∷ ids) = let rest = has_all s ids in if has s id then rest else false

-- `HasAny`
unfoldable pub has_any : CapabilitySet → List String → Bool
has_any s [] = false
has_any s (id ∷ ids) = let rest = has_any s ids in if has s id then true else rest

-- `List`
abbrev pub list : CapabilitySet → List String
list s = sort s

-- `MarshalJSON` and `UnmarshalJSON`, between a set and the `capabilities` of the wire.
abbrev pub marshal : CapabilitySet → List String
marshal s = list s

abbrev pub unmarshal : List String → CapabilitySet
unmarshal capabilities = new capabilities

-- The loop of `unionSets`.
unfoldable pub all_ids : List CapabilitySet → List String
all_ids [] = []
all_ids (s ∷ sets) = list s ++ all_ids sets

-- `unionSets`
unfoldable pub union_sets : List CapabilitySet → CapabilitySet
union_sets sets = new (all_ids sets)
