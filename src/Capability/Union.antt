-- ===== src/Capability/Union.antt =====
-- What a union of sets has, and what a set keeps on the wire.
use pilothouse.Base.{
  ◌≡◌, refl, sym, ap, ◌∙◌, String, ◌||◌, List, [], ◌∷◌, ◌++◌, string_eq, ◌==◌, contains, any,
  contains-sort, arith, Bool-cases, inl, inr,
}
use pilothouse.Capability.{
  CapabilitySet, add, add_all, new, has, list, marshal, unmarshal, all_ids, union_sets,
}

contains-add :
    (x id : String) (s : CapabilitySet) → contains (add id s) x ≡ ((id == x) || contains s x)
unfolding add
contains-add x id s = elim (Bool-cases (contains s id)) [
  | inr absent ↦ rw absent (ground arith)
  | inl there ↦ rw there (elim (Bool-cases (id == x)) [
    | inr differs ↦ rw differs refl
    | inl same ↦
        let eq = (string_eq.beq_iff id x).0 same in rw same (ap (contains s) (sym eq) ∙ there)
  ])
]

contains-add_all :
    (x : String) (ids : List String) (s : CapabilitySet)
    → contains (add_all ids s) x ≡ (contains ids x || contains s x)
unfolding add_all
contains-add_all x [] s = refl
contains-add_all x (id ∷ ids) s =
    contains-add_all x ids (add id s) ∙ ground (arith, contains-add x id s)

contains-append :
    (x : String) (xs ys : List String) → contains (xs ++ ys) x ≡ (contains xs x || contains ys x)
contains-append x [] ys = refl
contains-append x (y ∷ xs) ys = ground (arith, contains-append x xs ys)

pub has-new : (x : String) (ids : List String) → has (new ids) x ≡ contains ids x
has-new x ids = contains-add_all x ids [] ∙ ground arith

has-all_ids :
    (x : String) (sets : List CapabilitySet) → contains (all_ids sets) x ≡ any (λ s. has s x) sets
unfolding all_ids
has-all_ids x [] = refl
has-all_ids x (s ∷ sets) =
    contains-append x (list s) (all_ids sets)
    ∙ ground (arith, contains-sort x s, has-all_ids x sets)

-- The union of sets has what one of them has.
pub has-union_sets :
    (sets : List CapabilitySet) (x : String) → has (union_sets sets) x ≡ any (λ s. has s x) sets
unfolding union_sets
has-union_sets sets x = has-new x (all_ids sets) ∙ has-all_ids x sets

-- A set that was encoded and decoded has the same capabilities.
pub unmarshal-marshal : (s : CapabilitySet) (x : String) → has (unmarshal (marshal s)) x ≡ has s x
unmarshal-marshal s x = has-new x (list s) ∙ contains-sort x s
