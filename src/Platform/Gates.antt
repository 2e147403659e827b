-- ===== src/Platform/Gates.antt =====
-- What a gate asks of the capabilities that the probes have found.
use pilothouse.Base.{
  ◌≡◌, ◌↔◌, refl, sym, ◌∙◌, String, Bool, true, some, List, [], ◌∷◌, string_eq, All, any, arith,
  Bool-cases, inl, inr,
}
use pilothouse.Capability.{CapabilitySet, has, has_all, has_any, union_sets}
use pilothouse.Capability.Union.{has-union_sets}
use pilothouse.Platform.{handled, gate, available}

has_all_iff :
    (s : CapabilitySet) (ids : List String)
    → (has_all s ids ≡ true) ↔ All (λ id. has s id ≡ true) ids
unfolding has_all
has_all_iff s [] = (λ h. tt, λ h. refl)
has_all_iff s (id ∷ ids) = elim (Bool-cases (has s id)) [
  | inl there ↦ rw there (λ h. (refl, (has_all_iff s ids).0 h), λ h. (has_all_iff s ids).1 h.1)
  | inr absent ↦ rw absent (λ h. absurd (ground arith), λ h. h.0)
]

has_any-eq : (s : CapabilitySet) (ids : List String) → has_any s ids ≡ any (has s) ids
unfolding has_any
has_any-eq s [] = refl
has_any-eq s (id ∷ ids) = ground (arith, has_any-eq s ids)

All-same :
    (p q : String → Bool) (ids : List String)
    → ((x : String) → p x ≡ q x)
    → All (λ x. p x ≡ true) ids
    → All (λ x. q x ≡ true) ids
All-same p q [] same h = tt
All-same p q (x ∷ ids) same h = (sym (same x) ∙ h.0, All-same p q ids same h.1)

gate-handled_iff :
    {A : Type 0} (s : CapabilitySet) (ids : List String) (next : A)
    → (gate s ids next ≡ handled next) ↔ (has_all s ids ≡ true)
unfolding gate
gate-handled_iff s ids next = elim (Bool-cases (has_all s ids)) [
  | inl there ↦ rw there (λ h. refl, λ h. refl)
  | inr absent ↦ rw absent (λ h. absurd (ground arith), λ h. absurd (ground arith))
]

-- A route behind `Gate` answers, rather than with 404, exactly if each capability that it asks for
-- was reported by one of the probes; and this is when a module that asks for these is available.
pub gate_iff :
    {A : Type 0} (sets : List CapabilitySet) (ids : List String) (next : A)
    → ((gate (union_sets sets) ids next ≡ handled next)
        ↔ All (λ id. any (λ s. has s id) sets ≡ true) ids)
      × ((gate (union_sets sets) ids next ≡ handled next)
          ↔ (available (some ids) (union_sets sets) ≡ true))
unfolding available
gate_iff sets ids next =
    let served = gate-handled_iff (union_sets sets) ids next in
    let every = has_all_iff (union_sets sets) ids in
    let union = has-union_sets sets in
    (
      (
        λ h.
            All-same (has (union_sets sets)) (λ id. any (λ s. has s id) sets) ids union
              (every.0 (served.0 h)),
        λ h. served.1 (
            every.1 (
              All-same (λ id. any (λ s. has s id) sets) (has (union_sets sets)) ids
                (λ x. sym (union x)) h)),
      ),
      served,
    )
