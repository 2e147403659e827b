-- ===== src/Storage/Aggregate/Resources.antt =====
-- That the resources of an aggregate stay within their limits.
use pilothouse.Base.{
  ℕ, zero, suc, ◌+◌, ◌≤◌, subst, ◌||◌, ◌≡◌, refl, String, Bool, true, false, none, some, List, [],
  ◌∷◌, ◌++◌, string_eq, nat_eq, ◌==◌, lookup, insert, insert-All, lookup-All, length-insert, length,
  length-append, take, All, arith, inl, inr, Bool-cases, Option-cases, ok, >>=-eq-ok, is_some,
  if◌then◌else◌, ltb, any,
}
use pilothouse.Storage.Model.{
  Detail, Resource, max_resources, max_relations, max_mounts, max_findings, max_details,
}
use pilothouse.Storage.Aggregate.{
  Aggregate, merge_loop, merge_details, stale_health_detail, merge_resource, apply_resource,
  is_stale, mark_truncated, clip_details, apply_resources, new_aggregate,
}

length-take : {A : Type 0} (n : ℕ) (xs : List A) → length (take n xs) ≤ n
length-take zero xs = omega arith
length-take (suc n) [] = omega arith
length-take (suc n) (x ∷ xs) = omega (arith, length-take n xs)

merge_loop-le :
    (limit : ℕ) (ds found : List Detail)
    → length found ≤ limit
    → length (merge_loop limit found ds) ≤ limit
unfolding merge_loop
merge_loop-le limit [] found h = h
merge_loop-le limit (d ∷ ds) found h =
    merge_loop-le limit ds (if is_stale d || length found == limit then found else found ++ d ∷ [])
      (ground (arith, length-append found (d ∷ [])))

merge_details-le :
    (core enriched : List Detail) → length (merge_details core enriched) ≤ max_details
unfolding merge_details
merge_details-le core enriched =
    let limit : ℕ = if any is_stale enriched then 31 else max_details in
    ground (
      arith,
      length-take max_details core,
      merge_loop-le limit enriched core,
      length-append (merge_loop limit core enriched) (stale_health_detail ∷ []),
    )

-- A resource stands under its id, with no more details than the limit.
abbrev pub IsStored : String × Resource → Type 0
IsStored (id, r) = (r.id ≡ id) × (length r.details ≤ max_details)

module _ {F : Type 0} where
  pub record IsBounded (a : Aggregate F) : Type 0 where
    pub resources : length a.resources ≤ max_resources
    pub relations : length a.relations ≤ max_relations
    pub mounts : length a.mounts ≤ max_mounts
    pub findings : length a.findings ≤ max_findings
    pub stored : All IsStored a.resources

  pub new_aggregate-IsBounded : IsBounded (new_aggregate F)
  new_aggregate-IsBounded = record {
    resources = omega arith;
    relations = omega arith;
    mounts = omega arith;
    findings = omega arith;
    stored = tt;
  }

  module _ (backend : String) where
    -- The resources and the rest are bounded apart.
    insert_resource-IsBounded :
        (a : Aggregate F) (id : String) (r : Resource)
        → IsBounded a
        → IsStored (id, r)
        → length a.resources + (if is_some (lookup id a.resources) then 0 else 1) ≤ max_resources
        → IsBounded (record a { resources = insert id r a.resources })
    insert_resource-IsBounded a id r h new room = record {
      resources = omega (arith, length-insert id r a.resources, room);
      relations = h.relations;
      mounts = h.mounts;
      findings = h.findings;
      stored = insert-All IsStored id r a.resources new h.stored;
    }

    add_resource-IsBounded :
        (r : Resource) (a : Aggregate F)
        → IsBounded a
        → lookup r.id a.resources ≡ none
        → (length a.resources == max_resources) ≡ false
        → IsBounded (record a { resources = insert r.id (clip_details r) a.resources })
    add_resource-IsBounded r a h new room =
        insert_resource-IsBounded a r.id (clip_details r) h
          (refl, length-take max_details r.details) (ground (arith, h.resources))

    merge_resource-IsBounded :
        (r existing : Resource) (a : Aggregate F)
        → IsBounded a
        → lookup r.id a.resources ≡ some existing
        → IsBounded (record a { resources = insert r.id (merge_resource existing r) a.resources })
    unfolding merge_resource
    merge_resource-IsBounded r existing a h found =
        let old : IsStored (r.id, existing) =
          lookup-All IsStored r.id existing a.resources h.stored found in
        insert_resource-IsBounded a r.id (merge_resource existing r) h
          (old.0, merge_details-le existing.details r.details) (ground (arith, h.resources))

    apply_resource-IsBounded :
        (enrich : Bool) (r : Resource) (a b : Aggregate F)
        → IsBounded a
        → apply_resource backend enrich r a ≡ ok b
        → IsBounded b
    unfolding apply_resource
    apply_resource-IsBounded enrich r a b h e = elim (Option-cases (lookup r.id a.resources)) [
      | inr (existing, found) ↦ elim (Bool-cases enrich) [
        | inl on ↦ subst IsBounded (ground arith) (merge_resource-IsBounded r existing a h found)
        | inr off ↦ absurd (ground arith)
      ]
      | inl new ↦ elim (Bool-cases (length a.resources == max_resources)) [
        | inl full ↦
            let kept : IsBounded
                (mark_truncated backend (record a { dropped = insert r.id true a.dropped })) =
              record {
                resources = h.resources;
                relations = h.relations;
                mounts = h.mounts;
                findings = h.findings;
                stored = h.stored;
              } in
            subst IsBounded (ground arith) kept
        | inr room ↦
            let kept = add_resource-IsBounded r a h new room in
            let marked : IsBounded (
                mark_truncated backend
                  (record a { resources = insert r.id (clip_details r) a.resources })) =
              record {
                resources = kept.resources;
                relations = h.relations;
                mounts = h.mounts;
                findings = h.findings;
                stored = kept.stored;
              } in
            elim (Bool-cases (ltb max_details (length r.details))) [
              | inl long ↦ subst IsBounded (ground arith) marked
              | inr short ↦ subst IsBounded (ground arith) kept
            ]
      ]
    ]

    pub apply_resources-IsBounded :
        (enrich : Bool) (rs : List Resource) (a b : Aggregate F)
        → IsBounded a
        → apply_resources backend enrich rs a ≡ ok b
        → IsBounded b
    unfolding apply_resources
    apply_resources-IsBounded enrich [] a b h e = subst IsBounded (cc) h
    apply_resources-IsBounded enrich (r ∷ rs) a c h e =
        let (b, first, rest) = >>=-eq-ok (apply_resource backend enrich r a) _ e in
        apply_resources-IsBounded enrich rs b c (apply_resource-IsBounded enrich r a b h first) rest
