-- ===== src/Storage/Normalize/Sound.antt =====
-- What every snapshot that `normalize` gives satisfies.
use pilothouse.Base.{
  ℕ, ◌≤◌, ◌≡◌, refl, sym, ap, ◌∙◌, subst, String, Bool, true, false, ◌&&◌, Option, some, List, [],
  ◌∷◌, map, string_eq, nat_eq, ◌==◌, Map, lookup, is_some, length, length-map, length-append,
  length-sort_by, any-sort_by, sort_by-All, sort_by, All, arith, All-implies, get_elem?, inl, inr,
  Bool-cases, Result-cases, ok, >>=-eq-ok,
}
use pilothouse.Storage.Model.{
  Resource, Relation, Mount, critical, warning, Finding, BackendStatus, Snapshot, max_resources,
  max_relations, max_mounts, max_findings, max_snapshot_bytes, max_graph_depth,
}
use pilothouse.Storage.Graph.Chains.{Chain}
use pilothouse.Storage.Graph.Verdict.{validate_graph_iff}
use pilothouse.Storage.Aggregate.{Aggregate, new_aggregate, apply, validate, endpoints_present}
use pilothouse.Storage.Aggregate.Resources.{IsBounded, IsStored, new_aggregate-IsBounded}
use pilothouse.Storage.Aggregate.Bounds.{apply-IsBounded}
use pilothouse.Storage.Order.{sort_snapshot, resource_less, relation_less, mount_less, finding_less}
use pilothouse.Storage.Summary.{blank_summary, recalculate_summary}
use pilothouse.Storage.Limit.{enforce_snapshot_limit}
use pilothouse.Storage.Limit.Shrink.{
  IsConsistent, IsLimited, IsConnected, has_id, enforce_snapshot_limit-IsLimited,
}
use pilothouse.Storage.Normalize.{
  CollectedResult, apply_core, enrich, enrich_one, candidate, succeeded, append_finding, Noted,
  capacity_finding, mount_finding, review_mount, review_mounts, assemble, normalize,
}

-- An id among the keys is the id of a resource.
has_id-lookup :
    (id : String) (resources : Map String Resource)
    → All IsStored resources
    → is_some (lookup id resources) ≡ true
    → has_id (map (λ e. e.1) resources) id ≡ true
unfolding lookup
has_id-lookup id [] all h = absurd (cc)
has_id-lookup id ((k, r) ∷ resources) all h =
    ground (arith, has_id-lookup id resources all.1, ap (λ x. x == id) all.0.0)

sorted-IsConnected :
    (resources : List Resource) (r : Relation)
    → IsConnected resources r
    → IsConnected (sort_by resource_less resources) r
sorted-IsConnected resources r h = (
  any-sort_by resource_less (λ x. x.id == r.origin) resources ∙ h.0,
  any-sort_by resource_less (λ x. x.id == r.target) resources ∙ h.1,
)

module _ {F : Type 0} where
  -- What the loops keep: an aggregate within the limits that passes the checks.
  record IsAccepted (a : Aggregate F) : Type 0 where
    bounded : IsBounded a
    valid : validate a ≡ ok tt

  apply_core-IsBounded :
      (cs : List (CollectedResult F)) (a b : Aggregate F)
      → IsBounded a
      → apply_core cs a ≡ ok b
      → IsBounded b
  unfolding apply_core
  apply_core-IsBounded [] a b h e = subst IsBounded (cc) h
  apply_core-IsBounded (c ∷ cs) a b h e = elim (Bool-cases (c.core && succeeded c)) [
    | inl applied ↦
        let (d, first, rest) =
          >>=-eq-ok (apply c.name c.result false a) (apply_core cs) (ground arith) in
        apply_core-IsBounded cs d b (apply-IsBounded c.name c.result false a d h first) rest
    | inr passed ↦ apply_core-IsBounded cs a b h (ground arith)
  ]

  candidate-IsAccepted :
      (c : CollectedResult F) (a b : Aggregate F)
      → IsBounded a
      → candidate c a ≡ ok b
      → IsAccepted b
  candidate-IsAccepted c a b h e =
      let (d, applied, rest) = >>=-eq-ok (apply c.name c.result true a) _ e in
      let (t, valid, same) = >>=-eq-ok (validate d) _ rest in
      subst IsAccepted (cc)
        (record { bounded = apply-IsBounded c.name c.result true a d h applied; valid = valid })

  enrich_one-IsAccepted :
      (now : ℕ) (c : CollectedResult F) (a : Aggregate F)
      → IsAccepted a
      → IsAccepted (enrich_one now c a).1
  unfolding enrich_one
  enrich_one-IsAccepted now c a h = elim (Bool-cases c.core) [
    | inl core ↦ subst IsAccepted (ground arith) h
    | inr enricher ↦ elim (Result-cases (candidate c a)) [
      | inl (b, fits) ↦
          let chosen : (enrich_one now c a).1 ≡ b = rw (enricher, fits, enrich_one) refl in
          subst IsAccepted (sym chosen) (candidate-IsAccepted c a b h.bounded fits)
      | inr (e, refused) ↦
          let chosen : (enrich_one now c a).1 ≡ a = rw (enricher, refused, enrich_one) refl in
          subst IsAccepted (sym chosen) h
    ]
  ]

  enrich-IsAccepted :
      (now : ℕ) (cs : List (CollectedResult F)) (a : Aggregate F)
      → IsAccepted a
      → IsAccepted (enrich now cs a).1
  unfolding enrich
  enrich-IsAccepted now [] a h = h
  enrich-IsAccepted now (c ∷ cs) a h =
      enrich-IsAccepted now cs (enrich_one now c a).1 (enrich_one-IsAccepted now c a h)

  endpoints-IsConnected :
      (a : Aggregate F) (rs : List Relation)
      → All IsStored a.resources
      → endpoints_present a rs ≡ true
      → All (IsConnected (map (λ e. e.1) a.resources)) rs
  unfolding endpoints_present
  endpoints-IsConnected a [] stored h = tt
  endpoints-IsConnected a (r ∷ rs) stored h = (
    (
      has_id-lookup r.origin a.resources stored (ground arith),
      has_id-lookup r.target a.resources stored (ground arith),
    ),
    endpoints-IsConnected a rs stored (ground arith),
  )

  validate-endpoints :
      (a : Aggregate F)
      → validate a ≡ ok tt
      → endpoints_present a (map (λ e. e.1) a.relations) ≡ true
  unfolding validate
  validate-endpoints a h = ground arith

module _ {F : Type 0} (at_least : F → ℕ → Bool) where
  append_finding-le :
      (backend : String) (f : Finding) (noted : Noted)
      → length noted.0 ≤ max_findings
      → length (append_finding backend f noted).0 ≤ max_findings
  unfolding append_finding
  append_finding-le backend f (findings, marks) h = ground (arith, length-append findings (f ∷ []))

  capacity_finding-le :
      (m : Mount F) (noted : Noted)
      → length noted.0 ≤ max_findings
      → length (capacity_finding at_least m noted).0 ≤ max_findings
  unfolding capacity_finding
  capacity_finding-le m noted h = ground (
    arith,
    append_finding-le "" (mount_finding at_least m critical "Mount capacity is critical") noted,
    append_finding-le "" (mount_finding at_least m warning "Mount capacity is high") noted,
  )

  review_mount-le :
      (m : Mount F) (noted : Noted)
      → length noted.0 ≤ max_findings
      → length (review_mount at_least m noted).1.0 ≤ max_findings
  unfolding review_mount
  review_mount-le m noted h = ground (
    arith,
    capacity_finding-le m noted h,
    append_finding-le "" (mount_finding at_least m warning "Mount is read-only")
        (capacity_finding at_least m noted),
  )

  review_mounts_bounds :
      (ms : List (Mount F)) (noted : Noted)
      → length noted.0 ≤ max_findings
      → (length (review_mounts at_least ms noted).0 ≡ length ms)
        × (length (review_mounts at_least ms noted).1.0 ≤ max_findings)
  unfolding review_mounts
  review_mounts_bounds [] noted h = (refl, h)
  review_mounts_bounds (m ∷ ms) noted h =
      let rest =
        review_mounts_bounds ms (review_mount at_least m noted).1 (review_mount-le m noted h) in
      (omega (arith, rest.0), rest.1)

  module _ (json_bytes : Snapshot F → Option ℕ) where
    assemble-IsConsistent :
        (now : ℕ) (statuses : List BackendStatus) (a : Aggregate F)
        → IsAccepted a
        → IsConsistent (assemble json_bytes at_least now (statuses, a))
    unfolding assemble sort_snapshot
    assemble-IsConsistent now statuses a h =
        let mounts = review_mounts_bounds a.mounts (a.findings, a.truncated) h.bounded.findings in
        record {
          resources = omega (
            arith,
            h.bounded.resources,
            length-sort_by resource_less (map (λ e. e.1) a.resources),
            length-map (λ (e : String × Resource). e.1) a.resources,
          );
          relations = omega (
            arith,
            h.bounded.relations,
            length-sort_by relation_less (map (λ e. e.1) a.relations),
            length-map (λ (e : String × Relation). e.1) a.relations,
          );
          mounts = omega (
            arith,
            h.bounded.mounts,
            mounts.0,
            length-sort_by mount_less (review_mounts at_least a.mounts (a.findings, a.truncated)).0,
          );
          findings = omega (
            arith,
            mounts.1,
            length-sort_by finding_less
                (review_mounts at_least a.mounts (a.findings, a.truncated)).1.0,
          );
          connected =
              sort_by-All relation_less
                (IsConnected (sort_by resource_less (map (λ e. e.1) a.resources)))
                (map (λ e. e.1) a.relations)
                (All-implies (IsConnected (map (λ e. e.1) a.resources))
                  (IsConnected (sort_by resource_less (map (λ e. e.1) a.resources)))
                  (map (λ e. e.1) a.relations) (sorted-IsConnected (map (λ e. e.1) a.resources))
                  (endpoints-IsConnected a (map (λ e. e.1) a.relations) h.bounded.stored
                    (validate-endpoints a h.valid)));
          unsummed = refl;
        }

    -- Limits, ends of relations that are resources, no chain of more than 32 relations, and a size
    -- in JSON, before the summary, within the limit.
    pub record IsSound (s : Snapshot F) : Type 0 where
      pub resources : length s.resources ≤ max_resources
      pub relations : length s.relations ≤ max_relations
      pub mounts : length s.mounts ≤ max_mounts
      pub findings : length s.findings ≤ max_findings
      pub connected : All (IsConnected s.resources) s.relations
      pub shallow :
          (i : ℕ) (r : Resource) (n : ℕ)
          → get_elem? s.resources i ≡ some r
          → Chain s.relations r.id n
          → n ≤ max_graph_depth
      pub sized :
          (n : ℕ) × (json_bytes (record s { summary = blank_summary }) ≡ some n)
          × (n ≤ max_snapshot_bytes)

    summarized-IsSound :
        (s : Snapshot F) → IsConsistent s → IsLimited json_bytes s → IsSound (recalculate_summary s)
    unfolding recalculate_summary
    summarized-IsSound s h limited =
        let blank : record s { summary = blank_summary } ≡ s =
          ap (λ sum. record s { summary = sum }) (sym h.unsummed) in
        let (n, at, small) = limited.fits in
        record {
          resources = h.resources;
          relations = h.relations;
          mounts = h.mounts;
          findings = h.findings;
          connected = h.connected;
          shallow = (validate_graph_iff s.resources s.relations).1.0 limited.accepted;
          sized = (n, ap json_bytes blank ∙ at, small);
        }

    -- Every snapshot that `normalize` gives keeps the limits on its entries, its relations join
    -- resources that it holds, no chain of relations from a resource is longer than 32, and its JSON
    -- without the summary has at most 2 MiB.
    pub normalize-IsSound :
        (now : ℕ) (results : List (CollectedResult F)) (s : Snapshot F)
        → normalize json_bytes at_least now results ≡ ok s
        → IsSound s
    unfolding normalize
    normalize-IsSound now results s h =
        let (core, applied, more) = >>=-eq-ok (apply_core results (new_aggregate F)) _ h in
        let (t, valid, last) = >>=-eq-ok (validate core) _ more in
        let (limited, cut, same) =
          >>=-eq-ok
            (enforce_snapshot_limit json_bytes
              (assemble json_bytes at_least now (enrich now results core)))
            (λ found. ok (recalculate_summary found)) last in
        let accepted : IsAccepted core = record {
          bounded =
              apply_core-IsBounded results (new_aggregate F) core new_aggregate-IsBounded applied;
          valid = valid;
        } in
        let (consistent, within) =
          enforce_snapshot_limit-IsLimited json_bytes _ limited
            (assemble-IsConsistent now (enrich now results core).0 (enrich now results core).1
              (enrich-IsAccepted now results core accepted))
            cut in
        subst IsSound (cc) (summarized-IsSound limited consistent within)
