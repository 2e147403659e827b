-- ===== src/Storage/Limit/Shrink.antt =====
-- That the loop which limits the size of a snapshot ends, and what it keeps.
use pilothouse.Base.{
  ℕ, zero, suc, ◌/◌, ◌≤◌, ◌<◌, ◌≡◌, ◌≢◌, refl, subst, String, Bool, true, false, not, ◌&&◌, Option,
  some, List, string_eq, ◌==◌, length, length-take, length-take-le, length-keep_if, length-map,
  any-take-drop, any-keep_if-not, All-keep_if, All-take, All, any, arith, inl, inr, Bool-cases,
  Option-cases, Result-cases, ok, err, >>=-eq-ok, >>=-eq-err, ltb,
}
use pilothouse.Storage.Model.{
  Resource, Relation, Snapshot, max_resources, max_relations, max_mounts, max_findings,
  max_snapshot_bytes,
}
use pilothouse.Storage.Graph.{validate_graph}
use pilothouse.Storage.Aggregate.{StorageError, metadata_exceeds_limit, unfinished}
use pilothouse.Storage.Summary.{blank_summary}
use pilothouse.Storage.Limit.{
  is_removed, detach, drop_references, sanitize, first_half, second_half, cut_backends, halve,
  entries, check_graph, shrink, enforce_snapshot_limit,
}

abbrev pub has_id : List Resource → String → Bool
has_id resources id = any (λ r. r.id == id) resources

-- Both ends of a relation are resources.
abbrev pub IsConnected : List Resource → Relation → Type 0
IsConnected resources r = (has_id resources r.origin ≡ true) × (has_id resources r.target ≡ true)

length-first_half : {A : Type 0} (xs : List A) → 0 < length xs → length (first_half xs) < length xs
length-first_half xs h = omega (arith, length-take (length xs / 2) xs)

first_half-IsConnected :
    (resources : List Resource) (r : Relation)
    → IsConnected resources r
    → (not (is_removed (second_half resources) r.origin)
        && not (is_removed (second_half resources) r.target))
      ≡ true
    → IsConnected (first_half resources) r
first_half-IsConnected resources r h kept = ground (
  arith,
  any-take-drop (λ x. x.id == r.origin) (length resources / 2) resources,
  any-take-drop (λ x. x.id == r.target) (length resources / 2) resources,
)

module _ {F : Type 0} where
  pub record IsConsistent (s : Snapshot F) : Type 0 where
    pub resources : length s.resources ≤ max_resources
    pub relations : length s.relations ≤ max_relations
    pub mounts : length s.mounts ≤ max_mounts
    pub findings : length s.findings ≤ max_findings
    pub connected : All (IsConnected s.resources) s.relations
    pub unsummed : s.summary ≡ blank_summary

  -- The second look at the findings finds nothing.
  sanitize_total :
      (removed : List Resource) (s : Snapshot F)
      → sanitize removed s ≡ ok (drop_references removed s)
  unfolding sanitize
  sanitize_total removed s =
      rw (any-keep_if-not (λ f. is_removed removed f.resource_id) s.findings) refl

  cut_resources : Snapshot F → Snapshot F
  cut_resources s =
      drop_references (second_half s.resources) (record s { resources = first_half s.resources })

  cut_resources-IsConsistent : (s : Snapshot F) → IsConsistent s → IsConsistent (cut_resources s)
  unfolding cut_resources
  cut_resources-IsConsistent s h = record {
    resources = omega (arith, h.resources, length-take-le (length s.resources / 2) s.resources);
    relations = omega (arith, h.relations, length-keep_if _ s.relations);
    mounts = omega (arith, h.mounts, length-map (detach (second_half s.resources)) s.mounts);
    findings = omega (arith, h.findings, length-keep_if _ s.findings);
    connected =
        All-keep_if (IsConnected s.resources) (IsConnected (first_half s.resources)) _ s.relations
          (first_half-IsConnected s.resources) h.connected;
    unsummed = h.unsummed;
  }

  entries-cut_resources :
      (s : Snapshot F) → 0 < length s.resources → entries (cut_resources s) < entries s
  unfolding cut_resources
  entries-cut_resources s h = omega (
    arith,
    length-first_half s.resources h,
    length-keep_if
        (λ r.
          not (is_removed (second_half s.resources) r.origin)
          && not (is_removed (second_half s.resources) r.target))
        s.relations,
    length-keep_if (λ f. not (is_removed (second_half s.resources) f.resource_id)) s.findings,
    length-map (detach (second_half s.resources)) s.mounts,
  )

  -- What one cut does.
  record Cut (s t : Snapshot F) : Type 0 where
    consistent : IsConsistent s → IsConsistent t
    fewer : entries t < entries s

  first_findings-Cut :
      (s : Snapshot F)
      → 0 < length s.findings
      → Cut s (record s { findings = first_half s.findings })
  first_findings-Cut s some_left = record {
    consistent = λ h. record {
      resources = h.resources;
      relations = h.relations;
      mounts = h.mounts;
      findings = omega (arith, h.findings, length-take-le (length s.findings / 2) s.findings);
      connected = h.connected;
      unsummed = h.unsummed;
    };
    fewer = omega (arith, length-first_half s.findings some_left);
  }

  first_mounts-Cut :
      (s : Snapshot F) → 0 < length s.mounts → Cut s (record s { mounts = first_half s.mounts })
  first_mounts-Cut s some_left = record {
    consistent = λ h. record {
      resources = h.resources;
      relations = h.relations;
      mounts = omega (arith, h.mounts, length-take-le (length s.mounts / 2) s.mounts);
      findings = h.findings;
      connected = h.connected;
      unsummed = h.unsummed;
    };
    fewer = omega (arith, length-first_half s.mounts some_left);
  }

  first_relations-Cut :
      (s : Snapshot F)
      → 0 < length s.relations
      → Cut s (record s { relations = first_half s.relations })
  first_relations-Cut s some_left = record {
    consistent = λ h. record {
      resources = h.resources;
      relations = omega (arith, h.relations, length-take-le (length s.relations / 2) s.relations);
      mounts = h.mounts;
      findings = h.findings;
      connected =
          All-take (IsConnected s.resources) (length s.relations / 2) s.relations h.connected;
      unsummed = h.unsummed;
    };
    fewer = omega (arith, length-first_half s.relations some_left);
  }

  halve-Cut : (s t : Snapshot F) → halve s ≡ ok t → Cut s t
  unfolding halve
  halve-Cut s t h = elim (Bool-cases (ltb 0 (length s.resources))) [
    | inl some_left ↦
        let same : cut_resources s ≡ t =
          unfold cut_resources in
          ground (
            arith,
            sanitize_total (second_half s.resources)
                (record s { resources = first_half s.resources }),
          ) in
        subst (Cut s) same (record {
          consistent = cut_resources-IsConsistent s;
          fewer = entries-cut_resources s (ground arith);
        })
    | inr no_resources ↦ elim (Bool-cases (ltb 0 (length s.findings))) [
      | inl some_left ↦ subst (Cut s) (ground arith) (first_findings-Cut s (ground arith))
      | inr no_findings ↦ elim (Bool-cases (ltb 0 (length s.mounts))) [
        | inl some_left ↦ subst (Cut s) (ground arith) (first_mounts-Cut s (ground arith))
        | inr no_mounts ↦ elim (Bool-cases (ltb 0 (length s.relations))) [
          | inl some_left ↦ subst (Cut s) (ground arith) (first_relations-Cut s (ground arith))
          | inr no_relations ↦ absurd (ground arith)
        ]
      ]
    ]
  ]

  halve-err : (s : Snapshot F) (e : StorageError) → halve s ≡ err e → e ≡ metadata_exceeds_limit
  unfolding halve
  halve-err s e h = ground (
    arith,
    sanitize_total (second_half s.resources) (record s { resources = first_half s.resources }),
  )

  entries-cut_backends : (s : Snapshot F) → entries (cut_backends s) ≡ entries s
  entries-cut_backends s = refl

  cut_backends-IsConsistent : (s : Snapshot F) → IsConsistent s → IsConsistent (cut_backends s)
  cut_backends-IsConsistent s h = record {
    resources = h.resources;
    relations = h.relations;
    mounts = h.mounts;
    findings = h.findings;
    connected = h.connected;
    unsummed = h.unsummed;
  }

  truncate-IsConsistent :
      (s : Snapshot F) → IsConsistent s → IsConsistent (record s { truncated = true })
  truncate-IsConsistent s h = record {
    resources = h.resources;
    relations = h.relations;
    mounts = h.mounts;
    findings = h.findings;
    connected = h.connected;
    unsummed = h.unsummed;
  }

  module _ (json_bytes : Snapshot F → Option ℕ) where
    -- A snapshot that fits, over relations that are accepted.
    pub record IsLimited (s : Snapshot F) : Type 0 where
      pub fits : (n : ℕ) × (json_bytes s ≡ some n) × (n ≤ max_snapshot_bytes)
      pub accepted : validate_graph s.resources s.relations ≡ ok tt

    check_graph-IsLimited :
        (s t : Snapshot F) (n : ℕ)
        → json_bytes s ≡ some n
        → ltb max_snapshot_bytes n ≡ false
        → check_graph json_bytes s ≡ ok t
        → (s ≡ t) × IsLimited s
    check_graph-IsLimited s t n at small h =
        elim (Result-cases (validate_graph s.resources s.relations)) [
          | inl (tt, e) ↦ (ground arith, record { fits = (n, at, ground arith); accepted = e })
          | inr (e, failed) ↦ absurd (ground arith)
        ]

    shrink-IsLimited :
        (fuel : ℕ) (s t : Snapshot F)
        → IsConsistent s
        → shrink json_bytes fuel s ≡ ok t
        → IsConsistent t × IsLimited t
    unfolding shrink
    shrink-IsLimited zero s t h e = absurd (cc)
    shrink-IsLimited (suc fuel) s t h e = elim (Option-cases (json_bytes s)) [
      | inl none_at ↦ absurd (ground arith)
      | inr (n, at) ↦ elim (Bool-cases (ltb max_snapshot_bytes n)) [
        | inr small ↦
            let (same, limited) = check_graph-IsLimited s t n at small (ground arith) in
            subst (λ u. IsConsistent u × IsLimited u) same (h, limited)
        | inl large ↦
            let (cut, halved, rest) =
              >>=-eq-ok (halve (record s { truncated = true }))
                (λ c. shrink json_bytes fuel (cut_backends c)) (ground arith) in
            let done = halve-Cut (record s { truncated = true }) cut halved in
            shrink-IsLimited fuel (cut_backends cut) t
              (cut_backends-IsConsistent cut (done.consistent (truncate-IsConsistent s h))) rest
      ]
    ]

    shrink_ends :
        (fuel : ℕ) (s : Snapshot F) → entries s < fuel → shrink json_bytes fuel s ≢ err unfinished
    unfolding shrink
    shrink_ends zero s enough e = absurd (omega arith)
    shrink_ends (suc fuel) s enough e = elim (Option-cases (json_bytes s)) [
      | inl none_at ↦ ground arith
      | inr (n, at) ↦ elim (Bool-cases (ltb max_snapshot_bytes n)) [
        | inr small ↦ elim (Result-cases (validate_graph s.resources s.relations)) [
          | inl (tt, fine) ↦ ground arith
          | inr (g, failed) ↦ ground arith
        ]
        | inl large ↦
            elim (>>=-eq-err (halve (record s { truncated = true }))
              (λ c. shrink json_bytes fuel (cut_backends c)) (ground arith)) [
                | inl stuck ↦
                    let same : unfinished ≡ metadata_exceeds_limit =
                      halve-err (record s { truncated = true }) unfinished stuck in
                    absurd (cc)
                | inr (cut, halved, rest) ↦
                    let done = halve-Cut (record s { truncated = true }) cut halved in
                    shrink_ends fuel (cut_backends cut) (omega (arith, done.fewer)) rest
              ]
      ]
    ]

    pub enforce_snapshot_limit-IsLimited :
        (s t : Snapshot F)
        → IsConsistent s
        → enforce_snapshot_limit json_bytes s ≡ ok t
        → IsConsistent t × IsLimited t
    unfolding enforce_snapshot_limit
    enforce_snapshot_limit-IsLimited s t h e = shrink-IsLimited (suc (entries s)) s t h e

    -- The loop that cuts a snapshot until its JSON fits ends within the fuel that is given to it: one
    -- round for each entry, and one.
    pub enforce_snapshot_limit_ends :
        (s : Snapshot F) → enforce_snapshot_limit json_bytes s ≢ err unfinished
    unfolding enforce_snapshot_limit
    enforce_snapshot_limit_ends s = shrink_ends (suc (entries s)) s (omega arith)
