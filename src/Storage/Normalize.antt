-- ===== src/Storage/Normalize.antt =====
-- internal/modules/storage/normalize.go: `normalize`, which makes a snapshot of what the adapters have
-- reported. The length of a snapshot in JSON and the test on the Go float `UsedPercent` are
-- parameters.
pub mod Sound
pub mod Overflow
use pilothouse.Base.{
  ℕ, suc, zero, ◌+◌, ◌/◌, ◌%◌, ◌^◌, String, Bool, true, false, not, ◌&&◌, ◌||◌, Option, none, some,
  List, [], ◌∷◌, ◌++◌, map, Map, string_eq, nat_eq, ◌==◌, insert, ltb, leb, length, count, take,
  drop, any, keep_if, if◌then◌else◌, Result, ok, err, ◌>>=◌, precedes, sort_by, contains,
}
use pilothouse.Storage.Model.{
  Health, healthy, warning, critical, Availability, available, unavailable, timed_out, truncated,
  Resource, Relation, Mount, Finding, BackendStatus, Snapshot, Summary, health_rank, max_findings,
  max_snapshot_bytes,
}
use pilothouse.Storage.Order.{sort_snapshot}
use pilothouse.Storage.Summary.{blank_summary, recalculate_summary}
use pilothouse.Storage.Limit.{enforce_snapshot_limit}
use pilothouse.Storage.Aggregate.{
  Aggregate, AdapterResult, StorageError, serialize_failed, metadata_exceeds_limit,
  removed_resource, unfinished, flag, require_storage, new_aggregate, higher_health, apply,
  validate, as_storage_error,
}

-- An adapter's error, as far as it is looked at.
pub data AdapterError : Type 0 where
  deadline_exceeded backend_unsupported failed : AdapterError

-- `collectedResult`
pub record CollectedResult (F : Type 0) : Type 0 where
  pub error : Option AdapterError
  pub name : String
  pub core : Bool
  pub result : AdapterResult F

-- `availabilityFor`
unfoldable pub availability_for : Option AdapterError → Availability
availability_for none = available
availability_for (some deadline_exceeded) = timed_out
availability_for (some backend_unsupported) = unavailable
availability_for (some failed) = unavailable

-- The findings with the marks of what was cut.
abbrev pub Noted : Type 0
Noted = List Finding × Map String Bool

-- `appendFinding`
unfoldable pub append_finding : String → Finding → Noted → Noted
append_finding backend f (findings, marks) =
    if length findings == max_findings
    then (findings, insert backend true marks)
    else (findings ++ f ∷ [], marks)

module _ {F : Type 0} where
  -- `statuses[i]` before the enriching adapters.
  abbrev pub status_of : ℕ → CollectedResult F → BackendStatus
  status_of now c = record {
    availability = availability_for c.error;
    collected_at = now;
    name = c.name;
  }

  abbrev pub succeeded : CollectedResult F → Bool
  succeeded c = elim c.error [ none ↦ true | some e ↦ false ]

  -- The loop over the core adapters.
  unfoldable pub apply_core :
      List (CollectedResult F) → Aggregate F → Result StorageError (Aggregate F)
  apply_core [] a = ok a
  apply_core (c ∷ cs) a =
      if c.core && succeeded c
      then apply c.name c.result false a >>= apply_core cs
      else apply_core cs a

  -- An enriching adapter's report, if it fits.
  abbrev pub candidate : CollectedResult F → Aggregate F → Result StorageError (Aggregate F)
  candidate c a = do b ← apply c.name c.result true a; _ ← validate b; ok b

  -- The body of the loop over the enriching adapters.
  unfoldable pub enrich_one : ℕ → CollectedResult F → Aggregate F → BackendStatus × Aggregate F
  enrich_one now c a = if c.core then (status_of now c, a) else elim (candidate c a) [
    | ok b ↦ (status_of now c, b)
    | err e ↦ (record (status_of now c) { availability = unavailable }, a)
  ]

  -- The loop over the enriching adapters.
  unfoldable pub enrich :
      ℕ → List (CollectedResult F) → Aggregate F → List BackendStatus × Aggregate F
  enrich now [] a = ([], a)
  enrich now (c ∷ cs) a =
      let (status, b) = enrich_one now c a in
      let (statuses, last) = enrich now cs b in (status ∷ statuses, last)

  -- `isExpectedImmutableMount`
  unfoldable pub is_expected_immutable_mount : Mount F → Bool
  is_expected_immutable_mount m = m.filesystem == "erofs"

  module _ (at_least : F → ℕ → Bool) where
    abbrev pub mount_finding : Mount F → Health → String → Finding
    mount_finding m severity title = record {
      detail = m.target;
      resource_id = m.resource_id;
      severity = severity;
      title = title;
    }

    -- What a mount's usage says.
    unfoldable pub capacity_health : Mount F → Health
    capacity_health m =
        if at_least m.used_percent 90
        then critical
        else if at_least m.used_percent 80
        then warning
        else m.health

    unfoldable pub capacity_finding : Mount F → Noted → Noted
    capacity_finding m noted =
        if at_least m.used_percent 90
        then append_finding "" (mount_finding m critical "Mount capacity is critical") noted
        else if at_least m.used_percent 80
        then append_finding "" (mount_finding m warning "Mount capacity is high") noted
        else noted

    -- The body of the loop over the mounts.
    unfoldable pub review_mount : Mount F → Noted → Mount F × Noted
    review_mount m noted =
        if is_expected_immutable_mount m
        then (m, noted)
        else let health = capacity_health m in
          let noted' = capacity_finding m noted in
          if m.read_only && not m.managed
          then (
            record m {
              health = if ltb (health_rank health) (health_rank warning) then warning else health;
            },
            append_finding "" (mount_finding m warning "Mount is read-only") noted',
          )
          else (record m { health = health }, noted')

    -- The loop over the mounts.
    unfoldable pub review_mounts : List (Mount F) → Noted → List (Mount F) × Noted
    review_mounts [] noted = ([], noted)
    review_mounts (m ∷ ms) noted =
        let (m', noted') = review_mount m noted in
        let (ms', last) = review_mounts ms noted' in (m' ∷ ms', last)

abbrev pub mark_backend : Map String Bool → BackendStatus → BackendStatus
mark_backend marks b = if flag marks b.name then record b { availability = truncated } else b

module _ {F : Type 0} (json_bytes : Snapshot F → Option ℕ) (at_least : F → ℕ → Bool) where
  -- The snapshot of what has been reported, before its size is limited.
  unfoldable pub assemble : ℕ → List BackendStatus × Aggregate F → Snapshot F
  assemble now (statuses, a) =
      let (mounts, noted) = review_mounts at_least a.mounts (a.findings, a.truncated) in
      sort_snapshot (record {
        backends = map (mark_backend noted.1) statuses;
        collected_at = now;
        findings = noted.0;
        mounts = mounts;
        relations = map (λ e. e.1) a.relations;
        resources = map (λ e. e.1) a.resources;
        summary = blank_summary;
        truncated = ltb 0 (length a.truncated) || any (λ b. flag noted.1 b.name) statuses;
      })

  -- `normalize`
  unfoldable pub normalize : ℕ → List (CollectedResult F) → Result StorageError (Snapshot F)
  normalize now results = do
    a ← apply_core results (new_aggregate F)
    _ ← validate a
    s ← enforce_snapshot_limit json_bytes (assemble now (enrich now results a))
    ok (recalculate_summary s)
