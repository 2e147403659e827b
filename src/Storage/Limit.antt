-- ===== src/Storage/Limit.antt =====
-- internal/modules/storage/normalize.go: `enforceSnapshotLimit`. The length of a snapshot in JSON is a
-- parameter.
pub mod Shrink
use pilothouse.Base.{
  ℕ, suc, zero, ◌+◌, ◌/◌, ◌%◌, ◌^◌, String, Bool, true, false, not, ◌&&◌, ◌||◌, Option, none, some,
  List, [], ◌∷◌, ◌++◌, map, Map, string_eq, nat_eq, ◌==◌, insert, ltb, leb, length, count, take,
  drop, any, keep_if, if◌then◌else◌, Result, ok, err, ◌>>=◌, precedes, sort_by, contains,
}
use pilothouse.Storage.Model.{
  Health, healthy, warning, critical, Availability, available, unavailable, timed_out, truncated,
  Resource, Relation, Mount, Finding, BackendStatus, Snapshot, Summary, health_rank, max_findings,
  max_snapshot_bytes,
}
use pilothouse.Storage.Graph.{validate_graph}
use pilothouse.Storage.Aggregate.{
  StorageError, serialize_failed, metadata_exceeds_limit, removed_resource, unfinished,
  as_storage_error,
}

abbrev pub is_removed : List Resource → String → Bool
is_removed removed id = any (λ r. r.id == id) removed

-- `sanitizeSnapshotReferences`
module _ {F : Type 0} (removed : List Resource) where
  abbrev pub detach : Mount F → Mount F
  detach m = if is_removed removed m.resource_id then record m { resource_id = "" } else m

  -- The snapshot without what names a removed resource.
  abbrev pub drop_references : Snapshot F → Snapshot F
  drop_references s = record s {
    relations =
        keep_if (λ r. not (is_removed removed r.origin) && not (is_removed removed r.target))
          s.relations;
    mounts = map detach s.mounts;
    findings = keep_if (λ f. not (is_removed removed f.resource_id)) s.findings;
  }

  unfoldable pub sanitize : Snapshot F → Result StorageError (Snapshot F)
  sanitize s =
      if any (λ f. is_removed removed f.resource_id) (drop_references s).findings
      then err removed_resource
      else ok (drop_references s)

-- `snapshot.Resources[:len(snapshot.Resources)/2]`
abbrev pub first_half {ℓ} : {A : Type ℓ} → List A → List A
first_half xs = take (length xs / 2) xs

abbrev pub second_half {ℓ} : {A : Type ℓ} → List A → List A
second_half xs = drop (length xs / 2) xs

abbrev pub cut_backend : BackendStatus → BackendStatus
cut_backend b = record b { availability = truncated }

module _ {F : Type 0} where
  -- What the body of the loop cuts.
  unfoldable pub halve : Snapshot F → Result StorageError (Snapshot F)
  halve s =
      if ltb 0 (length s.resources)
      then sanitize (second_half s.resources) (record s { resources = first_half s.resources })
      else if ltb 0 (length s.findings)
      then ok (record s { findings = first_half s.findings })
      else if ltb 0 (length s.mounts)
      then ok (record s { mounts = first_half s.mounts })
      else if ltb 0 (length s.relations)
      then ok (record s { relations = first_half s.relations })
      else err metadata_exceeds_limit

  abbrev pub cut_backends : Snapshot F → Snapshot F
  cut_backends s = record s { backends = map cut_backend s.backends }

  -- The number of entries that the loop may cut.
  abbrev pub entries : Snapshot F → ℕ
  entries s = length s.resources + length s.findings + length s.mounts + length s.relations

  module _ (json_bytes : Snapshot F → Option ℕ) where
    -- The end of `enforceSnapshotLimit`.
    abbrev pub check_graph : Snapshot F → Result StorageError (Snapshot F)
    check_graph s = as_storage_error (validate_graph s.resources s.relations) >>= λ _. ok s

    -- The loop of `enforceSnapshotLimit`.
    unfoldable pub shrink : ℕ → Snapshot F → Result StorageError (Snapshot F)
    shrink zero s = err unfinished
    shrink (suc fuel) s = elim (json_bytes s) [
      | none ↦ err serialize_failed
      | some n ↦ elim (ltb max_snapshot_bytes n) [
        | false ↦ check_graph s
        | true ↦ halve (record s { truncated = true }) >>= λ cut. shrink fuel (cut_backends cut)
      ]
    ]

    -- `enforceSnapshotLimit`
    unfoldable pub enforce_snapshot_limit : Snapshot F → Result StorageError (Snapshot F)
    enforce_snapshot_limit s = shrink (suc (entries s)) s
