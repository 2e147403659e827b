-- ===== src/Storage/Aggregate.antt =====
-- internal/modules/storage/normalize.go: `aggregate`, what the adapters have reported so far, with
-- `apply` and `validate`; `mergeDetails` of internal/modules/storage/manager.go.
pub mod Resources
pub mod Bounds
use Prim.Native.Char.{nul}
use Prim.Native.String.{◌++◌ as append}
use pilothouse.Base.{
  ℕ, suc, ◌+◌, String, Bool, true, false, not, ◌&&◌, ◌||◌, Option, none, some, List, [], ◌∷◌, ◌++◌,
  map, Map, string_eq, nat_eq, ◌==◌, lookup, insert, ltb, leb, length, take, any, if◌then◌else◌,
  Result, ok, err, ◌>>=◌, is_some,
}
use pilothouse.Storage.Model.{
  Health, Detail, Resource, Relation, Mount, Finding, health_rank, max_resources, max_relations,
  max_mounts, max_findings, max_details,
}
use pilothouse.Storage.Graph.{validate_graph}

-- `AdapterResult`
pub record AdapterResult (F : Type 0) : Type 0 where
  pub findings : List Finding
  pub mounts : List (Mount F)
  pub relations : List Relation
  pub resources : List Resource
  pub truncated : Bool

-- The Go maps to `true` are the maps of their keys.
pub record Aggregate (F : Type 0) : Type 0 where
  pub dropped : Map String Bool
  pub findings : List Finding
  pub mounts : List (Mount F)
  pub relations : Map String Relation
  pub resources : Map String Resource
  pub truncated : Map String Bool

pub data StorageError : Type 0 where
  conflicting_resource missing_resource missing_endpoint bad_graph : StorageError
  serialize_failed metadata_exceeds_limit removed_resource unfinished : StorageError

-- `m[k]` of a map to `bool`.
unfoldable pub flag : Map String Bool → String → Bool
flag m k = elim (lookup k m) [ none ↦ false | some b ↦ b ]

abbrev pub require_storage : Bool → StorageError → Result StorageError (Unit {0})
require_storage b e = if b then ok tt else err e

abbrev pub new_aggregate : (F : Type 0) → Aggregate F
new_aggregate F = record {
  dropped = [];
  findings = [];
  mounts = [];
  relations = [];
  resources = [];
  truncated = [];
}

-- `higherHealth`
unfoldable pub higher_health : Health → Health → Health
higher_health current candidate =
    if ltb (health_rank current) (health_rank candidate) then candidate else current

-- `staleHealthDetail`
abbrev pub stale_health_detail : Detail
stale_health_detail = record { label = "Health data"; value = "Stale" }

unfoldable pub is_stale : Detail → Bool
is_stale d = d.label == "Health data" && d.value == "Stale"

-- The second loop of `mergeDetails`.
unfoldable pub merge_loop : ℕ → List Detail → List Detail → List Detail
merge_loop limit found [] = found
merge_loop limit found (d ∷ ds) =
    merge_loop limit (if is_stale d || length found == limit then found else found ++ d ∷ []) ds

-- `mergeDetails`
unfoldable pub merge_details : List Detail → List Detail → List Detail
merge_details core enriched =
    if leb max_details (length core)
    then take max_details core
    else let stale = any is_stale enriched in
      let merged = merge_loop (if stale then 31 else max_details) core enriched in
      if stale && ltb (length merged) max_details
      then merged ++ stale_health_detail ∷ []
      else merged

-- `relationKey`
unfoldable pub relation_key : Relation → String
relation_key r = append r.origin (String.◌∷◌ nul (append r.kind (String.◌∷◌ nul r.target)))

-- What an enriching adapter adds to a resource.
unfoldable pub merge_resource : Resource → Resource → Resource
merge_resource existing r = record existing {
  details = merge_details existing.details r.details;
  health = higher_health existing.health r.health;
  state = if r.state == "" then existing.state else r.state;
}

-- The details that fit.
abbrev pub clip_details : Resource → Resource
clip_details r = record r { details = take max_details r.details }

module _ {F : Type 0} (backend : String) where
  abbrev pub mark_truncated : Aggregate F → Aggregate F
  mark_truncated a = record a { truncated = insert backend true a.truncated }

  -- The body of the loop over the resources.
  unfoldable pub apply_resource : Bool → Resource → Aggregate F → Result StorageError (Aggregate F)
  apply_resource enrich r a = elim (lookup r.id a.resources) [
    | some existing ↦
        if enrich
        then ok (record a { resources = insert r.id (merge_resource existing r) a.resources })
        else err conflicting_resource
    | none ↦
        if length a.resources == max_resources
        then ok (mark_truncated (record a { dropped = insert r.id true a.dropped }))
        else let kept = record a { resources = insert r.id (clip_details r) a.resources } in
          ok (if ltb max_details (length r.details) then mark_truncated kept else kept)
  ]

  unfoldable pub apply_resources :
      Bool → List Resource → Aggregate F → Result StorageError (Aggregate F)
  apply_resources enrich [] a = ok a
  apply_resources enrich (r ∷ rs) a = do b ← apply_resource enrich r a; apply_resources enrich rs b

  -- The body of the loop over the relations.
  unfoldable pub apply_relation : Relation → Aggregate F → Aggregate F
  apply_relation r a =
      if flag a.dropped r.origin || flag a.dropped r.target
      then a
      else if is_some (lookup (relation_key r) a.relations)
      then a
      else if length a.relations == max_relations
      then mark_truncated a
      else record a { relations = insert (relation_key r) r a.relations }

  unfoldable pub apply_relations : List Relation → Aggregate F → Aggregate F
  apply_relations [] a = a
  apply_relations (r ∷ rs) a = apply_relations rs (apply_relation r a)

  -- The mount without a resource that was dropped.
  abbrev pub attach : Aggregate F → Mount F → Mount F
  attach a m = if flag a.dropped m.resource_id then record m { resource_id = "" } else m

  -- The first mount with this id is replaced.
  unfoldable pub replace_mount : Mount F → List (Mount F) → Option (List (Mount F))
  replace_mount m [] = none
  replace_mount m (n ∷ ns) =
      let rest = replace_mount m ns in
      if n.id == m.id
      then some (m ∷ ns)
      else elim rest [ none ↦ none | some replaced ↦ some (n ∷ replaced) ]

  unfoldable pub add_mount : Mount F → Aggregate F → Aggregate F
  add_mount m a =
      if length a.mounts == max_mounts
      then mark_truncated a
      else record a { mounts = a.mounts ++ attach a m ∷ [] }

  -- The body of the loop over the mounts.
  unfoldable pub apply_mount : Bool → Mount F → Aggregate F → Aggregate F
  apply_mount enrich m a =
      if enrich
      then elim (replace_mount (attach a m) a.mounts) [
        | some replaced ↦ record a { mounts = replaced }
        | none ↦ add_mount m a
      ]
      else add_mount m a

  unfoldable pub apply_mounts : Bool → List (Mount F) → Aggregate F → Aggregate F
  apply_mounts enrich [] a = a
  apply_mounts enrich (m ∷ ms) a = apply_mounts enrich ms (apply_mount enrich m a)

  -- The body of the loop over the findings.
  unfoldable pub apply_finding : Finding → Aggregate F → Aggregate F
  apply_finding f a =
      if length a.findings == max_findings
      then mark_truncated a
      else record a { findings = a.findings ++ f ∷ [] }

  unfoldable pub apply_findings : List Finding → Aggregate F → Aggregate F
  apply_findings [] a = a
  apply_findings (f ∷ fs) a = apply_findings fs (apply_finding f a)

  -- `apply`
  unfoldable pub apply : AdapterResult F → Bool → Aggregate F → Result StorageError (Aggregate F)
  apply result enrich a = do
    b ← apply_resources enrich result.resources (if result.truncated then mark_truncated a else a)
    ok (
        apply_findings result.findings
          (apply_mounts enrich result.mounts (apply_relations result.relations b)))

abbrev pub as_storage_error {ℓ} :
    {E : Type ℓ} → Result E (Unit {0}) → Result StorageError (Unit {0})
as_storage_error (ok t) = ok t
as_storage_error (err e) = err bad_graph

module _ {F : Type 0} (a : Aggregate F) where
  abbrev pub is_resource : String → Bool
  is_resource id = is_some (lookup id a.resources)

  -- The loops of `validate`.
  unfoldable pub findings_attributed : List Finding → Bool
  findings_attributed [] = true
  findings_attributed (f ∷ fs) =
      let rest = findings_attributed fs in
      if f.resource_id == "" || is_resource f.resource_id then rest else false

  unfoldable pub endpoints_present : List Relation → Bool
  endpoints_present [] = true
  endpoints_present (r ∷ rs) =
      let rest = endpoints_present rs in
      if is_resource r.origin && is_resource r.target then rest else false

  -- `validate`
  unfoldable pub validate : Result StorageError (Unit {0})
  validate = do
    _ ← require_storage (findings_attributed a.findings) missing_resource
    _ ← require_storage (endpoints_present (map (λ e. e.1) a.relations)) missing_endpoint
    as_storage_error (validate_graph (map (λ e. e.1) a.resources) (map (λ e. e.1) a.relations))
