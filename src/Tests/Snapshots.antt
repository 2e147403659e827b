-- ===== src/Tests/Snapshots.antt =====
-- A disk with a partition, its mount, and an enriching adapter that reports an unknown resource.
use pilothouse.Base.{
  ℕ, ◌*◌, ◌↔◌, ap, string_eq, ◌==◌, ◌≡◌, refl, String, Bool, true, false, Option, none, some, List,
  [], ◌∷◌, length, leb, err, ok, insert, lookup, precedes, sort_by, insert_by, ◌≤◌, replicate,
  get_elem?, ◌≢◌,
}
use pilothouse.Storage.Model.{
  Resource, Relation, Mount, Finding, BackendStatus, Snapshot, healthy, warning, critical,
  health_rank, available, unavailable, truncated, max_graph_depth, max_findings,
}
use pilothouse.Storage.Graph.{validate_graph, walk_all, walk, walk_children, cycle, exhausted}
use pilothouse.Storage.Graph.Chains.{Chain}
use pilothouse.Storage.Graph.Verdict.{validate_graph_iff}
use pilothouse.Storage.Aggregate.{
  Aggregate, new_aggregate, apply, apply_resources, apply_resource, apply_relations, apply_relation,
  apply_mounts, apply_mount, replace_mount, add_mount, apply_findings, apply_finding, validate,
  findings_attributed, endpoints_present, flag, relation_key, higher_health, unfinished,
}
use pilothouse.Storage.Summary.{recalculate_summary, sum_mounts, highest}
use pilothouse.Storage.Order.{sort_snapshot, finding_less}
use pilothouse.Storage.Limit.{enforce_snapshot_limit, shrink, halve, sanitize}
use pilothouse.Storage.Limit.Shrink.{enforce_snapshot_limit_ends}
use pilothouse.Storage.Normalize.{
  CollectedResult, normalize, assemble, apply_core, enrich, enrich_one, availability_for,
  review_mounts, review_mount, capacity_finding, capacity_health, append_finding,
  is_expected_immutable_mount,
}
use pilothouse.Storage.Normalize.Sound.{IsSound, normalize-IsSound}
use pilothouse.Storage.Normalize.Overflow.{assemble-overflow}

abbrev device : String → Resource
device id = record {
  details = [];
  health = healthy;
  id = id;
  kind = "disk";
  name = id;
  path = "";
  size_bytes = 0;
  state = "";
}

abbrev holds : String → String → Relation
holds a b = record { origin = a; kind = "holds"; target = b }

abbrev root_mount : Mount ℕ
root_mount = record {
  available_bytes = 5;
  filesystem = "ext4";
  health = healthy;
  id = "root";
  managed = false;
  options = [];
  read_only = false;
  resource_id = "vda1";
  source = "/dev/vda1";
  state = "mounted";
  target = "/";
  total_bytes = 100;
  used_bytes = 95;
  used_percent = 95;
}

abbrev at_least : ℕ → ℕ → Bool
at_least x n = leb n x

-- 100 bytes for each resource.
abbrev json_bytes : Snapshot ℕ → Option ℕ
json_bytes s = some (length s.resources * 100)

abbrev reports : List (CollectedResult ℕ)
reports =
    record {
      error = none;
      name = "block";
      core = true;
      result = record {
        findings = [];
        mounts = root_mount ∷ [];
        relations = holds "vda" "vda1" ∷ [];
        resources = device "vda1" ∷ device "vda" ∷ [];
        truncated = false;
      };
    }
    ∷ record {
      error = none;
      name = "smart";
      core = false;
      result = record {
        findings =
            record { detail = ""; resource_id = "sdz"; severity = warning; title = "Hot" } ∷ [];
        mounts = [];
        relations = [];
        resources = [];
        truncated = false;
      };
    }
    ∷ []

-- The mount is critical, and the report on a resource that is not there is refused.
abbrev expected : Snapshot ℕ
expected = record {
  backends =
      record { availability = available; collected_at = 7; name = "block" }
      ∷ record { availability = unavailable; collected_at = 7; name = "smart" }
      ∷ [];
  collected_at = 7;
  findings =
      record {
        detail = "/";
        resource_id = "vda1";
        severity = critical;
        title = "Mount capacity is critical";
      }
      ∷ [];
  mounts = record root_mount { health = critical } ∷ [];
  relations = holds "vda" "vda1" ∷ [];
  resources = device "vda" ∷ device "vda1" ∷ [];
  summary = record {
    active_mounts = 1;
    free_bytes = 5;
    highest_health = some critical;
    unavailable_backends = 1;
    unhealthy_resources = 0;
    usable_bytes = 100;
    used_bytes = 95;
  };
  truncated = false;
}

normalized : normalize json_bytes at_least 7 reports ≡ ok expected
unfolding normalize apply_core apply apply_resources apply_resource apply_relations apply_relation
    apply_mounts apply_mount replace_mount add_mount apply_findings apply_finding validate
    findings_attributed endpoints_present flag relation_key higher_health recalculate_summary
    sum_mounts highest sort_snapshot enforce_snapshot_limit shrink halve assemble enrich enrich_one
    availability_for review_mounts review_mount capacity_finding capacity_health append_finding
    is_expected_immutable_mount validate_graph walk_all walk walk_children insert lookup precedes
    sort_by insert_by health_rank
normalized = refl

normalize-IsSound_example : IsSound at_least json_bytes expected
normalize-IsSound_example = normalize-IsSound at_least json_bytes 7 reports expected normalized

validate_graph_iff_example :
    (validate_graph (device "a" ∷ []) (holds "a" "b" ∷ holds "b" "c" ∷ []) ≢ err exhausted)
    × ((validate_graph (device "a" ∷ []) (holds "a" "b" ∷ holds "b" "c" ∷ []) ≡ ok tt) ↔ (
        (i : ℕ) (r : Resource) (n : ℕ)
        → get_elem? (device "a" ∷ []) i ≡ some r
        → Chain (holds "a" "b" ∷ holds "b" "c" ∷ []) r.id n
        → n ≤ max_graph_depth))
validate_graph_iff_example =
    validate_graph_iff (device "a" ∷ []) (holds "a" "b" ∷ holds "b" "c" ∷ [])

cycle_refused : validate_graph (device "a" ∷ []) (holds "a" "b" ∷ holds "b" "a" ∷ []) ≡ err cycle
unfolding validate_graph walk_all walk walk_children insert lookup
cycle_refused = refl

-- Where each resource takes 2 MB, one of them goes, and its relation and mount with it.
halved :
    (enforce_snapshot_limit (λ s. some (length s.resources * 2000000)) expected)
    ≡ ok (record expected {
      backends =
          record { availability = truncated; collected_at = 7; name = "block" }
          ∷ record { availability = truncated; collected_at = 7; name = "smart" }
          ∷ [];
      findings = [];
      mounts = record root_mount { health = critical; resource_id = "" } ∷ [];
      relations = [];
      resources = device "vda" ∷ [];
      truncated = true;
    })
unfolding enforce_snapshot_limit shrink halve sanitize validate_graph walk_all walk walk_children
    insert lookup
halved = refl

enforce_snapshot_limit_ends_example : enforce_snapshot_limit json_bytes expected ≢ err unfinished
enforce_snapshot_limit_ends_example = enforce_snapshot_limit_ends json_bytes expected

abbrev warm : Finding
warm = record { detail = ""; resource_id = ""; severity = warning; title = "Warm" }

abbrev crowded : Aggregate ℕ
crowded = record (new_aggregate ℕ) {
  findings = replicate max_findings warm;
  mounts = root_mount ∷ [];
}

abbrev block_status : BackendStatus
block_status = record { availability = available; collected_at = 7; name = "block" }

block_named : block_status.name ≢ ""
block_named h = let wrong : false ≡ true = ap (λ s. s == "") h in cc

assemble-overflow_example :
    ((assemble json_bytes at_least 7 (block_status ∷ [], crowded)).findings
      ≡ sort_by finding_less (replicate max_findings warm))
    × ((assemble json_bytes at_least 7 (block_status ∷ [], crowded)).truncated ≡ false)
assemble-overflow_example =
    assemble-overflow at_least json_bytes 7 (block_status ∷ []) crowded refl refl (block_named, tt)
