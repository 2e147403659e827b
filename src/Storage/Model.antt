-- ===== src/Storage/Model.antt =====
-- internal/modules/storage/model.go: the snapshot of a host's storage. The percentage that a mount has
-- in use is a Go float, a parameter.
use pilothouse.Base.{ℕ, String, Bool, List, Option}

abbrev pub max_resources : ℕ
max_resources = 4096

abbrev pub max_relations : ℕ
max_relations = 8192

abbrev pub max_mounts : ℕ
max_mounts = 1024

abbrev pub max_findings : ℕ
max_findings = 512

abbrev pub max_details : ℕ
max_details = 32

abbrev pub max_snapshot_bytes : ℕ
max_snapshot_bytes = 2097152

abbrev pub max_graph_depth : ℕ
max_graph_depth = 32

-- `Health`; any other text ranks as `healthy` does.
pub data Health : Type 0 where
  healthy unknown warning critical : Health

-- `Availability`
pub data Availability : Type 0 where
  available unsupported unavailable timed_out truncated : Availability

pub record Detail : Type 0 where
  pub label : String
  pub value : String

pub record Resource : Type 0 where
  pub details : List Detail
  pub health : Health
  pub id : String
  pub kind : String
  pub name : String
  pub path : String
  pub size_bytes : ℕ
  pub state : String

pub record Relation : Type 0 where
  pub origin : String
  pub kind : String
  pub target : String

pub record Mount (F : Type 0) : Type 0 where
  pub available_bytes : ℕ
  pub filesystem : String
  pub health : Health
  pub id : String
  pub managed : Bool
  pub options : List String
  pub read_only : Bool
  pub resource_id : String
  pub source : String
  pub state : String
  pub target : String
  pub total_bytes : ℕ
  pub used_bytes : ℕ
  pub used_percent : F

pub record BackendStatus : Type 0 where
  pub availability : Availability
  pub collected_at : ℕ
  pub name : String

pub record Finding : Type 0 where
  pub detail : String
  pub resource_id : String
  pub severity : Health
  pub title : String

pub record Summary : Type 0 where
  pub active_mounts : ℕ
  pub free_bytes : ℕ
  pub highest_health : Option Health
  pub unavailable_backends : ℕ
  pub unhealthy_resources : ℕ
  pub usable_bytes : ℕ
  pub used_bytes : ℕ

pub record Snapshot (F : Type 0) : Type 0 where
  pub backends : List BackendStatus
  pub collected_at : ℕ
  pub findings : List Finding
  pub mounts : List (Mount F)
  pub relations : List Relation
  pub resources : List Resource
  pub summary : Summary
  pub truncated : Bool

-- `healthRank`
unfoldable pub health_rank : Health → ℕ
health_rank healthy = 0
health_rank unknown = 1
health_rank warning = 2
health_rank critical = 3
