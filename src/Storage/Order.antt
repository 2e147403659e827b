-- ===== src/Storage/Order.antt =====
-- internal/modules/storage/normalize.go: `sortSnapshot`.
use pilothouse.Base.{
  String, Bool, not, string_eq, nat_eq, ◌==◌, ltb, if◌then◌else◌, precedes, sort_by,
}
use pilothouse.Storage.Model.{
  Resource, Relation, Mount, Finding, BackendStatus, Snapshot, health_rank,
}

-- A `<` of texts.
abbrev pub before : String → String → Bool
before a b = not (precedes b a)

-- The tests of order in `sortSnapshot`.
abbrev pub resource_less : Resource → Resource → Bool
resource_less a b =
    if not (a.kind == b.kind)
    then before a.kind b.kind
    else if not (a.name == b.name)
    then before a.name b.name
    else before a.id b.id

abbrev pub relation_less : Relation → Relation → Bool
relation_less a b =
    if not (a.origin == b.origin)
    then before a.origin b.origin
    else if not (a.kind == b.kind)
    then before a.kind b.kind
    else before a.target b.target

abbrev pub finding_less : Finding → Finding → Bool
finding_less a b =
    if not (health_rank a.severity == health_rank b.severity)
    then ltb (health_rank b.severity) (health_rank a.severity)
    else if not (a.resource_id == b.resource_id)
    then before a.resource_id b.resource_id
    else before a.title b.title

abbrev pub backend_less : BackendStatus → BackendStatus → Bool
backend_less a b = before a.name b.name

module _ {F : Type 0} where
  abbrev pub mount_less : Mount F → Mount F → Bool
  mount_less a b =
      if not (a.target == b.target)
      then before a.target b.target
      else if not (a.source == b.source)
      then before a.source b.source
      else before a.id b.id

  -- `sortSnapshot`
  unfoldable pub sort_snapshot : Snapshot F → Snapshot F
  sort_snapshot s = record s {
    resources = sort_by resource_less s.resources;
    relations = sort_by relation_less s.relations;
    mounts = sort_by mount_less s.mounts;
    findings = sort_by finding_less s.findings;
    backends = sort_by backend_less s.backends;
  }
