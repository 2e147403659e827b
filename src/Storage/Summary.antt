-- ===== src/Storage/Summary.antt =====
-- internal/modules/storage/normalize.go: `recalculateSummary`.
use pilothouse.Base.{
  ◌+◌, ◌%◌, ◌^◌, String, Bool, true, false, not, ◌&&◌, none, some, List, [], ◌∷◌, ◌++◌, map,
  string_eq, nat_eq, ◌==◌, leb, count, if◌then◌else◌, contains,
}
use pilothouse.Storage.Model.{
  Health, healthy, warning, available, Resource, Mount, BackendStatus, Snapshot, Summary,
  health_rank,
}
use pilothouse.Storage.Aggregate.{higher_health}

abbrev pub blank_summary : Summary
blank_summary = record {
  active_mounts = 0;
  free_bytes = 0;
  highest_health = none;
  unavailable_backends = 0;
  unhealthy_resources = 0;
  usable_bytes = 0;
  used_bytes = 0;
}

-- The highest of the healths, from one on.
unfoldable pub highest : Health → List Health → Health
highest h [] = h
highest h (c ∷ cs) = highest (higher_health h c) cs

abbrev pub is_unhealthy : Resource → Bool
is_unhealthy r = leb (health_rank warning) (health_rank r.health)

abbrev pub is_available : BackendStatus → Bool
is_available b = elim b.availability [ available ↦ true | _ ↦ false ]

module _ {F : Type 0} where
  -- The loop over the mounts in `recalculateSummary`, with `capacity`.
  unfoldable pub sum_mounts : List String → List (Mount F) → Summary → Summary
  sum_mounts capacity [] sum = sum
  sum_mounts capacity (m ∷ ms) sum =
      let counted =
        not (m.filesystem == "overlay")
        && not (m.resource_id == "")
        && not (contains capacity m.resource_id) in
      sum_mounts (if counted then m.resource_id ∷ capacity else capacity) ms (record sum {
        active_mounts = sum.active_mounts + (if m.state == "mounted" then 1 else 0);
        usable_bytes =
            if counted then (sum.usable_bytes + m.total_bytes) % 2 ^ 64 else sum.usable_bytes;
        used_bytes = if counted then (sum.used_bytes + m.used_bytes) % 2 ^ 64 else sum.used_bytes;
        free_bytes =
            if counted then (sum.free_bytes + m.available_bytes) % 2 ^ 64 else sum.free_bytes;
      })

  -- `recalculateSummary`
  unfoldable pub recalculate_summary : Snapshot F → Snapshot F
  recalculate_summary s =
      let sum = sum_mounts [] s.mounts blank_summary in
      let healths =
        map (λ r. r.health) s.resources
        ++ map (λ m. m.health) s.mounts
        ++ map (λ f. f.severity) s.findings in
      record s {
        summary = record sum {
          unhealthy_resources = count is_unhealthy s.resources;
          unavailable_backends = count (λ b. not (is_available b)) s.backends;
          highest_health = some (highest healthy healths);
        };
      }
