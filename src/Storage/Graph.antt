-- ===== src/Storage/Graph.antt =====
-- internal/modules/storage/normalize.go: `validateGraph`, the search for a cycle or a long chain
-- among the relations of a snapshot. The maps `state` and `depths` are one map of marks.
pub mod Chains
pub mod Search
pub mod Cycles
pub mod Verdict
use pilothouse.Base.{
  ℕ, zero, suc, String, none, some, List, [], ◌∷◌, ◌++◌, map, Map, string_eq, ◌==◌, lookup, insert,
  ltb, length, keep_if, if◌then◌else◌, Result, ok, err, ◌>>=◌,
}
use pilothouse.Storage.Model.{Resource, Relation, max_graph_depth}

-- `state[id]`, with `depths[id]` where it is 2.
pub data Mark : Type 0 where
  visiting : Mark
  visited : ℕ → Mark

abbrev pub Marks : Type 0
Marks = Map String Mark

-- `exhausted` stands for a search that has run out of fuel, which does not happen.
pub data GraphError : Type 0 where
  cycle too_deep exhausted : GraphError

-- `edges[id]`
abbrev pub edges : List Relation → String → List String
edges relations id = map (λ r. r.target) (keep_if (λ r. r.origin == id) relations)

-- The body of the loop over the children, and the loop.
abbrev pub deeper : ℕ → ℕ → ℕ
deeper depth child = if ltb depth (suc child) then suc child else depth

unfoldable pub walk_children :
    (String → Marks → Result GraphError (ℕ × Marks))
    → List String
    → ℕ
    → Marks
    → Result GraphError (ℕ × Marks)
walk_children walk [] depth marks = ok (depth, marks)
walk_children walk (c ∷ cs) depth marks = do
  child ← walk c marks
  walk_children walk cs (deeper depth child.0) child.1

module _ (relations : List Relation) where
  -- The end of `walk`.
  abbrev pub mark_visited : String → ℕ × Marks → Result GraphError (ℕ × Marks)
  mark_visited id (depth, marks) = ok (depth, insert id (visited depth) marks)

  -- `walk`
  unfoldable pub walk : ℕ → String → Marks → Result GraphError (ℕ × Marks)
  walk zero id marks = err exhausted
  walk (suc fuel) id marks = elim (lookup id marks) [
    | some visiting ↦ err cycle
    | some (visited depth) ↦ ok (depth, marks)
    | none ↦
        walk_children (walk fuel) (edges relations id) 0 (insert id visiting marks)
        >>= mark_visited id
  ]

  -- The loop over the resources.
  unfoldable pub walk_all : ℕ → List Resource → Marks → Result GraphError (Unit {0})
  walk_all fuel [] marks = ok tt
  walk_all fuel (r ∷ rs) marks = do
    found ← walk fuel r.id marks
    if ltb max_graph_depth found.0 then err too_deep else walk_all fuel rs found.1

-- The identities that the search may meet.
abbrev pub nodes : List Resource → List Relation → List String
nodes resources relations = map (λ r. r.id) resources ++ map (λ r. r.target) relations

-- `validateGraph`
unfoldable pub validate_graph : List Resource → List Relation → Result GraphError (Unit {0})
validate_graph resources relations =
    walk_all relations (suc (length (nodes resources relations))) resources []
