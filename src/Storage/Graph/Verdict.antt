-- ===== src/Storage/Graph/Verdict.antt =====
-- When the relations are accepted.
use pilothouse.Base.{
  ℕ, zero, suc, ◌≤◌, ◌<◌, ◌≡◌, ◌≢◌, refl, String, some, List, [], ◌∷◌, ◌++◌, map, string_eq, lookup,
  get_elem?, All, All-get_elem?, All-of_get_elem?, count-le-length, arith, inl, inr, length, ok,
  err, >>=-eq-ok, >>=-eq-err, Result-cases, ◌↔◌, count_mono, Bool-cases, ltb,
}
use pilothouse.Storage.Model.{Resource, Relation, max_graph_depth}
use pilothouse.Storage.Graph.{
  visiting, exhausted, Marks, GraphError, walk, walk_all, nodes, validate_graph,
}
use pilothouse.Storage.Graph.Chains.{Chain}
use pilothouse.Storage.Graph.Search.{AreDepths, walk-Walked}
use pilothouse.Storage.Graph.Cycles.{unmarked, Holds, unmarked-Extends, fresh, walk-Unbounded}

module _ (relations : List Relation) (ids : List String)
    (closed : (i : ℕ) (r : Relation) → get_elem? relations i ≡ some r → Holds ids r.target) where
  -- No resource is under visit between the searches.
  abbrev Idle : Marks → Type 0
  Idle marks = (k : String) → lookup k marks ≢ some visiting

  abbrev Short : Resource → Type 0
  Short r = (n : ℕ) → Chain relations r.id n → n ≤ max_graph_depth

  walk_all-Short :
      (fuel : ℕ) (resources : List Resource) (marks : Marks)
      → AreDepths relations marks
      → walk_all relations fuel resources marks ≡ ok tt
      → All Short resources
  unfolding walk_all
  walk_all-Short fuel [] marks good h = tt
  walk_all-Short fuel (r ∷ rs) marks good h =
      let ((d, after), called, others) = >>=-eq-ok (walk relations fuel r.id marks) _ h in
      let w = walk-Walked relations fuel r.id marks d after good called in
      let depth : d ≤ max_graph_depth = ground arith in
      (
        λ n c. omega (arith, (w.depths r.id d w.marked).1 n c, depth),
        walk_all-Short fuel rs after w.depths (ground arith),
      )

  walk_all_total :
      (fuel : ℕ) (resources : List Resource) (marks : Marks) (e : GraphError)
      → AreDepths relations marks
      → Idle marks
      → All (λ r. Holds ids r.id) resources
      → fresh relations ids marks < fuel
      → All Short resources
      → walk_all relations fuel resources marks ≢ err e
  unfolding walk_all
  walk_all_total fuel [] marks e good idle held enough short h = cc
  walk_all_total fuel (r ∷ rs) marks e good idle held enough short h =
      elim (>>=-eq-err (walk relations fuel r.id marks) _ h) [
        | inl failed ↦
            let chains =
              walk-Unbounded relations ids closed fuel r.id marks e good
                (λ k at. absurd (idle k at)) held.0 enough failed in
            absurd (omega (arith, short.0 33 (chains.1 33)))
        | inr ((d, after), called, others) ↦
            let w = walk-Walked relations fuel r.id marks d after good called in
            let less =
              count_mono (unmarked marks) (unmarked after) (unmarked-Extends marks after w.extends)
                ids in
            let depth : d ≤ max_graph_depth = short.0 d (w.depths r.id d w.marked).0 in
            walk_all_total fuel rs after e w.depths (λ k at. idle k (w.keeps k at)) held.1
              (omega (arith, less)) short.1 (ground arith)
      ]

  walk_all_ends :
      (fuel : ℕ) (resources : List Resource) (marks : Marks)
      → AreDepths relations marks
      → Idle marks
      → All (λ r. Holds ids r.id) resources
      → fresh relations ids marks < fuel
      → walk_all relations fuel resources marks ≢ err exhausted
  unfolding walk_all
  walk_all_ends fuel [] marks good idle held enough h = cc
  walk_all_ends fuel (r ∷ rs) marks good idle held enough h =
      elim (>>=-eq-err (walk relations fuel r.id marks) _ h) [
        | inl failed ↦
            let found =
              walk-Unbounded relations ids closed fuel r.id marks exhausted good
                (λ k at. absurd (idle k at)) held.0 enough failed in
            absurd (found.0 refl)
        | inr ((d, after), called, others) ↦
            let w = walk-Walked relations fuel r.id marks d after good called in
            let less =
              count_mono (unmarked marks) (unmarked after) (unmarked-Extends marks after w.extends)
                ids in
            elim (Bool-cases (ltb max_graph_depth d)) [
              | inl deep ↦ absurd (ground arith)
              | inr fits ↦
                  walk_all_ends fuel rs after w.depths (λ k at. idle k (w.keeps k at)) held.1
                    (omega (arith, less)) (ground arith)
            ]
      ]

Holds-append : (xs ys : List String) (y : String) → Holds ys y → Holds (xs ++ ys) y
Holds-append [] ys y h = h
Holds-append (x ∷ xs) ys y h = let (i, at) = Holds-append xs ys y h in (suc i, at)

Holds-append_left : (xs ys : List String) (x : String) → Holds xs x → Holds (xs ++ ys) x
Holds-append_left [] ys x (i, at) = absurd (cc)
Holds-append_left (z ∷ xs) ys x (zero, at) = (0, at)
Holds-append_left (z ∷ xs) ys x (suc i, at) =
    let (j, there) = Holds-append_left xs ys x (i, at) in (suc j, there)

Holds-map {ℓ} :
    {A : Type ℓ} (f : A → String) (xs : List A) (i : ℕ) (x : A)
    → get_elem? xs i ≡ some x
    → Holds (map f xs) (f x)
Holds-map f [] i x at = absurd (cc)
Holds-map f (y ∷ xs) zero x at = (0, cc)
Holds-map f (y ∷ xs) (suc i) x at = let (j, there) = Holds-map f xs i x at in (suc j, there)

empty-AreDepths : (relations : List Relation) → AreDepths relations []
unfolding lookup
empty-AreDepths relations id d h = absurd (cc)

empty-Idle : (k : String) → lookup k [] ≢ some visiting
unfolding lookup
empty-Idle k h = cc

module _ (resources : List Resource) (relations : List Relation) where
  nodes-closed :
      (i : ℕ) (r : Relation)
      → get_elem? relations i ≡ some r
      → Holds (nodes resources relations) r.target
  nodes-closed i r at =
      Holds-append (map (λ r. r.id) resources) (map (λ r. r.target) relations) r.target
        (Holds-map (λ r. r.target) relations i r at)

  nodes-resources : All (λ r. Holds (nodes resources relations) r.id) resources
  nodes-resources =
      All-of_get_elem? (λ r. Holds (nodes resources relations) r.id) resources
        λ i r at.
          Holds-append_left (map (λ r. r.id) resources) (map (λ r. r.target) relations) r.id
            (Holds-map (λ r. r.id) resources i r at)

-- The search never runs out of its fuel, and it accepts the relations exactly when no chain from a
-- resource is longer than the limit, which a cycle would give.
pub validate_graph_iff :
    (resources : List Resource) (relations : List Relation)
    → (validate_graph resources relations ≢ err exhausted)
      × ((validate_graph resources relations ≡ ok tt) ↔ (
          (i : ℕ) (r : Resource) (n : ℕ)
          → get_elem? resources i ≡ some r
          → Chain relations r.id n
          → n ≤ max_graph_depth))
unfolding validate_graph
validate_graph_iff resources relations =
    let ids = nodes resources relations in
    let closed = nodes-closed resources relations in
    let fuel = suc (length ids) in
    let bounded = Short relations ids closed in
    (
      walk_all_ends relations ids closed fuel resources [] (empty-AreDepths relations) empty-Idle
          (nodes-resources resources relations) (omega (arith, count-le-length (unmarked []) ids)),
      (
        λ h i r n at.
            All-get_elem? bounded resources i r
              (walk_all-Short relations ids closed fuel resources [] (empty-AreDepths relations) h)
              at n,
        λ short. elim (Result-cases (walk_all relations fuel resources [])) [
          | inl (tt, e) ↦ e
          | inr (e, h) ↦ absurd (
              walk_all_total relations ids closed fuel resources [] e (empty-AreDepths relations)
                empty-Idle (nodes-resources resources relations)
                (omega (arith, count-le-length (unmarked []) ids))
                (All-of_get_elem? bounded resources (λ i r at n. short i r n at)) h)
        ],
      ),
    )
