-- ===== src/Storage/Graph/Cycles.antt =====
-- That a search which fails has met a cycle.
use pilothouse.Base.{
  ℕ, zero, suc, ◌<◌, ◌≡◌, ◌≢◌, refl, sym, ◌∙◌, String, none, some, List, [], ◌∷◌, string_eq, ◌==◌,
  lookup, insert, lookup-insert, lookup-insert_self, get_elem?, All, arith, inl, inr, Bool-cases,
  subst, true, not, is_some, count, Result, err, >>=-eq-err, ◌⊎◌, Option-cases, Bool, count_mono,
  count_strict,
}
use pilothouse.Storage.Model.{Relation}
use pilothouse.Storage.Graph.{
  Mark, visiting, visited, Marks, GraphError, exhausted, edges, deeper, walk_children, mark_visited,
  walk,
}
use pilothouse.Storage.Graph.Chains.{
  Arc, Chain, stop, step, Leads, direct, onward, Chain-round, All-edges,
}
use pilothouse.Storage.Graph.Search.{
  Extends, AreDepths, walk-Walked, walk_at, mark_visiting-AreDepths,
}

abbrev pub unmarked : Marks → String → Bool
unmarked marks id = not (is_some (lookup id marks))

abbrev pub Holds : List String → String → Type 0
Holds ids id = (i : ℕ) × (get_elem? ids i ≡ some id)

pub unmarked-Extends :
    (before after : Marks)
    → Extends before after
    → (id : String) → unmarked after id ≡ true
    → unmarked before id ≡ true
unmarked-Extends before after extends id h = elim (Option-cases (lookup id before)) [
  | inl e ↦ ground arith
  | inr (mark, e) ↦ ground (arith, extends id mark e)
]

unmarked-insert :
    (id : String) (mark : Mark) (marks : Marks) (k : String)
    → unmarked (insert id mark marks) k ≡ true
    → unmarked marks k ≡ true
unmarked-insert id mark marks k h = ground (arith, lookup-insert id k mark marks)

-- With the marks in `before`, a way from each resource under visit to the one that is entered.
abbrev pub Stack : List Relation → Marks → String → Type 0
Stack relations marks id = (k : String) → lookup k marks ≡ some visiting → Leads relations k id

module _ (relations : List Relation) (ids : List String) where
  abbrev pub fresh : Marks → ℕ
  fresh marks = count (unmarked marks) ids

  -- What a search that fails has met: chains without an end, and not the end of its fuel.
  abbrev pub Unbounded : GraphError → String → Type 0
  Unbounded e id = (e ≢ exhausted) × ((n : ℕ) → Chain relations id n)

  -- A search with fuel for the resources that are not marked fails only where chains have no end.
  abbrev pub FailsUnbounded : ℕ → (String → Marks → Result GraphError (ℕ × Marks)) → Type 0
  FailsUnbounded fuel call =
      (id : String) (marks : Marks) (e : GraphError)
      → AreDepths relations marks
      → Stack relations marks id
      → Holds ids id
      → fresh marks < fuel
      → call id marks ≡ err e
      → Unbounded e id

  Chain-child :
      (id c : String)
      → Arc relations id c
      → ((n : ℕ) → Chain relations c n)
      → (n : ℕ) → Chain relations id n
  Chain-child id c arc chains zero = stop
  Chain-child id c arc chains (suc n) = step arc (chains n)

  Stack-child :
      (id c : String) (marks : Marks)
      → Arc relations id c
      → ((k : String) → lookup k marks ≡ some visiting → (k ≡ id) ⊎ Leads relations k id)
      → Stack relations marks c
  Stack-child id c marks arc stack k h = elim (stack k h) [
    | inl e ↦ direct (subst (λ a. Arc relations a c) (sym e) arc)
    | inr leads ↦ onward leads arc
  ]

  walk_children-Unbounded :
      (fuel : ℕ) (id : String) (cs : List String) (least : ℕ) (marks : Marks) (e : GraphError)
      → FailsUnbounded fuel (walk relations fuel)
      → All (λ c. Arc relations id c × Holds ids c) cs
      → AreDepths relations marks
      → ((k : String) → lookup k marks ≡ some visiting → (k ≡ id) ⊎ Leads relations k id)
      → fresh marks < fuel
      → walk_children (walk relations fuel) cs least marks ≡ err e
      → Unbounded e id
  unfolding walk_children
  walk_children-Unbounded fuel id [] least marks e fails arcs good stack enough h = absurd (cc)
  walk_children-Unbounded fuel id (c ∷ cs) least marks e fails arcs good stack enough h =
      elim (>>=-eq-err (walk relations fuel c marks) _ h) [
        | inl failed ↦
            let found =
              fails c marks e good (Stack-child id c marks arcs.0.0 stack) arcs.0.1 enough failed in
            (found.0, Chain-child id c arcs.0.0 found.1)
        | inr ((d, middle), called, others) ↦
            let w = walk-Walked relations fuel c marks d middle good called in
            let less =
              count_mono (unmarked marks) (unmarked middle)
                (unmarked-Extends marks middle w.extends) ids in
            walk_children-Unbounded fuel id cs (deeper least d) middle e fails arcs.1 w.depths
              (λ k at. stack k (w.keeps k at)) (omega (arith, less)) others
      ]

  module _
      (closed : (i : ℕ) (r : Relation) → get_elem? relations i ≡ some r → Holds ids r.target) where
    arcs : (id : String) → All (λ c. Arc relations id c × Holds ids c) (edges relations id)
    arcs id =
        All-edges (λ c. Arc relations id c × Holds ids c) id relations
          (λ i r at mine. ((i, r, at, mine, refl), closed i r at))

    entered :
        (id : String) (marks : Marks)
        → Stack relations marks id
        → (k : String) → lookup k (insert id visiting marks) ≡ some visiting
        → (k ≡ id) ⊎ Leads relations k id
    entered id marks stack k h = elim (Bool-cases (id == k)) [
      | inl same ↦ inl (sym ((string_eq.beq_iff id k).0 same))
      | inr other ↦ inr (stack k (ground (arith, lookup-insert id k visiting marks)))
    ]

    fresh-visiting :
        (id : String) (marks : Marks)
        → Holds ids id
        → lookup id marks ≡ none
        → fresh (insert id visiting marks) < fresh marks
    fresh-visiting id marks (i, at) e =
        count_strict (unmarked marks) (unmarked (insert id visiting marks))
          (unmarked-insert id visiting marks) ids i id at (rw e refl)
          (rw (lookup-insert_self id visiting marks) refl)

    pub walk-Unbounded : (fuel : ℕ) → FailsUnbounded fuel (walk relations fuel)
    walk-Unbounded zero id marks e good stack held enough h = absurd (omega arith)
    walk-Unbounded (suc fuel) id marks e good stack held enough h =
        elim (Option-cases (lookup id marks)) [
          | inr (visiting, at) ↦ (
            λ wrong. ground (arith, walk_at relations fuel id marks (some visiting) at),
            Chain-round (stack id at),
          )
          | inr (visited d, at) ↦
              absurd (ground (arith, walk_at relations fuel id marks (some (visited d)) at))
          | inl new ↦
              elim (>>=-eq-err
                (walk_children (walk relations fuel) (edges relations id) 0
                  (insert id visiting marks))
                (mark_visited relations id) (sym (walk_at relations fuel id marks none new) ∙ h)) [
                  | inl failed ↦
                      walk_children-Unbounded fuel id (edges relations id) 0
                        (insert id visiting marks) e (walk-Unbounded fuel) (arcs id)
                        (mark_visiting-AreDepths relations id marks good) (entered id marks stack)
                        (omega (arith, fresh-visiting id marks held new)) failed
                  | inr (found, _, impossible) ↦ absurd (cc)
                ]
        ]
