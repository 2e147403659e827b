-- ===== src/Storage/Graph/Search.antt =====
-- What the search over the relations finds, and that it ends.
use pilothouse.Base.{
  ℕ, zero, suc, ◌≤◌, ◌≡◌, refl, sym, ap, ◌∙◌, String, Option, none, some, List, [], ◌∷◌, string_eq,
  ◌==◌, lookup, insert, lookup-insert, lookup-insert_self, All, arith, inl, inr, Bool-cases, subst,
  subst₂, Result, ok, err, ◌>>=◌, >>=-eq-ok, ltb, Option-cases,
}
use pilothouse.Storage.Model.{Relation}
use pilothouse.Storage.Graph.{
  Mark, visiting, visited, Marks, GraphError, cycle, exhausted, edges, deeper, walk_children,
  mark_visited, walk,
}
use pilothouse.Storage.Graph.Chains.{Arc, Chain, stop, step, All-edges, edges-All}

abbrev pub Extends : Marks → Marks → Type 0
Extends before after =
    (id : String) (mark : Mark) → lookup id before ≡ some mark → lookup id after ≡ some mark

abbrev pub KeepsVisiting : Marks → Marks → Type 0
KeepsVisiting before after =
    (id : String) → lookup id after ≡ some visiting → lookup id before ≡ some visiting

-- A mark over a fresh one extends the marks from before.
insert-Extends :
    (id : String) (a b : Mark) (before after : Marks)
    → lookup id before ≡ none
    → Extends (insert id a before) after
    → Extends before (insert id b after)
insert-Extends id a b before after fresh extends k mark h = elim (Bool-cases (id == k)) [
  | inl same ↦
      let e : id ≡ k = (string_eq.beq_iff id k).0 same in
      absurd (ground (arith, ap (λ j. lookup j before) e))
  | inr other ↦
      rw (lookup-insert id k b after, other)
        (extends k mark (rw (lookup-insert id k a before, other) h))
]

insert_visited-KeepsVisiting :
    (id : String) (depth : ℕ) (before after : Marks)
    → KeepsVisiting (insert id visiting before) after
    → KeepsVisiting before (insert id (visited depth) after)
insert_visited-KeepsVisiting id depth before after keeps k h = elim (Bool-cases (id == k)) [
  | inl same ↦ absurd (ground (arith, lookup-insert id k (visited depth) after))
  | inr other ↦
      let kept : lookup k (insert id visiting before) ≡ some visiting =
        keeps k (ground (arith, lookup-insert id k (visited depth) after)) in
      ground (arith, lookup-insert id k visiting before)
]

deeper_bounds : (depth d : ℕ) → (depth ≤ deeper depth d) × (suc d ≤ deeper depth d)
deeper_bounds depth d = ground arith

module _ (relations : List Relation) where
  -- A depth is the length of the longest chain.
  abbrev pub IsDepth : String → ℕ → Type 0
  IsDepth id depth = Chain relations id depth × ((n : ℕ) → Chain relations id n → n ≤ depth)

  abbrev pub AreDepths : Marks → Type 0
  AreDepths marks = (id : String) (d : ℕ) → lookup id marks ≡ some (visited d) → IsDepth id d

  pub record Walked (before after : Marks) (id : String) (depth : ℕ) : Type 0 where
    pub depths : AreDepths after
    pub extends : Extends before after
    pub keeps : KeepsVisiting before after
    pub marked : lookup id after ≡ some (visited depth)

  -- A child that is marked with less than the depth of its parent.
  abbrev Below : Marks → ℕ → String → Type 0
  Below marks depth c = (d : ℕ) × (lookup c marks ≡ some (visited d)) × (suc d ≤ depth)

  record WalkedChildren (before after : Marks) (id : String) (cs : List String) (least depth : ℕ)
      : Type 0 where
    depths : AreDepths after
    extends : Extends before after
    keeps : KeepsVisiting before after
    chain : Chain relations id depth
    larger : least ≤ depth
    below : All (Below after depth) cs

  deeper-Chain :
      (id c : String) (least d : ℕ)
      → Arc relations id c
      → Chain relations id least
      → Chain relations c d
      → Chain relations id (deeper least d)
  deeper-Chain id c least d arc chain below = elim (Bool-cases (ltb least (suc d))) [
    | inl longer ↦ rw longer (step arc below)
    | inr shorter ↦ rw shorter chain
  ]

  module _ (call : String → Marks → Result GraphError (ℕ × Marks))
      (call-Walked : (id : String) (before : Marks) (depth : ℕ) (after : Marks)
        → AreDepths before
        → call id before ≡ ok (depth, after)
        → Walked before after id depth) where
    walk_children-Walked :
        (id : String) (cs : List String) (least : ℕ) (before : Marks) (depth : ℕ) (after : Marks)
        → All (Arc relations id) cs
        → AreDepths before
        → Chain relations id least
        → walk_children call cs least before ≡ ok (depth, after)
        → WalkedChildren before after id cs least depth
    unfolding walk_children
    walk_children-Walked id [] least before depth after arcs good chain h =
        subst (λ (r : ℕ × Marks). WalkedChildren before r.1 id [] least r.0) (cc)
          (record {
            depths = good;
            extends = λ k mark e. e;
            keeps = λ k e. e;
            chain = chain;
            larger = omega arith;
            below = tt;
          })
    walk_children-Walked id (c ∷ cs) least before depth after arcs good chain h =
        let ((d, middle), called, others) = >>=-eq-ok (call c before) _ h in
        let first : Walked before middle c d = call-Walked c before d middle good called in
        let rest =
          walk_children-Walked id cs (deeper least d) middle depth after arcs.1 first.depths
            (deeper-Chain id c least d arcs.0 chain (first.depths c d first.marked).0) others in
        record {
          depths = rest.depths;
          extends = λ k mark e. rest.extends k mark (first.extends k mark e);
          keeps = λ k e. first.keeps k (rest.keeps k e);
          chain = rest.chain;
          larger = omega (arith, rest.larger, deeper_bounds least d);
          below = (
            (
              d,
              rest.extends c (visited d) first.marked,
              omega (arith, rest.larger, deeper_bounds least d),
            ),
            rest.below,
          );
        }

  edges-longest :
      (id : String) (after : Marks) (depth : ℕ)
      → AreDepths after
      → All (Below after depth) (edges relations id)
      → (n : ℕ) → Chain relations id n
      → n ≤ depth
  edges-longest id after depth good below n stop = omega arith
  edges-longest id after depth good below n (step {b} {n = m} (i, r, at, mine, there) rest) =
      let (d, marked, less) = edges-All (Below after depth) id relations i r below at mine in
      omega
        (arith, (good r.target d marked).1 m (subst (λ c. Chain relations c m) (sym there) rest))

  pub Arc-edges : (id : String) → All (Arc relations id) (edges relations id)
  Arc-edges id = All-edges (Arc relations id) id relations (λ i r at mine. (i, r, at, mine, refl))

  pub mark_visiting-AreDepths :
      (id : String) (marks : Marks) → AreDepths marks → AreDepths (insert id visiting marks)
  mark_visiting-AreDepths id marks good k d h = elim (Bool-cases (id == k)) [
    | inl same ↦ absurd (ground (arith, lookup-insert id k visiting marks))
    | inr other ↦ good k d (ground (arith, lookup-insert id k visiting marks))
  ]

  -- The mark of a resource is the length of the longest chain from it.
  mark_visited-AreDepths :
      (id : String) (before after : Marks) (depth : ℕ)
      → WalkedChildren (insert id visiting before) after id (edges relations id) 0 depth
      → AreDepths (insert id (visited depth) after)
  mark_visited-AreDepths id before after depth w k d h = elim (Bool-cases (id == k)) [
    | inl same ↦
        let e : id ≡ k = (string_eq.beq_iff id k).0 same in
        let eq : depth ≡ d = ground (arith, lookup-insert id k (visited depth) after) in
        subst₂ IsDepth e eq (w.chain, edges-longest id after depth w.depths w.below)
    | inr other ↦ w.depths k d (ground (arith, lookup-insert id k (visited depth) after))
  ]

  pub walk_zero : (id : String) (marks : Marks) → walk relations 0 id marks ≡ err exhausted
  unfolding walk
  walk_zero id marks = refl

  pub walk_at :
      (fuel : ℕ) (id : String) (marks : Marks) (o : Option Mark)
      → lookup id marks ≡ o
      → walk relations (suc fuel) id marks ≡ elim o [
        | some visiting ↦ err cycle
        | some (visited depth) ↦ ok (depth, marks)
        | none ↦
            walk_children (walk relations fuel) (edges relations id) 0 (insert id visiting marks)
            >>= mark_visited relations id
      ]
  unfolding walk
  walk_at fuel id marks o e = rw (e, walk) refl

  pub walk-Walked :
      (fuel : ℕ) (id : String) (before : Marks) (depth : ℕ) (after : Marks)
      → AreDepths before
      → walk relations fuel id before ≡ ok (depth, after)
      → Walked before after id depth
  walk-Walked zero id before depth after good h = absurd (ground (arith, walk_zero id before))
  walk-Walked (suc fuel) id before depth after good h = elim (Option-cases (lookup id before)) [
    | inr (visiting, e) ↦ absurd (ground (arith, walk_at fuel id before (some visiting) e))
    | inr (visited d, e) ↦
        let same = sym (walk_at fuel id before (some (visited d)) e) ∙ h in
        subst (λ (r : ℕ × Marks). Walked before r.1 id r.0) (cc)
          (record { depths = good; extends = λ k mark at. at; keeps = λ k at. at; marked = e })
    | inl fresh ↦
        let ((least, middle), called, last) =
          >>=-eq-ok
            (walk_children (walk relations fuel) (edges relations id) 0 (insert id visiting before))
            (mark_visited relations id) (sym (walk_at fuel id before none fresh) ∙ h) in
        let w : WalkedChildren (insert id visiting before) middle id (edges relations id) 0 least =
          walk_children-Walked (walk relations fuel) (walk-Walked fuel) id (edges relations id) 0
            (insert id visiting before) least middle (Arc-edges id)
            (mark_visiting-AreDepths id before good) stop called in
        subst (λ (r : ℕ × Marks). Walked before r.1 id r.0) (cc)
          (record {
            depths = mark_visited-AreDepths id before middle least w;
            extends = insert-Extends id visiting (visited least) before middle fresh w.extends;
            keeps = insert_visited-KeepsVisiting id least before middle w.keeps;
            marked = lookup-insert_self id (visited least) middle;
          })
  ]
