-- ===== src/Storage/Graph/Chains.antt =====
-- Chains of relations, and the edges that the search reads.
use pilothouse.Base.{
  ℕ, zero, suc, ◌≤◌, ◌≡◌, refl, String, some, List, [], ◌∷◌, string_eq, ◌==◌, get_elem?, All, arith,
  inl, inr, Bool-cases, subst, true, ap, ◌∙◌,
}
use pilothouse.Storage.Model.{Relation}
use pilothouse.Storage.Graph.{edges}

-- A relation from one resource to another.
abbrev pub Arc : List Relation → String → String → Type 0
Arc relations a b =
    (i : ℕ) × (r : Relation) × (get_elem? relations i ≡ some r) × (r.origin ≡ a) × (r.target ≡ b)

-- A chain of so many relations, from a resource on.
pub data Chain (relations : List Relation) : String → ℕ → Type 0 where
  stop : {a : String} → Chain relations a 0
  step :
      {a b : String} {n : ℕ} → Arc relations a b → Chain relations b n → Chain relations a (suc n)

-- A way of one relation or more.
pub data Leads (relations : List Relation) (a : String) : String → Type 0 where
  direct : {b : String} → Arc relations a b → Leads relations a b
  onward : {b c : String} → Leads relations a b → Arc relations b c → Leads relations a c

module _ {relations : List Relation} where
  pub Chain-prefix :
      {a : String} {n : ℕ} (m : ℕ) → m ≤ n → Chain relations a n → Chain relations a m
  Chain-prefix zero h c = stop
  Chain-prefix (suc m) h stop = absurd (omega arith)
  Chain-prefix (suc m) h (step arc c) = step arc (Chain-prefix m (omega arith) c)

  Chain-behind :
      {a b : String} {n : ℕ} → Leads relations a b → Chain relations b n → Chain relations a (suc n)
  Chain-behind (direct arc) c = step arc c
  Chain-behind {n} (onward leads arc) c =
      Chain-prefix (suc n) (omega arith) (Chain-behind leads (step arc c))

  -- From a resource on a cycle there are chains of every length.
  pub Chain-round : {a : String} → Leads relations a a → (n : ℕ) → Chain relations a n
  Chain-round leads zero = stop
  Chain-round leads (suc n) = Chain-behind leads (Chain-round leads n)

module _ {κ} (P : String → Type κ) (id : String) where
  pub All-edges :
      (relations : List Relation)
      → ((i : ℕ) (r : Relation) → get_elem? relations i ≡ some r → r.origin ≡ id → P r.target)
      → All P (edges relations id)
  All-edges [] f = tt
  All-edges (r ∷ relations) f = elim (Bool-cases (r.origin == id)) [
    | inl mine ↦
        rw mine (
          f 0 r refl ((string_eq.beq_iff r.origin id).0 mine),
          All-edges relations (λ i. f (suc i)),
        )
    | inr other ↦ rw other (All-edges relations (λ i. f (suc i)))
  ]

  pub edges-All :
      (relations : List Relation) (i : ℕ) (r : Relation)
      → All P (edges relations id)
      → get_elem? relations i ≡ some r
      → r.origin ≡ id
      → P r.target
  edges-All [] i r all at mine = cc
  edges-All (x ∷ relations) zero r all at mine =
      let same : x ≡ r = cc in
      let here : (x.origin == id) ≡ true =
        (string_eq.beq_iff x.origin id).1 (ap (λ y. y.origin) same ∙ mine) in
      subst (λ y. P y.target) same (rw here at all).0
  edges-All (x ∷ relations) (suc i) r all at mine = elim (Bool-cases (x.origin == id)) [
    | inl same ↦ edges-All relations i r (rw same at all).1 at mine
    | inr other ↦ edges-All relations i r (rw other at all) at mine
  ]
