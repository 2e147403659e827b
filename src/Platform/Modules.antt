-- ===== src/Platform/Modules.antt =====
-- What the registry of modules holds after any registrations.
use pilothouse.Base.{
  ◌≡◌, refl, sym, ap, ◌∙◌, subst, String, true, false, not, ◌&&◌, ◌||◌, none, List, [], ◌∷◌, ◌++◌,
  map, string_eq, ◌==◌, All, All-implies, arith, ok, >>=-eq-ok, precedes_total, precedes_trans,
  contains, distinct, Bool-cases, Option-cases, inl, inr, ℤ, pos, negsuc,
}
use pilothouse.Platform.{
  Manifest, less, not_after, insert_module, sort_modules, conflict, register_module, register_all,
  new_registry,
}

less_trans : (a b c : ℤ) → less a b ≡ true → less b c ≡ true → less a c ≡ true
less_trans (pos a) (pos b) (pos c) h k = ground arith
less_trans (pos a) (pos b) (negsuc c) h k = ground arith
less_trans (pos a) (negsuc b) c h k = ground arith
less_trans (negsuc a) (pos b) (pos c) h k = refl
less_trans (negsuc a) (pos b) (negsuc c) h k = ground arith
less_trans (negsuc a) (negsuc b) (pos c) h k = refl
less_trans (negsuc a) (negsuc b) (negsuc c) h k = ground arith

less_asym : (a b : ℤ) → less a b ≡ true → less b a ≡ false
less_asym (pos a) (pos b) h = ground arith
less_asym (pos a) (negsuc b) h = ground arith
less_asym (negsuc a) (pos b) h = refl
less_asym (negsuc a) (negsuc b) h = ground arith

-- Not less in either direction is to be the same.
less_connected : (a b : ℤ) → less a b ≡ false → less b a ≡ false → a ≡ b
less_connected (pos a) (pos b) h k = ap pos (ground arith)
less_connected (pos a) (negsuc b) h k = ground arith
less_connected (negsuc a) (pos b) h k = ground arith
less_connected (negsuc a) (negsuc b) h k = ap negsuc (ground arith)

not_after_total : (a b : Manifest) → not_after a b ≡ false → not_after b a ≡ true
unfolding not_after
not_after_total a b h = ground (arith, less_asym a.order b.order, precedes_total a.name b.name)

not_after_trans :
    (a b c : Manifest) → not_after a b ≡ true → not_after b c ≡ true → not_after a c ≡ true
unfolding not_after
not_after_trans a b c h k = elim (Bool-cases (less a.order b.order)) [
  | inl ab ↦ elim (Bool-cases (less b.order c.order)) [
    | inl bc ↦ rw (less_trans a.order b.order c.order ab bc) refl
    | inr not_bc ↦
        let same : b.order ≡ c.order = less_connected b.order c.order not_bc (ground arith) in
        rw (ap (less a.order) (sym same) ∙ ab) refl
  ]
  | inr not_ab ↦
      let same : a.order ≡ b.order = less_connected a.order b.order not_ab (ground arith) in
      let left : less a.order c.order ≡ less b.order c.order = ap (λ o. less o c.order) same in
      let right : less c.order a.order ≡ less c.order b.order = ap (less c.order) same in
      ground (arith, left, right, precedes_trans a.name b.name c.name)
]

abbrev pub IsSorted : List Manifest → Type 0
IsSorted [] = Unit
IsSorted (a ∷ ms) = All (λ b. not_after a b ≡ true) ms × IsSorted ms

insert_module-All :
    (P : Manifest → Type 0) (a : Manifest) (ms : List Manifest)
    → P a
    → All P ms
    → All P (insert_module a ms)
unfolding insert_module
insert_module-All P a [] p h = (p, tt)
insert_module-All P a (b ∷ ms) p h = elim (Bool-cases (not_after a b)) [
  | inl before ↦ rw before (p, h)
  | inr after ↦ rw after (h.0, insert_module-All P a ms p h.1)
]

insert_module-IsSorted :
    (a : Manifest) (ms : List Manifest) → IsSorted ms → IsSorted (insert_module a ms)
unfolding insert_module
insert_module-IsSorted a [] h = (tt, tt)
insert_module-IsSorted a (b ∷ ms) h = elim (Bool-cases (not_after a b)) [
  | inl before ↦ rw before (
    (
      before,
      All-implies (λ c. not_after b c ≡ true) (λ c. not_after a c ≡ true) ms
          (λ c. not_after_trans a b c before) h.0,
    ),
    h,
  )
  | inr after ↦ rw after (
    insert_module-All (λ c. not_after b c ≡ true) a ms (not_after_total a b after) h.0,
    insert_module-IsSorted a ms h.1,
  )
]

sort_modules-IsSorted : (ms : List Manifest) → IsSorted (sort_modules ms)
unfolding sort_modules
sort_modules-IsSorted [] = tt
sort_modules-IsSorted (a ∷ ms) =
    insert_module-IsSorted a (sort_modules ms) (sort_modules-IsSorted ms)

sort_modules-All : (P : Manifest → Type 0) (ms : List Manifest) → All P ms → All P (sort_modules ms)
unfolding sort_modules
sort_modules-All P [] h = tt
sort_modules-All P (a ∷ ms) h =
    insert_module-All P a (sort_modules ms) h.0 (sort_modules-All P ms h.1)

-- The values of a field, whatever the order of the modules.
module _ (f : Manifest → String) where
  contains-insert_module :
      (x : String) (a : Manifest) (ms : List Manifest)
      → contains (map f (insert_module a ms)) x ≡ ((f a == x) || contains (map f ms) x)
  unfolding insert_module
  contains-insert_module x a [] = ground arith
  contains-insert_module x a (b ∷ ms) = ground (arith, contains-insert_module x a ms)

  contains-sort_modules :
      (x : String) (ms : List Manifest)
      → contains (map f (sort_modules ms)) x ≡ contains (map f ms) x
  unfolding sort_modules
  contains-sort_modules x [] = refl
  contains-sort_modules x (a ∷ ms) =
      contains-insert_module x a (sort_modules ms) ∙ ground (arith, contains-sort_modules x ms)

  distinct-insert_module :
      (a : Manifest) (ms : List Manifest)
      → distinct (map f (insert_module a ms))
        ≡ (not (contains (map f ms) (f a)) && distinct (map f ms))
  unfolding insert_module
  distinct-insert_module a [] = refl
  distinct-insert_module a (b ∷ ms) = elim (Bool-cases (not_after a b)) [
    | inl before ↦ rw before (ground arith)
    | inr after ↦ rw after (
        ground (
          arith,
          distinct-insert_module a ms,
          contains-insert_module (f b) a ms,
          string_eq.beq_iff (f a) (f b),
          string_eq.beq_iff (f b) (f a),
        ))
  ]

  distinct-sort_modules :
      (ms : List Manifest) → distinct (map f (sort_modules ms)) ≡ distinct (map f ms)
  unfolding sort_modules
  distinct-sort_modules [] = refl
  distinct-sort_modules (a ∷ ms) =
      distinct-insert_module a (sort_modules ms)
      ∙ ground (arith, contains-sort_modules (f a) ms, distinct-sort_modules ms)

  contains-snoc :
      (x : String) (ms : List Manifest) (a : Manifest)
      → contains (map f (ms ++ a ∷ [])) x ≡ (contains (map f ms) x || (f a == x))
  contains-snoc x [] a = ground arith
  contains-snoc x (b ∷ ms) a = ground (arith, contains-snoc x ms a)

  distinct-snoc :
      (ms : List Manifest) (a : Manifest)
      → contains (map f ms) (f a) ≡ false
      → distinct (map f ms) ≡ true
      → distinct (map f (ms ++ a ∷ [])) ≡ true
  distinct-snoc [] a c d = refl
  distinct-snoc (b ∷ ms) a c d = ground (
    arith,
    distinct-snoc ms a,
    contains-snoc (f b) ms a,
    string_eq.beq_iff (f a) (f b),
    string_eq.beq_iff (f b) (f a),
  )

conflict-none :
    (m : Manifest) (ms : List Manifest)
    → conflict m ms ≡ none
    → (contains (map (λ b. b.id) ms) m.id ≡ false)
      × (contains (map (λ b. b.path) ms) m.path ≡ false)
unfolding conflict
conflict-none m [] h = (refl, refl)
conflict-none m (b ∷ ms) h =
    (ground (arith, conflict-none m ms), ground (arith, conflict-none m ms))

-- The manifest names its module.
abbrev pub IsComplete : Manifest → Type 0
IsComplete m = ((m.id == "") ≡ false) × ((m.name == "") ≡ false) × ((m.path == "") ≡ false)

pub record IsSound (ms : List Manifest) : Type 0 where
  pub sorted : IsSorted ms
  pub distinct_ids : distinct (map (λ m. m.id) ms) ≡ true
  pub distinct_paths : distinct (map (λ m. m.path) ms) ≡ true
  pub complete : All IsComplete ms

-- A registration that succeeds.
register_module-eq-ok :
    (ms ms' : List Manifest) (m : Manifest)
    → register_module ms m ≡ ok ms'
    → IsComplete m × (conflict m ms ≡ none) × (ms' ≡ sort_modules (ms ++ m ∷ []))
unfolding register_module
register_module-eq-ok ms ms' m h = elim (Option-cases (conflict m ms)) [
  | inr (e, found) ↦ absurd (ground arith)
  | inl free ↦ ((ground arith, ground arith, ground arith), free, ground arith)
]

All-snoc :
    (P : Manifest → Type 0) (ms : List Manifest) (a : Manifest)
    → All P ms
    → P a
    → All P (ms ++ a ∷ [])
All-snoc P [] a h p = (p, tt)
All-snoc P (b ∷ ms) a h p = (h.0, All-snoc P ms a h.1 p)

distinct-registered :
    (f : Manifest → String) (ms : List Manifest) (m : Manifest)
    → contains (map f ms) (f m) ≡ false
    → distinct (map f ms) ≡ true
    → distinct (map f (sort_modules (ms ++ m ∷ []))) ≡ true
distinct-registered f ms m c d = distinct-sort_modules f (ms ++ m ∷ []) ∙ distinct-snoc f ms m c d

register_module-IsSound :
    (ms ms' : List Manifest) (m : Manifest)
    → register_module ms m ≡ ok ms'
    → IsSound ms
    → IsSound ms'
register_module-IsSound ms ms' m h s =
    let (complete, free, made) = register_module-eq-ok ms ms' m h in
    let (id, path) = conflict-none m ms free in
    subst IsSound (sym made) (record {
      sorted = sort_modules-IsSorted (ms ++ m ∷ []);
      distinct_ids = distinct-registered (λ m. m.id) ms m id s.distinct_ids;
      distinct_paths = distinct-registered (λ m. m.path) ms m path s.distinct_paths;
      complete =
          sort_modules-All IsComplete (ms ++ m ∷ []) (All-snoc IsComplete ms m s.complete complete);
    })

register_all-IsSound :
    (modules ms ms' : List Manifest) → IsSound ms → register_all ms modules ≡ ok ms' → IsSound ms'
unfolding register_all
register_all-IsSound [] ms ms' s h = subst IsSound (ground arith) s
register_all-IsSound (m ∷ modules) ms ms' s h =
    let (ms1, first, rest) = >>=-eq-ok (register_module ms m) _ h in
    register_all-IsSound modules ms1 ms' (register_module-IsSound ms ms1 m first s) rest

same_list : (ms ms' : List Manifest) → register_all ms [] ≡ ok ms' → ms ≡ ms'
unfolding register_all
same_list ms ms' h = ground arith

register_all_ids :
    (modules ms ms' : List Manifest) (x : String)
    → register_all ms modules ≡ ok ms'
    → contains (map (λ m. m.id) ms') x
      ≡ (contains (map (λ m. m.id) ms) x || contains (map (λ m. m.id) modules) x)
unfolding register_all
register_all_ids [] ms ms' x h =
    ground (arith, ap (λ ms. contains (map (λ m. m.id) ms) x) (same_list ms ms' h))
register_all_ids (m ∷ modules) ms ms' x h =
    let (ms1, first, rest) = >>=-eq-ok (register_module ms m) _ h in
    let (complete, free, made) = register_module-eq-ok ms ms1 m first in
    let now =
      ap (λ ms. contains (map (λ m. m.id) ms) x) made
      ∙ contains-sort_modules (λ m. m.id) x (ms ++ m ∷ [])
      ∙ contains-snoc (λ m. m.id) x ms m in
    register_all_ids modules ms1 ms' x rest ∙ ground (arith, now)

pub new_registry-IsSound :
    (modules ms : List Manifest)
    → new_registry modules ≡ ok ms
    → IsSound ms
      × ((x : String) → contains (map (λ m. m.id) ms) x ≡ contains (map (λ m. m.id) modules) x)
new_registry-IsSound modules ms h = (
  register_all-IsSound modules [] ms
      (record { sorted = tt; distinct_ids = refl; distinct_paths = refl; complete = tt }) h,
  λ x. register_all_ids modules [] ms x h,
)
