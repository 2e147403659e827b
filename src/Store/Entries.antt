-- ===== src/Store/Entries.antt =====
-- The entries of a bucket under a put and under the trimming pass.
use pilothouse.Base.{
  ℕ, zero, suc, ◌+◌, ◌<◌, ◌≤◌, ◌≡◌, refl, subst, Bool, Option, none, some, [], ◌∷◌, Map, nat_eq,
  lookup, All, if◌then◌else◌, ◌==◌, ltb, arith, Bool-cases, inl, inr, length,
}
use pilothouse.Store.{IsAscending, put_entry}
use pilothouse.Store.Trim.{drop_finished, cons?-eq-some}

module _ {ℓ} {V : Type ℓ} where
  pub lookup_below : (k : ℕ) (m : Map ℕ V) → All (λ e. k < e.0) m → lookup k m ≡ none
  unfolding lookup
  lookup_below k [] h = refl
  lookup_below k ((j, v) ∷ m) h = ground (arith, lookup_below k m h.1)

  pub lookup_above : (k n : ℕ) (m : Map ℕ V) → All (λ e. e.0 ≤ n) m → n < k → lookup k m ≡ none
  unfolding lookup
  lookup_above k n [] h lt = refl
  lookup_above k n ((j, v) ∷ m) h lt = ground (arith, lookup_above k n m h.1 lt)

  pub lookup-put_entry :
      (k j : ℕ) (v : V) (m : Map ℕ V)
      → lookup j (put_entry k v m) ≡ (if k == j then some v else lookup j m)
  unfolding lookup put_entry
  lookup-put_entry k j v [] = refl
  lookup-put_entry k j v ((i, w) ∷ m) = ground (arith, lookup-put_entry k j v m)

  pub put_entry-All {κ} :
      (P : ℕ × V → Type κ) (k : ℕ) (v : V) (m : Map ℕ V)
      → P (k, v)
      → All P m
      → All P (put_entry k v m)
  unfolding put_entry
  put_entry-All P k v [] p h = (p, tt)
  put_entry-All P k v ((j, w) ∷ m) p h = elim (Bool-cases (j == k)) [
    | inl same ↦ rw same (p, h.1)
    | inr other ↦ elim (Bool-cases (ltb k j)) [
      | inl before ↦ rw (other, before) (p, h)
      | inr after ↦ rw (other, after) (h.0, put_entry-All P k v m p h.1)
    ]
  ]

  -- A put makes at most one entry more, and none where the key is there.
  pub length-put_entry : (k : ℕ) (v : V) (m : Map ℕ V) → length (put_entry k v m) ≤ length m + 1
  unfolding put_entry
  length-put_entry k v [] = omega arith
  length-put_entry k v ((j, w) ∷ m) = ground (arith, length-put_entry k v m)

module _ {J : Type 0} (finished : J → Bool) where
  -- The pass invents nothing.
  pub drop_finished_sub :
      (n k : ℕ) (v : Option J) (m m' : Map ℕ (Option J))
      → IsAscending m
      → drop_finished finished n m ≡ some m'
      → lookup k m' ≡ some v
      → lookup k m ≡ some v
  unfolding drop_finished lookup
  drop_finished_sub zero k v m m' a h e = cc
  drop_finished_sub (suc n) k v [] m' a h e = cc
  drop_finished_sub (suc n) k v ((j, none) ∷ m) m' a h e = cc
  drop_finished_sub (suc n) k v ((j, some w) ∷ m) m' a h e = elim (Bool-cases (finished w)) [
    | inl old ↦
        let found = drop_finished_sub n k v m m' a.1 (ground arith) e in
        ground (arith, found, lookup_below j m a.0)
    | inr new ↦
        let (t, q, r) =
          cons?-eq-some finished (j, some w) (drop_finished finished (suc n) m) m' (ground arith) in
        ground (arith, r, drop_finished_sub (suc n) k v m t a.1 q)
  ]

  pub drop_finished-All {κ} :
      (P : ℕ × Option J → Type κ) (n : ℕ) (m m' : Map ℕ (Option J))
      → drop_finished finished n m ≡ some m'
      → All P m
      → All P m'
  unfolding drop_finished
  drop_finished-All P zero m m' h a = subst (All P) (cc) a
  drop_finished-All P (suc n) [] m' h a = subst (All P) {x = []} (cc) a
  drop_finished-All P (suc n) ((j, none) ∷ m) m' h a = absurd (ground arith)
  drop_finished-All P (suc n) ((j, some w) ∷ m) m' h a = elim (Bool-cases (finished w)) [
    | inl old ↦ drop_finished-All P n m m' (ground arith) a.1
    | inr new ↦
        let (t, q, r) =
          cons?-eq-some finished (j, some w) (drop_finished finished (suc n) m) m' (ground arith) in
        rw r (a.0, drop_finished-All P (suc n) m t q a.1)
  ]
