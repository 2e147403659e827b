-- ===== src/Store/Recovery.antt =====
-- The loop of `Open` in internal/jobs/jobs.go and internal/audit/audit.go over what a restart has
-- interrupted; the two differ in what is unfinished and in how it is finished.
use pilothouse.Base.{
  ℕ, ◌≡◌, ◌≢◌, ◌∙◌, ap, Bool, Option, none, some, [], ◌∷◌, Map, nat_eq, lookup, arith, Bool-cases,
  Option-cases, inl, inr, if◌then◌else◌,
}
use pilothouse.Store.{Bolt, IsAscending}
use pilothouse.Store.Entries.{lookup-put_entry, lookup_below}

module _ {J : Type 0} (unfinished : J → Bool) (finish : J → J) (bolt : Bolt J) where
  open bolt use {Bucket, entries}

  -- The loop over the cursor. The list is what the cursor gives, one after the other, while the loop
  -- puts: a parameter, since bbolt does not say what a cursor gives after a put. `none` is a value
  -- that does not decode.
  unfoldable pub recover_all : Map ℕ (Option J) → Bucket → Option Bucket
  recover_all [] b = some b
  recover_all ((k, none) ∷ m) b = none
  recover_all ((k, some v) ∷ m) b =
      recover_all m (if unfinished v then bolt.put k (some (finish v)) b else b)

  abbrev pub finished_now : J → J
  finished_now v = if unfinished v then finish v else v

  -- What the loop over `m` leaves under a key: `old` is what the bucket has there.
  abbrev after_recovery : Option (Option J) → Option (Option J) → Option (Option J)
  after_recovery none old = old
  after_recovery (some none) old = old
  after_recovery (some (some v)) old = if unfinished v then some (some (finish v)) else old

  recover_all-lookup :
      (j : ℕ) (m : Map ℕ (Option J)) (b b' : Bucket)
      → IsAscending m
      → recover_all m b ≡ some b'
      → lookup j (entries b') ≡ after_recovery (lookup j m) (lookup j (entries b))
  unfolding recover_all lookup
  recover_all-lookup j [] b b' a h =
      let same : b' ≡ b = ground arith in ap (λ c. lookup j (entries c)) same
  recover_all-lookup j ((k, none) ∷ m) b b' a h = absurd (ground arith)
  recover_all-lookup j ((k, some v) ∷ m) b b' a h =
      let put = bolt.put k (some (finish v)) b in
      let stored = ap (lookup j) (bolt.entries-put k (some (finish v)) b) in
      elim (Bool-cases (unfinished v)) [
        | inl open_still ↦ ground (
          arith,
          recover_all-lookup j m put b' a.1,
          stored,
          lookup_below k m a.0,
          lookup-put_entry k j (some (finish v)) (entries b),
        )
        | inr ended ↦ ground (arith, recover_all-lookup j m b b' a.1, lookup_below k m a.0)
      ]

  -- The loop has decoded every value.
  recover_all_decoded :
      (j : ℕ) (m : Map ℕ (Option J)) (b b' : Bucket)
      → recover_all m b ≡ some b'
      → lookup j m ≢ some none
  unfolding recover_all lookup
  recover_all_decoded j [] b b' h e = cc
  recover_all_decoded j ((k, none) ∷ m) b b' h e = ground arith
  recover_all_decoded j ((k, some v) ∷ m) b b' h e = recover_all_decoded j m _ b' h (ground arith)

  -- What is there after the loop was there before it, and is finished now where the cursor has met it.
  pub recovered_from :
      (id : ℕ) (visited : Map ℕ (Option J)) (b b' : Bucket) (v : Option J)
      → IsAscending visited
      → lookup id visited ≡ lookup id (entries b)
      → recover_all visited b ≡ some b'
      → lookup id (entries b') ≡ some v
      → (w : J) × (lookup id (entries b) ≡ some (some w)) × (v ≡ some (finished_now w))
  recovered_from id visited b b' v ascending met done found =
      let same = recover_all-lookup id visited b b' ascending done in
      elim (Option-cases (lookup id (entries b))) [
        | inl missing ↦ absurd (ground (arith, same))
        | inr (none, broken) ↦ absurd (recover_all_decoded id visited b b' done (met ∙ broken))
        | inr (some w, here) ↦ (w, here, ground (arith, same))
      ]
