-- ===== src/Store/Listing.antt =====
-- The loop of `List` in internal/jobs/jobs.go and internal/audit/audit.go, which differ in the tests
-- of their filters. `done i` says whether the context is done at the i-th reading inside the loop.
use pilothouse.Base.{
  ℕ, zero, suc, ◌≡◌, ◌≢◌, refl, Bool, false, Option, none, some, List, [], ◌∷◌, Map, string_eq, All,
  arith, Result, ok, err, ◌>>=◌, >>=-eq-ok, Bool-cases, inl, inr, if◌then◌else◌, take, keep_if,
}

pub data ListFault : Type 0 where
  stopped undecodable : ListFault

module _ {J : Type 0} where
  -- The loop of `List`; `room` is `limit - len(items)`.
  unfoldable pub list_entries :
      (ℕ → Bool) → (J → Bool) → ℕ → ℕ → Map ℕ (Option J) → Result ListFault (List J)
  list_entries done is_listed i room [] = ok []
  list_entries done is_listed i zero (e ∷ m) = ok []
  list_entries done is_listed i (suc room) ((k, none) ∷ m) =
      if done i then err stopped else err undecodable
  list_entries done is_listed i (suc room) ((k, some item) ∷ m) =
      let taken = list_entries done is_listed (suc i) room m >>= (λ rest. ok (item ∷ rest)) in
      let passed = list_entries done is_listed (suc i) (suc room) m in
      if done i then err stopped else if is_listed item then taken else passed

  -- The values among the entries.
  abbrev pub values : Map ℕ (Option J) → List J
  values [] = []
  values ((k, none) ∷ m) = values m
  values ((k, some item) ∷ m) = item ∷ values m

  pub list_entries-eq-ok :
      (done : ℕ → Bool) (is_listed : J → Bool) (i room : ℕ) (m : Map ℕ (Option J)) (items : List J)
      → list_entries done is_listed i room m ≡ ok items
      → items ≡ take room (keep_if is_listed (values m))
  unfolding list_entries
  list_entries-eq-ok done is_listed i zero [] items h = ground arith
  list_entries-eq-ok done is_listed i (suc room) [] items h = ground arith
  list_entries-eq-ok done is_listed i zero (e ∷ m) items h = ground arith
  list_entries-eq-ok done is_listed i (suc room) ((k, none) ∷ m) items h = absurd (ground arith)
  list_entries-eq-ok done is_listed i (suc room) ((k, some item) ∷ m) items h =
      elim (Bool-cases (done i)) [
        | inl stop ↦ absurd (ground arith)
        | inr going ↦ elim (Bool-cases (is_listed item)) [
          | inr passed ↦ rw passed (
              list_entries-eq-ok done is_listed (suc i) (suc room) m items
                (rw (going, passed) at h))
          | inl taken ↦
              let (rest, e, same) =
                >>=-eq-ok (list_entries done is_listed (suc i) room m) _ (rw (going, taken) at h) in
              rw taken (ground (arith, list_entries-eq-ok done is_listed (suc i) room m rest e))
        ]
      ]

  pub list_entries_total :
      (done : ℕ → Bool) (is_listed : J → Bool) (i room : ℕ) (m : Map ℕ (Option J))
      → ((j : ℕ) → done j ≡ false)
      → All (λ e. e.1 ≢ none) m
      → (items : List J) × (list_entries done is_listed i room m ≡ ok items)
  unfolding list_entries
  list_entries_total done is_listed i room [] going decoded = ([], refl)
  list_entries_total done is_listed i zero (e ∷ m) going decoded = ([], refl)
  list_entries_total done is_listed i (suc room) ((k, none) ∷ m) going decoded =
      absurd (decoded.0 refl)
  list_entries_total done is_listed i (suc room) ((k, some item) ∷ m) going decoded =
      elim (Bool-cases (is_listed item)) [
        | inr passed ↦
            let (items, e) =
              list_entries_total done is_listed (suc i) (suc room) m going decoded.1 in
            (items, rw (going i, passed) e)
        | inl taken ↦
            let (items, e) = list_entries_total done is_listed (suc i) room m going decoded.1 in
            (item ∷ items, rw (going i, taken, e))
      ]
