-- ===== src/Store.antt =====
-- The bbolt database under the job store and the audit store, as an interface: the source only
-- calls it. A value is what `json.Unmarshal` makes of the stored bytes, `none` where it fails; so
-- `json.Unmarshal` after `json.Marshal` gives the value back. A key is the number of which the
-- source stores the 8 bytes in big-endian order, which a cursor visits in numerical order.
pub mod Trim
pub mod Entries
pub mod Recovery
pub mod Listing
use pilothouse.Base.{
  ℕ, ◌+◌, ◌<◌, ◌≡◌, Bool, true, false, Option, none, some, List, [], ◌∷◌, Map, nat_eq, lookup,
  erase, All, ltb, if◌then◌else◌, ◌==◌, Result, ok, err,
}

-- Where a cursor finds a key that is put.
unfoldable pub put_entry {ℓ} : {V : Type ℓ} → ℕ → V → Map ℕ V → Map ℕ V
put_entry k v [] = (k, v) ∷ []
put_entry k v ((j, w) ∷ m) =
    let rest = put_entry k v m in
    if j == k then (k, v) ∷ m else if ltb k j then (k, v) ∷ (j, w) ∷ m else (j, w) ∷ rest

abbrev pub IsAscending {ℓ} : {V : Type ℓ} → Map ℕ V → Type 0
IsAscending [] = Unit
IsAscending ((k, v) ∷ m) = All (λ e. k < e.0) m × IsAscending m

-- What the stores rely on of a bucket and its cursor.
pub record Bolt (J : Type 0) : Type 1 where
  pub Bucket : Type 0
  pub entries : Bucket → Map ℕ (Option J)
  pub sequence : Bucket → ℕ
  pub fetch : ℕ → Bucket → Option (Option J)
  pub put : ℕ → Option J → Bucket → Bucket
  pub delete : ℕ → Bucket → Bucket
  pub advance : Bucket → Bucket
  -- `Stats().KeyN`
  pub key_n : Bucket → ℕ
  pub entries-IsAscending : (b : Bucket) → IsAscending (entries b)
  pub fetch_lem : (k : ℕ) (b : Bucket) → fetch k b ≡ lookup k (entries b)
  pub entries-put :
      (k : ℕ) (v : Option J) (b : Bucket) → entries (put k v b) ≡ put_entry k v (entries b)
  pub entries-delete : (k : ℕ) (b : Bucket) → entries (delete k b) ≡ erase k (entries b)
  pub entries-advance : (b : Bucket) → entries (advance b) ≡ entries b
  pub sequence-advance : (b : Bucket) → sequence (advance b) ≡ sequence b + 1
  pub sequence-put : (k : ℕ) (v : Option J) (b : Bucket) → sequence (put k v b) ≡ sequence b
  pub sequence-delete : (k : ℕ) (b : Bucket) → sequence (delete k b) ≡ sequence b

-- What a transaction meets: the context is done before it, or inside it, and the commit fails.
pub record Weather : Type 0 where
  pub done_before : Bool
  pub done_inside : Bool
  pub commit_fails : Bool

abbrev pub fair : Weather
fair = record { done_before = false; done_inside = false; commit_fails = false }
