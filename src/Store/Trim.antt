-- ===== src/Store/Trim.antt =====
-- The loop of `trimOldest`, which internal/jobs/jobs.go and internal/audit/audit.go share but for
-- their tests, and what it comes to: one pass that drops the oldest finished entries.
use pilothouse.Base.{
  ℕ, zero, suc, ◌+◌, ◌-◌, ◌<◌, ◌≤◌, ◌≡◌, refl, sym, ap, ◌∙◌, Bool, false, not, Option, none, some,
  [], ◌∷◌, Map, nat_eq, lookup, erase, All, if◌then◌else◌, arith, keep_if, length, drop, Bool-cases,
  inl, inr, ◌⊎◌, length-drop, eq-nil_of_length, dec_le,
}
use pilothouse.Store.{IsAscending, Bolt}

-- What the scan for a removable entry finds. `broken` is a value that does not decode.
pub data Found : Type 0 where
  broken : Found
  nothing : Found
  removable : ℕ → Found

module _ {J : Type 0} (finished : J → Bool) where
  unfoldable pub oldest_finished : Map ℕ (Option J) → Found
  oldest_finished [] = nothing
  oldest_finished ((k, none) ∷ m) = broken
  oldest_finished ((k, some v) ∷ m) = if finished v then removable k else oldest_finished m

  -- `for count > maxRecords`, on the rounds that are left; `none` is the decoding error.
  trim_round :
      (bolt : Bolt J)
      → (bolt.Bucket → Option bolt.Bucket)
      → bolt.Bucket
      → Found
      → Option bolt.Bucket
  trim_round bolt next b broken = none
  trim_round bolt next b nothing = some b
  trim_round bolt next b (removable k) = next (bolt.delete k b)

  unfoldable pub trim : (bolt : Bolt J) → ℕ → bolt.Bucket → Option bolt.Bucket
  unfolding trim_round
  trim bolt zero b = some b
  trim bolt (suc n) b = trim_round bolt (trim bolt n) b (oldest_finished (bolt.entries b))

  abbrev pub cons? : ℕ × Option J → Option (Map ℕ (Option J)) → Option (Map ℕ (Option J))
  cons? e none = none
  cons? e (some m) = some (e ∷ m)

  -- The specification: drop the first `n` finished entries.
  unfoldable pub drop_finished : ℕ → Map ℕ (Option J) → Option (Map ℕ (Option J))
  drop_finished zero m = some m
  drop_finished (suc n) [] = some []
  drop_finished (suc n) ((k, none) ∷ m) = none
  drop_finished (suc n) ((k, some v) ∷ m) =
      let less = drop_finished n m in
      let more = cons? (k, some v) (drop_finished (suc n) m) in if finished v then less else more

  abbrev pub map_entries : (bolt : Bolt J) → Option bolt.Bucket → Option (Map ℕ (Option J))
  map_entries bolt none = none
  map_entries bolt (some b) = some (bolt.entries b)

  abbrev spec_round : ℕ → Map ℕ (Option J) → Found → Option (Map ℕ (Option J))
  spec_round n m broken = none
  spec_round n m nothing = some m
  spec_round n m (removable k) = drop_finished n (erase k m)

  erase_below : (k : ℕ) (m : Map ℕ (Option J)) → All (λ e. k < e.0) m → erase k m ≡ m
  unfolding erase
  erase_below k [] h = refl
  erase_below k ((j, v) ∷ m) h = ground (arith, erase_below k m h.1)

  erase_head :
      (k : ℕ) (v : Option J) (m : Map ℕ (Option J))
      → All (λ e. k < e.0) m
      → erase k ((k, v) ∷ m) ≡ m
  unfolding erase
  erase_head k v m h = ground (arith, erase_below k m h)

  oldest_finished_above :
      (j k : ℕ) (m : Map ℕ (Option J))
      → All (λ e. j < e.0) m
      → oldest_finished m ≡ removable k
      → j < k
  unfolding oldest_finished
  oldest_finished_above j k [] h e = cc
  oldest_finished_above j k ((i, none) ∷ m) h e = cc
  oldest_finished_above j k ((i, some v) ∷ m) h e = ground (arith, oldest_finished_above j k m h.1)

  -- An entry that is not finished stands aside.
  drop_finished_kept :
      (n k : ℕ) (v : J) (m : Map ℕ (Option J))
      → finished v ≡ false
      → drop_finished n ((k, some v) ∷ m) ≡ cons? (k, some v) (drop_finished n m)
  unfolding drop_finished
  drop_finished_kept zero k v m h = refl
  drop_finished_kept (suc n) k v m h = rw h

  spec_round_kept :
      (n k : ℕ) (v : J) (m : Map ℕ (Option J)) (f : Found)
      → finished v ≡ false
      → All (λ e. k < e.0) m
      → oldest_finished m ≡ f
      → cons? (k, some v) (spec_round n m f) ≡ spec_round n ((k, some v) ∷ m) f
  unfolding erase
  spec_round_kept n k v m broken u h e = refl
  spec_round_kept n k v m nothing u h e = refl
  spec_round_kept n k v m (removable j) u h e =
      ground (arith, oldest_finished_above k j m h e, drop_finished_kept n k v (erase j m) u)

  drop_finished_round :
      (n : ℕ) (m : Map ℕ (Option J))
      → IsAscending m
      → drop_finished (suc n) m ≡ spec_round n m (oldest_finished m)
  unfolding drop_finished oldest_finished
  drop_finished_round n [] h = refl
  drop_finished_round n ((k, none) ∷ m) h = refl
  drop_finished_round n ((k, some v) ∷ m) h = elim (Bool-cases (finished v)) [
    | inl old ↦ rw old (ap (drop_finished n) (sym (erase_head k (some v) m h.0)))
    | inr new ↦
        rw (new, drop_finished_round n m h.1)
          (spec_round_kept n k v m (oldest_finished m) new h.0 refl)
  ]

  map_entries_round :
      (bolt : Bolt J) (n : ℕ) (b : bolt.Bucket) (f : Found)
      → ((c : bolt.Bucket) → map_entries bolt (trim bolt n c) ≡ drop_finished n (bolt.entries c))
      → map_entries bolt (trim_round bolt (trim bolt n) b f) ≡ spec_round n (bolt.entries b) f
  unfolding trim_round
  map_entries_round bolt n b broken ih = refl
  map_entries_round bolt n b nothing ih = refl
  map_entries_round bolt n b (removable k) ih =
      ih (bolt.delete k b) ∙ ap (drop_finished n) (bolt.entries-delete k b)

  -- The loop, which scans from the first key after each deletion, is the one pass.
  pub trim-eq-drop_finished :
      (bolt : Bolt J) (n : ℕ) (b : bolt.Bucket)
      → map_entries bolt (trim bolt n b) ≡ drop_finished n (bolt.entries b)
  unfolding trim drop_finished
  trim-eq-drop_finished bolt zero b = refl
  trim-eq-drop_finished bolt (suc n) b =
      map_entries_round bolt n b (oldest_finished (bolt.entries b)) (trim-eq-drop_finished bolt n)
      ∙ sym (drop_finished_round n (bolt.entries b) (bolt.entries-IsAscending b))

  -- The tests on entries.
  abbrev pub is_finished : ℕ × Option J → Bool
  is_finished (k, none) = false
  is_finished (k, some v) = finished v

  abbrev pub is_active : ℕ × Option J → Bool
  is_active e = not (is_finished e)

  pub cons?-eq-some :
      (e : ℕ × Option J) (o : Option (Map ℕ (Option J))) (m : Map ℕ (Option J))
      → cons? e o ≡ some m
      → (t : Map ℕ (Option J)) × (o ≡ some t) × (m ≡ e ∷ t)
  cons?-eq-some e none m h = cc
  cons?-eq-some e (some t) m h = (t, refl, ground arith)

  -- The pass keeps what is not finished, in order.
  pub drop_finished_active :
      (n : ℕ) (m m' : Map ℕ (Option J))
      → drop_finished n m ≡ some m'
      → keep_if is_active m' ≡ keep_if is_active m
  unfolding drop_finished
  drop_finished_active zero m m' h = cc
  drop_finished_active (suc n) [] m' h = cc
  drop_finished_active (suc n) ((k, none) ∷ m) m' h = cc
  drop_finished_active (suc n) ((k, some v) ∷ m) m' h = elim (Bool-cases (finished v)) [
    | inl old ↦ ground (arith, drop_finished_active n m m')
    | inr new ↦
        let (t, e, q) = cons?-eq-some (k, some v) (drop_finished (suc n) m) m' (ground arith) in
        rw q (ground (arith, drop_finished_active (suc n) m t e))
  ]

  -- Of what is finished the pass drops the oldest `n`.
  pub drop_finished_rest :
      (n : ℕ) (m m' : Map ℕ (Option J))
      → drop_finished n m ≡ some m'
      → keep_if is_finished m' ≡ drop n (keep_if is_finished m)
  unfolding drop_finished
  drop_finished_rest zero m m' h = cc
  drop_finished_rest (suc n) [] m' h = ground arith
  drop_finished_rest (suc n) ((k, none) ∷ m) m' h = cc
  drop_finished_rest (suc n) ((k, some v) ∷ m) m' h = elim (Bool-cases (finished v)) [
    | inl old ↦ ground (arith, drop_finished_rest n m m')
    | inr new ↦
        let (t, e, q) = cons?-eq-some (k, some v) (drop_finished (suc n) m) m' (ground arith) in
        rw q (ground (arith, drop_finished_rest (suc n) m t e))
  ]

  -- Together they are all the entries.
  pub length_active :
      (m : Map ℕ (Option J))
      → length (keep_if is_active m) + length (keep_if is_finished m) ≡ length m
  length_active [] = omega arith
  length_active (e ∷ m) = ground (arith, length_active m)

  -- After a pass over the excess at most `limit` entries are left, or none that is finished.
  pub drop_finished_bounded :
      (limit : ℕ) (m m' : Map ℕ (Option J))
      → drop_finished (length m - limit) m ≡ some m'
      → (length m' ≤ limit) ⊎ (keep_if is_finished m' ≡ [])
  drop_finished_bounded limit m m' h =
      let n = length m - limit in
      let rest = drop_finished_rest n m m' h in
      let same = ap length (drop_finished_active n m m' h) in
      let fewer = ap length rest ∙ length-drop n (keep_if is_finished m) in
      elim (dec_le n (length (keep_if is_finished m))) [
        | yes enough ↦ inl (omega (arith, same, fewer, length_active m, length_active m'))
        | no short ↦ inr (eq-nil_of_length _ (omega (arith, fewer)))
      ]

  -- The counter of the bucket is left alone.
  sequence-trim_round :
      (bolt : Bolt J) (next : bolt.Bucket → Option bolt.Bucket) (b b' : bolt.Bucket) (f : Found)
      → ((c : bolt.Bucket) → next c ≡ some b' → bolt.sequence b' ≡ bolt.sequence c)
      → trim_round bolt next b f ≡ some b'
      → bolt.sequence b' ≡ bolt.sequence b
  unfolding trim_round
  sequence-trim_round bolt next b b' broken ih h = absurd (ground arith)
  sequence-trim_round bolt next b b' nothing ih h = ap bolt.sequence (ground arith)
  sequence-trim_round bolt next b b' (removable k) ih h =
      ih (bolt.delete k b) h ∙ bolt.sequence-delete k b

  pub sequence-trim :
      (bolt : Bolt J) (n : ℕ) (b b' : bolt.Bucket)
      → trim bolt n b ≡ some b'
      → bolt.sequence b' ≡ bolt.sequence b
  unfolding trim
  sequence-trim bolt zero b b' h = ap bolt.sequence (ground arith)
  sequence-trim bolt (suc n) b b' h =
      sequence-trim_round bolt (trim bolt n) b b' (oldest_finished (bolt.entries b))
        (λ c. sequence-trim bolt n c b') h

  pub drop_finished-lookup :
      (n k : ℕ) (v : J) (m m' : Map ℕ (Option J))
      → drop_finished n m ≡ some m'
      → lookup k m ≡ some (some v)
      → finished v ≡ false
      → lookup k m' ≡ some (some v)
  unfolding drop_finished lookup
  drop_finished-lookup zero k v m m' h e u = cc
  drop_finished-lookup (suc n) k v [] m' h e u = cc
  drop_finished-lookup (suc n) k v ((j, none) ∷ m) m' h e u = cc
  drop_finished-lookup (suc n) k v ((j, some w) ∷ m) m' h e u = elim (Bool-cases (finished w)) [
    | inl old ↦ ground (arith, drop_finished-lookup n k v m m')
    | inr new ↦
        let (t, q, r) = cons?-eq-some (j, some w) (drop_finished (suc n) m) m' (ground arith) in
        rw r (ground (arith, drop_finished-lookup (suc n) k v m t q))
  ]
