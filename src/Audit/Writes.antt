-- ===== src/Audit/Writes.antt =====
-- What a write of the audit store leaves in the bucket.
use pilothouse.Base.{
  ℕ, ◌+◌, ◌-◌, ◌≤◌, ◌≡◌, ◌≢◌, refl, sym, ap, ◌∙◌, subst, subst₂, String, true, false, ◌||◌, Option,
  none, some, [], Map, nat_eq, string_eq, lookup, arith, Result, ok, err, >>=-eq-ok, Bool-cases,
  Option-cases, inl, inr, ◌⊎◌, keep_if, length, eq_refl,
}
use pilothouse.Store.{Bolt, Weather, put_entry, IsAscending}
use pilothouse.Store.Trim.{
  trim, drop_finished, map_entries, trim-eq-drop_finished, drop_finished-lookup,
  drop_finished_bounded, is_finished,
}
use pilothouse.Store.Entries.{lookup-put_entry, drop_finished_sub}
use pilothouse.Audit.{
  AuditRecord, AuditError, AuditStore, Attempt, is_ended, is_final, trim_oldest, commit,
  store_record, begin_tx, begin, complete_value, complete, new_record, finish_record,
}

module _ (bolt : Bolt AuditRecord) where
  open bolt use {Bucket, entries, sequence}

  -- The pass of `trimOldest`, which kept at most `maxRecords` entries or only started ones.
  pub trim_oldest_pass :
      (max_records : ℕ) (b b' : Bucket)
      → trim_oldest bolt max_records b ≡ ok b'
      → drop_finished is_ended (length (entries b) - max_records) (entries b) ≡ some (entries b')
  unfolding trim_oldest
  trim_oldest_pass max_records b b' e =
      let n = length (entries b) - max_records in
      elim (Option-cases (trim is_ended bolt n b)) [
        | inl failed ↦ absurd (ground arith)
        | inr (c, done) ↦
            let same : c ≡ b' = ground arith in
            sym (trim-eq-drop_finished is_ended bolt n b)
            ∙ ap (map_entries is_ended bolt) done
            ∙ ap (λ x. some (entries x)) same
      ]

  -- A write of a record under a key of a bucket with the entries `m`.
  pub record Written (max_records : ℕ) (m : Map ℕ (Option AuditRecord)) (b' : Bucket) (key : ℕ)
      (r : AuditRecord) : Type 0 where
    -- The record itself is there, or trimmed where it is not a started one.
    pub own :
        (lookup key (entries b') ≡ some (some r))
        ⊎ ((is_ended r ≡ true) × (lookup key (entries b') ≡ none))
    pub others :
        (k : ℕ) (r' : AuditRecord)
        → key ≢ k
        → is_ended r' ≡ false
        → lookup k m ≡ some (some r')
        → lookup k (entries b') ≡ some (some r')
    pub bounded :
        (length (entries b') ≤ max_records) ⊎ (keep_if (is_finished is_ended) (entries b') ≡ [])

  own_kept :
      (n key : ℕ) (b b' : Bucket) (r : AuditRecord)
      → IsAscending (put_entry key (some r) (entries b))
      → drop_finished is_ended n (put_entry key (some r) (entries b)) ≡ some (entries b')
      → (lookup key (entries b') ≡ some (some r))
        ⊎ ((is_ended r ≡ true) × (lookup key (entries b') ≡ none))
  own_kept n key b b' r a pass =
      let there : lookup key (put_entry key (some r) (entries b)) ≡ some (some r) =
        rw (lookup-put_entry key key (some r) (entries b), eq_refl key) refl in
      elim (Bool-cases (is_ended r)) [
        | inr going ↦ inl (drop_finished-lookup is_ended n key r _ (entries b') pass there going)
        | inl ended ↦ elim (Option-cases (lookup key (entries b'))) [
          | inl gone ↦ inr (ended, gone)
          | inr (v, kept) ↦
              let before = drop_finished_sub is_ended n key v _ (entries b') a pass kept in
              let same : v ≡ some r = ground (arith, before, there) in inl (kept ∙ ap some same)
        ]
      ]

  store_record-Written :
      (max_records : ℕ) (b b' : Bucket) (key : ℕ) (r : AuditRecord)
      → store_record bolt max_records b r key ≡ ok b'
      → Written max_records (entries b) b' key r
  unfolding store_record
  store_record-Written max_records b b' key r h =
      let put = bolt.put key (some r) b in
      let n = length (entries put) - max_records in
      let same = bolt.entries-put key (some r) b in
      let pass0 = trim_oldest_pass max_records put b' h in
      let pass : drop_finished is_ended n (put_entry key (some r) (entries b)) ≡ some (entries b') =
        ap (drop_finished is_ended n) (sym same) ∙ pass0 in
      let a : IsAscending (put_entry key (some r) (entries b)) =
        subst IsAscending same (bolt.entries-IsAscending put) in
      record {
        own = own_kept n key b b' r a pass;
        others = λ k r' differ going found.
            drop_finished-lookup is_ended n k r' _ (entries b') pass
              (ground (arith, lookup-put_entry key k (some r) (entries b))) going;
        bounded = drop_finished_bounded is_ended max_records (entries put) (entries b') pass0;
      }

  commit-eq-ok :
      {A : Type 0} (weather : Weather) (s s' : AuditStore bolt) (r : Result AuditError (A × Bucket))
      (a : A)
      → commit bolt weather s r ≡ (s', ok a)
      → r ≡ ok (a, s'.bucket)
  commit-eq-ok weather s s' (err e) a h = absurd (ground arith)
  commit-eq-ok weather s s' (ok (c, b)) a h = elim (Bool-cases weather.commit_fails) [
    | inl fails ↦ absurd (ground arith)
    | inr good ↦ ground arith
  ]

  begin_tx_lem :
      (max_records : ℕ) (b b' : Bucket) (attempt : Attempt) (now : ℕ) (r : AuditRecord)
      → begin_tx bolt max_records b attempt now ≡ ok (r, b')
      → (r ≡ new_record attempt now (sequence b + 1)) × Written max_records (entries b) b' r.id r
  unfolding begin_tx
  begin_tx_lem max_records b b' attempt now r h =
      let new = new_record attempt now (sequence (bolt.advance b)) in
      let (b'', stored, h') =
        >>=-eq-ok (store_record bolt max_records (bolt.advance b) new new.id) _ h in
      let same : new ≡ r = ground arith in
      let same_bucket : b'' ≡ b' = ground arith in
      let w = store_record-Written max_records (bolt.advance b) b'' new.id new stored in
      (
        sym same ∙ ap (new_record attempt now) (bolt.sequence-advance b),
        subst (λ m. Written max_records m b' r.id r) (bolt.entries-advance b)
            (subst₂ (λ c x. Written max_records (entries (bolt.advance b)) c x.id x) same_bucket
              same w),
      )

  -- `Begin` gives a record the next number and the fields of the attempt, and stores it as started.
  -- It loses no other started record, and leaves at most `maxRecords` entries or only started ones.
  pub begin-Written :
      (weather : Weather) (s s' : AuditStore bolt) (attempt : Attempt) (now : ℕ) (r : AuditRecord)
      → begin bolt weather s attempt now ≡ (s', ok r)
      → (r ≡ new_record attempt now (sequence s.bucket + 1))
        × (lookup r.id (entries s'.bucket) ≡ some (some r))
        × Written s.max_records (entries s.bucket) s'.bucket r.id r
  unfolding begin new_record
  begin-Written weather s s' attempt now r h =
      elim (Bool-cases (weather.done_before || weather.done_inside)) [
        | inl done ↦ absurd (ground arith)
        | inr going ↦
            let tx =
              commit-eq-ok weather s s' (begin_tx bolt s.max_records s.bucket attempt now) r
                (rw going at h) in
            let (made, w) = begin_tx_lem s.max_records s.bucket s'.bucket attempt now r tx in
            let started : is_ended r ≡ false = ap is_ended made in
            (made, elim w.own [ inl there ↦ there | inr (ended, gone) ↦ absurd (ground arith) ], w)
      ]

  complete_value_lem :
      (max_records : ℕ) (b b' : Bucket) (id : ℕ) (outcome category : String) (now : ℕ)
      (o : Option (Option AuditRecord))
      → complete_value bolt max_records b id outcome category now o ≡ ok (tt, b')
      → (r : AuditRecord) × (o ≡ some (some r))
        × Written max_records (entries b) b' id (finish_record r now outcome category)
  unfolding complete_value
  complete_value_lem max_records b b' id outcome category now none h = absurd (ground arith)
  complete_value_lem max_records b b' id outcome category now (some none) h = absurd (ground arith)
  complete_value_lem max_records b b' id outcome category now (some (some r)) h =
      let new = finish_record r now outcome category in
      let (b'', stored, h') = >>=-eq-ok (store_record bolt max_records b new id) _ h in
      let same : b'' ≡ b' = ground arith in
      (
        r,
        refl,
        subst (λ c. Written max_records (entries b) c id new) same
            (store_record-Written max_records b b'' id new stored),
      )

  -- `Complete` succeeds only with a final outcome and only for a record that is stored. It leaves
  -- that record finished with the outcome and the duration, or trims it; it loses no other started
  -- record, and leaves at most `maxRecords` entries or only started ones.
  pub complete-Written :
      (weather : Weather) (s s' : AuditStore bolt) (id : ℕ) (outcome category : String) (now : ℕ)
      → complete bolt weather s id outcome category now ≡ (s', ok tt)
      → (r : AuditRecord) × (lookup id (entries s.bucket) ≡ some (some r))
        × (is_final outcome ≡ true)
        × Written s.max_records
            (entries s.bucket)
            s'.bucket
            id
            (finish_record r now outcome category)
  unfolding complete
  complete-Written weather s s' id outcome category now h = elim (Bool-cases weather.done_before) [
    | inl done ↦ absurd (ground arith)
    | inr before ↦ elim (Bool-cases (is_final outcome)) [
      | inr bad ↦ absurd (ground arith)
      | inl final ↦ elim (Bool-cases weather.done_inside) [
        | inl done ↦ absurd (ground arith)
        | inr inside ↦
            let value =
              complete_value bolt s.max_records s.bucket id outcome category now
                (bolt.fetch id s.bucket) in
            let tx = commit-eq-ok weather s s' value tt (rw (before, final, inside) at h) in
            let (r, found, w) =
              complete_value_lem s.max_records s.bucket s'.bucket id outcome category now _ tx in
            (r, sym (bolt.fetch_lem id s.bucket) ∙ found, final, w)
      ]
    ]
  ]
