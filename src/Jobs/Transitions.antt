-- ===== src/Jobs/Transitions.antt =====
-- What each write of the job store does to the entries of the bucket.
use pilothouse.Base.{
  ℕ, ◌+◌, ◌-◌, ◌≡◌, refl, sym, ap, ◌∙◌, Option, none, some, nat_eq, string_eq, lookup, arith,
  Result, ok, err, >>=-eq-ok, Bool-cases, Option-cases, inl, inr,
}
use pilothouse.Store.{Bolt, Weather, put_entry, IsAscending}
use pilothouse.Store.Trim.{trim, drop_finished, map_entries, trim-eq-drop_finished, sequence-trim}
use pilothouse.Jobs.{
  Job, JobError, Attempt, Store, is_finished_job, trim_oldest, commit, enqueue, update, new_job,
  update_value, enqueue_tx,
}

module _ (bolt : Bolt Job) where
  open bolt use {Bucket, entries, sequence, key_n}

  -- How a successful trim leaves the entries.
  pub trim_oldest-eq-ok :
      (max_records : ℕ) (b b' : Bucket)
      → trim_oldest bolt max_records b ≡ ok b'
      → drop_finished is_finished_job (key_n b - max_records) (entries b) ≡ some (entries b')
  unfolding trim_oldest
  trim_oldest-eq-ok max_records b b' e =
      let n = key_n b - max_records in
      elim (Option-cases (trim is_finished_job bolt n b)) [
        | inl failed ↦ absurd (ground arith)
        | inr (c, done) ↦
            let same : c ≡ b' = ground arith in
            sym (trim-eq-drop_finished is_finished_job bolt n b)
            ∙ ap (map_entries is_finished_job bolt) done
            ∙ ap (λ x. some (entries x)) same
      ]

  pub sequence-trim_oldest :
      (max_records : ℕ) (b b' : Bucket)
      → trim_oldest bolt max_records b ≡ ok b'
      → sequence b' ≡ sequence b
  unfolding trim_oldest
  sequence-trim_oldest max_records b b' e =
      let n = key_n b - max_records in
      elim (Option-cases (trim is_finished_job bolt n b)) [
        | inl failed ↦ absurd (ground arith)
        | inr (c, done) ↦
            let same : c ≡ b' = ground arith in
            sequence-trim is_finished_job bolt n b b' (rw same at done)
      ]

  pub commit-eq-ok :
      {A : Type 0} (weather : Weather) (s s' : Store bolt) (r : Result JobError (A × Bucket))
      (a : A)
      → commit bolt weather s r ≡ (s', ok a)
      → (r ≡ ok (a, s'.bucket)) × (s'.max_records ≡ s.max_records)
  unfolding commit
  commit-eq-ok weather s s' (err e) a h = absurd (ground arith)
  commit-eq-ok weather s s' (ok (c, b)) a h = elim (Bool-cases weather.commit_fails) [
    | inl fails ↦ absurd (ground arith)
    | inr good ↦ (ground arith, ground arith)
  ]

  update_value-eq-ok :
      (max_records : ℕ) (b b' : Bucket) (id : ℕ) (change : Job → Result JobError Job)
      (o : Option (Option Job))
      → update_value bolt max_records b id change o ≡ ok (tt, b')
      → (before : Job) × (after : Job) × (o ≡ some (some before))
        × (change before ≡ ok after)
        × (trim_oldest bolt max_records (bolt.put id (some after) b) ≡ ok b')
  unfolding update_value
  update_value-eq-ok max_records b b' id change none h = absurd (ground arith)
  update_value-eq-ok max_records b b' id change (some none) h = absurd (ground arith)
  update_value-eq-ok max_records b b' id change (some (some job)) h =
      let (after, changed, h') = >>=-eq-ok (change job) _ h in
      let (b'', trimmed, h'') =
        >>=-eq-ok (trim_oldest bolt max_records (bolt.put id (some after) b)) _ h' in
      let same : b'' ≡ b' = ground arith in (job, after, refl, changed, rw same at trimmed)

  -- What a successful `update` has done.
  pub record Updated (s s' : Store bolt) (id : ℕ) (change : Job → Result JobError Job)
      : Type 0 where
    pub before : Job
    pub after : Job
    pub found : lookup id (entries s.bucket) ≡ some (some before)
    pub changed : change before ≡ ok after
    pub excess : ℕ
    pub trimmed :
        drop_finished is_finished_job excess (put_entry id (some after) (entries s.bucket))
        ≡ some (entries s'.bucket)
    pub ascending : IsAscending (put_entry id (some after) (entries s.bucket))
    pub same_sequence : sequence s'.bucket ≡ sequence s.bucket

  pub update-Updated :
      (weather : Weather) (s s' : Store bolt) (id : ℕ) (change : Job → Result JobError Job)
      → update bolt weather s id change ≡ (s', ok tt)
      → Updated s s' id change
  unfolding update
  update-Updated weather s s' id change h = elim (Bool-cases weather.done_inside) [
    | inl done ↦ absurd (ground arith)
    | inr going ↦
        let r = update_value bolt s.max_records s.bucket id change (bolt.fetch id s.bucket) in
        let (done, kept) = commit-eq-ok weather s s' r tt (rw going at h) in
        let (before, after, found, changed, trimmed) =
          update_value-eq-ok s.max_records s.bucket s'.bucket id change _ done in
        record {
          before = before;
          after = after;
          found = sym (bolt.fetch_lem id s.bucket) ∙ found;
          changed = changed;
          excess = key_n (bolt.put id (some after) s.bucket) - s.max_records;
          trimmed =
              rw (bolt.entries-put id (some after) s.bucket) at
                (trim_oldest-eq-ok s.max_records _ s'.bucket trimmed);
          ascending =
              rw (bolt.entries-put id (some after) s.bucket) at
                (bolt.entries-IsAscending (bolt.put id (some after) s.bucket));
          same_sequence =
              sequence-trim_oldest s.max_records _ s'.bucket trimmed
              ∙ bolt.sequence-put id (some after) s.bucket;
        }
  ]

  enqueue_tx-eq-ok :
      (max_records : ℕ) (b b' : Bucket) (attempt : Attempt) (now : ℕ) (job : Job)
      → enqueue_tx bolt max_records b attempt now ≡ ok (job, b')
      → (job ≡ new_job attempt now (sequence b + 1))
        × (trim_oldest bolt max_records (bolt.put job.id (some job) (bolt.advance b)) ≡ ok b')
  unfolding enqueue_tx
  enqueue_tx-eq-ok max_records b b' attempt now job h =
      let new = new_job attempt now (sequence (bolt.advance b)) in
      let (b'', trimmed, h') =
        >>=-eq-ok (trim_oldest bolt max_records (bolt.put new.id (some new) (bolt.advance b))) _
          h in
      let same : new ≡ job = ground arith in
      let same_bucket : b'' ≡ b' = ground arith in
      (
        sym same ∙ ap (new_job attempt now) (bolt.sequence-advance b),
        rw (same, same_bucket) at trimmed,
      )

  -- What a successful `enqueue` has done.
  pub record Enqueued (s s' : Store bolt) (attempt : Attempt) (now : ℕ) (job : Job) : Type 0 where
    pub made : job ≡ new_job attempt now (sequence s.bucket + 1)
    pub excess : ℕ
    pub count : excess ≡ key_n (bolt.put job.id (some job) (bolt.advance s.bucket)) - s.max_records
    pub trimmed :
        drop_finished is_finished_job excess (put_entry job.id (some job) (entries s.bucket))
        ≡ some (entries s'.bucket)
    pub next_sequence : sequence s'.bucket ≡ sequence s.bucket + 1

  pub enqueue-Enqueued :
      (weather : Weather) (s s' : Store bolt) (attempt : Attempt) (now : ℕ) (job : Job)
      → enqueue bolt weather s attempt now ≡ (s', ok job)
      → Enqueued s s' attempt now job
  unfolding enqueue
  enqueue-Enqueued weather s s' attempt now job h = elim (Bool-cases weather.done_before) [
    | inl done ↦ absurd (ground arith)
    | inr going ↦ elim (Bool-cases weather.done_inside) [
      | inl done ↦ absurd (ground arith)
      | inr inside ↦
          let tx = enqueue_tx bolt s.max_records s.bucket attempt now in
          let (done, kept) = commit-eq-ok weather s s' tx job (rw (going, inside) at h) in
          let (made, trimmed) =
            enqueue_tx-eq-ok s.max_records s.bucket s'.bucket attempt now job done in
          record {
            made = made;
            excess = key_n (bolt.put job.id (some job) (bolt.advance s.bucket)) - s.max_records;
            count = refl;
            trimmed =
                rw
                  (
                    bolt.entries-put job.id (some job) (bolt.advance s.bucket),
                    bolt.entries-advance s.bucket,
                  )
                  at (trim_oldest-eq-ok s.max_records _ s'.bucket trimmed);
            next_sequence =
                sequence-trim_oldest s.max_records _ s'.bucket trimmed
                ∙ bolt.sequence-put job.id (some job) (bolt.advance s.bucket)
                ∙ bolt.sequence-advance s.bucket;
          }
    ]
  ]

  commit_failed_same :
      {A : Type 0} (weather : Weather) (s : Store bolt) (r : Result JobError (A × Bucket))
      (e : JobError)
      → (commit bolt weather s r).1 ≡ err e
      → (commit bolt weather s r).0 ≡ s
  unfolding commit
  commit_failed_same weather s (err e') e h = refl
  commit_failed_same weather s (ok (a, b)) e h = ground arith

  pub update_failed :
      (weather : Weather) (s : Store bolt) (id : ℕ) (change : Job → Result JobError Job)
      (e : JobError)
      → (update bolt weather s id change).1 ≡ err e
      → (update bolt weather s id change).0 ≡ s
  unfolding update
  update_failed weather s id change e h = elim (Bool-cases weather.done_inside) [
    | inl done ↦ rw done
    | inr going ↦ rw going (
        commit_failed_same weather s
          (update_value bolt s.max_records s.bucket id change (bolt.fetch id s.bucket)) e
          (rw going at h))
  ]
