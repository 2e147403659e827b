-- ===== src/Jobs/Lifecycle.antt =====
-- The life of a job: queued, running, finished; and what other jobs see of it.
use pilothouse.Base.{
  ℕ, ◌+◌, ◌-◌, ◌≤◌, ◌≡◌, ◌≢◌, refl, ap, ◌∙◌, String, Bool, true, none, some, [], nat_eq, string_eq,
  lookup, All, arith, Result, ok, Option-cases, inl, inr, ◌⊎◌, keep_if, length, eq_refl,
  All-implies,
}
use pilothouse.Store.{Bolt, Weather, put_entry}
use pilothouse.Store.Trim.{drop_finished-lookup, drop_finished_bounded, is_finished}
use pilothouse.Store.Entries.{
  lookup-put_entry, put_entry-All, lookup_above, drop_finished_sub, drop_finished-All,
}
use pilothouse.Jobs.{
  Job, JobError, Attempt, Store, is_finished_job, active_status, final_status, status_queued,
  status_running, enqueue, start, complete, start_change, complete_change, finish_job, new_job,
}
use pilothouse.Jobs.Transitions.{Updated, update-Updated, enqueue-Enqueued}

module _ (bolt : Bolt Job) where
  open bolt use {Bucket, entries, sequence, key_n}

  -- An active job that a write has put stays, and so does every other active job.
  Updated-kept :
      (s s' : Store bolt) (id : ℕ) (change : Job → Result JobError Job)
      (u : Updated bolt s s' id change)
      → active_status (u.after).status ≡ true
      → lookup id (entries s'.bucket) ≡ some (some u.after)
  Updated-kept s s' id change u active =
      drop_finished-lookup is_finished_job u.excess id u.after _ _ u.trimmed
        (rw (lookup-put_entry id id (some u.after) (entries s.bucket), eq_refl id) refl)
        (ground arith)

  pub Updated-others :
      (s s' : Store bolt) (id k : ℕ) (change : Job → Result JobError Job)
      (u : Updated bolt s s' id change) (job : Job)
      → id ≢ k
      → active_status job.status ≡ true
      → lookup k (entries s.bucket) ≡ some (some job)
      → lookup k (entries s'.bucket) ≡ some (some job)
  Updated-others s s' id k change u job differ active found =
      drop_finished-lookup is_finished_job u.excess k job _ _ u.trimmed
        (ground (arith, lookup-put_entry id k (some u.after) (entries s.bucket))) (ground arith)

  -- `Start` succeeds only on a queued job, which it leaves running, started at the clock's reading
  -- and otherwise as it was.
  pub start_lem :
      (weather : Weather) (s s' : Store bolt) (id now : ℕ)
      → start bolt weather s id now ≡ (s', ok tt)
      → (job : Job) × (lookup id (entries s.bucket) ≡ some (some job))
        × (job.status ≡ status_queued)
        × (lookup id (entries s'.bucket)
            ≡ some (some (record job { status = status_running; started_at = some now })))
  unfolding start start_change active_status
  start_lem weather s s' id now h =
      let u = update-Updated bolt weather s s' id (start_change now) (ground arith) in
      let queued : u.before.status ≡ status_queued =
        (string_eq.beq_iff u.before.status status_queued).0 (ground (arith, u.changed)) in
      let after : u.after ≡ record u.before { status = status_running; started_at = some now } =
        ground (arith, u.changed) in
      (
        u.before,
        u.found,
        queued,
        rw after at (Updated-kept s s' id (start_change now) u (rw after refl)),
      )

  -- `Complete` succeeds only on a running job and only with a final status. It leaves the job
  -- finished with that status and the duration since its start, if the trimming has not dropped it.
  pub complete_lem :
      (weather : Weather) (s s' : Store bolt) (id : ℕ) (status category : String) (reboot : Bool)
      (now : ℕ)
      → complete bolt weather s id status category reboot now ≡ (s', ok tt)
      → (job : Job) × (lookup id (entries s.bucket) ≡ some (some job))
        × (job.status ≡ status_running)
        × (final_status status ≡ true)
        × ((lookup id (entries s'.bucket) ≡ some (some (finish_job job now status category reboot)))
            ⊎ (lookup id (entries s'.bucket) ≡ none))
  unfolding complete complete_change
  complete_lem weather s s' id status category reboot now h =
      let change = complete_change now status category reboot in
      let u = update-Updated bolt weather s s' id change (ground arith) in
      let running : u.before.status ≡ status_running =
        (string_eq.beq_iff u.before.status status_running).0 (ground (arith, u.changed)) in
      let after : u.after ≡ finish_job u.before now status category reboot =
        ground (arith, u.changed) in
      (
        u.before,
        u.found,
        running,
        ground arith,
        elim (Option-cases (lookup id (entries s'.bucket))) [
          | inl gone ↦ inr gone
          | inr (v, kept) ↦
              let put =
                drop_finished_sub is_finished_job u.excess id v _ _ u.ascending u.trimmed kept in
              let same : v ≡ some u.after =
                ground (arith, put, lookup-put_entry id id (some u.after) (entries s.bucket)) in
              inl (kept ∙ ap some same ∙ ap (λ j. some (some j)) after)
        ],
      )

  -- All keys of the bucket have been handed out.
  abbrev pub IsSequenced : Store bolt → Type 0
  IsSequenced s = All (λ e. e.0 ≤ sequence s.bucket) (entries s.bucket)

  -- `Enqueue` gives a job an id that no job of the store has, stores it queued under that id with
  -- the fields of the attempt, and keeps the ids handed out below the counter.
  pub enqueue_lem :
      (weather : Weather) (s s' : Store bolt) (attempt : Attempt) (now : ℕ) (job : Job)
      → IsSequenced s
      → enqueue bolt weather s attempt now ≡ (s', ok job)
      → (lookup job.id (entries s.bucket) ≡ none)
        × (lookup job.id (entries s'.bucket) ≡ some (some job))
        × (job ≡ new_job attempt now (sequence s.bucket + 1))
        × IsSequenced s'
  unfolding new_job active_status
  enqueue_lem weather s s' attempt now job v h =
      let q = enqueue-Enqueued bolt weather s s' attempt now job h in
      let id : job.id ≡ sequence s.bucket + 1 = ap (λ j. j.id) q.made in
      let queued : job.status ≡ status_queued = ap (λ j. j.status) q.made in
      let wider =
        All-implies (λ e. e.0 ≤ sequence s.bucket) (λ e. e.0 ≤ sequence s'.bucket)
          (entries s.bucket) (λ e le. omega (arith, q.next_sequence)) v in
      (
        lookup_above job.id (sequence s.bucket) (entries s.bucket) v (omega (arith, id)),
        drop_finished-lookup is_finished_job q.excess job.id job _ _ q.trimmed
            (rw (lookup-put_entry job.id job.id (some job) (entries s.bucket), eq_refl job.id) refl)
            (rw queued refl),
        q.made,
        drop_finished-All is_finished_job (λ e. e.0 ≤ sequence s'.bucket) q.excess _ _ q.trimmed
            (put_entry-All (λ e. e.0 ≤ sequence s'.bucket) job.id (some job) (entries s.bucket)
              (omega (arith, id, q.next_sequence)) wider),
      )

  -- `Enqueue` leaves at most `maxRecords` entries, or only active ones, provided that
  -- `Stats().KeyN` counts the keys of the bucket as the transaction has left it.
  pub enqueue_bounded :
      (weather : Weather) (s s' : Store bolt) (attempt : Attempt) (now : ℕ) (job : Job)
      → ((b : Bucket) → key_n b ≡ length (entries b))
      → enqueue bolt weather s attempt now ≡ (s', ok job)
      → (length (entries s'.bucket) ≤ s.max_records)
        ⊎ (keep_if (is_finished is_finished_job) (entries s'.bucket) ≡ [])
  enqueue_bounded weather s s' attempt now job exact h =
      let q = enqueue-Enqueued bolt weather s s' attempt now job h in
      let stored =
        bolt.entries-put job.id (some job) (bolt.advance s.bucket)
        ∙ ap (put_entry job.id (some job)) (bolt.entries-advance s.bucket) in
      let m = put_entry job.id (some job) (entries s.bucket) in
      let n : q.excess ≡ length m - s.max_records =
        q.count
        ∙ ap (λ k. k - s.max_records) (exact (bolt.put job.id (some job) (bolt.advance s.bucket)))
        ∙ ap (λ e. length e - s.max_records) stored in
      drop_finished_bounded is_finished_job s.max_records m (entries s'.bucket) (rw n at q.trimmed)
