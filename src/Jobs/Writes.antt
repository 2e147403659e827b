-- ===== src/Jobs/Writes.antt =====
-- All writes of the job store together: errors, and the active jobs.
use pilothouse.Base.{
  ℕ, ◌+◌, ◌≤◌, ◌≡◌, ◌≢◌, refl, ap, String, Bool, true, Option, none, some, nat_eq, string_eq,
  lookup, arith, Result, ok, err, Bool-cases, Option-cases, inl, inr, ltb, All-implies,
}
use pilothouse.Store.{Bolt, Weather, put_entry}
use pilothouse.Store.Trim.{drop_finished, drop_finished-lookup}
use pilothouse.Store.Entries.{lookup-put_entry, lookup_above, put_entry-All, drop_finished-All}
use pilothouse.Jobs.{
  Job, JobError, Attempt, Store, is_finished_job, active_status, final_status, enqueue, update,
  start, complete, start_change, complete_change, new_job,
}
use pilothouse.Jobs.Transitions.{Updated, update-Updated, enqueue-Enqueued, update_failed}
use pilothouse.Jobs.Lifecycle.{Updated-others, IsSequenced}

-- A write of the store.
pub data Write : Type 0 where
  enqueuing : Weather → Attempt → ℕ → Write
  starting : Weather → ℕ → ℕ → Write
  completing : Weather → ℕ → String → String → Bool → ℕ → Write

abbrev pub error_of : {A : Type 0} → Result JobError A → Option JobError
error_of (ok a) = none
error_of (err e) = some e

error_of-eq-some :
    {A : Type 0} (r : Result JobError A) {e : JobError} → error_of r ≡ some e → r ≡ err e
error_of-eq-some (ok a) h = cc
error_of-eq-some (err x) h = ground arith

error_of-eq-none_unit : (r : Result JobError (Unit {0})) → error_of r ≡ none → r ≡ ok tt
error_of-eq-none_unit (ok tt) h = refl
error_of-eq-none_unit (err x) h = cc

new_id : (attempt : Attempt) (now id : ℕ) {job : Job} → job ≡ new_job attempt now id → job.id ≡ id
unfolding new_job
new_id attempt now id e = ap (λ j. j.id) e

error_of-eq-none : {A : Type 0} (r : Result JobError A) → error_of r ≡ none → (a : A) × (r ≡ ok a)
error_of-eq-none (ok a) h = (a, refl)
error_of-eq-none (err x) h = cc

module _ (bolt : Bolt Job) where
  open bolt use {Bucket, entries, sequence, key_n}

  enqueue_failed :
      (weather : Weather) (s : Store bolt) (attempt : Attempt) (now : ℕ) (e : JobError)
      → (enqueue bolt weather s attempt now).1 ≡ err e
      → (enqueue bolt weather s attempt now).0 ≡ s
  unfolding enqueue
  enqueue_failed weather s attempt now e h = ground arith

  -- The new store and the error, if any.
  unfoldable pub write : Write → Store bolt → Store bolt × Option JobError
  write (enqueuing weather attempt now) s =
      let (s', r) = enqueue bolt weather s attempt now in (s', error_of r)
  write (starting weather id now) s = let (s', r) = start bolt weather s id now in (s', error_of r)
  write (completing weather id status category reboot now) s =
      let (s', r) = complete bolt weather s id status category reboot now in (s', error_of r)

  -- A write that returns an error leaves the store as it was.
  pub write_failed :
      (w : Write) (s : Store bolt) (e : JobError) → (write w s).1 ≡ some e → (write w s).0 ≡ s
  unfolding write start complete update
  write_failed (enqueuing weather attempt now) s e h =
      enqueue_failed weather s attempt now e (error_of-eq-some _ h)
  write_failed (starting weather id now) s e h = elim (Bool-cases weather.done_before) [
    | inl done ↦ rw done
    | inr going ↦
        rw going (
          update_failed bolt weather s id (start_change now) e (error_of-eq-some _ (rw going at h)))
  ]
  write_failed (completing weather id status category reboot now) s e h =
      elim (Bool-cases weather.done_before) [
        | inl done ↦ rw done
        | inr going ↦ elim (Bool-cases (final_status status)) [
          | inr bad ↦ rw (going, bad)
          | inl final ↦
              rw (going, final)
                (update_failed bolt weather s id (complete_change now status category reboot) e
                  (error_of-eq-some _ (rw (going, final) at h)))
        ]
      ]

  -- The job that a write is about.
  abbrev pub target : Write → Option ℕ
  target (enqueuing weather attempt now) = none
  target (starting weather id now) = some id
  target (completing weather id status category reboot now) = some id

  start_update :
      (weather : Weather) (s s' : Store bolt) (k now : ℕ)
      → start bolt weather s k now ≡ (s', ok tt)
      → update bolt weather s k (start_change now) ≡ (s', ok tt)
  unfolding start
  start_update weather s s' k now h = ground arith

  complete-update :
      (weather : Weather) (s s' : Store bolt) (k : ℕ) (status category : String) (reboot : Bool)
      (now : ℕ)
      → complete bolt weather s k status category reboot now ≡ (s', ok tt)
      → update bolt weather s k (complete_change now status category reboot) ≡ (s', ok tt)
  unfolding complete
  complete-update weather s s' k status category reboot now h = ground arith

  write_done :
      (w : Write) (s : Store bolt) (id : ℕ) (job : Job)
      → IsSequenced bolt s
      → target w ≢ some id
      → active_status job.status ≡ true
      → lookup id (entries s.bucket) ≡ some (some job)
      → (write w s).1 ≡ none
      → lookup id (entries (write w s).0.bucket) ≡ some (some job)
  unfolding write
  write_done (enqueuing weather attempt now) s id job v differ active found done =
      let (new, e) = error_of-eq-none _ done in
      let s' = (enqueue bolt weather s attempt now).0 in
      let q = enqueue-Enqueued bolt weather s s' attempt now new (λ i. (s', e i)) in
      let fresh : new.id ≡ sequence s.bucket + 1 = new_id attempt now _ q.made in
      let above =
        lookup_above new.id (sequence s.bucket) (entries s.bucket) v (omega (arith, fresh)) in
      drop_finished-lookup is_finished_job q.excess id job _ _ q.trimmed
        (ground (arith, lookup-put_entry new.id id (some new) (entries s.bucket), above))
        (rw active refl)
  write_done (starting weather k now) s id job v differ active found done =
      let s' = (start bolt weather s k now).0 in
      let e = error_of-eq-none_unit (start bolt weather s k now).1 done in
      let u =
        update-Updated bolt weather s s' k (start_change now)
          (start_update weather s s' k now (λ i. (s', e i))) in
      Updated-others bolt s s' k id (start_change now) u job (λ same. differ (ap some same)) active
        found
  write_done (completing weather k status category reboot now) s id job v differ active found done =
      let s' = (complete bolt weather s k status category reboot now).0 in
      let e = error_of-eq-none_unit (complete bolt weather s k status category reboot now).1 done in
      let change = complete_change now status category reboot in
      let u =
        update-Updated bolt weather s s' k change
          (complete-update weather s s' k status category reboot now (λ i. (s', e i))) in
      Updated-others bolt s s' k id change u job (λ same. differ (ap some same)) active found

  put_dropped-IsSequenced :
      (s s' : Store bolt) (id excess : ℕ) (job : Job)
      → IsSequenced bolt s
      → sequence s.bucket ≤ sequence s'.bucket
      → id ≤ sequence s'.bucket
      → drop_finished is_finished_job excess (put_entry id (some job) (entries s.bucket))
        ≡ some (entries s'.bucket)
      → IsSequenced bolt s'
  put_dropped-IsSequenced s s' id excess job v wider le trimmed =
      drop_finished-All is_finished_job (λ e. e.0 ≤ sequence s'.bucket) excess _ _ trimmed
        (put_entry-All (λ e. e.0 ≤ sequence s'.bucket) id (some job) (entries s.bucket) le
          (All-implies (λ e. e.0 ≤ sequence s.bucket) (λ e. e.0 ≤ sequence s'.bucket)
            (entries s.bucket) (λ e below. omega (arith, wider)) v))

  found_le :
      (s : Store bolt) (id : ℕ) (job : Job)
      → IsSequenced bolt s
      → lookup id (entries s.bucket) ≡ some (some job)
      → id ≤ sequence s.bucket
  found_le s id job v found = elim (Bool-cases (ltb (sequence s.bucket) id)) [
    | inr within ↦ ground arith
    | inl above ↦
        let missing = lookup_above id (sequence s.bucket) (entries s.bucket) v (ground arith) in
        absurd (ground arith)
  ]

  Updated-IsSequenced :
      (s s' : Store bolt) (id : ℕ) (change : Job → Result JobError Job)
      → Updated bolt s s' id change
      → IsSequenced bolt s
      → IsSequenced bolt s'
  Updated-IsSequenced s s' id change u v =
      put_dropped-IsSequenced s s' id u.excess u.after v (omega (arith, u.same_sequence))
        (omega (arith, u.same_sequence, found_le s id u.before v u.found)) u.trimmed

  write_done-IsSequenced :
      (w : Write) (s : Store bolt)
      → IsSequenced bolt s
      → (write w s).1 ≡ none
      → IsSequenced bolt (write w s).0
  unfolding write
  write_done-IsSequenced (enqueuing weather attempt now) s v done =
      let (new, e) = error_of-eq-none _ done in
      let s' = (enqueue bolt weather s attempt now).0 in
      let q = enqueue-Enqueued bolt weather s s' attempt now new (λ i. (s', e i)) in
      let fresh : new.id ≡ sequence s.bucket + 1 = new_id attempt now _ q.made in
      put_dropped-IsSequenced s s' new.id q.excess new v (omega (arith, q.next_sequence))
        (omega (arith, q.next_sequence, fresh)) q.trimmed
  write_done-IsSequenced (starting weather k now) s v done =
      let s' = (start bolt weather s k now).0 in
      let e = error_of-eq-none_unit (start bolt weather s k now).1 done in
      Updated-IsSequenced s s' k (start_change now)
        (update-Updated bolt weather s s' k (start_change now)
          (start_update weather s s' k now (λ i. (s', e i))))
        v
  write_done-IsSequenced (completing weather k status category reboot now) s v done =
      let s' = (complete bolt weather s k status category reboot now).0 in
      let e = error_of-eq-none_unit (complete bolt weather s k status category reboot now).1 done in
      let change = complete_change now status category reboot in
      Updated-IsSequenced s s' k change
        (update-Updated bolt weather s s' k change
          (complete-update weather s s' k status category reboot now (λ i. (s', e i))))
        v

  pub write-active_kept :
      (w : Write) (s : Store bolt) (id : ℕ) (job : Job)
      → IsSequenced bolt s
      → target w ≢ some id
      → active_status job.status ≡ true
      → lookup id (entries s.bucket) ≡ some (some job)
      → (lookup id (entries (write w s).0.bucket) ≡ some (some job))
        × IsSequenced bolt (write w s).0
  unfolding write
  write-active_kept w s id job v differ active found = elim (Option-cases (write w s).1) [
    | inr (e, failed) ↦ (rw (write_failed w s e failed) found, rw (write_failed w s e failed) v)
    | inl done ↦
        (write_done w s id job v differ active found done, write_done-IsSequenced w s v done)
  ]
