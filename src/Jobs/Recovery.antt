-- ===== src/Jobs/Recovery.antt =====
-- `Open` of internal/jobs/jobs.go: what a restart makes of the jobs that it interrupted.
use pilothouse.Base.{
  ℕ, zero, suc, ◌≡◌, refl, Bool, false, Option, none, some, Map, nat_eq, lookup, arith, Result, ok,
  err, ◌>>=◌, >>=-eq-ok, Bool-cases, inl, inr, if◌then◌else◌, ℤ, pos, negsuc,
}
use pilothouse.Store.{Bolt, IsAscending}
use pilothouse.Store.Entries.{drop_finished_sub}
use pilothouse.Store.Recovery.{recover_all, recovered_from}
use pilothouse.Jobs.{
  Job, JobError, Store, active_status, status_unknown, finish_job, trim_oldest, is_finished_job,
  decode_failed, max_records_not_positive, commit_failed,
}
use pilothouse.Jobs.Transitions.{trim_oldest-eq-ok}

-- How the restart finishes a job.
abbrev pub interrupted : ℕ → Job → Job
interrupted now job = finish_job job now status_unknown "" false

abbrev pub is_unfinished : Job → Bool
is_unfinished job = active_status job.status

-- What the restart makes of one job.
unfoldable pub recovered : ℕ → Job → Job
recovered now job = if active_status job.status then interrupted now job else job

unknown_idle : active_status status_unknown ≡ false
unfolding active_status
unknown_idle = refl

recovered-idle : (now : ℕ) (job : Job) → active_status (recovered now job).status ≡ false
unfolding recovered finish_job
recovered-idle now job = elim (Bool-cases (active_status job.status)) [
  | inl busy ↦ rw busy unknown_idle
  | inr idle ↦ rw idle idle
]

module _ (bolt : Bolt Job) where
  open bolt use {Bucket, entries, sequence, key_n}

  decoded : Option Bucket → Result JobError Bucket
  decoded none = err decode_failed
  decoded (some b) = ok b

  decoded-eq-ok : (o : Option Bucket) (b : Bucket) → decoded o ≡ ok b → o ≡ some b
  unfolding decoded
  decoded-eq-ok none b h = absurd (ground arith)
  decoded-eq-ok (some c) b h = ground arith

  -- The loop over the jobs that the cursor gives.
  unfoldable pub recover : Map ℕ (Option Job) → ℕ → Bucket → Result JobError Bucket
  unfolding decoded
  recover visited now b = decoded (recover_all is_unfinished (interrupted now) bolt visited b)

  -- The transaction of `Open`.
  open_tx : Map ℕ (Option Job) → ℕ → Bucket → ℕ → Result JobError Bucket
  open_tx visited max_records b now = do
    done ← recover visited now b
    trim_oldest bolt max_records done

  open_with : Map ℕ (Option Job) → ℕ → Bool → Bucket → ℕ → Result JobError (Store bolt)
  unfolding open_tx
  open_with visited max_records commit_fails b now = do
    done ← open_tx visited max_records b now
    if commit_fails
        then err commit_failed
        else ok (record { bucket = done; max_records = max_records })

  -- `Open`, from the bucket of the opened file.
  unfoldable pub open_store :
      Map ℕ (Option Job) → ℤ → Bool → Bucket → ℕ → Result JobError (Store bolt)
  unfolding open_with
  open_store visited (negsuc n) commit_fails b now = err max_records_not_positive
  open_store visited (pos zero) commit_fails b now = err max_records_not_positive
  open_store visited (pos (suc n)) commit_fails b now = open_with visited (suc n) commit_fails b now

  committed_bucket :
      (max_records : ℕ) (fails : Bool) (b : Bucket) (s : Store bolt)
      → (if fails then err commit_failed else ok (record { bucket = b; max_records = max_records }))
        ≡ ok s
      → b ≡ s.bucket
  committed_bucket max_records fails b s h = ground arith

  -- Where the cursor goes through the keys in ascending order and gives a job as it stands, the job
  -- that is stored under its id after a restart is finished, and is what the restart makes of the job
  -- that stood there before it: an active one gets the status "unknown", any other is as it was.
  pub open_store-recovered :
      (visited : Map ℕ (Option Job)) (max_records : ℤ) (commit_fails : Bool) (b : Bucket)
      (now id : ℕ) (s : Store bolt) (v : Option Job)
      → IsAscending visited
      → lookup id visited ≡ lookup id (entries b)
      → open_store visited max_records commit_fails b now ≡ ok s
      → lookup id (entries s.bucket) ≡ some v
      → (job : Job) × (lookup id (entries b) ≡ some (some job))
        × (v ≡ some (recovered now job))
        × (active_status (recovered now job).status ≡ false)
  unfolding open_store recover recovered
  open_store-recovered visited (negsuc n) commit_fails b now id s v ascending met h found =
      absurd (ground arith)
  open_store-recovered visited (pos zero) commit_fails b now id s v ascending met h found =
      absurd (ground arith)
  open_store-recovered visited (pos (suc n)) commit_fails b now id s v ascending met h found =
      let (b2, opened, h2) = >>=-eq-ok (open_tx visited (suc n) b now) _ h in
      let (b1, done, trimmed) = >>=-eq-ok (recover visited now b) _ opened in
      let same : b2 ≡ s.bucket = committed_bucket (suc n) commit_fails b2 s h2 in
      let before =
        drop_finished_sub is_finished_job _ id v (entries b1) (entries b2)
          (bolt.entries-IsAscending b1) (trim_oldest-eq-ok bolt (suc n) b1 b2 trimmed)
          (rw (← same) at found) in
      let (job, here, same_job) =
        recovered_from is_unfinished (interrupted now) bolt id visited b b1 v ascending met
          (decoded-eq-ok _ b1 done) before in
      (job, here, same_job, recovered-idle now job)
