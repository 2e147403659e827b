-- ===== src/Jobs.antt =====
-- internal/jobs/jobs.go: the durable store of maintenance jobs.
-- A status is the string that the source stores. A `time.Time` is a number of nanoseconds, and a
-- `*time.Time` an `Option`. A transaction that returns an error, or fails to commit, changes
-- nothing (`db.Update` of bbolt). A number of records is taken positive or not by its sign.
pub mod Transitions
pub mod Lifecycle
pub mod Writes
pub mod Recovery
pub mod Queries
use pilothouse.Base.{
  ℕ, zero, suc, ◌+◌, ◌-◌, ◌/◌, String, Bool, true, false, not, ◌&&◌, ◌||◌, Option, none, some, List,
  [], ◌∷◌, ◌++◌, Map, string_eq, nat_eq, ◌==◌, ltb, leb, length, if◌then◌else◌, Result, ok, err,
  ◌>>=◌, ℤ, pos, negsuc,
}
use pilothouse.Store.{Bolt, Weather}
use pilothouse.Store.Trim.{trim}

abbrev pub status_queued : String
status_queued = "queued"

abbrev pub status_running : String
status_running = "running"

abbrev pub status_succeeded : String
status_succeeded = "succeeded"

abbrev pub status_failed : String
status_failed = "failed"

abbrev pub status_unknown : String
status_unknown = "unknown"

abbrev pub max_list_limit : ℕ
max_list_limit = 100

pub data JobError : Type 0 where
  not_found invalid_transition : JobError
  context_done commit_failed decode_failed : JobError
  invalid_final_status negative_limit invalid_filter max_records_not_positive : JobError

pub record Attempt : Type 0 where
  pub action : String
  pub audit_id : ℕ
  pub resource : String
  pub username : String
  pub uid : ℕ

pub record Job : Type 0 where
  pub id : ℕ
  pub audit_id : ℕ
  pub action : String
  pub resource : String
  pub username : String
  pub uid : ℕ
  pub status : String
  pub error_category : String
  pub reboot_required : Bool
  pub created_at : ℕ
  pub started_at : Option ℕ
  pub finished_at : Option ℕ
  pub duration_ms : ℕ

pub record Filter : Type 0 where
  pub limit : ℤ
  pub action : String
  pub status : String

-- `activeStatus`
unfoldable pub active_status : String → Bool
active_status status = status == status_queued || status == status_running

-- `finalStatus`
unfoldable pub final_status : String → Bool
final_status status =
    status == status_succeeded || status == status_failed || status == status_unknown

-- `validStatus`
unfoldable pub valid_status : String → Bool
valid_status status = active_status status || final_status status

-- `finishedAt.Sub(*startedAt).Milliseconds()`, and 0 where that is negative.
abbrev pub duration : Option ℕ → ℕ → ℕ
duration none finished_at = 0
duration (some started_at) finished_at = (finished_at - started_at) / 1000000

-- `finishJob`
unfoldable pub finish_job : Job → ℕ → String → String → Bool → Job
finish_job job finished_at status error_category reboot_required = record job {
  status = status;
  error_category = error_category;
  reboot_required = reboot_required;
  finished_at = some finished_at;
  duration_ms = duration job.started_at finished_at;
}

abbrev pub is_finished_job : Job → Bool
is_finished_job job = not (active_status job.status)

-- The new entry of `Enqueue`.
unfoldable pub new_job : Attempt → ℕ → ℕ → Job
new_job attempt now id = record {
  id = id;
  audit_id = attempt.audit_id;
  action = attempt.action;
  resource = attempt.resource;
  username = attempt.username;
  uid = attempt.uid;
  status = status_queued;
  error_category = "";
  reboot_required = false;
  created_at = now;
  started_at = none;
  finished_at = none;
  duration_ms = 0;
}

-- The change that `Start` makes.
unfoldable pub start_change : ℕ → Job → Result JobError Job
start_change now job =
    if job.status == status_queued
    then ok (record job { status = status_running; started_at = some now })
    else err invalid_transition

-- The change that `Complete` makes.
unfoldable pub complete_change : ℕ → String → String → Bool → Job → Result JobError Job
complete_change now status error_category reboot_required job =
    if job.status == status_running
    then ok (finish_job job now status error_category reboot_required)
    else err invalid_transition

module _ (bolt : Bolt Job) where
  open bolt use {Bucket, entries, sequence, fetch, put, delete, advance, key_n}

  -- The database and `maxRecords`.
  pub record Store : Type 0 where
    pub bucket : Bucket
    pub max_records : ℕ

  pub trimmed : Option Bucket → Result JobError Bucket
  trimmed none = err decode_failed
  trimmed (some b) = ok b

  -- `trimOldest`: the rounds are `count - maxRecords`.
  unfoldable pub trim_oldest : ℕ → Bucket → Result JobError Bucket
  unfolding trimmed
  trim_oldest max_records b = trimmed (trim is_finished_job bolt (key_n b - max_records) b)

  -- `db.Update`: the bucket that a successful transaction leaves.
  unfoldable pub commit {ℓ} :
      {A : Type ℓ} → Weather → Store → Result JobError (A × Bucket) → Store × Result JobError A
  commit weather s (err e) = (s, err e)
  commit weather s (ok (a, b)) =
      if weather.commit_fails then (s, err commit_failed) else (record s { bucket = b }, ok a)

  -- The transaction of `Enqueue`.
  enqueue_tx : ℕ → Bucket → Attempt → ℕ → Result JobError (Job × Bucket)
  enqueue_tx max_records b attempt now = do
    let b' = advance b
    let job = new_job attempt now (sequence b')
    trimmed ← trim_oldest max_records (put job.id (some job) b')
    ok (job, trimmed)

  -- `Enqueue`
  unfoldable pub enqueue : Weather → Store → Attempt → ℕ → Store × Result JobError Job
  unfolding enqueue_tx commit
  enqueue weather s attempt now =
      if weather.done_before
      then (s, err context_done)
      else if weather.done_inside
      then (s, err context_done)
      else commit weather s (enqueue_tx s.max_records s.bucket attempt now)

  -- What `update` does with the value that it finds.
  update_value :
      ℕ
      → Bucket
      → ℕ
      → (Job → Result JobError Job)
      → Option (Option Job)
      → Result JobError (Unit {0} × Bucket)
  update_value max_records b id change none = err not_found
  update_value max_records b id change (some none) = err decode_failed
  update_value max_records b id change (some (some job)) = do
    changed ← change job
    trimmed ← trim_oldest max_records (put id (some changed) b)
    ok (tt, trimmed)

  -- `update`
  unfoldable pub update :
      Weather → Store → ℕ → (Job → Result JobError Job) → Store × Result JobError (Unit {0})
  unfolding update_value commit
  update weather s id change =
      if weather.done_inside
      then (s, err context_done)
      else commit weather s (update_value s.max_records s.bucket id change (fetch id s.bucket))

  -- `Start`
  unfoldable pub start : Weather → Store → ℕ → ℕ → Store × Result JobError (Unit {0})
  start weather s id now =
      if weather.done_before then (s, err context_done) else update weather s id (start_change now)

  -- `Complete`
  unfoldable pub complete :
      Weather → Store → ℕ → String → String → Bool → ℕ → Store × Result JobError (Unit {0})
  complete weather s id status error_category reboot_required now =
      if weather.done_before
      then (s, err context_done)
      else if not (final_status status)
      then (s, err invalid_final_status)
      else update weather s id (complete_change now status error_category reboot_required)
