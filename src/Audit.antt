-- ===== src/Audit.antt =====
-- internal/audit/audit.go: the durable store of the records of privileged actions, on the same
-- interface of the database, the same loops of recovery, trimming and listing as the job store.
pub mod Writes
pub mod Opening
use pilothouse.Base.{
  ℕ, zero, suc, ◌+◌, ◌-◌, ◌/◌, String, Bool, true, false, not, ◌&&◌, ◌||◌, Option, none, some, List,
  [], ◌∷◌, Map, string_eq, nat_eq, ◌==◌, ltb, length, if◌then◌else◌, Result, ok, err, ◌>>=◌, ℤ, pos,
  negsuc, reverse,
}
use pilothouse.Store.{Bolt, Weather}
use pilothouse.Store.Trim.{trim}
use pilothouse.Store.Recovery.{recover_all}
use pilothouse.Store.Listing.{ListFault, stopped, undecodable, list_entries}

abbrev pub outcome_started : String
outcome_started = "started"

abbrev pub outcome_succeeded : String
outcome_succeeded = "succeeded"

abbrev pub outcome_failed : String
outcome_failed = "failed"

abbrev pub outcome_unknown : String
outcome_unknown = "unknown"

abbrev pub max_list_limit : ℕ
max_list_limit = 100

pub data AuditError : Type 0 where
  not_found context_done commit_failed decode_failed : AuditError
  invalid_outcome negative_limit invalid_filter max_records_not_positive : AuditError

pub record Attempt : Type 0 where
  pub action : String
  pub resource : String
  pub username : String
  pub uid : ℕ

-- `Record`
pub record AuditRecord : Type 0 where
  pub id : ℕ
  pub action : String
  pub resource : String
  pub username : String
  pub uid : ℕ
  pub started_at : ℕ
  pub finished_at : Option ℕ
  pub outcome : String
  pub error_category : String
  pub duration_ms : ℕ

pub record Filter : Type 0 where
  pub limit : ℤ
  pub action : String
  pub outcome : String

-- The test that `Complete` makes of its outcome.
unfoldable pub is_final : String → Bool
is_final outcome =
    outcome == outcome_succeeded || (outcome == outcome_failed || outcome == outcome_unknown)

-- `validOutcome`
unfoldable pub valid_outcome : String → Bool
valid_outcome outcome = outcome == outcome_started || is_final outcome

-- `finishRecord`; a negative duration becomes 0.
unfoldable pub finish_record : AuditRecord → ℕ → String → String → AuditRecord
finish_record r finished_at outcome error_category = record r {
  finished_at = some finished_at;
  outcome = outcome;
  error_category = error_category;
  duration_ms = (finished_at - r.started_at) / 1000000;
}

abbrev pub is_started : AuditRecord → Bool
is_started r = r.outcome == outcome_started

-- The test that `trimOldest` makes of a removable record.
abbrev pub is_ended : AuditRecord → Bool
is_ended r = not (r.outcome == outcome_started)

-- The record that `Begin` makes.
unfoldable pub new_record : Attempt → ℕ → ℕ → AuditRecord
new_record attempt now id = record {
  id = id;
  action = attempt.action;
  resource = attempt.resource;
  username = attempt.username;
  uid = attempt.uid;
  started_at = now;
  finished_at = none;
  outcome = outcome_started;
  error_category = "";
  duration_ms = 0;
}

-- The two tests that `continue` the loop of `List`, negated.
unfoldable pub is_listed : Filter → AuditRecord → Bool
is_listed filter r =
    (filter.action == "" || r.action == filter.action)
    && (filter.outcome == "" || r.outcome == filter.outcome)

-- `limit == 0 || limit > maxListLimit`
abbrev pub effective_limit : ℕ → ℕ
effective_limit n = if n == 0 || ltb max_list_limit n then max_list_limit else n

module _ (bolt : Bolt AuditRecord) where
  open bolt use {Bucket, entries, sequence, fetch, put, advance}

  -- The database and `maxRecords`.
  pub record AuditStore : Type 0 where
    pub bucket : Bucket
    pub max_records : ℕ

  abbrev pub decoded : Option Bucket → Result AuditError Bucket
  decoded none = err decode_failed
  decoded (some b) = ok b

  -- `trimOldest`: `count` is what the cursor has counted.
  unfoldable pub trim_oldest : ℕ → Bucket → Result AuditError Bucket
  trim_oldest max_records b = decoded (trim is_ended bolt (length (entries b) - max_records) b)

  -- `db.Update`
  abbrev pub commit {ℓ} :
      {A : Type ℓ}
      → Weather
      → AuditStore
      → Result AuditError (A × Bucket)
      → AuditStore × Result AuditError A
  commit weather s (err e) = (s, err e)
  commit weather s (ok (a, b)) =
      if weather.commit_fails then (s, err commit_failed) else (record s { bucket = b }, ok a)

  -- What the transactions of `Begin` and `Complete` end with.
  unfoldable pub store_record : ℕ → Bucket → AuditRecord → ℕ → Result AuditError Bucket
  store_record max_records b r key = trim_oldest max_records (put key (some r) b)

  -- The transaction of `Begin`.
  unfoldable pub begin_tx : ℕ → Bucket → Attempt → ℕ → Result AuditError (AuditRecord × Bucket)
  begin_tx max_records b attempt now = do
    let r = new_record attempt now (sequence (advance b))
    trimmed ← store_record max_records (advance b) r r.id
    ok (r, trimmed)

  -- `Begin`
  unfoldable pub begin :
      Weather → AuditStore → Attempt → ℕ → AuditStore × Result AuditError AuditRecord
  begin weather s attempt now =
      if weather.done_before || weather.done_inside
      then (s, err context_done)
      else commit weather s (begin_tx s.max_records s.bucket attempt now)

  -- What `Complete` does with the value that it finds.
  unfoldable pub complete_value :
      ℕ
      → Bucket
      → ℕ
      → String
      → String
      → ℕ
      → Option (Option AuditRecord)
      → Result AuditError (Unit {0} × Bucket)
  complete_value max_records b id outcome category now none = err not_found
  complete_value max_records b id outcome category now (some none) = err decode_failed
  complete_value max_records b id outcome category now (some (some r)) = do
    trimmed ← store_record max_records b (finish_record r now outcome category) id
    ok (tt, trimmed)

  -- `Complete`
  unfoldable pub complete :
      Weather → AuditStore → ℕ → String → String → ℕ → AuditStore × Result AuditError (Unit {0})
  complete weather s id outcome category now =
      if weather.done_before
      then (s, err context_done)
      else if not (is_final outcome)
      then (s, err invalid_outcome)
      else if weather.done_inside
      then (s, err context_done)
      else commit weather s
          (complete_value s.max_records s.bucket id outcome category now (fetch id s.bucket))

  -- How `Open` finishes a record.
  abbrev pub interrupted : ℕ → AuditRecord → AuditRecord
  interrupted now r = finish_record r now outcome_unknown ""

  -- The transaction of `Open`, with what the cursor gives.
  unfoldable pub open_tx : Map ℕ (Option AuditRecord) → ℕ → Bucket → ℕ → Result AuditError Bucket
  open_tx visited max_records b now = do
    done ← decoded (recover_all is_started (interrupted now) bolt visited b)
    trim_oldest max_records done

  opened : ℕ → Bool → Result AuditError Bucket → Result AuditError AuditStore
  opened max_records commit_fails (err e) = err e
  opened max_records commit_fails (ok b) =
      if commit_fails
      then err commit_failed
      else ok (record { bucket = b; max_records = max_records })

  -- `Open`, from the bucket of the opened file.
  unfoldable pub open_store :
      Map ℕ (Option AuditRecord) → ℤ → Bool → Bucket → ℕ → Result AuditError AuditStore
  unfolding opened
  open_store visited (negsuc n) commit_fails b now = err max_records_not_positive
  open_store visited (pos zero) commit_fails b now = err max_records_not_positive
  open_store visited (pos (suc n)) commit_fails b now =
      opened (suc n) commit_fails (open_tx visited (suc n) b now)

  of_list : Result ListFault (List AuditRecord) → Result AuditError (List AuditRecord)
  of_list (ok rs) = ok rs
  of_list (err stopped) = err context_done
  of_list (err undecodable) = err decode_failed

  -- `List`
  unfoldable pub list : Bool → (ℕ → Bool) → Filter → Bucket → Result AuditError (List AuditRecord)
  unfolding of_list
  list done_before done filter b = if done_before then err context_done else elim filter.limit [
    | negsuc n ↦ err negative_limit
    | pos n ↦
        if not (filter.outcome == "") && not (valid_outcome filter.outcome)
        then err invalid_filter
        else of_list
            (list_entries done (is_listed filter) 0 (effective_limit n) (reverse (entries b)))
  ]
