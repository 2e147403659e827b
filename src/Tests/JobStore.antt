-- ===== src/Tests/JobStore.antt =====
-- The job store on a bucket in memory, with room for two records.
use pilothouse.Base.{
  ℕ, ◌≡◌, refl, ◌⊎◌, true, false, Option, none, some, List, [], ◌∷◌, Map, lookup, erase, nat_eq,
  Result, ok, pos, arith,
}
use pilothouse.Store.{fair, put_entry}
use pilothouse.Store.Trim.{oldest_finished, trim}
use pilothouse.Jobs.{
  Job, JobError, Attempt, Filter, Store, enqueue, update, trim_oldest, start_change,
  complete_change, start, complete, new_job, finish_job, final_status, valid_status, status_queued,
  status_running, status_succeeded, active_status, invalid_transition,
}
use pilothouse.Jobs.Lifecycle.{start_lem, complete_lem, enqueue_lem, IsSequenced}
use pilothouse.Jobs.Writes.{enqueuing, starting, write, write_failed, write-active_kept}
use pilothouse.Store.Recovery.{recover_all}
use pilothouse.Jobs.Recovery.{open_store, recover, open_store-recovered, recovered}
use pilothouse.Jobs.Queries.{list, list_total}
use pilothouse.Tests.Memory.{memory, empty}

abbrev update_system : Attempt
update_system = record {
  action = "system.update";
  audit_id = 7;
  resource = "system";
  username = "ada";
  uid = 1000;
}

abbrev initial : Store (memory Job)
initial = record { bucket = empty; max_records = 2 }

-- A job is queued, started and completed, and two more are queued.
abbrev queued : Store (memory Job)
queued = (enqueue (memory Job) fair initial update_system 5000000).0

abbrev running : Store (memory Job)
running = (start (memory Job) fair queued 1 7000000).0

abbrev done : Store (memory Job)
done = (complete (memory Job) fair running 1 status_succeeded "" true 19000000).0

abbrev second : Store (memory Job)
second = (enqueue (memory Job) fair done update_system 20000000).0

abbrev third : Store (memory Job)
third = (enqueue (memory Job) fair second update_system 21000000).0

abbrev first_job : Job
first_job = new_job update_system 5000000 1

abbrev map_ids : Map ℕ (Option Job) → List ℕ
map_ids [] = []
map_ids ((k, v) ∷ m) = k ∷ map_ids m

queued_runs : enqueue (memory Job) fair initial update_system 5000000 ≡ (queued, ok first_job)
unfolding enqueue start complete update lookup trim_oldest trim put_entry new_job start_change
    complete_change finish_job active_status final_status
queued_runs = refl

running_runs : start (memory Job) fair queued 1 7000000 ≡ (running, ok tt)
unfolding enqueue start complete update lookup trim_oldest trim put_entry new_job start_change
    complete_change finish_job active_status final_status
running_runs = refl

done_runs : complete (memory Job) fair running 1 status_succeeded "" true 19000000 ≡ (done, ok tt)
unfolding enqueue start complete update lookup trim_oldest trim put_entry new_job start_change
    complete_change finish_job active_status final_status
done_runs = refl

-- The third record is one too many: the finished one goes.
third_holds : map_ids third.bucket.stored ≡ 2 ∷ 3 ∷ []
unfolding enqueue start complete update lookup trim_oldest trim put_entry new_job start_change
    complete_change finish_job active_status final_status oldest_finished erase
third_holds = refl

start_lem_example :
    (job : Job) × (lookup 1 queued.bucket.stored ≡ some (some job))
    × (job.status ≡ status_queued)
    × (lookup 1 running.bucket.stored
        ≡ some (some (record job { status = status_running; started_at = some 7000000 })))
start_lem_example = start_lem (memory Job) fair queued running 1 7000000 running_runs

complete_lem_example :
    (job : Job) × (lookup 1 running.bucket.stored ≡ some (some job))
    × (job.status ≡ status_running)
    × (final_status status_succeeded ≡ true)
    × ((lookup 1 done.bucket.stored
          ≡ some (some (finish_job job 19000000 status_succeeded "" true)))
        ⊎ (lookup 1 done.bucket.stored ≡ none))
complete_lem_example =
    complete_lem (memory Job) fair running done 1 status_succeeded "" true 19000000 done_runs

enqueue_lem_example :
    (lookup 1 initial.bucket.stored ≡ none)
    × (lookup 1 queued.bucket.stored ≡ some (some first_job))
    × (first_job ≡ new_job update_system 5000000 1)
    × IsSequenced (memory Job) queued
unfolding enqueue start complete update lookup trim_oldest trim put_entry new_job start_change
    complete_change finish_job active_status final_status
enqueue_lem_example =
    enqueue_lem (memory Job) fair initial queued update_system 5000000 first_job tt queued_runs

third_runs :
    enqueue (memory Job) fair second update_system 21000000
    ≡ (third, ok (new_job update_system 21000000 3))
unfolding enqueue start complete update lookup trim_oldest trim put_entry new_job start_change
    complete_change finish_job active_status final_status oldest_finished erase
third_runs = refl

-- Starting a job again is refused.
write_failed_example : (write (memory Job) (starting fair 1 8000000) running).0 ≡ running
unfolding enqueue start complete update lookup trim_oldest trim put_entry new_job start_change
    complete_change finish_job active_status final_status write
write_failed_example =
    write_failed (memory Job) (starting fair 1 8000000) running invalid_transition refl

abbrev running_job : Job
running_job = record first_job { status = status_running; started_at = some 7000000 }

write-active_kept_example :
    (lookup 1 (write (memory Job) (enqueuing fair update_system 8000000) running).0.bucket.stored
      ≡ some (some running_job))
    × IsSequenced (memory Job) (write (memory Job) (enqueuing fair update_system 8000000) running).0
unfolding enqueue start complete update lookup trim_oldest trim put_entry new_job start_change
    complete_change finish_job active_status final_status
write-active_kept_example =
    write-active_kept (memory Job) (enqueuing fair update_system 8000000) running 1 running_job
      (ground arith, tt) (λ e. cc) refl refl

reopened : Result JobError (Store (memory Job))
reopened = open_store (memory Job) running.bucket.stored (pos 2) false running.bucket 30000000

abbrev recovered_job : Job
recovered_job = finish_job running_job 30000000 "unknown" "" false

abbrev recovered_store : Store (memory Job)
recovered_store = record {
  bucket = (memory Job).put 1 (some recovered_job) running.bucket;
  max_records = 2;
}

open_store-recovered_example :
    (job : Job) × (lookup 1 running.bucket.stored ≡ some (some job))
    × (some recovered_job ≡ some (recovered 30000000 job))
    × (active_status (recovered 30000000 job).status ≡ false)
unfolding enqueue start complete update lookup trim_oldest trim put_entry new_job start_change
    complete_change finish_job active_status final_status open_store recover recover_all
open_store-recovered_example =
    open_store-recovered (memory Job) running.bucket.stored (pos 2) false running.bucket 30000000 1
      recovered_store (some recovered_job) (tt, tt) refl refl refl

abbrev done_job : Job
done_job = finish_job running_job 19000000 status_succeeded "" true

abbrev succeeded_jobs : Filter
succeeded_jobs = record { limit = pos 0; action = ""; status = status_succeeded }

list_total_example :
    (jobs : List Job) × (list
        (memory Job)
        false
        (λ i. false)
        (record { limit = pos 1; action = "system.update"; status = "queued" })
        second.bucket
      ≡ ok jobs)
unfolding enqueue start complete update lookup trim_oldest trim put_entry new_job start_change
    complete_change finish_job active_status final_status valid_status
list_total_example =
    list_total (memory Job) (λ i. false) 1 "system.update" "queued" second.bucket (λ j. refl)
      ((λ e. cc), ((λ e. cc), tt)) refl
