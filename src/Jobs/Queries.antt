-- ===== src/Jobs/Queries.antt =====
-- `List` and `RebootRequiredSince` of internal/jobs/jobs.go. The cursor goes from the last key to
-- the first; `done i` says whether the context is done at the i-th reading inside the loop.
use pilothouse.Base.{
  ℕ, suc, ◌≡◌, ◌≢◌, refl, String, Bool, true, false, not, ◌&&◌, ◌||◌, Option, none, some, List, [],
  ◌∷◌, Map, string_eq, nat_eq, ◌==◌, All, arith, Result, ok, err, Bool-cases, inl, inr,
  if◌then◌else◌, pos, negsuc, ltb, take, any, keep_if, reverse,
}
use pilothouse.Store.{Bolt}
use pilothouse.Store.Listing.{
  ListFault, stopped, undecodable, list_entries, values, list_entries-eq-ok, list_entries_total,
}
use pilothouse.Jobs.{
  Job, JobError, Filter, valid_status, status_succeeded, max_list_limit, context_done,
  decode_failed, negative_limit, invalid_filter,
}

-- The two tests that `continue` the loop of `List`, negated.
unfoldable pub is_listed : Filter → Job → Bool
is_listed filter job =
    (filter.action == "" || job.action == filter.action)
    && (filter.status == "" || job.status == filter.status)

-- `limit == 0 || limit > maxListLimit`
abbrev pub effective_limit : ℕ → ℕ
effective_limit n = if n == 0 || ltb max_list_limit n then max_list_limit else n

-- The test on the status filter.
abbrev pub bad_filter : String → Bool
bad_filter status = not (status == "") && not (valid_status status)

-- Does the job ask for a reboot after `since`?
unfoldable pub asks_reboot : ℕ → Job → Bool
asks_reboot since job = elim job.finished_at [
  | none ↦ false
  | some at ↦ job.status == status_succeeded && (job.reboot_required && ltb since at)
]

unfoldable pub reboot_loop : (ℕ → Bool) → ℕ → ℕ → Map ℕ (Option Job) → Result JobError Bool
reboot_loop done since i [] = ok false
reboot_loop done since i ((k, none) ∷ m) = if done i then err context_done else err decode_failed
reboot_loop done since i ((k, some job) ∷ m) =
    let rest = reboot_loop done since (suc i) m in
    if done i then err context_done else if asks_reboot since job then ok true else rest

reboot_loop-eq-ok :
    (done : ℕ → Bool) (since i : ℕ) (m : Map ℕ (Option Job)) (r : Bool)
    → reboot_loop done since i m ≡ ok r
    → r ≡ any (asks_reboot since) (values m)
unfolding reboot_loop
reboot_loop-eq-ok done since i [] r h = ground arith
reboot_loop-eq-ok done since i ((k, none) ∷ m) r h = absurd (ground arith)
reboot_loop-eq-ok done since i ((k, some job) ∷ m) r h =
    ground (arith, reboot_loop-eq-ok done since (suc i) m r)

reboot_loop_total :
    (done : ℕ → Bool) (since i : ℕ) (m : Map ℕ (Option Job))
    → ((j : ℕ) → done j ≡ false)
    → All (λ e. e.1 ≢ none) m
    → (r : Bool) × (reboot_loop done since i m ≡ ok r)
unfolding reboot_loop
reboot_loop_total done since i [] going decoded = (false, refl)
reboot_loop_total done since i ((k, none) ∷ m) going decoded = absurd (decoded.0 refl)
reboot_loop_total done since i ((k, some job) ∷ m) going decoded =
    let (r, e) = reboot_loop_total done since (suc i) m going decoded.1 in
    elim (Bool-cases (asks_reboot since job)) [
      | inl asks ↦ (true, rw (going i, asks))
      | inr quiet ↦ (r, rw (going i, quiet, e))
    ]

module _ (bolt : Bolt Job) where
  open bolt use {Bucket, entries}

  of_list : Result ListFault (List Job) → Result JobError (List Job)
  of_list (ok jobs) = ok jobs
  of_list (err stopped) = err context_done
  of_list (err undecodable) = err decode_failed

  of_list-eq-ok :
      (r : Result ListFault (List Job)) (jobs : List Job) → of_list r ≡ ok jobs → r ≡ ok jobs
  unfolding of_list
  of_list-eq-ok (ok xs) jobs h = ground arith
  of_list-eq-ok (err stopped) jobs h = absurd (ground arith)
  of_list-eq-ok (err undecodable) jobs h = absurd (ground arith)

  -- `List` on the bucket of the store.
  unfoldable pub list : Bool → (ℕ → Bool) → Filter → Bucket → Result JobError (List Job)
  unfolding of_list
  list done_before done filter b = if done_before then err context_done else elim filter.limit [
    | negsuc n ↦ err negative_limit
    | pos n ↦
        if bad_filter filter.status
        then err invalid_filter
        else of_list
            (list_entries done (is_listed filter) 0 (effective_limit n) (reverse (entries b)))
  ]

  -- `RebootRequiredSince`
  unfoldable pub reboot_required_since : Bool → (ℕ → Bool) → ℕ → Bucket → Result JobError Bool
  reboot_required_since done_before done since b =
      if done_before then err context_done else reboot_loop done since 0 (reverse (entries b))

  -- What `List` returns is the newest jobs that the filter accepts, newest first, as many as the
  -- limit allows (100 where it is 0 or larger).
  pub list_lem :
      (done_before : Bool) (done : ℕ → Bool) (n : ℕ) (filter : Filter) (b : Bucket)
      (jobs : List Job)
      → filter.limit ≡ pos n
      → list done_before done filter b ≡ ok jobs
      → jobs ≡ take (effective_limit n) (keep_if (is_listed filter) (values (reverse (entries b))))
  unfolding list
  list_lem done_before done n filter b jobs e h = elim (Bool-cases done_before) [
    | inl stop ↦ absurd (ground arith)
    | inr going ↦ elim (Bool-cases (bad_filter filter.status)) [
      | inl bad ↦ absurd (ground arith)
      | inr good ↦
          list_entries-eq-ok done (is_listed filter) 0 (effective_limit n) (reverse (entries b))
            jobs (of_list-eq-ok _ jobs (ground arith))
    ]
  ]

  -- `List` succeeds while the context is not done and every entry decodes, for a limit that is not
  -- negative and a status filter that is empty or a status.
  pub list_total :
      (done : ℕ → Bool) (n : ℕ) (action status : String) (b : Bucket)
      → ((j : ℕ) → done j ≡ false)
      → All (λ e. e.1 ≢ none) (reverse (entries b))
      → bad_filter status ≡ false
      → (jobs : List Job) × (list false done
            (record { limit = pos n; action = action; status = status })
            b
          ≡ ok jobs)
  unfolding list of_list
  list_total done n action status b going decoded good =
      let filter : Filter = record { limit = pos n; action = action; status = status } in
      let (jobs, e) =
        list_entries_total done (is_listed filter) 0 (effective_limit n) (reverse (entries b)) going
          decoded in
      (jobs, rw (good, e))

  -- `RebootRequiredSince` answers whether any stored job succeeded, asks for a reboot and finished
  -- after the given time.
  pub reboot_required_since_lem :
      (done_before : Bool) (done : ℕ → Bool) (since : ℕ) (b : Bucket) (r : Bool)
      → reboot_required_since done_before done since b ≡ ok r
      → r ≡ any (asks_reboot since) (values (reverse (entries b)))
  unfolding reboot_required_since
  reboot_required_since_lem done_before done since b r h = elim (Bool-cases done_before) [
    | inl stop ↦ absurd (ground arith)
    | inr going ↦ reboot_loop-eq-ok done since 0 _ r (rw going at h)
  ]
