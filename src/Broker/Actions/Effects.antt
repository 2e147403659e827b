-- ===== src/Broker/Actions/Effects.antt =====
-- What the execution of an action does, in the foreground and with its background task.
use pilothouse.Base.{
  ℕ, ◌+◌, ◌≡◌, String, Bool, true, false, not, ◌&&◌, ◌||◌, Option, none, some, List, [], ◌∷◌, ◌++◌,
  string_eq, nat_eq, ◌==◌, arith, count, bit, if◌then◌else◌, Result, ok, err, Result-cases,
  Bool-cases, Option-cases, inl, inr, is_some, append_assoc,
}
use pilothouse.Auth.{Identity}
use pilothouse.Broker.Actions.{
  Fault, ActionDefinition, ActionRegistry, Admission, Answers, Event, locked, released, began,
  completed, handled, Task, Execution, run_background, record_problem, foreground, background,
  after_begin, after_lock, perform, outcome_succeeded,
}

abbrev pub is_locked : String → Event → Bool
is_locked s (locked t) = t == s
is_locked s _ = false

abbrev pub is_released : String → Event → Bool
is_released s (released t) = t == s
is_released s _ = false

abbrev pub is_handled : Event → Bool
is_handled (handled m) = true
is_handled _ = false

abbrev pub is_began : Event → Bool
is_began (began a r u i) = true
is_began _ = false

abbrev pub is_completed : Event → Bool
is_completed (completed i o c) = true
is_completed _ = false

abbrev pub is_success : Event → Bool
is_success (completed i o c) = o == outcome_succeeded
is_success _ = false

abbrev pub task_events : Bool → Answers → Option Task → List Event
task_events has_problems later none = []
task_events has_problems later (some t) = run_background has_problems later t

-- All that an execution does, its background task included, which meets answers of its own.
abbrev pub all_events : Bool → Answers → Execution → List Event
all_events has_problems later x = x.events ++ task_events has_problems later x.task

count-append :
    (p : Event → Bool) (xs ys : List Event) → count p (xs ++ ys) ≡ count p xs + count p ys
count-append p [] ys = omega arith
count-append p (x ∷ xs) ys = omega (arith, count-append p xs ys)

-- A record of a problem is none of these.
module _ (b : Bool) (code : String) (o : Option Fault) (xs : List Event) where
  problem_locked :
      (s : String) → count (is_locked s) (record_problem b code o ++ xs) ≡ count (is_locked s) xs
  unfolding record_problem
  problem_locked s = ground arith

  problem_released :
      (s : String)
      → count (is_released s) (record_problem b code o ++ xs) ≡ count (is_released s) xs
  unfolding record_problem
  problem_released s = ground arith

  problem_handled : count is_handled (record_problem b code o ++ xs) ≡ count is_handled xs
  unfolding record_problem
  problem_handled = ground arith

  problem_began : count is_began (record_problem b code o ++ xs) ≡ count is_began xs
  unfolding record_problem
  problem_began = ground arith

  problem_completed : count is_completed (record_problem b code o ++ xs) ≡ count is_completed xs
  unfolding record_problem
  problem_completed = ground arith

  problem_success : count is_success (record_problem b code o ++ xs) ≡ count is_success xs
  unfolding record_problem
  problem_success = ground arith

ruleset problems = (
  problem_locked, problem_released, problem_handled, problem_began, problem_completed,
  problem_success,
)

-- What a list of events comes to, for the lock of a resource.
abbrev pub Tally : Type 0
Tally = record { locks : ℕ; releases : ℕ; handlers : ℕ; begins : ℕ; completions : ℕ; successes : ℕ }

abbrev pub tally : String → List Event → Tally
tally s es = record {
  locks = count (is_locked s) es;
  releases = count (is_released s) es;
  handlers = count is_handled es;
  begins = count is_began es;
  completions = count is_completed es;
  successes = count is_success es;
}

abbrev pub is_ok : Result Fault ℕ → Bool
is_ok (ok n) = true
is_ok (err f) = false

-- Was the lock taken?
abbrev pub acquires : Answers → Admission → Bool
acquires now a =
    if a.definition.background || a.definition.non_blocking
    then now.acquired
    else not (is_some now.lock_wait)

-- Does the task get as far as the handler?
abbrev pub runs : Option Fault → ℕ
runs none = 1
runs (some f) = 0

-- Does it end in success?
abbrev pub succeeds : Answers → Option Fault → Bool
succeeds later result =
    not (is_some later.start) && not (is_some later.job_complete) && not (is_some result)

abbrev pub succeeds_of : Answers → Result Fault ℕ → Option Fault → Bool
succeeds_of later (err f) result = false
succeeds_of later (ok job) result = succeeds later result

-- Does the background branch?
abbrev pub handlers_of : Option Fault → Result Fault ℕ → ℕ
handlers_of start (err f) = 0
handlers_of start (ok job) = runs start

module _ (r : ActionRegistry) (now later : Answers) (identity : Identity) (id : String) where
  abbrev pub whole : Execution → List Event
  whole x = all_events r.has_problems later x

  tally_task :
      (t : Task) (s : String)
      → tally s (run_background r.has_problems later t) ≡ record {
        locks = 0;
        releases = bit (t.admission.lock_resource == s);
        handlers = runs later.start;
        begins = 0;
        completions = 1;
        successes =
            bit (succeeds later (t.admission.definition.handler t.identity t.admission.parameters));
      }
  unfolding run_background
  tally_task t s = elim (Option-cases later.start) [
    | inl going ↦
        elim (Option-cases (t.admission.definition.handler t.identity t.admission.parameters)) [
          | inl good ↦ elim (Option-cases later.job_complete) [
            | inl recorded ↦ rw (going, good, recorded) (simp problems (ground arith))
            | inr (g, lost) ↦ rw (going, good, lost) (simp problems (ground arith))
          ]
          | inr (f, bad) ↦ elim (Option-cases later.job_complete) [
            | inl recorded ↦ rw (going, bad, recorded) (simp problems (ground arith))
            | inr (g, lost) ↦ rw (going, bad, lost) (simp problems (ground arith))
          ]
        ]
    | inr (f, failed) ↦ rw failed (simp problems (ground arith))
  ]

  tally-foreground :
      (a : Admission) (rid : ℕ) (s : String)
      → tally s (whole (foreground r now identity id a rid)) ≡ record {
        locks = 0;
        releases = bit (a.lock_resource == s);
        handlers = 1;
        begins = 0;
        completions = bit r.has_audit;
        successes = bit (r.has_audit && not (is_some (a.definition.handler identity a.parameters)));
      }
  unfolding foreground
  tally-foreground a rid s = elim (Bool-cases r.has_audit) [
    | inl has ↦ elim (Option-cases (a.definition.handler identity a.parameters)) [
      | inl good ↦ rw (has, good) (simp (problems, append_assoc) (ground arith))
      | inr (f, bad) ↦ rw (has, bad) (simp (problems, append_assoc) (ground arith))
    ]
    | inr lacks ↦ rw lacks (ground arith)
  ]

  tally_background :
      (a : Admission) (rid : ℕ) (s : String)
      → tally s (whole (background r now identity id a rid)) ≡ record {
        locks = 0;
        releases = bit (a.lock_resource == s);
        handlers =
            if not r.has_jobs || not r.has_audit then 0 else handlers_of later.start now.enqueue;
        begins = 0;
        completions = if not r.has_jobs || not r.has_audit then 0 else 1;
        successes = bit (
            r.has_jobs
            && r.has_audit
            && succeeds_of later now.enqueue (a.definition.handler identity a.parameters));
      }
  unfolding background
  tally_background a rid s = elim (Bool-cases (not r.has_jobs || not r.has_audit)) [
    | inl lacks ↦ rw lacks (ground arith)
    | inr has ↦ elim (Result-cases now.enqueue) [
      | inl (job, queued) ↦
          let t : Task = record {
            admission = a;
            identity = identity;
            record_id = rid;
            job = job;
          } in
          rw (has, queued) (ground (arith, tally_task t s))
      | inr (f, failed) ↦ rw (has, failed) (simp (problems, append_assoc) (ground arith))
    ]
  ]

  -- Is an audit record, once begun, completed? Not where a background action has no job store.
  abbrev pub completions_of : ActionDefinition → ℕ
  completions_of d = if d.background then bit (r.has_jobs && r.has_audit) else bit r.has_audit

  abbrev pub handlers_after : ActionDefinition → ℕ
  handlers_after d =
      if d.background
      then (if not r.has_jobs || not r.has_audit then 0 else handlers_of later.start now.enqueue)
      else 1

  abbrev pub successes_after : Admission → Bool
  successes_after a =
      r.has_audit
      && (if a.definition.background
          then r.has_jobs
            && succeeds_of later now.enqueue (a.definition.handler identity a.parameters)
          else not (is_some (a.definition.handler identity a.parameters)))

  tally-after_begin :
      (a : Admission) (rid : ℕ) (s : String)
      → tally s (whole (after_begin r now identity id a rid)) ≡ record {
        locks = 0;
        releases = bit (a.lock_resource == s);
        handlers = handlers_after a.definition;
        begins = 0;
        completions = completions_of a.definition;
        successes = bit (successes_after a);
      }
  unfolding after_begin
  tally-after_begin a rid s = ground (arith, tally_background a rid s, tally-foreground a rid s)

  tally-after_lock :
      (a : Admission) (s : String)
      → tally s (whole (after_lock r now identity id a)) ≡ record {
        locks = 0;
        releases = bit (a.lock_resource == s);
        handlers = if r.has_audit && not (is_ok now.begin) then 0 else handlers_after a.definition;
        begins = bit r.has_audit;
        completions = if is_ok now.begin then completions_of a.definition else 0;
        successes = bit (is_ok now.begin && successes_after a);
      }
  unfolding after_lock
  tally-after_lock a s = elim (Bool-cases r.has_audit) [
    | inr lacks ↦ ground (arith, tally-after_begin a 0 s)
    | inl has ↦ elim (Result-cases now.begin) [
      | inl (rid, begun) ↦ ground (arith, tally-after_begin a rid s)
      | inr (f, failed) ↦ rw (has, failed) (simp (problems, append_assoc) (ground arith))
    ]
  ]

  pub tally-perform :
      (a : Admission) (s : String)
      → tally s (whole (perform r now identity id a)) ≡ record {
        locks = bit (acquires now a && a.lock_resource == s);
        releases = bit (acquires now a && a.lock_resource == s);
        handlers =
            if acquires now a && (is_ok now.begin || not r.has_audit)
            then handlers_after a.definition
            else 0;
        begins = bit (acquires now a && r.has_audit);
        completions = if acquires now a && is_ok now.begin then completions_of a.definition else 0;
        successes = bit (acquires now a && is_ok now.begin && successes_after a);
      }
  unfolding perform
  tally-perform a s = elim (Bool-cases (acquires now a)) [
    | inl got ↦ ground (arith, tally-after_lock a s)
    | inr busy ↦ ground arith
  ]
