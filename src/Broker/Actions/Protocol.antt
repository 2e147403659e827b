-- ===== src/Broker/Actions/Protocol.antt =====
-- The order of what the execution of an action does.
use pilothouse.Base.{
  ℕ, ◌≡◌, refl, String, Bool, true, false, not, ◌&&◌, ◌||◌, Option, none, some, List, [], ◌∷◌, ◌++◌,
  string_eq, nat_eq, ◌==◌, arith, if◌then◌else◌, Result, ok, err, Result-cases, Bool-cases,
  Option-cases, inl, inr, eq_refl, append_assoc,
}
use pilothouse.Auth.{Identity}
use pilothouse.Broker.Actions.{
  Fault, ActionRegistry, Admission, Answers, Event, locked, released, began, completed, enqueued,
  started, job_completed, handled, problem, Task, run_background, record_problem, foreground,
  background, after_begin, after_lock, perform,
}
use pilothouse.Broker.Actions.Effects.{all_events, is_ok, acquires}

-- The lock and the record of a call, as its events tell them.
pub data LockPhase : Type 0 where
  untaken given_back : LockPhase
  holding : String → LockPhase

pub data RecordPhase : Type 0 where
  unbegun settled : RecordPhase
  pending : ℕ → RecordPhase

abbrev pub is_held : LockPhase → Bool
is_held untaken = false
is_held given_back = false
is_held (holding s) = true

abbrev pub is_untaken : LockPhase → Bool
is_untaken untaken = true
is_untaken given_back = false
is_untaken (holding s) = false

abbrev pub holds : LockPhase → String → Bool
holds untaken s = false
holds given_back s = false
holds (holding t) s = t == s

abbrev pub is_pending : RecordPhase → Bool
is_pending unbegun = false
is_pending settled = false
is_pending (pending i) = true

abbrev pub is_unbegun : RecordPhase → Bool
is_unbegun unbegun = true
is_unbegun settled = false
is_unbegun (pending i) = false

abbrev pub is_record : RecordPhase → ℕ → Bool
is_record unbegun i = false
is_record settled i = false
is_record (pending j) i = j == i

-- What beginning a record makes of it: `begun` has the number that the audit store gives, if any.
abbrev pub after_begun : Option ℕ → RecordPhase
after_begun none = settled
after_begun (some i) = pending i

abbrev pub begun_number : Result Fault ℕ → Option ℕ
begun_number (ok i) = some i
begun_number (err f) = none

-- What a list of events is read as: the lock is only taken where it was not taken before, and only
-- the one that is held is given back; a record is begun under the lock, and not after another one;
-- the handler runs under the lock, with a record pending where there is an audit store; a job is
-- queued under the number of the pending record, and started and completed under the lock, with a
-- record pending; only the pending record is completed, by its number, and is then settled. The
-- result is `none` where this is broken or the lock is left, and else whether a record is left
-- pending.
unfoldable pub follows :
    (audited : Bool) (number : Option ℕ) → LockPhase → RecordPhase → List Event → Option Bool
follows audited number lock record_phase [] =
    if is_held lock then none else some (is_pending record_phase)
follows audited number lock record_phase (locked s ∷ es) =
    if is_untaken lock then follows audited number (holding s) record_phase es else none
follows audited number lock record_phase (released s ∷ es) =
    if holds lock s then follows audited number given_back record_phase es else none
follows audited number lock record_phase (began a s u i ∷ es) =
    if is_held lock && is_unbegun record_phase
    then follows audited number lock (after_begun number) es
    else none
follows audited number lock record_phase (completed i o c ∷ es) =
    if is_record record_phase i then follows audited number lock settled es else none
follows audited number lock record_phase (enqueued a i s u n ∷ es) =
    if is_held lock && is_record record_phase i
    then follows audited number lock record_phase es
    else none
follows audited number lock record_phase (started j ∷ es) =
    if is_held lock && is_pending record_phase
    then follows audited number lock record_phase es
    else none
follows audited number lock record_phase (job_completed j s c b ∷ es) =
    if is_held lock && is_pending record_phase
    then follows audited number lock record_phase es
    else none
follows audited number lock record_phase (handled m ∷ es) =
    if is_held lock && (is_pending record_phase || not audited)
    then follows audited number lock record_phase es
    else none
follows audited number lock record_phase (problem c f ∷ es) =
    follows audited number lock record_phase es

-- The record of a call whose beginning gave the number `rid`, where there is an audit store.
abbrev pub record_of : Bool → ℕ → RecordPhase
record_of audited rid = if audited then pending rid else unbegun

pub follows_nothing :
    (audited : Bool) (number : Option ℕ) → follows audited number untaken unbegun [] ≡ some false
unfolding follows
follows_nothing audited number = refl

pub problem_follows :
    (audited : Bool) (number : Option ℕ) (lock : LockPhase) (record_phase : RecordPhase) (b : Bool)
    (code : String) (o : Option Fault) (xs : List Event)
    → follows audited number lock record_phase (record_problem b code o ++ xs)
      ≡ follows audited number lock record_phase xs
unfolding record_problem follows
problem_follows audited number lock record_phase b code o xs = ground arith

-- Does the branch leave a record open?
abbrev pub left_open : ActionRegistry → Admission → Bool
left_open r a = a.definition.background && r.has_audit && not r.has_jobs

module _ (r : ActionRegistry) (now later : Answers) (identity : Identity) (id : String)
    (number : Option ℕ) where
  follows_task :
      (t : Task)
      → follows true number
          (holding t.admission.lock_resource)
          (pending t.record_id)
          (run_background r.has_problems later t)
        ≡ some false
  unfolding run_background follows
  follows_task t = elim (Option-cases later.start) [
    | inl going ↦ rw going (simp (problem_follows, eq_refl))
    | inr (f, failed) ↦ rw failed (simp (problem_follows, eq_refl))
  ]

  follows-foreground :
      (a : Admission) (rid : ℕ)
      → follows r.has_audit number
          (holding a.lock_resource)
          (record_of r.has_audit rid)
          (all_events r.has_problems later (foreground r now identity id a rid))
        ≡ some false
  unfolding foreground follows
  follows-foreground a rid = elim (Bool-cases r.has_audit) [
    | inl has ↦ rw has (simp (problem_follows, append_assoc, eq_refl))
    | inr lacks ↦ rw (lacks, eq_refl)
  ]

  -- Without a job store the record stays open.
  follows_background :
      (a : Admission) (rid : ℕ)
      → follows r.has_audit number
          (holding a.lock_resource)
          (record_of r.has_audit rid)
          (all_events r.has_problems later (background r now identity id a rid))
        ≡ some (r.has_audit && not r.has_jobs)
  unfolding background follows
  follows_background a rid = elim (Bool-cases r.has_audit) [
    | inr lacks ↦ elim (Bool-cases r.has_jobs) [
      | inl jobs ↦ rw (lacks, jobs, eq_refl)
      | inr none_set ↦ rw (lacks, none_set, eq_refl)
    ]
    | inl has ↦ elim (Bool-cases r.has_jobs) [
      | inr lacks ↦ rw (has, lacks, eq_refl)
      | inl jobs ↦ elim (Result-cases now.enqueue) [
        | inl (job, queued) ↦
            let t : Task = record {
              admission = a;
              identity = identity;
              record_id = rid;
              job = job;
            } in
            rw (has, jobs, queued, eq_refl rid) (follows_task t)
        | inr (f, failed) ↦ rw (has, jobs, failed) (simp (problem_follows, append_assoc, eq_refl))
      ]
    ]
  ]

  follows-after_begin :
      (a : Admission) (rid : ℕ)
      → follows r.has_audit number
          (holding a.lock_resource)
          (record_of r.has_audit rid)
          (all_events r.has_problems later (after_begin r now identity id a rid))
        ≡ some (left_open r a)
  unfolding after_begin
  follows-after_begin a rid = ground (arith, follows_background a rid, follows-foreground a rid)

module _ (r : ActionRegistry) (now later : Answers) (identity : Identity) (id : String) where
  follows-after_lock :
      (a : Admission)
      → follows r.has_audit
          (begun_number now.begin)
          (holding a.lock_resource)
          unbegun
          (all_events r.has_problems later (after_lock r now identity id a))
        ≡ some (is_ok now.begin && left_open r a)
  unfolding after_lock follows
  follows-after_lock a = elim (Bool-cases r.has_audit) [
    | inr lacks ↦
        ground (arith, follows-after_begin r now later identity id (begun_number now.begin) a 0)
    | inl has ↦ elim (Result-cases now.begin) [
      | inl (rid, begun) ↦
          ground (arith, follows-after_begin r now later identity id (begun_number now.begin) a rid)
      | inr (f, failed) ↦ rw (has, failed) (simp (problem_follows, append_assoc, eq_refl))
    ]
  ]

  pub follows-perform :
      (a : Admission)
      → follows r.has_audit
          (begun_number now.begin)
          untaken
          unbegun
          (all_events r.has_problems later (perform r now identity id a))
        ≡ some (acquires now a && is_ok now.begin && left_open r a)
  unfolding perform follows
  follows-perform a = ground (arith, follows-after_lock a)
