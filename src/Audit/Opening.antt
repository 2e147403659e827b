-- ===== src/Audit/Opening.antt =====
-- What the audit store gives after a restart, and what it lists.
use pilothouse.Base.{
  ℕ, zero, suc, ◌-◌, ◌≡◌, refl, Bool, false, not, ◌&&◌, Option, none, some, List, Map, nat_eq,
  string_eq, ◌==◌, lookup, arith, length, Result, ok, err, >>=-eq-ok, Bool-cases, inl, inr, ℤ, pos,
  negsuc, if◌then◌else◌, take, keep_if, reverse,
}
use pilothouse.Store.{Bolt, IsAscending}
use pilothouse.Store.Entries.{drop_finished_sub}
use pilothouse.Store.Recovery.{recover_all, recovered_from, finished_now}
use pilothouse.Store.Listing.{ListFault, stopped, undecodable, values, list_entries-eq-ok}
use pilothouse.Audit.{
  AuditRecord, AuditError, AuditStore, Filter, is_started, is_ended, interrupted, open_store,
  open_tx, opened, decoded, finish_record, list, of_list, effective_limit, is_listed, valid_outcome,
}
use pilothouse.Audit.Writes.{trim_oldest_pass}

module _ (bolt : Bolt AuditRecord) where
  open bolt use {Bucket, entries}

  decoded-eq-ok : (o : Option Bucket) (b : Bucket) → decoded bolt o ≡ ok b → o ≡ some b
  decoded-eq-ok none b h = absurd (ground arith)
  decoded-eq-ok (some c) b h = ground arith

  opened-eq-ok :
      (n : ℕ) (fails : Bool) (r : Result AuditError Bucket) (s : AuditStore bolt)
      → opened bolt n fails r ≡ ok s
      → r ≡ ok s.bucket
  unfolding opened
  opened-eq-ok n fails (err e) s h = absurd (ground arith)
  opened-eq-ok n fails (ok b) s h = ground arith

  finished_now_ended :
      (now : ℕ) (r : AuditRecord)
      → is_started (finished_now is_started (interrupted bolt now) bolt r) ≡ false
  unfolding finish_record
  finished_now_ended now r = elim (Bool-cases (is_started r)) [
    | inl going ↦ rw going refl
    | inr ended ↦ rw ended ended
  ]

  -- Where the cursor goes through the keys in ascending order and gives a record as it stands, the
  -- record that is stored under its number after a restart is no started one, and is what the restart
  -- makes of the record that stood there before it: a started one is finished with the outcome
  -- "unknown", any other is as it was.
  pub open_store-ended :
      (visited : Map ℕ (Option AuditRecord)) (max_records : ℤ) (commit_fails : Bool) (b : Bucket)
      (now id : ℕ) (s : AuditStore bolt) (v : Option AuditRecord)
      → IsAscending visited
      → lookup id visited ≡ lookup id (entries b)
      → open_store bolt visited max_records commit_fails b now ≡ ok s
      → lookup id (entries s.bucket) ≡ some v
      → (r : AuditRecord) × (lookup id (entries b) ≡ some (some r))
        × (v ≡ some (if is_started r then interrupted bolt now r else r))
        × (is_started (if is_started r then interrupted bolt now r else r) ≡ false)
  unfolding open_store open_tx
  open_store-ended visited (negsuc n) commit_fails b now id s v ascending met h found =
      absurd (ground arith)
  open_store-ended visited (pos zero) commit_fails b now id s v ascending met h found =
      absurd (ground arith)
  open_store-ended visited (pos (suc n)) commit_fails b now id s v ascending met h found =
      let tx = opened-eq-ok (suc n) commit_fails (open_tx bolt visited (suc n) b now) s h in
      let (b1, done, trimmed) =
        >>=-eq-ok (decoded bolt (recover_all is_started (interrupted bolt now) bolt visited b)) _
          tx in
      let before =
        drop_finished_sub is_ended (length (entries b1) - suc n) id v (entries b1)
          (entries s.bucket) (bolt.entries-IsAscending b1)
          (trim_oldest_pass bolt (suc n) b1 s.bucket trimmed) found in
      let (r, there, same) =
        recovered_from is_started (interrupted bolt now) bolt id visited b b1 v ascending met
          (decoded-eq-ok _ b1 done) before in
      (r, there, same, finished_now_ended now r)

  of_list-eq-ok :
      (r : Result ListFault (List AuditRecord)) (rs : List AuditRecord)
      → of_list bolt r ≡ ok rs
      → r ≡ ok rs
  unfolding of_list
  of_list-eq-ok (ok xs) rs h = ground arith
  of_list-eq-ok (err stopped) rs h = absurd (ground arith)
  of_list-eq-ok (err undecodable) rs h = absurd (ground arith)

  -- What `List` returns is the newest records that the filter accepts, newest first, as many as the
  -- limit allows (100 where it is 0 or larger).
  pub list-newest :
      (done_before : Bool) (done : ℕ → Bool) (n : ℕ) (filter : Filter) (b : Bucket)
      (rs : List AuditRecord)
      → filter.limit ≡ pos n
      → list bolt done_before done filter b ≡ ok rs
      → rs ≡ take (effective_limit n) (keep_if (is_listed filter) (values (reverse (entries b))))
  unfolding list
  list-newest done_before done n filter b rs e h = elim (Bool-cases done_before) [
    | inl stop ↦ absurd (ground arith)
    | inr going ↦
        elim (Bool-cases (not (filter.outcome == "") && not (valid_outcome filter.outcome))) [
          | inl bad ↦ absurd (ground arith)
          | inr good ↦
              list_entries-eq-ok done (is_listed filter) 0 (effective_limit n) (reverse (entries b))
                rs (of_list-eq-ok _ rs (ground arith))
        ]
  ]
