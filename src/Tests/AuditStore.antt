-- ===== src/Tests/AuditStore.antt =====
-- An audit store in memory for at most two records: a restart is recorded, and completed.
use pilothouse.Base.{
  ◌≡◌, refl, true, false, some, [], nat_eq, string_eq, lookup, pos, if◌then◌else◌,
}
use pilothouse.Store.{fair, put_entry}
use pilothouse.Store.Trim.{trim}
use pilothouse.Store.Recovery.{recover_all}
use pilothouse.Audit.{
  AuditRecord, AuditStore, Attempt, begin, begin_tx, complete, complete_value, store_record,
  trim_oldest, new_record, finish_record, is_final, open_store, open_tx, interrupted, is_started,
}
use pilothouse.Audit.Writes.{Written, begin-Written, complete-Written}
use pilothouse.Audit.Opening.{open_store-ended}
use pilothouse.Tests.Memory.{memory, empty}

abbrev attempt : Attempt
attempt = record {
  action = "service.restart";
  resource = "sshd.service";
  username = "ada";
  uid = 1000;
}

abbrev fresh : AuditStore (memory AuditRecord)
fresh = record { bucket = empty; max_records = 2 }

abbrev begun : AuditRecord
begun = new_record attempt 5000000 1

abbrev going : AuditStore (memory AuditRecord)
going = (begin (memory AuditRecord) fair fresh attempt 5000000).0

begin-Written_example :
    (begun ≡ new_record attempt 5000000 1)
    × (lookup 1 going.bucket.stored ≡ some (some begun))
    × Written (memory AuditRecord) 2 [] going.bucket 1 begun
unfolding begin begin_tx store_record trim_oldest trim put_entry new_record
begin-Written_example =
    begin-Written (memory AuditRecord) fair fresh going attempt 5000000 begun refl

abbrev ended : AuditStore (memory AuditRecord)
ended = (complete (memory AuditRecord) fair going 1 "succeeded" "" 9000000).0

complete-Written_example :
    (r : AuditRecord) × (lookup 1 going.bucket.stored ≡ some (some r))
    × (is_final "succeeded" ≡ true)
    × Written
        (memory AuditRecord)
        2
        going.bucket.stored
        ended.bucket
        1
        (finish_record r 9000000 "succeeded" "")
unfolding begin begin_tx complete complete_value store_record trim_oldest trim put_entry new_record
    lookup is_final finish_record
complete-Written_example =
    complete-Written (memory AuditRecord) fair going ended 1 "succeeded" "" 9000000 refl

abbrev reopened : AuditStore (memory AuditRecord)
reopened = record {
  bucket =
      (memory AuditRecord).put 1 (some (interrupted (memory AuditRecord) 8000000 begun))
        going.bucket;
  max_records = 2;
}

open_store-ended_example :
    (r : AuditRecord) × (lookup 1 going.bucket.stored ≡ some (some r))
    × (some (interrupted (memory AuditRecord) 8000000 begun)
        ≡ some (if is_started r then interrupted (memory AuditRecord) 8000000 r else r))
    × (is_started (if is_started r then interrupted (memory AuditRecord) 8000000 r else r) ≡ false)
unfolding open_store open_tx recover_all begin begin_tx store_record trim_oldest trim put_entry
    new_record lookup finish_record
open_store-ended_example =
    open_store-ended (memory AuditRecord) going.bucket.stored (pos 2) false going.bucket 8000000 1
      reopened (some (interrupted (memory AuditRecord) 8000000 begun)) (tt, tt) refl refl refl
