-- ===== src/Tests/Locks.antt =====
-- Two threads at the lock of one resource: the first holds it, the second waits.
use pilothouse.Base.{
  ℕ, zero, suc, ◌≡◌, ◌≢◌, refl, ◌<◌, true, some, is_some, insert, lookup, get_elem?, string_eq,
}
use pilothouse.Broker.Locks.{
  ResourceLocks, new_resource_locks, try_lock, lock_enter, update, receive, send, release_reference,
}
use pilothouse.Broker.Locks.Threads.{
  idle, waiting, holding, releasing, World, tried, entered, sent, released, moved,
}
use pilothouse.Broker.Locks.Invariant.{Reach, here, next, start}
use pilothouse.Broker.Locks.Exclusion.{mutual_exclusion, unlock_safe, waiting_receives}

abbrev held : World
held = moved (start 2) 0 (try_lock (start 2).store "disk").0 (holding "disk" 0)

abbrev contended : World
contended = moved held 1 (lock_enter held.store "disk").0 (waiting "disk" 0)

held-Reach : Reach (start 2) held
unfolding try_lock new_resource_locks lookup insert
held-Reach = next here (tried 0 "disk" (try_lock (start 2).store "disk").0 0 refl refl)

contended-Reach : Reach (start 2) contended
unfolding try_lock lock_enter new_resource_locks lookup insert
contended-Reach = next held-Reach (entered 1 "disk" refl)

abbrev first : ℕ
first = 0

mutual_exclusion_example : first ≡ first
mutual_exclusion_example =
    mutual_exclusion 2 contended first first "disk" 0 0 contended-Reach refl refl

unlock_safe_example :
    (is_some (send contended.store 0) ≡ true) × (0 < (contended.store.heap 0).refs)
unlock_safe_example = unlock_safe 2 contended 0 "disk" 0 contended-Reach refl

-- The first thread has sent the token back.
abbrev with_token : ResourceLocks → ResourceLocks
with_token l = record l { heap = update l.heap 0 (record (l.heap 0) { ready = true }) }

abbrev between : World
between = moved contended 0 (with_token contended.store) (releasing "disk" 0)

between-Reach : Reach (start 2) between
unfolding try_lock lock_enter new_resource_locks lookup insert send
between-Reach = next contended-Reach (sent 0 "disk" 0 (with_token contended.store) refl refl)

nobody_holds : (j b : ℕ) → get_elem? between.threads j ≢ some (holding "disk" b)
nobody_holds zero b e = cc
nobody_holds (suc zero) b e = cc
nobody_holds (suc (suc j)) b e = cc

waiting_receives_example : is_some (receive between.store 0) ≡ true
waiting_receives_example = waiting_receives 2 between 1 "disk" 0 between-Reach refl nobody_holds

-- The first thread alone takes the lock and gives it back.
abbrev returned : World
returned = moved held 0 (with_token held.store) (releasing "disk" 0)

abbrev rested : World
rested = moved returned 0 (release_reference returned.store "disk" 0) idle

rested-Reach : Reach (start 2) rested
unfolding try_lock lock_enter new_resource_locks lookup insert send
rested-Reach =
    next (next held-Reach (sent 0 "disk" 0 (with_token held.store) refl refl))
      (released 0 "disk" 0 refl)
