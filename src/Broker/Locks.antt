-- ===== src/Broker/Locks.antt =====
-- internal/broker/serialize.go: one lock for each resource, counted by reference.
-- An entry of the Go map is a pointer, so the model has a heap: `heap a` is the `resourceLock` at
-- address `a`. `ready` says whether the channel of capacity 1 holds its token. `refs` is an `int`
-- in the source and a natural number here, whose subtraction stops at 0.
pub mod Threads
mod Steps
mod Release
pub mod Invariant
pub mod Exclusion
use pilothouse.Base.{
  ℕ, ◌+◌, ◌-◌, String, Bool, true, false, Option, none, some, [], Map, string_eq, nat_eq, lookup,
  insert, erase, if◌then◌else◌, ◌==◌,
}

pub record ResourceLock : Type 0 where
  pub ready : Bool
  pub refs : ℕ

pub record ResourceLocks : Type 0 where
  pub locks : Map String ℕ
  pub heap : ℕ → ResourceLock
  pub next : ℕ

unfoldable pub new_resource_locks : ResourceLocks
new_resource_locks = record { locks = []; heap = λ _. record { ready = false; refs = 0 }; next = 0 }

abbrev pub update : (ℕ → ResourceLock) → ℕ → ResourceLock → ℕ → ResourceLock
update h a e b = if a == b then e else h b

-- `&resourceLock{…}` stored under the resource.
abbrev pub allocate : ResourceLocks → String → ResourceLock → ResourceLocks
allocate l resource e = record {
  locks = insert resource l.next l.locks;
  heap = update l.heap l.next e;
  next = l.next + 1;
}

-- `tryLock`: the address of the new entry, or `none` where the resource is taken.
try_at : ResourceLocks → String → Option ℕ → ResourceLocks × Option ℕ
try_at l resource (some a) = (l, none)
try_at l resource none = (allocate l resource (record { ready = false; refs = 1 }), some l.next)

unfoldable pub try_lock : ResourceLocks → String → ResourceLocks × Option ℕ
unfolding try_at
try_lock l resource = try_at l resource (lookup resource l.locks)

-- The part of `lock` under the mutex: find or make the entry, and count the reference.
enter_at : ResourceLocks → String → Option ℕ → ResourceLocks × ℕ
enter_at l resource (some a) = (
  record l {
    heap = update l.heap a (record { ready = (l.heap a).ready; refs = (l.heap a).refs + 1 });
  },
  a,
)
enter_at l resource none = (allocate l resource (record { ready = true; refs = 1 }), l.next)

unfoldable pub lock_enter : ResourceLocks → String → ResourceLocks × ℕ
unfolding enter_at
lock_enter l resource = enter_at l resource (lookup resource l.locks)

-- `<-entry.ready`: `none` while the receive blocks.
unfoldable pub receive : ResourceLocks → ℕ → Option ResourceLocks
receive l a =
    if (l.heap a).ready
    then some (record l { heap = update l.heap a (record (l.heap a) { ready = false }) })
    else none

-- `entry.ready <- struct{}{}`: `none` while the send blocks.
unfoldable pub send : ResourceLocks → ℕ → Option ResourceLocks
send l a =
    if (l.heap a).ready
    then none
    else some (record l { heap = update l.heap a (record (l.heap a) { ready = true }) })

-- `releaseReference`
unfoldable pub release_reference : ResourceLocks → String → ℕ → ResourceLocks
release_reference l resource a =
    let left = (l.heap a).refs - 1 in
    let heap = update l.heap a (record (l.heap a) { refs = left }) in
    if left == 0
    then record l { heap = heap; locks = erase resource l.locks }
    else record l { heap = heap }
