-- ===== src/Broker/Locks/Threads.antt =====
-- The callers of the locks as threads, one atomic step at a time: each step is the part of a method
-- under the mutex, or one operation on the channel.
use pilothouse.Base.{
  ℕ, ◌+◌, ◌<◌, ◌≤◌, ◌≡◌, String, Bool, false, none, some, List, [], ◌∷◌, arith, lookup, string_eq,
  nat_eq, ◌==◌, count, bit, get_elem?, set, All,
}
use pilothouse.Broker.Locks.{ResourceLocks, try_lock, lock_enter, receive, send, release_reference}

-- Where a thread stands. `waiting` is the `select` of `lock`; `holding` is after a successful
-- `tryLock` or `lock`; `releasing` is between the two statements of the unlock function.
pub data Phase : Type 0 where
  idle : Phase
  waiting holding releasing : String → ℕ → Phase

pub record World : Type 0 where
  pub store : ResourceLocks
  pub threads : List Phase

-- The world after thread `i` has moved.
abbrev pub moved : World → ℕ → ResourceLocks → Phase → World
moved w i store phase = record { store = store; threads = set w.threads i phase }

pub data Step (w : World) : World → Type 0 where
  tried :
      (i : ℕ) (r : String) (l : ResourceLocks) (a : ℕ)
      → get_elem? w.threads i ≡ some idle
      → try_lock w.store r ≡ (l, some a)
      → Step w (moved w i l (holding r a))
  refused :
      (i : ℕ) (r : String) (l : ResourceLocks)
      → get_elem? w.threads i ≡ some idle
      → try_lock w.store r ≡ (l, none)
      → Step w (record w { store = l })
  entered :
      (i : ℕ) (r : String)
      → get_elem? w.threads i ≡ some idle
      → Step w (moved w i (lock_enter w.store r).0 (waiting r (lock_enter w.store r).1))
  acquired :
      (i : ℕ) (r : String) (a : ℕ) (l : ResourceLocks)
      → get_elem? w.threads i ≡ some (waiting r a)
      → receive w.store a ≡ some l
      → Step w (moved w i l (holding r a))
  cancelled :
      (i : ℕ) (r : String) (a : ℕ)
      → get_elem? w.threads i ≡ some (waiting r a)
      → Step w (moved w i (release_reference w.store r a) idle)
  sent :
      (i : ℕ) (r : String) (a : ℕ) (l : ResourceLocks)
      → get_elem? w.threads i ≡ some (holding r a)
      → send w.store a ≡ some l
      → Step w (moved w i l (releasing r a))
  released :
      (i : ℕ) (r : String) (a : ℕ)
      → get_elem? w.threads i ≡ some (releasing r a)
      → Step w (moved w i (release_reference w.store r a) idle)

abbrev pub is_attached : ℕ → Phase → Bool
is_attached a idle = false
is_attached a (waiting r b) = a == b
is_attached a (holding r b) = a == b
is_attached a (releasing r b) = a == b

abbrev pub is_holding : ℕ → Phase → Bool
is_holding a (holding r b) = a == b
is_holding a idle = false
is_holding a (waiting r b) = false
is_holding a (releasing r b) = false

-- The entry of a thread is the one that the map holds for its resource.
abbrev pub IsLocated : ResourceLocks → Phase → Type 0
IsLocated l idle = Unit
IsLocated l (waiting r a) = lookup r l.locks ≡ some a
IsLocated l (holding r a) = lookup r l.locks ≡ some a
IsLocated l (releasing r a) = lookup r l.locks ≡ some a

pub record Inv (w : World) : Type 0 where
  pub refs_counted : (a : ℕ) → (w.store.heap a).refs ≡ count (is_attached a) w.threads
  pub one_token :
      (a : ℕ)
      → 0 < count (is_attached a) w.threads
      → bit (w.store.heap a).ready + count (is_holding a) w.threads ≡ 1
  pub mapped :
      (r : String) (a : ℕ) → lookup r w.store.locks ≡ some a → 0 < count (is_attached a) w.threads
  pub injective :
      (r r' : String) (a : ℕ)
      → lookup r w.store.locks ≡ some a
      → lookup r' w.store.locks ≡ some a
      → r ≡ r'
  pub located : All (IsLocated w.store) w.threads
  pub unused : (a : ℕ) → w.store.next ≤ a → count (is_attached a) w.threads ≡ 0

pub holding-le-attached :
    (a : ℕ) (ts : List Phase) → count (is_holding a) ts ≤ count (is_attached a) ts
holding-le-attached a [] = omega arith
holding-le-attached a (idle ∷ ts) = omega (arith, holding-le-attached a ts)
holding-le-attached a (waiting r b ∷ ts) = omega (arith, holding-le-attached a ts)
holding-le-attached a (holding r b ∷ ts) = omega (arith, holding-le-attached a ts)
holding-le-attached a (releasing r b ∷ ts) = omega (arith, holding-le-attached a ts)
