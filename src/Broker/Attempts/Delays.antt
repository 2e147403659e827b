-- ===== src/Broker/Attempts/Delays.antt =====
-- How long a key waits, and how many keys the limiter tracks.
use pilothouse.Base.{
  ℕ, ◌-◌, ◌*◌, ◌^◌, ◌≤◌, ◌<◌, ◌≡◌, refl, ◌∙◌, String, true, false, not, ◌&&◌, ◌||◌, some, [], ◌∷◌,
  Map, string_eq, ◌==◌, lookup, erase, retain, ltb, leb, min, length, is_some, arith,
  HasDistinctKeys, Bool-cases, inl, inr, ◌⊎◌, length-erase, length-insert, length-retain,
  retain-HasDistinctKeys, erase-HasDistinctKeys, lookup-insert_self, insert-HasDistinctKeys,
}
use pilothouse.Broker.Attempts.{
  LoginAttempt, max_tracked_attempts, second, attempt_at, delay, oldest_key, evict, failure,
  is_stale, failed_attempt,
}

oldest_key-taken :
    (key : String) (oldest : ℕ) (k : String) (a : LoginAttempt) (m : Map String LoginAttempt)
    → (key == "" || ltb a.updated oldest) ≡ true
    → oldest_key key oldest ((k, a) ∷ m) ≡ oldest_key k a.updated m
unfolding oldest_key
oldest_key-taken key oldest k a m h = rw h

oldest_key-passed :
    (key : String) (oldest : ℕ) (k : String) (a : LoginAttempt) (m : Map String LoginAttempt)
    → (key == "" || ltb a.updated oldest) ≡ false
    → oldest_key key oldest ((k, a) ∷ m) ≡ oldest_key key oldest m
unfolding oldest_key
oldest_key-passed key oldest k a m h = rw h

here_or_later :
    (k key : String) (a : LoginAttempt) (m : Map String LoginAttempt)
    → (key ≡ k) ⊎ (is_some (lookup key m) ≡ true)
    → is_some (lookup key ((k, a) ∷ m)) ≡ true
unfolding lookup
here_or_later k key a m h = ground (arith, string_eq.beq_iff k key)

oldest_key-found :
    (key : String) (oldest : ℕ) (m : Map String LoginAttempt)
    → (oldest_key key oldest m ≡ key) ⊎ (is_some (lookup (oldest_key key oldest m) m) ≡ true)
unfolding oldest_key
oldest_key-found key oldest [] = inl refl
oldest_key-found key oldest ((k, a) ∷ m) = elim (Bool-cases (key == "" || ltb a.updated oldest)) [
  | inl taken ↦ inr (
      rw (oldest_key-taken key oldest k a m taken)
        (here_or_later k (oldest_key k a.updated m) a m (oldest_key-found k a.updated m)))
  | inr passed ↦
      rw (oldest_key-passed key oldest k a m passed) (elim (oldest_key-found key oldest m) [
        | inl kept ↦ inl kept
        | inr found ↦ inr (here_or_later k (oldest_key key oldest m) a m (inr found))
      ])
]

oldest_key-head :
    (k : String) (a : LoginAttempt) (m : Map String LoginAttempt)
    → is_some (lookup (oldest_key "" 0 ((k, a) ∷ m)) ((k, a) ∷ m)) ≡ true
oldest_key-head k a m =
    rw (oldest_key-taken "" 0 k a m refl)
      (here_or_later k (oldest_key k a.updated m) a m (oldest_key-found k a.updated m))

erased :
    (m : Map String LoginAttempt)
    → HasDistinctKeys m
    → 0 < length m
    → length (erase (oldest_key "" 0 m) m) < length m
erased [] h pos = absurd (ground arith)
erased ((k, a) ∷ m) h pos =
    ground
      (arith, oldest_key-head k a m, length-erase (oldest_key "" 0 ((k, a) ∷ m)) ((k, a) ∷ m) h)

length-evict :
    (now : ℕ) (m : Map String LoginAttempt)
    → HasDistinctKeys m
    → length m ≤ max_tracked_attempts
    → length (evict now m) < max_tracked_attempts
unfolding evict
length-evict now m h le =
    let live = retain (λ a. not (is_stale now a)) m in
    let fewer = length-retain (λ a. not (is_stale now a)) m in
    let distinct = retain-HasDistinctKeys (λ a. not (is_stale now a)) m h in
    elim (Bool-cases (leb max_tracked_attempts (length live))) [
      | inl full ↦
          let some_left : 0 < length live = ground arith in
          rw full (omega (arith, erased live distinct some_left, fewer, le))
      | inr room ↦ rw room (ground arith)
    ]

evict-HasDistinctKeys :
    (now : ℕ) (m : Map String LoginAttempt) → HasDistinctKeys m → HasDistinctKeys (evict now m)
unfolding evict
evict-HasDistinctKeys now m h =
    let live = retain (λ a. not (is_stale now a)) m in
    let distinct = retain-HasDistinctKeys (λ a. not (is_stale now a)) m h in
    elim (Bool-cases (leb max_tracked_attempts (length live))) [
      | inl full ↦ rw full (erase-HasDistinctKeys (oldest_key "" 0 live) live distinct)
      | inr room ↦ rw room distinct
    ]

-- A failed login leaves at most 4096 tracked keys, all of them distinct, where that was so before.
pub failure-bounded :
    (m : Map String LoginAttempt) (key : String) (now : ℕ)
    → HasDistinctKeys m
    → length m ≤ max_tracked_attempts
    → HasDistinctKeys (failure m key now) × (length (failure m key now) ≤ max_tracked_attempts)
unfolding failure
failure-bounded m key now h le =
    let entry = failed_attempt (attempt_at key m) now in
    elim (Bool-cases (not (is_some (lookup key m)) && leb max_tracked_attempts (length m))) [
      | inl full ↦ rw full (
        insert-HasDistinctKeys key entry (evict now m) (evict-HasDistinctKeys now m h),
        ground (arith, length-evict now m h le, length-insert key entry (evict now m)),
      )
      | inr room ↦
          rw room (insert-HasDistinctKeys key entry m h, ground (arith, length-insert key entry m))
    ]

pub delay-stored :
    (m : Map String LoginAttempt) (key : String) (now : ℕ) (a : LoginAttempt)
    → lookup key m ≡ some a
    → delay m key now ≡ a.next - now
unfolding delay
delay-stored m key now a h = ground arith

pub failure-stored :
    (m : Map String LoginAttempt) (key : String) (now : ℕ)
    → lookup key (failure m key now) ≡ some (failed_attempt (attempt_at key m) now)
unfolding failure
failure-stored m key now = lookup-insert_self key (failed_attempt (attempt_at key m) now) _

-- After a failed login its key has to wait one second, and twice as long for each failure before it
-- that the limiter has counted, up to 32 seconds.
pub delay-failure :
    (m : Map String LoginAttempt) (key : String) (now : ℕ)
    → delay (failure m key now) key now ≡ second * 2 ^ min (attempt_at key m).failures 5
delay-failure m key now =
    delay-stored (failure m key now) key now _ (failure-stored m key now) ∙ omega arith
