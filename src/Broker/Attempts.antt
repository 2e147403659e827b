-- ===== src/Broker/Attempts.antt =====
-- The limiter of login attempts in internal/broker/server.go. A time is a number of nanoseconds; the
-- map is visited in the order of its entries.
pub mod Delays
use pilothouse.Base.{
  ℕ, ◌+◌, ◌-◌, ◌*◌, ◌^◌, String, Bool, true, false, not, ◌&&◌, ◌||◌, Option, none, some, [], ◌∷◌,
  Map, string_eq, ◌==◌, lookup, insert, erase, retain, ltb, leb, min, length, if◌then◌else◌,
  is_some,
}

-- `attempt`
pub record LoginAttempt : Type 0 where
  pub failures : ℕ
  pub next : ℕ
  pub updated : ℕ

abbrev pub max_tracked_attempts : ℕ
max_tracked_attempts = 4096

abbrev pub second : ℕ
second = 1000000000

-- `l.attempts[key]`, the zero value where the key is missing.
abbrev pub attempt_at : String → Map String LoginAttempt → LoginAttempt
attempt_at key m = elim (lookup key m) [
  | none ↦ record { failures = 0; next = 0; updated = 0 }
  | some a ↦ a
]

-- `delay`
unfoldable pub delay : Map String LoginAttempt → String → ℕ → ℕ
delay m key now = (attempt_at key m).next - now

-- `existing.updated.Before(cutoff)`, where the cutoff is ten minutes before `now`
abbrev pub is_stale : ℕ → LoginAttempt → Bool
is_stale now a = ltb (a.updated + 600 * second) now

-- The loop's choice of `oldestKey` among the entries that are not deleted.
unfoldable pub oldest_key : String → ℕ → Map String LoginAttempt → String
oldest_key key oldest [] = key
oldest_key key oldest ((k, a) ∷ m) =
    let taken = oldest_key k a.updated m in
    let passed = oldest_key key oldest m in
    if key == "" || ltb a.updated oldest then taken else passed

-- What `failure` does where all places are taken.
unfoldable pub evict : ℕ → Map String LoginAttempt → Map String LoginAttempt
evict now m =
    let live = retain (λ a. not (is_stale now a)) m in
    if leb max_tracked_attempts (length live) then erase (oldest_key "" 0 live) live else live

-- The entry that `failure` stores.
abbrev pub failed_attempt : LoginAttempt → ℕ → LoginAttempt
failed_attempt entry now = record {
  failures = entry.failures + 1;
  next = now + second * 2 ^ min entry.failures 5;
  updated = now;
}

-- `failure`
unfoldable pub failure : Map String LoginAttempt → String → ℕ → Map String LoginAttempt
failure m key now =
    let room =
      if not (is_some (lookup key m)) && leb max_tracked_attempts (length m)
      then evict now m
      else m in
    insert key (failed_attempt (attempt_at key m) now) room

-- `success`
unfoldable pub success : Map String LoginAttempt → String → Map String LoginAttempt
success m key = erase key m
