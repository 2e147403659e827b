-- ===== src/Tests/Attempts.antt =====
-- The limiter with two tracked keys.
use pilothouse.Base.{
  ◌*◌, ◌≤◌, ◌≡◌, refl, String, [], ◌∷◌, Map, string_eq, lookup, insert, erase, length, arith,
  HasDistinctKeys,
}
use pilothouse.Broker.Attempts.{LoginAttempt, second, delay, failure, success}
use pilothouse.Broker.Attempts.Delays.{failure-bounded}

abbrev tracked : Map String LoginAttempt
tracked =
    ("ada", record { failures = 3; next = 14 * second; updated = 10 * second })
    ∷ ("bob", record { failures = 1; next = 3 * second; updated = 2 * second })
    ∷ []

waits_eight : delay (failure tracked "ada" (20 * second)) "ada" (20 * second) ≡ 8 * second
unfolding delay failure lookup insert
waits_eight = refl

forgotten : delay (success tracked "ada") "ada" (11 * second) ≡ 0
unfolding delay success lookup erase
forgotten = refl

failure-bounded_example :
    HasDistinctKeys (failure tracked "eve" (20 * second))
    × (length (failure tracked "eve" (20 * second)) ≤ 4096)
unfolding lookup
failure-bounded_example =
    failure-bounded tracked "eve" (20 * second) (refl, (refl, tt)) (ground arith)
