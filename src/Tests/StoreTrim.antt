-- ===== src/Tests/StoreTrim.antt =====
-- The trimming loop on a bucket in memory that holds a number under each key.
use pilothouse.Base.{ℕ, ◌≡◌, refl, Bool, some, [], ◌∷◌, ltb, arith, erase, nat_eq}
use pilothouse.Store.Trim.{trim, oldest_finished, drop_finished, map_entries, trim-eq-drop_finished}
use pilothouse.Tests.Memory.{Memory, memory}

-- Ten and more is finished.
abbrev finished : ℕ → Bool
finished n = ltb 9 n

abbrev four : Memory ℕ
four = record {
  stored = (1, some 3) ∷ (2, some 10) ∷ (3, some 4) ∷ (5, some 20) ∷ [];
  counter = 5;
  ascending = ground arith;
}

trim-eq-drop_finished_example :
    map_entries finished (memory ℕ) (trim finished (memory ℕ) 1 four)
    ≡ drop_finished finished 1 four.stored
trim-eq-drop_finished_example = trim-eq-drop_finished finished (memory ℕ) 1 four

two_dropped :
    map_entries finished (memory ℕ) (trim finished (memory ℕ) 3 four)
    ≡ some ((1, some 3) ∷ (3, some 4) ∷ [])
unfolding trim oldest_finished erase
two_dropped = refl
