-- ===== src/Tests/Memory.antt =====
-- A bucket in memory, which does all that is asked of bbolt.
use pilothouse.Base.{
  ℕ, ◌+◌, ◌<◌, ◌≡◌, refl, Option, [], ◌∷◌, Map, nat_eq, ◌==◌, lookup, erase, All, ltb, arith,
  length, Bool-cases, inl, inr, subst, All-implies,
}
use pilothouse.Store.{Bolt, IsAscending, put_entry}
use pilothouse.Store.Entries.{put_entry-All}

erase-All : {V : Type 0} (P : ℕ × V → Type 0) (k : ℕ) (m : Map ℕ V) → All P m → All P (erase k m)
unfolding erase
erase-All P k [] h = tt
erase-All P k ((j, v) ∷ m) h = elim (Bool-cases (j == k)) [
  | inl same ↦ rw same (erase-All P k m h.1)
  | inr other ↦ rw other (h.0, erase-All P k m h.1)
]

pub erase-IsAscending : {V : Type 0} (k : ℕ) (m : Map ℕ V) → IsAscending m → IsAscending (erase k m)
unfolding erase
erase-IsAscending k [] h = tt
erase-IsAscending k ((j, v) ∷ m) h = elim (Bool-cases (j == k)) [
  | inl same ↦ rw same (erase-IsAscending k m h.1)
  | inr other ↦ rw other (erase-All (λ e. j < e.0) k m h.0, erase-IsAscending k m h.1)
]

pub put_entry-IsAscending :
    {V : Type 0} (k : ℕ) (v : V) (m : Map ℕ V) → IsAscending m → IsAscending (put_entry k v m)
unfolding put_entry
put_entry-IsAscending k v [] h = (tt, tt)
put_entry-IsAscending k v ((j, w) ∷ m) h = elim (Bool-cases (j == k)) [
  | inl same ↦
      let eq : j ≡ k = (nat_eq.beq_iff j k).0 same in
      rw same (subst (λ i. All (λ e. i < e.0) m) eq h.0, h.1)
  | inr other ↦ elim (Bool-cases (ltb k j)) [
    | inl before ↦
        let lt : k < j = ground arith in
        rw (other, before)
          ((lt, All-implies (λ e. j < e.0) (λ e. k < e.0) m (λ e le. omega (arith, lt)) h.0), h)
    | inr after ↦
        rw (other, after)
          (
            put_entry-All (λ e. j < e.0) k v m (ground (arith, nat_eq.beq_iff j k)) h.0,
            put_entry-IsAscending k v m h.1,
          )
  ]
]

pub record Memory (J : Type 0) : Type 0 where
  pub stored : Map ℕ (Option J)
  pub counter : ℕ
  pub ascending : IsAscending stored

abbrev pub memory : (J : Type 0) → Bolt J
memory J = record {
  Bucket = Memory J;
  entries = λ b. b.stored;
  sequence = λ b. b.counter;
  fetch = λ k b. lookup k b.stored;
  put = λ k v b. record {
    stored = put_entry k v b.stored;
    counter = b.counter;
    ascending = put_entry-IsAscending k v b.stored b.ascending;
  };
  delete = λ k b. record {
    stored = erase k b.stored;
    counter = b.counter;
    ascending = erase-IsAscending k b.stored b.ascending;
  };
  advance = λ b. record { stored = b.stored; counter = b.counter + 1; ascending = b.ascending };
  key_n = λ b. length b.stored;
  entries-IsAscending = λ b. b.ascending;
  fetch_lem = λ k b. refl;
  entries-put = λ k v b. refl;
  entries-delete = λ k b. refl;
  entries-advance = λ b. refl;
  sequence-advance = λ b. refl;
  sequence-put = λ k v b. refl;
  sequence-delete = λ k b. refl;
}

abbrev pub empty : {J : Type 0} → Memory J
empty = record { stored = []; counter = 0; ascending = tt }
