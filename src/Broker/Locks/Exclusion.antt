-- ===== src/Broker/Locks/Exclusion.antt =====
-- What holds of the locks in every world that the threads can reach.
use pilothouse.Base.{
  ℕ, is_some, ◌<◌, ◌≡◌, ◌≢◌, refl, String, true, false, Option, none, some, lookup, string_eq,
  nat_eq, ◌==◌, get_elem?, All, arith, All-get_elem?, All-implies, count_pos, count_two, count_none,
  get_elem?_of_count, All-of_get_elem?, ℕ_discrete, eq_refl, Bool-cases, Option-cases, inl, inr,
}
use pilothouse.Broker.Locks.{try_lock, receive, send}
use pilothouse.Broker.Locks.Threads.{
  Phase, idle, waiting, holding, releasing, World, is_attached, is_holding, IsLocated, Inv,
}
use pilothouse.Broker.Locks.Invariant.{Reach, start, Reach-Inv}

located :
    (w : World) → Inv w → (i : ℕ) (p : Phase) → get_elem? w.threads i ≡ some p → IsLocated w.store p
located w v i p h = All-get_elem? (IsLocated w.store) w.threads i p v.located h

-- However many threads take, wait for, cancel and release the locks in whatever order, two
-- different threads never hold the lock of one resource.
pub mutual_exclusion :
    (n : ℕ) (w : World) (i j : ℕ) (r : String) (a b : ℕ)
    → Reach (start n) w
    → get_elem? w.threads i ≡ some (holding r a)
    → get_elem? w.threads j ≡ some (holding r b)
    → i ≡ j
mutual_exclusion n w i j r a b reach hi hj =
    let v = Reach-Inv n reach in
    let la = located w v i (holding r a) hi in
    let lb = located w v j (holding r b) hj in
    let same : a ≡ b = ground arith in
    elim (ℕ_discrete i j) [
      | yes e ↦ e
      | no d ↦ absurd (
          omega (
            arith,
            count_two (is_holding a) w.threads i j _ _ hi hj (eq_refl a) (rw same (eq_refl b)) d,
            v.one_token a (count_pos (is_attached a) w.threads i _ hi (eq_refl a)),
          ))
    ]

-- A thread that holds a lock can release it: the send of the unlock function does not block, and
-- the count of references that it then lowers is positive.
pub unlock_safe :
    (n : ℕ) (w : World) (i : ℕ) (r : String) (a : ℕ)
    → Reach (start n) w
    → get_elem? w.threads i ≡ some (holding r a)
    → (is_some (send w.store a) ≡ true) × (0 < (w.store.heap a).refs)
unfolding send
unlock_safe n w i r a reach h =
    let v = Reach-Inv n reach in
    let one = count_pos (is_holding a) w.threads i _ h (eq_refl a) in
    let att = count_pos (is_attached a) w.threads i _ h (eq_refl a) in
    (ground (arith, v.one_token a, one, att), ground (arith, v.refs_counted a, att))

holding_located :
    (w : World) (v : Inv w) (r : String) (a : ℕ)
    → lookup r w.store.locks ≡ some a
    → ((j b : ℕ) → get_elem? w.threads j ≢ some (holding r b))
    → (j : ℕ) (p : Phase) → get_elem? w.threads j ≡ some p
    → is_holding a p ≡ false
holding_located w v r a found free j idle h = refl
holding_located w v r a found free j (waiting s b) h = refl
holding_located w v r a found free j (releasing s b) h = refl
holding_located w v r a found free j (holding s b) h = elim (Bool-cases (a == b)) [
  | inr other ↦ other
  | inl same ↦
      let eq : a ≡ b = (nat_eq.beq_iff a b).0 same in
      let here = located w v j (holding s b) h in
      let names : s ≡ r = v.injective s r b here (rw eq at found) in
      absurd (free j b (rw names at h))
]

-- A waiting thread receives at once where no thread holds the lock of its resource.
pub waiting_receives :
    (n : ℕ) (w : World) (i : ℕ) (r : String) (a : ℕ)
    → Reach (start n) w
    → get_elem? w.threads i ≡ some (waiting r a)
    → ((j b : ℕ) → get_elem? w.threads j ≢ some (holding r b))
    → is_some (receive w.store a) ≡ true
unfolding receive
waiting_receives n w i r a reach h free =
    let v = Reach-Inv n reach in
    let none_hold = count_none (is_holding a) w.threads (
      All-of_get_elem? _ w.threads
        (holding_located w v r a (located w v i (waiting r a) h) free)) in
    ground (arith, v.one_token a, count_pos (is_attached a) w.threads i _ h (eq_refl a), none_hold)

-- The resource that a thread is concerned with.
abbrev pub concern : Phase → Option String
concern idle = none
concern (waiting r a) = some r
concern (holding r a) = some r
concern (releasing r a) = some r

concern_of_attached :
    (w : World) (v : Inv w) (r : String) (a : ℕ)
    → lookup r w.store.locks ≡ some a
    → (p : Phase) → is_attached a p ≡ true
    → IsLocated w.store p
    → concern p ≡ some r
concern_of_attached w v r a found idle h l = cc
concern_of_attached w v r a found (waiting s b) h l =
    ground (arith, nat_eq.beq_iff a b, v.injective s r a)
concern_of_attached w v r a found (holding s b) h l =
    ground (arith, nat_eq.beq_iff a b, v.injective s r a)
concern_of_attached w v r a found (releasing s b) h l =
    ground (arith, nat_eq.beq_iff a b, v.injective s r a)

-- `tryLock` is refused only while some thread waits for, holds or is releasing the resource.
pub try_lock_refused :
    (n : ℕ) (w : World) (r : String)
    → Reach (start n) w
    → (try_lock w.store r).1 ≡ none
    → (i : ℕ) × (p : Phase) × (get_elem? w.threads i ≡ some p) × (concern p ≡ some r)
unfolding try_lock
try_lock_refused n w r reach e = elim (Option-cases (lookup r w.store.locks)) [
  | inl absent ↦ absurd (ground arith)
  | inr (a, found) ↦
      let v = Reach-Inv n reach in
      let (i, p, at, attached) =
        get_elem?_of_count (is_attached a) w.threads (v.mapped r a found) in
      (i, p, at, concern_of_attached w v r a found p attached (located w v i p at))
]

-- No entry is left behind: when all threads are idle the map has no lock for any resource.
pub idle_leaves_nothing :
    (n : ℕ) (w : World) (r : String)
    → Reach (start n) w
    → All (λ p. p ≡ idle) w.threads
    → lookup r w.store.locks ≡ none
idle_leaves_nothing n w r reach h = elim (Option-cases (lookup r w.store.locks)) [
  | inl absent ↦ absent
  | inr (a, found) ↦
      let v = Reach-Inv n reach in
      let zero_left = count_none (is_attached a) w.threads (
        All-implies (λ p. p ≡ idle) (λ p. is_attached a p ≡ false) w.threads (λ p e. rw e refl)
          h) in
      absurd (omega (arith, v.mapped r a found, zero_left))
]
