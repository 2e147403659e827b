-- ===== src/Broker/Locks/Invariant.antt =====
-- Every step keeps the invariant of the locks.
use pilothouse.Base.{
  ℕ, zero, suc, replicate, sym, subst, ◌≡◌, refl, String, Bool, true, false, none, some, lookup,
  string_eq, nat_eq, ◌==◌, count, bit, get_elem?, All, arith, All-get_elem?, lookup-insert_self,
  subst₂, Option-cases, inl, inr, if◌then◌else◌,
}
use pilothouse.Broker.Locks.{ResourceLocks, try_lock, lock_enter, receive, send, new_resource_locks}
use pilothouse.Broker.Locks.Threads.{
  Phase, idle, waiting, holding, releasing, World, moved, Step, tried, refused, entered, acquired,
  cancelled, sent, released, is_attached, IsLocated, Inv,
}
use pilothouse.Broker.Locks.Steps.{made-Inv, passed-Inv, joined-Inv}
use pilothouse.Broker.Locks.Release.{gone-Inv}

Bool_bit : (b : Bool) → bit b ≡ (if b then 1 else 0)
Bool_bit true = refl
Bool_bit false = refl

refused_same :
    (l : ResourceLocks) (r : String) (l' : ResourceLocks) → try_lock l r ≡ (l', none) → l ≡ l'
unfolding try_lock
refused_same l r l' e = ground arith

tried-Inv :
    (w : World) (i : ℕ) (r : String) (l : ResourceLocks) (a : ℕ)
    → Inv w
    → get_elem? w.threads i ≡ some idle
    → try_lock w.store r ≡ (l, some a)
    → Inv (moved w i l (holding r a))
unfolding try_lock
tried-Inv w i r l a v at e = elim (Option-cases (lookup r w.store.locks)) [
  | inl absent ↦
      let new = w.store.next in
      subst₂ (λ k c. Inv (moved w i k (holding r c))) (ground arith) (ground arith)
        (made-Inv w v i r false (holding r new) at absent (λ c. refl) (λ c. Bool_bit (c == new))
          (lookup-insert_self r new w.store.locks))
  | inr (c, present) ↦ absurd (ground arith)
]

entered-Inv :
    (w : World) (i : ℕ) (r : String)
    → Inv w
    → get_elem? w.threads i ≡ some idle
    → Inv (moved w i (lock_enter w.store r).0 (waiting r (lock_enter w.store r).1))
unfolding lock_enter
entered-Inv w i r v at = elim (Option-cases (lookup r w.store.locks)) [
  | inl absent ↦ rw absent (
      made-Inv w v i r true (waiting r w.store.next) at absent (λ c. refl) (λ c. ground arith)
        (lookup-insert_self r w.store.next w.store.locks))
  | inr (c, present) ↦ rw present (joined-Inv w v i r c at present)
]

acquired-Inv :
    (w : World) (i : ℕ) (r : String) (a : ℕ) (l : ResourceLocks)
    → Inv w
    → get_elem? w.threads i ≡ some (waiting r a)
    → receive w.store a ≡ some l
    → Inv (moved w i l (holding r a))
unfolding receive
acquired-Inv w i r a l v at e =
    let here = All-get_elem? (IsLocated w.store) w.threads i (waiting r a) v.located at in
    let ready : (w.store.heap a).ready ≡ true = ground arith in
    subst (λ k. Inv (moved w i k (holding r a))) (ground arith)
      (passed-Inv w v i a (waiting r a) (holding r a) false at (λ c. refl) (λ c. refl)
        (λ c. ground arith) here)

sent-Inv :
    (w : World) (i : ℕ) (r : String) (a : ℕ) (l : ResourceLocks)
    → Inv w
    → get_elem? w.threads i ≡ some (holding r a)
    → send w.store a ≡ some l
    → Inv (moved w i l (releasing r a))
unfolding send
sent-Inv w i r a l v at e =
    let here = All-get_elem? (IsLocated w.store) w.threads i (holding r a) v.located at in
    let full : (w.store.heap a).ready ≡ false = ground arith in
    subst (λ k. Inv (moved w i k (releasing r a))) (ground arith)
      (passed-Inv w v i a (holding r a) (releasing r a) true at (λ c. refl) (λ c. refl)
        (λ c. ground arith) here)

-- Every step keeps the invariant.
pub Step-Inv : {w u : World} → Step w u → Inv w → Inv u
Step-Inv {w} (tried i r l a at e) v = tried-Inv w i r l a v at e
Step-Inv {w} (refused i r l at e) v =
    subst (λ k. Inv (record w { store = k })) (refused_same w.store r l e) v
Step-Inv {w} (entered i r at) v = entered-Inv w i r v at
Step-Inv {w} (acquired i r a l at e) v = acquired-Inv w i r a l v at e
Step-Inv {w} (cancelled i r a at) v =
    gone-Inv w v i r a (waiting r a) at (λ c. refl) (λ c. refl)
      (All-get_elem? (IsLocated w.store) w.threads i _ v.located at)
Step-Inv {w} (sent i r a l at e) v = sent-Inv w i r a l v at e
Step-Inv {w} (released i r a at) v =
    gone-Inv w v i r a (releasing r a) at (λ c. refl) (λ c. refl)
      (All-get_elem? (IsLocated w.store) w.threads i _ v.located at)

pub data Reach (w : World) : World → Type 0 where
  here : Reach w w
  next : {u t : World} → Reach w u → Step u t → Reach w t

-- All threads idle, and no lock made yet.
abbrev pub start : ℕ → World
start n = record { store = new_resource_locks; threads = replicate n idle }

count_idle : (p : Phase → Bool) (n : ℕ) → p idle ≡ false → count p (replicate n idle) ≡ 0
count_idle p zero h = refl
count_idle p (suc n) h = ground (arith, count_idle p n h)

IsLocated-idle : (l : ResourceLocks) (n : ℕ) → All (IsLocated l) (replicate n idle)
IsLocated-idle l zero = tt
IsLocated-idle l (suc n) = (tt, IsLocated-idle l n)

start-Inv : (n : ℕ) → Inv (start n)
unfolding new_resource_locks lookup
start-Inv n = record {
  refs_counted = λ a. sym (count_idle (is_attached a) n refl);
  one_token = λ a h. absurd (omega (arith, count_idle (is_attached a) n refl));
  mapped = λ r a h. cc;
  injective = λ r r' a h h'. cc;
  located = IsLocated-idle new_resource_locks n;
  unused = λ a h. count_idle (is_attached a) n refl;
}

pub Reach-Inv : (n : ℕ) {w : World} → Reach (start n) w → Inv w
Reach-Inv n here = start-Inv n
Reach-Inv n (next r s) = Step-Inv s (Reach-Inv n r)
