-- ===== src/Broker/Locks/Release.antt =====
-- The invariant of the locks is kept by `releaseReference`.
use pilothouse.Base.{
  ℕ, ◌+◌, ◌-◌, ◌<◌, ◌≡◌, ◌↔◌, String, true, false, some, lookup, string_eq, nat_eq, ◌==◌, count,
  bit, get_elem?, arith, count-set, All-set, All-get_elem?, All-of_get_elem?, count_pos,
  lookup-erase, eq_refl, if◌then◌else◌,
}
use pilothouse.Broker.Locks.{release_reference}
use pilothouse.Broker.Locks.Threads.{
  Phase, idle, waiting, holding, releasing, World, moved, is_attached, is_holding, IsLocated, Inv,
}

-- A thread that does not hold the token gives up its reference.
module _ (w : World) (v : Inv w) (i : ℕ) (r : String) (a : ℕ) (old : Phase)
    (at : get_elem? w.threads i ≡ some old) (was : (c : ℕ) → is_attached c old ≡ (c == a))
    (free : (c : ℕ) → is_holding c old ≡ false) (found : lookup r w.store.locks ≡ some a) where
  abbrev pub gone : World
  gone = moved w i (release_reference w.store r a) idle

  gone_attached :
      (c : ℕ) → count (is_attached c) gone.threads + bit (c == a) ≡ count (is_attached c) w.threads
  gone_attached c = ground (arith, count-set (is_attached c) w.threads i old idle at, was c)

  gone_holding : (c : ℕ) → count (is_holding c) gone.threads ≡ count (is_holding c) w.threads
  gone_holding c = ground (arith, count-set (is_holding c) w.threads i old idle at, free c)

  -- The test of the code, `entry.refs == 0`, in terms of the threads.
  last_iff : (((w.store.heap a).refs - 1 == 0) ≡ true) ↔ (count (is_attached a) gone.threads ≡ 0)
  last_iff = ground (arith, v.refs_counted a, gone_attached a)

  gone_heap :
      (c : ℕ)
      → (gone.store.heap c ≡ (
          if a == c
          then record { ready = (w.store.heap a).ready; refs = (w.store.heap a).refs - 1 }
          else w.store.heap c))
  unfolding release_reference
  gone_heap c = ground arith

  gone_next : gone.store.next ≡ w.store.next
  unfolding release_reference
  gone_next = ground arith

  gone_lookup :
      (s : String) (c : ℕ)
      → lookup s gone.store.locks ≡ some c
      → (lookup s w.store.locks ≡ some c) × (0 < count (is_attached c) gone.threads)
  unfolding release_reference
  gone_lookup s c h = ground (
    arith,
    last_iff,
    lookup-erase r s w.store.locks,
    string_eq.beq_iff r s,
    v.mapped s c,
    gone_attached c,
    v.injective r s a,
    nat_eq.beq_iff c a,
  )

  -- What was located is so still, unless the entry has no reference left.
  kept_lookup :
      (s : String) (c : ℕ)
      → lookup s w.store.locks ≡ some c
      → (0 < count (is_attached c) gone.threads)
      → lookup s gone.store.locks ≡ some c
  unfolding release_reference
  kept_lookup s c h pos =
      ground (arith, last_iff, lookup-erase r s w.store.locks, string_eq.beq_iff r s)

  gone-IsLocated_at :
      (j : ℕ) (q : Phase)
      → get_elem? gone.threads j ≡ some q
      → IsLocated w.store q
      → IsLocated gone.store q
  gone-IsLocated_at j idle e h = tt
  gone-IsLocated_at j (waiting s c) e h =
      kept_lookup s c h (count_pos (is_attached c) gone.threads j _ e (eq_refl c))
  gone-IsLocated_at j (holding s c) e h =
      kept_lookup s c h (count_pos (is_attached c) gone.threads j _ e (eq_refl c))
  gone-IsLocated_at j (releasing s c) e h =
      kept_lookup s c h (count_pos (is_attached c) gone.threads j _ e (eq_refl c))

  gone-IsLocated : (j : ℕ) (q : Phase) → get_elem? gone.threads j ≡ some q → IsLocated gone.store q
  gone-IsLocated j q e = gone-IsLocated_at j q e (
      All-get_elem? (IsLocated w.store) gone.threads j q
        (All-set (IsLocated w.store) w.threads i idle v.located tt) e)

  pub gone-Inv : Inv gone
  gone-Inv = record {
    refs_counted =
        λ c. ground (arith, gone_heap c, gone_attached c, v.refs_counted c, nat_eq.beq_iff a c);
    one_token = λ c pos.
        ground
          (arith, gone_heap c, gone_attached c, gone_holding c, v.one_token c, nat_eq.beq_iff a c);
    mapped = λ s c h. (gone_lookup s c h).1;
    injective = λ s s' c h h'. v.injective s s' c (gone_lookup s c h).0 (gone_lookup s' c h').0;
    located = All-of_get_elem? (IsLocated gone.store) gone.threads gone-IsLocated;
    unused = λ c h. ground (arith, gone_attached c, v.unused c, gone_next);
  }
