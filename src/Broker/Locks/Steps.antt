-- ===== src/Broker/Locks/Steps.antt =====
-- The invariant of the locks is kept where an entry is made, passed on or joined.
use pilothouse.Base.{
  ℕ, ◌+◌, ◌-◌, ◌≡◌, String, Bool, none, some, lookup, string_eq, nat_eq, ◌==◌, count, bit,
  get_elem?, arith, count-set, All-set, All-implies, lookup-insert, if◌then◌else◌,
}
use pilothouse.Broker.Locks.{allocate, update}
use pilothouse.Broker.Locks.Threads.{
  Phase, idle, waiting, holding, releasing, World, moved, is_attached, is_holding, IsLocated, Inv,
  holding-le-attached,
}

-- A new entry for a resource that the map lacks, for a thread that was idle.
module _ (w : World) (v : Inv w) (i : ℕ) (r : String) (b : Bool) (p : Phase)
    (at : get_elem? w.threads i ≡ some idle) (absent : lookup r w.store.locks ≡ none)
    (attached : (a : ℕ) → is_attached a p ≡ (a == w.store.next))
    (held : (a : ℕ) → bit (is_holding a p) ≡ (if a == w.store.next then 1 - bit b else 0))
    (here : IsLocated (allocate w.store r (record { ready = b; refs = 1 })) p) where
  abbrev pub made : World
  made = moved w i (allocate w.store r (record { ready = b; refs = 1 })) p

  made_attached :
      (a : ℕ)
      → count (is_attached a) made.threads
        ≡ count (is_attached a) w.threads + bit (a == w.store.next)
  made_attached a = ground (arith, count-set (is_attached a) w.threads i idle p at, attached a)

  made_holding :
      (a : ℕ)
      → count (is_holding a) made.threads
        ≡ count (is_holding a) w.threads + (if a == w.store.next then 1 - bit b else 0)
  made_holding a = ground (arith, count-set (is_holding a) w.threads i idle p at, held a)

  IsLocated-before :
      (q : Phase)
      → IsLocated w.store q
      → IsLocated (allocate w.store r (record { ready = b; refs = 1 })) q
  IsLocated-before idle h = tt
  IsLocated-before (waiting r' a) h =
      ground (arith, lookup-insert r r' w.store.next w.store.locks, string_eq.beq_iff r r', absent)
  IsLocated-before (holding r' a) h =
      ground (arith, lookup-insert r r' w.store.next w.store.locks, string_eq.beq_iff r r', absent)
  IsLocated-before (releasing r' a) h =
      ground (arith, lookup-insert r r' w.store.next w.store.locks, string_eq.beq_iff r r', absent)

  pub made-Inv : Inv made
  made-Inv = record {
    refs_counted = λ a. ground (arith, made_attached a, v.refs_counted a, v.unused a);
    one_token = λ a pos. ground (
      arith,
      made_attached a,
      made_holding a,
      v.unused a,
      v.one_token a,
      holding-le-attached a w.threads,
    );
    mapped = λ r' a h.
        ground
          (arith, made_attached a, v.mapped r' a, lookup-insert r r' w.store.next w.store.locks);
    injective = λ r1 r2 a h1 h2. ground (
      arith,
      v.mapped r1 a,
      v.mapped r2 a,
      v.unused a,
      v.injective r1 r2 a,
      lookup-insert r r1 w.store.next w.store.locks,
      lookup-insert r r2 w.store.next w.store.locks,
      string_eq.beq_iff r r1,
      string_eq.beq_iff r r2,
    );
    located =
        All-set (IsLocated made.store) w.threads i p
          (All-implies (IsLocated w.store) (IsLocated made.store) w.threads IsLocated-before
            v.located)
          here;
    unused = λ a h. ground (arith, made_attached a, v.unused a);
  }

-- A step that leaves the map and the counts of references as they are.
module _ (w : World) (v : Inv w) (i : ℕ) (a : ℕ) (old p : Phase) (b : Bool)
    (at : get_elem? w.threads i ≡ some old) (was : (c : ℕ) → is_attached c old ≡ (c == a))
    (attached : (c : ℕ) → is_attached c p ≡ (c == a))
    (token : (c : ℕ)
      → (if c == a then bit b else 0) + bit (is_holding c p)
        ≡ (if c == a then bit (w.store.heap a).ready else 0) + bit (is_holding c old))
    (here : IsLocated w.store p) where
  abbrev pub passed : World
  passed =
      moved w i
        (record w.store {
          heap = update w.store.heap a (record { ready = b; refs = (w.store.heap a).refs });
        })
        p

  passed_attached : (c : ℕ) → count (is_attached c) passed.threads ≡ count (is_attached c) w.threads
  passed_attached c =
      ground (arith, count-set (is_attached c) w.threads i old p at, attached c, was c)

  IsLocated-same : (q : Phase) → IsLocated w.store q → IsLocated passed.store q
  IsLocated-same idle h = tt
  IsLocated-same (waiting r' c) h = h
  IsLocated-same (holding r' c) h = h
  IsLocated-same (releasing r' c) h = h

  pub passed-Inv : Inv passed
  passed-Inv = record {
    refs_counted = λ c. ground (arith, passed_attached c, v.refs_counted c, nat_eq.beq_iff a c);
    one_token = λ c pos. ground (
      arith,
      passed_attached c,
      v.one_token c,
      token c,
      nat_eq.beq_iff a c,
      nat_eq.beq_iff c a,
      count-set (is_holding c) w.threads i old p at,
    );
    mapped = λ r' c h. ground (arith, passed_attached c, v.mapped r' c);
    injective = v.injective;
    located =
        All-set (IsLocated passed.store) w.threads i p
          (All-implies (IsLocated w.store) (IsLocated passed.store) w.threads IsLocated-same
            v.located)
          (IsLocated-same p here);
    unused = λ c h. ground (arith, passed_attached c, v.unused c);
  }

-- Another reference to the entry that the map holds.
module _ (w : World) (v : Inv w) (i : ℕ) (r : String) (a : ℕ)
    (at : get_elem? w.threads i ≡ some idle) (present : lookup r w.store.locks ≡ some a) where
  abbrev pub joined : World
  joined =
      moved w i
        (record w.store {
          heap =
              update w.store.heap a
                (record { ready = (w.store.heap a).ready; refs = (w.store.heap a).refs + 1 });
        })
        (waiting r a)

  joined_attached :
      (c : ℕ)
      → count (is_attached c) joined.threads ≡ count (is_attached c) w.threads + bit (c == a)
  joined_attached c = ground (arith, count-set (is_attached c) w.threads i idle (waiting r a) at)

  joined_holding : (c : ℕ) → count (is_holding c) joined.threads ≡ count (is_holding c) w.threads
  joined_holding c = ground (arith, count-set (is_holding c) w.threads i idle (waiting r a) at)

  IsLocated-joined : (q : Phase) → IsLocated w.store q → IsLocated joined.store q
  IsLocated-joined idle h = tt
  IsLocated-joined (waiting r' c) h = h
  IsLocated-joined (holding r' c) h = h
  IsLocated-joined (releasing r' c) h = h

  pub joined-Inv : Inv joined
  joined-Inv = record {
    refs_counted = λ c. ground (arith, joined_attached c, v.refs_counted c);
    one_token =
        λ c pos. ground (arith, joined_attached c, joined_holding c, v.one_token c, v.mapped r a);
    mapped = λ r' c h. ground (arith, joined_attached c, v.mapped r' c);
    injective = v.injective;
    located =
        All-set (IsLocated joined.store) w.threads i (waiting r a)
          (All-implies (IsLocated w.store) (IsLocated joined.store) w.threads IsLocated-joined
            v.located)
          present;
    unused = λ c h. ground (arith, joined_attached c, v.unused c, v.mapped r a);
  }
