-- ===== src/Broker/Streams/Reader.antt =====
-- `streamLimitReader` of internal/broker/streams.go. A body is the list of its bytes. What a read of
-- it gives is settled by a choice: how many bytes come at once, whether the end is told together with
-- the last of them, and whether the read reports another error. `io.LimitReader` is the library's, as
-- documented.
use pilothouse.Base.{
  ℕ, zero, suc, ◌+◌, ◌-◌, ◌≤◌, ◌<◌, ◌≡◌, refl, sym, ap, ◌∙◌, Bool, true, false, ◌&&◌, Option, none,
  some, List, [], ◌∷◌, ◌++◌, nat_eq, ◌==◌, min, ltb, ◌%◌, ◌^◌, length, take, drop, if◌then◌else◌,
  arith, Bool-cases, inl, inr, length-append, append_assoc,
}

pub record Choice : Type 0 where
  pub chunk : ℕ
  pub tells_end : Bool
  pub breaks : Bool

pub data ReadEnd : Type 0 where
  -- `broken` is an error of the body other than its end.
  eof too_large broken : ReadEnd

-- What a read gives: the bytes, and the error if any.
pub record Answer : Type 0 where
  pub bytes : List ℕ
  pub end : Option ReadEnd

abbrev pub is_empty {ℓ} : {A : Type ℓ} → List A → Bool
is_empty [] = true
is_empty (x ∷ xs) = false

-- The error that comes with the last bytes read.
abbrev pub end_of : Choice → List ℕ → Option ReadEnd
end_of c left =
    if c.breaks then some broken else if c.tells_end && is_empty left then some eof else none

-- A read of at most `k` bytes of the body, and what is left of it.
abbrev pub read_body : Choice → ℕ → List ℕ → Answer × List ℕ
read_body c k rest =
    let n = min k c.chunk in
    (record { bytes = take n rest; end = end_of c (drop n rest) }, drop n rest)

-- `limit.remaining`, what `io.LimitReader` still allows, and the rest of the body.
pub record StreamLimitReader : Type 0 where
  pub remaining : ℕ
  pub allowed : ℕ
  pub rest : List ℕ

-- The sum of two int64 that are not negative, as a count that `io.LimitReader` is given: it takes a
-- negative one, which a sum from 2 ^ 63 on wraps to, as 0.
abbrev pub limit_count : ℕ → ℕ
limit_count n = if ltb (n % 2 ^ 64) (2 ^ 63) then n % 2 ^ 64 else 0

-- `newStreamLimitReader`, for a limit that is not negative.
unfoldable pub new_stream_limit_reader : List ℕ → ℕ → StreamLimitReader
new_stream_limit_reader body limit = record {
  remaining = limit;
  allowed = limit_count (limit + 1);
  rest = body;
}

-- The `Read` of `io.LimitReader`.
unfoldable pub read_limited : Choice → ℕ → StreamLimitReader → StreamLimitReader × Answer
read_limited c k r =
    let (a, rest) = read_body c (min k r.allowed) r.rest in
    if r.allowed == 0
    then (r, record { bytes = []; end = some eof })
    else (record r { allowed = r.allowed - length a.bytes; rest = rest }, a)

-- `Read`, of a buffer of `k` bytes.
unfoldable pub read : Choice → ℕ → StreamLimitReader → StreamLimitReader × Answer
read c k r =
    let (probed, extra) = read_limited c 1 r in
    let (r', a) = read_limited c (min k r.remaining) r in
    if r.remaining == 0
    then (
      probed,
      record { bytes = []; end = if is_empty extra.bytes then extra.end else some too_large },
    )
    else (record r' { remaining = r.remaining - length a.bytes }, a)

-- The bytes of a read and of the reads after it, which an error leaves out.
abbrev then_read : Option ReadEnd → Answer → Answer → Answer
then_read (some e) a later = a
then_read none a later = record { bytes = a.bytes ++ later.bytes; end = later.end }

-- Reads up to the first error: all the bytes, and the error.
unfoldable pub read_all : List (Choice × ℕ) → StreamLimitReader → Answer
read_all [] r = record { bytes = []; end = none }
read_all ((c, k) ∷ ks) r =
    let later = read_all ks (read c k r).0 in then_read (read c k r).1.end (read c k r).1 later

take-append-drop : (n : ℕ) (xs : List ℕ) → take n xs ++ drop n xs ≡ xs
take-append-drop zero xs = refl
take-append-drop (suc n) [] = refl
take-append-drop (suc n) (x ∷ xs) = ap (◌∷◌ x) (take-append-drop n xs)

length-take-le : (n : ℕ) (xs : List ℕ) → length (take n xs) ≤ n
length-take-le zero xs = omega arith
length-take-le (suc n) [] = omega arith
length-take-le (suc n) (x ∷ xs) = omega (arith, length-take-le n xs)

is_empty-eq-nil : (xs : List ℕ) → is_empty xs ≡ true → xs ≡ []
is_empty-eq-nil [] h = refl
is_empty-eq-nil (x ∷ xs) h = cc

limit_count-small : (n : ℕ) → n < 2 ^ 63 → limit_count n ≡ n
limit_count-small n small =
    let whole : n % 2 ^ 64 ≡ n = omega arith in
    let fits : ltb n (2 ^ 63) ≡ true = ground arith in rw whole (rw fits refl)

-- The inner reader allows one byte more than is left of the limit.
abbrev pub IsSound : StreamLimitReader → Type 0
IsSound r = r.allowed ≡ r.remaining + 1

-- A read that goes on.
record Continues (r r' : StreamLimitReader) (bytes : List ℕ) : Type 0 where
  sound : IsSound r'
  prefix : r.rest ≡ bytes ++ r'.rest
  less : r'.remaining + length bytes ≡ r.remaining

-- What reads that stop deliver.
pub record Delivered (r : StreamLimitReader) (a : Answer) : Type 0 where
  pub suffix : List ℕ
  pub prefix : r.rest ≡ a.bytes ++ suffix
  pub within : length a.bytes ≤ r.remaining
  pub complete : a.end ≡ some eof → suffix ≡ []
  pub excess : a.end ≡ some too_large → r.remaining < length r.rest

-- The inner read, where one is allowed.
read_limited-open :
    (c : Choice) (k : ℕ) (r : StreamLimitReader)
    → (r.allowed == 0) ≡ false
    → read_limited c k r ≡ (
      record r {
        allowed = r.allowed - length (take (min (min k r.allowed) c.chunk) r.rest);
        rest = drop (min (min k r.allowed) c.chunk) r.rest;
      },
      record {
        bytes = take (min (min k r.allowed) c.chunk) r.rest;
        end = end_of c (drop (min (min k r.allowed) c.chunk) r.rest);
      },
    )
unfolding read_limited
read_limited-open c k r h = rw h

abbrev Reads : StreamLimitReader → StreamLimitReader → Answer → Option ReadEnd → Type 0
Reads r r' a none = Continues r r' a.bytes
Reads r r' a (some e) = Delivered r a

nonempty_take : (n : ℕ) (xs : List ℕ) → is_empty (take n xs) ≡ false → 0 < length xs
nonempty_take zero xs h = cc
nonempty_take (suc n) [] h = cc
nonempty_take (suc n) (x ∷ xs) h = omega arith

-- The read of one byte more, where nothing is left of the limit.
probe-Reads :
    (r : StreamLimitReader) (n : ℕ) (c : Choice)
    → IsSound r
    → r.remaining ≡ 0
    → let end : Option ReadEnd =
        if is_empty (take n r.rest) then end_of c (drop n r.rest) else some too_large in
      Reads r
        (record {
          remaining = r.remaining;
          allowed = r.allowed - length (take n r.rest);
          rest = drop n r.rest;
        })
        (record { bytes = []; end = end })
        end
probe-Reads r n c sound zero_left =
    let split = take-append-drop n r.rest in
    elim (Bool-cases (is_empty (take n r.rest))) [
      | inr extra ↦ rw extra (record {
        suffix = r.rest;
        prefix = refl;
        within = omega arith;
        complete = λ e. cc;
        excess = λ e. omega (arith, nonempty_take n r.rest extra);
      })
      | inl nothing_read ↦
          let none_taken = is_empty-eq-nil (take n r.rest) nothing_read in
          let left : drop n r.rest ≡ r.rest = rw none_taken at split in
          elim (Bool-cases c.breaks) [
            | inl breaks ↦
                rw (nothing_read, breaks)
                  (record {
                    suffix = drop n r.rest;
                    prefix = sym left;
                    within = omega arith;
                    complete = λ e. absurd (cc);
                    excess = λ e. absurd (cc);
                  })
            | inr sane ↦ elim (Bool-cases (c.tells_end && is_empty (drop n r.rest))) [
              | inl ended ↦
                  rw (nothing_read, sane, ended)
                    (record {
                      suffix = drop n r.rest;
                      prefix = sym left;
                      within = omega arith;
                      complete = λ e. is_empty-eq-nil (drop n r.rest) (ground arith);
                      excess = λ e. absurd (cc);
                    })
              | inr open_still ↦
                  rw (nothing_read, sane, open_still)
                    (record {
                      sound = rw none_taken (omega (arith, sound));
                      prefix = sym left;
                      less = omega arith;
                    })
            ]
          ]
    ]

-- A read within the limit.
within-Reads :
    (r : StreamLimitReader) (n : ℕ) (c : Choice)
    → IsSound r
    → n ≤ r.remaining
    → let end = end_of c (drop n r.rest) in
      Reads r
        (record {
          remaining = r.remaining - length (take n r.rest);
          allowed = r.allowed - length (take n r.rest);
          rest = drop n r.rest;
        })
        (record { bytes = take n r.rest; end = end })
        end
within-Reads r n c sound le =
    let split = take-append-drop n r.rest in
    let short = length-take-le n r.rest in
    elim (Bool-cases c.breaks) [
      | inl breaks ↦ rw breaks (record {
        suffix = drop n r.rest;
        prefix = sym split;
        within = omega (arith, short, le);
        complete = λ e. absurd (cc);
        excess = λ e. absurd (cc);
      })
      | inr sane ↦ elim (Bool-cases (c.tells_end && is_empty (drop n r.rest))) [
        | inl ended ↦
            rw (sane, ended)
              (record {
                suffix = drop n r.rest;
                prefix = sym split;
                within = omega (arith, short, le);
                complete = λ e. is_empty-eq-nil (drop n r.rest) (ground arith);
                excess = λ e. absurd (cc);
              })
        | inr open_still ↦
            rw (sane, open_still)
              (record {
                sound = omega (arith, sound, short, le);
                prefix = sym split;
                less = omega (arith, short, le);
              })
      ]
    ]

read-Reads :
    (c : Choice) (k : ℕ) (r : StreamLimitReader)
    → IsSound r
    → Reads r (read c k r).0 (read c k r).1 (read c k r).1.end
unfolding read
read-Reads c k r sound =
    let open_still : (r.allowed == 0) ≡ false = ground arith in
    elim (Bool-cases (r.remaining == 0)) [
      | inl none_left ↦
          rw (none_left, read_limited-open c 1 r open_still)
            (probe-Reads r (min (min 1 r.allowed) c.chunk) c sound
              (ground (arith, nat_eq.beq_iff r.remaining 0)))
      | inr more ↦
          rw (more, read_limited-open c (min k r.remaining) r open_still)
            (within-Reads r (min (min (min k r.remaining) r.allowed) c.chunk) c sound (omega arith))
    ]

then-Delivered :
    (r r' : StreamLimitReader) (bytes : List ℕ) (later : Answer)
    → Continues r r' bytes
    → Delivered r' later
    → Delivered r (record { bytes = bytes ++ later.bytes; end = later.end })
then-Delivered r r' bytes later c d = record {
  suffix = d.suffix;
  prefix = c.prefix ∙ ap (◌++◌ bytes) d.prefix ∙ sym (append_assoc bytes later.bytes d.suffix);
  within = omega (arith, length-append bytes later.bytes, d.within, c.less);
  complete = d.complete;
  excess = λ e. omega (arith, d.excess e, c.less, ap length c.prefix, length-append bytes r'.rest);
}

Delivered-after :
    (r r' : StreamLimitReader) (a later : Answer) (end : Option ReadEnd)
    → Reads r r' a end
    → (IsSound r' → Delivered r' later)
    → Delivered r (then_read end a later)
Delivered-after r r' a later none continues rest =
    then-Delivered r r' a.bytes later continues (rest continues.sound)
Delivered-after r r' a later (some x) delivered rest = delivered

read_all-Delivered :
    (ks : List (Choice × ℕ)) (r : StreamLimitReader) → IsSound r → Delivered r (read_all ks r)
unfolding read_all
read_all-Delivered [] r sound = record {
  suffix = r.rest;
  prefix = refl;
  within = omega arith;
  complete = λ e. absurd (cc);
  excess = λ e. absurd (cc);
}
read_all-Delivered ((c, k) ∷ ks) r sound =
    let r' = (read c k r).0 in
    Delivered-after r r' (read c k r).1 (read_all ks r') (read c k r).1.end (read-Reads c k r sound)
      (read_all-Delivered ks r')

-- However a body arrives, and whatever buffers the handler offers, for a limit below the largest
-- int64: up to the first error the handler is given the beginning of the body and at most `limit`
-- bytes; if it is told the end, it has been given the whole body, and if it is told that the stream is
-- too large, the body has more than `limit` bytes.
pub limit_reader_lem :
    (body : List ℕ) (limit : ℕ) (ks : List (Choice × ℕ))
    → limit + 1 < 2 ^ 63
    → Delivered
        (new_stream_limit_reader body limit)
        (read_all ks (new_stream_limit_reader body limit))
unfolding new_stream_limit_reader
limit_reader_lem body limit ks small =
    read_all-Delivered ks (new_stream_limit_reader body limit) (limit_count-small (limit + 1) small)
