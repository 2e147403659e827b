-- ===== src/Broker/Streams/Metadata.antt =====
-- The checks on the parameters of streams in internal/broker/streams.go. `len` counts the bytes of
-- the UTF-8 form.
use Prim.Native.Char.{code}
use Prim.Native.String.{len}
use pilothouse.Base.{
  ℕ, ◌+◌, ◌≤◌, ◌≡◌, String, Bool, true, false, not, ◌||◌, Option, none, some, List, [], ◌∷◌,
  string_eq, nat_eq, ◌==◌, lookup, length, if◌then◌else◌, ltb, arith, Bool-cases, inl, inr,
  contains,
}
use pilothouse.Broker.Params.{Parameters}

-- `containsStreamControl`
unfoldable pub contains_stream_control : String → Bool
contains_stream_control String.[] = false
contains_stream_control (String.◌∷◌ c s) =
    let rest = contains_stream_control s in if ltb (code c) 32 || code c == 127 then true else rest

abbrev pub valid_stream_value : Option String → Bool
valid_stream_value none = false
valid_stream_value (some value) = not (ltb 4096 (len value) || contains_stream_control value)

abbrev pub value_length : Option String → ℕ
value_length none = 0
value_length (some value) = len value

-- The loop of `validateStreamParameters` and the test after it.
unfoldable pub stream_names : ℕ → List String → Parameters → Bool
stream_names total [] m = not (ltb 8192 total)
stream_names total (name ∷ names) m =
    let rest = stream_names (total + (len name + value_length (lookup name m))) names m in
    if valid_stream_value (lookup name m) then rest else false

-- `validateStreamParameters(expected, parameters) == nil`
unfoldable pub validate_stream_parameters : List String → Parameters → Bool
unfolding stream_names
validate_stream_parameters expected m =
    if length m == length expected then stream_names 0 expected m else false

-- The bytes of the names and of their values.
abbrev pub encoded_length : List String → Parameters → ℕ
encoded_length [] m = 0
encoded_length (name ∷ names) m = len name + value_length (lookup name m) + encoded_length names m

stream_names-bounded :
    (total : ℕ) (names : List String) (m : Parameters)
    → stream_names total names m ≡ true
    → total + encoded_length names m ≤ 8192
unfolding stream_names
stream_names-bounded total [] m h = ground arith
stream_names-bounded total (name ∷ names) m h =
    ground (arith, stream_names-bounded (total + (len name + value_length (lookup name m))) names m)

stream_names-valid :
    (total : ℕ) (names : List String) (m : Parameters) (name : String)
    → stream_names total names m ≡ true
    → contains names name ≡ true
    → valid_stream_value (lookup name m) ≡ true
unfolding stream_names
stream_names-valid total [] m name h c = cc
stream_names-valid total (x ∷ xs) m name h c = elim (Bool-cases (x == name)) [
  | inl same ↦ let eq : x ≡ name = (string_eq.beq_iff x name).0 same in rw (← eq) (ground arith)
  | inr other ↦
      stream_names-valid (total + (len x + value_length (lookup x m))) xs m name (ground arith)
        (ground arith)
]

-- Parameters of a stream that pass the check come to at most 8 KiB, and each expected name has a
-- value without control characters, of at most 4 KiB.
pub validate_stream_parameters_lem :
    (expected : List String) (m : Parameters) (name : String)
    → validate_stream_parameters expected m ≡ true
    → contains expected name ≡ true
    → (encoded_length expected m ≤ 8192) × (valid_stream_value (lookup name m) ≡ true)
unfolding validate_stream_parameters
validate_stream_parameters_lem expected m name h c =
    let passed : stream_names 0 expected m ≡ true = ground arith in
    (
      omega (arith, stream_names-bounded 0 expected m passed),
      stream_names-valid 0 expected m name passed c,
    )
