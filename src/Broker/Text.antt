-- ===== src/Broker/Text.antt =====
-- The tests on texts that internal/broker makes before it trusts one. `len` counts the bytes of the
-- UTF-8 form, as Go's `len` does.
use Prim.Native.Char.{code}
use Prim.Native.String.{len}
use pilothouse.Base.{
  ℕ, String, Bool, true, false, ◌||◌, ltb, string_eq, nat_eq, ◌==◌, if◌then◌else◌,
}

-- `strings.ContainsAny(s, "\r\n\x00")`
unfoldable pub contains_break : String → Bool
contains_break String.[] = false
contains_break (String.◌∷◌ c s) =
    let rest = contains_break s in
    if code c == 13 || code c == 10 || code c == 0 then true else rest

-- `s == "" || len(s) > limit || strings.ContainsAny(s, "\r\n\x00")`
unfoldable pub invalid_text : ℕ → String → Bool
invalid_text limit s = s == "" || ltb limit (len s) || contains_break s
