-- ===== src/Broker/Server/Bearer.antt =====
-- `bearerToken` of internal/broker/server.go.
use Prim.Native.Char.{code}
use Prim.Native.String.{◌++◌ as append}
use text.Mathlib.TextLemmas.{nil-append, cons-append}
use pilothouse.Base.{◌≡◌, String, Option, none, some, nat_eq, ◌==◌, eq_refl, if◌then◌else◌}

-- `strings.CutPrefix`
unfoldable pub cut_prefix : String → String → Option String
cut_prefix s String.[] = some s
cut_prefix String.[] (String.◌∷◌ d p) = none
cut_prefix (String.◌∷◌ c s) (String.◌∷◌ d p) =
    let rest = cut_prefix s p in if code c == code d then rest else none

-- The token of the header, and the empty text where there is none.
unfoldable pub bearer_token : Option String → String
bearer_token none = ""
bearer_token (some value) = elim (cut_prefix value "Bearer ") [ none ↦ "" | some token ↦ token ]

cut_prefix-append : (p s : String) → cut_prefix (append p s) p ≡ some s
unfolding cut_prefix
cut_prefix-append String.[] s = rw (nil-append s)
cut_prefix-append (String.◌∷◌ c p) s =
    rw (cons-append c p s) (rw (eq_refl (code c), cut_prefix) (cut_prefix-append p s))

pub bearer_token-append : (token : String) → bearer_token (some (append "Bearer " token)) ≡ token
unfolding bearer_token
bearer_token-append token = rw (cut_prefix-append "Bearer " token, bearer_token)
