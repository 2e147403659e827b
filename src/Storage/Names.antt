-- ===== src/Storage/Names.antt =====
-- The tests on names that internal/modules/storage/remote.go and paths.go make. A text is valid
-- UTF-8 here, so `validText` is true; bytes outside ASCII pass no test below, as in the source.
use Prim.Native.Char.{code, Char}
use Prim.Native.String.{len}
use pilothouse.Base.{
  ℕ, zero, suc, String, Bool, true, false, not, ◌&&◌, ◌||◌, string_eq, nat_eq, ◌==◌, ltb, leb,
  if◌then◌else◌,
}

-- `strings.HasPrefix`
unfoldable pub has_prefix : String → String → Bool
has_prefix s String.[] = true
has_prefix String.[] (String.◌∷◌ d p) = false
has_prefix (String.◌∷◌ c s) (String.◌∷◌ d p) =
    let rest = has_prefix s p in if code c == code d then rest else false

-- `strings.HasSuffix`
unfoldable pub has_suffix : String → String → Bool
has_suffix String.[] suffix = suffix == ""
has_suffix (String.◌∷◌ c s) suffix =
    let rest = has_suffix s suffix in if String.◌∷◌ c s == suffix then true else rest

-- `strings.TrimSuffix`
unfoldable pub trim_suffix : String → String → String
trim_suffix String.[] suffix = String.[]
trim_suffix (String.◌∷◌ c s) suffix =
    let rest = trim_suffix s suffix in
    if String.◌∷◌ c s == suffix then String.[] else String.◌∷◌ c rest

-- Does the code lie between the two?
abbrev pub between : ℕ → ℕ → ℕ → Bool
between low high n = leb low n && leb n high

-- `hexByte`
abbrev pub hex_byte : Char → Bool
hex_byte c = between 48 57 (code c) || between 97 102 (code c)

-- The loop of `ValidateDefinitionID`.
unfoldable pub all_hex : String → Bool
all_hex String.[] = true
all_hex (String.◌∷◌ c s) = let rest = all_hex s in if hex_byte c then rest else false

-- `ValidateDefinitionID(value) == nil`
unfoldable pub valid_definition_id : String → Bool
valid_definition_id value = if not (len value == 32) then false else all_hex value

-- The bytes that `validUnitName` passes without an escape.
abbrev pub plain_byte : Char → Bool
plain_byte c =
    between 97 122 (code c)
    || (between 65 90 (code c)
        || (between 48 57 (code c)
            || (code c == 58 || (code c == 95 || (code c == 46 || code c == 45)))))

-- The loop of `validUnitName`; the first argument counts what is missing of an escape `\x..`.
unfoldable pub unit_bytes : ℕ → String → Bool
unit_bytes zero String.[] = true
unit_bytes (suc n) String.[] = false
unit_bytes zero (String.◌∷◌ c s) =
    let plain = unit_bytes 0 s in
    let escaped = unit_bytes 3 s in
    if plain_byte c then plain else if code c == 92 then escaped else false
unit_bytes (suc zero) (String.◌∷◌ c s) =
    let rest = unit_bytes 0 s in if hex_byte c then rest else false
unit_bytes (suc (suc zero)) (String.◌∷◌ c s) =
    let rest = unit_bytes 1 s in if hex_byte c then rest else false
unit_bytes (suc (suc (suc n))) (String.◌∷◌ c s) =
    let rest = unit_bytes 2 s in if code c == 120 then rest else false

-- `validUnitName`
unfoldable pub valid_unit_name : String → Bool
valid_unit_name name =
    if len name == 0
      || (ltb 255 (len name)
          || (not (has_suffix name ".mount") && not (has_suffix name ".automount")))
    then false
    else if trim_suffix (trim_suffix name ".automount") ".mount" == ""
    then false
    else unit_bytes 0 name
