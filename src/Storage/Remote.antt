-- ===== src/Storage/Remote.antt =====
-- The validation of remote storage in internal/modules/storage/remote.go; a result is true where the
-- source returns a nil error. `net.ParseIP`, `unicode.IsControl` over a text, `strconv.ParseUint` for
-- 32 bits and `strconv.FormatUint` are parameters.
pub mod Ownership
use Prim.Native.Char.{code, Char}
use Prim.Native.String.{len, ◌++◌ as append}
use pilothouse.Base.{
  ℕ, zero, suc, ◌+◌, ◌^◌, ◌-◌, String, Bool, true, false, not, ◌&&◌, ◌||◌, Option, none, some, List,
  [], ◌∷◌, string_eq, nat_eq, ◌==◌, ltb, leb, if◌then◌else◌, any, Result, ok, err, ◌>>=◌,
}
use pilothouse.Broker.Text.{contains_break}
use pilothouse.Storage.Names.{has_prefix, between}

-- Does the text contain this code?
unfoldable pub contains_code : ℕ → String → Bool
contains_code n String.[] = false
contains_code n (String.◌∷◌ c s) =
    let rest = contains_code n s in if code c == n then true else rest

-- `ValidateNFSExport`
unfoldable pub valid_nfs_export : (String → Bool) → String → Bool
valid_nfs_export has_control value =
    has_prefix value "/" && (not (contains_code 44 value) && not (has_control value))

-- `ValidateNFSVersion`
unfoldable pub valid_nfs_version : String → Bool
valid_nfs_version value =
    value == "auto" || (value == "3" || (value == "4" || (value == "4.1" || value == "4.2")))

-- `ValidatePassword`
unfoldable pub valid_password : String → Bool
valid_password value =
    not (len value == 0) && (not (ltb 512 (len value)) && not (contains_break value))

-- `ValidateProtocol`
unfoldable pub valid_protocol : String → Bool
valid_protocol value = value == "nfs" || value == "smb"

-- `ParseReadOnly`
unfoldable pub parse_read_only : String → Option Bool
parse_read_only value =
    if value == "true" then some true else if value == "false" then some false else none

-- `ValidateSMBShare`
unfoldable pub valid_smb_share : (String → Bool) → String → Bool
valid_smb_share has_control value =
    not (value == "")
    && (not (contains_code 47 value) && (not (contains_code 92 value) && not (has_control value)))

-- `ValidateSMBVersion`
unfoldable pub valid_smb_version : String → Bool
valid_smb_version value =
    value == "auto" || (value == "2.1" || (value == "3.0" || value == "3.1.1"))

-- `ValidateUsername`
unfoldable pub valid_username : (String → Bool) → String → Bool
valid_username has_control value =
    not (len value == 0) && (not (ltb 256 (len value)) && not (has_control value))

-- `strings.Split(value, ".")`
unfoldable pub split_dots : String → List String
split_dots String.[] = "" ∷ []
split_dots (String.◌∷◌ c s) =
    let rest = split_dots s in
    if code c == 46
    then "" ∷ rest
    else elim rest [ [] ↦ String.◌∷◌ c String.[] ∷ [] | part ∷ parts ↦ String.◌∷◌ c part ∷ parts ]

-- What the loop over a label of `validDNSName` accepts.
abbrev pub label_rune : Char → Bool
label_rune c =
    between 97 122 (code c) || (between 65 90 (code c) || (between 48 57 (code c) || code c == 45))

unfoldable pub label_runes : String → Bool
label_runes String.[] = true
label_runes (String.◌∷◌ c s) = let rest = label_runes s in if label_rune c then rest else false

unfoldable pub ends_with_code : ℕ → String → Bool
ends_with_code n String.[] = false
ends_with_code n (String.◌∷◌ c String.[]) = code c == n
ends_with_code n (String.◌∷◌ c (String.◌∷◌ d s)) = ends_with_code n (String.◌∷◌ d s)

unfoldable pub valid_label : String → Bool
valid_label label =
    not (len label == 0)
    && (not (ltb 63 (len label))
        && (not (has_prefix label "-") && (not (ends_with_code 45 label) && label_runes label)))

-- `validDNSName`
unfoldable pub valid_dns_name : String → Bool
valid_dns_name value =
    if len value == 0 || ltb 253 (len value)
    then false
    else not (any (λ label. not (valid_label label)) (split_dots value))

-- `ValidateHost`; `is_ip` says whether `net.ParseIP` reads an address.
unfoldable pub valid_host : (String → Bool) → String → Bool
valid_host is_ip value = is_ip value || valid_dns_name value

-- `nfsMountSource`
unfoldable pub nfs_mount_source : String → String → String
nfs_mount_source host export =
    if contains_code 58 host
    then append "[" (append host (append "]:" export))
    else append host (append ":" export)

-- `SMBOwnership`
pub record SmbOwnership : Type 0 where
  pub uid : String
  pub gid : String

pub data OwnershipError : Type 0 where
  invalid_smb_ownership : OwnershipError

unfoldable pub all_digits : String → Bool
all_digits String.[] = true
all_digits (String.◌∷◌ c s) =
    let rest = all_digits s in if between 48 57 (code c) then rest else false

-- `LegacyManifestFormatVersion` and `ManifestFormatVersion`
abbrev pub legacy_manifest_format_version : ℕ
legacy_manifest_format_version = 1

abbrev pub manifest_format_version : ℕ
manifest_format_version = 2

abbrev pub same_ownership : SmbOwnership → SmbOwnership → Bool
same_ownership a b = a.uid == b.uid && a.gid == b.gid

abbrev pub no_ownership : SmbOwnership
no_ownership = record { uid = ""; gid = "" }

module _ (parse_uint : String → Option ℕ) (format_uint : ℕ → String) where
  -- The function `parse` of `ParseSMBOwnership`.
  unfoldable pub canonical_number : String → Result OwnershipError String
  canonical_number value =
      if not (all_digits value) then err invalid_smb_ownership else elim (parse_uint value) [
        | none ↦ err invalid_smb_ownership
        | some number ↦
            if number == 4294967295 then err invalid_smb_ownership else ok (format_uint number)
      ]

  both_numbers : String → String → Result OwnershipError SmbOwnership
  both_numbers uid gid = do
    canonical_uid ← canonical_number uid
    canonical_gid ← canonical_number gid
    ok (record { uid = canonical_uid; gid = canonical_gid })

  -- `ParseSMBOwnership`
  unfoldable pub parse_smb_ownership : String → String → Result OwnershipError SmbOwnership
  unfolding both_numbers
  parse_smb_ownership uid gid =
      if uid == "" && gid == ""
      then ok no_ownership
      else if uid == "" || gid == ""
      then err invalid_smb_ownership
      else both_numbers uid gid

  -- `validateDefinitionOwnership(...) == nil`
  unfoldable pub valid_definition_ownership : ℕ → String → SmbOwnership → Bool
  valid_definition_ownership format_version protocol ownership =
      if not (format_version == legacy_manifest_format_version)
        && not (format_version == manifest_format_version)
      then false
      else if format_version == legacy_manifest_format_version
      then same_ownership ownership no_ownership
      else elim (parse_smb_ownership ownership.uid ownership.gid) [
        | err e ↦ false
        | ok canonical ↦
            same_ownership canonical ownership
            && (protocol == "smb" || same_ownership ownership no_ownership)
      ]
