-- ===== src/Tests/Remotes.antt =====
-- Owners of an SMB mount, with a reader of three numerals.
use pilothouse.Base.{
  ℕ, ◌≡◌, refl, String, true, false, Option, none, some, string_eq, nat_eq, ◌==◌, if◌then◌else◌, ok,
  err, arith, Bool-cases, inl, inr,
}
use pilothouse.Storage.Names.{has_prefix}
use pilothouse.Storage.Remote.{
  SmbOwnership, all_digits, canonical_number, parse_smb_ownership, invalid_smb_ownership,
  valid_definition_ownership, valid_dns_name, valid_label, split_dots, label_runes, ends_with_code,
  nfs_mount_source, contains_code,
}
use pilothouse.Storage.Remote.Ownership.{parse_smb_ownership_lem}

abbrev read_numeral : String → Option ℕ
read_numeral s =
    if s == "1000"
    then some 1000
    else if s == "01000"
    then some 1000
    else if s == "7"
    then some 7
    else none

abbrev write_numeral : ℕ → String
write_numeral n = if n == 1000 then "1000" else "7"

read-write :
    (s : String) (n : ℕ) → read_numeral s ≡ some n → read_numeral (write_numeral n) ≡ some n
read-write s n h = elim (Bool-cases (n == 1000)) [
  | inl thousand ↦ rw thousand (ground (arith, nat_eq.beq_iff n 1000))
  | inr other ↦ rw other (ground (arith, nat_eq.beq_iff n 1000))
]

all_digits-write : (n : ℕ) → all_digits (write_numeral n) ≡ true
unfolding all_digits
all_digits-write n = elim (Bool-cases (n == 1000)) [
  | inl thousand ↦ rw thousand refl
  | inr other ↦ rw other refl
]

write_nonempty : (n : ℕ) → (write_numeral n == "") ≡ false
write_nonempty n = elim (Bool-cases (n == 1000)) [
  | inl thousand ↦ rw thousand refl
  | inr other ↦ rw other refl
]

abbrev owner : SmbOwnership
owner = record { uid = "1000"; gid = "7" }

half_refused : parse_smb_ownership read_numeral write_numeral "1000" "" ≡ err invalid_smb_ownership
unfolding parse_smb_ownership
half_refused = refl

parse_smb_ownership_lem_example :
    (parse_smb_ownership read_numeral write_numeral "1000" "7" ≡ ok owner)
    × (valid_definition_ownership read_numeral write_numeral 2 "smb" owner ≡ true)
unfolding parse_smb_ownership canonical_number all_digits
parse_smb_ownership_lem_example =
    parse_smb_ownership_lem read_numeral write_numeral read-write all_digits-write write_nonempty
      "01000" "7" owner refl

names_accepted : valid_dns_name "nas-1.lan" ≡ true
unfolding valid_dns_name valid_label split_dots label_runes ends_with_code has_prefix
names_accepted = refl

dash_refused : valid_dns_name "nas-.lan" ≡ false
unfolding valid_dns_name valid_label split_dots label_runes ends_with_code has_prefix
dash_refused = refl

bracketed : nfs_mount_source "fd00::7" "/srv" ≡ "[fd00::7]:/srv"
unfolding nfs_mount_source contains_code
bracketed = refl
