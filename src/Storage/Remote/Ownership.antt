-- ===== src/Storage/Remote/Ownership.antt =====
-- The canonical form of the owner of an SMB mount.
use pilothouse.Base.{
  ℕ, ◌≡◌, refl, subst, ap, String, true, false, ◌&&◌, ◌||◌, Option, some, string_eq, nat_eq, ◌==◌,
  eq_refl, ok, >>=-eq-ok, arith, Bool-cases, Option-cases, inl, inr,
}
use pilothouse.Storage.Remote.{
  SmbOwnership, all_digits, canonical_number, both_numbers, parse_smb_ownership,
  valid_definition_ownership, no_ownership, manifest_format_version,
}

module _ (parse_uint : String → Option ℕ) (format_uint : ℕ → String)
    (parse-format : (s : String) (n : ℕ)
      → parse_uint s ≡ some n
      → parse_uint (format_uint n) ≡ some n)
    (all_digits-format : (n : ℕ) → all_digits (format_uint n) ≡ true)
    (format_nonempty : (n : ℕ) → (format_uint n == "") ≡ false) where
  -- The number behind a canonical text.
  record Canonical (t : String) : Type 0 where
    nonempty : (t == "") ≡ false
    again : canonical_number parse_uint format_uint t ≡ ok t

  canonical_number-Canonical :
      (s t : String) → canonical_number parse_uint format_uint s ≡ ok t → Canonical t
  unfolding canonical_number
  canonical_number-Canonical s t h = elim (Bool-cases (all_digits s)) [
    | inr bad ↦ absurd (ground arith)
    | inl digits ↦ elim (Option-cases (parse_uint s)) [
      | inl fails ↦ absurd (ground arith)
      | inr (n, parsed) ↦ elim (Bool-cases (n == 4294967295)) [
        | inl reserved ↦ absurd (ground arith)
        | inr fine ↦
            let same : format_uint n ≡ t = ground arith in
            subst Canonical same (record {
              nonempty = format_nonempty n;
              again =
                  rw (all_digits-format n, parse-format s n parsed, fine, canonical_number) refl;
            })
      ]
    ]
  ]

  parse_again :
      (uid gid : String) (o : SmbOwnership)
      → parse_smb_ownership parse_uint format_uint uid gid ≡ ok o
      → parse_smb_ownership parse_uint format_uint o.uid o.gid ≡ ok o
  unfolding parse_smb_ownership both_numbers
  parse_again uid gid o h = elim (Bool-cases (uid == "" && gid == "")) [
    | inl neither ↦
        let same : no_ownership ≡ o = ground arith in
        subst (λ o. parse_smb_ownership parse_uint format_uint o.uid o.gid ≡ ok o) same refl
    | inr some_given ↦ elim (Bool-cases (uid == "" || gid == "")) [
      | inl half ↦ absurd (ground arith)
      | inr both ↦
          let (u, first, h1) =
            >>=-eq-ok (canonical_number parse_uint format_uint uid) _
              (rw (some_given, both) at h) in
          let (g, second, h2) = >>=-eq-ok (canonical_number parse_uint format_uint gid) _ h1 in
          let cu = canonical_number-Canonical uid u first in
          let cg = canonical_number-Canonical gid g second in
          let same : record { uid = u; gid = g } ≡ o = ground arith in
          subst (λ o. parse_smb_ownership parse_uint format_uint o.uid o.gid ≡ ok o) same
            (rw (cu.nonempty, cg.nonempty, cu.again, cg.again, parse_smb_ownership, both_numbers)
              refl)
    ]
  ]

  -- What `ParseSMBOwnership` has made of a user and a group is its own canonical form, and passes in
  -- the manifest of an SMB mount, where `strconv.FormatUint` writes digits that `ParseUint` reads back.
  pub parse_smb_ownership_lem :
      (uid gid : String) (o : SmbOwnership)
      → parse_smb_ownership parse_uint format_uint uid gid ≡ ok o
      → (parse_smb_ownership parse_uint format_uint o.uid o.gid ≡ ok o)
        × (valid_definition_ownership parse_uint format_uint manifest_format_version "smb" o ≡ true)
  unfolding valid_definition_ownership
  parse_smb_ownership_lem uid gid o h =
      let again = parse_again uid gid o h in
      (again, rw (again, eq_refl o.uid, eq_refl o.gid, valid_definition_ownership) refl)

module _ (parse_uint : String → Option ℕ) (format_uint : ℕ → String) where
  canonical_number-all_digits :
      (s t : String) → canonical_number parse_uint format_uint s ≡ ok t → all_digits s ≡ true
  unfolding canonical_number
  canonical_number-all_digits s t h = ground arith

  pub parse_smb_ownership-all_digits :
      (uid gid : String) (o : SmbOwnership)
      → parse_smb_ownership parse_uint format_uint uid gid ≡ ok o
      → (all_digits uid ≡ true) × (all_digits gid ≡ true)
  unfolding parse_smb_ownership all_digits
  parse_smb_ownership-all_digits uid gid o h = elim (Bool-cases (uid == "" && gid == "")) [
    | inl neither ↦
        let no_uid : uid ≡ "" = (string_eq.beq_iff uid "").0 (ground arith) in
        let no_gid : gid ≡ "" = (string_eq.beq_iff gid "").0 (ground arith) in
        (ap all_digits no_uid, ap all_digits no_gid)
    | inr some_given ↦ elim (Bool-cases (uid == "" || gid == "")) [
      | inl half ↦ absurd (ground arith)
      | inr both ↦
          let (u, first, h1) =
            >>=-eq-ok (canonical_number parse_uint format_uint uid) _
              (rw (some_given, both) at h) in
          let (g, second, h2) = >>=-eq-ok (canonical_number parse_uint format_uint gid) _ h1 in
          (canonical_number-all_digits uid u first, canonical_number-all_digits gid g second)
    ]
  ]
