-- ===== src/Storage/Definitions/Accepted.antt =====
-- A request that is accepted gives a definition that the store accepts.
use pilothouse.Base.{
  List, ℕ, String, true, false, not, ◌&&◌, ◌||◌, string_eq, nat_eq, ◌==◌, if◌then◌else◌, ok, some,
  ◌≡◌, refl, subst, arith, eq_refl, inl, inr, Bool-cases, Result-cases,
}
use pilothouse.Storage.Names.{valid_definition_id}
use pilothouse.Storage.Remote.{
  SmbOwnership, no_ownership, same_ownership, parse_smb_ownership, valid_definition_ownership,
  manifest_format_version, valid_protocol, all_digits, valid_username, valid_password,
}
use pilothouse.Storage.Remote.Ownership.{parse_smb_ownership_lem}
use pilothouse.Storage.Definitions.{
  CreateRequest, Definition, TextChecks, is_target, blank_definition, nfs_texts, smb_texts,
  nfs_definition, smb_definition, definition, valid_frame, valid_artifact_definition,
  half_credentials, valid_render_definition,
}
use pilothouse.Storage.Units.{
  MountSettings, mount_settings, mount_lines, automount_lines, render_mount_unit,
  render_automount_unit,
}

active_nonempty : string_eq.beq "active" "" ≡ false
active_nonempty = refl

module _ (t : TextChecks)
    (parse-format : (s : String) (n : ℕ)
      → t.parse_uint s ≡ some n
      → t.parse_uint (t.format_uint n) ≡ some n)
    (all_digits-format : (n : ℕ) → all_digits (t.format_uint n) ≡ true)
    (format_nonempty : (n : ℕ) → (t.format_uint n == "") ≡ false) where
  -- What a canonical ownership needs to be valid in a definition.
  ownership-valid :
      (uid gid protocol : String) (o : SmbOwnership)
      → parse_smb_ownership t.parse_uint t.format_uint uid gid ≡ ok o
      → (not (protocol == "smb") && not (same_ownership o no_ownership)) ≡ false
      → valid_definition_ownership t.parse_uint t.format_uint manifest_format_version protocol o
        ≡ true
  unfolding valid_definition_ownership
  ownership-valid uid gid protocol o h allowed =
      let again =
        parse_smb_ownership_lem t.parse_uint t.format_uint parse-format all_digits-format
          format_nonempty uid gid o h in
      rw (again.0, eq_refl o.uid, eq_refl o.gid, valid_definition_ownership) (ground arith)

  blank-frame :
      (r : CreateRequest) (o : SmbOwnership)
      → parse_smb_ownership t.parse_uint t.format_uint r.uid r.gid ≡ ok o
      → (not (r.protocol == "smb") && not (same_ownership o no_ownership)) ≡ false
      → (not (valid_definition_id r.id)
          || (not (valid_protocol r.protocol) || not (is_target t r.target)))
        ≡ false
      → valid_frame t (blank_definition t r o) ≡ true
  unfolding valid_frame
  blank-frame r o h allowed named = ground (
    arith,
    ownership-valid r.uid r.gid r.protocol o h allowed,
    eq_refl (t.unit_name r.target),
    active_nonempty,
  )

  nfs_definition-valid :
      (r : CreateRequest) (o : SmbOwnership) (d : Definition)
      → valid_frame t (blank_definition t r o) ≡ true
      → (r.protocol == "nfs") ≡ true
      → nfs_definition t r o ≡ ok d
      → valid_artifact_definition t d ≡ true
  unfolding nfs_definition valid_artifact_definition valid_frame
  nfs_definition-valid r o d frame nfs h =
      let given : (not (nfs_texts t r.host r.export r.version)
            || (not (r.password == "") || not (r.username == "")))
          ≡ false =
        ground arith in
      let same : record (blank_definition t r o) { host = r.host; export = r.export } ≡ d =
        ground arith in
      subst (λ x. valid_artifact_definition t x ≡ true) same
        (rw (nfs, frame, valid_artifact_definition) (ground arith))

  smb_definition-valid :
      (r : CreateRequest) (o : SmbOwnership) (d : Definition)
      → valid_frame t (blank_definition t r o) ≡ true
      → valid_definition_id r.id ≡ true
      → (r.protocol == "nfs") ≡ false
      → (r.protocol == "smb") ≡ true
      → smb_definition t r o ≡ ok d
      → valid_artifact_definition t d ≡ true
  unfolding smb_definition valid_artifact_definition valid_frame
  smb_definition-valid r o d frame id nfs smb h =
      let given : (not (smb_texts t r.server r.share r.version)
            || (half_credentials r
                || ((not (r.username == "") && not (valid_username t.has_control r.username))
                    || (not (r.password == "") && not (valid_password r.password)))))
          ≡ false =
        ground arith in
      let same : record (blank_definition t r o) {
        server = r.server;
        share = r.share;
        username = r.username;
        credential = if r.username == "" then "" else t.credential_path r.id;
      }
          ≡ d =
        ground arith in
      subst (λ x. valid_artifact_definition t x ≡ true) same
        (rw (nfs, smb, frame, valid_artifact_definition)
          (elim (Bool-cases (r.username == "")) [
            | inl guest ↦ rw guest (ground arith)
            | inr named ↦ rw (named, id, eq_refl (t.credential_path r.id)) (ground arith)
          ]))

  definition-artifact :
      (r : CreateRequest) (d : Definition)
      → definition t r ≡ ok d
      → valid_artifact_definition t d ≡ true
  unfolding definition
  definition-artifact r d h =
      elim (Result-cases (parse_smb_ownership t.parse_uint t.format_uint r.uid r.gid)) [
        | inr (e, failed) ↦ absurd (ground arith)
        | inl (o, parsed) ↦
            let allowed : (not (r.protocol == "smb") && not (same_ownership o no_ownership))
                ≡ false =
              ground arith in
            let named : (not (valid_definition_id r.id)
                  || (not (valid_protocol r.protocol) || not (is_target t r.target)))
                ≡ false =
              ground arith in
            let frame = blank-frame r o parsed allowed named in
            elim (Bool-cases (r.protocol == "nfs")) [
              | inl nfs ↦ nfs_definition-valid r o d frame nfs (ground arith)
              | inr other ↦ elim (Bool-cases (r.protocol == "smb")) [
                | inl smb ↦ smb_definition-valid r o d frame (ground arith) other smb (ground arith)
                | inr neither ↦ absurd (ground arith)
              ]
            ]
      ]

  -- A definition that the store accepts may be rendered, where a definition has a path for its
  -- credentials.
  artifact-render :
      (d : Definition)
      → ((t.credential_path d.id == "") ≡ false)
      → valid_artifact_definition t d ≡ true
      → valid_render_definition t d ≡ true
  unfolding valid_artifact_definition valid_render_definition
  artifact-render d path h = elim (Bool-cases (d.username == "")) [
    | inl guest ↦ ground arith
    | inr named ↦ elim (Bool-cases (d.protocol == "nfs")) [
      | inl nfs ↦ ground arith
      | inr other ↦
          let same : d.credential ≡ t.credential_path d.id =
            (string_eq.beq_iff d.credential (t.credential_path d.id)).0 (ground arith) in
          let full : (d.credential == "") ≡ false = rw same path in ground arith
    ]
  ]

  artifact-settings :
      (d : Definition)
      → ((t.credential_path d.id == "") ≡ false)
      → valid_artifact_definition t d ≡ true
      → (m : MountSettings) × (mount_settings t d ≡ ok m)
  unfolding mount_settings valid_artifact_definition
  artifact-settings d path h = elim (Result-cases (mount_settings t d)) [
    | inl settled ↦ settled
    | inr (e, failed) ↦ absurd (elim (Bool-cases (d.username == "")) [
      | inl guest ↦ ground arith
      | inr named ↦ elim (Bool-cases (d.protocol == "nfs")) [
        | inl nfs ↦ ground arith
        | inr other ↦
            let same : d.credential ≡ t.credential_path d.id =
              (string_eq.beq_iff d.credential (t.credential_path d.id)).0 (ground arith) in
            let full : (d.credential == "") ≡ false = rw same path in ground arith
      ]
    ])
  ]

  -- A request that `definition` accepts gives a definition that the store of artifacts accepts and of
  -- which both units are rendered, where `strconv.FormatUint` writes digits that `ParseUint` reads
  -- back, and where the path for the credentials of the request's id is not empty.
  pub definition-valid :
      (r : CreateRequest) (d : Definition)
      → ((t.credential_path d.id == "") ≡ false)
      → definition t r ≡ ok d
      → (valid_artifact_definition t d ≡ true)
        × ((mount : List String) × (render_mount_unit t d ≡ ok mount))
        × ((automount : List String) × (render_automount_unit t d ≡ ok automount))
  unfolding render_mount_unit render_automount_unit
  definition-valid r d path h =
      let accepted = definition-artifact r d h in
      let rendered = artifact-render d path accepted in
      let (m, settled) = artifact-settings d path accepted in
      (
        accepted,
        (mount_lines d m, rw (rendered, settled) refl),
        (automount_lines d, rw rendered refl),
      )
