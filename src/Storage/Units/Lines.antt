-- ===== src/Storage/Units/Lines.antt =====
-- No line of a unit holds a line feed or a carriage return.
use pilothouse.Base.{
  ℕ, String, true, string_eq, nat_eq, ◌==◌, List, ◌∷◌, ◌++◌, sort, ok, ◌≡◌, ◌⊎◌, refl, subst, arith,
  inl, inr, Bool-cases, Result-cases, All, All-append, sort-All,
}
use pilothouse.Storage.Names.{valid_definition_id}
use pilothouse.Storage.Remote.{
  parse_smb_ownership, legacy_manifest_format_version, valid_definition_ownership, SmbOwnership,
  no_ownership, same_ownership,
}
use pilothouse.Storage.Remote.Ownership.{parse_smb_ownership-all_digits}
use pilothouse.Storage.Definitions.{
  Definition, TextChecks, nfs_texts, smb_texts, valid_frame, valid_render_definition,
}
use pilothouse.Storage.Units.{
  escape_systemd_value, join_commas, common_options, version_option, account_option,
  ownership_options, MountSettings, mount_settings, mount_lines, automount_lines, render_mount_unit,
  render_automount_unit,
}
use pilothouse.Storage.Units.Texts.{
  has_break, append-IsLine, if-IsLine, escape-IsLine, join_commas-IsLine, all_hex-IsLine,
  all_digits-IsLine, literal-IsLine, nfs_version-IsLine, smb_version-IsLine, IsLine,
}

module _ (t : TextChecks) where
  ownership-IsLine :
      (format : ℕ) (protocol : String) (o : SmbOwnership)
      → valid_definition_ownership t.parse_uint t.format_uint format protocol o ≡ true
      → IsLine o.uid × IsLine o.gid
  unfolding valid_definition_ownership has_break
  ownership-IsLine format protocol o h =
      elim (Bool-cases (format == legacy_manifest_format_version)) [
        | inl legacy ↦
            let empty : same_ownership o no_ownership ≡ true = ground arith in
            (
              literal-IsLine o.uid "" (ground arith) refl,
              literal-IsLine o.gid "" (ground arith) refl,
            )
        | inr current ↦
            elim (Result-cases (parse_smb_ownership t.parse_uint t.format_uint o.uid o.gid)) [
              | inr (e, failed) ↦ absurd (ground arith)
              | inl (canonical, parsed) ↦
                  let digits =
                    parse_smb_ownership-all_digits t.parse_uint t.format_uint o.uid o.gid canonical
                      parsed in
                  (all_digits-IsLine o.uid digits.0, all_digits-IsLine o.gid digits.1)
            ]
      ]

  common_options-IsLine : (d : Definition) → All IsLine (common_options d)
  unfolding has_break
  common_options-IsLine d = (refl, (refl, (if-IsLine d.read_only _ _ refl (λ b. refl), tt)))

  version_option-IsLine :
      (name : String) (d : Definition)
      → IsLine name
      → IsLine d.protocol_version
      → All IsLine (version_option name d)
  version_option-IsLine name d h v = elim (Bool-cases (d.protocol_version == "auto")) [
    | inl auto ↦ rw auto tt
    | inr other ↦ rw other (append-IsLine name d.protocol_version h v, tt)
  ]

  ownership_options-IsLine :
      (d : Definition)
      → IsLine d.ownership.uid
      → IsLine d.ownership.gid
      → All IsLine (ownership_options d)
  unfolding has_break
  ownership_options-IsLine d uid gid = elim (Bool-cases (d.ownership.uid == "")) [
    | inl absent ↦ rw absent tt
    | inr given ↦ rw given (
      append-IsLine "uid=" d.ownership.uid refl uid,
      (append-IsLine "gid=" d.ownership.gid refl gid, tt),
    )
  ]

  account_option-IsLine : (d : Definition) → IsLine (account_option d)
  unfolding has_break
  account_option-IsLine d = if-IsLine (d.username == "") _ _ refl (λ named.
      append-IsLine "credentials=" (escape_systemd_value d.credential) refl
        (escape-IsLine d.credential))

  -- What a definition that may be rendered has without a line break.
  record Plain (d : Definition) : Type 0 where
    id : IsLine d.id
    uid : IsLine d.ownership.uid
    gid : IsLine d.ownership.gid

  render-Plain : (d : Definition) → valid_render_definition t d ≡ true → Plain d
  unfolding valid_render_definition valid_frame valid_definition_id
  render-Plain d h =
      let frame : valid_frame t d ≡ true = ground arith in
      let owners = ownership-IsLine d.format_version d.protocol d.ownership (ground arith) in
      record { id = all_hex-IsLine d.id (ground arith); uid = owners.0; gid = owners.1 }

  mount_settings-IsLine :
      (d : Definition) (m : MountSettings)
      → Plain d
      → mount_settings t d ≡ ok m
      → IsLine m.filesystem × All IsLine m.options
  unfolding mount_settings nfs_texts smb_texts has_break
  mount_settings-IsLine d m plain h = elim (Bool-cases (d.protocol == "nfs")) [
    | inl nfs ↦
        let version = nfs_version-IsLine d.protocol_version (ground arith) in
        let options = sort-All IsLine (common_options d ++ version_option "nfsvers=" d) (
          All-append IsLine (common_options d) (version_option "nfsvers=" d)
            (common_options-IsLine d) (version_option-IsLine "nfsvers=" d refl version)) in
        let filesystem : "nfs" ≡ m.filesystem = ground arith in
        let same : sort (common_options d ++ version_option "nfsvers=" d) ≡ m.options =
          ground arith in
        (subst IsLine filesystem refl, subst (All IsLine) same options)
    | inr other ↦ elim (Bool-cases (d.protocol == "smb")) [
      | inr neither ↦ absurd (ground arith)
      | inl smb ↦
          let version = smb_version-IsLine d.protocol_version (ground arith) in
          let rest = version_option "vers=" d ++ ownership_options d in
          let options = sort-All IsLine (common_options d ++ (account_option d ∷ rest)) (
            All-append IsLine (common_options d) (account_option d ∷ rest) (common_options-IsLine d)
              (
                account_option-IsLine d,
                All-append IsLine (version_option "vers=" d) (ownership_options d)
                    (version_option-IsLine "vers=" d refl version)
                    (ownership_options-IsLine d plain.uid plain.gid),
              )) in
          let filesystem : "cifs" ≡ m.filesystem = ground arith in
          let same : sort (common_options d ++ (account_option d ∷ rest)) ≡ m.options =
            ground arith in
          (subst IsLine filesystem refl, subst (All IsLine) same options)
    ]
  ]

  mount_lines-IsLine :
      (d : Definition) (m : MountSettings)
      → IsLine d.id
      → IsLine m.filesystem
      → All IsLine m.options
      → All IsLine (mount_lines d m)
  unfolding has_break
  mount_lines-IsLine d m id filesystem options = (
    append-IsLine "# Managed by Pilothouse; definition=" d.id refl id,
    (
      refl,
      (
        append-IsLine "Description=Pilothouse remote storage " d.id refl id,
        (
          refl,
          (
            refl,
            (
              refl,
              (
                append-IsLine "What=" (escape_systemd_value m.what) refl (escape-IsLine m.what),
                (
                  append-IsLine "Where=" (escape_systemd_value d.target) refl
                      (escape-IsLine d.target),
                  (
                    append-IsLine "Type=" m.filesystem refl filesystem,
                    (
                      append-IsLine "Options=" (join_commas m.options) refl
                          (join_commas-IsLine m.options options),
                      (refl, (refl, tt)),
                    ),
                  ),
                ),
              ),
            ),
          ),
        ),
      ),
    ),
  )

  render_mount_unit-IsLine :
      (d : Definition) (lines : List String) → render_mount_unit t d ≡ ok lines → All IsLine lines
  unfolding render_mount_unit
  render_mount_unit-IsLine d lines h = elim (Bool-cases (valid_render_definition t d)) [
    | inr invalid ↦ absurd (ground arith)
    | inl valid ↦ elim (Result-cases (mount_settings t d)) [
      | inr (e, failed) ↦ absurd (ground arith)
      | inl (m, settled) ↦
          let plain = render-Plain d valid in
          let settings = mount_settings-IsLine d m plain settled in
          let same : mount_lines d m ≡ lines = ground arith in
          subst (All IsLine) same (mount_lines-IsLine d m plain.id settings.0 settings.1)
    ]
  ]

  render_automount_unit-IsLine :
      (d : Definition) (lines : List String)
      → render_automount_unit t d ≡ ok lines
      → All IsLine lines
  unfolding render_automount_unit has_break
  render_automount_unit-IsLine d lines h = elim (Bool-cases (valid_render_definition t d)) [
    | inr invalid ↦ absurd (ground arith)
    | inl valid ↦
        let plain = render-Plain d valid in
        let same : automount_lines d ≡ lines = ground arith in
        subst (All IsLine) same (
          append-IsLine "# Managed by Pilothouse; definition=" d.id refl plain.id,
          (
            refl,
            (
              append-IsLine "Description=Pilothouse automount " d.id refl plain.id,
              (
                refl,
                (
                  append-IsLine "Where=" (escape_systemd_value d.target) refl
                      (escape-IsLine d.target),
                  (refl, (refl, (refl, (refl, tt)))),
                ),
              ),
            ),
          ),
        )
  ]

  -- No line of a unit that is rendered holds a line feed or a carriage return, whatever the texts of
  -- the definition are.
  pub rendered-IsLine :
      (d : Definition) (lines : List String)
      → (render_mount_unit t d ≡ ok lines) ⊎ (render_automount_unit t d ≡ ok lines)
      → All IsLine lines
  rendered-IsLine d lines (inl mount) = render_mount_unit-IsLine d lines mount
  rendered-IsLine d lines (inr automount) = render_automount_unit-IsLine d lines automount
