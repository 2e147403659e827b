-- ===== src/Storage/Units.antt =====
-- internal/modules/storage/units.go: the texts of the systemd units of a remote mount, as their lines.
-- A text is valid UTF-8 here, so that the escape of a value goes through its characters.
pub mod Texts
pub mod Lines
use Prim.Native.Char.{Char, code}
use Prim.Native.String.{◌++◌ as append}
use pilothouse.Base.{
  ℕ, String, Bool, true, false, not, ◌&&◌, ◌||◌, string_eq, nat_eq, ◌==◌, if◌then◌else◌, Option,
  none, some, List, [], ◌∷◌, ◌++◌, sort, Result, ok, err,
}
use pilothouse.Storage.Remote.{valid_username, nfs_mount_source}
use pilothouse.Storage.Definitions.{
  Definition, TextChecks, ManifestError, invalid_manifest, nfs_texts, smb_texts,
  valid_render_definition,
}

-- The body of the loop of `escapeSystemdValue`.
unfoldable pub escape_char : Char → String
escape_char c =
    if code c == 37
    then "%%"
    else if code c == 92
    then "\\x5c"
    else if code c == 32
    then "\\x20"
    else if code c == 9
    then "\\x09"
    else if code c == 10
    then "\\x0a"
    else if code c == 13
    then "\\x0d"
    else String.◌∷◌ c ""

-- `escapeSystemdValue`
unfoldable pub escape_systemd_value : String → String
escape_systemd_value String.[] = ""
escape_systemd_value (String.◌∷◌ c s) = append (escape_char c) (escape_systemd_value s)

-- `artifactMarker`
abbrev pub artifact_marker : Definition → String
artifact_marker d = append "# Managed by Pilothouse; definition=" d.id

-- `strings.Join(options, ",")`
unfoldable pub join_commas : List String → String
join_commas [] = ""
join_commas (option ∷ []) = option
join_commas (option ∷ next ∷ options) = append option (append "," (join_commas (next ∷ options)))

abbrev pub common_options : Definition → List String
common_options d = "nodev" ∷ "nosuid" ∷ (if d.read_only then "ro" else "rw") ∷ []

abbrev pub version_option : String → Definition → List String
version_option name d =
    if d.protocol_version == "auto" then [] else append name d.protocol_version ∷ []

abbrev pub account_option : Definition → String
account_option d =
    if d.username == "" then "guest" else append "credentials=" (escape_systemd_value d.credential)

abbrev pub ownership_options : Definition → List String
ownership_options d =
    if d.ownership.uid == ""
    then []
    else append "uid=" d.ownership.uid ∷ append "gid=" d.ownership.gid ∷ []

-- What a mount unit says of its mount.
pub record MountSettings : Type 0 where
  pub what : String
  pub filesystem : String
  pub options : List String

abbrev pub mount_lines : Definition → MountSettings → List String
mount_lines d m =
    artifact_marker d
    ∷ "[Unit]"
    ∷ append "Description=Pilothouse remote storage " d.id
    ∷ "Wants=network-online.target"
    ∷ "After=network-online.target"
    ∷ "[Mount]"
    ∷ append "What=" (escape_systemd_value m.what)
    ∷ append "Where=" (escape_systemd_value d.target)
    ∷ append "Type=" m.filesystem
    ∷ append "Options=" (join_commas m.options)
    ∷ "TimeoutSec=30"
    ∷ ""
    ∷ []

abbrev pub automount_lines : Definition → List String
automount_lines d =
    artifact_marker d
    ∷ "[Unit]"
    ∷ append "Description=Pilothouse automount " d.id
    ∷ "[Automount]"
    ∷ append "Where=" (escape_systemd_value d.target)
    ∷ "TimeoutIdleSec=300"
    ∷ "[Install]"
    ∷ "WantedBy=multi-user.target"
    ∷ ""
    ∷ []

module _ (t : TextChecks) where
  -- `mountSettings`
  unfoldable pub mount_settings : Definition → Result ManifestError MountSettings
  mount_settings d =
      if d.protocol == "nfs"
      then (if not (nfs_texts t d.host d.export d.protocol_version)
          then err invalid_manifest
          else ok (record {
            what = nfs_mount_source d.host d.export;
            filesystem = "nfs";
            options = sort (common_options d ++ version_option "nfsvers=" d);
          }))
      else if d.protocol == "smb"
      then (if not (smb_texts t d.server d.share d.protocol_version)
            || (not (d.username == "")
                && (not (valid_username t.has_control d.username) || d.credential == ""))
          then err invalid_manifest
          else ok (record {
            what = append "//" (append d.server (append "/" d.share));
            filesystem = "cifs";
            options = sort (
                common_options d
                ++ (account_option d ∷ (version_option "vers=" d ++ ownership_options d)));
          }))
      else err invalid_manifest

  -- `RenderMountUnit`
  unfoldable pub render_mount_unit : Definition → Result ManifestError (List String)
  render_mount_unit d =
      if not (valid_render_definition t d)
      then err invalid_manifest
      else elim (mount_settings d) [ err e ↦ err e | ok m ↦ ok (mount_lines d m) ]

  -- `RenderAutomountUnit`
  unfoldable pub render_automount_unit : Definition → Result ManifestError (List String)
  render_automount_unit d =
      if not (valid_render_definition t d) then err invalid_manifest else ok (automount_lines d)
