-- ===== src/Storage/Definitions.antt =====
-- internal/modules/storage: the definitions of remote mounts, their making from a request
-- (`definition` in remote_manager.go) and the checks on them (manifest.go, units.go). `unit_name` is
-- systemd's escape of a path with `.mount` behind it, `credential_path` the joined path, and the
-- validations of texts are parameters as in Storage/Remote.
pub mod Accepted
use pilothouse.Base.{
  ℕ, String, Bool, true, false, not, ◌&&◌, ◌||◌, string_eq, nat_eq, ◌==◌, if◌then◌else◌, Result, ok,
  err, Option, none, some,
}
use pilothouse.Storage.Names.{valid_definition_id}
use pilothouse.Storage.Targets.{valid_target}
use pilothouse.Storage.Remote.{
  SmbOwnership, no_ownership, same_ownership, parse_smb_ownership, valid_definition_ownership,
  manifest_format_version, valid_nfs_export, valid_nfs_version, valid_password, valid_protocol,
  valid_smb_share, valid_smb_version, valid_username, valid_host,
}

-- `CreateRequest`
pub record CreateRequest : Type 0 where
  pub export : String
  pub host : String
  pub id : String
  pub password : String
  pub protocol : String
  pub read_only : Bool
  pub server : String
  pub share : String
  pub target : String
  pub username : String
  pub version : String
  pub uid : String
  pub gid : String

-- `Definition`
pub record Definition : Type 0 where
  pub created_target : Bool
  pub credential : String
  pub export : String
  pub format_version : ℕ
  pub host : String
  pub id : String
  pub protocol : String
  pub protocol_version : String
  pub read_only : Bool
  pub server : String
  pub share : String
  pub state : String
  pub target : String
  pub unit_name : String
  pub username : String
  pub ownership : SmbOwnership

pub data ManifestError : Type 0 where
  invalid_manifest : ManifestError

-- The parameters that the validation of a definition takes.
pub record TextChecks : Type 0 where
  pub clean : String → String
  pub has_control : String → Bool
  pub is_ip : String → Bool
  pub parse_uint : String → Option ℕ
  pub format_uint : ℕ → String
  pub unit_name : String → String
  pub credential_path : String → String

-- Is one of the password and the username missing?
abbrev pub half_credentials : CreateRequest → Bool
half_credentials r = if r.password == "" then not (r.username == "") else r.username == ""

module _ (t : TextChecks) where
  -- `ValidateTarget(value) == nil`
  abbrev pub is_target : String → Bool
  is_target value = valid_target t.clean t.has_control (λ s. s) "" value

  -- The tests that the checks share, on the texts of an NFS and of an SMB mount.
  unfoldable pub nfs_texts : String → String → String → Bool
  nfs_texts host export version =
      valid_host t.is_ip host
      && (valid_nfs_export t.has_control export && valid_nfs_version version)

  unfoldable pub smb_texts : String → String → String → Bool
  smb_texts server share version =
      valid_host t.is_ip server
      && (valid_smb_share t.has_control share && valid_smb_version version)

  -- The definition of a request before the texts of its protocol are filled in.
  abbrev pub blank_definition : CreateRequest → SmbOwnership → Definition
  blank_definition r ownership = record {
    created_target = false;
    credential = "";
    export = "";
    format_version = manifest_format_version;
    host = "";
    id = r.id;
    protocol = r.protocol;
    protocol_version = r.version;
    read_only = r.read_only;
    server = "";
    share = "";
    state = "active";
    target = r.target;
    unit_name = t.unit_name r.target;
    username = "";
    ownership = ownership;
  }

  unfoldable pub nfs_definition : CreateRequest → SmbOwnership → Result ManifestError Definition
  nfs_definition r ownership =
      if not (nfs_texts r.host r.export r.version)
        || (not (r.password == "") || not (r.username == ""))
      then err invalid_manifest
      else ok (record (blank_definition r ownership) { host = r.host; export = r.export })

  unfoldable pub smb_definition : CreateRequest → SmbOwnership → Result ManifestError Definition
  smb_definition r ownership =
      if not (smb_texts r.server r.share r.version)
        || (half_credentials r
            || ((not (r.username == "") && not (valid_username t.has_control r.username))
                || (not (r.password == "") && not (valid_password r.password))))
      then err invalid_manifest
      else ok (record (blank_definition r ownership) {
        server = r.server;
        share = r.share;
        username = r.username;
        credential = if r.username == "" then "" else t.credential_path r.id;
      })

  -- `definition`
  unfoldable pub definition : CreateRequest → Result ManifestError Definition
  definition r = elim (parse_smb_ownership t.parse_uint t.format_uint r.uid r.gid) [
    | err e ↦ err invalid_manifest
    | ok ownership ↦
        if not (r.protocol == "smb") && not (same_ownership ownership no_ownership)
        then err invalid_manifest
        else if not (valid_definition_id r.id)
            || (not (valid_protocol r.protocol) || not (is_target r.target))
        then err invalid_manifest
        else if r.protocol == "nfs"
        then nfs_definition r ownership
        else if r.protocol == "smb"
        then smb_definition r ownership
        else err invalid_manifest
  ]

  -- The tests that `validateArtifactDefinition` and `validateRenderDefinition` share.
  unfoldable pub valid_frame : Definition → Bool
  valid_frame d =
      valid_definition_ownership t.parse_uint t.format_uint d.format_version d.protocol d.ownership
      && (valid_definition_id d.id
          && (valid_protocol d.protocol
              && (is_target d.target
                  && (not (d.state == "") && d.unit_name == t.unit_name d.target))))

  abbrev pub only_nfs : Definition → Bool
  only_nfs d =
      nfs_texts d.host d.export d.protocol_version
      && (d.server == "" && (d.share == "" && (d.username == "" && d.credential == "")))

  abbrev pub only_smb : Definition → Bool
  only_smb d = smb_texts d.server d.share d.protocol_version && (d.host == "" && d.export == "")

  -- `validateArtifactDefinition(definition, store) == nil`
  unfoldable pub valid_artifact_definition : Definition → Bool
  valid_artifact_definition d =
      if not (valid_frame d)
      then false
      else if d.protocol == "nfs"
      then only_nfs d
      else if d.protocol == "smb"
      then only_smb d
        && (if d.username == ""
            then d.credential == ""
            else valid_definition_id d.id
              && (valid_username t.has_control d.username
                  && d.credential == t.credential_path d.id))
      else false

  -- `validateRenderDefinition(definition) == nil`
  unfoldable pub valid_render_definition : Definition → Bool
  valid_render_definition d =
      if not (valid_frame d)
      then false
      else if d.protocol == "nfs"
      then only_nfs d
      else if d.protocol == "smb"
      then only_smb d
        && (if d.username == ""
            then d.credential == ""
            else valid_username t.has_control d.username && not (d.credential == ""))
      else true
