-- ===== src/Storage/System.antt =====
-- The host of `SystemRemoteManager`, as `NewSystemRemoteManager` puts it together: the store of
-- artifacts on the files of the operating system, with the controller of systemd units, the path
-- manager and the inventory of mounts as a parameter.
use pilothouse.Base.{String, Bool, false, Option, List, Result, ok, err}
use pilothouse.Storage.Definitions.{Definition, TextChecks}
use pilothouse.Storage.Units.{render_mount_unit, render_automount_unit}
use pilothouse.Storage.Host.{
  RemoteError, Artifact, credentials, mount_unit, automount_unit, manifest, Call, remove_target,
  write_credentials, write_mount_unit, write_automount_unit, write_manifest, update_manifest,
  remove, daemon_reload, enable, disable, start, stop, Host,
}
use pilothouse.Storage.Files.{Files, ArtifactStore, verify_file, verify_metadata}
use pilothouse.Storage.Artifacts.{
  Json, manifest_path, credential_path, mount_unit_path, automount_unit_path, unit_text,
  write_manifest_file, write_mount_file, write_automount_file, write_credentials_file,
  update_manifest_file, load_definition_file, verify_owned, managed_definitions,
}

-- `UnitController`, `PathManager` and the mounts of `Manager.State`.
pub record Outside (W : Type 0) : Type 0 where
  pub reload : W → Option RemoteError × W
  pub enable_unit : String → W → Option RemoteError × W
  pub disable_unit : String → W → Option RemoteError × W
  pub start_unit : String → W → Option RemoteError × W
  pub stop_unit : String → W → Option RemoteError × W
  pub make_target : String → W → Result RemoteError Bool × W
  pub drop_target : String → Bool → W → Option RemoteError × W
  pub check_target : String → W → Option RemoteError
  pub mounted : W → Result RemoteError (List String)

module _ (t : TextChecks) (json : Json) {W : Type 0} (os : Files W) (store : ArtifactStore)
    (outside : Outside W) where
  -- A path whose error is dropped is the empty one.
  abbrev pub or_empty : Result RemoteError String → String
  or_empty (ok path) = path
  or_empty (err e) = ""

  unfoldable pub artifact_path : Artifact → Definition → String
  artifact_path credentials d = or_empty (credential_path t json os store d.id)
  artifact_path mount_unit d = or_empty (mount_unit_path t json os store d)
  artifact_path automount_unit d = or_empty (automount_unit_path t json os store d)
  artifact_path manifest d = or_empty (manifest_path t json os store d.id)

  abbrev pub verified_text : String → Result RemoteError String → W → Bool
  verified_text path (ok text) w = verify_file os store path text 420 w
  verified_text path (err e) w = false

  -- The check of `removeVerifiedArtifact`, which is not asked of a manifest.
  unfoldable pub verified_artifact : Artifact → Definition → W → Bool
  verified_artifact credentials d w = verify_metadata os store (artifact_path credentials d) 384 w
  verified_artifact mount_unit d w =
      verified_text (artifact_path mount_unit d) (unit_text t json os store (render_mount_unit t d))
        w
  verified_artifact automount_unit d w =
      verified_text (artifact_path automount_unit d)
        (unit_text t json os store (render_automount_unit t d)) w
  verified_artifact manifest d w = false

  unfoldable pub system_call : Call → W → Option RemoteError × W
  system_call (remove_target target created) = outside.drop_target target created
  system_call (write_credentials id user password) =
      write_credentials_file t json os store id user password
  system_call (write_mount_unit d) = write_mount_file t json os store d
  system_call (write_automount_unit d) = write_automount_file t json os store d
  system_call (write_manifest d) = write_manifest_file t json os store d
  system_call (update_manifest d) = update_manifest_file t json os store d
  system_call (remove a d) = os.remove_file (artifact_path a d)
  system_call daemon_reload = outside.reload
  system_call (enable name) = outside.enable_unit name
  system_call (disable name) = outside.disable_unit name
  system_call (start name) = outside.start_unit name
  system_call (stop name) = outside.stop_unit name

  -- `NewSystemRemoteManager`
  abbrev pub system_host : Host W
  system_host = record {
    perform = system_call;
    create_target = outside.make_target;
    validate_target = outside.check_target;
    mount_targets = outside.mounted;
    definitions = managed_definitions t json os store;
    load_definition = load_definition_file t json os store;
    verify_owned_artifacts = verify_owned t json os store;
    lstat = λ a d. os.lstat (artifact_path a d);
    is_verified = verified_artifact;
  }
