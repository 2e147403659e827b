-- ===== src/Storage/Artifacts.antt =====
-- internal/modules/storage: the methods of `ArtifactStore` in manifest.go and units.go, and
-- `definitions` of remote_manager.go. `encoding/json` is a parameter: `encode` is `json.Marshal`, and
-- `decode` the decoder that refuses unknown fields and anything after the value.
pub mod Loaded
use Prim.Native.String.{◌++◌ as append}
use pilothouse.Base.{
  ℕ, String, Bool, true, false, not, ◌&&◌, ◌||◌, string_eq, nat_eq, ◌==◌, if◌then◌else◌, Option,
  none, some, List, [], ◌∷◌, ◌++◌, Result, ok, err, ◌>>=◌,
}
use pilothouse.Storage.Names.{valid_definition_id, trim_suffix, has_suffix}
use pilothouse.Storage.Remote.{valid_username, valid_password, same_ownership}
use pilothouse.Storage.Definitions.{Definition, TextChecks, valid_artifact_definition}
use pilothouse.Storage.Units.{render_mount_unit, render_automount_unit}
use pilothouse.Storage.Host.{RemoteError, invalid_manifest, artifact_not_managed, not_exist}
use pilothouse.Storage.Files.{
  Files, ArtifactStore, ReadAnswer, missing, unreadable_file, contents, DirEntry, write_text,
  fdatasync, chmod, chown, close, verify_metadata, verify_file, file_steps, without_temporary,
  write_artifact,
}

pub record Json : Type 0 where
  pub encode : Definition → Option String
  pub decode : String → Option Definition

abbrev same_bool : Bool → Bool → Bool
same_bool a b = if a then b else not b

-- `==` on definitions
unfoldable pub same_definition : Definition → Definition → Bool
same_definition a b =
    same_bool a.created_target b.created_target
    && (a.credential == b.credential
        && (a.export == b.export
            && (a.format_version == b.format_version
                && (a.host == b.host
                    && (a.id == b.id
                        && (a.protocol == b.protocol
                            && (a.protocol_version == b.protocol_version
                                && (same_bool a.read_only b.read_only
                                    && (a.server == b.server
                                        && (a.share == b.share
                                            && (a.state == b.state
                                                && (a.target == b.target
                                                    && (a.unit_name == b.unit_name
                                                        && (a.username == b.username
                                                            && same_ownership a.ownership
                                                            b.ownership))))))))))))))

-- `strings.Join(lines, "\n")`
unfoldable pub join_lines : List String → String
join_lines [] = ""
join_lines (line ∷ []) = line
join_lines (line ∷ next ∷ lines) = append line (append "\n" (join_lines (next ∷ lines)))

-- `RenderCredentials`
unfoldable pub render_credentials : TextChecks → String → String → Result RemoteError String
render_credentials t username password =
    if valid_username t.has_control username && valid_password password
    then ok (append "username=" (append username (append "\npassword=" (append password "\n"))))
    else err invalid_manifest

module _ (t : TextChecks) (json : Json) {W : Type 0} (os : Files W) (store : ArtifactStore) where
  -- `ManifestPath`
  unfoldable pub manifest_path : String → Result RemoteError String
  manifest_path id =
      if valid_definition_id id
      then ok (os.join store.manifest_root (append id ".json"))
      else err invalid_manifest

  -- `CredentialPath`
  unfoldable pub credential_path : String → Result RemoteError String
  credential_path id =
      if valid_definition_id id then ok (os.join store.credential_root id) else err invalid_manifest

  -- `MountUnitPath`
  unfoldable pub mount_unit_path : Definition → Result RemoteError String
  mount_unit_path d =
      if valid_artifact_definition t d
      then ok (os.join store.unit_root d.unit_name)
      else err invalid_manifest

  -- `AutomountUnitPath`; the name of a mount unit ends in `.mount`.
  unfoldable pub automount_unit_path : Definition → Result RemoteError String
  automount_unit_path d = do
    path ← mount_unit_path d
    ok (append (trim_suffix path ".mount") ".automount")

  -- `marshalManifest`
  unfoldable pub marshal_manifest : Definition → Result RemoteError String
  marshal_manifest d = elim (json.encode d) [
    | none ↦ err invalid_manifest
    | some text ↦ ok (append text "\n")
  ]

  -- A write of what was made, or the error of making it.
  abbrev pub write_made : Result RemoteError (String × String) → ℕ → W → Option RemoteError × W
  write_made (err e) mode w = (some e, w)
  write_made (ok (path, text)) mode w = write_artifact os store path text mode w

  -- `WriteManifest`
  unfoldable pub write_manifest_file : Definition → W → Option RemoteError × W
  write_manifest_file d =
      write_made
        (if not (valid_artifact_definition t d)
          then err invalid_manifest
          else (do path ← manifest_path d.id; text ← marshal_manifest d; ok (path, text)))
        384

  -- The text of a unit.
  abbrev pub unit_text : {E : Type 0} → Result E (List String) → Result RemoteError String
  unit_text (err e) = err invalid_manifest
  unit_text (ok lines) = ok (join_lines lines)

  -- `WriteMountUnit`
  unfoldable pub write_mount_file : Definition → W → Option RemoteError × W
  write_mount_file d =
      write_made
        (do path ← mount_unit_path d; text ← unit_text (render_mount_unit t d); ok (path, text)) 420

  -- `WriteAutomountUnit`
  unfoldable pub write_automount_file : Definition → W → Option RemoteError × W
  write_automount_file d =
      write_made
        (do
          path ← automount_unit_path d
          text ← unit_text (render_automount_unit t d)
          ok (path, text))
        420

  -- `WriteCredentials`
  unfoldable pub write_credentials_file : String → String → String → W → Option RemoteError × W
  write_credentials_file id username password =
      write_made
        (do
          path ← credential_path id
          text ← render_credentials t username password
          ok (path, text))
        384

  abbrev pub require : Bool → RemoteError → Result RemoteError (Unit {0})
  require true e = ok tt
  require false e = err e

  abbrev pub read_text : ReadAnswer → Result RemoteError String
  read_text missing = err not_exist
  read_text unreadable_file = err invalid_manifest
  read_text (contents text) = ok text

  abbrev pub decoded : String → Result RemoteError Definition
  decoded text = elim (json.decode text) [ none ↦ err invalid_manifest | some d ↦ ok d ]

  -- `LoadDefinition`
  unfoldable pub load_definition_file : String → W → Result RemoteError Definition
  load_definition_file id w = do
    path ← manifest_path id
    text ← read_text (os.read_file path w)
    _ ← require (verify_file os store path text 384 w) invalid_manifest
    d ← decoded text
    _ ← require (d.id == id && valid_artifact_definition t d) invalid_manifest
    expected ← marshal_manifest d
    _ ← require (text == expected) invalid_manifest
    ok d

  -- `UpdateManifest` after its checks.
  unfoldable pub replace_manifest : String → String → W → Option RemoteError × W
  replace_manifest path text w =
      let (made, w') = os.create_temp (os.dir path) w in
      elim made [
        | none ↦ (some invalid_manifest, w')
        | some temporary ↦
            let steps =
              write_text text ∷ fdatasync ∷ chmod 384 ∷ chown store.uid store.gid ∷ close ∷ [] in
            let (filled, w1) = file_steps os store temporary steps w' in
            let (moved, w2) = os.rename temporary path w1 in
            let (synced, w3) = os.sync_dir (os.dir path) w2 in
            without_temporary os store temporary (
              if not filled
              then (some invalid_manifest, w1)
              else if not moved
              then (some invalid_manifest, w2)
              else (if synced then none else some invalid_manifest, w3))
      ]

  -- `UpdateManifest`
  unfoldable pub update_manifest_file : Definition → W → Option RemoteError × W
  update_manifest_file d w =
      let made : Result RemoteError (String × String) = (do
        existing ← load_definition_file d.id w
        _ ←
            require
              (same_definition (record existing { state = d.state }) d
                && not (existing.state == d.state))
              artifact_not_managed
        path ← manifest_path d.id
        text ← marshal_manifest d
        ok (path, text)) in
      elim made [ err e ↦ (some e, w) | ok (path, text) ↦ replace_manifest path text w ]

  -- `verifyFile` of a unit.
  abbrev pub verify_unit :
      Result RemoteError String → Result RemoteError String → W → Result RemoteError (Unit {0})
  verify_unit (ok path) (ok text) w =
      require (verify_file os store path text 420 w) artifact_not_managed
  verify_unit (ok path) (err e) w = err artifact_not_managed
  verify_unit (err e) text w = err artifact_not_managed

  abbrev pub error_of : Result RemoteError (Unit {0}) → Option RemoteError
  error_of (ok u) = none
  error_of (err e) = some e

  -- `VerifyOwnedArtifacts`
  unfoldable pub verify_owned : Definition → W → Option RemoteError
  verify_owned d w = error_of (do
    _ ← require (valid_artifact_definition t d) artifact_not_managed
    path ← manifest_path d.id
    text ← marshal_manifest d
    _ ← require (verify_file os store path text 384 w) artifact_not_managed
    _ ← verify_unit (mount_unit_path d) (unit_text (render_mount_unit t d)) w
    _ ← verify_unit (automount_unit_path d) (unit_text (render_automount_unit t d)) w
    if d.username == "" then ok tt else (do
      credential ← credential_path d.id
      require (verify_metadata os store credential 384 w) artifact_not_managed))

  -- The loop of `definitions`; `.json` is also the extension of the name `.json`.
  unfoldable pub load_all : List DirEntry → W → List Definition × List String
  load_all [] w = ([], [])
  load_all (e ∷ es) w =
      let (found, invalid) = load_all es w in
      let id = trim_suffix e.name ".json" in
      if e.is_dir || not (has_suffix e.name ".json")
      then (found, invalid)
      else elim (load_definition_file id w) [
        | ok d ↦ (d ∷ found, invalid)
        | err failure ↦ elim failure [
          | not_exist ↦ (found, invalid)
          | other ↦ (found, id ∷ invalid)
        ]
      ]

  -- `definitions`
  unfoldable pub managed_definitions : W → Result RemoteError (List Definition × List String)
  managed_definitions w = do entries ← os.read_dir store.manifest_root w; ok (load_all entries w)
