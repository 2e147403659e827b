-- ===== src/Storage/Files.antt =====
-- internal/modules/storage/manifest.go: `writeArtifact` and the checks of a file, on the calls of the
-- operating system, which are a parameter.
use pilothouse.Base.{
  ℕ, String, Bool, true, false, not, ◌&&◌, string_eq, nat_eq, ◌==◌, if◌then◌else◌, Option, none,
  some, List, [], ◌∷◌, Result,
}
use pilothouse.Storage.Host.{RemoteError, invalid_manifest, artifact_not_managed, FileAnswer}

-- `os.ReadFile`
pub data ReadAnswer : Type 0 where
  missing unreadable_file : ReadAnswer
  contents : String → ReadAnswer

-- `Renameat2` with `RENAME_NOREPLACE`
pub data RenameAnswer : Type 0 where
  renamed taken not_renamed : RenameAnswer

-- What is done to a file that is open.
pub data FileStep : Type 0 where
  write_text : String → FileStep
  fdatasync fsync close : FileStep
  chmod : ℕ → FileStep
  chown : ℕ → ℕ → FileStep

-- What `os.Stat` says.
pub record FileInfo : Type 0 where
  pub is_regular : Bool
  pub perm : ℕ
  pub uid : ℕ
  pub gid : ℕ

-- A file of a directory, with whether it is a directory itself.
pub record DirEntry : Type 0 where
  pub name : String
  pub is_dir : Bool

pub record Files (W : Type 0) : Type 0 where
  -- `os.MkdirAll(path, 0o700)`; `true` where a call succeeds.
  pub make_dirs : String → W → Bool × W
  pub read_file : String → W → ReadAnswer
  pub stat : String → W → Option FileInfo
  pub lstat : String → W → FileAnswer
  -- `os.CreateTemp`, which gives the name of the file.
  pub create_temp : String → W → Option String × W
  pub file_step : String → FileStep → W → Bool × W
  pub rename_no_replace : String → String → W → RenameAnswer × W
  pub rename : String → String → W → Bool × W
  -- `os.Open` of a directory, `Sync` and `Close`.
  pub sync_dir : String → W → Bool × W
  pub remove_file : String → W → Option RemoteError × W
  -- `os.ReadDir`, with no entries where there is no such directory.
  pub read_dir : String → W → Result RemoteError (List DirEntry)
  -- `filepath.Dir` and `filepath.Join`
  pub dir : String → String
  pub join : String → String → String

-- `ArtifactStore`
pub record ArtifactStore : Type 0 where
  pub manifest_root : String
  pub credential_root : String
  pub unit_root : String
  pub uid : ℕ
  pub gid : ℕ

module _ {W : Type 0} (os : Files W) (store : ArtifactStore) where
  open os use {
    make_dirs, read_file, stat, create_temp, file_step, rename_no_replace, sync_dir, remove_file,
    dir,
  }

  abbrev pub owned : ℕ → Option FileInfo → Bool
  owned mode none = false
  owned mode (some info) =
      info.is_regular && (info.perm == mode && (info.uid == store.uid && info.gid == store.gid))

  -- `verifyMetadata`
  unfoldable pub verify_metadata : String → ℕ → W → Bool
  verify_metadata path mode w = owned mode (stat path w)

  abbrev pub holds_text : String → ReadAnswer → Bool
  holds_text text missing = false
  holds_text text unreadable_file = false
  holds_text text (contents found) = found == text

  -- `verifyFile`
  unfoldable pub verify_file : String → String → ℕ → W → Bool
  verify_file path text mode w = verify_metadata path mode w && holds_text text (read_file path w)

  -- The calls on an open file up to the first that fails, after which it is closed.
  unfoldable pub file_steps : String → List FileStep → W → Bool × W
  file_steps file [] w = (true, w)
  file_steps file (s ∷ ss) w =
      let (done, w') = file_step file s w in
      let rest = file_steps file ss w' in
      if done then rest else (false, (file_step file close w').1)

  -- `defer os.Remove(temporary)`
  abbrev pub without_temporary : String → Option RemoteError × W → Option RemoteError × W
  without_temporary temporary (e, w) = (e, (remove_file temporary w).1)

  -- The end of `writeArtifact`: the rename and the sync of the directory.
  unfoldable pub put_in_place : String → String → W → Option RemoteError × W
  put_in_place path temporary w =
      let (answer, w') = rename_no_replace temporary path w in
      let (synced, last) = sync_dir (dir path) w' in
      elim answer [
        | taken ↦ (some artifact_not_managed, w')
        | not_renamed ↦ (some invalid_manifest, w')
        | renamed ↦ (if synced then none else some invalid_manifest, last)
      ]

  unfoldable pub fill_temporary : String → String → String → ℕ → W → Option RemoteError × W
  fill_temporary path temporary text mode w =
      let steps =
        write_text text ∷ fdatasync ∷ chmod mode ∷ chown store.uid store.gid ∷ fsync ∷ [] in
      let (filled, w1) = file_steps temporary steps w in
      let (closed, w2) = file_step temporary close w1 in
      if not filled
      then (some invalid_manifest, w1)
      else if not closed
      then (some invalid_manifest, w2)
      else put_in_place path temporary w2

  -- `writeArtifact` where there is no such file.
  unfoldable pub write_new : String → String → ℕ → W → Option RemoteError × W
  write_new path text mode w =
      let (made, w') = create_temp (dir path) w in
      elim made [
        | none ↦ (some invalid_manifest, w')
        | some temporary ↦ without_temporary temporary (fill_temporary path temporary text mode w')
      ]

  -- `writeArtifact`
  unfoldable pub write_artifact : String → String → ℕ → W → Option RemoteError × W
  write_artifact path text mode w =
      let (made, w') = make_dirs (dir path) w in
      if not made then (some invalid_manifest, w') else elim (read_file path w') [
        | missing ↦ write_new path text mode w'
        | unreadable_file ↦ (some artifact_not_managed, w')
        | contents found ↦ (
          if found == text && verify_file path text mode w'
              then none
              else some artifact_not_managed,
          w',
        )
      ]
