-- ===== src/Tests/Artifacts.antt =====
-- A store of artifacts whose only file is the manifest of a mount.
use Prim.Native.String.{◌++◌ as append}
use pilothouse.Base.{true, false, none, some, [], ok, ◌≡◌, refl}
use pilothouse.Storage.Names.{valid_definition_id, all_hex, has_prefix}
use pilothouse.Storage.Targets.{valid_target}
use pilothouse.Storage.Remote.{
  parse_smb_ownership, valid_protocol, valid_host, valid_dns_name, split_dots, valid_label,
  label_runes, ends_with_code, valid_nfs_export, valid_nfs_version, contains_code,
  valid_definition_ownership,
}
use pilothouse.Storage.Definitions.{nfs_texts, valid_frame, valid_artifact_definition}
use pilothouse.Storage.Host.{artifact_not_managed, invalid_manifest, absent}
use pilothouse.Storage.Files.{
  Files, ArtifactStore, contents, missing, renamed, verify_file, verify_metadata, write_artifact,
  write_new, fill_temporary, file_steps, put_in_place, ReadAnswer,
}
use pilothouse.Storage.Artifacts.{Json, load_definition_file, manifest_path, marshal_manifest}
use pilothouse.Storage.Artifacts.Loaded.{Loaded, load_definition_file-Loaded}
use pilothouse.Tests.RemoteMounts.{texts, films_definition}

abbrev json : Json
json = record { encode = λ d. some "{}"; decode = λ text. some films_definition }

-- The state is what the one file holds.
abbrev os : Files ReadAnswer
os = record {
  make_dirs = λ path w. (true, w);
  read_file = λ path w. w;
  stat = λ path w. some (record { is_regular = true; perm = 384; uid = 0; gid = 0 });
  lstat = λ path w. absent;
  create_temp = λ dir w. (some "temporary", w);
  file_step = λ file step w. (true, w);
  rename_no_replace = λ from to w. (renamed, contents "new");
  rename = λ from to w. (true, w);
  sync_dir = λ dir w. (false, w);
  remove_file = λ path w. (none, w);
  read_dir = λ path w. ok [];
  dir = λ path. path;
  join = λ root name. append root name;
}

abbrev store : ArtifactStore
store = record {
  manifest_root = "/m/";
  credential_root = "/c/";
  unit_root = "/u/";
  uid = 0;
  gid = 0;
}

films_loaded :
    load_definition_file texts json os store films_definition.id (contents "{}\n")
    ≡ ok films_definition
unfolding load_definition_file manifest_path marshal_manifest verify_file verify_metadata
    valid_artifact_definition valid_frame valid_definition_ownership parse_smb_ownership nfs_texts
    valid_definition_id all_hex valid_protocol valid_target has_prefix valid_host valid_dns_name
    split_dots valid_label label_runes ends_with_code valid_nfs_export valid_nfs_version
    contains_code
films_loaded = refl

load_definition_file-Loaded_example :
    Loaded texts json os store films_definition.id (contents "{}\n") films_definition
load_definition_file-Loaded_example =
    load_definition_file-Loaded texts json os store films_definition.id (contents "{}\n")
      films_definition films_loaded

-- Where the directory cannot be synced, the file is there, and yet the write fails.
unsynced :
    write_artifact os store "/m/a" "new" 384 missing ≡ (some invalid_manifest, contents "new")
unfolding write_artifact write_new fill_temporary file_steps put_in_place
unsynced = refl

kept_text :
    write_artifact os store "/m/a" "new" 384 (contents "old")
    ≡ (some artifact_not_managed, contents "old")
unfolding write_artifact
kept_text = refl
