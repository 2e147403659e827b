-- ===== src/Storage/Host.antt =====
-- The host of internal/modules/storage/remote_manager.go: the calls that its operations make, the
-- answers they read and the steps of `Create`.
use pilothouse.Base.{String, Bool, false, Result, Option, some, List}
use pilothouse.Storage.Definitions.{Definition}

pub data RemoteError : Type 0 where
  invalid_manifest artifact_not_managed not_exist : RemoteError
  -- An error of systemd, of the file system or of the path manager.
  outside : RemoteError
  -- "remote mount needs attention", with the cleanups that failed or with the cause.
  cleanup_failed : List String → RemoteError
  needs_attention : RemoteError → RemoteError

-- The files of a definition.
pub data Artifact : Type 0 where
  credentials mount_unit automount_unit manifest : Artifact

-- The calls that change something.
pub data Call : Type 0 where
  remove_target : String → Bool → Call
  write_credentials : String → String → String → Call
  write_mount_unit write_automount_unit write_manifest update_manifest : Definition → Call
  remove : Artifact → Definition → Call
  daemon_reload : Call
  enable disable start stop : String → Call

-- What `Lstat` says of an artifact.
pub data FileAnswer : Type 0 where
  absent unreadable irregular regular : FileAnswer

pub record Host (W : Type 0) : Type 0 where
  pub perform : Call → W → Option RemoteError × W
  pub create_target : String → W → Result RemoteError Bool × W
  pub validate_target : String → W → Option RemoteError
  pub mount_targets : W → Result RemoteError (List String)
  pub definitions : W → Result RemoteError (List Definition × List String)
  pub load_definition : String → W → Result RemoteError Definition
  pub verify_owned_artifacts : Definition → W → Option RemoteError
  pub lstat : Artifact → Definition → W → FileAnswer
  pub is_verified : Artifact → Definition → W → Bool

abbrev pub attention_state : String
attention_state = "needs-attention"

abbrev pub with_attention : Definition → Definition
with_attention d = record d { state = attention_state }

-- What is to be done when a later step fails.
pub record Undo : Type 0 where
  pub operation : String
  pub call : Call

-- A step of `Create` after the target, with what it appends to `undos`.
pub record Step : Type 0 where
  pub call : Call
  pub undo : Option Undo
  pub writes_unit : Bool

abbrev pub step : Call → String → Call → Step
step call operation undo = record {
  call = call;
  undo = some (record { operation = operation; call = undo });
  writes_unit = false;
}
