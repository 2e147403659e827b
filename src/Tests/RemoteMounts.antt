-- ===== src/Tests/RemoteMounts.antt =====
-- An NFS mount that is made, cannot be started and is taken back; and one that cannot be deleted.
use pilothouse.Base.{
  String, Bool, true, false, string_eq, Option, none, some, List, [], ◌∷◌, ok, ◌≡◌, refl, inl, All,
  sort, insert_sorted, precedes,
}
use pilothouse.Storage.Names.{has_prefix, valid_definition_id, all_hex}
use pilothouse.Storage.Targets.{valid_target}
use pilothouse.Storage.Remote.{
  parse_smb_ownership, valid_protocol, valid_host, valid_dns_name, split_dots, valid_label,
  label_runes, ends_with_code, valid_nfs_export, valid_nfs_version, contains_code, no_ownership,
  nfs_mount_source, valid_definition_ownership, all_digits,
}
use pilothouse.Storage.Definitions.{
  CreateRequest, Definition, TextChecks, definition, nfs_definition, nfs_texts, valid_frame,
  valid_artifact_definition, valid_render_definition,
}
use pilothouse.Storage.Definitions.Accepted.{definition-valid}
use pilothouse.Storage.Units.{
  render_mount_unit, mount_settings, escape_systemd_value, escape_char, join_commas,
  render_automount_unit,
}
use pilothouse.Storage.Units.Texts.{IsLine}
use pilothouse.Storage.Units.Lines.{rendered-IsLine}
use pilothouse.Storage.Host.{
  RemoteError, outside, needs_attention, not_exist, Call, Artifact, credentials, mount_unit,
  automount_unit, manifest, remove_target, write_credentials, write_mount_unit,
  write_automount_unit, write_manifest, update_manifest, remove, daemon_reload, enable, disable,
  start, stop, regular, Host,
}
use pilothouse.Storage.Lifecycle.{
  create, prepare, inventory, add_definitions, renders, create_prepared, create_steps, run_steps,
  rollback, run_undos, reload_units, automount_unit_name, delete, run_delete, delete_steps,
  persist_attention,
}
use pilothouse.Storage.Lifecycle.Manifest.{removes_manifest, delete-Kept}

abbrev pub texts : TextChecks
texts = record {
  clean = λ s. s;
  has_control = λ s. false;
  is_ip = λ s. false;
  parse_uint = λ s. some 0;
  format_uint = λ n. "0";
  unit_name = λ target. "mnt.mount";
  credential_path = λ id. id;
}

abbrev escape : String → String
escape target = "mnt"

abbrev films : CreateRequest
films = record {
  export = "/films";
  host = "nas";
  id = "0123456789abcdef0123456789abcdef";
  password = "";
  protocol = "nfs";
  read_only = true;
  server = "";
  share = "";
  target = "/mnt";
  username = "";
  version = "4.2";
  uid = "";
  gid = "";
}

abbrev pub films_definition : Definition
films_definition = record {
  created_target = false;
  credential = "";
  export = "/films";
  format_version = 2;
  host = "nas";
  id = "0123456789abcdef0123456789abcdef";
  protocol = "nfs";
  protocol_version = "4.2";
  read_only = true;
  server = "";
  share = "";
  state = "active";
  target = "/mnt";
  unit_name = "mnt.mount";
  username = "";
  ownership = no_ownership;
}

films_accepted : definition texts films ≡ ok films_definition
unfolding definition nfs_definition nfs_texts parse_smb_ownership valid_definition_id all_hex
    valid_protocol valid_target has_prefix valid_host valid_dns_name split_dots valid_label
    label_runes ends_with_code valid_nfs_export valid_nfs_version contains_code
films_accepted = refl

definition-valid_example :
    (valid_artifact_definition texts films_definition ≡ true)
    × ((mount : List String) × (render_mount_unit texts films_definition ≡ ok mount))
    × ((automount : List String) × (render_automount_unit texts films_definition ≡ ok automount))
unfolding all_digits
definition-valid_example =
    definition-valid texts (λ s n e. e) (λ n. refl) (λ n. refl) films films_definition refl
      films_accepted

abbrev films_lines : List String
films_lines =
    "# Managed by Pilothouse; definition=0123456789abcdef0123456789abcdef" ∷ "[Unit]"
    ∷ "Description=Pilothouse remote storage 0123456789abcdef0123456789abcdef"
    ∷ "Wants=network-online.target" ∷ "After=network-online.target" ∷ "[Mount]" ∷ "What=nas:/films"
    ∷ "Where=/mnt" ∷ "Type=nfs" ∷ "Options=nfsvers=4.2,nodev,nosuid,ro" ∷ "TimeoutSec=30" ∷ "" ∷ []

films_rendered : render_mount_unit texts films_definition ≡ ok films_lines
unfolding render_mount_unit mount_settings valid_render_definition valid_frame
    valid_definition_ownership parse_smb_ownership escape_systemd_value escape_char join_commas
    nfs_mount_source nfs_texts valid_definition_id all_hex valid_protocol valid_target has_prefix
    valid_host valid_dns_name split_dots valid_label label_runes ends_with_code valid_nfs_export
    valid_nfs_version contains_code sort insert_sorted precedes
films_rendered = refl

rendered-IsLine_example : All IsLine films_lines
rendered-IsLine_example = rendered-IsLine texts films_definition films_lines (inl films_rendered)

escaped : escape_systemd_value "a b%\\" ≡ "a\\x20b%%\\x5c"
unfolding escape_systemd_value escape_char
escaped = refl

-- What is there, the last first; a start always fails.
abbrev take_back : List String → Option RemoteError × List String
take_back [] = (some not_exist, [])
take_back (thing ∷ things) = (none, things)

abbrev stacked : Call → List String → Option RemoteError × List String
stacked (remove_target target true) w = take_back w
stacked (remove_target target false) w = (none, w)
stacked (write_credentials id user password) w = (none, "credentials" ∷ w)
stacked (write_mount_unit d) w = (none, "mount" ∷ w)
stacked (write_automount_unit d) w = (none, "automount" ∷ w)
stacked (write_manifest d) w = (none, "manifest" ∷ w)
stacked (update_manifest d) w = (none, w)
stacked (remove a d) w = take_back w
stacked daemon_reload w = (none, w)
stacked (enable name) w = (none, "enabled" ∷ w)
stacked (disable name) w = take_back w
stacked (start name) w = (some outside, w)
stacked (stop name) w = (none, w)

abbrev no_start : Host (List String)
no_start = record {
  perform = stacked;
  create_target = λ target w. (ok true, "target" ∷ w);
  validate_target = λ target w. none;
  mount_targets = λ w. ok [];
  definitions = λ w. ok ([], []);
  load_definition = λ id w. ok films_definition;
  verify_owned_artifacts = λ d w. none;
  lstat = λ a d w. regular;
  is_verified = λ a d w. true;
}

not_started : create texts escape no_start films ("other" ∷ []) ≡ (some outside, "other" ∷ [])
unfolding create prepare inventory add_definitions renders create_prepared create_steps run_steps
    rollback run_undos reload_units automount_unit_name definition nfs_definition
    render_automount_unit render_mount_unit mount_settings valid_render_definition valid_frame
    valid_definition_ownership parse_smb_ownership escape_systemd_value escape_char join_commas
    nfs_mount_source nfs_texts valid_definition_id all_hex valid_protocol valid_target has_prefix
    valid_host valid_dns_name split_dots valid_label label_runes ends_with_code valid_nfs_export
    valid_nfs_version contains_code sort insert_sorted precedes
not_started = refl

-- Whether the manifest is there; systemd stops nothing.
abbrev removes : Artifact → Bool → Bool
removes manifest w = false
removes credentials w = w
removes mount_unit w = w
removes automount_unit w = w

abbrev no_stop_call : Call → Bool → Option RemoteError × Bool
no_stop_call (remove a d) w = (none, removes a w)
no_stop_call (stop name) w = (some outside, w)
no_stop_call (remove_target target created) w = (none, w)
no_stop_call (write_credentials id user password) w = (none, w)
no_stop_call (write_mount_unit d) w = (none, w)
no_stop_call (write_automount_unit d) w = (none, w)
no_stop_call (write_manifest d) w = (none, true)
no_stop_call (update_manifest d) w = (none, w)
no_stop_call daemon_reload w = (none, w)
no_stop_call (enable name) w = (none, w)
no_stop_call (disable name) w = (none, w)
no_stop_call (start name) w = (none, w)

abbrev no_stop : Host Bool
no_stop = record {
  perform = no_stop_call;
  create_target = λ target w. (ok true, w);
  validate_target = λ target w. none;
  mount_targets = λ w. ok [];
  definitions = λ w. ok ([], []);
  load_definition = λ id w. ok films_definition;
  verify_owned_artifacts = λ d w. none;
  lstat = λ a d w. regular;
  is_verified = λ a d w. true;
}

no_stop-keeps :
    (c : Call) (w : Bool) → removes_manifest c ≡ false → w ≡ true → (no_stop_call c w).1 ≡ true
no_stop-keeps (remove manifest d) w other h = cc
no_stop-keeps (remove credentials d) w other h = h
no_stop-keeps (remove mount_unit d) w other h = h
no_stop-keeps (remove automount_unit d) w other h = h
no_stop-keeps (stop name) w other h = h
no_stop-keeps (remove_target target created) w other h = h
no_stop-keeps (write_credentials id user password) w other h = h
no_stop-keeps (write_mount_unit d) w other h = h
no_stop-keeps (write_automount_unit d) w other h = h
no_stop-keeps (write_manifest d) w other h = refl
no_stop-keeps (update_manifest d) w other h = h
no_stop-keeps daemon_reload w other h = h
no_stop-keeps (enable name) w other h = h
no_stop-keeps (disable name) w other h = h
no_stop-keeps (start name) w other h = h

not_stopped : delete texts escape no_stop films.id true ≡ (some (needs_attention outside), true)
unfolding delete run_delete delete_steps persist_attention valid_definition_id all_hex
    automount_unit_name
not_stopped = refl

delete-Kept_example : ◌≡◌ {A = Bool} true true
delete-Kept_example =
    delete-Kept no_stop (λ w. w ≡ true) no_stop-keeps (λ d w w' e h k. absurd (cc)) texts escape
      films.id (needs_attention outside) true true refl not_stopped
