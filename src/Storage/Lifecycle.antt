-- ===== src/Storage/Lifecycle.antt =====
-- internal/modules/storage/remote_manager.go: the life of a managed remote mount. What the file
-- system, systemd, the path manager and the store of artifacts answer is a host over a state of its
-- own; the mutexes make each operation one step.
pub mod Manifest
use Prim.Native.String.{◌++◌ as append}
use pilothouse.Base.{
  ℕ, String, Bool, true, false, not, ◌&&◌, ◌||◌, string_eq, nat_eq, ◌==◌, if◌then◌else◌, Result, ok,
  err, ◌>>=◌, Option, none, some, List, [], ◌∷◌, ◌++◌, any, Map, insert, map,
}
use pilothouse.Storage.Names.{valid_definition_id}
use pilothouse.Storage.Targets.{TargetInventory}
use pilothouse.Storage.Remote.{valid_username, valid_password}
use pilothouse.Storage.Definitions.{CreateRequest, Definition, TextChecks, definition}
use pilothouse.Storage.Units.{render_mount_unit, render_automount_unit}
use pilothouse.Storage.Host.{
  RemoteError, Artifact, Host, attention_state, with_attention, Undo, Step, step, invalid_manifest,
  artifact_not_managed, not_exist, cleanup_failed, needs_attention, credentials, mount_unit,
  automount_unit, manifest, remove_target, write_credentials, write_mount_unit,
  write_automount_unit, write_manifest, update_manifest, remove, daemon_reload, enable, disable,
  start, stop, absent, unreadable, irregular, regular,
}

module _ {W : Type 0} (h : Host W) where
  abbrev pub Effect : Type 0
  Effect = W → Option RemoteError × W

  -- The loop of `rollback` over the undos, the last one first.
  unfoldable pub run_undos : List Undo → W → List String × W
  run_undos [] w = ([], w)
  run_undos (u ∷ us) w =
      let (e, w') = h.perform u.call w in
      let (failures, last) = run_undos us w' in
      (elim e [ none ↦ failures | some failure ↦ u.operation ∷ failures ], last)

  unfoldable pub reload_units : Bool → List String × W → List String × W
  reload_units false (failures, w) = (failures, w)
  reload_units true (failures, w) =
      let (e, w') = h.perform daemon_reload w in
      (elim e [ none ↦ failures | some failure ↦ failures ++ "reload systemd" ∷ [] ], w')

  -- `UpdateManifest`, or `WriteManifest` where that fails.
  unfoldable pub persist_attention : Definition → Effect
  persist_attention d w =
      let (e, w') = h.perform (update_manifest (with_attention d)) w in
      elim e [ none ↦ (none, w') | some failure ↦ h.perform (write_manifest (with_attention d)) w' ]

  -- `rollback`
  unfoldable pub rollback : Definition → List Undo → Bool → RemoteError → Effect
  rollback d undos units_written cause w =
      let (failures, w') = reload_units units_written (run_undos undos w) in
      elim failures [
        | [] ↦ (some cause, w')
        | f ∷ fs ↦ (some (cleanup_failed (f ∷ fs)), (persist_attention d w').1)
      ]

  abbrev pub with_undo : Option Undo → List Undo → List Undo
  with_undo none undos = undos
  with_undo (some u) undos = u ∷ undos

  -- The steps of `Create`, one after the other.
  unfoldable pub run_steps : Definition → List Step → List Undo → Bool → Effect
  run_steps d [] undos units_written w = (none, w)
  run_steps d (s ∷ steps) undos units_written w =
      let (e, w') = h.perform s.call w in
      elim e [
        | some cause ↦ rollback d undos units_written cause w'
        | none ↦ run_steps d steps (with_undo s.undo undos) (units_written || s.writes_unit) w'
      ]

-- `automountUnitName`
unfoldable pub automount_unit_name : (String → String) → String → String
automount_unit_name escape target = append (escape target) ".automount"

module _ (t : TextChecks) (escape : String → String) where
  abbrev pub automount : Definition → String
  automount d = automount_unit_name escape d.target

  -- The steps on the units and the manifest.
  abbrev pub unit_steps : Definition → List Step
  unit_steps d =
      record (step (write_mount_unit d) "remove mount unit" (remove mount_unit d)) {
        writes_unit = true;
      }
      ∷ step (write_automount_unit d) "remove automount unit" (remove automount_unit d)
      ∷ step (write_manifest d) "remove manifest" (remove manifest d)
      ∷ step daemon_reload "reload systemd" daemon_reload
      ∷ step (enable (automount d)) "disable automount" (disable (automount d))
      ∷ record { call = start (automount d); undo = none; writes_unit = false }
      ∷ []

  unfoldable pub create_steps : CreateRequest → Definition → List Step
  create_steps r d =
      if r.password == ""
      then unit_steps d
      else step (write_credentials d.id r.username r.password) "remove credentials"
          (remove credentials d)
        ∷ unit_steps d

  -- `RenderCredentials(...) == nil`
  abbrev pub renders_credentials : CreateRequest → Bool
  renders_credentials r = valid_username t.has_control r.username && valid_password r.password

  unfoldable pub renders : Definition → CreateRequest → Bool
  renders d r = elim (render_mount_unit t d) [
    | err e ↦ false
    | ok mount ↦ elim (render_automount_unit t d) [
      | err e ↦ false
      | ok automount ↦ r.password == "" || renders_credentials r
    ]
  ]

  module _ {W : Type 0} (h : Host W) where
    -- The loop of `inventory` over the definitions.
    unfoldable pub add_definitions :
        Option String → W → List Definition → TargetInventory → Result RemoteError TargetInventory
    add_definitions exclude w [] inventory = ok inventory
    add_definitions exclude w (d ∷ ds) inventory =
        let excluded : Bool = elim exclude [ none ↦ false | some id ↦ d.id == id ] in
        let verified : Option RemoteError =
          if d.state == attention_state then none else h.verify_owned_artifacts d w in
        let rest = add_definitions exclude w ds in
        if excluded then rest inventory else elim verified [
          | some e ↦ err e
          | none ↦ rest (record inventory {
            managed_targets = inventory.managed_targets ++ d.target ∷ [];
            unit_owners = insert (automount d) d.id (insert d.unit_name d.id inventory.unit_owners);
          })
        ]

    -- `inventory`
    unfoldable pub inventory : Option String → W → Result RemoteError TargetInventory
    inventory exclude w = do
      mounts ← h.mount_targets w
      found ← h.definitions w
      elim found.1 [
        | _ ∷ _ ↦ err invalid_manifest
        | [] ↦
            add_definitions exclude w found.0
              (record { managed_targets = []; mounts = mounts; unit_owners = [] })
      ]

    -- What `Create` asks before it changes anything.
    unfoldable pub prepare : CreateRequest → W → Result RemoteError Definition
    prepare r w = elim (definition t r) [
      | err e ↦ err invalid_manifest
      | ok d ↦ do
        known ← inventory none w
        elim (any (λ owner. owner == d.id) (map (λ entry. entry.1) known.unit_owners)) [
          | true ↦ err artifact_not_managed
          | false ↦ elim (h.validate_target d.target w) [
            | some e ↦ err e
            | none ↦ if renders d r then ok d else err invalid_manifest
          ]
        ]
    ]

    abbrev pub remove_made : Definition → Bool → List Undo
    remove_made d made =
        if made
        then record { operation = "remove target"; call = remove_target d.target true } ∷ []
        else []

    -- `Create` after the target is there; `true` where it was made.
    abbrev pub create_after : CreateRequest → Definition → Bool → W → Option RemoteError × W
    create_after r d made =
        let d' = record d { created_target = made } in
        run_steps h d' (create_steps r d') (remove_made d made) false

    -- `Create` after its checks.
    unfoldable pub create_prepared : CreateRequest → Definition → W → Option RemoteError × W
    create_prepared r d w =
        let (created, w') = h.create_target d.target w in
        elim created [ err e ↦ (some e, w') | ok made ↦ create_after r d made w' ]

    -- `Create`
    unfoldable pub create : CreateRequest → W → Option RemoteError × W
    create r w = elim (prepare r w) [ err e ↦ (some e, w) | ok d ↦ create_prepared r d w ]

    -- `loadVerified`
    unfoldable pub load_verified : String → W → Result RemoteError Definition
    load_verified id w = if not (valid_definition_id id) then err invalid_manifest else (do
      d ← h.load_definition id w
      elim (if d.state == attention_state then none else h.verify_owned_artifacts d w) [
        | some e ↦ err e
        | none ↦ ok d
      ])

    -- `Mount`
    unfoldable pub mount : String → W → Option RemoteError × W
    mount id w = elim (load_verified id w) [
      | err e ↦ (some e, w)
      | ok d ↦
          if d.state == attention_state
          then (some artifact_not_managed, w)
          else h.perform (start (automount d)) w
    ]

    -- `Unmount`
    unfoldable pub unmount : String → W → Option RemoteError × W
    unmount id w = elim (load_verified id w) [
      | err e ↦ (some e, w)
      | ok d ↦
          if d.state == attention_state
          then (some artifact_not_managed, w)
          else (let (e, w') = h.perform (stop (automount d)) w in
              elim e [ some failure ↦ (some failure, w') | none ↦ h.perform (stop d.unit_name) w' ])
    ]

    -- `removeVerifiedArtifact`
    unfoldable pub remove_verified_artifact : Artifact → Definition → W → Option RemoteError × W
    remove_verified_artifact a d w = elim (h.lstat a d w) [
      | absent ↦ (none, w)
      | unreadable ↦ (some artifact_not_managed, w)
      | irregular ↦ (some artifact_not_managed, w)
      | regular ↦
          if not (h.is_verified a d w)
          then (some artifact_not_managed, w)
          else (let (e, w') = h.perform (remove a d) w in
              (elim e [ some not_exist ↦ none | other ↦ other ], w'))
    ]

    -- The steps of `Delete` whose failure keeps the mark, in their order.
    unfoldable pub delete_steps : String → Definition → List (W → Option RemoteError × W)
    delete_steps id d =
        h.perform (stop (automount d))
        ∷ h.perform (stop d.unit_name)
        ∷ h.perform (disable (automount d))
        ∷ (λ w. elim (render_mount_unit t d) [
          | err e ↦ (some invalid_manifest, w)
          | ok lines ↦ remove_verified_artifact mount_unit d w
        ])
        ∷ (λ w. elim (render_automount_unit t d) [
          | err e ↦ (some invalid_manifest, w)
          | ok lines ↦ remove_verified_artifact automount_unit d w
        ])
        ∷ (λ w. if d.username == "" then (none, w) else remove_verified_artifact credentials d w)
        ∷ h.perform daemon_reload
        ∷ (λ w. elim (inventory (some id) w) [ err e ↦ (some e, w) | ok known ↦ (none, w) ])
        ∷ h.perform (remove_target d.target d.created_target)
        ∷ []

    -- `retainAttention` where a step fails, and the rest of `Delete` where none does.
    unfoldable pub run_delete :
        Definition → List (W → Option RemoteError × W) → W → Option RemoteError × W
    run_delete d [] w = h.perform (remove manifest d) w
    run_delete d (effect ∷ effects) w =
        let (e, w') = effect w in
        elim e [
          | some cause ↦ (some (needs_attention cause), (persist_attention h d w').1)
          | none ↦ run_delete d effects w'
        ]

    -- `Delete`
    unfoldable pub delete : String → W → Option RemoteError × W
    delete id w =
        if not (valid_definition_id id)
        then (some invalid_manifest, w)
        else elim (h.load_definition id w) [
          | err e ↦ (some e, w)
          | ok d ↦
              let (e, w') = persist_attention h d w in
              elim e [
                | some cause ↦ (some (needs_attention cause), w')
                | none ↦ run_delete (with_attention d) (delete_steps id (with_attention d)) w'
              ]
        ]
