-- ===== src/Storage/Lifecycle/Manifest.antt =====
-- A deletion that fails leaves the manifest.
use pilothouse.Base.{
  String, Bool, true, false, string_eq, ◌==◌, if◌then◌else◌, Result, ok, err, Option, none, some,
  List, [], ◌∷◌, ◌≡◌, ◌⊎◌, refl, sym, subst, arith, inl, inr, Bool-cases, Option-cases,
  Result-cases, All,
}
use pilothouse.Storage.Names.{valid_definition_id}
use pilothouse.Storage.Definitions.{Definition, TextChecks}
use pilothouse.Storage.Units.{render_mount_unit, render_automount_unit}
use pilothouse.Storage.Host.{
  RemoteError, invalid_manifest, Call, Artifact, credentials, mount_unit, automount_unit, manifest,
  remove_target, write_credentials, write_mount_unit, write_automount_unit, write_manifest,
  update_manifest, remove, daemon_reload, enable, disable, start, stop, FileAnswer, absent,
  unreadable, irregular, regular, Host, with_attention,
}
use pilothouse.Storage.Lifecycle.{
  persist_attention, remove_verified_artifact, inventory, delete_steps, run_delete, delete,
  automount,
}

abbrev is_manifest : Artifact → Bool
is_manifest manifest = true
is_manifest credentials = false
is_manifest mount_unit = false
is_manifest automount_unit = false

FileAnswer-cases :
    (f : FileAnswer) → ((f ≡ absent) ⊎ ((f ≡ unreadable) ⊎ (f ≡ irregular))) ⊎ (f ≡ regular)
FileAnswer-cases absent = inl (inl refl)
FileAnswer-cases unreadable = inl (inr (inl refl))
FileAnswer-cases irregular = inl (inr (inr refl))
FileAnswer-cases regular = inr refl

-- Does the call remove the manifest?
abbrev pub removes_manifest : Call → Bool
removes_manifest (remove a d) = is_manifest a
removes_manifest (remove_target target created) = false
removes_manifest (write_credentials id user password) = false
removes_manifest (write_mount_unit d) = false
removes_manifest (write_automount_unit d) = false
removes_manifest (write_manifest d) = false
removes_manifest (update_manifest d) = false
removes_manifest daemon_reload = false
removes_manifest (enable name) = false
removes_manifest (disable name) = false
removes_manifest (start name) = false
removes_manifest (stop name) = false

module _ {W : Type 0} (h : Host W) (Kept : W → Type 0)
    (keeps : (c : Call) (w : W) → removes_manifest c ≡ false → Kept w → Kept (h.perform c w).1)
    (stays : (d : Definition) (w w' : W) (e : RemoteError)
      → h.perform (remove manifest d) w ≡ (some e, w')
      → Kept w
      → Kept w')
    (t : TextChecks) (escape : String → String) where
  abbrev Keeps : (W → Option RemoteError × W) → Type 0
  Keeps effect = (w : W) → Kept w → Kept (effect w).1

  persist_attention-Keeps : (d : Definition) → Keeps (persist_attention h d)
  unfolding persist_attention
  persist_attention-Keeps d w k =
      let middle = (h.perform (update_manifest (with_attention d)) w).1 in
      let first : Kept middle = keeps (update_manifest (with_attention d)) w refl k in
      let second = keeps (write_manifest (with_attention d)) middle refl first in
      elim (Option-cases (h.perform (update_manifest (with_attention d)) w).0) [
        | inl fine ↦
            let same : (persist_attention h d w).1 ≡ middle = ground arith in
            subst Kept (sym same) first
        | inr (e, failed) ↦
            let same : (persist_attention h d w).1
                ≡ (h.perform (write_manifest (with_attention d)) middle).1 =
              ground arith in
            subst Kept (sym same) second
      ]

  -- What is looked at before the removal.
  abbrev Unchanged : Artifact → Definition → W → Type 0
  Unchanged a d w = (remove_verified_artifact t escape h a d w).1 ≡ w

  remove_verified_artifact-Keeps :
      (a : Artifact) (d : Definition)
      → is_manifest a ≡ false
      → Keeps (remove_verified_artifact t escape h a d)
  unfolding remove_verified_artifact
  remove_verified_artifact-Keeps a d other w k = elim (FileAnswer-cases (h.lstat a d w)) [
    | inl stays_there ↦ let same : Unchanged a d w = ground arith in subst Kept (sym same) k
    | inr there ↦ elim (Bool-cases (h.is_verified a d w)) [
      | inl verified ↦
          let same : (remove_verified_artifact t escape h a d w).1 ≡ (h.perform (remove a d) w).1 =
            ground arith in
          subst Kept (sym same) (keeps (remove a d) w other k)
      | inr foreign ↦ let same : Unchanged a d w = ground arith in subst Kept (sym same) k
    ]
  ]

  abbrev AllKeep : List (W → Option RemoteError × W) → Type 0
  AllKeep effects = All Keeps effects

  run_delete-Keeps :
      (d : Definition) (effects : List (W → Option RemoteError × W)) (e : RemoteError) (w w' : W)
      → AllKeep effects
      → Kept w
      → run_delete t escape h d effects w ≡ (some e, w')
      → Kept w'
  unfolding run_delete
  run_delete-Keeps d [] e w w' all k ran = stays d w w' e ran k
  run_delete-Keeps d (effect ∷ effects) e w w' all k ran =
      let next = all.0 w k in
      elim (Option-cases (effect w).0) [
        | inl fine ↦ run_delete-Keeps d effects e (effect w).1 w' all.1 next (ground arith)
        | inr (cause, failed) ↦
            let same : (persist_attention h d (effect w).1).1 ≡ w' = ground arith in
            subst Kept same (persist_attention-Keeps d (effect w).1 next)
      ]

  rendered-Keeps :
      {E A : Type 0} (rendered : Result E A) (e : RemoteError) (effect : W → Option RemoteError × W)
      → Keeps effect
      → Keeps (λ w. elim rendered [ err failure ↦ (some e, w) | ok lines ↦ effect w ])
  rendered-Keeps (ok lines) e effect keep w k = keep w k
  rendered-Keeps (err failure) e effect keep w k = k

  credentials-Keeps :
      (d : Definition)
      → Keeps (λ w.
        if d.username == "" then (none, w) else remove_verified_artifact t escape h credentials d w)
  credentials-Keeps d w k = elim (Bool-cases (d.username == "")) [
    | inl guest ↦ rw guest k
    | inr named ↦ rw named (remove_verified_artifact-Keeps credentials d refl w k)
  ]

  inventory-Keeps :
      (id : String)
      → Keeps (λ w. elim (inventory t escape h (some id) w) [
        | err e ↦ (some e, w)
        | ok known ↦ (none, w)
      ])
  inventory-Keeps id w k = elim (Result-cases (inventory t escape h (some id) w)) [
    | inl (known, found) ↦ rw found k
    | inr (e, failed) ↦ rw failed k
  ]

  delete_steps-AllKeep : (id : String) (d : Definition) → AllKeep (delete_steps t escape h id d)
  unfolding delete_steps
  delete_steps-AllKeep id d = (
    (λ w k. keeps (stop (automount t escape d)) w refl k),
    (
      (λ w k. keeps (stop d.unit_name) w refl k),
      (
        (λ w k. keeps (disable (automount t escape d)) w refl k),
        (
          rendered-Keeps (render_mount_unit t d) invalid_manifest
              (remove_verified_artifact t escape h mount_unit d)
              (remove_verified_artifact-Keeps mount_unit d refl),
          (
            rendered-Keeps (render_automount_unit t d) invalid_manifest
                (remove_verified_artifact t escape h automount_unit d)
                (remove_verified_artifact-Keeps automount_unit d refl),
            (
              credentials-Keeps d,
              (
                (λ w k. keeps daemon_reload w refl k),
                (
                  inventory-Keeps id,
                  ((λ w k. keeps (remove_target d.target d.created_target) w refl k), tt),
                ),
              ),
            ),
          ),
        ),
      ),
    ),
  )

  -- A `Delete` that fails leaves the manifest in place, whatever fails and wherever: what holds before
  -- it, such as that the manifest is there, holds after it, where no call but the removal of the
  -- manifest ends it and a removal of the manifest that fails does not end it.
  pub delete-Kept :
      (id : String) (e : RemoteError) (w w' : W)
      → Kept w
      → delete t escape h id w ≡ (some e, w')
      → Kept w'
  unfolding delete
  delete-Kept id e w w' k ran = elim (Bool-cases (valid_definition_id id)) [
    | inr invalid ↦ subst Kept (ground arith) k
    | inl valid ↦ elim (Result-cases (h.load_definition id w)) [
      | inr (refusal, refused) ↦ subst Kept (ground arith) k
      | inl (d, loaded) ↦
          let marked = persist_attention-Keeps d w k in
          elim (Option-cases (persist_attention h d w).0) [
            | inr (cause, failed) ↦
                let same : (persist_attention h d w).1 ≡ w' = ground arith in subst Kept same marked
            | inl fine ↦
                run_delete-Keeps (with_attention d) (delete_steps t escape h id (with_attention d))
                  e (persist_attention h d w).1 w' (delete_steps-AllKeep id (with_attention d))
                  marked (ground arith)
          ]
    ]
  ]
