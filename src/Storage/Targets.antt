-- ===== src/Storage/Targets.antt =====
-- `PathManager` of internal/modules/storage/paths.go, which validates, makes and removes the
-- directories of mount targets. A call gives its system calls that open, close or change something,
-- in their order, and its result; what the file system answers is an argument, one for each walk,
-- since it may change between them. `path.Clean`, `unicode.IsControl` and systemd's escape of a path
-- are parameters.
pub mod Descriptors
pub mod Policy
use Prim.Native.Char.{code}
use Prim.Native.String.{◌++◌ as append}
use pilothouse.Base.{
  ℕ, String, Bool, true, false, not, ◌&&◌, ◌||◌, Option, none, some, List, [], ◌∷◌, ◌++◌, Map,
  string_eq, nat_eq, ◌==◌, lookup, if◌then◌else◌, any, Result, ok, err,
}
use pilothouse.Storage.Names.{has_prefix, valid_definition_id, valid_unit_name}

-- `TargetInventory`
pub record TargetInventory : Type 0 where
  pub managed_targets : List String
  pub mounts : List String
  pub unit_owners : Map String String

pub data PathError : Type 0 where
  context_done unsafe_target invalid_inventory : PathError
  open_failed stat_failed read_failed create_failed remove_failed : PathError

-- The flags of `openat2` beside those that all calls share.
pub data OpenFlags : Type 0 where
  path path_directory read_directory : OpenFlags

pub data OpenAnswer : Type 0 where
  opens : (fd : ℕ) → OpenAnswer
  absent refused : OpenAnswer

-- `pathFS`: `none` and `false` are errors.
pub record PathFs : Type 0 where
  pub open_root : Option ℕ
  pub openat2 : ℕ → String → OpenFlags → OpenAnswer
  pub is_directory : ℕ → Option Bool
  pub empty : ℕ → Option Bool
  pub mkdirat : ℕ → String → Bool
  pub unlinkat : ℕ → String → Bool

pub data SystemCall : Type 0 where
  opened closed : (fd : ℕ) → SystemCall
  made removed : (parent : ℕ) (leaf : String) → SystemCall

pub record Outcome {ℓ} (A : Type ℓ) : Type ℓ where
  pub calls : List SystemCall
  pub result : Result PathError A

abbrev pub outcome {ℓ} : {A : Type ℓ} → List SystemCall → Result PathError A → Outcome A
outcome calls result = record { calls = calls; result = result }

abbrev pub after {ℓ} : {A : Type ℓ} → List SystemCall → Outcome A → Outcome A
after calls o = outcome (calls ++ o.calls) o.result

-- What a walk finds: the descriptor of the parent, the last component, and whether it exists.
pub record Place : Type 0 where
  pub parent : ℕ
  pub leaf : String
  pub exists : Bool

-- The loop of `walk`.
unfoldable pub walk_from : PathFs → ℕ → List String → Outcome Place
walk_from fs parent [] = outcome (closed parent ∷ []) (err unsafe_target)
walk_from fs parent (component ∷ []) = elim (fs.openat2 parent component path) [
  | absent ↦ outcome [] (ok (record { parent = parent; leaf = component; exists = false }))
  | refused ↦ outcome (closed parent ∷ []) (err open_failed)
  | opens fd ↦
      outcome (opened fd ∷ closed fd ∷ [])
        (ok (record { parent = parent; leaf = component; exists = true }))
]
walk_from fs parent (component ∷ next ∷ components) =
    elim (fs.openat2 parent component path_directory) [
      | absent ↦ outcome (closed parent ∷ []) (err open_failed)
      | refused ↦ outcome (closed parent ∷ []) (err open_failed)
      | opens fd ↦ after (opened fd ∷ closed parent ∷ []) (walk_from fs fd (next ∷ components))
    ]

-- `strings.Split(s, "/")`
unfoldable pub split_slash : String → List String
split_slash String.[] = "" ∷ []
split_slash (String.◌∷◌ c s) =
    let rest = split_slash s in
    if code c == 47
    then "" ∷ rest
    else elim rest [ [] ↦ String.◌∷◌ c String.[] ∷ [] | part ∷ parts ↦ String.◌∷◌ c part ∷ parts ]

-- `strings.TrimPrefix(target, "/")`
abbrev pub trim_slash : String → String
trim_slash String.[] = String.[]
trim_slash (String.◌∷◌ c s) = if code c == 47 then s else String.◌∷◌ c s

-- `walk`
unfoldable pub walk : PathFs → String → Outcome Place
walk fs target = elim fs.open_root [
  | none ↦ outcome [] (err open_failed)
  | some root ↦ after (opened root ∷ []) (walk_from fs root (split_slash (trim_slash target)))
]

-- What `validateDirectory` asks of the descriptor that it has opened.
abbrev pub check_directory : PathFs → ℕ → Result PathError (Unit {0})
check_directory fs fd = elim (fs.is_directory fd) [
  | none ↦ err stat_failed
  | some false ↦ err unsafe_target
  | some true ↦ elim (fs.empty fd) [
    | none ↦ err read_failed
    | some false ↦ err unsafe_target
    | some true ↦ ok tt
  ]
]

-- `validateDirectory`
unfoldable pub validate_directory : PathFs → ℕ → String → Outcome (Unit {0})
validate_directory fs parent leaf = elim (fs.openat2 parent leaf read_directory) [
  | absent ↦ outcome [] (err open_failed)
  | refused ↦ outcome [] (err open_failed)
  | opens fd ↦ outcome (opened fd ∷ closed fd ∷ []) (check_directory fs fd)
]

-- `protectedTargetRoots`
abbrev pub protected_target_roots : List String
protected_target_roots =
    "/proc" ∷ "/sys" ∷ "/dev" ∷ "/run" ∷ "/boot" ∷ "/etc" ∷ "/usr" ∷ "/var/lib/pilothouse" ∷ []

-- Is the first path below the second?
abbrev pub is_below : String → String → Bool
is_below s root = has_prefix s (append root "/")

-- `protectedTarget`
unfoldable pub protected_target : String → Bool
protected_target target =
    target == "/" || any (λ root. target == root || is_below target root) protected_target_roots

-- What follows a walk that succeeds, with the closing of the parent.
abbrev pub at_place : {A : Type 0} → Outcome Place → (Place → Outcome A) → Outcome A
at_place o next = elim o.result [
  | err e ↦ outcome o.calls (err e)
  | ok p ↦ let x = next p in outcome (o.calls ++ (x.calls ++ closed p.parent ∷ [])) x.result
]

abbrev pub after_validation : {A : Type 0} → Outcome (Unit {0}) → Outcome A → Outcome A
after_validation o next = elim o.result [
  | err e ↦ outcome o.calls (err e)
  | ok u ↦ after o.calls next
]

module _ (clean : String → String) (has_control : String → Bool) (escape : String → String)
    (definition_id : String) where
  -- `ValidateTarget(value) == nil`
  unfoldable pub valid_target : String → Bool
  valid_target value = has_prefix value "/" && (clean value == value && not (has_control value))

  -- `validateTargetInventory(inventory) == nil`
  unfoldable pub valid_owners : Map String String → Bool
  valid_owners [] = true
  valid_owners ((name, owner) ∷ owners) =
      let rest = valid_owners owners in
      if not (valid_unit_name name) || not (valid_definition_id owner) then false else rest

  unfoldable pub valid_inventory : Option TargetInventory → Bool
  valid_inventory none = true
  valid_inventory (some inventory) =
      not (any (λ mount. not (valid_target mount)) inventory.mounts)
      && (not (any (λ target. not (valid_target target)) inventory.managed_targets)
          && valid_owners inventory.unit_owners)

  abbrev pub owned_by_other : Map String String → String → Bool
  owned_by_other owners name = elim (lookup name owners) [
    | none ↦ false
    | some owner ↦ not (owner == definition_id)
  ]

  -- `hasConflict`
  unfoldable pub has_conflict : String → Option TargetInventory → Bool
  has_conflict target none = false
  has_conflict target (some inventory) =
      any (λ mount. mount == target || is_below mount target) inventory.mounts
      || (any (λ managed. managed == target || (is_below managed target || is_below target managed))
            inventory.managed_targets
          || (owned_by_other inventory.unit_owners (append (escape target) ".mount")
              || owned_by_other inventory.unit_owners (append (escape target) ".automount")))

  -- `validatePolicy`
  unfoldable pub validate_policy : String → Option TargetInventory → Result PathError (Unit {0})
  validate_policy target inventory =
      if not (valid_target target) || protected_target target
      then err unsafe_target
      else if not (valid_inventory inventory)
      then err invalid_inventory
      else if has_conflict target inventory
      then err unsafe_target
      else ok tt

  -- `PathManager.ValidateTarget`
  unfoldable pub validate_target :
      PathFs → Bool → String → Option TargetInventory → Outcome (Unit {0})
  validate_target fs done target inventory =
      if done then outcome [] (err context_done) else elim (validate_policy target inventory) [
        | err e ↦ outcome [] (err e)
        | ok u ↦
            at_place (walk fs target)
              (λ p. if p.exists then validate_directory fs p.parent p.leaf else outcome [] (ok tt))
      ]

  -- The part of `CreateTarget` after its second walk; `true` where the directory was made.
  unfoldable pub create_at : PathFs → Place → Outcome Bool
  create_at fs p =
      let checked = validate_directory fs p.parent p.leaf in
      if p.exists
      then outcome checked.calls (elim checked.result [ err e ↦ err e | ok u ↦ ok false ])
      else if not (fs.mkdirat p.parent p.leaf)
      then outcome [] (err create_failed)
      else outcome (made p.parent p.leaf ∷ checked.calls)
          (elim checked.result [ err e ↦ err e | ok u ↦ ok true ])

  -- `CreateTarget`
  unfoldable pub create_target :
      PathFs → PathFs → Bool → String → Option TargetInventory → Outcome Bool
  create_target fs fs' done target inventory =
      after_validation (validate_target fs done target inventory)
        (at_place (walk fs' target) (create_at fs'))

  -- The part of `RemoveTarget` after its second walk.
  unfoldable pub remove_at : PathFs → Place → Outcome (Unit {0})
  remove_at fs p =
      if not p.exists
      then outcome [] (ok tt)
      else after_validation (validate_directory fs p.parent p.leaf) (
          if fs.unlinkat p.parent p.leaf
          then outcome (removed p.parent p.leaf ∷ []) (ok tt)
          else outcome [] (err remove_failed))

  -- `RemoveTarget`
  unfoldable pub remove_target :
      PathFs → PathFs → Bool → String → Bool → Option TargetInventory → Outcome (Unit {0})
  remove_target fs fs' done target created inventory =
      if not created
      then outcome [] (ok tt)
      else after_validation (validate_target fs done target inventory)
          (at_place (walk fs' target) (remove_at fs'))
