-- ===== src/Files.antt =====
-- internal/modules/files/config.go: the directories that the files module may serve. `filepath.Clean`
-- and `os.Lstat` are parameters; `unix.Open` answers with a descriptor.
pub mod Roots
use Prim.Native.Char.{code, Char}
use Prim.Native.String.{len, count as runes}
use pilothouse.Base.{
  ℕ, zero, suc, ◌-◌, String, Bool, true, false, not, ◌&&◌, ◌||◌, Option, none, some, List, [], ◌∷◌,
  Map, string_eq, nat_eq, ◌==◌, lookup, insert, ltb, leb, length, if◌then◌else◌, is_some, Result,
  ok, err, ◌>>=◌, precedes,
}
use pilothouse.Storage.Names.{has_prefix, between}

abbrev pub max_roots : ℕ
max_roots = 64

abbrev pub max_root_path_bytes : ℕ
max_root_path_bytes = 4096

-- `RootSpec`
pub record RootSpec : Type 0 where
  pub id : String
  pub path : String
  pub writable : Bool

-- What `Lstat` says of a path.
pub record FileInfo : Type 0 where
  pub is_symlink : Bool
  pub is_dir : Bool

pub data RootError : Type 0 where
  invalid_root_id too_many_roots duplicate_root_id invalid_root_path filesystem_root : RootError
  stat_failed not_a_directory open_failed : RootError

-- `[a-z0-9]`
abbrev pub id_start : Char → Bool
id_start c = between 97 122 (code c) || between 48 57 (code c)

-- `[a-z0-9-]{0,n}$`
unfoldable pub id_rest : ℕ → String → Bool
id_rest n String.[] = true
id_rest zero (String.◌∷◌ c s) = false
id_rest (suc n) (String.◌∷◌ c s) =
    let rest = id_rest n s in if id_start c || code c == 45 then rest else false

-- `rootIDPattern`
unfoldable pub valid_root_id : String → Bool
valid_root_id String.[] = false
valid_root_id (String.◌∷◌ c s) = let rest = id_rest 31 s in if id_start c then rest else false

-- `strings.Cut(value, "=")`
unfoldable pub cut_equals : String → Option (String × String)
cut_equals String.[] = none
cut_equals (String.◌∷◌ c s) =
    let rest = cut_equals s in
    if code c == 61
    then some ("", s)
    else elim rest [ none ↦ none | some (before, after) ↦ some (String.◌∷◌ c before, after) ]

abbrev pub require_root : Bool → RootError → Result RootError (Unit {0})
require_root b e = if b then ok tt else err e

-- The checks on the id.
unfoldable pub root_parts : String → Result RootError (String × String)
root_parts value = elim (cut_equals value) [
  | none ↦ err invalid_root_id
  | some (id, path) ↦ if valid_root_id id then ok (id, path) else err invalid_root_id
]

module _ (clean : String → String) (lstat : String → Option FileInfo) where
  -- The checks on the cleaned path.
  unfoldable pub check_path : String → Result RootError (Unit {0})
  check_path path =
      if not (has_prefix path "/") || ltb max_root_path_bytes (len path)
      then err invalid_root_path
      else if path == "/"
      then err filesystem_root
      else elim (lstat path) [
        | none ↦ err stat_failed
        | some info ↦ if info.is_symlink || not info.is_dir then err not_a_directory else ok tt
      ]

  -- `RootFlags.Add`
  unfoldable pub add_root :
      Map String RootSpec → String → Bool → Result RootError (Map String RootSpec)
  add_root specs value writable = do
    parts ← root_parts value
    _ ← require_root (ltb (length specs) max_roots) too_many_roots
    _ ← require_root (not (is_some (lookup parts.0 specs))) duplicate_root_id
    _ ← check_path (clean parts.1)
    ok (insert parts.0 (record { id = parts.0; path = clean parts.1; writable = writable }) specs)

-- The loop of `Specs` over the map.
unfoldable pub insert_spec : RootSpec → List RootSpec → List RootSpec
insert_spec a [] = a ∷ []
insert_spec a (b ∷ specs) =
    let rest = insert_spec a specs in if precedes a.id b.id then a ∷ b ∷ specs else b ∷ rest

-- `RootFlags.Specs`
unfoldable pub root_specs : Map String RootSpec → List RootSpec
root_specs [] = []
root_specs ((id, spec) ∷ specs) = insert_spec spec (root_specs specs)
