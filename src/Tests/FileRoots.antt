-- ===== src/Tests/FileRoots.antt =====
-- Two roots, one of them writable, and a third flag that is refused.
use pilothouse.Base.{
  ◌≡◌, refl, String, true, false, Option, some, [], ◌∷◌, Map, string_eq, lookup, insert, err,
  precedes,
}
use pilothouse.Storage.Names.{has_prefix}
use pilothouse.Files.{
  RootSpec, FileInfo, add_root, root_parts, cut_equals, valid_root_id, id_rest, check_path,
  filesystem_root, root_specs, insert_spec,
}
use pilothouse.Files.Roots.{IsSound, add_roots, roots-IsSound}

abbrev as_is : String → String
as_is s = s

abbrev directory : String → Option FileInfo
directory path = some (record { is_symlink = false; is_dir = true })

abbrev two_roots : Map String RootSpec
two_roots =
    ("srv", record { id = "srv"; path = "/srv"; writable = true })
    ∷ ("logs", record { id = "logs"; path = "/var/log"; writable = false })
    ∷ []

roots-IsSound_example : IsSound as_is directory two_roots
unfolding add_roots add_root root_parts cut_equals valid_root_id id_rest check_path has_prefix
    lookup insert
roots-IsSound_example =
    roots-IsSound as_is directory (("srv=/srv", true) ∷ ("logs=/var/log", false) ∷ []) two_roots
      refl

everything_refused : add_root as_is directory two_roots "all=/" true ≡ err filesystem_root
unfolding add_root root_parts cut_equals valid_root_id id_rest check_path has_prefix lookup
everything_refused = refl

listed_in_order :
    root_specs two_roots
    ≡ record { id = "logs"; path = "/var/log"; writable = false }
      ∷ record { id = "srv"; path = "/srv"; writable = true }
      ∷ []
unfolding root_specs insert_spec precedes
listed_in_order = refl
