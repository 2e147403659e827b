-- ===== src/Files/Roots.antt =====
-- What the flags for roots leave.
use Prim.Native.String.{len}
use pilothouse.Base.{
  ◌≤◌, ◌<◌, ◌≡◌, refl, subst, subst₂, ltb→lt, String, Bool, true, false, not, Option, some, List,
  [], ◌∷◌, Map, string_eq, ◌==◌, lookup, insert, length, ltb, is_some, HasDistinctKeys,
  insert-HasDistinctKeys, lookup-insert, length-insert, arith, Result, ok, ◌>>=◌, >>=-eq-ok,
  Bool-cases, Option-cases, inl, inr,
}
use pilothouse.Storage.Names.{has_prefix}
use pilothouse.Files.{
  RootSpec, FileInfo, RootError, max_roots, max_root_path_bytes, valid_root_id, root_parts,
  cut_equals, require_root, check_path, add_root, too_many_roots, duplicate_root_id,
}

module _ (clean : String → String) (lstat : String → Option FileInfo) where
  -- The flags in the order of the command line, of which the first error ends the program.
  unfoldable pub add_roots :
      Map String RootSpec → List (String × Bool) → Result RootError (Map String RootSpec)
  add_roots specs [] = ok specs
  add_roots specs ((value, writable) ∷ flags) =
      add_root clean lstat specs value writable >>= (λ specs'. add_roots specs' flags)

  -- A root that may be served.
  pub record IsRoot (id : String) (spec : RootSpec) : Type 0 where
    pub under_its_id : spec.id ≡ id
    pub named : valid_root_id id ≡ true
    pub absolute : has_prefix spec.path "/" ≡ true
    pub not_everything : (spec.path == "/") ≡ false
    pub short : len spec.path ≤ max_root_path_bytes
    pub info : FileInfo
    pub found : lstat spec.path ≡ some info
    pub no_symlink : info.is_symlink ≡ false
    pub directory : info.is_dir ≡ true

  pub record IsSound (specs : Map String RootSpec) : Type 0 where
    pub distinct : HasDistinctKeys specs
    pub bounded : length specs ≤ max_roots
    pub roots : (id : String) (spec : RootSpec) → lookup id specs ≡ some spec → IsRoot id spec

  require_root-eq-ok :
      (b : Bool) (e : RootError) (u : Unit {0}) → require_root b e ≡ ok u → b ≡ true
  require_root-eq-ok b e u h = ground arith

  root_parts_valid :
      (value : String) (parts : String × String)
      → root_parts value ≡ ok parts
      → valid_root_id parts.0 ≡ true
  unfolding root_parts
  root_parts_valid value parts h = elim (Option-cases (cut_equals value)) [
    | inl missing ↦ absurd (ground arith)
    | inr (p, found) ↦ elim (Bool-cases (valid_root_id p.0)) [
      | inr bad ↦ absurd (ground arith)
      | inl valid ↦
          let same : p ≡ parts = ground arith in subst (λ p. valid_root_id p.0 ≡ true) same valid
    ]
  ]

  check_path-IsRoot :
      (id path : String) (writable : Bool) (u : Unit {0})
      → valid_root_id id ≡ true
      → check_path clean lstat path ≡ ok u
      → IsRoot id (record { id = id; path = path; writable = writable })
  unfolding check_path
  check_path-IsRoot id path writable u named h = elim (Option-cases (lstat path)) [
    | inl missing ↦ absurd (ground arith)
    | inr (info, found) ↦ record {
      under_its_id = refl;
      named = named;
      absolute = ground arith;
      not_everything = ground arith;
      short = ground arith;
      info = info;
      found = found;
      no_symlink = ground arith;
      directory = ground arith;
    }
  ]

  insert-IsSound :
      (specs : Map String RootSpec) (id : String) (new : RootSpec)
      → IsSound specs
      → length specs < max_roots
      → IsRoot id new
      → IsSound (insert id new specs)
  insert-IsSound specs id new s room root = record {
    distinct = insert-HasDistinctKeys id new specs s.distinct;
    bounded = ground (arith, length-insert id new specs);
    roots = λ k spec there. elim (Bool-cases (id == k)) [
      | inl same ↦
          let eq : id ≡ k = (string_eq.beq_iff id k).0 same in
          let stored : new ≡ spec = ground (arith, lookup-insert id k new specs) in
          subst₂ IsRoot eq stored root
      | inr other ↦ s.roots k spec (ground (arith, lookup-insert id k new specs))
    ];
  }

  add_root-IsSound :
      (specs specs' : Map String RootSpec) (value : String) (writable : Bool)
      → IsSound specs
      → add_root clean lstat specs value writable ≡ ok specs'
      → IsSound specs'
  unfolding add_root
  add_root-IsSound specs specs' value writable s h =
      let (parts, cut, h1) = >>=-eq-ok (root_parts value) _ h in
      let (u1, room, h2) =
        >>=-eq-ok (require_root (ltb (length specs) max_roots) too_many_roots) _ h1 in
      let (u2, fresh, h3) =
        >>=-eq-ok (require_root (not (is_some (lookup parts.0 specs))) duplicate_root_id) _ h2 in
      let (u3, checked, h4) = >>=-eq-ok (check_path clean lstat (clean parts.1)) _ h3 in
      let new : RootSpec = record { id = parts.0; path = clean parts.1; writable = writable } in
      let made : insert parts.0 new specs ≡ specs' = ground arith in
      let below = ltb→lt (length specs) max_roots (require_root-eq-ok _ too_many_roots u1 room) in
      subst IsSound made (
        insert-IsSound specs parts.0 new s below (
          check_path-IsRoot parts.0 (clean parts.1) writable u3 (root_parts_valid value parts cut)
            checked))

  add_roots-IsSound :
      (flags : List (String × Bool)) (specs specs' : Map String RootSpec)
      → IsSound specs
      → add_roots specs flags ≡ ok specs'
      → IsSound specs'
  unfolding add_roots
  add_roots-IsSound [] specs specs' s h = subst IsSound (ground arith) s
  add_roots-IsSound ((value, writable) ∷ flags) specs specs' s h =
      let (specs1, first, rest) = >>=-eq-ok (add_root clean lstat specs value writable) _ h in
      add_roots-IsSound flags specs1 specs' (add_root-IsSound specs specs1 value writable s first)
        rest

  -- The roots that the flags have given, if all are accepted, are at most 64 under distinct ids of the
  -- allowed form; and the path of each is absolute, not the root of the file system, not too long, and
  -- was found to be a directory and no symbolic link.
  pub roots-IsSound :
      (flags : List (String × Bool)) (specs : Map String RootSpec)
      → add_roots [] flags ≡ ok specs
      → IsSound specs
  unfolding lookup
  roots-IsSound flags specs h =
      add_roots-IsSound flags [] specs
        (record { distinct = tt; bounded = ground arith; roots = λ id spec there. absurd (cc) }) h
