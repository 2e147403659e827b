-- ===== src/Storage/Artifacts/Loaded.antt =====
-- What is known of a definition that was loaded.
use pilothouse.Base.{
  String, Bool, true, ◌&&◌, string_eq, ◌==◌, Option, none, some, Result, ok, err, >>=-eq-ok, ◌≡◌,
  sym, ◌∙◌, ap, arith, subst,
}
use pilothouse.Storage.Definitions.{Definition, TextChecks, valid_artifact_definition}
use pilothouse.Storage.Host.{RemoteError, invalid_manifest}
use pilothouse.Storage.Files.{
  Files, ArtifactStore, ReadAnswer, missing, unreadable_file, contents, verify_file,
  verify_metadata,
}
use pilothouse.Storage.Artifacts.{
  Json, manifest_path, marshal_manifest, read_text, require, decoded, load_definition_file,
}

module _ (t : TextChecks) (json : Json) {W : Type 0} (os : Files W) (store : ArtifactStore) where
  -- A definition that stands as it would be written.
  pub record Loaded (id : String) (w : W) (d : Definition) : Type 0 where
    pub path : String
    pub text : String
    pub placed : manifest_path t json os store id ≡ ok path
    pub own : d.id ≡ id
    pub valid : valid_artifact_definition t d ≡ true
    pub owned : verify_metadata os store path 384 w ≡ true
    pub stored : os.read_file path w ≡ contents text
    pub decodes : json.decode text ≡ some d
    pub canonical : marshal_manifest t json os store d ≡ ok text

  require-eq-ok :
      (b : Bool) (e : RemoteError) (u : Unit {0}) → require t json os store b e ≡ ok u → b ≡ true
  require-eq-ok b e u h = ground arith

  read_text-eq-ok :
      (answer : ReadAnswer) (text : String)
      → read_text t json os store answer ≡ ok text
      → answer ≡ contents text
  read_text-eq-ok missing text h = absurd (cc)
  read_text-eq-ok unreadable_file text h = absurd (cc)
  read_text-eq-ok (contents found) text h = ground arith

  decoded-eq-ok :
      (o : Option Definition) (d : Definition)
      → ◌≡◌ {A = Result RemoteError Definition}
          (elim o [ none ↦ err invalid_manifest | some x ↦ ok x ])
          (ok d)
      → o ≡ some d
  decoded-eq-ok none d h = absurd (cc)
  decoded-eq-ok (some x) d h = ground arith

  -- A definition that `LoadDefinition` gives is one of the id that was asked for and valid; its
  -- manifest is a regular file with the owner and the mode of the store, decodes to the definition,
  -- and is, byte for byte, what would be written for it.
  pub load_definition_file-Loaded :
      (id : String) (w : W) (d : Definition)
      → load_definition_file t json os store id w ≡ ok d
      → Loaded id w d
  unfolding load_definition_file verify_file
  load_definition_file-Loaded id w d h =
      let (path, placed, h1) = >>=-eq-ok (manifest_path t json os store id) _ h in
      let (text, stored, h2) = >>=-eq-ok (read_text t json os store (os.read_file path w)) _ h1 in
      let (u1, verified, h3) =
        >>=-eq-ok (require t json os store (verify_file os store path text 384 w) invalid_manifest)
          _ h2 in
      let (x, decodes, h4) = >>=-eq-ok (decoded t json os store text) _ h3 in
      let (u2, checked, h5) =
        >>=-eq-ok
          (require t json os store (x.id == id && valid_artifact_definition t x) invalid_manifest) _
          h4 in
      let (expected, marshalled, h6) = >>=-eq-ok (marshal_manifest t json os store x) _ h5 in
      let (u3, compared, h7) =
        >>=-eq-ok (require t json os store (text == expected) invalid_manifest) _ h6 in
      let same : x ≡ d = ground arith in
      let verdict =
        require-eq-ok (verify_file os store path text 384 w) invalid_manifest u1 verified in
      let fits =
        require-eq-ok (x.id == id && valid_artifact_definition t x) invalid_manifest u2 checked in
      let equal : text ≡ expected =
        (string_eq.beq_iff text expected).0
          (require-eq-ok (text == expected) invalid_manifest u3 compared) in
      subst (Loaded id w) same (record {
        path = path;
        text = text;
        placed = placed;
        own = (string_eq.beq_iff x.id id).0 (ground arith);
        valid = ground arith;
        owned = ground arith;
        stored = read_text-eq-ok (os.read_file path w) text stored;
        decodes = decoded-eq-ok (json.decode text) x decodes;
        canonical = marshalled ∙ ap ok (sym equal);
      })
