-- ===== src/Storage/Targets/Policy.antt =====
-- Which targets `PathManager` touches at all.
use pilothouse.Base.{
  ◌≡◌, ◌≢◌, ◌⊎◌, refl, sym, ap, ◌∙◌, String, Bool, true, false, ◌||◌, Option, List, [], ◌∷◌,
  string_eq, ◌==◌, any, contains, ok, err, arith, Bool-cases, Result-cases, inl, inr,
}
use pilothouse.Storage.Names.{has_prefix}
use pilothouse.Storage.Targets.{
  TargetInventory, PathError, context_done, PathFs, Outcome, outcome, protected_target_roots,
  is_below, protected_target, valid_target, valid_inventory, has_conflict, validate_policy,
  validate_target, create_target, remove_target, after_validation,
}

any-false :
    (p : String → Bool) (xs : List String) (x : String)
    → any p xs ≡ false
    → contains xs x ≡ true
    → p x ≡ false
any-false p [] x h c = cc
any-false p (y ∷ xs) x h c = elim (Bool-cases (y == x)) [
  | inl same ↦ let eq : y ≡ x = (string_eq.beq_iff y x).0 same in ap p (sym eq) ∙ ground arith
  | inr other ↦ any-false p xs x (ground arith) (ground arith)
]

stopped_calls :
    {A : Type 0} (o : Outcome (Unit {0})) (next : Outcome A) (e : PathError)
    → o ≡ outcome [] (err e)
    → (after_validation o next).calls ≡ []
stopped_calls o next e same = ap (λ o. (after_validation o next).calls) same

module _ (clean : String → String) (has_control : String → Bool) (escape : String → String)
    (definition_id : String) where
  -- A target that may be touched.
  pub record SafeTarget (target : String) (inventory : Option TargetInventory) : Type 0 where
    pub absolute : has_prefix target "/" ≡ true
    pub cleaned : clean target ≡ target
    pub printable : has_control target ≡ false
    pub not_root : (target == "/") ≡ false
    pub unprotected :
        (root : String)
        → contains protected_target_roots root ≡ true
        → ((target == root) ≡ false) × (is_below target root ≡ false)
    pub trusted : valid_inventory clean has_control escape definition_id inventory ≡ true
    pub free : has_conflict clean has_control escape definition_id target inventory ≡ false

  validate_policy-SafeTarget :
      (target : String) (inventory : Option TargetInventory) (u : Unit {0})
      → validate_policy clean has_control escape definition_id target inventory ≡ ok u
      → SafeTarget target inventory
  unfolding validate_policy valid_target protected_target
  validate_policy-SafeTarget target inventory u h =
      let protected : protected_target target ≡ false = ground arith in
      let valid : valid_target clean has_control escape definition_id target ≡ true =
        ground arith in
      record {
        absolute = ground arith;
        cleaned = (string_eq.beq_iff (clean target) target).0 (ground arith);
        printable = ground arith;
        not_root = ground arith;
        unprotected = λ root listed.
            let apart =
              any-false (λ root. target == root || is_below target root) protected_target_roots root
                (ground arith) listed in
            (ground arith, ground arith);
        trusted = ground arith;
        free = ground arith;
      }

  refuses_lem :
      (fs : PathFs) (done : Bool) (target : String) (inventory : Option TargetInventory)
      (e : PathError)
      → validate_policy clean has_control escape definition_id target inventory ≡ err e
      → (e' : PathError) × (validate_target clean has_control escape definition_id fs done target
            inventory
          ≡ outcome [] (err e'))
  unfolding validate_target
  refuses_lem fs true target inventory e h = (context_done, refl)
  refuses_lem fs false target inventory e h = (e, rw h refl)

  -- Neither `CreateTarget` nor `RemoveTarget` makes any system call, be it to open a directory, unless
  -- the target is an absolute clean path without control characters, is neither the root nor one of
  -- the protected directories nor below one, and neither is nor holds a mount, nor overlaps another
  -- managed target, nor has a unit of another owner.
  pub touches-SafeTarget :
      (fs fs' : PathFs) (done created : Bool) (target : String) (inventory : Option TargetInventory)
      → ((create_target clean has_control escape definition_id fs fs' done target inventory).calls
          ≢ [])
        ⊎ ((remove_target clean has_control escape definition_id fs fs' done target created
              inventory).calls
            ≢ [])
      → SafeTarget target inventory
  unfolding create_target remove_target
  touches-SafeTarget fs fs' done created target inventory h =
      elim (Result-cases
        (validate_policy clean has_control escape definition_id target inventory)) [
          | inl (u, passes) ↦ validate_policy-SafeTarget target inventory u passes
          | inr (e, refuses) ↦
              let (e', same) = refuses_lem fs done target inventory e refuses in
              absurd (elim h [
                | inl creates ↦ creates (stopped_calls _ _ e' same)
                | inr removes ↦ removes (elim (Bool-cases created) [
                  | inr other ↦ rw other refl
                  | inl ours ↦ rw ours (stopped_calls _ _ e' same)
                ])
              ])
        ]
