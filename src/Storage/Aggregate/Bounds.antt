-- ===== src/Storage/Aggregate/Bounds.antt =====
-- What an aggregate never exceeds.
use pilothouse.Base.{
  subst, ◌≡◌, sym, String, Bool, true, false, some, List, [], ◌∷◌, string_eq, nat_eq, ◌==◌,
  length-insert, length, length-append, All, arith, inl, inr, Bool-cases, Option-cases, ok,
  >>=-eq-ok, if◌then◌else◌,
}
use pilothouse.Storage.Model.{Relation, Mount, Finding}
use pilothouse.Storage.Aggregate.{
  AdapterResult, Aggregate, mark_truncated, relation_key, attach, apply_resources, apply_relation,
  apply_relations, replace_mount, add_mount, apply_mount, apply_mounts, apply_finding,
  apply_findings, apply,
}
use pilothouse.Storage.Aggregate.Resources.{apply_resources-IsBounded, IsStored, IsBounded}

module _ {F : Type 0} where
  module _ (backend : String) where
    apply_relation-resources :
        (r : Relation) (a : Aggregate F) → (apply_relation backend r a).resources ≡ a.resources
    unfolding apply_relation
    apply_relation-resources r a = ground arith

    apply_relation-IsBounded :
        (r : Relation) (a : Aggregate F) → IsBounded a → IsBounded (apply_relation backend r a)
    unfolding apply_relation
    apply_relation-IsBounded r a h = record {
      resources = ground arith;
      relations = ground (arith, length-insert (relation_key r) r a.relations);
      mounts = ground arith;
      findings = ground arith;
      stored = subst (All IsStored) (sym (apply_relation-resources r a)) h.stored;
    }

    apply_relations-IsBounded :
        (rs : List Relation) (a : Aggregate F)
        → IsBounded a
        → IsBounded (apply_relations backend rs a)
    unfolding apply_relations
    apply_relations-IsBounded [] a h = h
    apply_relations-IsBounded (r ∷ rs) a h =
        apply_relations-IsBounded rs (apply_relation backend r a) (apply_relation-IsBounded r a h)

    length-replace_mount :
        (m : Mount F) (ms replaced : List (Mount F))
        → replace_mount backend m ms ≡ some replaced
        → length replaced ≡ length ms
    unfolding replace_mount
    length-replace_mount m [] replaced h = absurd (cc)
    length-replace_mount m (n ∷ ns) replaced h = elim (Bool-cases (n.id == m.id)) [
      | inl same ↦ ground arith
      | inr other ↦ elim (Option-cases (replace_mount backend m ns)) [
        | inl missing ↦ absurd (ground arith)
        | inr (rest, found) ↦ ground (arith, length-replace_mount m ns rest found)
      ]
    ]

    add_mount-resources :
        (m : Mount F) (a : Aggregate F) → (add_mount backend m a).resources ≡ a.resources
    unfolding add_mount
    add_mount-resources m a = ground arith

    add_mount-IsBounded :
        (m : Mount F) (a : Aggregate F) → IsBounded a → IsBounded (add_mount backend m a)
    unfolding add_mount
    add_mount-IsBounded m a h = record {
      resources = ground arith;
      relations = ground arith;
      mounts = ground (arith, length-append a.mounts (attach backend a m ∷ []));
      findings = ground arith;
      stored = subst (All IsStored) (sym (add_mount-resources m a)) h.stored;
    }

    apply_mount-IsBounded :
        (enrich : Bool) (m : Mount F) (a : Aggregate F)
        → IsBounded a
        → IsBounded (apply_mount backend enrich m a)
    unfolding apply_mount
    apply_mount-IsBounded false m a h = add_mount-IsBounded m a h
    apply_mount-IsBounded true m a h =
        elim (Option-cases (replace_mount backend (attach backend a m) a.mounts)) [
          | inl missing ↦ rw missing (add_mount-IsBounded m a h)
          | inr (replaced, found) ↦ rw found (record {
            resources = h.resources;
            relations = h.relations;
            mounts = omega (
              arith,
              h.mounts,
              length-replace_mount (attach backend a m) a.mounts replaced found,
            );
            findings = h.findings;
            stored = h.stored;
          })
        ]

    apply_mounts-IsBounded :
        (enrich : Bool) (ms : List (Mount F)) (a : Aggregate F)
        → IsBounded a
        → IsBounded (apply_mounts backend enrich ms a)
    unfolding apply_mounts
    apply_mounts-IsBounded enrich [] a h = h
    apply_mounts-IsBounded enrich (m ∷ ms) a h =
        apply_mounts-IsBounded enrich ms (apply_mount backend enrich m a)
          (apply_mount-IsBounded enrich m a h)

    apply_finding-resources :
        (f : Finding) (a : Aggregate F) → (apply_finding backend f a).resources ≡ a.resources
    unfolding apply_finding
    apply_finding-resources f a = ground arith

    apply_finding-IsBounded :
        (f : Finding) (a : Aggregate F) → IsBounded a → IsBounded (apply_finding backend f a)
    unfolding apply_finding
    apply_finding-IsBounded f a h = record {
      resources = ground arith;
      relations = ground arith;
      mounts = ground arith;
      findings = ground (arith, length-append a.findings (f ∷ []));
      stored = subst (All IsStored) (sym (apply_finding-resources f a)) h.stored;
    }

    apply_findings-IsBounded :
        (fs : List Finding) (a : Aggregate F)
        → IsBounded a
        → IsBounded (apply_findings backend fs a)
    unfolding apply_findings
    apply_findings-IsBounded [] a h = h
    apply_findings-IsBounded (f ∷ fs) a h =
        apply_findings-IsBounded fs (apply_finding backend f a) (apply_finding-IsBounded f a h)

    mark_truncated-IsBounded :
        (a : Aggregate F) → IsBounded a → IsBounded (mark_truncated backend a)
    mark_truncated-IsBounded a h = record {
      resources = h.resources;
      relations = h.relations;
      mounts = h.mounts;
      findings = h.findings;
      stored = h.stored;
    }

    -- What `apply` leaves stays within the limits.
    pub apply-IsBounded :
        (result : AdapterResult F) (enrich : Bool) (a b : Aggregate F)
        → IsBounded a
        → apply backend result enrich a ≡ ok b
        → IsBounded b
    unfolding apply
    apply-IsBounded result enrich a b h e =
        let start = if result.truncated then mark_truncated backend a else a in
        let start-IsBounded : IsBounded start = elim (Bool-cases result.truncated) [
          | inl cut ↦ rw cut (mark_truncated-IsBounded a h)
          | inr whole ↦ rw whole h
        ] in
        let (c, first, rest) =
          >>=-eq-ok (apply_resources backend enrich result.resources start) _ e in
        subst IsBounded (cc) (
          apply_findings-IsBounded result.findings _ (
            apply_mounts-IsBounded enrich result.mounts _ (
              apply_relations-IsBounded result.relations c (
                apply_resources-IsBounded backend enrich result.resources start c start-IsBounded
                  first))))
